-- ===== src/Admin.antt =====
-- The admin page, admin.js: the checkboxes of the users, the request for a new user, and the log.
-- Upper case and the print of JSON are the browser's.
pub mod Flags
mod Tests
use cal_stack.Base.{
  Bool, true, false, not, Option, none, some, List, [], ◌∷◌, ◌++◌, ◌==◌, ℕ, if◌then◌else◌, map,
  Text, codes, show_nat,
}

-- The two checkboxes of a user.
pub data Flag : Type 0 where
  is_admin disabled : Flag

-- A checkbox, the flag on the server, and the values of the requests that are on their way, in the
-- order in which they were sent.
pub record Toggle : Type 0 where
  pub checked : Bool
  pub server : Bool
  pub pending : List Bool

-- The user clicks, or the server answers the request that is on its way for the longest time.
pub data ToggleEvent : Type 0 where
  click : ToggleEvent
  accepted : ToggleEvent
  rejected : ToggleEvent

abbrev pub after_answer : Bool → List Bool → Toggle → Toggle
after_answer ok [] t = t
after_answer true (v ∷ vs) t = record t { server = v; pending = vs }
after_answer false (v ∷ vs) t = record t { checked = not t.checked; pending = vs }

-- The handler of `change`, its `done` and its `fail`.
unfoldable pub handle_toggle : ToggleEvent → Toggle → Toggle
handle_toggle click t = record t {
  checked = not t.checked;
  pending = t.pending ++ (not t.checked ∷ []);
}
handle_toggle accepted t = after_answer true t.pending t
handle_toggle rejected t = after_answer false t.pending t

unfoldable pub run_toggle : List ToggleEvent → Toggle → Toggle
unfolding handle_toggle
run_toggle [] t = t
run_toggle (e ∷ es) t = run_toggle es (handle_toggle e t)

-- The message after the answer.
unfoldable pub toggle_message : Flag → Text → Bool → Text
toggle_message is_admin username checked = codes "Admin flag updated for " ++ username ++ codes "."
toggle_message disabled username checked =
    username ++ (if checked then codes " disabled." else codes " enabled.")

module _ (upper : ℕ → Text) where
  abbrev pub capitalize : Text → Text
  capitalize [] = []
  capitalize (c ∷ s) = upper c ++ s

  -- `humanize`; a missing value is the empty text.
  unfoldable pub humanize : Text → Text
  humanize value = capitalize (map (λ c. if c == b'_' then b' ' else c) value)

-- `change_summary`: null, a text, an object with a path and a status, or another value, with its JSON.
pub data Summary : Type 0 where
  null_summary : Summary
  text_summary : Text → Summary
  path_summary : Text → Text → Summary
  other_summary : Text → Summary

-- `auditSummary`
unfoldable pub audit_summary : Summary → Text
audit_summary null_summary = []
audit_summary (text_summary s) = s
audit_summary (path_summary path status) = path ++ codes " (" ++ status ++ codes ")"
audit_summary (other_summary json) = json

pub record AuditRow : Type 0 where
  pub created_at : Text
  pub action : Text
  pub object_type : Text
  pub change_summary : Summary

-- The cells of a row of `renderAudit`.
unfoldable pub audit_cells : (ℕ → Text) → AuditRow → List Text
unfolding humanize audit_summary
audit_cells upper r =
    r.created_at
    ∷ humanize upper r.action
    ∷ humanize upper r.object_type
    ∷ audit_summary r.change_summary
    ∷ []
