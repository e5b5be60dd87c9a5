-- ===== src/Sharing.antt =====
-- The share dialog of app.js: the access list (`renderAcl`, `loadAcl`, `saveAcl`, `#acl-user`,
-- `#acl-add`), the links (`renderShares`, `createShare`), and the import and export of a calendar.
-- The delay of the search for a user is left out: its answer is an event.
pub mod Granted
mod Tests
use cal_stack.Base.{
  ℕ, zero, suc, Bool, true, false, not, Option, none, some, List, [], ◌∷◌, ◌++◌, map, ltb,
  if◌then◌else◌, keep, length, get_elem?, is_empty, Text, codes, text_eq, text_or, text_or?, truthy,
  truthy?, trim, show_nat,
}

-- An entry of the access list.
pub record AclEntry : Type 0 where
  pub user_id : Text
  pub capability : Option Text
  pub can_manage_acl : Bool

-- A row of the autocompletion.
pub record Person : Type 0 where
  pub id : Text
  pub full_name : Option Text
  pub email : Option Text
  pub directory : Bool

-- `capText`
unfoldable pub cap_text : Text → Text
unfolding text_eq
cap_text access =
    if text_eq access (codes "read_write")
    then codes "read / write"
    else if text_eq access (codes "read_only")
    then codes "read-only"
    else if text_eq access (codes "free_busy")
    then codes "free/busy"
    else []

-- A row of `renderAcl`.
unfoldable pub acl_row : AclEntry → Text × Text
unfolding cap_text
acl_row e = (e.user_id, text_or (cap_text (text_or? e.capability [])) (text_or? e.capability []))

-- `reach` of a person, and what the two lines of a result say.
abbrev pub reach_of : Person → Text
reach_of c = text_or? c.email c.id

unfoldable pub result_lines : Person → Text × Text
result_lines c = (text_or? c.full_name (reach_of c), reach_of c ++ codes " · directory")

-- `state.currentAcl`, `aclUserId`, the text of `#acl-user`, the results below it, and whether they
-- are shown.
pub record AclPane : Type 0 where
  pub acl : List AclEntry
  pub user : Option Text
  pub field : Text
  pub results : List Person
  pub results_hidden : Bool

abbrev pub fresh_acl : AclPane
fresh_acl = record { acl = []; user = none; field = []; results = []; results_hidden = true }

pub data AclEvent : Type 0 where
  acl_loaded : List AclEntry → AclEvent
  remove : Text → AclEvent
  typed : Text → AclEvent
  found : List Person → AclEvent
  pick : ℕ → AclEvent
  click_away : AclEvent
  add : Option Text → AclEvent

abbrev pub hide_acl_results : AclPane → AclPane
hide_acl_results p = record p { results = []; results_hidden = true }

-- The entries of a `PUT`, none if nothing is sent.
abbrev pub AclPut : Type 0
AclPut = Option (List AclEntry)

abbrev picked : Option Person → AclPane → AclPane
picked none p = p
picked (some c) p =
    hide_acl_results (record p { user = some c.id; field = text_or? c.full_name (reach_of c) })

abbrev granted : Option Text → Text → List AclEntry → List AclEntry
granted access id acl =
    acl ++ (record { user_id = id; capability = access; can_manage_acl = false } ∷ [])

-- `#acl-add`
abbrev added : Option Text → Option Text → AclPane → AclPane × AclPut
added access none p = (p, none)
added access (some id) p =
    if truthy id
    then (
      record p { acl = granted access id p.acl; user = none; field = [] },
      some (granted access id p.acl),
    )
    else (p, none)

unfoldable pub handle_acl : AclPane → AclEvent → AclPane × AclPut
unfolding text_eq trim
handle_acl p (acl_loaded rows) = (record p { acl = rows }, none)
handle_acl p (remove id) =
    let acl = keep (λ (e : AclEntry). not (text_eq e.user_id id)) p.acl in
    (record p { acl = acl }, some acl)
handle_acl p (typed s) =
    let q = record p { user = none; field = s } in
    (if ltb (length (trim s)) 2 then hide_acl_results q else q, none)
handle_acl p (found list) =
    (record p { results = keep (λ (c : Person). c.directory) list; results_hidden = false }, none)
handle_acl p (pick i) = (picked (get_elem? p.results i) p, none)
handle_acl p click_away = (hide_acl_results p, none)
handle_acl p (add access) = added access p.user p

-- The pane and the requests after a list of events.
unfoldable pub run_acl : AclPane → List AclEvent → AclPane × List AclPut
unfolding handle_acl
run_acl p [] = (p, [])
run_acl p (e ∷ es) =
    let (q, sent) = handle_acl p e in let (r, later) = run_acl q es in (r, sent ∷ later)

-- A link of `GET /shares`.
pub record Share : Type 0 where
  pub id : Text
  pub allows_caldav : Bool
  pub created_at : Text

unfoldable pub share_line : Share → Text
share_line s =
    (if s.allows_caldav then codes "CalDAV link" else codes "Public link")
    ++ codes " — created "
    ++ s.created_at

-- `renderShares`: the lines and the addresses that revoke them.
unfoldable pub render_shares : Text → List Share → List (Text × Text)
unfolding share_line
render_shares cal_id shares =
    map
      (λ (s : Share). (share_line s, codes "/api/calendars/" ++ cal_id ++ codes "/shares/" ++ s.id))
      shares

-- The address that `createShare` shows.
unfoldable pub share_url : Text → Text → Text
share_url origin token = origin ++ codes "/share/" ++ token ++ codes "/calendar.ics"

-- What the buttons of import and export read of `state.currentCalendar`; `read_only` is the field of
-- a row of the server, which the object of a subscription does not have.
pub record IcsCal : Type 0 where
  pub id : Text
  pub slug : Option Text
  pub read_only : Option Bool

-- `#export-btn`: the address and the name of the file.
unfoldable pub export_link : Option IcsCal → Option (Text × Text)
export_link none = none
export_link (some cal) = some (
  codes "/api/calendars/" ++ cal.id ++ codes "/export.ics",
  (elim cal.slug [ none ↦ codes "undefined" | some s ↦ s ]) ++ codes ".ics",
)

pub data ImportClick : Type 0 where
  import_ignored : ImportClick
  import_refused : ImportClick
  choose_file : ImportClick

-- `#import-btn`
unfoldable pub click_import : Option IcsCal → ImportClick
click_import none = import_ignored
click_import (some cal) = elim cal.read_only [
  | none ↦ choose_file
  | some b ↦ if b then import_refused else choose_file
]

-- The message after an import.
unfoldable pub import_message : ℕ → ℕ → ℕ → Text
unfolding show_nat
import_message imported skipped rejected =
    show_nat imported
    ++ codes " imported, "
    ++ show_nat skipped
    ++ codes " skipped"
    ++ (if ltb 0 rejected then codes ", " ++ show_nat rejected ++ codes " rejected" else [])
    ++ codes "."
