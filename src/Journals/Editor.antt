-- ===== src/Journals/Editor.antt =====
-- The editor of journals.js: `openEditor`, `save` and the submit handler of `#journal-form`.
use cal_stack.Base.{
  Bool, true, false, Option, none, some, List, [], ◌∷◌, ◌++◌, if◌then◌else◌, any, length, ℕ, suc,
  ◌+◌, ◌≤◌, arith, Bool-cases, inl, inr, Text, codes, text_eq, text_or?, text_or_null, trim,
}
use cal_stack.Journals.{Journal}

-- The fields of the editor; the value of a list with nothing selected is null.
pub record JournalForm : Type 0 where
  pub summary : Text
  pub desc : Text
  pub date : Text
  pub status : Option Text

-- What is sent; the day is left out unless it is set.
pub record JournalBody : Type 0 where
  pub summary : Text
  pub description_text : Option Text
  pub status : Option Text
  pub start_date : Option Text

-- A new journal in a calendar, or a change of one.
pub data Request : Type 0 where
  post patch : Text → JournalBody → Request

abbrev pub journal_status_options : List Text
journal_status_options = [] ∷ codes "DRAFT" ∷ codes "FINAL" ∷ codes "CANCELLED" ∷ []

unfoldable pub select_journal_status : Text → Option Text
unfolding text_eq
select_journal_status v = if any (text_eq v) journal_status_options then some v else none

module _ (date_value : Text → Text) where
  -- `openEditor`, for a journal or for a new one.
  unfoldable pub open_journal : Option Journal → JournalForm
  unfolding select_journal_status
  open_journal none = record {
    summary = [];
    desc = [];
    date = date_value [];
    status = select_journal_status [];
  }
  open_journal (some j) = record {
    summary = text_or? j.summary [];
    desc = text_or? j.description_text [];
    date = date_value (text_or? j.start_date []);
    status = select_journal_status (text_or? j.status []);
  }

unfoldable pub journal_body : JournalForm → JournalBody
unfolding trim
journal_body f = record {
  summary = trim f.summary;
  description_text = text_or_null (trim f.desc);
  status = text_or_null (text_or? f.status []);
  start_date = text_or_null f.date;
}

-- `save`, in a calendar.
unfoldable pub save_journal : Text → Option Journal → JournalForm → Request
unfolding journal_body
save_journal cal none f =
    post (codes "/api/calendars/" ++ (cal ++ codes "/journals")) (journal_body f)
save_journal cal (some j) f = patch (codes "/api/journals/" ++ j.id) (journal_body f)

-- The journal of the editor and the flag `$form.data('busy')`.
pub record Pane : Type 0 where
  pub editing : Option Journal
  pub busy : Bool

pub data Event : Type 0 where
  -- a click on a journal, or on the button of a new one
  opened : Option Journal → Event
  submit : JournalForm → Event
  -- the request came back, with or without an error
  answered : Bool → Event

module _ (cal : Text) where
  unfoldable pub handle : Pane → Event → Pane × List Request
  unfolding save_journal
  handle p (opened j) = (record p { editing = j }, [])
  handle p (submit f) =
      if p.busy then (p, []) else (record p { busy = true }, save_journal cal p.editing f ∷ [])
  handle p (answered ok) = (record p { busy = false }, [])

  -- The pane and the requests after a list of events.
  unfoldable pub run : Pane → List Event → Pane × List Request
  unfolding handle
  run p [] = (p, [])
  run p (e ∷ es) =
      let (q, sent_now) = handle p e in
      let (r, sent_later) = run q es in (r, sent_now ++ sent_later)

-- How many requests came back.
abbrev pub answers : List Event → ℕ
answers [] = 0
answers (opened j ∷ es) = answers es
answers (submit f ∷ es) = answers es
answers (answered ok ∷ es) = suc (answers es)

module _ (cal : Text) where
  -- The editor has at most one request on its way: whatever is opened and submitted, it sends at most
  -- one request more than came back, and none more if it was busy at the start.
  pub length-run :
      (es : List Event) (p : Pane)
      → length (run cal p es).1 ≤ answers es + (if p.busy then 0 else 1)
  unfolding run handle
  length-run [] p = omega arith
  length-run (opened j ∷ es) p = length-run es (record p { editing = j })
  length-run (answered ok ∷ es) p =
      omega (arith, length-run es (record p { busy = false }), free_le p.busy)
    where
      free_le : (b : Bool) → 0 ≤ (if b then 0 else 1)
      free_le b = omega arith
  length-run (submit f ∷ es) p = elim (Bool-cases p.busy) [
    | inl e ↦ rw e (length-run es (record p { busy = true }))
    | inr e ↦ rw e (omega (arith, length-run es (record p { busy = true })))
  ]
