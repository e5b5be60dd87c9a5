-- ===== src/Events/Menu.antt =====
-- The calendar's callbacks of app.js: `onAdd`, `onEdit` and `onDelete`, `seriesEvent` and the answer of
-- `seriesDialog`, with what they lead to.
use cal_stack.Base.{Bool, ◌&&◌, not, Option, none, some, if◌then◌else◌, Text, truthy?}
use cal_stack.Events.{Occurrence, EventRow, Mode, edit, occurrence, split, Browser}
use cal_stack.Events.Save.{Outcome, ignored, delete_event, truncate_series, cancel_occurrence}

-- The answer of a dialog with three buttons, or its dismissal in another way.
pub data Answer : Type 0 where
  confirmed denied cancelled dismissed : Answer

pub data Choice : Type 0 where
  this following all_events : Choice

-- `seriesDialog`
unfoldable pub series_choice : Answer → Option Choice
series_choice confirmed = some this
series_choice denied = some following
series_choice cancelled = some all_events
series_choice dismissed = none

-- What was clicked: the id of an event and the occurrence of the pill.
pub record Appointment : Type 0 where
  pub id : Text
  pub occ : Option Occurrence

abbrev pub at_occurrence : Option EventRow → Option Occurrence → Option EventRow
at_occurrence none occ = none
at_occurrence (some ev) none = some ev
at_occurrence (some ev) (some o) = some (record ev { occ = some o })

-- `seriesEvent`, with `state.eventCache`.
unfoldable pub series_event : (Text → Option EventRow) → Appointment → Option EventRow
series_event cache a = at_occurrence (cache a.id) a.occ

-- A series: an event with a rule that is no exception.
unfoldable pub is_series : EventRow → Bool
is_series ev = truthy? ev.rrule && not (truthy? ev.master_event_id)

-- The mode in which the editor opens after the answer to the series dialog.
abbrev pub mode_of : Option Choice → Option Mode
mode_of none = none
mode_of (some this) = some occurrence
mode_of (some following) = some split
mode_of (some all_events) = some edit

abbrev pub opening : EventRow → Option Mode → Option (Mode × EventRow)
opening ev none = none
opening ev (some m) = some (m, ev)

abbrev pub edit_event : Answer → EventRow → Option (Mode × EventRow)
edit_event answer ev =
    if is_series ev then opening ev (mode_of (series_choice answer)) else some (edit, ev)

abbrev pub edit_event? : Answer → Option EventRow → Option (Mode × EventRow)
edit_event? answer none = none
edit_event? answer (some ev) = edit_event answer ev

-- `onEdit`: the mode and the event for which the editor opens.
unfoldable pub on_edit :
    Bool → (Text → Option EventRow) → Appointment → Answer → Option (Mode × EventRow)
unfolding series_event is_series series_choice
on_edit read_only cache a answer =
    if read_only then none else edit_event? answer (series_event cache a)

module _ (b : Browser) (cal : Text) where
  abbrev pub delete_choice : EventRow → Option Choice → Outcome
  delete_choice ev none = ignored
  delete_choice ev (some this) = cancel_occurrence b cal ev
  delete_choice ev (some following) = truncate_series ev
  delete_choice ev (some all_events) = delete_event ev.id ev.etag

  abbrev pub delete_after : Answer → Bool → EventRow → Outcome
  delete_after answer sure ev =
      if is_series ev
      then delete_choice ev (series_choice answer)
      else if sure
      then delete_event ev.id ev.etag
      else ignored

  abbrev pub delete_after? : Answer → Bool → Option EventRow → Outcome
  delete_after? answer sure none = ignored
  delete_after? answer sure (some ev) = delete_after answer sure ev

  -- `onDelete` in the selected calendar, with the answers to the series dialog and to the question
  -- that is asked for another event.
  unfoldable pub on_delete : Bool → (Text → Option EventRow) → Appointment → Answer → Bool → Outcome
  unfolding series_event is_series series_choice
  on_delete read_only cache a answer sure =
      if read_only then ignored else delete_after? answer sure (series_event cache a)
