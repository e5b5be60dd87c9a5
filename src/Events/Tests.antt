-- ===== src/Events/Tests.antt =====
-- Runs of the event editor, and its theorems about series at a concrete one.
use cal_stack.Base.{◌≡◌, ◌≢◌, refl, inr, true, false, Option, none, some, Text, codes}
use cal_stack.Rrule.{apply_rrule_to_form}
use cal_stack.Events.{on_day, EventRow, create, edit, split, Editor}
use cal_stack.Events.Open.{reset_form, editor_of, rrule_of_mode}
use cal_stack.Events.Save.{
  Request, sent, on_days, read_times, event_url, delete, save_event, delete_event, EventBody,
}
use cal_stack.Events.Route.{
  head_of, head_for, body_of, save_event-open_existing, save_event-keeps_rule,
}
use cal_stack.Events.Menu.{Appointment, cancelled, series_event, is_series, on_delete}
use cal_stack.Events.Series.{on_delete-all_events}
use cal_stack.Events.Samples.{
  blank, blank_form, browser, opened_edit, opened_split, row_times, series, slot_times,
}

abbrev any_uid : Text → Option Text
any_uid id = some (codes "u1")

split-not_create : split ≢ create
split-not_create e = cc e

days_read : read_times browser blank_form ≡ some (on_days (codes "2026-03-01") (codes "2026-03-01"))
unfolding read_times
days_read = refl

save_event-open_existing_example :
    (r : Request) × (save_event browser
        (some (codes "c1"))
        any_uid
        (record (editor_of browser split series slot_times blank) { form = blank_form })
      ≡ sent r)
    × (head_of r ≡ some (head_for split (codes "c1") series))
save_event-open_existing_example =
    save_event-open_existing browser (codes "c1") any_uid split series blank
      (editor_of browser split series slot_times blank) blank_form
      (on_days (codes "2026-03-01") (codes "2026-03-01")) split-not_create refl opened_split
      days_read

not_understood :
    (apply_rrule_to_form browser.number_value browser.date_value
      (rrule_of_mode browser edit series)
      (reset_form blank.form).repeat).1
    ≡ false
unfolding apply_rrule_to_form
not_understood = refl

save_event-keeps_rule_example :
    (r : Request) × (body : EventBody) × (save_event browser
        (some (codes "c1"))
        any_uid
        (record (editor_of browser edit series row_times blank) { form = blank_form })
      ≡ sent r)
    × (body_of r ≡ some body)
    × (body.rrule ≡ none)
save_event-keeps_rule_example =
    save_event-keeps_rule browser (codes "c1") any_uid edit series blank
      (editor_of browser edit series row_times blank) blank_form
      (on_days (codes "2026-03-01") (codes "2026-03-01")) refl opened_edit days_read
      (inr not_understood)

abbrev cache : Text → Option EventRow
cache id = some series

abbrev click : Appointment
click = record { id = codes "e1"; occ = some (on_day (codes "2026-03-08")) }

clicked : series_event cache click ≡ some series
unfolding series_event
clicked = refl

repeats : is_series series ≡ true
unfolding is_series
repeats = refl

deleted :
    on_delete browser (codes "c1") false cache click cancelled true
    ≡ sent (delete (event_url (codes "e1")) (some (codes "v1")))
unfolding on_delete delete_event
deleted = refl

on_delete-all_events_example :
    (cancelled ≡ cancelled)
    × (event_url (codes "e1") ≡ event_url series.id)
    × (some (codes "v1") ≡ some (codes "v1"))
on_delete-all_events_example =
    on_delete-all_events browser (codes "c1") cache click series cancelled true
      (event_url (codes "e1")) (some (codes "v1")) clicked repeats deleted

abbrev edit_form : Editor
edit_form = record (editor_of browser edit series row_times blank) { form = blank_form }
