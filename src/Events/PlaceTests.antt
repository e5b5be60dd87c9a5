-- ===== src/Events/PlaceTests.antt =====
-- The theorems about places, attendees and unsaved changes at concrete inputs.
use cal_stack.Base.{none, ◌≡◌, ◌≢◌, refl, true, false, some, [], ◌∷◌, codes, text_eq, text_ne}
use cal_stack.Times.{set_time_controls, iso_to_local_input}
use cal_stack.Events.{split, Editor, location_display_text}
use cal_stack.Events.Open.{open_existing, editor_of}
use cal_stack.Events.Save.{on_days, read_times, free_text, event_body, body_at}
use cal_stack.Events.Place.{
  pick_place, type_location, type_all, event_body-pick_place, event_body-type_all,
}
use cal_stack.Events.Guard.{Window, changed, closing, answered, run, run-keeps}
use cal_stack.Events.Attendees.{Result, added, removed, Distinct, click_all, click_all-Distinct}
use cal_stack.Events.Samples.{blank, browser, cafe, opened_split, series, slot_times}

abbrev picked : Editor
picked = pick_place cafe blank

abbrev typed : Editor
typed = type_location (codes "Home") picked

elsewhere : codes "Home" ≢ location_display_text cafe
unfolding text_eq location_display_text
elsewhere = text_ne (codes "Home") (codes "Cafe — 1 Main St") refl

picked_body :
    event_body browser picked
    ≡ some (body_at browser picked (on_days (codes "2026-03-01") (codes "2026-03-01")))
unfolding pick_place event_body read_times
picked_body = refl

typed_body :
    event_body browser typed
    ≡ some (body_at browser typed (on_days (codes "2026-03-01") (codes "2026-03-01")))
unfolding pick_place type_location event_body read_times location_display_text text_eq
typed_body = refl

event_body-pick_place_example :
    ((body_at browser picked (on_days (codes "2026-03-01") (codes "2026-03-01"))).location
      ≡ some cafe)
    × ((body_at browser typed (on_days (codes "2026-03-01") (codes "2026-03-01"))).location
        ≡ some (free_text (codes "Home")))
event_body-pick_place_example =
    event_body-pick_place browser blank cafe (codes "Home") _ _ elsewhere refl picked_body
      typed_body

abbrev retyped : Editor
retyped = type_all (codes "Home" ∷ []) (editor_of browser split series slot_times blank)

retyped_body :
    event_body browser retyped
    ≡ some (body_at browser retyped (on_days (codes "2026-03-08") (codes "2026-03-02")))
unfolding type_all event_body read_times open_existing set_time_controls iso_to_local_input
retyped_body = refl

event_body-type_all_example :
    (body_at browser retyped (on_days (codes "2026-03-08") (codes "2026-03-02"))).location
    ≡ some cafe
event_body-type_all_example =
    event_body-type_all browser split series cafe blank
      (editor_of browser split series slot_times blank) (codes "Home" ∷ [])
      (body_at browser retyped (on_days (codes "2026-03-08") (codes "2026-03-02"))) refl refl
      opened_split retyped_body

abbrev changed_window : Window
changed_window = record { shown = true; dirty = true; asking = false }

run-keeps_example :
    ((run changed_window (closing ∷ answered false ∷ changed ∷ [])).shown ≡ true)
    × ((run changed_window (closing ∷ answered false ∷ changed ∷ [])).dirty ≡ true)
run-keeps_example =
    run-keeps (closing ∷ answered false ∷ changed ∷ []) changed_window refl refl
      (refl, (refl, (refl, tt)))

abbrev ann : Result
ann = record {
  id = codes "1";
  full_name = some (codes "Ann");
  email = some (codes "ann@x.org");
  tel = none;
  directory = true;
}

click_all-Distinct_example :
    Distinct (λ s. s) (click_all (λ s. s) (added ann ∷ added ann ∷ removed 0 ∷ added ann ∷ []) [])
click_all-Distinct_example =
    click_all-Distinct (λ s. s) (added ann ∷ added ann ∷ removed 0 ∷ added ann ∷ []) [] tt
