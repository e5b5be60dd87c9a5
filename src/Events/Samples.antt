-- ===== src/Events/Samples.antt =====
-- A browser, an empty editor, a place and a series for the tests of the event editor.
use cal_stack.Base.{◌≡◌, refl, true, false, Option, none, some, [], length, Text, codes, text_eq}
use cal_stack.Times.{TimeControls}
use cal_stack.Events.{on_day, Location, EventRow, edit, split, EventForm, Editor, Browser}
use cal_stack.Events.Open.{occurrence_slot, open_existing, editor_of}

-- A clock that counts the length of a text, which is enough to tell texts apart here.
abbrev pub browser : Browser
browser = record {
  number_value = λ s. s;
  date_value = λ s. s;
  local_time = λ s. some (record { year = 2026; month = 3; day = 1; hours = 9; minutes = 0 });
  time_of = λ s. some (length s);
  iso_of_time = λ n. codes "2026-03-01T09:00:00.000Z";
  day_of = λ s. some (length s);
  iso_of_day = λ n. codes "2026-03-02";
  desc_value = λ s. s;
  is_blank_desc = λ s. text_eq s [];
  html_text = λ s. s;
}

abbrev pub controls : TimeControls
controls = record {
  value = codes "2026-03-01";
  date = codes "2026-03-01";
  hour = some (codes "09");
  minute = some (codes "00");
  ampm = some (codes "AM");
}

abbrev pub blank_form : EventForm
blank_form = record {
  title = [];
  desc = [];
  all_day = true;
  start = controls;
  end = controls;
  url = [];
  status = some [];
  visibility = some [];
  transp = some [];
  location = [];
  repeat = record { freq = some []; interval = codes "1"; until = []; rows_hidden = true };
}

abbrev pub blank : Editor
blank = record {
  mode = edit;
  event_id = none;
  etag = none;
  occurrence = none;
  rrule_unknown = false;
  attendees = [];
  categories = [];
  place_location = none;
  picked_place = none;
  picked_text = none;
  dirty = false;
  delete_hidden = true;
  repeat_hidden = false;
  form = blank_form;
}

abbrev pub cafe : Location
cafe = record {
  display_name = some (codes "Cafe");
  formatted_address = some (codes "1 Main St");
  provider_place_id = some (codes "p1");
  others = [];
}

-- A weekly series on two days of the week, which the repeat picker does not understand.
abbrev pub series : EventRow
series = record {
  id = codes "e1";
  uid = codes "u1";
  etag = some (codes "v1");
  master_event_id = none;
  rrule = some (codes "FREQ=WEEKLY;BYDAY=MO,WE");
  summary = some (codes "Lunch");
  description_html = none;
  description_text = none;
  url = none;
  status = none;
  visibility = none;
  transp = none;
  categories = none;
  attendees = none;
  location = some cafe;
  all_day = true;
  starts_at = none;
  ends_at = none;
  start_date = some (codes "2026-03-01");
  end_date = some (codes "2026-03-02");
  occ = some (on_day (codes "2026-03-08"));
}

abbrev pub slot_times : Option Text × Option Text
slot_times = (some (codes "2026-03-08"), some (codes "2026-03-02"))

abbrev pub row_times : Option Text × Option Text
row_times = (some (codes "2026-03-01"), some (codes "2026-03-02"))

pub opened_split :
    open_existing browser split series blank
    ≡ some (editor_of browser split series slot_times blank)
unfolding open_existing occurrence_slot
opened_split = refl

pub opened_edit :
    open_existing browser edit series blank ≡ some (editor_of browser edit series row_times blank)
unfolding open_existing
opened_edit = refl
