-- ===== src/Events.antt =====
-- The event editor of app.js: the rows of the server, the fields of the editor and its state. The
-- children model opening it, saving, the calendar's callbacks, the place picker and the guard on
-- unsaved changes.
pub mod Open
pub mod Save
pub mod Route
pub mod Place
pub mod Guard
pub mod Attendees
pub mod Attachments
mod AttachmentTests
pub mod Menu
pub mod Samples
mod Tests
mod PlaceTests
pub mod Series
use cal_stack.Base.{
  ℕ, Bool, Option, List, Text, none, some, [], false, text_or?, truthy, text_eq, not, ◌&&◌, ◌++◌,
  if◌then◌else◌, codes,
}
use cal_stack.Rrule.{RepeatForm}
use cal_stack.Times.{TimeControls}
use cal_stack.Tasks.Editor.{LocalTime}

-- `_occ`: the occurrence that was clicked, with the instant or the day at which it starts.
pub data Occurrence : Type 0 where
  timed : Text → Occurrence
  on_day : Text → Occurrence

-- A structured place; `others` stands for its remaining fields.
pub record Location : Type 0 where
  pub display_name : Option Text
  pub formatted_address : Option Text
  pub provider_place_id : Option Text
  pub others : Text

pub record Attendee : Type 0 where
  pub email : Option Text
  pub telephone : Option Text
  pub display_name : Option Text
  pub contact_id : Option Text
  pub user_id : Option Text

-- An event as the server sends it; a field that may be null or missing is an option.
pub record EventRow : Type 0 where
  pub id : Text
  pub uid : Text
  pub etag : Option Text
  pub master_event_id : Option Text
  pub rrule : Option Text
  pub summary : Option Text
  pub description_html : Option Text
  pub description_text : Option Text
  pub url : Option Text
  pub status : Option Text
  pub visibility : Option Text
  pub transp : Option Text
  pub categories : Option (List Text)
  pub attendees : Option (List Attendee)
  pub location : Option Location
  pub all_day : Bool
  pub starts_at : Option Text
  pub ends_at : Option Text
  pub start_date : Option Text
  pub end_date : Option Text
  pub occ : Option Occurrence

-- `state.editingMode`, and "create" while a new event is edited.
pub data Mode : Type 0 where
  create : Mode
  edit : Mode
  occurrence : Mode
  split : Mode

-- The fields of the editor; the value of a list with nothing selected is null.
pub record EventForm : Type 0 where
  pub title : Text
  pub desc : Text
  pub all_day : Bool
  pub start : TimeControls
  pub end : TimeControls
  pub url : Text
  pub status : Option Text
  pub visibility : Option Text
  pub transp : Option Text
  pub location : Text
  pub repeat : RepeatForm

-- The editor's part of `state`, with `pickedPlace`, `pickedText` and what the window shows.
pub record Editor : Type 0 where
  pub mode : Mode
  pub event_id : Option Text
  pub etag : Option Text
  pub occurrence : Option Occurrence
  pub rrule_unknown : Bool
  pub attendees : List Attendee
  pub categories : List Text
  pub place_location : Option Location
  pub picked_place : Option Location
  pub picked_text : Option Text
  pub dirty : Bool
  pub delete_hidden : Bool
  pub repeat_hidden : Bool
  pub form : EventForm

-- What the browser and the text editor of the description do. `time_of` and `day_of` are the
-- milliseconds and the days since 1970 of a text that `new Date` reads, `none` for an invalid date.
pub record Browser : Type 0 where
  pub number_value : Text → Text
  pub date_value : Text → Text
  pub local_time : Text → Option LocalTime
  pub time_of : Text → Option ℕ
  pub iso_of_time : ℕ → Text
  pub day_of : Text → Option ℕ
  pub iso_of_day : ℕ → Text
  pub desc_value : Text → Text
  pub is_blank_desc : Text → Bool
  pub html_text : Text → Text

-- `locationDisplayText`
unfoldable pub location_display_text : Location → Text
unfolding text_eq
location_display_text loc =
    let name = text_or? loc.display_name [] in
    let address = text_or? loc.formatted_address [] in
    if truthy name && truthy address && not (text_eq name address)
    then name ++ (codes " — " ++ address)
    else if truthy name
    then name
    else address
