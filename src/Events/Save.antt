-- ===== src/Events/Save.antt =====
-- Saving and deleting an event: `saveEvent`, `deleteEvent` and `cancelOccurrence` of app.js, as the
-- requests that they send.
use cal_stack.Base.{
  Option, none, some, List, [], ◌∷◌, ◌++◌, if◌then◌else◌, or_else, Text, codes, text_or?,
  text_or_null, text_or_null?, truthy, slice, ◌>>=◌,
}
use cal_stack.Rrule.{build_rrule}
use cal_stack.Events.{
  Occurrence, Location, Attendee, EventRow, create, edit, occurrence, split, EventForm, Editor,
  Browser,
}
use cal_stack.Events.Open.{Slot, occurrence_slot}

-- `all_day` with `starts_at` and `ends_at`, or with `start_date` and `end_date`.
pub data Times : Type 0 where
  at_times : Option Text → Option Text → Times
  on_days : Text → Text → Times

-- What is sent for an event. `rrule` is missing, or null or a rule; `recurrence_id` is one of
-- `recurrence_id_at` and `recurrence_id_date`.
pub record EventBody : Type 0 where
  pub uid : Option Text
  pub summary : Text
  pub description_html : Option Text
  pub description_text : Option Text
  pub url : Option Text
  pub status : Option Text
  pub visibility : Option Text
  pub transp : Option Text
  pub categories : List Text
  pub attendees : Option (List Attendee)
  pub location : Option Location
  pub times : Times
  pub rrule : Option (Option Text)
  pub master_event_id : Option Text
  pub recurrence_id : Option Occurrence

pub data Request : Type 0 where
  post patch : Text → Option Text → EventBody → Request
  -- `truncate_rest` of `truncateSeries`, with the summary.
  truncate : Text → Text → Occurrence → Request
  delete : Text → Option Text → Request

-- How a handler ends: nothing to do, a request sent, or an exception.
pub data Outcome : Type 0 where
  ignored : Outcome
  sent : Request → Outcome
  threw : Outcome

abbrev pub sent? : Option Request → Outcome
sent? none = threw
sent? (some r) = sent r

abbrev pub new_event_url : Text → Text
new_event_url cal = codes "/api/calendars/" ++ (cal ++ codes "/events")

abbrev pub event_url : Text → Text
event_url id = codes "/api/events/" ++ id

abbrev pub split_url : Text → Text
split_url id = codes "/api/events/" ++ (id ++ codes "/split")

module _ (b : Browser) where
  -- `localInputToIso`; `none` where it throws.
  unfoldable pub local_input_to_iso : Text → Option (Option Text)
  local_input_to_iso [] = some none
  local_input_to_iso (c ∷ v) = b.time_of (c ∷ v) >>= λ t. some (some (b.iso_of_time t))

  unfoldable pub read_times : EventForm → Option Times
  unfolding local_input_to_iso
  read_times f =
      if f.all_day then some (on_days (slice 0 10 f.start.value) (slice 0 10 f.end.value)) else (do
        start ← local_input_to_iso f.start.value
        end ← local_input_to_iso f.end.value
        some (at_times start end))

abbrev pub free_text : Text → Location
free_text s = record {
  display_name = some s;
  formatted_address = none;
  provider_place_id = none;
  others = [];
}

-- The `location` of the body.
unfoldable pub location_of : Option Location → Text → Option Location
location_of (some loc) text = some loc
location_of none text = if truthy text then some (free_text text) else none

-- The rule of the body: an exception carries none, and one that the picker did not understand is
-- left out.
unfoldable pub rrule_of : Editor → Option (Option Text)
rrule_of s = elim s.mode [
  | occurrence ↦ none
  | create ↦ if s.rrule_unknown then none else some (build_rrule s.form.repeat)
  | edit ↦ if s.rrule_unknown then none else some (build_rrule s.form.repeat)
  | split ↦ if s.rrule_unknown then none else some (build_rrule s.form.repeat)
]

module _ (b : Browser) where
  abbrev pub html_of : EventForm → Option Text
  html_of f = if b.is_blank_desc f.desc then none else some f.desc

  abbrev pub html_text? : Option Text → Option Text
  html_text? none = none
  html_text? (some html) = if truthy html then some (b.html_text html) else none

  abbrev pub body_at : Editor → Times → EventBody
  body_at s times = record {
    uid = none;
    summary = s.form.title;
    description_html = html_of s.form;
    description_text = html_text? (html_of s.form);
    url = text_or_null s.form.url;
    status = text_or_null? s.form.status;
    visibility = text_or_null? s.form.visibility;
    transp = text_or_null? s.form.transp;
    categories = s.categories;
    attendees = some s.attendees;
    location = location_of s.place_location s.form.location;
    times = times;
    rrule = rrule_of s;
    master_event_id = none;
    recurrence_id = none;
  }

  -- The body up to the fields that depend on the mode.
  unfoldable pub event_body : Editor → Option EventBody
  event_body s = read_times b s.form >>= λ times. some (body_at s times)

  -- The request of `saveEvent`, given the uid of the master in `state.eventCache`.
  unfoldable pub request_of : Text → (Text → Option Text) → Editor → EventBody → Request
  request_of cal uid_of s body = elim s.mode [
    | occurrence ↦ post (new_event_url cal) none (record body {
      master_event_id = s.event_id;
      uid = s.event_id >>= uid_of;
      recurrence_id = s.occurrence;
    })
    | split ↦
        post (split_url (or_else s.event_id (codes "null"))) none
          (record body { recurrence_id = s.occurrence })
    | edit ↦ elim s.event_id [
      | none ↦ post (new_event_url cal) none body
      | some id ↦
          if truthy id
          then patch (event_url id) (text_or_null? s.etag) body
          else post (new_event_url cal) none body
    ]
    | create ↦ elim s.event_id [
      | none ↦ post (new_event_url cal) none body
      | some id ↦
          if truthy id
          then patch (event_url id) (text_or_null? s.etag) body
          else post (new_event_url cal) none body
    ]
  ]

  -- `saveEvent`, with the id of the selected calendar.
  unfoldable pub save_event : Option Text → (Text → Option Text) → Editor → Outcome
  unfolding event_body
  save_event none uid_of s = ignored
  save_event (some cal) uid_of s =
      sent? (event_body s >>= λ body. some (request_of cal uid_of s body))

-- `deleteEvent`
unfoldable pub delete_event : Text → Option Text → Outcome
delete_event id etag = sent (delete (event_url id) (text_or_null? etag))

abbrev pub slot_times : Slot → Times
slot_times slot =
    if slot.is_timed
    then at_times (some slot.start) (some slot.end)
    else on_days slot.start slot.end

abbrev pub cancelled_body : EventRow → Occurrence → Slot → EventBody
cancelled_body ev occ slot = record {
  uid = some ev.uid;
  summary = text_or? ev.summary (codes "(untitled)");
  description_html = text_or_null? ev.description_html;
  description_text = text_or_null? ev.description_text;
  url = text_or_null? ev.url;
  status = some (codes "CANCELLED");
  visibility = text_or_null? ev.visibility;
  transp = text_or_null? ev.transp;
  categories = or_else ev.categories [];
  attendees = none;
  location = ev.location;
  times = slot_times slot;
  rrule = none;
  master_event_id = some ev.id;
  recurrence_id = some occ;
}

module _ (b : Browser) where
  abbrev pub cancel_at : Text → EventRow → Option Occurrence → Outcome
  cancel_at cal ev none = ignored
  cancel_at cal ev (some occ) = sent? (
      occurrence_slot b ev (some occ) >>= λ slot.
      some (post (new_event_url cal) none (cancelled_body ev occ slot)))

  -- `cancelOccurrence`, in the selected calendar.
  unfoldable pub cancel_occurrence : Text → EventRow → Outcome
  cancel_occurrence cal ev = cancel_at cal ev ev.occ

-- `truncateSeries`
unfoldable pub truncate_series : EventRow → Outcome
truncate_series ev = elim ev.occ [
  | none ↦ ignored
  | some occ ↦ sent (truncate (split_url ev.id) (text_or? ev.summary (codes "(untitled)")) occ)
]
