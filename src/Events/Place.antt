-- ===== src/Events/Place.antt =====
-- The place picker of the event editor in app.js: typing into `#ev-location`, and a pick from the
-- menu of places.
use cal_stack.Base.{
  ◌≡◌, refl, sym, ap, ◌∙◌, ◌≢◌, true, ◌&&◌, not, Bool-cases, inl, inr, Option, none, some, some_inj,
  List, [], ◌∷◌, if◌then◌else◌, is_some, truthy, truthy?, Text, text_eq, text_eq_sound, >>=-eq-some,
}
use cal_stack.Tasks.{text_eq?}
use cal_stack.Events.{Location, EventRow, Mode, Editor, Browser, location_display_text}
use cal_stack.Events.Open.{open_existing, shown_times, editor_of, place_of}
use cal_stack.Events.Save.{EventBody, free_text, location_of, read_times, event_body, body_at}

-- The editor after the location field got a text.
abbrev pub with_location : Text → Editor → Editor
with_location text s = record s { form = record (s.form) { location = text } }

-- The `input` handler of `#ev-location`, less the request for suggestions.
unfoldable pub type_location : Text → Editor → Editor
unfolding text_eq
type_location text s =
    if is_some s.picked_place && not (text_eq? s.picked_text text)
    then record (with_location text s) {
      place_location = none;
      picked_place = none;
      picked_text = none;
    }
    else with_location text s

-- The texts that the field has after each input event.
unfoldable pub type_all : List Text → Editor → Editor
unfolding type_location
type_all [] s = s
type_all (text ∷ rest) s = type_all rest (type_location text s)

-- The click on a suggestion, with the place that the server sent.
unfoldable pub pick_place : Location → Editor → Editor
pick_place loc s = record (with_location (location_display_text loc) s) {
  place_location = some loc;
  picked_place = some loc;
  picked_text = some (location_display_text loc);
}

type_location-unpicked :
    (text : Text) (k : Editor) → k.picked_place ≡ none → type_location text k ≡ with_location text k
unfolding type_location
type_location-unpicked text k e =
    ap
      (λ (o : Option Location).
        if is_some o && not (text_eq? k.picked_text text)
        then record (with_location text k) {
          place_location = none;
          picked_place = none;
          picked_text = none;
        }
        else with_location text k)
      e

module _ (b : Browser) where
  event_body-location :
      (k : Editor) (body : EventBody)
      → event_body b k ≡ some body
      → body.location ≡ location_of k.place_location k.form.location
  unfolding event_body
  event_body-location k body e =
      let (times, p, q) = >>=-eq-some (read_times b k.form) _ e in
      let h : body_at b k times ≡ body = some_inj _ _ q in sym (ap (λ x. x.location) h)

  -- A place that was picked from the menu is sent as the server described it, and typing another
  -- text afterwards sends that text as the place instead. The text is not empty.
  pub event_body-pick_place :
      (s : Editor) (loc : Location) (text : Text) (picked typed : EventBody)
      → text ≢ location_display_text loc
      → truthy text ≡ true
      → event_body b (pick_place loc s) ≡ some picked
      → event_body b (type_location text (pick_place loc s)) ≡ some typed
      → (picked.location ≡ some loc) × (typed.location ≡ some (free_text text))
  unfolding pick_place type_location location_of
  event_body-pick_place s loc text picked typed ne t e h = (
    event_body-location (pick_place loc s) picked e,
    elim (Bool-cases (text_eq (location_display_text loc) text)) [
      | inl same ↦ absurd (ne (sym (text_eq_sound _ _ same)))
      | inr other ↦
          let q = event_body-location (type_location text (pick_place loc s)) typed h in
          rw (other, t) at q
    ],
  )

  place_kept :
      (texts : List Text) (k : Editor)
      → k.picked_place ≡ none
      → (type_all texts k).place_location ≡ k.place_location
  unfolding type_all
  place_kept [] k e = refl
  place_kept (text ∷ rest) k e =
      ap (λ x. (type_all rest x).place_location) (type_location-unpicked text k e)
      ∙ place_kept rest (with_location text k) e

  -- Typing into the location of an event that was opened with a picked place changes nothing of what
  -- is sent: whatever is typed, the body carries the old place. Picked means that the place has an id
  -- of its provider.
  pub event_body-type_all :
      (mode : Mode) (ev : EventRow) (loc : Location) (s t : Editor) (texts : List Text)
      (body : EventBody)
      → ev.location ≡ some loc
      → truthy? loc.provider_place_id ≡ true
      → open_existing b mode ev s ≡ some t
      → event_body b (type_all texts t) ≡ some body
      → body.location ≡ some loc
  unfolding open_existing location_of
  event_body-type_all mode ev loc s t texts body l p e h =
      let (times, u, v) = >>=-eq-some (shown_times b mode ev) _ e in
      let q : editor_of b mode ev times s ≡ t = some_inj _ _ v in
      let unpicked : t.picked_place ≡ none = sym (ap (λ x. x.picked_place) q) in
      let place : t.place_location ≡ some loc =
        sym (ap (λ x. x.place_location) q) ∙ ap place_of l ∙ (rw p refl) in
      event_body-location (type_all texts t) body h
      ∙ ap (λ x. location_of x (type_all texts t).form.location)
          (place_kept texts t unpicked ∙ place)
