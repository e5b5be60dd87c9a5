-- ===== src/Events/Series.antt =====
-- The rows of a series are changed or deleted as a whole only on the answer "All events".
use cal_stack.Base.{
  ◌≡◌, refl, inl, inr, Bool, true, false, Option, none, some, Option-cases, Text, text_or_null?,
  ◌>>=◌,
}
use cal_stack.Events.{Occurrence, EventRow, Browser}
use cal_stack.Events.Open.{Slot, occurrence_slot}
use cal_stack.Events.Save.{
  EventBody, post, delete, sent, sent?, cancel_at, cancelled_body, cancel_occurrence, event_url,
  truncate_series, delete_event,
}
use cal_stack.Events.Menu.{
  Answer, confirmed, denied, cancelled, dismissed, Appointment, series_event, is_series,
  series_choice, on_delete,
}

truncate_series-not_delete :
    (ev : EventRow) (url : Text) (etag : Option Text)
    → truncate_series ev ≡ sent (delete url etag)
    → ⊥
unfolding truncate_series
truncate_series-not_delete ev url etag h = elim (Option-cases ev.occ) [
  | inl e ↦ cc (rw e at h)
  | inr (o, e) ↦ cc (rw e at h)
]

module _ (b : Browser) (cal : Text) where
  posts-not_delete :
      (slot : Option Slot) (f : Slot → EventBody) (at url : Text) (etag : Option Text)
      → sent? (slot >>= λ s. some (post at none (f s))) ≡ sent (delete url etag)
      → ⊥
  posts-not_delete none f at url etag h = cc h
  posts-not_delete (some s) f at url etag h = cc h

  cancel_at-not_delete :
      (ev : EventRow) (o : Option Occurrence) (url : Text) (etag : Option Text)
      → cancel_at b cal ev o ≡ sent (delete url etag)
      → ⊥
  cancel_at-not_delete ev none url etag h = cc h
  cancel_at-not_delete ev (some o) url etag h =
      posts-not_delete (occurrence_slot b ev (some o)) (cancelled_body ev o) _ url etag h

  -- A series is deleted as a whole only if the user answered "All events", and then the row of the
  -- clicked event is deleted, under its etag.
  pub on_delete-all_events :
      (cache : Text → Option EventRow) (a : Appointment) (ev : EventRow) (answer : Answer)
      (sure : Bool) (url : Text) (etag : Option Text)
      → series_event cache a ≡ some ev
      → is_series ev ≡ true
      → on_delete b cal false cache a answer sure ≡ sent (delete url etag)
      → (answer ≡ cancelled) × (url ≡ event_url ev.id) × (etag ≡ text_or_null? ev.etag)
  unfolding on_delete series_choice delete_event cancel_occurrence
  on_delete-all_events cache a ev confirmed sure url etag e s h =
      absurd (cancel_at-not_delete ev ev.occ url etag (rw (e, s) at h))
  on_delete-all_events cache a ev denied sure url etag e s h =
      absurd (truncate_series-not_delete ev url etag (rw (e, s) at h))
  on_delete-all_events cache a ev cancelled sure url etag e s h =
      let k : sent (delete (event_url ev.id) (text_or_null? ev.etag)) ≡ sent (delete url etag) =
        rw (e, s) at h in
      (refl, cc k, cc k)
  on_delete-all_events cache a ev dismissed sure url etag e s h = absurd (cc (rw (e, s) at h))
