-- ===== src/Events/Route.antt =====
-- What a save of the event editor sends, whatever was typed since the editor was opened.
use cal_stack.Base.{
  ◌≡◌, refl, sym, ap, ◌∙◌, Bool, true, false, not, if◌then◌else◌, ◌⊎◌, inl, inr, Option, none, some,
  some_inj, Text, truthy, text_or_null?, >>=-eq-some, ◌≢◌,
}
use cal_stack.Rrule.{apply_rrule_to_form}
use cal_stack.Events.{
  Occurrence, EventRow, Mode, create, edit, occurrence, split, EventForm, Editor, Browser,
}
use cal_stack.Events.Open.{
  reset_form, open_existing, is_edit, rrule_of_mode, shown_times, editor_of,
}
use cal_stack.Events.Save.{
  Times, EventBody, Request, post, patch, truncate, delete, sent, new_event_url, event_url,
  split_url, read_times, rrule_of, body_at, request_of, save_event,
}

-- The request line and the fields that tie the body to a series.
pub record Head : Type 0 where
  pub is_patch : Bool
  pub url : Text
  pub if_match : Option Text
  pub master_event_id : Option Text
  pub recurrence_id : Option Occurrence

abbrev pub head_of : Request → Option Head
head_of (post url etag body) = some (record {
  is_patch = false;
  url = url;
  if_match = etag;
  master_event_id = body.master_event_id;
  recurrence_id = body.recurrence_id;
})
head_of (patch url etag body) = some (record {
  is_patch = true;
  url = url;
  if_match = etag;
  master_event_id = body.master_event_id;
  recurrence_id = body.recurrence_id;
})
head_of (truncate url summary occ) = none
head_of (delete url etag) = none

abbrev pub body_of : Request → Option EventBody
body_of (post url etag body) = some body
body_of (patch url etag body) = some body
body_of (truncate url summary occ) = none
body_of (delete url etag) = none

-- What a save means for an event that was opened in a mode: a new exception in the calendar, a
-- split of the series at the occurrence, or a guarded change of the row.
abbrev pub head_for : Mode → Text → EventRow → Head
head_for occurrence cal ev = record {
  is_patch = false;
  url = new_event_url cal;
  if_match = none;
  master_event_id = some ev.id;
  recurrence_id = ev.occ;
}
head_for split cal ev = record {
  is_patch = false;
  url = split_url ev.id;
  if_match = none;
  master_event_id = none;
  recurrence_id = ev.occ;
}
head_for _ cal ev = record {
  is_patch = true;
  url = event_url ev.id;
  if_match = text_or_null? ev.etag;
  master_event_id = none;
  recurrence_id = none;
}

module _ (b : Browser) where
  -- What the editor holds of an event that was opened.
  pub open_existing-Editor :
      (mode : Mode) (ev : EventRow) (s t : Editor)
      → open_existing b mode ev s ≡ some t
      → (t.mode ≡ mode)
        × (t.event_id ≡ some ev.id)
        × (t.etag ≡ (if is_edit mode then ev.etag else none))
        × (t.occurrence ≡ (if is_edit mode then none else ev.occ))
        × (t.rrule_unknown
            ≡ not
                (apply_rrule_to_form b.number_value b.date_value
                  (rrule_of_mode b mode ev)
                  (reset_form s.form).repeat).1)
  unfolding open_existing
  open_existing-Editor mode ev s t e =
      let (times, p, q) = >>=-eq-some (shown_times b mode ev) _ e in
      let h : editor_of b mode ev times s ≡ t = some_inj _ _ q in
      (
        sym (ap (λ k. k.mode) h),
        sym (ap (λ k. k.event_id) h),
        sym (ap (λ k. k.etag) h),
        sym (ap (λ k. k.occurrence) h),
        sym (ap (λ k. k.rrule_unknown) h),
      )

  module _ (cal : Text) (uid_of : Text → Option Text) where
    save_event-sent :
        (k : Editor) (times : Times)
        → read_times b k.form ≡ some times
        → save_event b (some cal) uid_of k ≡ sent (request_of b cal uid_of k (body_at b k times))
    unfolding save_event
    save_event-sent k times h = rw h refl

    head_of-request_of :
        (mode : Mode) (ev : EventRow) (k : Editor) (body : EventBody)
        → mode ≢ create
        → truthy ev.id ≡ true
        → body.master_event_id ≡ none
        → body.recurrence_id ≡ none
        → k.mode ≡ mode
        → k.event_id ≡ some ev.id
        → k.etag ≡ (if is_edit mode then ev.etag else none)
        → k.occurrence ≡ (if is_edit mode then none else ev.occ)
        → head_of (request_of b cal uid_of k body) ≡ some (head_for mode cal ev)
    unfolding request_of
    head_of-request_of create ev k body o i m r hm he ht ho = absurd (o refl)
    head_of-request_of edit ev k body o i m r hm he ht ho = rw (hm, he, i, ht, m, r) refl
    head_of-request_of occurrence ev k body o i m r hm he ht ho = rw (hm, he, ho) refl
    head_of-request_of split ev k body o i m r hm he ht ho = rw (hm, he, ho, m) refl

    -- A save of an opened event is sent if the start and the end can be read, to the place that the
    -- mode asks for: "this occurrence" makes an exception of the series for the clicked occurrence,
    -- "this and following" splits the series there, and an edit changes the row under its etag. This
    -- holds whatever the form holds by then. The id of the event is not empty.
    pub save_event-open_existing :
        (mode : Mode) (ev : EventRow) (s t : Editor) (f : EventForm) (times : Times)
        → mode ≢ create
        → truthy ev.id ≡ true
        → open_existing b mode ev s ≡ some t
        → read_times b f ≡ some times
        → (r : Request) × (save_event b (some cal) uid_of (record t { form = f }) ≡ sent r)
          × (head_of r ≡ some (head_for mode cal ev))
    save_event-open_existing mode ev s t f times o i e h =
        let (hm, he, ht, ho, hr) = open_existing-Editor mode ev s t e in
        (
          _,
          save_event-sent (record t { form = f }) times h,
          head_of-request_of mode ev (record t { form = f })
              (body_at b (record t { form = f }) times) o i refl refl hm he ht ho,
        )

    rrule_of-none :
        (mode : Mode) (k : Editor)
        → k.mode ≡ mode
        → (mode ≡ occurrence) ⊎ (k.rrule_unknown ≡ true)
        → rrule_of k ≡ none
    unfolding rrule_of
    rrule_of-none occurrence k m h = rw m refl
    rrule_of-none create k m (inl e) = absurd (cc e)
    rrule_of-none edit k m (inl e) = absurd (cc e)
    rrule_of-none split k m (inl e) = absurd (cc e)
    rrule_of-none create k m (inr h) = rw (m, h) refl
    rrule_of-none edit k m (inr h) = rw (m, h) refl
    rrule_of-none split k m (inr h) = rw (m, h) refl

    body_of-request_of :
        (mode : Mode) (k : Editor) (id : Text) (body : EventBody)
        → truthy id ≡ true
        → k.mode ≡ mode
        → k.event_id ≡ some id
        → (sent_body : EventBody) × (body_of (request_of b cal uid_of k body) ≡ some sent_body)
          × (sent_body.rrule ≡ body.rrule)
    unfolding request_of
    body_of-request_of create k id body i m h = rw (m, h, i) (_, refl, refl)
    body_of-request_of edit k id body i m h = rw (m, h, i) (_, refl, refl)
    body_of-request_of occurrence k id body i m h = rw m (_, refl, refl)
    body_of-request_of split k id body i m h = rw m (_, refl, refl)

    -- The rule of a series is left alone: a save of one occurrence, and a save of an event whose rule
    -- the repeat picker did not understand when the editor was opened, sends a body without a rule,
    -- whatever the form holds by then. The start and the end can be read, and the id of the event
    -- is not empty.
    pub save_event-keeps_rule :
        (mode : Mode) (ev : EventRow) (s t : Editor) (f : EventForm) (times : Times)
        → truthy ev.id ≡ true
        → open_existing b mode ev s ≡ some t
        → read_times b f ≡ some times
        → (mode ≡ occurrence)
          ⊎ ((apply_rrule_to_form b.number_value b.date_value
                (rrule_of_mode b mode ev)
                (reset_form s.form).repeat).1
              ≡ false)
        → (r : Request) × (body : EventBody) × (save_event b
              (some cal)
              uid_of
              (record t { form = f })
            ≡ sent r)
          × (body_of r ≡ some body)
          × (body.rrule ≡ none)
    save_event-keeps_rule mode ev s t f times i e h u =
        let (hm, he, ht, ho, hr) = open_existing-Editor mode ev s t e in
        let k : Editor = record t { form = f } in
        let (body, p, q) = body_of-request_of mode k ev.id (body_at b k times) i hm he in
        let unknown : (mode ≡ occurrence) ⊎ (t.rrule_unknown ≡ true) = elim u [
          | inl o ↦ inl o
          | inr n ↦ inr (hr ∙ ap not n)
        ] in
        (_, body, save_event-sent k times h, p, q ∙ rrule_of-none mode k hm unknown)
