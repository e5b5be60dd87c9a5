-- ===== src/Feed/Clicked.antt =====
-- From the answer of the feed to a click on a pill: `occurrencesFor` of app.js with `state.eventCache`.
use cal_stack.Base.{
  false, ◌≡◌, refl, sym, ap, ◌∙◌, ◌⊎◌, inl, inr, Option, some, List, [], ◌∷◌, In, Text, text_eq,
  text_eq_refl, text_eq_sound, Bool-cases, if◌then◌else◌,
}
use cal_stack.Events.{EventRow, Occurrence}
use cal_stack.Events.Menu.{Answer, on_edit, edit_event, edit_event?, Appointment, series_event}
use cal_stack.Feed.{Clock, FeedCal, FeedRow, FeedItem, to_appointment}

-- `state.eventCache`
abbrev pub Cache : Type 0
Cache = Text → Option EventRow

abbrev pub remember : Text → EventRow → Cache → Cache
remember id ev cache k = if text_eq k id then some ev else cache k

module _ (b : Clock) (current cal : FeedCal) where
  -- `occurrencesFor`: the cache and the appointments after an answer.
  unfoldable pub occurrences_for : List FeedRow → Cache → Cache × List FeedItem
  unfolding to_appointment text_eq
  occurrences_for [] cache = (cache, [])
  occurrences_for (row ∷ rows) cache =
      let ev = record (row.event) { occ = row.occurrence } in
      let (after, items) = occurrences_for rows (remember ev.id ev cache) in
      (after, to_appointment b current cal row ∷ items)

-- Rows of the same event differ in their occurrence only.
abbrev pub SameEvents : List FeedRow → Type 0
SameEvents rows =
    (r q : FeedRow)
    → In r rows
    → In q rows
    → r.event.id ≡ q.event.id
    → (o : Option Occurrence) → record (r.event) { occ = o } ≡ record (q.event) { occ = o }

abbrev pub clicked : FeedItem → Appointment
clicked a = record { id = a.id; occ = a.occ }

module _ (b : Clock) (current cal : FeedCal) where
  -- What the cache holds for an id: what it held before, or a row of the answer.
  occurrences_for-cache :
      (rows : List FeedRow) (cache : Cache) (id : Text)
      → ((occurrences_for b current cal rows cache).0 id ≡ cache id)
        ⊎ ((r : FeedRow) × In r rows
            × (r.event.id ≡ id)
            × ((occurrences_for b current cal rows cache).0 id
                ≡ some (record (r.event) { occ = r.occurrence })))
  unfolding occurrences_for
  occurrences_for-cache [] cache id = inl refl
  occurrences_for-cache (row ∷ rows) cache id =
      let ev = record (row.event) { occ = row.occurrence } in
      elim (occurrences_for-cache rows (remember ev.id ev cache) id) [
        | inr (r, i, e, q) ↦ inr (r, inr i, e, q)
        | inl e ↦ elim (Bool-cases (text_eq id row.event.id)) [
          | inl h ↦ inr (row, inl refl, sym (text_eq_sound id row.event.id h), e ∙ (rw h refl))
          | inr h ↦ inl (e ∙ (rw h refl))
        ]
      ]

  occurrences_for-In :
      (rows : List FeedRow) (cache : Cache) (row : FeedRow)
      → In row rows
      → In (to_appointment b current cal row) ((occurrences_for b current cal rows cache).1)
  unfolding occurrences_for
  occurrences_for-In [] cache row i = elim i [ ]
  occurrences_for-In (x ∷ rows) cache row (inl e) = inl (ap (to_appointment b current cal) e)
  occurrences_for-In (x ∷ rows) cache row (inr i) = inr (occurrences_for-In rows _ row i)

  occurrences_for-cached :
      (rows : List FeedRow) (cache : Cache) (row : FeedRow)
      → In row rows
      → (r : FeedRow) × In r rows
        × (r.event.id ≡ row.event.id)
        × ((occurrences_for b current cal rows cache).0 row.event.id
            ≡ some (record (r.event) { occ = r.occurrence }))
  unfolding occurrences_for
  occurrences_for-cached [] cache row i = elim i [ ]
  occurrences_for-cached (x ∷ rows) cache row (inr i) =
      let (r, j, e, q) =
        occurrences_for-cached rows
          (remember x.event.id (record (x.event) { occ = x.occurrence }) cache) row i in
      (r, inr j, e, q)
  occurrences_for-cached (x ∷ rows) cache row (inl e) =
      let id = row.event.id in
      let after = remember x.event.id (record (x.event) { occ = x.occurrence }) cache in
      elim (occurrences_for-cache rows after id) [
        | inr (r, j, same, q) ↦ (r, inr j, same, q)
        | inl q ↦
            let h = ap (λ (r : FeedRow). text_eq id r.event.id) (sym e) ∙ text_eq_refl id in
            (x, inl refl, ap (λ (r : FeedRow). r.event.id) (sym e), q ∙ (rw h refl))
      ]

  cached_row :
      (rows : List FeedRow) (cache : Cache) (row : FeedRow) (o : Occurrence)
      → SameEvents rows
      → In row rows
      → row.occurrence ≡ some o
      → series_event
          (occurrences_for b current cal rows cache).0
          (clicked (to_appointment b current cal row))
        ≡ some (record (row.event) { occ = some o })
  unfolding series_event to_appointment
  cached_row rows cache row o same i e =
      let (r, j, q, c) = occurrences_for-cached rows cache row i in
      rw (c, e) (ap some (same r row j i q (some o)))

  -- A click on a pill opens its own occurrence: each row of an answer is shown by a pill; what a click
  -- on it finds in the cache is the event of the row with the occurrence of the row, also if other
  -- occurrences of the series were loaded after it; and this is the event that `onEdit` edits,
  -- whatever the user answers. Rows with the same id are the same event, and the row has an occurrence.
  pub series_event-occurrences_for :
      (rows : List FeedRow) (cache : Cache) (row : FeedRow) (o : Occurrence)
      → SameEvents rows
      → In row rows
      → row.occurrence ≡ some o
      → In (to_appointment b current cal row) ((occurrences_for b current cal rows cache).1)
        × (series_event
              (occurrences_for b current cal rows cache).0
              (clicked (to_appointment b current cal row))
            ≡ some (record (row.event) { occ = some o }))
        × ((answer : Answer)
            → on_edit false
                (occurrences_for b current cal rows cache).0
                (clicked (to_appointment b current cal row))
                answer
              ≡ edit_event answer (record (row.event) { occ = some o }))
  unfolding on_edit
  series_event-occurrences_for rows cache row o same i e =
      let here = cached_row rows cache row o same i e in
      (occurrences_for-In rows cache row i, here, λ answer. ap (edit_event? answer) here)
