-- ===== src/Panes/Answers.antt =====
-- The rows that the panes of tasks and of journals show, against the selected calendar.
use cal_stack.Base.{
  ◌≡◌, refl, sym, ap, ◌∙◌, ◌⊎◌, inl, inr, true, Option, none, some, List, [], ◌∷◌, ◌++◌, All, Text,
  truthy, Bool-cases, some_inj,
}
use cal_stack.Panes.{
  PaneCal, ListPane, ListEvent, load, filter, answer, answer_first, same_id, accepts, load_rows,
  load_pane, render_rows, rows_loaded, handle_list, run_list, fresh_list,
}

module _ {Row : Type 0} (component : Text) (rows_of : Text → List Row) where
  abbrev last_of : List Text → Option Text
  last_of [] = none
  last_of (x ∷ []) = some x
  last_of (x ∷ y ∷ xs) = last_of (y ∷ xs)

  last_of-snoc : (xs : List Text) (x : Text) → last_of (xs ++ (x ∷ [])) ≡ some x
  last_of-snoc [] x = refl
  last_of-snoc (y ∷ []) x = refl
  last_of-snoc (y ∷ z ∷ xs) x = last_of-snoc (z ∷ xs) x

  -- A list shows the rows of the calendar and nothing is on its way, or the request for them is the last one on its way.
  abbrev Settles : ListPane Row → Type 0
  Settles p =
      (id : Text)
      → p.cal_id ≡ some id
      → ((p.pending ≡ []) × (p.shown ≡ rows_of id) × (p.rows ≡ rows_of id))
        ⊎ (last_of p.pending ≡ some id)

  abbrev pub HasId : ListEvent → Type 0
  HasId (load cal) = truthy cal.id ≡ true
  HasId filter = Unit
  HasId answer = Unit

  load_pane-Settles :
      (cal : PaneCal) (p : ListPane Row)
      → truthy cal.id ≡ true
      → Settles p
      → Settles (load_pane component cal p)
  unfolding load_pane load_rows
  load_pane-Settles cal p t h = elim (Bool-cases (same_id p.memo (some cal.id))) [
    | inl e ↦ rw e h
    | inr e ↦ elim (Bool-cases (accepts component cal)) [
      | inl a ↦ rw (e, a, t) (λ id q. inr (last_of-snoc p.pending cal.id ∙ q))
      | inr a ↦ rw (e, a) (λ id q. absurd (cc (q)))
    ]
  ]

  answer_first-Settles :
      (p : ListPane Row) (ids : List Text)
      → p.pending ≡ ids
      → Settles p
      → Settles (answer_first component rows_of ids p)
  unfolding rows_loaded
  answer_first-Settles p [] e h = h
  answer_first-Settles p (x ∷ []) e h = λ id q. elim (h id q) [
    | inl (n, s, r) ↦ absurd (cc (sym e ∙ n))
    | inr l ↦
        let same = ap rows_of (some_inj x id (sym (ap last_of e) ∙ l)) in inl (refl, same, same)
  ]
  answer_first-Settles p (x ∷ y ∷ ids) e h = λ id q. elim (h id q) [
    | inl (n, s, r) ↦ absurd (cc (sym e ∙ n))
    | inr l ↦ inr (sym (ap last_of e) ∙ l)
  ]

  handle_list-Settles :
      (e : ListEvent) (p : ListPane Row)
      → HasId e
      → Settles p
      → Settles (handle_list component rows_of e p)
  unfolding handle_list render_rows
  handle_list-Settles (load cal) p t h = load_pane-Settles cal p t h
  handle_list-Settles filter p t h =
      λ id q. elim (h id q) [ inl (n, s, r) ↦ inl (n, r, r) | inr l ↦ inr l ]
  handle_list-Settles answer p t h = answer_first-Settles p p.pending refl h

  run_list-Settles :
      (events : List ListEvent) (p : ListPane Row)
      → All HasId events
      → Settles p
      → Settles (run_list component rows_of events p)
  unfolding run_list
  run_list-Settles [] p t h = h
  run_list-Settles (e ∷ events) p t h =
      run_list-Settles events _ t.1 (handle_list-Settles e p t.0 h)

  -- Once every request is answered, the list shows the rows of the calendar that the pane is for,
  -- after any sequence of selections, changes of a filter that leaves out nothing, and answers. The
  -- server answers in the order of the requests, with the rows of the calendar, and the ids of calendars are not empty.
  pub run_list-settled :
      (events : List ListEvent) (id : Text)
      → All HasId events
      → (run_list component rows_of events fresh_list).pending ≡ []
      → (run_list component rows_of events fresh_list).cal_id ≡ some id
      → (run_list component rows_of events fresh_list).shown ≡ rows_of id
  run_list-settled events id t n q =
      elim (run_list-Settles events fresh_list t (λ i e. absurd (cc (e))) id q) [
        | inl (m, s, r) ↦ s
        | inr l ↦ absurd (cc (sym (ap last_of n) ∙ l))
      ]
