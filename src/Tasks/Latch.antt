-- ===== src/Tasks/Latch.antt =====
-- The submit handler of `#task-form`: a form that is busy ignores the event, and `always` of the
-- promise that `saveEditor` returns makes it free again.
use cal_stack.Base.{
  ◌≤◌, ◌≡◌, refl, ◌⊎◌, inl, inr, Bool, true, false, Option, none, some, List, [], ◌∷◌, ◌++◌, arith,
  if◌then◌else◌, Bool-cases, length, length-append, Text,
}
use cal_stack.Tasks.{Task}
use cal_stack.Tasks.Editor.{Browser, TaskForm, TaskBody, Saved, nothing, sent, threw, save_editor}

-- The flag `$form.data('busy')` and the task that the editor holds.
pub record Pane : Type 0 where
  pub editing : Option Task
  pub busy : Bool

-- A `PATCH` request: its address and its body.
abbrev pub Patch : Type 0
Patch = Text × TaskBody

-- What the user and the server do: a row's summary is clicked, the form is submitted with these
-- fields, or a request for a task was answered.
pub data Event : Type 0 where
  edit : Task → Event
  submit : TaskForm → Event
  answered : Bool → Event

-- The end of the submit handler. `undefined.always` throws, so the flag stays.
abbrev pub finish : Pane → Saved → Pane × List Patch
finish p nothing = (record p { busy = false }, [])
finish p (sent url body) = (p, (url, body) ∷ [])
finish p threw = (p, [])

module _ (b : Browser) where
  unfoldable pub handle : Pane → Event → Pane × List Patch
  handle p (edit t) = (record p { editing = some t }, [])
  handle p (submit f) =
      if p.busy then (p, []) else finish (record p { busy = true }) (save_editor b p.editing f)
  handle p (answered ok) = (p, [])

  -- The pane and the requests after a list of events.
  unfoldable pub run : Pane → List Event → Pane × List Patch
  unfolding handle
  run p [] = (p, [])
  run p (e ∷ es) =
      let (q, sent_now) = handle p e in
      let (r, sent_later) = run q es in (r, sent_now ++ sent_later)

abbrev pub fresh_pane : Pane
fresh_pane = record { editing = none; busy = false }

module _ (b : Browser) where
  handle-busy :
      (p : Pane) (e : Event)
      → p.busy ≡ true
      → ((handle b p e).0.busy ≡ true) × ((handle b p e).1 ≡ [])
  unfolding handle
  handle-busy p (edit t) h = (h, refl)
  handle-busy p (submit f) h = rw h (refl, refl)
  handle-busy p (answered ok) h = (h, refl)

  -- A busy form sends nothing any more.
  run-busy : (es : List Event) (p : Pane) → p.busy ≡ true → (run b p es).1 ≡ []
  unfolding run
  run-busy [] p h = refl
  run-busy (e ∷ es) p h =
      let (busy, quiet) = handle-busy p e h in rw quiet (run-busy es (handle b p e).0 busy)

  -- A handler that sends a request leaves the form busy.
  finish-cases :
      (p : Pane) (s : Saved)
      → p.busy ≡ true
      → ((finish p s).1 ≡ []) ⊎ ((finish p s).0.busy ≡ true) × (length (finish p s).1 ≡ 1)
  finish-cases p nothing h = inl refl
  finish-cases p (sent url body) h = inr (h, refl)
  finish-cases p threw h = inl refl

  handle-cases :
      (p : Pane) (e : Event)
      → ((handle b p e).1 ≡ []) ⊎ ((handle b p e).0.busy ≡ true) × (length (handle b p e).1 ≡ 1)
  unfolding handle
  handle-cases p (edit t) = inl refl
  handle-cases p (answered ok) = inl refl
  handle-cases p (submit f) = elim (Bool-cases p.busy) [
    | inl busy ↦ rw busy (inl refl)
    | inr free ↦ rw free (finish-cases (record p { busy = true }) (save_editor b p.editing f) refl)
  ]

  -- Whatever the user does and the server answers, the editor sends at most one request until the
  -- page is loaded again: each later submit is ignored, also for another task.
  run-le-one : (es : List Event) (p : Pane) → length (run b p es).1 ≤ 1
  unfolding run
  run-le-one [] p = omega arith
  run-le-one (e ∷ es) p = elim (handle-cases p e) [
    | inl quiet ↦ rw quiet (run-le-one es (handle b p e).0)
    | inr (busy, one) ↦
        rw (run-busy es (handle b p e).0 busy)
          (omega (arith, length-append (handle b p e).1 [], one))
  ]
