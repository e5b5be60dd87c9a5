-- ===== src/Tasks/Order.antt =====
-- Sorting keeps the tasks, and puts the open ones first.
use Prim.Native.Nat.{Ordering}
use cal_stack.Base.{
  ◌≡◌, ◌⊎◌, inl, inr, true, false, List, [], ◌∷◌, arith, In, Bool-cases, Text, All,
}
use cal_stack.Tasks.{Task, is_done, is_gt, compare_tasks, insert_task, sort_tasks}

-- No open task stands behind a done one.
abbrev pub OpenFirst : List Task → Type 0
OpenFirst [] = Unit
OpenFirst (t ∷ ts) = (is_done t ≡ true → All (λ u. is_done u ≡ true) ts) × OpenFirst ts

module _ (collate : Text → Text → Ordering) where
  In-insert_task :
      (a t : Task) (us : List Task) → In a (insert_task collate t us) → (a ≡ t) ⊎ In a us
  unfolding insert_task
  In-insert_task a t [] i = i
  In-insert_task a t (u ∷ us) i = elim (Bool-cases (is_gt (compare_tasks collate t u))) [
    | inl e ↦
        let i' : (a ≡ u) ⊎ In a (insert_task collate t us) = rw e at i in
        elim i' [
          | inl q ↦ inr (inl q)
          | inr j ↦ elim (In-insert_task a t us j) [ inl q ↦ inl q | inr k ↦ inr (inr k) ]
        ]
    | inr e ↦ rw e at i
  ]

  insert_task-In :
      (a t : Task) (us : List Task) → (a ≡ t) ⊎ In a us → In a (insert_task collate t us)
  unfolding insert_task
  insert_task-In a t [] i = i
  insert_task-In a t (u ∷ us) i = elim (Bool-cases (is_gt (compare_tasks collate t u))) [
    | inl e ↦ rw e (elim i [
      | inl q ↦ inr (insert_task-In a t us (inl q))
      | inr j ↦ elim j [ inl q ↦ inl q | inr k ↦ inr (insert_task-In a t us (inr k)) ]
    ])
    | inr e ↦ rw e i
  ]

  pub In-sort_tasks : (a : Task) (ts : List Task) → In a (sort_tasks collate ts) → In a ts
  unfolding sort_tasks
  In-sort_tasks a [] i = i
  In-sort_tasks a (t ∷ ts) i = elim (In-insert_task a t (sort_tasks collate ts) i) [
    | inl q ↦ inl q
    | inr j ↦ inr (In-sort_tasks a ts j)
  ]

  pub sort_tasks-In : (a : Task) (ts : List Task) → In a ts → In a (sort_tasks collate ts)
  unfolding sort_tasks
  sort_tasks-In a [] i = i
  sort_tasks-In a (t ∷ ts) (inl q) = insert_task-In a t (sort_tasks collate ts) (inl q)
  sort_tasks-In a (t ∷ ts) (inr i) =
      insert_task-In a t (sort_tasks collate ts) (inr (sort_tasks-In a ts i))

  gt-is_done :
      (t u : Task) → is_gt (compare_tasks collate t u) ≡ true → is_done u ≡ true → is_done t ≡ true
  unfolding compare_tasks
  gt-is_done t u g h = elim (Bool-cases (is_done t)) [ inl e ↦ e | inr e ↦ ground arith ]

  le-is_done :
      (t u : Task) → is_gt (compare_tasks collate t u) ≡ false → is_done t ≡ true → is_done u ≡ true
  unfolding compare_tasks
  le-is_done t u g h = elim (Bool-cases (is_done u)) [ inl e ↦ e | inr e ↦ ground arith ]

  insert_task-All :
      (t : Task) (us : List Task)
      → is_done t ≡ true
      → All (λ u. is_done u ≡ true) us
      → All (λ u. is_done u ≡ true) (insert_task collate t us)
  unfolding insert_task
  insert_task-All t [] h a = (h, a)
  insert_task-All t (u ∷ us) h a = elim (Bool-cases (is_gt (compare_tasks collate t u))) [
    | inl e ↦ rw e (a.0, insert_task-All t us h a.1)
    | inr e ↦ rw e (h, a)
  ]

  insert_task-OpenFirst :
      (t : Task) (us : List Task) → OpenFirst us → OpenFirst (insert_task collate t us)
  unfolding insert_task
  insert_task-OpenFirst t [] o = (λ h. tt, tt)
  insert_task-OpenFirst t (u ∷ us) o = elim (Bool-cases (is_gt (compare_tasks collate t u))) [
    | inl e ↦
        rw e
          (λ h. insert_task-All t us (gt-is_done t u e h) (o.0 h), insert_task-OpenFirst t us o.1)
    | inr e ↦ rw e (λ h. (le-is_done t u e h, o.0 (le-is_done t u e h)), o)
  ]

  -- Among the subtasks of one task, and among the tasks of the top, the open ones stand before the
  -- done ones, whatever the collation of the browser does.
  pub sort_tasks-OpenFirst : (ts : List Task) → OpenFirst (sort_tasks collate ts)
  unfolding sort_tasks
  sort_tasks-OpenFirst [] = tt
  sort_tasks-OpenFirst (t ∷ ts) =
      insert_task-OpenFirst t (sort_tasks collate ts) (sort_tasks-OpenFirst ts)
