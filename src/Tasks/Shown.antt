-- ===== src/Tasks/Shown.antt =====
-- Which tasks the tree shows: exactly those from which the parents lead up to a root.
use Prim.Native.Nat.{Ordering}
use cal_stack.Base.{
  ℕ, zero, suc, ◌+◌, ◌≡◌, refl, sym, ap, ◌∙◌, subst, ◌↔◌, ◌⊎◌, inl, inr, true, Option, some, List,
  [], ◌∷◌, ◌++◌, In, In-keep, In-of_keep, In-append, In-append_left, In-append_right, Text,
  text_eq_refl, keep, length, >>=-eq-some, some_inj,
}
use cal_stack.Tasks.{Task, text_eq?, sort_tasks}
use cal_stack.Tasks.Tree.{is_root, children, add_forest, add_tree, tree_of}
use cal_stack.Tasks.Order.{In-sort_tasks, sort_tasks-In}
use cal_stack.Tasks.Growth.{text_eq?-sound}

-- From the first task the parents lead up to the last one, which is a root.
pub data Ancestors (rows : List Task) : List Task → Type 0 where
  root : (r : Task) → In r rows → is_root rows r ≡ true → Ancestors rows (r ∷ [])
  step :
      (c t : Task) (ts : List Task)
      → In c rows
      → c.parent_uid ≡ some t.uid
      → Ancestors rows (t ∷ ts)
      → Ancestors rows (c ∷ t ∷ ts)

-- The task `a` is among those that are shown.
abbrev pub Shows : List (Task × ℕ) → Task → Type 0
Shows l a = (d : ℕ) × In (a, d) l

module _ (collate : Text → Text → Ordering) (rows : List Task) where
  pub In-children :
      (c : Task) (u : Text) → In c (children collate rows u) → In c rows × (c.parent_uid ≡ some u)
  In-children c u i =
      let (j, h) = In-of_keep (λ t. text_eq? t.parent_uid u) c rows (In-sort_tasks collate c _ i) in
      (j, text_eq?-sound c.parent_uid u h)

  children-In :
      (c : Task) (u : Text) → In c rows → c.parent_uid ≡ some u → In c (children collate rows u)
  children-In c u i e =
      sort_tasks-In collate c _
        (In-keep (λ t. text_eq? t.parent_uid u) c rows i (rw e (text_eq_refl u)))

  abbrev Forest : Type 0
  Forest = Option (List (Task × ℕ))

  -- A list that shows a task shows its children too.
  abbrev Closed : List (Task × ℕ) → Type 0
  Closed l = (c t : Task) → In c rows → c.parent_uid ≡ some t.uid → Shows l t → Shows l c

  add_forest-cons :
      (add : Task → ℕ → Forest) (d : ℕ) (t : Task) (ts : List Task) (out : List (Task × ℕ))
      → add_forest collate rows add d (t ∷ ts) ≡ some out
      → (tree : List (Task × ℕ)) × (forest : List (Task × ℕ)) × (add t d ≡ some tree)
        × (add_forest collate rows add d ts ≡ some forest)
        × (out ≡ tree ++ forest)
  unfolding add_forest
  add_forest-cons add d t ts out e =
      let (tree, p, e') = >>=-eq-some (add t d) _ e in
      let (forest, q, e'') = >>=-eq-some (add_forest collate rows add d ts) _ e' in
      (tree, forest, p, q, sym (some_inj _ _ e''))

  Shows-append_left : (xs ys : List (Task × ℕ)) (a : Task) → Shows xs a → Shows (xs ++ ys) a
  Shows-append_left xs ys a (d, i) = (d, In-append_left (a, d) xs ys i)

  Shows-append_right : (xs ys : List (Task × ℕ)) (a : Task) → Shows ys a → Shows (xs ++ ys) a
  Shows-append_right xs ys a (d, i) = (d, In-append_right (a, d) xs ys i)

  Shows-append : (xs ys : List (Task × ℕ)) (a : Task) → Shows (xs ++ ys) a → Shows xs a ⊎ Shows ys a
  Shows-append xs ys a (d, i) = elim (In-append (a, d) xs ys i) [
    | inl j ↦ inl (d, j)
    | inr j ↦ inr (d, j)
  ]

  Closed-append : (xs ys : List (Task × ℕ)) → Closed xs → Closed ys → Closed (xs ++ ys)
  Closed-append xs ys hx hy c t i e s = elim (Shows-append xs ys t s) [
    | inl j ↦ Shows-append_left xs ys c (hx c t i e j)
    | inr j ↦ Shows-append_right xs ys c (hy c t i e j)
  ]

  -- What is said of the result of each call of `addTree` holds of a whole level.
  module _ (add : Task → ℕ → Forest) where
    forest-Shows :
        (d : ℕ) (ts : List Task) (out : List (Task × ℕ))
        → ((t : Task) (tree : List (Task × ℕ)) → add t d ≡ some tree → Closed tree × Shows tree t)
        → add_forest collate rows add d ts ≡ some out
        → Closed out × ((t : Task) → In t ts → Shows out t)
    unfolding add_forest
    forest-Shows d [] out h e =
        let e' : [] ≡ out = some_inj _ _ e in
        (subst Closed e' (λ c t i p s. absurd s.1), λ t i. absurd i)
    forest-Shows d (t ∷ ts) out h e =
        let (tree, forest, p, q, split) = add_forest-cons add d t ts out e in
        let (closed, has) = h t tree p in
        let (closed', has') = forest-Shows d ts forest h q in
        (
          subst Closed (sym split) (Closed-append tree forest closed closed'),
          λ a i.
              subst (λ l. Shows l a) (sym split)
                (elim i [
                  | inl same ↦ Shows-append_left tree forest a (subst (Shows tree) (sym same) has)
                  | inr j ↦ Shows-append_right tree forest a (has' a j)
                ]),
        )

    -- A property that the task at hand and all of its subtasks have.
    forest-sound :
        (P : Task → Type 0) (d : ℕ) (ts : List Task) (out : List (Task × ℕ))
        → ((t : Task) (tree : List (Task × ℕ))
            → P t
            → add t d ≡ some tree
            → (a : Task) → Shows tree a
            → P a)
        → ((t : Task) → In t ts → P t)
        → add_forest collate rows add d ts ≡ some out
        → (a : Task) → Shows out a
        → P a
    unfolding add_forest
    forest-sound P d [] out h ps e a s =
        let e' : [] ≡ out = some_inj _ _ e in absurd (subst (λ l. Shows l a) (sym e') s).1
    forest-sound P d (t ∷ ts) out h ps e a s =
        let (tree, forest, p, q, split) = add_forest-cons add d t ts out e in
        elim (Shows-append tree forest a (subst (λ l. Shows l a) split s)) [
          | inl j ↦ h t tree (ps t (inl refl)) p a j
          | inr j ↦ forest-sound P d ts forest h (λ u i. ps u (inr i)) q a j
        ]

  add_tree-suc :
      (fuel : ℕ) (t : Task) (d : ℕ) (out : List (Task × ℕ))
      → add_tree collate rows (suc fuel) t d ≡ some out
      → (below : List (Task × ℕ)) × (add_forest collate rows
            (add_tree collate rows fuel)
            (d + 1)
            (children collate rows t.uid)
          ≡ some below)
        × (out ≡ (t, d) ∷ below)
  unfolding add_tree
  add_tree-suc fuel t d out e =
      let (below, p, e') =
        >>=-eq-some
          (add_forest collate rows (add_tree collate rows fuel) (d + 1)
            (children collate rows t.uid))
          _ e in
      (below, p, sym (some_inj _ _ e'))

  Closed-cons :
      (t : Task) (d : ℕ) (below : List (Task × ℕ))
      → Closed below
      → ((c : Task) → In c (children collate rows t.uid) → Shows below c)
      → Closed ((t, d) ∷ below)
  Closed-cons t d below closed has c u i e (k, inl q) =
      let (k', j) = has c (children-In c t.uid i (e ∙ ap (λ p. some (p.0).uid) q)) in (k', inr j)
  Closed-cons t d below closed has c u i e (k, inr j) =
      let (k', j') = closed c u i e (k, j) in (k', inr j')

  tree-Shows :
      (fuel : ℕ) (t : Task) (d : ℕ) (out : List (Task × ℕ))
      → add_tree collate rows fuel t d ≡ some out
      → Closed out × Shows out t
  unfolding add_tree
  tree-Shows zero t d out e = absurd (cc)
  tree-Shows (suc fuel) t d out e =
      let (below, p, split) = add_tree-suc fuel t d out e in
      let (closed, has) =
        forest-Shows (add_tree collate rows fuel) (d + 1) _ below
          (λ u tree q. tree-Shows fuel u (d + 1) tree q) p in
      (
        subst Closed (sym split) (Closed-cons t d below closed has),
        subst (λ l. Shows l t) (sym split) (d, inl refl),
      )

  -- The parents of `a` lead up to a root.
  abbrev pub IsBelowRoot : Task → Type 0
  IsBelowRoot a = (up : List Task) × Ancestors rows (a ∷ up)

  tree_sound :
      (fuel : ℕ) (d : ℕ) (t : Task) (out : List (Task × ℕ))
      → IsBelowRoot t
      → add_tree collate rows fuel t d ≡ some out
      → (a : Task) → Shows out a
      → IsBelowRoot a
  unfolding add_tree
  tree_sound zero d t out anc e a s = absurd (cc)
  tree_sound (suc fuel) d t out (ts, anc) e a s =
      let (below, p, split) = add_tree-suc fuel t d out e in
      let s' : Shows ((t, d) ∷ below) a = subst (λ l. Shows l a) split s in
      elim s'.1 [
        | inl q ↦ subst IsBelowRoot (sym (ap (λ r. r.0) q)) (ts, anc)
        | inr j ↦
            forest-sound (add_tree collate rows fuel) IsBelowRoot (d + 1) _ below
              (tree_sound fuel (d + 1))
              (λ c i. let (j', e') = In-children c t.uid i in (t ∷ ts, step c t ts j' e' anc)) p a
              (s'.0, j)
      ]

  abbrev ShowsFirst : List (Task × ℕ) → List Task → Type 0
  ShowsFirst out [] = Unit
  ShowsFirst out (a ∷ l) = Shows out a

  Ancestors-Shows :
      (out : List (Task × ℕ))
      → Closed out
      → ((r : Task) → In r rows → is_root rows r ≡ true → Shows out r)
      → {l : List Task} → Ancestors rows l
      → ShowsFirst out l
  Ancestors-Shows out closed roots (root r i h) = roots r i h
  Ancestors-Shows out closed roots (step c t ts i e anc) =
      closed c t i e (Ancestors-Shows out closed roots anc)

  -- A task is shown exactly if it is a row from which the parents lead up to a root.
  pub tree_of-Shows :
      (out : List (Task × ℕ)) (a : Task)
      → tree_of collate rows ≡ some out
      → Shows out a ↔ IsBelowRoot a
  unfolding tree_of
  tree_of-Shows out a e = (
    sound a,
    λ (up, anc).
        Ancestors-Shows out all_shown.0
          (λ r i h. all_shown.1 r (sort_tasks-In collate r _ (In-keep (is_root rows) r rows i h)))
          anc,
  )
    where
      roots : List Task
      roots = sort_tasks collate (keep (is_root rows) rows)

      sound : (a : Task) → Shows out a → IsBelowRoot a
      sound =
          forest-sound (add_tree collate rows (suc (length rows))) IsBelowRoot 0 roots out
            (tree_sound (suc (length rows)) 0)
            (λ r i.
              let (j, h) = In-of_keep (is_root rows) r rows (In-sort_tasks collate r _ i) in
              ([], root r j h))
            e

      all_shown : Closed out × ((t : Task) → In t roots → Shows out t)
      all_shown =
          forest-Shows (add_tree collate rows (suc (length rows))) 0 roots out
            (λ t tree. tree-Shows (suc (length rows)) t 0 tree) e
