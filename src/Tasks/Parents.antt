-- ===== src/Tasks/Parents.antt =====
-- `descendantsOf` ends and finds exactly the subtasks below a task, so that the parents that the
-- editor offers never close a cycle.
use cal_stack.Base.{
  ℕ, zero, suc, ◌≤◌, ◌<◌, ◌≡◌, refl, sym, ap, ◌∙◌, subst, ◌↔◌, ◌⊎◌, inl, inr, not, Option, some,
  List, [], ◌∷◌, arith, length, In, length-keep-le, Text,
}
use cal_stack.Tasks.{Task}
use cal_stack.Tasks.Descendants.{Search, is_blocked, block_children, search_down, descendants_of}
use cal_stack.Tasks.Growth.{
  Descends, self, child, unblocked, measure, Grows, Grows-block_children, block_children-covers,
}

-- What holds whenever the test of the loop is made.
record Invariant (tasks : List Task) (root : Text) (s : Search) : Type 0 where
  has_root : In root s.blocked
  sound : (u : Text) → In u s.blocked → Descends tasks root u
  on_stack : (u : Text) → In u s.frontier → In u s.blocked
  closed :
      (x : Task) (u : Text)
      → In x tasks
      → x.parent_uid ≡ some u
      → In u s.blocked
      → In x.uid s.blocked ⊎ In u s.frontier

module _ (tasks : List Task) (root : Text) where
  abbrev pop : Text → List Text → Search → Search
  pop uid rest s = block_children uid tasks (record { blocked = s.blocked; frontier = rest })

  Invariant-pop :
      (uid : Text) (rest : List Text) (s : Search)
      → s.frontier ≡ uid ∷ rest
      → Invariant tasks root s
      → Invariant tasks root (pop uid rest s)
  Invariant-pop uid rest s e v = record {
    has_root = g.blocked_kept root v.has_root;
    sound = λ u i. elim (g.below root u (v.sound uid at_uid) i) [ inl j ↦ v.sound u j | inr d ↦ d ];
    on_stack = λ u i. elim (g.pushed u i) [
      | inl j ↦ g.blocked_kept u (v.on_stack u (below_top u j))
      | inr j ↦ j
    ];
    closed = λ x u i p b. elim (g.fresh u b) [
      | inl old ↦ elim (v.closed x u i p old) [
        | inl done ↦ inl (g.blocked_kept x.uid done)
        | inr waits ↦ popped x u i p (rw e at waits)
      ]
      | inr new ↦ inr new
    ];
  }
    where
      s' : Search
      s' = record { blocked = s.blocked; frontier = rest }

      g : Grows tasks uid s' (block_children uid tasks s')
      g = Grows-block_children tasks uid tasks s' (λ x i. i)

      at_uid : In uid s.blocked
      at_uid = v.on_stack uid (rw e (inl refl))

      below_top : (u : Text) → In u rest → In u s.frontier
      below_top u i = rw e (inr i)

      popped :
          (x : Task) (u : Text)
          → In x tasks
          → x.parent_uid ≡ some u
          → (u ≡ uid) ⊎ In u rest
          → In x.uid (block_children uid tasks s').blocked
            ⊎ In u (block_children uid tasks s').frontier
      popped x u i p (inl q) =
          inl (block_children-covers tasks uid tasks s' x (λ y j. j) i (p ∙ ap some q))
      popped x u i p (inr j) = inr (g.frontier_kept u j)

  measure-pop :
      (uid : Text) (rest : List Text) (s : Search)
      → s.frontier ≡ uid ∷ rest
      → suc (measure tasks (pop uid rest s)) ≤ measure tasks s
  unfolding measure
  measure-pop uid rest s e =
      let s' : Search = record { blocked = s.blocked; frontier = rest } in
      let g = Grows-block_children tasks uid tasks s' (λ x i. i) in
      omega (arith, g.smaller, ap length e)

  -- Once the stack is empty every descendant is blocked.
  complete :
      (s : Search)
      → Invariant tasks root s
      → s.frontier ≡ []
      → {v : Text} → Descends tasks root v
      → In v s.blocked
  complete s v e self = v.has_root
  complete s v e (child x i p q d) = elim (v.closed x _ i p (complete s v e d)) [
    | inl j ↦ subst (λ u. In u s.blocked) q j
    | inr j ↦ absurd (rw e at j)
  ]

  abbrev Finds : Option (List Text) → Type 0
  Finds o = (r : List Text) × (o ≡ some r) × ((v : Text) → In v r ↔ Descends tasks root v)

  abbrev at : List Text → List Text → Search
  at bs stack = record { blocked = bs; frontier = stack }

  search_down-Finds :
      (fuel : ℕ) (bs stack : List Text)
      → measure tasks (at bs stack) < fuel
      → Invariant tasks root (at bs stack)
      → Finds (search_down fuel tasks (at bs stack))
  unfolding search_down
  search_down-Finds zero bs stack m v = absurd (omega arith)
  search_down-Finds (suc fuel) bs [] m v = (bs, refl, λ u. (v.sound u, complete (at bs []) v refl))
  search_down-Finds (suc fuel) bs (uid ∷ rest) m v =
      let s = at bs (uid ∷ rest) in
      let next = pop uid rest s in
      search_down-Finds fuel next.blocked next.frontier (omega (arith, measure-pop uid rest s refl))
        (Invariant-pop uid rest s refl v)

-- `descendantsOf` ends, and the uids that it returns are exactly those of the tasks at or below the
-- given one in the tree of subtasks, for every list of tasks, also with cycles and repeated uids.
pub descendants_of-Descends :
    (tasks : List Task) (t : Task)
    → (r : List Text) × (descendants_of tasks t ≡ some r)
      × ((v : Text) → In v r ↔ Descends tasks t.uid v)
unfolding descendants_of
descendants_of-Descends tasks t =
    search_down-Finds tasks t.uid (suc (suc (length tasks))) (t.uid ∷ []) (t.uid ∷ []) enough start
  where
    enough : measure tasks (at tasks t.uid (t.uid ∷ []) (t.uid ∷ [])) < suc (suc (length tasks))
    enough =
        unfold measure unblocked in
        omega (arith, length-keep-le (λ (x : Task). not (is_blocked x.uid (t.uid ∷ []))) tasks)

    start : Invariant tasks t.uid (at tasks t.uid (t.uid ∷ []) (t.uid ∷ []))
    start = record {
      has_root = inl refl;
      sound =
          λ u i. elim i [ inl q ↦ subst (Descends tasks t.uid) (sym q) self | inr j ↦ absurd j ];
      on_stack = λ u i. i;
      closed = λ x u i e b. inr b;
    }
