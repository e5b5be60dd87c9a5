-- ===== src/Tasks/Growth.antt =====
-- How the search of `descendantsOf` grows while the children of one uid are blocked.
use cal_stack.Base.{
  ℕ, ◌+◌, ◌≤◌, ◌<◌, ◌≡◌, refl, sym, ap, ◌∙◌, subst, ◌⊎◌, inl, inr, Bool, true, false, ◌||◌, not,
  Option, none, some, List, [], ◌∷◌, arith, Bool-cases, keep, length, In, any-In, Text, text_eq,
  text_eq_refl, text_eq_sound,
}
use cal_stack.Tasks.{Task, text_eq?}
use cal_stack.Tasks.Descendants.{Search, is_blocked, block, block_children}

pub is_blocked-In : (u : Text) (bs : List Text) → is_blocked u bs ≡ true → In u bs
unfolding is_blocked
is_blocked-In u [] h = absurd (cc)
is_blocked-In u (b ∷ bs) h = elim (Bool-cases (text_eq u b)) [
  | inl e ↦ inl (text_eq_sound u b e)
  | inr e ↦ inr (is_blocked-In u bs (rw e at h))
]

pub In-is_blocked : (u : Text) (bs : List Text) → In u bs → is_blocked u bs ≡ true
unfolding is_blocked
In-is_blocked u bs i = any-In (text_eq u) u bs i (text_eq_refl u)

module _ {A : Type 0} (p q : A → Bool) (sub : (x : A) → q x ≡ true → p x ≡ true) where
  length-keep_mono : (xs : List A) → length (keep q xs) ≤ length (keep p xs)
  length-keep_mono [] = omega arith
  length-keep_mono (x ∷ xs) = ground (arith, sub x, length-keep_mono xs)

  -- A stronger test that turns away one more element keeps fewer.
  pub length-keep-lt :
      (a : A) (xs : List A)
      → In a xs
      → p a ≡ true
      → q a ≡ false
      → length (keep q xs) < length (keep p xs)
  length-keep-lt a [] i hp hq = elim i [ ]
  length-keep-lt a (x ∷ xs) (inl e) hp hq =
      let hp' : p x ≡ true = ap p (sym e) ∙ hp in
      let hq' : q x ≡ false = ap q (sym e) ∙ hq in ground (arith, length-keep_mono xs)
  length-keep-lt a (x ∷ xs) (inr i) hp hq = ground (arith, sub x, length-keep-lt a xs i hp hq)

-- The uid `v` is at or below `root` in the tree of subtasks.
pub data Descends (tasks : List Task) (root : Text) : Text → Type 0 where
  self : Descends tasks root root
  child :
      (x : Task) {u v : Text}
      → In x tasks
      → x.parent_uid ≡ some u
      → x.uid ≡ v
      → Descends tasks root u
      → Descends tasks root v

-- What is left to do: the tasks that are not blocked, and the uids on the stack.
unfoldable pub unblocked : List Task → List Text → List Task
unblocked tasks bs = keep (λ x. not (is_blocked x.uid bs)) tasks

unfoldable pub measure : List Task → Search → ℕ
unfolding unblocked
measure tasks s = length (unblocked tasks s.blocked) + length s.frontier

-- How a search grows while the children of `uid` are blocked.
pub record Grows (tasks : List Task) (uid : Text) (s s' : Search) : Type 0 where
  pub blocked_kept : (u : Text) → In u s.blocked → In u s'.blocked
  pub frontier_kept : (u : Text) → In u s.frontier → In u s'.frontier
  pub fresh : (u : Text) → In u s'.blocked → In u s.blocked ⊎ In u s'.frontier
  pub pushed : (u : Text) → In u s'.frontier → In u s.frontier ⊎ In u s'.blocked
  pub below :
      (root u : Text)
      → Descends tasks root uid
      → In u s'.blocked
      → In u s.blocked ⊎ Descends tasks root u
  pub smaller : measure tasks s' ≤ measure tasks s

Grows-refl : (tasks : List Task) (uid : Text) (s : Search) → Grows tasks uid s s
Grows-refl tasks uid s = record {
  blocked_kept = λ u i. i;
  frontier_kept = λ u i. i;
  fresh = λ u i. inl i;
  pushed = λ u i. inl i;
  below = λ root u d i. inl i;
  smaller = omega arith;
}

Grows-trans :
    {tasks : List Task} {uid : Text} {s t u : Search}
    → Grows tasks uid s t
    → Grows tasks uid t u
    → Grows tasks uid s u
Grows-trans {tasks} g h = record {
  blocked_kept = λ u i. h.blocked_kept u (g.blocked_kept u i);
  frontier_kept = λ u i. h.frontier_kept u (g.frontier_kept u i);
  fresh = λ u i. elim (h.fresh u i) [
    | inl j ↦ elim (g.fresh u j) [ inl k ↦ inl k | inr k ↦ inr (h.frontier_kept u k) ]
    | inr j ↦ inr j
  ];
  pushed = λ u i. elim (h.pushed u i) [
    | inl j ↦ elim (g.pushed u j) [ inl k ↦ inl k | inr k ↦ inr (h.blocked_kept u k) ]
    | inr j ↦ inr j
  ];
  below = λ root u d i. elim (h.below root u d i) [ inl j ↦ g.below root u d j | inr k ↦ inr k ];
  smaller = omega (arith, g.smaller, h.smaller);
}

push : Task → Search → Search
push x s = record { blocked = x.uid ∷ s.blocked; frontier = x.uid ∷ s.frontier }

pub is_blocked-cons :
    (u b : Text) (bs : List Text) → is_blocked u (b ∷ bs) ≡ (text_eq u b || is_blocked u bs)
unfolding is_blocked
is_blocked-cons u b bs = refl

pub not-|| : (a b : Bool) → not (a || b) ≡ true → not b ≡ true
not-|| a b h = ground arith

-- Blocking one more uid of a task makes the measure no larger.
smaller-push :
    (tasks : List Task) (x : Task) (s : Search)
    → In x tasks
    → is_blocked x.uid s.blocked ≡ false
    → measure tasks (push x s) ≤ measure tasks s
unfolding measure push
smaller-push tasks x s i new =
    omega (arith, length-keep-lt before after sub x tasks i (rw new refl) now)
  where
    before : Task → Bool
    before y = not (is_blocked y.uid s.blocked)

    after : Task → Bool
    after y = not (is_blocked y.uid (x.uid ∷ s.blocked))

    sub : (y : Task) → after y ≡ true → before y ≡ true
    sub y h = not-|| (text_eq y.uid x.uid) _ (rw (is_blocked-cons y.uid x.uid s.blocked) at h)

    now : after x ≡ false
    now = rw (is_blocked-cons x.uid x.uid s.blocked, text_eq_refl x.uid) refl

Grows-push :
    (tasks : List Task) (uid : Text) (x : Task) (s : Search)
    → In x tasks
    → x.parent_uid ≡ some uid
    → is_blocked x.uid s.blocked ≡ false
    → Grows tasks uid s (push x s)
unfolding push
Grows-push tasks uid x s i e new = record {
  blocked_kept = λ u j. inr j;
  frontier_kept = λ u j. inr j;
  fresh = λ u j. elim j [ inl q ↦ inr (inl q) | inr k ↦ inl k ];
  pushed = λ u j. elim j [ inl q ↦ inr (inl q) | inr k ↦ inl k ];
  below = λ root u d j. elim j [ inl q ↦ inr (child x i e (sym q) d) | inr k ↦ inl k ];
  smaller = smaller-push tasks x s i new;
}

pub text_eq?-sound : (o : Option Text) (u : Text) → text_eq? o u ≡ true → o ≡ some u
text_eq?-sound none u h = absurd (cc)
text_eq?-sound (some v) u h = ap some (text_eq_sound v u h)

-- One task of the loop: it is pushed if it is a child that is not blocked yet.
block-cases :
    (uid : Text) (x : Task) (s : Search)
    → ((x.parent_uid ≡ some uid)
        × (is_blocked x.uid s.blocked ≡ false)
        × (block uid x s ≡ push x s))
      ⊎ ((block uid x s ≡ s) × (x.parent_uid ≡ some uid → is_blocked x.uid s.blocked ≡ true))
unfolding block push
block-cases uid x s = elim (Bool-cases (text_eq? x.parent_uid uid)) [
  | inl e ↦ elim (Bool-cases (is_blocked x.uid s.blocked)) [
    | inl old ↦ inr (rw (e, old) refl, λ _. old)
    | inr new ↦ inl (text_eq?-sound x.parent_uid uid e, new, rw (e, new) refl)
  ]
  | inr e ↦ inr (rw e refl, λ q. absurd (other (rw q at e)))
]
  where
    other : ¬ (text_eq uid uid ≡ false)
    other h = cc (text_eq_refl uid)

pub Grows-block :
    (tasks : List Task) (uid : Text) (x : Task) (s : Search)
    → In x tasks
    → Grows tasks uid s (block uid x s)
Grows-block tasks uid x s i = elim (block-cases uid x s) [
  | inl (e, new, eq) ↦ rw eq (Grows-push tasks uid x s i e new)
  | inr (eq, _) ↦ rw eq (Grows-refl tasks uid s)
]

block-covers :
    (uid : Text) (x : Task) (s : Search)
    → x.parent_uid ≡ some uid
    → In x.uid (block uid x s).blocked
unfolding push
block-covers uid x s e = elim (block-cases uid x s) [
  | inl (_, _, eq) ↦ rw eq (inl refl)
  | inr (eq, old) ↦ rw eq (is_blocked-In x.uid s.blocked (old e))
]

pub Grows-block_children :
    (tasks : List Task) (uid : Text) (xs : List Task) (s : Search)
    → ((x : Task) → In x xs → In x tasks)
    → Grows tasks uid s (block_children uid xs s)
unfolding block_children
Grows-block_children tasks uid [] s sub = Grows-refl tasks uid s
Grows-block_children tasks uid (x ∷ xs) s sub =
    Grows-trans (Grows-block tasks uid x s (sub x (inl refl)))
      (Grows-block_children tasks uid xs (block uid x s) (λ y i. sub y (inr i)))

pub block_children-covers :
    (tasks : List Task) (uid : Text) (xs : List Task) (s : Search) (x : Task)
    → ((y : Task) → In y xs → In y tasks)
    → In x xs
    → x.parent_uid ≡ some uid
    → In x.uid (block_children uid xs s).blocked
unfolding block_children
block_children-covers tasks uid [] s x sub i e = elim i [ ]
block_children-covers tasks uid (y ∷ ys) s x sub (inl q) e =
    let kept = Grows-block_children tasks uid ys (block uid y s) (λ z i. sub z (inr i)) in
    kept.blocked_kept x.uid
      (subst (λ z. In x.uid (block uid z s).blocked) q (block-covers uid x s e))
block_children-covers tasks uid (y ∷ ys) s x sub (inr i) e =
    block_children-covers tasks uid ys (block uid y s) x (λ z j. sub z (inr j)) i e
