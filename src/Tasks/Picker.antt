-- ===== src/Tasks/Picker.antt =====
-- The parents that the editor offers: a task that gets one of them closes no cycle.
use cal_stack.Base.{
  ◌≡◌, refl, sym, ap, ◌∙◌, subst, ◌≢◌, ◌↔◌, ◌⊎◌, inl, inr, Bool, true, false, ◌&&◌, ◌||◌, not,
  Option, none, some, List, [], ◌∷◌, arith, if◌then◌else◌, Bool-cases, any, In, any-In, any-append,
  ||_split, some_inj, map, Text, text_eq, text_eq_refl, text_eq_sound, truthy,
}
use cal_stack.Tasks.{Task}
use cal_stack.Tasks.Descendants.{
  Picker, is_blocked, descendants_of, fill_parent_picker, offer, foreign, parent_picker,
}
use cal_stack.Tasks.Growth.{Descends, self, child, In-is_blocked, is_blocked-In}
use cal_stack.Tasks.Parents.{descendants_of-Descends}

-- The tasks after `t` got the parent `v`.
unfoldable pub reparent : List Task → Task → Text → List Task
reparent tasks t v =
    map (λ x. if text_eq x.id t.id then record x { parent_uid = some v } else x) tasks

-- A task of the new list is a task of the old one, with its old parent or the new one.
In-reparent :
    (tasks : List Task) (t : Task) (v : Text) (y : Task)
    → In y (reparent tasks t v)
    → (x : Task) × In x tasks × (y.uid ≡ x.uid) × ((y.parent_uid ≡ x.parent_uid) ⊎ (x.id ≡ t.id))
unfolding reparent
In-reparent [] t v y i = elim i [ ]
In-reparent (x ∷ xs) t v y (inl e) = elim (Bool-cases (text_eq x.id t.id)) [
  | inl q ↦
      let e' : y ≡ record x { parent_uid = some v } = rw q at e in
      (x, inl refl, ap (λ z. z.uid) e', inr (text_eq_sound x.id t.id q))
  | inr q ↦
      let e' : y ≡ x = rw q at e in
      (x, inl refl, ap (λ z. z.uid) e', inl (ap (λ z. z.parent_uid) e'))
]
In-reparent (x ∷ xs) t v y (inr i) = let (z, j, e, c) = In-reparent xs t v y i in (z, inr j, e, c)

-- Below `t` nothing is new: a step to `t` itself starts over.
Descends-reparent :
    (tasks : List Task) (t : Task) (v : Text)
    → ((x : Task) → In x tasks → x.id ≡ t.id → x.uid ≡ t.uid)
    → {u : Text} → Descends (reparent tasks t v) t.uid u
    → Descends tasks t.uid u
Descends-reparent tasks t v same self = self
Descends-reparent tasks t v same (child y i p q d) =
    let (x, j, e, c) = In-reparent tasks t v y i in
    elim c [
      | inl old ↦ child x j (sym old ∙ p) (sym e ∙ q) (Descends-reparent tasks t v same d)
      | inr new ↦ subst (Descends tasks t.uid) (sym (same x j new) ∙ (sym e ∙ q)) self
    ]

In-offer :
    (blocked : List Text) (xs : List Task) (v : Text)
    → any (λ o. text_eq o.0 v) (offer blocked xs) ≡ true
    → is_blocked v blocked ≡ false
In-offer blocked [] v h = absurd (cc)
In-offer blocked (x ∷ xs) v h = elim (Bool-cases (is_blocked x.uid blocked)) [
  | inl b ↦ In-offer blocked xs v (rw b at h)
  | inr b ↦ elim (Bool-cases (text_eq x.uid v)) [
    | inl e ↦ subst (λ u. is_blocked u blocked ≡ false) (text_eq_sound x.uid v e) b
    | inr e ↦ In-offer blocked xs v (rw (b, e) at h)
  ]
]

offer-In :
    (blocked : List Text) (xs : List Task) (x : Task)
    → In x xs
    → is_blocked x.uid blocked ≡ false
    → any (λ o. text_eq o.0 x.uid) (offer blocked xs) ≡ true
offer-In blocked [] x i h = elim i [ ]
offer-In blocked (y ∷ ys) x (inl e) h =
    let h' : is_blocked y.uid blocked ≡ false = ap (λ z. is_blocked z.uid blocked) (sym e) ∙ h in
    rw h' (rw e (rw (text_eq_refl y.uid) refl))
offer-In blocked (y ∷ ys) x (inr i) h = elim (Bool-cases (is_blocked y.uid blocked)) [
  | inl b ↦ rw b (offer-In blocked ys x i h)
  | inr b ↦ rw b (ground (arith, offer-In blocked ys x i h))
]

Descends-In :
    (tasks : List Task) (t : Task) (v : Text)
    → In t tasks
    → Descends tasks t.uid v
    → (x : Task) × In x tasks × (x.uid ≡ v)
Descends-In tasks t v i self = (t, i, refl)
Descends-In tasks t v i (child x j p q d) = (x, j, q)

-- A parent from elsewhere is no task of the list.
In-foreign :
    (tasks : List Task) (parent : Option Text) (v : Text)
    → any (λ o. text_eq o.0 v) (foreign tasks parent) ≡ true
    → any (λ x. text_eq x.uid v) tasks ≡ false
In-foreign tasks none v h = absurd (cc)
In-foreign tasks (some q) v h =
    elim (Bool-cases (truthy q && not (any (λ x. text_eq x.uid q) tasks))) [
      | inl c ↦
          let h' : (text_eq q v || false) ≡ true = rw c at h in
          let e : q ≡ v = text_eq_sound q v (ground arith) in
          subst (λ u. any (λ x. text_eq x.uid u) tasks ≡ false) e (no_task (truthy q) _ c)
      | inr c ↦ absurd (cc (rw c at h))
    ]
  where
    no_task : (a b : Bool) → (a && not b) ≡ true → b ≡ false
    no_task a b h = ground arith

no-foreign :
    (tasks : List Task) (v : Text) (x : Task)
    → In x tasks
    → x.uid ≡ v
    → ¬ (any (λ y. text_eq y.uid v) tasks ≡ false)
no-foreign tasks v x i e h = cc (any-In (λ y. text_eq y.uid v) x tasks i (rw e (text_eq_refl v)))

fill_parent_picker-eq :
    (tasks : List Task) (t : Task) (r : List Text)
    → descendants_of tasks t ≡ some r
    → fill_parent_picker tasks (some t) ≡ some (parent_picker tasks t.parent_uid r)
unfolding fill_parent_picker
fill_parent_picker-eq tasks t r e = rw e refl

-- What is offered is not below `t`.
offered-not-Descends :
    (tasks : List Task) (t : Task) (v : Text) (r : List Text)
    → In t tasks
    → v ≢ []
    → ((u : Text) → In u r ↔ Descends tasks t.uid u)
    → any (λ o. text_eq o.0 v) (parent_picker tasks t.parent_uid r).options ≡ true
    → ¬ Descends tasks t.uid v
offered-not-Descends tasks t v r i ne below h d = elim (||_split (text_eq [] v) _ h) [
  | inl e ↦ ne (sym (text_eq_sound [] v e))
  | inr e ↦
      elim (||_split (any (λ o. text_eq o.0 v) (offer r tasks)) _
        (sym (any-append (λ o. text_eq o.0 v) (offer r tasks) (foreign tasks t.parent_uid)) ∙ e)) [
          | inl own ↦ cc (In-offer r tasks v own, In-is_blocked v r ((below v).1 d))
          | inr other ↦
              let (x, j, q) = Descends-In tasks t v i d in
              no-foreign tasks v x j q (In-foreign tasks t.parent_uid v other)
        ]
]

-- A task that gets one of the offered parents closes no cycle: in the list that results the new
-- parent is not the task itself, nor one of its subtasks at any depth. The edited task is in the
-- list, and tasks with its id have its uid.
pub reparent-not-Descends :
    (tasks : List Task) (t : Task) (v : Text) (p : Picker)
    → In t tasks
    → ((x : Task) → In x tasks → x.id ≡ t.id → x.uid ≡ t.uid)
    → fill_parent_picker tasks (some t) ≡ some p
    → any (λ o. text_eq o.0 v) p.options ≡ true
    → v ≢ []
    → ¬ Descends (reparent tasks t v) t.uid v
reparent-not-Descends tasks t v p i same e h ne d =
    let (r, found, below) = descendants_of-Descends tasks t in
    let q : parent_picker tasks t.parent_uid r ≡ p =
      some_inj _ _ (sym (fill_parent_picker-eq tasks t r found) ∙ e) in
    offered-not-Descends tasks t v r i ne below
      (subst (λ k. any (λ o. text_eq o.0 v) k.options ≡ true) (sym q) h)
      (Descends-reparent tasks t v same d)

-- Every task of the list that is not below the edited one is offered.
pub offered_of_not-Descends :
    (tasks : List Task) (t x : Task) (p : Picker)
    → In x tasks
    → ¬ Descends tasks t.uid x.uid
    → fill_parent_picker tasks (some t) ≡ some p
    → any (λ o. text_eq o.0 x.uid) p.options ≡ true
offered_of_not-Descends tasks t x p i not_below e =
    let (r, found, below) = descendants_of-Descends tasks t in
    let q : parent_picker tasks t.parent_uid r ≡ p =
      some_inj _ _ (sym (fill_parent_picker-eq tasks t r found) ∙ e) in
    let free : is_blocked x.uid r ≡ false = elim (Bool-cases (is_blocked x.uid r)) [
      | inl b ↦ absurd (not_below ((below x.uid).0 (is_blocked-In x.uid r b)))
      | inr b ↦ b
    ] in
    subst (λ k. any (λ o. text_eq o.0 x.uid) k.options ≡ true) q
      (offered (text_eq [] x.uid) _ _
        (any-append (λ o. text_eq o.0 x.uid) (offer r tasks) (foreign tasks t.parent_uid))
        (offer-In r tasks x i free))
  where
    offered : (a b c : Bool) {d : Bool} → d ≡ (b || c) → b ≡ true → (a || d) ≡ true
    offered a b c e h = ground arith
