-- ===== src/Categories/Tagged.antt =====
-- The tags of an event as a set: a list of slugs decides for each slug whether the event has it.
use mathlib.Core.Path.{fun_ext}
use cal_stack.Base.{
  ℕ, zero, suc, ◌≡◌, refl, sym, ap, ◌∙◌, arith, Bool, true, false, ◌||◌, Option, none, some, List,
  [], ◌∷◌, ◌++◌, if◌then◌else◌, any, any-append, Text, text_eq, text_eq_sound, text_eq_refl,
  Bool-cases, Option-cases, ◌⊎◌, inl, inr, >>=-eq-some, some_inj,
}
use cal_stack.Categories.{index_of, splice_out, toggle_category, toggle_categories}

abbrev pub tagged : List Text → Text → Bool
tagged tags s = any (text_eq s) tags

-- The set with one slug put in or taken out.
abbrev pub retag : (Text → Bool) → Text → Bool → Text → Bool
retag f slug on s = if text_eq s slug then on else f s

abbrev pub retag_all : List (Text × Bool) → (Text → Bool) → Text → Bool
retag_all [] f = f
retag_all ((slug, on) ∷ changes) f = retag_all changes (retag f slug on)

abbrev pub Distinct : List Text → Type 0
Distinct [] = Unit {0}
Distinct (s ∷ tags) = (tagged tags s ≡ false) × Distinct tags

missing_found : (o : Option ℕ) (i : ℕ) → o ≡ none → o ≡ some i → ⊥
missing_found o i e h = absurd (cc)

index_of-none :
    (slug : Text) (tags : List Text) → index_of slug tags ≡ none → tagged tags slug ≡ false
unfolding index_of
index_of-none slug [] h = refl
index_of-none slug (s ∷ tags) h = elim (Bool-cases (text_eq slug s)) [
  | inl e ↦ absurd (ground (arith, h, e))
  | inr e ↦ elim (Option-cases (index_of slug tags)) [
    | inl n ↦ rw e (index_of-none slug tags n)
    | inr (i, q) ↦ absurd (cc (sym (rw (e, q) at h)))
  ]
]

-- Where a slug stands: at the front, or behind another one.
index_of-cons :
    (slug s : Text) (tags : List Text) (i : ℕ)
    → index_of slug (s ∷ tags) ≡ some i
    → ((slug ≡ s) × (i ≡ 0))
      ⊎ ((text_eq slug s ≡ false) × (j : ℕ) × (i ≡ suc j) × (index_of slug tags ≡ some j))
unfolding index_of
index_of-cons slug s tags i h = elim (Bool-cases (text_eq slug s)) [
  | inl e ↦ inl (text_eq_sound slug s e, some_inj i 0 (sym (rw e at h)))
  | inr e ↦
      let (j, q, r) = >>=-eq-some (index_of slug tags) (λ j. some (suc j)) (rw e at h) in
      inr (e, j, some_inj i (suc j) (sym r), q)
]

index_of-some :
    (slug : Text) (tags : List Text) (i : ℕ) → index_of slug tags ≡ some i → tagged tags slug ≡ true
index_of-some slug [] i h = absurd (missing_found (index_of slug []) i (unfold index_of in refl) h)
index_of-some slug (s ∷ tags) i h = elim (index_of-cons slug s tags i h) [
  | inl (e, z) ↦ let r = ap (text_eq slug) (sym e) ∙ text_eq_refl slug in rw r refl
  | inr (e, j, z, q) ↦ rw e (index_of-some slug tags j q)
]

tagged-splice_out_le :
    (s : Text) (i : ℕ) (tags : List Text)
    → tagged tags s ≡ false
    → tagged (splice_out i tags) s ≡ false
tagged-splice_out_le s i [] h = refl
tagged-splice_out_le s zero (x ∷ tags) h = ground arith
tagged-splice_out_le s (suc i) (x ∷ tags) h = ground (arith, tagged-splice_out_le s i tags)

Distinct-splice_out : (i : ℕ) (tags : List Text) → Distinct tags → Distinct (splice_out i tags)
Distinct-splice_out i [] d = tt
Distinct-splice_out zero (s ∷ tags) d = d.1
Distinct-splice_out (suc i) (s ∷ tags) d =
    (tagged-splice_out_le s i tags d.0, Distinct-splice_out i tags d.1)

same_slug : (s slug : Text) (f : Text → Bool) → text_eq s slug ≡ true → f s ≡ f slug
same_slug s slug f e = ap f (text_eq_sound s slug e)

tagged-splice_out :
    (slug s : Text) (tags : List Text) (i : ℕ)
    → Distinct tags
    → index_of slug tags ≡ some i
    → tagged (splice_out i tags) s ≡ retag (tagged tags) slug false s
tagged-splice_out slug s [] i d h =
    absurd (missing_found (index_of slug []) i (unfold index_of in refl) h)
tagged-splice_out slug s (x ∷ tags) i d h = elim (index_of-cons slug x tags i h) [
  | inl (e, z) ↦
      rw (z, e)
        (elim (Bool-cases (text_eq s x)) [
          | inl q ↦ rw q (same_slug s x (tagged tags) q ∙ d.0)
          | inr q ↦ rw q refl
        ])
  | inr (e, j, z, q) ↦
      let ih = tagged-splice_out slug s tags j d.1 q in
      rw z (elim (Bool-cases (text_eq s slug)) [
        | inl r ↦
            let ne = same_slug s slug (λ t. text_eq t x) r ∙ e in rw (ne, r) (ih ∙ (rw r refl))
        | inr r ↦ rw (ih, r) refl
      ])
]

tagged-toggle_category :
    (slug : Text) (on : Bool) (tags : List Text) (s : Text)
    → Distinct tags
    → tagged (toggle_category slug on tags) s ≡ retag (tagged tags) slug on s
unfolding toggle_category
tagged-toggle_category slug on tags s d = elim (Option-cases (index_of slug tags)) [
  | inl n ↦ rw n (added on (index_of-none slug tags n))
  | inr (i, q) ↦ rw q (removed on i q)
]
  where
    added :
        (on : Bool)
        → tagged tags slug ≡ false
        → tagged (if on then tags ++ (slug ∷ []) else tags) s ≡ retag (tagged tags) slug on s
    added true n = any-append (text_eq s) tags (slug ∷ []) ∙ ground arith
    added false n = elim (Bool-cases (text_eq s slug)) [
      | inl e ↦ rw e (same_slug s slug (tagged tags) e ∙ n)
      | inr e ↦ rw e refl
    ]

    removed :
        (on : Bool) (i : ℕ)
        → index_of slug tags ≡ some i
        → tagged (if on then tags else splice_out i tags) s ≡ retag (tagged tags) slug on s
    removed false i q = tagged-splice_out slug s tags i d q
    removed true i q = elim (Bool-cases (text_eq s slug)) [
      | inl e ↦ rw e (same_slug s slug (tagged tags) e ∙ index_of-some slug tags i q)
      | inr e ↦ rw e refl
    ]

Distinct-snoc :
    (slug : Text) (tags : List Text)
    → tagged tags slug ≡ false
    → Distinct tags
    → Distinct (tags ++ (slug ∷ []))
Distinct-snoc slug [] n d = (refl, tt)
Distinct-snoc slug (s ∷ tags) n d =
    (any-append (text_eq s) tags (slug ∷ []) ∙ fresh, Distinct-snoc slug tags (ground arith) d.1)
  where
    fresh : (tagged tags s || (text_eq s slug || false)) ≡ false
    fresh = elim (Bool-cases (text_eq s slug)) [
      | inl e ↦
          let back = same_slug s slug (λ t. text_eq slug t) e ∙ text_eq_refl slug in
          absurd (ground (arith, back, n))
      | inr e ↦ rw (d.0, e) refl
    ]

Distinct-toggle_category :
    (slug : Text) (on : Bool) (tags : List Text)
    → Distinct tags
    → Distinct (toggle_category slug on tags)
unfolding toggle_category
Distinct-toggle_category slug on tags d = elim (Option-cases (index_of slug tags)) [
  | inl n ↦ rw n (elim (Bool-cases on) [
    | inl e ↦ rw e (Distinct-snoc slug tags (index_of-none slug tags n) d)
    | inr e ↦ rw e d
  ])
  | inr (i, q) ↦
      rw q (elim (Bool-cases on) [ inl e ↦ rw e d | inr e ↦ rw e (Distinct-splice_out i tags d) ])
]

-- Ticking and unticking the checkboxes changes the tags as a set: after any sequence of changes the
-- event has a slug exactly if the last change of it says so, or none changed it and the event had
-- it before; and no slug is there twice. No slug is there twice before.
pub toggle_categories-retag :
    (changes : List (Text × Bool)) (tags : List Text)
    → Distinct tags
    → (tagged (toggle_categories changes tags) ≡ retag_all changes (tagged tags))
      × Distinct (toggle_categories changes tags)
unfolding toggle_categories
toggle_categories-retag [] tags d = (refl, d)
toggle_categories-retag ((slug, on) ∷ changes) tags d =
    let d' = Distinct-toggle_category slug on tags d in
    let (same, distinct) = toggle_categories-retag changes (toggle_category slug on tags) d' in
    let step = fun_ext λ s. tagged-toggle_category slug on tags s d in
    (same ∙ ap (retag_all changes) step, distinct)
