-- ===== src/Feed/Sorted.antt =====
-- The sort of texts that the feed takes the days of a week from, `sort()` in `weekViewDateRange`.
use cal_stack.Base.{
  ◌≡◌, refl, ◌⊎◌, inl, inr, arith, true, false, List, [], ◌∷◌, In, All, Text, Bool-cases,
  if◌then◌else◌,
}
use cal_stack.Journals.{text_lt}

-- `sort()` of texts.
unfoldable pub insert_text : Text → List Text → List Text
unfolding text_lt
insert_text s [] = s ∷ []
insert_text s (t ∷ ts) = let rest = insert_text s ts in if text_lt t s then t ∷ rest else s ∷ t ∷ ts

unfoldable pub sort_texts : List Text → List Text
unfolding insert_text
sort_texts [] = []
sort_texts (s ∷ ss) = insert_text s (sort_texts ss)

abbrev pub last_text : Text → List Text → Text
last_text s [] = s
last_text s (t ∷ ts) = last_text t ts

text_lt_asymm : (s t : Text) → text_lt s t ≡ true → text_lt t s ≡ false
unfolding text_lt
text_lt_asymm s [] h = absurd (cc)
text_lt_asymm [] (d ∷ t) h = refl
text_lt_asymm (c ∷ s) (d ∷ t) h = ground (arith, text_lt_asymm s t)

-- The order of texts is total: what is not less is passed on.
text_lt_trans : (s t u : Text) → text_lt t s ≡ false → text_lt u t ≡ false → text_lt u s ≡ false
unfolding text_lt
text_lt_trans [] t u h k = refl
text_lt_trans (c ∷ s) [] u h k = absurd (cc)
text_lt_trans (c ∷ s) (d ∷ t) [] h k = absurd (cc)
text_lt_trans (c ∷ s) (d ∷ t) (e ∷ u) h k = ground (arith, text_lt_trans s t u)

-- No text of the list is less than the first one.
abbrev Least : Text → List Text → Type 0
Least s = All (λ t. text_lt t s ≡ false)

abbrev pub Sorted : List Text → Type 0
Sorted [] = Unit {0}
Sorted (s ∷ ts) = Least s ts × Sorted ts

Least-trans : (s t : Text) (ts : List Text) → text_lt t s ≡ false → Least t ts → Least s ts
Least-trans s t [] h l = tt
Least-trans s t (u ∷ ts) h l = (text_lt_trans s t u h l.0, Least-trans s t ts h l.1)

insert_text-Least :
    (m s : Text) (ts : List Text) → text_lt s m ≡ false → Least m ts → Least m (insert_text s ts)
unfolding insert_text
insert_text-Least m s [] h l = (h, tt)
insert_text-Least m s (t ∷ ts) h l = elim (Bool-cases (text_lt t s)) [
  | inl e ↦ rw e (l.0, insert_text-Least m s ts h l.1)
  | inr e ↦ rw e (h, l)
]

insert_text-Sorted : (s : Text) (ts : List Text) → Sorted ts → Sorted (insert_text s ts)
unfolding insert_text
insert_text-Sorted s [] h = (tt, tt)
insert_text-Sorted s (t ∷ ts) h = elim (Bool-cases (text_lt t s)) [
  | inl e ↦ rw e (insert_text-Least t s ts (text_lt_asymm t s e) h.0, insert_text-Sorted s ts h.1)
  | inr e ↦ rw e ((e, Least-trans s t ts e h.0), h)
]

pub sort_texts-Sorted : (ts : List Text) → Sorted (sort_texts ts)
unfolding sort_texts
sort_texts-Sorted [] = tt
sort_texts-Sorted (t ∷ ts) = insert_text-Sorted t (sort_texts ts) (sort_texts-Sorted ts)

In-insert_text : (x s : Text) (ts : List Text) → (x ≡ s) ⊎ In x ts → In x (insert_text s ts)
unfolding insert_text
In-insert_text x s [] h = h
In-insert_text x s (t ∷ ts) h = elim (Bool-cases (text_lt t s)) [
  | inl e ↦ rw e (elim h [
    | inl q ↦ inr (In-insert_text x s ts (inl q))
    | inr (inl q) ↦ inl q
    | inr (inr i) ↦ inr (In-insert_text x s ts (inr i))
  ])
  | inr e ↦ rw e h
]

In-of_insert_text : (x s : Text) (ts : List Text) → In x (insert_text s ts) → (x ≡ s) ⊎ In x ts
unfolding insert_text
In-of_insert_text x s [] i = i
In-of_insert_text x s (t ∷ ts) i = elim (Bool-cases (text_lt t s)) [
  | inr e ↦ rw e at i
  | inl e ↦
      let i' : (x ≡ t) ⊎ In x (insert_text s ts) = rw e at i in
      elim i' [
        | inl q ↦ inr (inl q)
        | inr j ↦ elim (In-of_insert_text x s ts j) [ inl q ↦ inl q | inr k ↦ inr (inr k) ]
      ]
]

pub In-sort_texts : (x : Text) (ts : List Text) → In x ts → In x (sort_texts ts)
unfolding sort_texts
In-sort_texts x [] i = i
In-sort_texts x (t ∷ ts) (inl e) = In-insert_text x t (sort_texts ts) (inl e)
In-sort_texts x (t ∷ ts) (inr i) = In-insert_text x t (sort_texts ts) (inr (In-sort_texts x ts i))

pub In-of_sort_texts : (x : Text) (ts : List Text) → In x (sort_texts ts) → In x ts
unfolding sort_texts
In-of_sort_texts x [] i = i
In-of_sort_texts x (t ∷ ts) i = elim (In-of_insert_text x t (sort_texts ts) i) [
  | inl e ↦ inl e
  | inr j ↦ inr (In-of_sort_texts x ts j)
]

pub In-last_text : (s : Text) (ts : List Text) → In (last_text s ts) (s ∷ ts)
In-last_text s [] = inl refl
In-last_text s (t ∷ ts) = inr (In-last_text t ts)

text_lt_refl : (s : Text) → text_lt s s ≡ false
unfolding text_lt
text_lt_refl [] = refl
text_lt_refl (c ∷ s) = ground (arith, text_lt_refl s)

-- The first text of a sorted list and the last one are around each of them.
pub Sorted-around :
    (x s : Text) (ts : List Text)
    → Sorted (s ∷ ts)
    → In x (s ∷ ts)
    → (text_lt x s ≡ false) × (text_lt (last_text s ts) x ≡ false)
Sorted-around x s [] h (inl e) = rw e (text_lt_refl s, text_lt_refl s)
Sorted-around x s [] h (inr i) = elim i [ ]
Sorted-around x s (t ∷ ts) h (inl e) =
    let (p, q) = Sorted-around t t ts h.1 (inl refl) in
    rw e (text_lt_refl s, text_lt_trans s t (last_text t ts) (h.0.0) q)
Sorted-around x s (t ∷ ts) h (inr i) =
    let (p, q) = Sorted-around x t ts h.1 i in (text_lt_trans s t x (h.0.0) p, q)
