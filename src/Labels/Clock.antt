-- ===== src/Labels/Clock.antt =====
-- The labels of times: what `convertCalendarTimesToAmPm` writes is no time of 24 hours any more.
use cal_stack.Base.{
  ℕ, ◌≡◌, refl, sym, ap, ◌∙◌, inl, inr, arith, Bool, true, false, ◌||◌, none, some, [], ◌∷◌, ◌++◌,
  leb, ◌==◌, if◌then◌else◌, any, any-append, Text, codes, starts_with, includes, drop, length, trim,
  trim_start, trim_end, trim_last, is_space, Bool-cases, is_digit, >>=-eq-some, show_nat, parse_int,
  some_inj,
}
use cal_stack.Times.{to_h12}
use cal_stack.Labels.{hour_of, match_clock, replace_first, clock_label, convert_node}

abbrev is_m : ℕ → Bool
is_m c = c == b'M'

digit-no_m : (c : ℕ) → is_digit c ≡ true → is_m c ≡ false
digit-no_m c h = ground arith

-- A text with the letter is no time.
match_clock-m : (s : Text) → any is_m s ≡ true → match_clock s ≡ none
unfolding match_clock
match_clock-m [] h = refl
match_clock-m (a ∷ []) h = refl
match_clock-m (a ∷ b ∷ []) h = refl
match_clock-m (a ∷ b ∷ c ∷ []) h = refl
match_clock-m (a ∷ b ∷ c ∷ d ∷ []) h = ground arith
match_clock-m (a ∷ b ∷ c ∷ d ∷ e ∷ []) h = ground arith
match_clock-m (a ∷ b ∷ c ∷ d ∷ e ∷ f ∷ s) h = refl

space-no_m : (c : ℕ) → is_space c ≡ true → is_m c ≡ false
unfolding is_space
space-no_m c h = ground arith

any-trim_start : (s : Text) → any is_m (trim_start s) ≡ any is_m s
unfolding trim_start
any-trim_start [] = refl
any-trim_start (c ∷ s) = elim (Bool-cases (is_space c)) [
  | inl e ↦ rw (e, space-no_m c e) (any-trim_start s)
  | inr e ↦ rw e refl
]

any-trim_last : (c : ℕ) (s : Text) → any is_m (trim_last c s) ≡ any is_m (c ∷ s)
unfolding trim_last
any-trim_last c [] = elim (Bool-cases (is_space c)) [
  | inl e ↦ rw (e, space-no_m c e) refl
  | inr e ↦ rw e refl
]
any-trim_last c (d ∷ s) = refl

any-trim_end : (s : Text) → any is_m (trim_end s) ≡ any is_m s
unfolding trim_end
any-trim_end [] = refl
any-trim_end (c ∷ s) = any-trim_last c (trim_end s) ∙ ap (is_m c ||◌) (any-trim_end s)

any-trim : (s : Text) → any is_m (trim s) ≡ any is_m s
unfolding trim
any-trim s = any-trim_end (trim_start s) ∙ any-trim_start s

starts_with-trim_last :
    (c : ℕ) (q s : Text) → starts_with q s ≡ true → starts_with (trim_last c q) (c ∷ s) ≡ true
unfolding starts_with trim_last
starts_with-trim_last c [] s h = elim (Bool-cases (is_space c)) [
  | inl e ↦ rw e refl
  | inr e ↦ rw e (ground arith)
]
starts_with-trim_last c (d ∷ q) s h = ground arith

starts_with-trim_end : (s : Text) → starts_with (trim_end s) s ≡ true
unfolding trim_end
starts_with-trim_end [] = unfold starts_with in refl
starts_with-trim_end (c ∷ s) = starts_with-trim_last c (trim_end s) s (starts_with-trim_end s)

includes_here : (q s : Text) → starts_with q s ≡ true → includes q s ≡ true
unfolding includes
includes_here q [] h = h
includes_here q (c ∷ s) h = rw h refl

includes_behind : (c : ℕ) (q s : Text) → includes q s ≡ true → includes q (c ∷ s) ≡ true
unfolding includes
includes_behind c q s h = ground arith

includes-trim : (s : Text) → includes (trim s) s ≡ true
unfolding trim trim_start
includes-trim [] = unfold includes in refl
includes-trim (c ∷ s) = elim (Bool-cases (is_space c)) [
  | inl e ↦ rw e (includes_behind c (trim_end (trim_start s)) s (includes-trim s))
  | inr e ↦ rw e (includes_here (trim_end (c ∷ s)) (c ∷ s) (starts_with-trim_end (c ∷ s)))
]

-- What is written in place of a text that occurs is there afterwards.
any-replace_first :
    (q r s : Text) → includes q s ≡ true → any is_m r ≡ true → any is_m (replace_first q r s) ≡ true
unfolding replace_first includes
any-replace_first q r [] h m = rw h m
any-replace_first q r (c ∷ s) h m = elim (Bool-cases (starts_with q (c ∷ s))) [
  | inl e ↦ rw e (any-append is_m r (drop (length q) (c ∷ s)) ∙ (rw m refl))
  | inr e ↦ rw e (let ih = any-replace_first q r s (rw e at h) m in ground (arith, ih))
]

any_behind : (s t : Text) → any is_m t ≡ true → any is_m (s ++ t) ≡ true
any_behind [] t h = h
any_behind (c ∷ s) t h = ground (arith, any_behind s t h)

any-suffix : (h : ℕ) → any is_m (if leb 12 h then codes "PM" else codes "AM") ≡ true
any-suffix h = elim (Bool-cases (leb 12 h)) [ inl e ↦ rw e refl | inr e ↦ rw e refl ]

any-clock_label : (m : Text × Text) → any is_m (clock_label m) ≡ true
any-clock_label (hour, minute) =
    any_behind (show_nat (to_h12 (hour_of (parse_int hour)))) _
      (any_behind minute _ (any-suffix (hour_of (parse_int hour))))

-- The text that was written to a node is left alone afterwards.
pub convert_node-again : (t u : Text) → convert_node t ≡ some u → convert_node u ≡ none
unfolding convert_node
convert_node-again t u h =
    let (m, e, q) =
      >>=-eq-some (match_clock (trim t)) (λ m. some (replace_first (trim t) (clock_label m) t)) h in
    let has = any-replace_first (trim t) (clock_label m) t (includes-trim t) (any-clock_label m) in
    let u_is = some_inj _ _ q in
    let free = match_clock-m (trim u) (any-trim u ∙ ap (any is_m) (sym u_is) ∙ has) in rw free refl
