-- ===== src/Base/Decimals.antt =====
-- Decimal numbers in texts: their print, `parseInt`, and white space around them.
use Prim.Native.Nat.{ℕ, zero, suc, ◌+◌, ◌-◌, ◌*◌, ◌/◌, ◌%◌, ◌<◌}
use mathlib.Core.Path.{◌≡◌, refl, ap, ◌∙◌}
use mathlib.Core.Logic.{◌⊎◌, inl, inr}
use mathlib.Core.Bool.{Bool, true, false, ◌&&◌}
use mathlib.Core.Option.{Option, none, some}
use mathlib.Core.List.{[], ◌∷◌}
use native.Mathlib.Omega.{arith}
use cal_stack.Base.Tests.{leb, ◌==◌, if◌then◌else◌, Bool-cases}
use cal_stack.Base.Lists.{All}
use cal_stack.Base.Strings.{Lacks, Text, is_space, trim, trim_end, trim_start}

abbrev pub is_digit : ℕ → Bool
is_digit c = leb b'0' c && leb c b'9'

-- Decimal print of a number below 2^53.
emit : ℕ → ℕ → Text → Text
emit zero n out = out
emit (suc fuel) n out =
    let rest = emit fuel (n / 10) ((b'0' + n % 10) ∷ out) in if n == 0 then out else rest

unfoldable pub show_nat : ℕ → Text
unfolding emit
show_nat n = if n == 0 then b'0' ∷ [] else emit (suc n) n []

-- The value of the digits at the front of a text; `none` if there is none.
abbrev scan : ℕ → Text → ℕ
scan n [] = n
scan n (c ∷ s) = if is_digit c then scan (n * 10 + (c - b'0')) s else n

abbrev pub digits_value : Text → Option ℕ
digits_value [] = none
digits_value (c ∷ s) = if is_digit c then some (scan 0 (c ∷ s)) else none

-- A signed result of `parseInt(s, 10)`; `nan` is NaN.
pub data ParsedInt : Type 0 where
  nan : ParsedInt
  plus minus : ℕ → ParsedInt

abbrev plus? : Option ℕ → ParsedInt
plus? none = nan
plus? (some n) = plus n

abbrev minus? : Option ℕ → ParsedInt
minus? none = nan
minus? (some n) = minus n

abbrev signed : Text → ParsedInt
signed [] = nan
signed (c ∷ s) =
    if c == b'-'
    then minus? (digits_value s)
    else if c == b'+'
    then plus? (digits_value s)
    else plus? (digits_value (c ∷ s))

unfoldable pub parse_int : Text → ParsedInt
unfolding trim_start
parse_int s = signed (trim_start s)

scan_last : (n : ℕ) (out : Text) → scan (n / 10) ((b'0' + n % 10) ∷ out) ≡ scan n out
scan_last n out = ground arith

scan-emit : (fuel n : ℕ) (out : Text) → n < fuel → scan 0 (emit fuel n out) ≡ scan n out
unfolding emit
scan-emit zero n out h = absurd (omega arith)
scan-emit (suc fuel) n out h =
    ground (arith, scan-emit fuel (n / 10) ((b'0' + n % 10) ∷ out), scan_last n out)

abbrev IsDecimal : Text → Type 0
IsDecimal [] = ⊥
IsDecimal (c ∷ s) = is_digit c ≡ true

emit-IsDecimal :
    (fuel n : ℕ) (out : Text) → (0 < n) ⊎ IsDecimal out → n < fuel → IsDecimal (emit fuel n out)
unfolding emit
emit-IsDecimal zero n out h lt = absurd (omega arith)
emit-IsDecimal (suc fuel) n out h lt =
    let last : is_digit (b'0' + n % 10) ≡ true = ground arith in
    let ih = emit-IsDecimal fuel (n / 10) ((b'0' + n % 10) ∷ out) (inr last) in
    elim (Bool-cases (n == 0)) [
      | inl z ↦ rw z (elim h [ inl p ↦ absurd (ground arith) | inr d ↦ d ])
      | inr nz ↦ rw nz (ih (ground arith))
    ]

show_nat-IsDecimal : (n : ℕ) → IsDecimal (show_nat n)
unfolding show_nat
show_nat-IsDecimal n = elim (Bool-cases (n == 0)) [
  | inl z ↦ rw z refl
  | inr nz ↦
      let last : is_digit (b'0' + n % 10) ≡ true = ground arith in
      rw nz (emit-IsDecimal n (n / 10) ((b'0' + n % 10) ∷ []) (inr last) (ground arith))
]

scan-show_nat : (n : ℕ) → scan 0 (show_nat n) ≡ n
unfolding show_nat
scan-show_nat n = ground (arith, scan-emit (suc n) n [])

-- A text that begins with a digit is read as the digits at its front.
parse_int-IsDecimal : (s : Text) → IsDecimal s → parse_int s ≡ plus (scan 0 s)
unfolding parse_int
parse_int-IsDecimal [] h = elim h [ ]
parse_int-IsDecimal (c ∷ s) h = ground arith

-- `parseInt` reads back what `String` printed.
pub parse_int-show_nat : (n : ℕ) → parse_int (show_nat n) ≡ plus n
parse_int-show_nat n =
    parse_int-IsDecimal (show_nat n) (show_nat-IsDecimal n) ∙ ap plus (scan-show_nat n)

-- The same with a leading zero, as the source pads numbers.
pub parse_int-padded : (n : ℕ) → parse_int (b'0' ∷ show_nat n) ≡ plus n
parse_int-padded n = parse_int-IsDecimal (b'0' ∷ show_nat n) refl ∙ ap plus (scan-show_nat n)

abbrev pub IsDigits : Text → Type 0
IsDigits = All (λ c. is_digit c ≡ true)

emit-IsDigits : (fuel n : ℕ) (out : Text) → IsDigits out → IsDigits (emit fuel n out)
unfolding emit
emit-IsDigits zero n out h = h
emit-IsDigits (suc fuel) n out h =
    let last : is_digit (b'0' + n % 10) ≡ true = ground arith in
    let ih = emit-IsDigits fuel (n / 10) ((b'0' + n % 10) ∷ out) (last, h) in
    elim (Bool-cases (n == 0)) [ inl z ↦ rw z h | inr nz ↦ rw nz ih ]

pub show_nat-IsDigits : (n : ℕ) → IsDigits (show_nat n)
unfolding show_nat
show_nat-IsDigits n = elim (Bool-cases (n == 0)) [
  | inl z ↦ rw z (refl, tt)
  | inr nz ↦
      let last : is_digit (b'0' + n % 10) ≡ true = ground arith in
      rw nz (emit-IsDigits n (n / 10) ((b'0' + n % 10) ∷ []) (last, tt))
]

-- Digits hold no character that is no digit.
pub IsDigits-Lacks : (c : ℕ) (s : Text) → is_digit c ≡ false → IsDigits s → Lacks c s
IsDigits-Lacks c [] h d = tt
IsDigits-Lacks c (x ∷ s) h d = (ground arith, IsDigits-Lacks c s h d.1)

pub show_nat-cons : (n : ℕ) → (c : ℕ) × (s : Text) × (show_nat n ≡ c ∷ s)
show_nat-cons n = split (show_nat n) (show_nat-IsDecimal n) refl
  where
    split : (t : Text) → IsDecimal t → show_nat n ≡ t → (c : ℕ) × (s : Text) × (show_nat n ≡ c ∷ s)
    split [] d e = elim d [ ]
    split (c ∷ s) d e = (c, s, e)

-- Trimming leaves a text alone that neither begins nor ends with white space.
pub trim_end-All : (s : Text) → All (λ c. is_space c ≡ false) s → trim_end s ≡ s
unfolding trim_end
trim_end-All [] h = refl
trim_end-All (c ∷ []) h = rw (h.0) refl
trim_end-All (c ∷ d ∷ s) h = rw (trim_end-All (d ∷ s) h.1) refl

pub trim-All : (s : Text) → All (λ c. is_space c ≡ false) s → trim s ≡ s
unfolding trim
trim-All [] h = refl
trim-All (c ∷ s) h = rw (h.0) (trim_end-All (c ∷ s) h)

digits-no_space : (s : Text) → IsDigits s → All (λ c. is_space c ≡ false) s
digits-no_space [] h = tt
digits-no_space (c ∷ s) h = (digit_no_space c h.0, digits-no_space s h.1)
  where
    digit_no_space : (c : ℕ) → is_digit c ≡ true → is_space c ≡ false
    digit_no_space c h = unfold is_space in ground arith

pub trim-show_nat : (n : ℕ) → trim (show_nat n) ≡ show_nat n
trim-show_nat n = trim-All (show_nat n) (digits-no_space (show_nat n) (show_nat-IsDigits n))

-- A text that begins with no white space, behind a blank.
pub trim-blank : (s : Text) → trim (b' ' ∷ s) ≡ trim s
unfolding trim is_space
trim-blank s = refl
