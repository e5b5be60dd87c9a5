-- ===== src/Base/Strings.antt =====
-- Text as the list of its UTF-16 code units, with the string operations that the program uses:
-- comparison, `split` and `join` on one character, `slice` and `trim`.
use Prim.Native.Nat.{ℕ, ◌-◌}
use Prim.Native.Char.{code}
use Prim.Native.String.{String}
use mathlib.Core.Path.{◌≡◌, refl, sym, ap, ap₂, ◌∙◌}
use mathlib.Core.Logic.{◌↔◌, ◌≢◌}
use mathlib.Core.Bool.{Bool, true, false, ◌||◌, ◌&&◌}
use mathlib.Core.Option.{Option, none, some}
use mathlib.Core.List.{List, [], ◌∷◌, ◌++◌}
use native.Mathlib.Omega.{arith}
use cal_stack.Base.Tests.{leb, ◌==◌, if◌then◌else◌, &&_split, ==_iff}
use cal_stack.Base.Lists.{take, drop, All}

abbrev pub Text : Type 0
Text = List ℕ

abbrev pub codes : String → Text
codes String.[] = []
codes (String.◌∷◌ c s) = code c ∷ codes s

-- `a === b` on strings.
unfoldable pub text_eq : Text → Text → Bool
text_eq [] [] = true
text_eq [] (d ∷ t) = false
text_eq (c ∷ s) [] = false
text_eq (c ∷ s) (d ∷ t) = c == d && text_eq s t

pub text_eq_sound : (s t : Text) → text_eq s t ≡ true → s ≡ t
unfolding text_eq
text_eq_sound [] [] h = refl
text_eq_sound [] (d ∷ t) h = absurd (cc)
text_eq_sound (c ∷ s) [] h = absurd (cc)
text_eq_sound (c ∷ s) (d ∷ t) h =
    let (p, q) = &&_split (c == d) (text_eq s t) h in
    ap₂ ◌∷◌ ((==_iff c d).0 p) (text_eq_sound s t q)

pub text_eq_refl : (s : Text) → text_eq s s ≡ true
unfolding text_eq
text_eq_refl [] = refl
text_eq_refl (c ∷ s) = ground (arith, text_eq_refl s)

pub text_eq_iff : (s t : Text) → (text_eq s t ≡ true) ↔ (s ≡ t)
text_eq_iff s t = (text_eq_sound s t, λ e. ap (text_eq s) (sym e) ∙ text_eq_refl s)

pub text_ne : (s t : Text) → text_eq s t ≡ false → s ≢ t
text_ne s t h e = absurd (cc (sym (ap (text_eq s) (sym e) ∙ text_eq_refl s) ∙ h))

-- Truthiness of a string.
abbrev pub truthy : Text → Bool
truthy [] = false
truthy (c ∷ s) = true

abbrev pub truthy? : Option Text → Bool
truthy? none = false
truthy? (some s) = truthy s

-- `s || d`
abbrev pub text_or : Text → Text → Text
text_or [] d = d
text_or (c ∷ s) d = c ∷ s

-- `o || d` for a string that may be null or missing.
abbrev pub text_or? : Option Text → Text → Text
text_or? none d = d
text_or? (some s) d = text_or s d

-- `s || null`
abbrev pub text_or_null : Text → Option Text
text_or_null [] = none
text_or_null (c ∷ s) = some (c ∷ s)

abbrev pub text_or_null? : Option Text → Option Text
text_or_null? none = none
text_or_null? (some s) = text_or_null s

-- The parts of `s.split(sep)`: a new part before the first one, or one more character for it.
cons_head : ℕ → List Text → List Text
cons_head c [] = (c ∷ []) ∷ []
cons_head c (p ∷ ps) = (c ∷ p) ∷ ps

unfoldable pub split_on : ℕ → Text → List Text
unfolding cons_head
split_on sep [] = [] ∷ []
split_on sep (c ∷ s) = let rest = split_on sep s in if c == sep then [] ∷ rest else cons_head c rest

unfoldable pub join_with : ℕ → List Text → Text
join_with sep [] = []
join_with sep (p ∷ []) = p
join_with sep (p ∷ q ∷ ps) = p ++ (sep ∷ join_with sep (q ∷ ps))

abbrev pub Lacks : ℕ → Text → Type 0
Lacks c = All (λ d. d ≢ c)

pub split_on-Lacks : (sep : ℕ) (p : Text) → Lacks sep p → split_on sep p ≡ p ∷ []
unfolding split_on
split_on-Lacks sep [] h = refl
split_on-Lacks sep (c ∷ p) h = ground (arith, split_on-Lacks sep p h.1)

pub split_on-append :
    (sep : ℕ) (p rest : Text)
    → Lacks sep p
    → split_on sep (p ++ (sep ∷ rest)) ≡ p ∷ split_on sep rest
unfolding split_on
split_on-append sep [] rest h = ground arith
split_on-append sep (c ∷ p) rest h = ground (arith, split_on-append sep p rest h.1)

pub split_on-cons :
    (sep c : ℕ) (s p : Text) (ps : List Text)
    → (c == sep) ≡ false
    → split_on sep s ≡ p ∷ ps
    → split_on sep (c ∷ s) ≡ (c ∷ p) ∷ ps
unfolding split_on
split_on-cons sep c s p ps h e = rw (h, e) refl

-- Splitting a join gives the parts back, if there is a part and none holds the separator.
pub split_on-join_with :
    (sep : ℕ) (p : Text) (ps : List Text)
    → Lacks sep p
    → All (Lacks sep) ps
    → split_on sep (join_with sep (p ∷ ps)) ≡ p ∷ ps
unfolding join_with
split_on-join_with sep p [] hp h = split_on-Lacks sep p hp
split_on-join_with sep p (q ∷ ps) hp h =
    split_on-append sep p _ hp ∙ ap (p ∷◌) (split_on-join_with sep q ps h.0 h.1)

-- `s.slice(i, j)`
abbrev pub slice : ℕ → ℕ → Text → Text
slice i j s = take (j - i) (drop i s)

unfoldable pub starts_with : Text → Text → Bool
starts_with [] s = true
starts_with (d ∷ q) [] = false
starts_with (d ∷ q) (c ∷ s) = d == c && starts_with q s

-- `s.indexOf(q) !== -1`
unfoldable pub includes : Text → Text → Bool
unfolding starts_with
includes q [] = starts_with q []
includes q (c ∷ s) = starts_with q (c ∷ s) || includes q s

-- White space as `trim` knows it.
unfoldable pub is_space : ℕ → Bool
is_space c =
    leb 9 c && leb c 13
    || c == 32
    || c == 0xA0
    || c == 0x1680
    || leb 0x2000 c && leb c 0x200A
    || c == 0x2028
    || c == 0x2029
    || c == 0x202F
    || c == 0x205F
    || c == 0x3000
    || c == 0xFEFF

unfoldable pub trim_start : Text → Text
unfolding is_space
trim_start [] = []
trim_start (c ∷ s) = if is_space c then trim_start s else c ∷ s

-- A text without the white space at its end: `c` stays if something stays behind it.
unfoldable pub trim_last : ℕ → Text → Text
unfolding is_space
trim_last c [] = if is_space c then [] else c ∷ []
trim_last c (d ∷ s) = c ∷ d ∷ s

unfoldable pub trim_end : Text → Text
unfolding trim_last
trim_end [] = []
trim_end (c ∷ s) = trim_last c (trim_end s)

unfoldable pub trim : Text → Text
unfolding trim_start trim_end
trim s = trim_end (trim_start s)
