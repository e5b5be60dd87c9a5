-- ===== src/Calendars/Slug.antt =====
-- The slug of a new calendar in app.js, made from its name. Lower case is the browser's.
use cal_stack.Base.{
  ◌≡◌, refl, ap, ◌⊎◌, inl, inr, arith, Bool, true, false, ◌&&◌, ◌||◌, not, Bool-cases, [], ◌∷◌, leb,
  ◌==◌, if◌then◌else◌, is_empty, ℕ, All, Text, is_space, trim, trim-All, &&_split, ==_iff,
}

-- `[a-z0-9]`
abbrev pub is_slug_char : ℕ → Bool
is_slug_char c = (leb b'a' c && leb c b'z') || (leb b'0' c && leb c b'9')

-- `.replace(/[^a-z0-9]+/g, '-')`, from a place where the last character was replaced or not.
unfoldable pub dash_runs : Bool → Text → Text
dash_runs inside [] = []
dash_runs inside (c ∷ s) =
    let next = dash_runs false s in
    let skipped = dash_runs true s in
    if is_slug_char c then c ∷ next else if inside then skipped else b'-' ∷ skipped

-- `.replace(/^-+|-+$/g, '')`
unfoldable pub strip_start : Text → Text
strip_start [] = []
strip_start (c ∷ s) = let rest = strip_start s in if c == b'-' then rest else c ∷ s

unfoldable pub strip_end : Text → Text
strip_end [] = []
strip_end (c ∷ s) = let rest = strip_end s in if is_empty rest && (c == b'-') then [] else c ∷ rest

unfoldable pub slugify : Text → Text
unfolding dash_runs strip_start strip_end
slugify s = strip_end (strip_start (dash_runs false s))

module _ (lower : Text → Text) where
  unfoldable pub slug_of : Text → Text
  unfolding slugify trim
  slug_of name = slugify (trim (lower name))

-- Words of letters and digits with one dash between two of them; the flag says that a word has to
-- begin here.
abbrev pub is_words : Bool → Text → Bool
is_words begins [] = not begins
is_words begins (c ∷ s) =
    let after = is_words false s in
    let dashed = is_words true s in
    if is_slug_char c then after else (c == b'-') && not begins && dashed

char_no_dash : (c : ℕ) → is_slug_char c ≡ true → (c == b'-') ≡ false
char_no_dash c h = ground arith

strip_start-dash_runs :
    (s : Text)
    → (strip_start (dash_runs false s) ≡ dash_runs true s)
      × (strip_start (dash_runs true s) ≡ dash_runs true s)
unfolding strip_start dash_runs
strip_start-dash_runs [] = (refl, refl)
strip_start-dash_runs (c ∷ s) = elim (Bool-cases (is_slug_char c)) [
  | inl e ↦ rw e (rw (char_no_dash c e) (refl, refl))
  | inr e ↦ rw e ((strip_start-dash_runs s).1, (strip_start-dash_runs s).1)
]

-- What `strip_end` does after its recursive call.
abbrev stripped : ℕ → Text → Text
stripped c rest = if is_empty rest && (c == b'-') then [] else c ∷ rest

stripped-char : (c : ℕ) (rest : Text) → is_slug_char c ≡ true → stripped c rest ≡ c ∷ rest
stripped-char c [] h = rw (char_no_dash c h) refl
stripped-char c (d ∷ rest) h = refl

abbrev EmptyOrWords : Bool → Text → Type 0
EmptyOrWords begins t = (t ≡ []) ⊎ (is_words begins t ≡ true)

words-char :
    (inside : Bool) (c : ℕ) (rest : Text)
    → is_slug_char c ≡ true
    → EmptyOrWords false rest
    → EmptyOrWords inside (stripped c rest)
words-char inside c rest h (inl e) = rw (stripped-char c rest h) (inr (rw (h, e) refl))
words-char inside c rest h (inr w) = rw (stripped-char c rest h) (inr (rw h w))

words-dash : (rest : Text) → EmptyOrWords true rest → EmptyOrWords false (stripped b'-' rest)
words-dash [] w = inl refl
words-dash (d ∷ rest) (inl e) = absurd (cc e)
words-dash (d ∷ rest) (inr w) = inr w

words-other :
    (inside : Bool) (t : Text)
    → EmptyOrWords true (strip_end t)
    → EmptyOrWords inside (strip_end (if inside then t else b'-' ∷ t))
unfolding strip_end
words-other true t w = w
words-other false t w = words-dash (strip_end t) w

strip_end-dash_runs :
    (inside : Bool) (s : Text) → EmptyOrWords inside (strip_end (dash_runs inside s))
unfolding strip_end dash_runs
strip_end-dash_runs inside [] = inl refl
strip_end-dash_runs inside (c ∷ s) = elim (Bool-cases (is_slug_char c)) [
  | inl e ↦
      rw e (words-char inside c (strip_end (dash_runs false s)) e (strip_end-dash_runs false s))
  | inr e ↦ rw e (words-other inside (dash_runs true s) (strip_end-dash_runs true s))
]

pub slugify-is_words : (s : Text) → (slugify s ≡ []) ⊎ (is_words true (slugify s) ≡ true)
unfolding slugify
slugify-is_words s = rw ((strip_start-dash_runs s).0) (strip_end-dash_runs true s)

-- A slug is empty, or words of small letters and digits with one dash between two of them: it
-- neither begins nor ends with a dash, whatever the name is.
pub slug_of-is_words :
    (lower : Text → Text) (name : Text)
    → (slug_of lower name ≡ []) ⊎ (is_words true (slug_of lower name) ≡ true)
unfolding slug_of
slug_of-is_words lower name = slugify-is_words (trim (lower name))

dashed_tail :
    (begins : Bool) (c : ℕ) (t : Text)
    → ((c == b'-') && not begins && is_words true t) ≡ true
    → (begins ≡ false) × (c ≡ b'-') × (is_words true t ≡ true)
dashed_tail begins c t h =
    let (r, w) = &&_split ((c == b'-') && not begins) (is_words true t) h in
    let (d, nb) = &&_split (c == b'-') (not begins) r in
    (not_true begins nb, (==_iff c b'-').0 d, w)
  where
    not_true : (b : Bool) → not b ≡ true → b ≡ false
    not_true true e = absurd (cc e)
    not_true false e = refl

-- The text behind the first character of words.
words_tail :
    (begins : Bool) (c : ℕ) (t : Text)
    → is_words begins (c ∷ t) ≡ true
    → (is_slug_char c ≡ true) × (is_words false t ≡ true)
      ⊎ (begins ≡ false) × (c ≡ b'-') × (is_words true t ≡ true)
words_tail begins c t h = elim (Bool-cases (is_slug_char c)) [
  | inl e ↦ inl (e, rw e at h)
  | inr e ↦ inr (dashed_tail begins c t (rw e at h))
]

dash_runs-is_words : (begins : Bool) (t : Text) → is_words begins t ≡ true → dash_runs begins t ≡ t
unfolding dash_runs
dash_runs-is_words begins [] h = refl
dash_runs-is_words begins (c ∷ t) h = elim (words_tail begins c t h) [
  | inl (e, w) ↦ rw e (ap (λ l. c ∷ l) (dash_runs-is_words false t w))
  | inr (b, d, w) ↦ rw (b, d) (ap (λ l. b'-' ∷ l) (dash_runs-is_words true t w))
]

strip_end-is_words : (begins : Bool) (t : Text) → is_words begins t ≡ true → strip_end t ≡ t
unfolding strip_end
strip_end-is_words begins [] h = refl
strip_end-is_words begins (c ∷ t) h = elim (words_tail begins c t h) [
  | inl (e, w) ↦ rw (strip_end-is_words false t w) (stripped-char c t e)
  | inr (b, d, w) ↦ rw (d, strip_end-is_words true t w) (after_dash t w)
]
  where
    after_dash : (u : Text) → is_words true u ≡ true → stripped b'-' u ≡ b'-' ∷ u
    after_dash [] q = absurd (cc q)
    after_dash (x ∷ u) q = refl

words-no_space :
    (begins : Bool) (t : Text) → is_words begins t ≡ true → All (λ c. is_space c ≡ false) t
words-no_space begins [] h = tt
words-no_space begins (c ∷ t) h = elim (words_tail begins c t h) [
  | inl (e, w) ↦ (char_no_space c e, words-no_space false t w)
  | inr (b, d, w) ↦ (rw d dash_no_space, words-no_space true t w)
]
  where
    char_no_space : (x : ℕ) → is_slug_char x ≡ true → is_space x ≡ false
    char_no_space x q = unfold is_space in ground arith

    dash_no_space : is_space b'-' ≡ false
    dash_no_space = unfold is_space in refl

-- A name that is a slug already is its own slug: words of small letters and digits with one dash
-- between two of them, which lower case does not change.
slug_of-slug :
    (lower : Text → Text) (t : Text) → is_words true t ≡ true → lower t ≡ t → slug_of lower t ≡ t
unfolding slug_of
slug_of-slug lower t h l =
    rw
      (
        l,
        trim-All t (words-no_space true t h),
        (strip_start-dash_runs t).0,
        dash_runs-is_words true t h,
      )
      (strip_end-is_words true t h)
