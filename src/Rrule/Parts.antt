-- ===== src/Rrule/Parts.antt =====
-- How a rule is read part by part, and what `buildRrule` writes for a picker that is filled in.
use cal_stack.Base.{
  ℕ, ◌<◌, ◌≡◌, refl, ap, ◌∙◌, inl, inr, Bool, true, false, Option, some, List, [], ◌∷◌, ◌++◌, arith,
  ltb, Bool-cases, ◌⊎◌, All, In, All-at, All-append, Text, codes, text_or, text_or?, truthy,
  split_on, split_on-Lacks, split_on-append, split_on-join_with, Lacks, join_with, plus, show_nat,
  parse_int-show_nat, IsDigits, show_nat-IsDigits, IsDigits-Lacks, show_nat-cons, is_digit,
}
use cal_stack.Rrule.{
  RepeatForm, Parts, select_freq, set_part, put_pair, read_parts, rule_parts, get_part, apply_parts,
  apply_rrule_to_form, build_rrule, interval_part, until_part, only_known, compact, until_date,
}

-- The options of the list that repeat.
abbrev pub repeat_options : List Text
repeat_options = codes "DAILY" ∷ codes "WEEKLY" ∷ codes "MONTHLY" ∷ codes "YEARLY" ∷ []

-- A value that the date field can hold: nothing, or a date of eight digits.
pub data DayText : Text → Type 0 where
  never : DayText []
  day :
      (a b c d e f g h : ℕ)
      → IsDigits (a ∷ b ∷ c ∷ d ∷ e ∷ f ∷ g ∷ h ∷ [])
      → DayText (a ∷ b ∷ c ∷ d ∷ b'-' ∷ e ∷ f ∷ b'-' ∷ g ∷ h ∷ [])

pub record IsOption (v : Text) : Type 0 where
  pub no_semicolon : Lacks b';' v
  pub no_equals : Lacks b'=' v
  pub selected : select_freq v ≡ some v
  pub nonempty : truthy v ≡ true

pub repeat_text : (v : Text) → In v repeat_options → IsOption v
unfolding select_freq
repeat_text v i = All-at IsOption v repeat_options all_options i
  where
    all_options : All IsOption repeat_options
    all_options = (
      record {
        no_semicolon = omega arith;
        no_equals = omega arith;
        selected = refl;
        nonempty = refl;
      },
      (
        record {
          no_semicolon = omega arith;
          no_equals = omega arith;
          selected = refl;
          nonempty = refl;
        },
        (
          record {
            no_semicolon = omega arith;
            no_equals = omega arith;
            selected = refl;
            nonempty = refl;
          },
          (
            record {
              no_semicolon = omega arith;
              no_equals = omega arith;
              selected = refl;
              nonempty = refl;
            },
            tt,
          ),
        ),
      ),
    )

pub put_pair-split_on :
    (k v : Text) (ps : Parts)
    → Lacks b'=' k
    → Lacks b'=' v
    → put_pair (split_on b'=' (k ++ (b'=' ∷ v))) ps ≡ set_part k (some v) ps
put_pair-split_on k v ps hk hv =
    ap (λ l. put_pair l ps) (split_on-append b'=' k v hk ∙ ap (k ∷◌) (split_on-Lacks b'=' v hv))

-- A rule of the picker: the frequency, then the other parts.
abbrev pub rule_of : Text → List Text → Text
rule_of v l = join_with b';' ((codes "FREQ=" ++ v) ∷ l)

pub rule_parts-rule_of :
    (v : Text) (l : List Text)
    → Lacks b';' v
    → Lacks b'=' v
    → All (Lacks b';') l
    → rule_parts (rule_of v l) ≡ read_parts l ((codes "FREQ", some v) ∷ [])
unfolding read_parts
rule_parts-rule_of v l hs he hl =
    ap (λ ps. read_parts ps []) (split_on-join_with b';' (codes "FREQ=" ++ v) l whole hl)
    ∙ ap (read_parts l) (put_pair-split_on (codes "FREQ") v [] (omega arith) he)
  where
    whole : Lacks b';' (codes "FREQ=" ++ v)
    whole = All-append _ (codes "FREQ=") v (omega arith) hs

module _ (number_value date_value : Text → Text) (g : RepeatForm) where
  abbrev apply : Text → RepeatForm × Bool
  apply r = apply_rrule_to_form number_value date_value (some r) g

  apply_nonempty :
      (v : Text) (l : List Text)
      → apply (rule_of v l) ≡ apply_parts number_value date_value (rule_parts (rule_of v l)) g
  unfolding apply_rrule_to_form join_with
  apply_nonempty v [] = refl
  apply_nonempty v (q ∷ qs) = refl

  -- A rule that begins with `FREQ=v` is read part by part.
  pub apply-rule_of :
      (v : Text) (l : List Text)
      → Lacks b';' v
      → Lacks b'=' v
      → All (Lacks b';') l
      → apply (rule_of v l)
        ≡ apply_parts number_value date_value (read_parts l ((codes "FREQ", some v) ∷ [])) g
  apply-rule_of v l hs he hl =
      apply_nonempty v l
      ∙ ap (λ ps. apply_parts number_value date_value ps g) (rule_parts-rule_of v l hs he hl)

-- The parts that `buildRrule` writes behind the frequency.
pub interval_part-Lacks : (n : ℕ) → All (Lacks b';') (interval_part (plus n))
interval_part-Lacks n = elim (Bool-cases (ltb 1 n)) [
  | inl more ↦ rw more (digits, tt)
  | inr one ↦ rw one tt
]
  where
    digits : Lacks b';' (codes "INTERVAL=" ++ show_nat n)
    digits =
        All-append _ (codes "INTERVAL=") (show_nat n) (omega arith)
          (IsDigits-Lacks b';' (show_nat n) refl (show_nat-IsDigits n))

pub compact-IsDigits : (s rest : Text) → IsDigits s → compact (s ++ rest) ≡ s ++ compact rest
unfolding compact
compact-IsDigits [] rest h = refl
compact-IsDigits (c ∷ s) rest h = ground (arith, compact-IsDigits s rest h.1)

compact_dash : (s : Text) → compact (b'-' ∷ s) ≡ compact s
unfolding compact
compact_dash s = refl

compact_nil : compact [] ≡ []
unfolding compact
compact_nil = refl

-- A date is its eight digits, and the digits at the front of an `UNTIL` give the date back.
pub record IsDay (u digits : Text) : Type 0 where
  pub is_compact : compact u ≡ digits
  pub all_digits : IsDigits digits
  pub back : (rest : Text) → until_date (some (digits ++ rest)) ≡ u

pub DayText-IsDay :
    (a b c d e f g h : ℕ) (ds : IsDigits (a ∷ b ∷ c ∷ d ∷ e ∷ f ∷ g ∷ h ∷ []))
    → IsDay (a ∷ b ∷ c ∷ d ∷ b'-' ∷ e ∷ f ∷ b'-' ∷ g ∷ h ∷ []) (a ∷ b ∷ c ∷ d ∷ e ∷ f ∷ g ∷ h ∷ [])
DayText-IsDay a b c d e f g h (da, (db, (dc, (dd, (de, (df, (dg, (dh, _)))))))) = record {
  is_compact = simp (
    compact-IsDigits (a ∷ b ∷ c ∷ d ∷ []) (b'-' ∷ e ∷ f ∷ b'-' ∷ g ∷ h ∷ [])
        (da, (db, (dc, (dd, tt)))),
    compact-IsDigits (e ∷ f ∷ []) (b'-' ∷ g ∷ h ∷ []) (de, (df, tt)),
    compact-IsDigits (g ∷ h ∷ []) [] (dg, (dh, tt)),
    compact_dash,
    compact_nil,
  );
  all_digits = (da, (db, (dc, (dd, (de, (df, (dg, (dh, tt))))))));
  back = λ rest. refl;
}

pub read_parts-cons :
    (k v : Text) (rest : List Text) (ps : Parts)
    → Lacks b'=' k
    → Lacks b'=' v
    → read_parts ((k ++ (b'=' ∷ v)) ∷ rest) ps ≡ read_parts rest (set_part k (some v) ps)
unfolding read_parts
read_parts-cons k v rest ps hk hv = ap (read_parts rest) (put_pair-split_on k v ps hk hv)

pub text_or-truthy : (v d : Text) → truthy v ≡ true → text_or v d ≡ v
text_or-truthy [] d h = absurd (cc)
text_or-truthy (c ∷ v) d h = refl

module _ (number_value date_value : Text → Text) (g : RepeatForm) where
  -- What the picker shows for parts that it knows.
  pub apply_parts-known :
      (v : Text) (parts : Parts) (interval until : Option Text)
      → In v repeat_options
      → only_known parts ≡ true
      → get_part (codes "FREQ") parts ≡ some v
      → get_part (codes "INTERVAL") parts ≡ interval
      → get_part (codes "UNTIL") parts ≡ until
      → apply_parts number_value date_value parts g ≡ (
        record {
          freq = some v;
          interval = number_value (text_or? interval (codes "1"));
          until = date_value (until_date until);
          rows_hidden = false;
        },
        true,
      )
  unfolding apply_parts
  apply_parts-known v parts interval until i known hf hi hu =
      let o = repeat_text v i in
      rw (known, hf, hi, hu)
        (rw (o.nonempty) (rw (text_or-truthy v [] o.nonempty) (rw (o.selected) refl)))

-- What `buildRrule` writes for a picker that shows a frequency and an interval.
pub build_rrule-picker :
    (v : Text) (n : ℕ) (u : Text) (hidden : Bool)
    → In v repeat_options
    → build_rrule (record { freq = some v; interval = show_nat n; until = u; rows_hidden = hidden })
      ≡ some (rule_of v (interval_part (plus n) ++ until_part u))
unfolding build_rrule
build_rrule-picker v n u hidden i =
    let o = repeat_text v i in
    rw (o.nonempty) (rw (text_or-truthy v [] o.nonempty) (rw (parse_int-show_nat n) refl))

pub until_part-Lacks :
    (c : ℕ) (u digits : Text)
    → is_digit c ≡ false
    → Lacks c (codes "T235959Z")
    → IsDay u digits
    → Lacks c (compact u ++ codes "T235959Z")
until_part-Lacks c u digits hd ht d =
    rw (d.is_compact) (All-append _ digits _ (IsDigits-Lacks c digits hd d.all_digits) ht)

-- An interval part is there exactly if the interval is above one.
pub interval_cases :
    (n : ℕ)
    → 0 < n
    → ((n ≡ 1) × (interval_part (plus n) ≡ []))
      ⊎ (interval_part (plus n) ≡ (codes "INTERVAL=" ++ show_nat n) ∷ [])
interval_cases n pos = elim (Bool-cases (ltb 1 n)) [
  | inl more ↦ inr (rw more refl)
  | inr one ↦ inl (ground arith, rw one refl)
]

pub show_nat_one : show_nat 1 ≡ codes "1"
unfolding show_nat
show_nat_one = refl

pub read_parts-nil : (ps : Parts) → read_parts [] ps ≡ ps
unfolding read_parts
read_parts-nil ps = refl

pub text_or?-show_nat : (n : ℕ) (d : Text) → text_or? (some (show_nat n)) d ≡ show_nat n
text_or?-show_nat n d = let (c, s, e) = show_nat-cons n in rw e refl
