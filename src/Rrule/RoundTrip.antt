-- ===== src/Rrule/RoundTrip.antt =====
-- What the picker wrote is what it shows again.
use cal_stack.Base.{
  ℕ, ◌<◌, ◌≡◌, refl, sym, ap, ◌∙◌, inl, inr, Bool, true, false, Option, none, some, List, [], ◌∷◌,
  ◌++◌, arith, All, In, All-append, Text, codes, text_or?, Lacks, plus, show_nat, show_nat-IsDigits,
  IsDigits-Lacks,
}
use cal_stack.Rrule.{
  RepeatForm, Parts, set_part, read_parts, get_part, apply_rrule_to_form, build_rrule,
  interval_part, until_part, only_known, compact, until_date,
}
use cal_stack.Rrule.Parts.{
  repeat_options, DayText, repeat_text, rule_of, apply-rule_of, IsDay, DayText-IsDay,
  read_parts-cons, apply_parts-known, build_rrule-picker, until_part-Lacks, interval_cases,
  show_nat_one, read_parts-nil, text_or?-show_nat, never, day,
}

module _ (number_value date_value : Text → Text) (g : RepeatForm) (v : Text)
    (i : In v repeat_options) where
  abbrev Shows : Text → ℕ → Text → Type 0
  Shows r n u =
      apply_rrule_to_form number_value date_value (some r) g
      ≡ (record { freq = some v; interval = show_nat n; until = u; rows_hidden = false }, true)

  -- What the picker shows of the parts that were written.
  Shows-parts :
      (l : List Text) (parts : Parts) (n : ℕ) (u : Text) (interval until : Option Text)
      → All (Lacks b';') l
      → read_parts l ((codes "FREQ", some v) ∷ []) ≡ parts
      → (only_known parts ≡ true)
      → (get_part (codes "FREQ") parts ≡ some v)
      → (get_part (codes "INTERVAL") parts ≡ interval)
      → (get_part (codes "UNTIL") parts ≡ until)
      → number_value (text_or? interval (codes "1")) ≡ show_nat n
      → date_value (until_date until) ≡ u
      → Shows (rule_of v l) n u
  Shows-parts l parts n u interval until hl e hk hf hi hu hn hd =
      let o = repeat_text v i in
      apply-rule_of number_value date_value g v l o.no_semicolon o.no_equals hl
      ∙ rw (e) (
          rw (apply_parts-known number_value date_value g v parts interval until i hk hf hi hu)
            (rw (hn, hd) refl))

  abbrev freq_parts : Parts
  freq_parts = (codes "FREQ", some v) ∷ []

  interval_read :
      (n : ℕ) (rest : List Text) (ps : Parts)
      → read_parts ((codes "INTERVAL=" ++ show_nat n) ∷ rest) ps
        ≡ read_parts rest (set_part (codes "INTERVAL") (some (show_nat n)) ps)
  interval_read n rest ps =
      read_parts-cons (codes "INTERVAL") (show_nat n) rest ps (omega arith)
        (IsDigits-Lacks b'=' (show_nat n) refl (show_nat-IsDigits n))

  interval_Lacks : (n : ℕ) → Lacks b';' (codes "INTERVAL=" ++ show_nat n)
  interval_Lacks n =
      All-append _ (codes "INTERVAL=") (show_nat n) (omega arith)
        (IsDigits-Lacks b';' (show_nat n) refl (show_nat-IsDigits n))

  -- With no end date.
  Shows-never :
      (n : ℕ)
      → 0 < n
      → number_value (show_nat n) ≡ show_nat n
      → date_value [] ≡ []
      → Shows (rule_of v (interval_part (plus n) ++ [])) n []
  unfolding set_part get_part only_known
  Shows-never n pos hn hd = elim (interval_cases n pos) [
    | inl (one, e) ↦ rw e (
        Shows-parts [] freq_parts n [] none none tt (read_parts-nil freq_parts) refl refl refl refl
          (ap number_value (sym (ap show_nat one ∙ show_nat_one)) ∙ hn) hd)
    | inr e ↦ rw e (
        Shows-parts ((codes "INTERVAL=" ++ show_nat n) ∷ []) _ n [] (some (show_nat n)) none
          (interval_Lacks n, tt) (interval_read n [] freq_parts ∙ read_parts-nil _) refl refl refl
          refl (rw (text_or?-show_nat n) hn) hd)
  ]

  module _ (c : ℕ) (u digits : Text) (d : IsDay (c ∷ u) digits) where
    abbrev until_text : Text
    until_text = compact (c ∷ u) ++ codes "T235959Z"

    until_read :
        (ps : Parts)
        → read_parts ((codes "UNTIL=" ++ until_text) ∷ []) ps
          ≡ set_part (codes "UNTIL") (some until_text) ps
    until_read ps =
        read_parts-cons (codes "UNTIL") until_text [] ps (omega arith)
          (until_part-Lacks b'=' (c ∷ u) digits refl (omega arith) d)
        ∙ read_parts-nil _

    until_Lacks : Lacks b';' (codes "UNTIL=" ++ until_text)
    until_Lacks =
        All-append _ (codes "UNTIL=") until_text (omega arith)
          (until_part-Lacks b';' (c ∷ u) digits refl (omega arith) d)

    until_back : until_date (some until_text) ≡ c ∷ u
    until_back = rw (d.is_compact) (d.back (codes "T235959Z"))

    Shows-day :
        (n : ℕ)
        → 0 < n
        → number_value (show_nat n) ≡ show_nat n
        → date_value (c ∷ u) ≡ c ∷ u
        → Shows (rule_of v (interval_part (plus n) ++ until_part (c ∷ u))) n (c ∷ u)
    unfolding set_part get_part only_known
    Shows-day n pos hn hd = elim (interval_cases n pos) [
      | inl (one, e) ↦ rw e (
          Shows-parts ((codes "UNTIL=" ++ until_text) ∷ []) _ n (c ∷ u) none (some until_text)
            (until_Lacks, tt) (until_read freq_parts) refl refl refl refl
            (ap number_value (sym (ap show_nat one ∙ show_nat_one)) ∙ hn)
            (ap date_value until_back ∙ hd))
      | inr e ↦ rw e (
          Shows-parts ((codes "INTERVAL=" ++ show_nat n) ∷ (codes "UNTIL=" ++ until_text) ∷ []) _ n
            (c ∷ u) (some (show_nat n)) (some until_text) (interval_Lacks n, (until_Lacks, tt))
            (interval_read n _ freq_parts ∙ until_read _) refl refl refl refl
            (rw (text_or?-show_nat n) hn) (ap date_value until_back ∙ hd))
    ]

-- Loading the rule that the picker wrote shows the same frequency, interval and end date again, and
-- reports that the rule is understood, whatever the form showed before. The number field keeps the
-- print of the interval and the date field keeps the date.
pub apply_rrule_to_form-build_rrule :
    (number_value date_value : Text → Text) (g : RepeatForm) (v : Text) (n : ℕ) (u : Text)
    (hidden : Bool)
    → In v repeat_options
    → 0 < n
    → DayText u
    → number_value (show_nat n) ≡ show_nat n
    → date_value u ≡ u
    → (r : Text) × (build_rrule
          (record { freq = some v; interval = show_nat n; until = u; rows_hidden = hidden })
        ≡ some r)
      × (apply_rrule_to_form number_value date_value (some r) g
          ≡ (record { freq = some v; interval = show_nat n; until = u; rows_hidden = false }, true))
apply_rrule_to_form-build_rrule nv dv g v n _ hidden i pos never hn hd =
    (_, build_rrule-picker v n [] hidden i, Shows-never nv dv g v i n pos hn hd)
apply_rrule_to_form-build_rrule nv dv g v n _ hidden i pos (day a b c d e f k h ds) hn hd =
    let isday = DayText-IsDay a b c d e f k h ds in
    (_, build_rrule-picker v n _ hidden i, Shows-day nv dv g v i a _ _ isday n pos hn hd)
