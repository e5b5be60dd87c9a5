-- ===== src/Rrule/Loss.antt =====
-- What the picker forgets of a rule that it accepts: the time of day of `UNTIL`.
use cal_stack.Base.{
  ℕ, ◌≡◌, refl, ap, ◌∙◌, none, some, true, false, [], ◌∷◌, ◌++◌, Bool, All-append, In, Text, codes,
  Lacks, arith, IsDigits, IsDigits-Lacks,
}
use cal_stack.Rrule.{RepeatForm, set_part, get_part, only_known, apply_rrule_to_form, build_rrule}
use cal_stack.Rrule.Parts.{
  repeat_options, repeat_text, rule_of, apply-rule_of, apply_parts-known, read_parts-cons,
  read_parts-nil, build_rrule-picker, DayText-IsDay, IsDay, show_nat_one,
}

module _ (number_value date_value : Text → Text) (g : RepeatForm) (v : Text)
    (i : In v repeat_options) (u digits : Text) (d : IsDay u digits) (rest : Text)
    (semicolon : Lacks b';' rest) (equals : Lacks b'=' rest) where
  abbrev ends : Text
  ends = digits ++ rest

  apply-ends :
      apply_rrule_to_form number_value date_value
        (some (rule_of v ((codes "UNTIL=" ++ ends) ∷ [])))
        g
      ≡ (
        record {
          freq = some v;
          interval = number_value (codes "1");
          until = date_value u;
          rows_hidden = false;
        },
        true,
      )
  unfolding set_part get_part only_known
  apply-ends =
      let o = repeat_text v i in
      apply-rule_of number_value date_value g v _ o.no_semicolon o.no_equals (
        All-append _ (codes "UNTIL=") ends (omega arith)
            (All-append _ digits rest (IsDigits-Lacks b';' digits refl d.all_digits) semicolon),
        tt,
      )
      ∙ rw
          (read_parts-cons (codes "UNTIL") ends [] ((codes "FREQ", some v) ∷ []) (omega arith)
            (All-append _ digits rest (IsDigits-Lacks b'=' digits refl d.all_digits) equals))
          (rw (read_parts-nil ((codes "FREQ", some v) ∷ (codes "UNTIL", some ends) ∷ [])) (
            rw
              (apply_parts-known number_value date_value g v
                ((codes "FREQ", some v) ∷ (codes "UNTIL", some ends) ∷ []) none (some ends) i refl
                refl refl refl)
              (rw (d.back rest) refl)))

-- A rule of a frequency and an end is accepted by the picker, and saving it again ends the series
-- at 23:59:59 UTC of the end date, whatever stood behind the eight digits of the date: the time of
-- day of the end is lost. The text behind the digits holds no separator, the number field keeps
-- "1", and the date field keeps the date.
pub build_rrule-apply_rrule_to_form :
    (number_value date_value : Text → Text) (g : RepeatForm) (v : Text) (a b c d e f k h : ℕ)
    (rest : Text)
    → In v repeat_options
    → IsDigits (a ∷ b ∷ c ∷ d ∷ e ∷ f ∷ k ∷ h ∷ [])
    → Lacks b';' rest
    → Lacks b'=' rest
    → number_value (codes "1") ≡ codes "1"
    → date_value (a ∷ b ∷ c ∷ d ∷ b'-' ∷ e ∷ f ∷ b'-' ∷ k ∷ h ∷ [])
      ≡ a ∷ b ∷ c ∷ d ∷ b'-' ∷ e ∷ f ∷ b'-' ∷ k ∷ h ∷ []
    → let shown : RepeatForm × Bool =
        apply_rrule_to_form number_value date_value
          (some
            (rule_of v ((codes "UNTIL=" ++ ((a ∷ b ∷ c ∷ d ∷ e ∷ f ∷ k ∷ h ∷ []) ++ rest)) ∷ [])))
          g in
      (shown.1 ≡ true)
      × (build_rrule shown.0
          ≡ some (
              rule_of v (
                (codes "UNTIL=" ++ ((a ∷ b ∷ c ∷ d ∷ e ∷ f ∷ k ∷ h ∷ []) ++ codes "T235959Z"))
                ∷ [])))
build_rrule-apply_rrule_to_form nv dv g v a b c d e f k h rest i ds hs he hn hd =
    let day = DayText-IsDay a b c d e f k h ds in
    let shown = apply-ends nv dv g v i _ _ day rest hs he in
    (
      ap (λ s. s.1) shown,
      ap (λ s. build_rrule s.0) shown
          ∙ rw (hn, hd, ← show_nat_one)
              (build_rrule-picker v 1 _ false i ∙ rw (day.is_compact) refl),
    )
