-- ===== src/Rrule/Tests.antt =====
-- Runs of the repeat picker, and the theorems at concrete inputs.
use cal_stack.Base.{
  ◌≡◌, refl, Bool, true, false, some, [], ◌∷◌, inl, inr, Text, codes, show_nat, parse_int,
  join_with, arith,
}
use cal_stack.Rrule.{RepeatForm, apply_rrule_to_form, build_rrule, compact}
use cal_stack.Rrule.Parts.{day, rule_of}
use cal_stack.Rrule.RoundTrip.{apply_rrule_to_form-build_rrule}
use cal_stack.Rrule.Loss.{build_rrule-apply_rrule_to_form}

abbrev same : Text → Text
same s = s

abbrev blank : RepeatForm
blank = record { freq = some []; interval = codes "1"; until = []; rows_hidden = true }

abbrev weekly : RepeatForm
weekly = record {
  freq = some (codes "WEEKLY");
  interval = codes "2";
  until = codes "2026-03-01";
  rows_hidden = false;
}

build_weekly : build_rrule weekly ≡ some (codes "FREQ=WEEKLY;INTERVAL=2;UNTIL=20260301T235959Z")
unfolding build_rrule parse_int show_nat join_with compact
build_weekly = refl

apply_weekly :
    apply_rrule_to_form same same
      (some (codes "FREQ=WEEKLY;INTERVAL=2;UNTIL=20260301T235959Z"))
      blank
    ≡ (weekly, true)
unfolding apply_rrule_to_form
apply_weekly = refl

-- A rule with a weekday is left alone.
apply_by_day :
    apply_rrule_to_form same same (some (codes "FREQ=WEEKLY;BYDAY=MO")) blank ≡ (blank, false)
unfolding apply_rrule_to_form
apply_by_day = refl

apply_rrule_to_form-build_rrule_example :
    (r : Text) × (build_rrule weekly ≡ some r)
    × (apply_rrule_to_form same same (some r) blank ≡ (weekly, true))
unfolding show_nat
apply_rrule_to_form-build_rrule_example =
    apply_rrule_to_form-build_rrule same same blank (codes "WEEKLY") 2 (codes "2026-03-01") false
      (inr (inl refl)) (omega arith)
      (day b'2' b'0' b'2' b'6' b'0' b'3' b'0' b'1'
        (refl, (refl, (refl, (refl, (refl, (refl, (refl, (refl, tt)))))))))
      refl refl

build_rrule-apply_rrule_to_form_example :
    let shown : RepeatForm × Bool =
      apply_rrule_to_form same same
        (some (rule_of (codes "DAILY") (codes "UNTIL=20260301T080000Z" ∷ [])))
        blank in
    (shown.1 ≡ true)
    × (build_rrule shown.0 ≡ some (rule_of (codes "DAILY") (codes "UNTIL=20260301T235959Z" ∷ [])))
build_rrule-apply_rrule_to_form_example =
    build_rrule-apply_rrule_to_form same same blank (codes "DAILY") b'2' b'0' b'2' b'6' b'0' b'3'
      b'0' b'1' (codes "T080000Z") (inl refl)
      (refl, (refl, (refl, (refl, (refl, (refl, (refl, (refl, tt)))))))) (omega arith) (omega arith)
      refl refl
