-- ===== src/Times/RoundTrip.antt =====
-- The time controls of app.js: what they show is read back as the value that was set.
use cal_stack.Base.{
  ℕ, zero, suc, ◌+◌, ◌≤◌, ◌<◌, ◌≡◌, refl, sym, ap, ◌∙◌, subst, if◌then◌else◌, inl, inr, Bool, true,
  false, Option, some, [], ◌∷◌, ◌++◌, arith, ltb, leb, map, length, take, In, In-map, any-In,
  Bool-cases, Text, codes, text_eq, text_eq_refl, slice, truthy, text_or?, show_nat-cons, plus,
  parse_int, parse_int-show_nat, parse_int-padded,
}
use cal_stack.Tasks.Editor.{LocalTime}
use cal_stack.Times.{
  pad, count_up, hour_options, minute_options, select_option, to_h12, to_h24, read_h12,
  set_time_controls, sync_time_controls, controls_at,
}

In-count_up : (k first n : ℕ) → first ≤ k → k < first + n → In k (count_up first n)
In-count_up k first zero h l = absurd (omega arith)
In-count_up k first (suc n) h l = elim (Bool-cases (ltb first k)) [
  | inl e ↦ inr (In-count_up k (suc first) n (ground arith) (omega arith))
  | inr e ↦ inl (ground arith)
]

-- A number in the range of a list of options is selected.
select_option-pad :
    (k first n : ℕ)
    → first ≤ k
    → k < first + n
    → select_option (map pad (count_up first n)) (pad k) ≡ some (pad k)
unfolding select_option
select_option-pad k first n h l =
    rw
      (any-In (text_eq (pad k)) (pad k) _ (In-map pad k _ (In-count_up k first n h l))
        (text_eq_refl (pad k)))
      refl

parse_int-pad : (n : ℕ) → parse_int (pad n) ≡ plus n
unfolding pad
parse_int-pad n = elim (Bool-cases (ltb n 10)) [
  | inl e ↦ rw e (parse_int-padded n)
  | inr e ↦ rw e (parse_int-show_nat n)
]

text_or?-pad : (n : ℕ) (s : Text) → text_or? (some (pad n)) s ≡ pad n
unfolding pad
text_or?-pad n s = elim (Bool-cases (ltb n 10)) [
  | inl e ↦ rw e refl
  | inr e ↦ let (c, t, q) = show_nat-cons n in rw (e, q) refl
]

to_h12-ge : (h : ℕ) → 1 ≤ to_h12 h
unfolding to_h12
to_h12-ge h = ground arith

to_h12-le : (h : ℕ) → to_h12 h < 13
unfolding to_h12
to_h12-le h = ground arith

read_h12-plus : (h : ℕ) → read_h12 (plus (to_h12 h)) ≡ to_h12 h
unfolding to_h12 read_h12
read_h12-plus h = ground arith

-- The hour of the day is that of the clock and of its half of the day.
to_h24-to_h12 : (h : ℕ) → h < 24 → to_h24 (to_h12 h) (leb 12 h) ≡ h
unfolding to_h24 to_h12
to_h24-to_h12 h lt = ground arith

take-length : (xs ys : Text) → take (length xs) (xs ++ ys) ≡ xs
take-length [] ys = refl
take-length (x ∷ xs) ys = ap (λ l. x ∷ l) (take-length xs ys)

ampm-leb :
    (b : Bool)
    → text_eq
        (text_or?
          (select_option (codes "AM" ∷ codes "PM" ∷ []) (if b then codes "PM" else codes "AM"))
          [])
        (codes "PM")
      ≡ b
unfolding text_eq select_option
ampm-leb true = refl
ampm-leb false = refl

-- The value that stands for a day and a time of day.
abbrev pub value_at : Text → ℕ → ℕ → Text
value_at day h m = day ++ (b'T' ∷ (pad h ++ (b':' ∷ pad m)))

sync_time_controls-controls_at :
    (v day : Text) (h m : ℕ)
    → h < 24
    → m < 60
    → truthy day ≡ true
    → sync_time_controls (controls_at v day h (pad m))
      ≡ controls_at (value_at day h m) day h (pad m)
unfolding sync_time_controls hour_options minute_options
sync_time_controls-controls_at v day h m hh mm t =
    rw
      (
        select_option-pad (to_h12 h) 1 12 (to_h12-ge h) (to_h12-le h),
        select_option-pad m 0 60 (omega arith) mm,
        text_or?-pad (to_h12 h) [],
        text_or?-pad m (codes "00"),
        parse_int-pad (to_h12 h),
        read_h12-plus h,
        ampm-leb (leb 12 h),
        to_h24-to_h12 h hh,
        t,
      )
      refl

set_time_controls-eq :
    (local_time : Text → Option LocalTime) (date_value : Text → Text) (v : Text) (d : LocalTime)
    → local_time v ≡ some d
    → truthy v ≡ true
    → set_time_controls local_time date_value v
      ≡ controls_at v (date_value (slice 0 10 v)) d.hours (pad d.minutes)
unfolding set_time_controls
set_time_controls-eq lt dv [] d e t = absurd (cc t)
set_time_controls-eq lt dv (c ∷ s) d e t = rw e refl

-- The value that is set is read back from the controls that show it, whatever its hour is, and the
-- controls stay as they are: a change event without a change keeps the time. The value is a day of
-- ten characters that the date field keeps, with the hour and minute of its local time.
pub sync_time_controls-set_time_controls :
    (local_time : Text → Option LocalTime) (date_value : Text → Text) (day : Text) (d : LocalTime)
    → length day ≡ 10
    → date_value day ≡ day
    → local_time (value_at day d.hours d.minutes) ≡ some d
    → d.hours < 24
    → d.minutes < 60
    → sync_time_controls (set_time_controls local_time date_value (value_at day d.hours d.minutes))
      ≡ set_time_controls local_time date_value (value_at day d.hours d.minutes)
sync_time_controls-set_time_controls lt dv [] d len keeps e hh mm = absurd (omega (arith, len))
sync_time_controls-set_time_controls lt dv (c ∷ day) d len keeps e hh mm =
    let shown : set_time_controls lt dv (value_at (c ∷ day) d.hours d.minutes)
        ≡ controls_at (value_at (c ∷ day) d.hours d.minutes) (c ∷ day) d.hours (pad d.minutes) =
      set_time_controls-eq lt dv _ d e refl
      ∙ ap (λ s. controls_at (value_at (c ∷ day) d.hours d.minutes) (dv s) d.hours (pad d.minutes))
          (subst (λ n. take n (value_at (c ∷ day) d.hours d.minutes) ≡ c ∷ day) len
            (take-length (c ∷ day) _))
      ∙ ap (λ s. controls_at (value_at (c ∷ day) d.hours d.minutes) s d.hours (pad d.minutes))
          keeps in
    ap sync_time_controls shown
    ∙ sync_time_controls-controls_at _ (c ∷ day) d.hours d.minutes hh mm refl
    ∙ sym shown
