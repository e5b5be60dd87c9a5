-- ===== src/Times.antt =====
-- The date helpers and the time controls of the event editor, in app.js. The fields of the local time
-- of a text that `new Date` reads are the browser's; an invalid date has none.
pub mod RoundTrip
mod Tests
use cal_stack.Base.{
  ℕ, suc, ◌+◌, ◌%◌, Bool, true, false, not, ◌&&◌, zero, Option, none, some, List, [], ◌∷◌, ◌++◌,
  ltb, leb, ◌==◌, if◌then◌else◌, any, map, length, Text, codes, text_eq, text_or?, truthy, truthy?,
  slice, show_nat, ParsedInt, nan, plus, minus, parse_int, is_digit, all,
}
use cal_stack.Tasks.Editor.{LocalTime}

-- `pad`
unfoldable pub pad : ℕ → Text
pad n = if ltb n 10 then b'0' ∷ show_nat n else show_nat n

-- What the calendar widget tells of a slot.
pub record Part : Type 0 where
  pub date : Text
  pub time : Option Text

-- `partToLocalInput`
unfoldable pub part_to_local_input : Option Part → Text → Text
part_to_local_input none fallback = []
part_to_local_input (some p) fallback =
    if truthy p.date then p.date ++ (b'T' ∷ text_or? p.time fallback) else []

-- `/^\d{4}-\d{2}-\d{2}$/.test`
unfoldable pub is_plain_date : Text → Bool
is_plain_date (a ∷ b ∷ c ∷ d ∷ p ∷ e ∷ f ∷ q ∷ g ∷ h ∷ []) =
    all is_digit (a ∷ b ∷ c ∷ d ∷ e ∷ f ∷ g ∷ h ∷ []) && (p == b'-') && (q == b'-')
is_plain_date _ = false

module _ (local_time : Text → Option LocalTime) where
  abbrev pub local_text : Option LocalTime → Text
  local_text none = codes "NaN-NaN-NaNTNaN:NaN"
  local_text (some d) =
      show_nat d.year
      ++ (b'-'
          ∷ (pad d.month
              ++ (b'-' ∷ (pad d.day ++ (b'T' ∷ (pad d.hours ++ (b':' ∷ pad d.minutes)))))))

  -- `isoToLocalInput`
  unfoldable pub iso_to_local_input : Option Text → Text
  unfolding is_plain_date
  iso_to_local_input none = []
  iso_to_local_input (some iso) =
      if not (truthy iso)
      then []
      else if is_plain_date iso
      then iso ++ codes "T00:00"
      else local_text (local_time iso)

-- The hidden input `#ev-start` or `#ev-end` and the controls of its date, hour, minute and half of
-- the day. The value of a list with nothing selected is null.
pub record TimeControls : Type 0 where
  pub value : Text
  pub date : Text
  pub hour : Option Text
  pub minute : Option Text
  pub ampm : Option Text

abbrev pub count_up : ℕ → ℕ → List ℕ
count_up first zero = []
count_up first (suc n) = first ∷ count_up (suc first) n

-- `populateTimeSelectOptions`
unfoldable pub hour_options : List Text
unfolding pad
hour_options = map pad (count_up 1 12)

unfoldable pub minute_options : List Text
unfolding pad
minute_options = map pad (count_up 0 60)

abbrev pub ampm_options : List Text
ampm_options = codes "AM" ∷ codes "PM" ∷ []

unfoldable pub select_option : List Text → Text → Option Text
unfolding text_eq
select_option options v = if any (text_eq v) options then some v else none

-- `h24 % 12 || 12`
unfoldable pub to_h12 : ℕ → ℕ
to_h12 h = if h % 12 == 0 then 12 else h % 12

-- `parseInt(...) || 12`
unfoldable pub read_h12 : ParsedInt → ℕ
read_h12 nan = 12
read_h12 (plus n) = if n == 0 then 12 else n
read_h12 (minus n) = 12

unfoldable pub to_h24 : ℕ → Bool → ℕ
to_h24 h pm = if pm then (h % 12) + 12 else h % 12

abbrev pub controls_at : Text → Text → ℕ → Text → TimeControls
controls_at value day h minute = record {
  value = value;
  date = day;
  hour = select_option hour_options (pad (to_h12 h));
  minute = select_option minute_options minute;
  ampm = select_option ampm_options (if leb 12 h then codes "PM" else codes "AM");
}

abbrev pub controls_of : Text → Option LocalTime → Text → TimeControls
controls_of value none day = controls_at value [] 9 (codes "00")
controls_of value (some d) day = controls_at value day d.hours (pad d.minutes)

module _ (local_time : Text → Option LocalTime) (date_value : Text → Text) where
  -- `setTimeControls`
  unfoldable pub set_time_controls : Text → TimeControls
  unfolding select_option
  set_time_controls [] = controls_of [] none []
  set_time_controls (c ∷ s) =
      controls_of (c ∷ s) (local_time (c ∷ s)) (date_value (slice 0 10 (c ∷ s)))

-- `syncTimeControls`, after a change of one of the controls.
unfoldable pub sync_time_controls : TimeControls → TimeControls
unfolding text_eq
sync_time_controls c =
    let h12 = read_h12 (parse_int (text_or? c.hour [])) in
    let h24 = to_h24 h12 (text_eq (text_or? c.ampm []) (codes "PM")) in
    record c {
      value =
          if truthy c.date
          then c.date ++ (b'T' ∷ (pad h24 ++ (b':' ∷ text_or? c.minute (codes "00"))))
          else [];
    }
