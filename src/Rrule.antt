-- ===== src/Rrule.antt =====
-- The repeat picker of the event editor: `applyRruleToForm` and `buildRrule` of app.js.
-- What a number field or a date field makes of a text that is set as its value is the browser's
-- and stays a parameter; the options of the repeat list are those of the page.
pub mod Parts
pub mod RoundTrip
pub mod Loss
mod Tests
use cal_stack.Base.{
  ℕ, ◌-◌, ◌≡◌, Bool, true, false, ◌&&◌, ◌||◌, not, Option, none, some, List, [], ◌∷◌, ◌++◌, ltb,
  ◌==◌, if◌then◌else◌, any, all, keep, Text, codes, text_eq, truthy, truthy?, text_or?, split_on,
  join_with, slice, ParsedInt, nan, plus, minus, parse_int, show_nat, get_elem?, ◌>>=◌,
}

-- The fields `#ev-repeat`, `#ev-repeat-interval` and `#ev-repeat-until`, and whether the rows of
-- the last two are hidden. The value of a list with nothing selected is null.
pub record RepeatForm : Type 0 where
  pub freq : Option Text
  pub interval : Text
  pub until : Text
  pub rows_hidden : Bool

-- The options of `#ev-repeat`.
abbrev pub freq_options : List Text
freq_options = [] ∷ codes "DAILY" ∷ codes "WEEKLY" ∷ codes "MONTHLY" ∷ codes "YEARLY" ∷ []

-- Setting a value that is no option leaves nothing selected.
unfoldable pub select_freq : Text → Option Text
unfolding text_eq
select_freq v = if any (text_eq v) freq_options then some v else none

-- The object `parts`; the value is `undefined` where a part has no `=`.
abbrev pub Parts : Type 0
Parts = List (Text × Option Text)

unfoldable pub set_part : Text → Option Text → Parts → Parts
unfolding text_eq
set_part k v [] = (k, v) ∷ []
set_part k v ((j, w) ∷ ps) = if text_eq j k then (k, v) ∷ ps else (j, w) ∷ set_part k v ps

unfoldable pub get_part : Text → Parts → Option Text
unfolding text_eq
get_part k [] = none
get_part k ((j, w) ∷ ps) = if text_eq j k then w else get_part k ps

-- `kv[0]` and `kv[1]` of a part.
abbrev pub put_pair : List Text → Parts → Parts
put_pair [] ps = ps
put_pair (k ∷ vs) ps = set_part k (get_elem? vs 0) ps

unfoldable pub read_parts : List Text → Parts → Parts
unfolding set_part
read_parts [] ps = ps
read_parts (p ∷ rest) ps = read_parts rest (put_pair (split_on b'=' p) ps)

abbrev pub rule_parts : Text → Parts
rule_parts r = read_parts (split_on b';' r) []

unfoldable pub is_known : Text → Bool
unfolding text_eq
is_known k = any (text_eq k) (codes "FREQ" ∷ codes "INTERVAL" ∷ codes "UNTIL" ∷ [])

unfoldable pub only_known : Parts → Bool
unfolding is_known
only_known ps = all (λ p. is_known p.0) ps

-- `YYYYMMDD…` to `YYYY-MM-DD`
abbrev pub dashed : Text → Text
dashed u = slice 0 4 u ++ (b'-' ∷ (slice 4 6 u ++ (b'-' ∷ slice 6 8 u)))

abbrev pub until_date : Option Text → Text
until_date none = []
until_date (some []) = []
until_date (some (c ∷ u)) = dashed (c ∷ u)

module _ (number_value date_value : Text → Text) where
  unfoldable pub apply_parts : Parts → RepeatForm → RepeatForm × Bool
  unfolding only_known select_freq get_part
  apply_parts parts f =
      if not (only_known parts) || not (truthy? (get_part (codes "FREQ") parts))
      then (record f { freq = select_freq []; rows_hidden = true }, false)
      else (
        record {
          freq = select_freq (text_or? (get_part (codes "FREQ") parts) []);
          interval = number_value (text_or? (get_part (codes "INTERVAL") parts) (codes "1"));
          until = date_value (until_date (get_part (codes "UNTIL") parts));
          rows_hidden = false;
        },
        true,
      )

  -- `applyRruleToForm`
  unfoldable pub apply_rrule_to_form : Option Text → RepeatForm → RepeatForm × Bool
  unfolding apply_parts read_parts split_on
  apply_rrule_to_form none f = (record f { freq = select_freq []; rows_hidden = true }, true)
  apply_rrule_to_form (some []) f = (record f { freq = select_freq []; rows_hidden = true }, true)
  apply_rrule_to_form (some (c ∷ r)) f = apply_parts (rule_parts (c ∷ r)) f

abbrev pub interval_part : ParsedInt → List Text
interval_part nan = []
interval_part (minus n) = []
interval_part (plus n) = if ltb 1 n then (codes "INTERVAL=" ++ show_nat n) ∷ [] else []

-- `until.replace(/-/g, '')`
unfoldable pub compact : Text → Text
compact u = keep (λ d. not (d == b'-')) u

abbrev pub until_part : Text → List Text
until_part [] = []
until_part (c ∷ u) = (codes "UNTIL=" ++ (compact (c ∷ u) ++ codes "T235959Z")) ∷ []

-- `buildRrule`
unfoldable pub build_rrule : RepeatForm → Option Text
build_rrule f =
    if truthy? f.freq
    then some (
        join_with b';' (
          (codes "FREQ=" ++ text_or? f.freq [])
          ∷ (interval_part (parse_int f.interval) ++ until_part f.until)))
    else none
