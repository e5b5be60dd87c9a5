-- ===== src/Labels/Tests.antt =====
-- Tests of the labels of times and of the marks of the pills.
use cal_stack.Base.{
  ◌≡◌, refl, true, false, Option, none, some, [], ◌∷◌, Text, codes, trim, show_nat, parse_int,
  text_eq,
}
use cal_stack.Times.{to_h12}
use cal_stack.Events.{EventRow}
use cal_stack.Events.Samples.{series}
use cal_stack.Labels.{
  Pill, Grid, match_clock, replace_first, convert_node, decorate_pill, frame, observe,
}

afternoon : convert_node (codes "\n 14:05 ") ≡ some (codes "\n 2:05 PM ")
unfolding convert_node match_clock replace_first trim show_nat to_h12 parse_int
afternoon = refl

midnight : convert_node (codes "0:00") ≡ some (codes "12:00 AM")
unfolding convert_node match_clock replace_first trim show_nat to_h12 parse_int
midnight = refl

no_time : convert_node (codes "24:00") ≡ none
unfolding convert_node match_clock trim
no_time = refl

converted : convert_node (codes "2:05 PM") ≡ none
unfolding convert_node match_clock trim
converted = refl

abbrev secret_event : EventRow
secret_event = record series {
  status = some (codes "tentative");
  visibility = some (codes "private");
  transp = some (codes "transparent");
}

abbrev cache : Text → Option EventRow
cache id = some secret_event

abbrev pill : Pill
pill = record {
  appointment = some (codes "e1");
  background = codes "rgb(1, 2, 3)";
  cancelled = true;
  tentative = false;
  free = false;
  secret = false;
  shadow = [];
  lock = false;
}

decorated : decorate_pill (λ s. s) cache pill ≡ record pill {
  cancelled = false;
  tentative = true;
  free = true;
  secret = true;
  shadow = codes "inset 0 0 0 2px rgb(1, 2, 3)";
  lock = true;
}
unfolding decorate_pill text_eq
decorated = refl

abbrev grid : Grid
grid = record { nodes = codes "09:30" ∷ codes "Monday" ∷ []; pills = pill ∷ [] }

observed :
    observe (λ s. s) cache 2 grid
    ≡ some (record {
      nodes = codes "9:30 AM" ∷ codes "Monday" ∷ [];
      pills = decorate_pill (λ s. s) cache (decorate_pill (λ s. s) cache pill) ∷ [];
    })
unfolding observe frame convert_node match_clock replace_first decorate_pill trim show_nat to_h12
    parse_int text_eq
observed = refl
