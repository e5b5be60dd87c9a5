-- ===== src/Times/Tests.antt =====
-- Runs of the time controls, and the theorem about them at a concrete time.
use cal_stack.Base.{◌≡◌, refl, some, none, codes, show_nat, arith}
use cal_stack.Tasks.Editor.{LocalTime}
use cal_stack.Times.{
  pad, part_to_local_input, to_h12, iso_to_local_input, set_time_controls, sync_time_controls,
}
use cal_stack.Times.RoundTrip.{value_at, sync_time_controls-set_time_controls}

abbrev afternoon : LocalTime
afternoon = record { year = 2026; month = 3; day = 1; hours = 13; minutes = 5 }

noon : (to_h12 12 ≡ 12) × (to_h12 0 ≡ 12) × (to_h12 23 ≡ 11)
unfolding to_h12
noon = (refl, refl, refl)

slot :
    part_to_local_input (some (record { date = codes "2026-03-01"; time = none })) (codes "09:00")
    ≡ codes "2026-03-01T09:00"
unfolding part_to_local_input
slot = refl

plain : iso_to_local_input (λ s. none) (some (codes "2026-03-01")) ≡ codes "2026-03-01T00:00"
unfolding iso_to_local_input
plain = refl

instant :
    iso_to_local_input (λ s. some afternoon) (some (codes "2026-03-01T12:05:00Z"))
    ≡ codes "2026-03-01T13:05"
unfolding iso_to_local_input pad show_nat
instant = refl

sync_time_controls-set_time_controls_example :
    sync_time_controls
      (set_time_controls (λ s. some afternoon) (λ s. s) (value_at (codes "2026-03-01") 13 5))
    ≡ set_time_controls (λ s. some afternoon) (λ s. s) (value_at (codes "2026-03-01") 13 5)
sync_time_controls-set_time_controls_example =
    sync_time_controls-set_time_controls (λ s. some afternoon) (λ s. s) (codes "2026-03-01")
      afternoon refl refl refl (omega arith) (omega arith)
