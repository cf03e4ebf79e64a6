-- ===== src/Twap/Tests.antt =====
-- The unit tests of src/twap_plan.rs, and inputs at which the planner's theorems apply.
use metaflux_client_rust.Base.{
  ◌≡◌, ◌<◌, ◌≤◌, ◌↔◌, ◌⊎◌, refl, true, false, some, none, ok, err, arith,
}
use metaflux_client_rust.Decimal.{codes, decimal_to_scaled}
use metaflux_client_rust.Grid.{u64_mod, MarketMeta, grid_value, min_lots, snap, below_min_order}
use metaflux_client_rust.Twap.{
  TwapDurationRequest, TwapPlan, default_request, zero_duration, bad_tuning, grid, size_overflow,
  clamp, spread, sizes, usd_to_wire_size, twap_from_duration,
}
use metaflux_client_rust.Twap.Schedule.{IsScheduled, twap_from_duration-IsScheduled}
use metaflux_client_rust.Twap.Sizing.{
  usd_to_wire_size_outcomes, twap_from_duration_guards, IsSized, IsSizedPlan,
  usd_to_wire_size-IsSized, twap_from_duration-IsSizedPlan,
}

abbrev market : MarketMeta
market = record {
  tick_size = codes "0.1";
  step_size = codes "0.001";
  min_order = codes "0.001";
  sz_decimals = 3;
}

abbrev short_request : TwapDurationRequest
short_request = record default_request { duration_ms = 15000 }

-- the floor raises the delay
abbrev short_plan : TwapPlan
short_plan = record {
  slice_count = 2;
  delay_ms = 10000;
  total_size = none;
  slice_size = none;
  clamped_to_min_delay = true;
  effective_duration_ms = 20000;
  requested_duration_ms = 15000;
}

short_planned : twap_from_duration short_request ≡ ok short_plan
unfolding twap_from_duration spread clamp sizes
short_planned = refl

abbrev sized_request : TwapDurationRequest
sized_request = record default_request {
  duration_ms = 1800000;
  total_usd = some (codes "64250");
  mark_px = some (codes "64250");
  market = some market;
}

abbrev sized_plan : TwapPlan
sized_plan = record {
  slice_count = 60;
  delay_ms = 30000;
  total_size = some 1000;
  slice_size = some 16;
  clamped_to_min_delay = false;
  effective_duration_ms = 1800000;
  requested_duration_ms = 1800000;
}

usd_converts : usd_to_wire_size (codes "1.9999") (codes "1") market ≡ ok 1999
unfolding usd_to_wire_size grid_value min_lots decimal_to_scaled
usd_converts = refl

sized_planned : twap_from_duration sized_request ≡ ok sized_plan
unfolding twap_from_duration spread clamp sizes usd_to_wire_size grid_value min_lots
    decimal_to_scaled
sized_planned = refl

zero_refused : twap_from_duration default_request ≡ err zero_duration
unfolding twap_from_duration
zero_refused = refl

twap_from_duration-IsScheduled_example : IsScheduled short_request short_plan
twap_from_duration-IsScheduled_example =
    twap_from_duration-IsScheduled short_request short_plan (omega arith) (omega arith)
      short_planned

usd_to_wire_size-IsSized_example : IsSized (codes "1.9999") (codes "1") market 1999
usd_to_wire_size-IsSized_example =
    usd_to_wire_size-IsSized (codes "1.9999") (codes "1") market 1999 usd_converts

twap_from_duration-IsSizedPlan_example : IsSizedPlan sized_request (codes "64250") sized_plan
twap_from_duration-IsSizedPlan_example =
    twap_from_duration-IsSizedPlan sized_request (codes "64250") sized_plan (omega arith) refl
      sized_planned

usd_to_wire_size_outcomes_example :
    ((usd_to_wire_size (codes "1.9999") (codes "1") market ≡ ok (snap 1 1999))
      ↔ ((1 ≤ 1999) × (min_lots market ≤ snap 1 1999) × (snap 1 1999 < u64_mod)))
    × ((usd_to_wire_size (codes "1.9999") (codes "1") market ≡ err (grid below_min_order))
        ↔ ((1999 < 1) ⊎ (snap 1 1999 < min_lots market)))
    × ((usd_to_wire_size (codes "1.9999") (codes "1") market ≡ err size_overflow)
        ↔ ((min_lots market ≤ snap 1 1999) × (u64_mod ≤ snap 1 1999)))
unfolding grid_value decimal_to_scaled
usd_to_wire_size_outcomes_example =
    usd_to_wire_size_outcomes (codes "1.9999") (codes "1") market 199990000 100000000 1 refl refl
      refl (omega arith) (omega arith)

twap_from_duration_guards_example :
    ((twap_from_duration default_request ≡ err zero_duration) ↔ (default_request.duration_ms ≡ 0))
    × ((twap_from_duration default_request ≡ err bad_tuning) ↔ (
        (0 < default_request.duration_ms)
        × ((default_request.min_delay_ms ≡ 0)
            ⊎ (default_request.target_slice_ms ≡ 0)
            ⊎ (default_request.max_slices < 2))))
twap_from_duration_guards_example = twap_from_duration_guards default_request
