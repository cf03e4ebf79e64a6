-- ===== src/Twap.antt =====
-- The TWAP planner (src/twap_plan.rs): a duration and a USD notional become the wire fields
-- `slice_count`, `delay_ms` and `total_size`. A `u64` is a number below `2 ^ 64` and a `u32` one
-- below `2 ^ 32`; the theorems take these bounds as hypotheses where they matter.
pub mod Schedule
pub mod Sizing
mod Tests
use metaflux_client_rust.Base.{
  ℕ, ◌*◌, ◌-◌, ◌/◌, ◌^◌, Bool, ◌||◌, Option, some, none, Result, ok, err, ◌>>=◌, ◌>>◌, reject_if,
  ok_or, min, max, ltb, ◌==◌, if◌then◌else◌,
}
use metaflux_client_rust.Decimal.{Text, u128_mod, checked_mul, decimal_to_scaled}
use metaflux_client_rust.Grid.{
  u64_mod, MarketMeta, GridError, bad_step, below_min_order, grid_value, min_lots, snap,
}

abbrev pub u32_mod : ℕ
u32_mod = 2 ^ 32

abbrev pub usd_plane_decimals : ℕ
usd_plane_decimals = 8

abbrev pub default_twap_min_delay_ms : ℕ
default_twap_min_delay_ms = 10000

abbrev pub default_twap_target_slice_ms : ℕ
default_twap_target_slice_ms = 30000

abbrev pub default_twap_max_slices : ℕ
default_twap_max_slices = 1000

pub record TwapDurationRequest : Type 0 where
  pub duration_ms : ℕ
  pub total_usd : Option Text
  pub mark_px : Option Text
  pub market : Option MarketMeta
  pub min_delay_ms : ℕ
  pub max_slices : ℕ
  pub target_slice_ms : ℕ

-- `TwapDurationRequest::default()`.
abbrev pub default_request : TwapDurationRequest
default_request = record {
  duration_ms = 0;
  total_usd = none;
  mark_px = none;
  market = none;
  min_delay_ms = default_twap_min_delay_ms;
  max_slices = default_twap_max_slices;
  target_slice_ms = default_twap_target_slice_ms;
}

pub record TwapPlan : Type 0 where
  pub slice_count : ℕ
  pub delay_ms : ℕ
  pub total_size : Option ℕ
  pub slice_size : Option ℕ
  pub clamped_to_min_delay : Bool
  pub effective_duration_ms : ℕ
  pub requested_duration_ms : ℕ

pub data TwapPlanError : Type 0 where
  zero_duration bad_tuning missing_conversion_input bad_usd bad_mark size_overflow : TwapPlanError
  grid : GridError → TwapPlanError

-- `Ord::clamp`; it panics where `hi < lo`, which the guard on `max_slices` rules out here.
pub clamp : ℕ → ℕ → ℕ → ℕ
clamp lo hi x = if ltb x lo then lo else if ltb hi x then hi else x

abbrev pub saturating_mul : ℕ → ℕ → ℕ
saturating_mul a b = min (a * b) (u64_mod - 1)

-- The slice count and the even spacing: spread at the target cadence, or, where that spacing
-- falls under the floor, at the floor.
pub spread : TwapDurationRequest → ℕ × ℕ
spread req =
    let first = clamp 2 req.max_slices (req.duration_ms / req.target_slice_ms) in
    let fewer = clamp 2 req.max_slices (req.duration_ms / req.min_delay_ms) in
    if ltb (req.duration_ms / first) req.min_delay_ms
    then (fewer, req.duration_ms / fewer)
    else (first, req.duration_ms / first)

-- `10u128.checked_pow(n)`.
abbrev pub checked_pow10 : ℕ → Option ℕ
checked_pow10 n = if ltb (10 ^ n) u128_mod then some (10 ^ n) else none

pub usd_to_wire_size : Text → Text → MarketMeta → Result TwapPlanError ℕ
usd_to_wire_size total_usd mark_px market = do
  usd ← ok_or (decimal_to_scaled total_usd usd_plane_decimals) bad_usd
  mark ← ok_or (grid_value mark_px usd_plane_decimals) bad_mark
  lot_scale ← ok_or (checked_pow10 market.sz_decimals) size_overflow
  scaled_usd ← ok_or (checked_mul usd lot_scale) size_overflow
  let raw = scaled_usd / mark
  step_lots ← ok_or (grid_value market.step_size market.sz_decimals) (grid bad_step)
  let sz = snap step_lots raw
  reject_if (sz == 0 || ltb sz (min_lots market)) (grid below_min_order)
  if ltb sz u64_mod then ok sz else err size_overflow

-- The `match req.total_usd`, for a plan of `slice_count` slices.
pub sizes :
    Option Text → Option Text → Option MarketMeta → ℕ → Result TwapPlanError (Option ℕ × Option ℕ)
sizes none mark_px market slice_count = ok (none, none)
sizes (some usd) none market slice_count = err missing_conversion_input
sizes (some usd) (some mark) none slice_count = err missing_conversion_input
sizes (some usd) (some mark) (some market) slice_count = do
  total ← usd_to_wire_size usd mark market
  ok (some total, some (max (total / slice_count) 1))

pub twap_from_duration : TwapDurationRequest → Result TwapPlanError TwapPlan
twap_from_duration req = do
  reject_if (req.duration_ms == 0) zero_duration
  reject_if (req.min_delay_ms == 0 || req.target_slice_ms == 0 || ltb req.max_slices 2) bad_tuning
  let slice_count = (spread req).0
  let even_delay = (spread req).1
  let clamped = ltb even_delay req.min_delay_ms
  let delay_ms = if clamped then req.min_delay_ms else even_delay
  sized ← sizes req.total_usd req.mark_px req.market slice_count
  ok (record {
    slice_count = if ltb slice_count u32_mod then slice_count else req.max_slices;
    delay_ms = delay_ms;
    total_size = sized.0;
    slice_size = sized.1;
    clamped_to_min_delay = clamped;
    effective_duration_ms = saturating_mul slice_count delay_ms;
    requested_duration_ms = req.duration_ms;
  })
