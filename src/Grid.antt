-- ===== src/Grid.antt =====
-- `round_order_to_grid` (src/grid.rs): a desired price and size snapped onto a market's grid.
-- `MarketMeta` has the fields that the grid and the planner read. A `u64` is a number below
-- `2 ^ 64`, which the theorems take as a hypothesis; `as u64` keeps its wrap-around.
pub mod Snap
mod Tests
use metaflux_client_rust.Base.{
  ℕ, ◌*◌, ◌/◌, ◌%◌, ◌^◌, Bool, ◌||◌, Option, some, none, Result, ok, err, ◌>>=◌, ◌>>◌, reject_if,
  ok_or, filter, unwrap_or, ltb, ◌==◌, if◌then◌else◌,
}
use metaflux_client_rust.Decimal.{Text, decimal_to_scaled}

abbrev pub u64_mod : ℕ
u64_mod = 2 ^ 64

abbrev pub price_plane_decimals : ℕ
price_plane_decimals = 8

-- The fields of `MarketMeta` (src/rest/info.rs) that the grid and the planner read.
pub record MarketMeta : Type 0 where
  pub tick_size : Text
  pub step_size : Text
  pub min_order : Text
  pub sz_decimals : ℕ

pub record GridOrder : Type 0 where
  pub limit_px : ℕ
  pub size : ℕ

pub data GridError : Type 0 where
  bad_tick bad_step price_below_tick below_min_order : GridError

abbrev is_positive : ℕ → Bool
is_positive t = ltb 0 t

-- `decimal_to_scaled(..).filter(|t| *t > 0)`: the grid value, where the market has one.
unfoldable pub grid_value : Text → ℕ → Option ℕ
grid_value s scale = filter is_positive (decimal_to_scaled s scale)

-- `decimal_to_scaled(&market.min_order, ..).unwrap_or(0)`.
unfoldable pub min_lots : MarketMeta → ℕ
min_lots market = unwrap_or (decimal_to_scaled market.min_order market.sz_decimals) 0

-- The largest multiple of `g` that is not above `x`.
abbrev pub snap : ℕ → ℕ → ℕ
snap g x = x / g * g

unfoldable pub round_order_to_grid : MarketMeta → ℕ → ℕ → Result GridError GridOrder
round_order_to_grid market limit_px size = do
  tick_1e8 ← ok_or (grid_value market.tick_size price_plane_decimals) bad_tick
  step_lots ← ok_or (grid_value market.step_size market.sz_decimals) bad_step
  let px = snap tick_1e8 limit_px
  reject_if (px == 0) price_below_tick
  let sz = snap step_lots size
  reject_if (sz == 0 || ltb sz (min_lots market)) below_min_order
  ok (record { limit_px = px % u64_mod; size = sz % u64_mod })
