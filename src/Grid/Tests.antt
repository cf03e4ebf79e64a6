-- ===== src/Grid/Tests.antt =====
-- The unit tests of src/grid.rs on the grid, and inputs at which its theorems apply.
use metaflux_client_rust.Base.{◌≤◌, ◌≡◌, refl, some, ok, err, arith}
use metaflux_client_rust.Decimal.{codes, decimal_to_scaled}
use metaflux_client_rust.Grid.{
  MarketMeta, GridOrder, bad_tick, price_plane_decimals, snap, below_min_order, price_below_tick,
  grid_value, min_lots, round_order_to_grid,
}
use metaflux_client_rust.Grid.Snap.{IsOnGrid, round_order_to_grid-IsOnGrid}

abbrev market : MarketMeta
market = record {
  tick_size = codes "0.01";
  step_size = codes "0.001";
  min_order = codes "0.001";
  sz_decimals = 5;
}

abbrev snapped : GridOrder
snapped = record { limit_px = 6673525000000; size = 200 }

snaps : round_order_to_grid market 6673525500000 250 ≡ ok snapped
unfolding round_order_to_grid grid_value min_lots decimal_to_scaled
snaps = refl

refusals :
    (round_order_to_grid market 6673525000000 50 ≡ err below_min_order)
    × (round_order_to_grid market 999999 100 ≡ err price_below_tick)
    × (round_order_to_grid (record market { tick_size = codes "0" }) 1000000 100 ≡ err bad_tick)
unfolding round_order_to_grid grid_value min_lots decimal_to_scaled
refusals = (refl, refl, refl)

round_order_to_grid-IsOnGrid_example : IsOnGrid market 6673525500000 250 snapped
round_order_to_grid-IsOnGrid_example =
    round_order_to_grid-IsOnGrid market 6673525500000 250 snapped (omega arith) (omega arith) snaps

-- the tick and the step of the market, in the scaled planes
has_tick : grid_value market.tick_size price_plane_decimals ≡ some 1000000
unfolding grid_value decimal_to_scaled
has_tick = refl

has_step : grid_value market.step_size market.sz_decimals ≡ some 100
unfolding grid_value decimal_to_scaled
has_step = refl

reaches_min : min_lots market ≤ snap 100 250
unfolding min_lots decimal_to_scaled
reaches_min = omega arith
