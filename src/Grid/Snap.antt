-- ===== src/Grid/Snap.antt =====
-- What `round_order_to_grid` (src/grid.rs) returns on each branch.
use native.Mathlib.Decide.{dec_lt}
use native.Mathlib.Nat.{mul-mod_left, div-add-mod, div-add-mod', mod-eq_of_lt}
use metaflux_client_rust.Base.{
  ℕ, ◌+◌, ◌*◌, ◌/◌, ◌%◌, ◌≤◌, ◌<◌, ◌≡◌, ◌≢◌, ◌↔◌, ◌⊎◌, inl, inr, sym, ◌∙◌, some, none, ok, err,
  arith, Option-cases,
}
use metaflux_client_rust.Decimal.{Text}
use metaflux_client_rust.Grid.{
  u64_mod, price_plane_decimals, MarketMeta, GridOrder, bad_tick, bad_step, price_below_tick,
  below_min_order, grid_value, min_lots, snap, round_order_to_grid,
}

-- `y` is the largest multiple of `g` that is at most `x`.
pub record IsSnapped (g x y : ℕ) : Type 0 where
  pub on_grid : y % g ≡ 0
  pub below : y ≤ x
  pub near : x < y + g

pub snap-IsSnapped : (g x : ℕ) → 0 < g → IsSnapped g x (snap g x)
snap-IsSnapped g x h = record {
  on_grid = mul-mod_left (x / g) g;
  below = grind arith;
  near = grind arith;
}

-- no multiple of the grid lies between the snapped value and the desired one
pub IsSnapped-greatest : (g x y k : ℕ) → IsSnapped g x y → k * g ≤ x → k * g ≤ y
IsSnapped-greatest g x y k h b = grind (arith, div-add-mod y g)

-- The order `g` is the desired price and size on the market's grid.
pub record IsOnGrid (market : MarketMeta) (limit_px size : ℕ) (g : GridOrder) : Type 0 where
  pub tick : ℕ
  pub step : ℕ
  pub has_tick : grid_value market.tick_size price_plane_decimals ≡ some tick
  pub has_step : grid_value market.step_size market.sz_decimals ≡ some step
  pub price : IsSnapped tick limit_px g.limit_px
  pub quantity : IsSnapped step size g.size
  pub price_positive : 0 < g.limit_px
  pub size_positive : 0 < g.size
  pub size_admitted : min_lots market ≤ g.size

pub grid_value-positive : (s : Text) (scale t : ℕ) → grid_value s scale ≡ some t → 0 < t
unfolding grid_value
grid_value-positive s scale t h = ground arith

-- An accepted order holds the largest price on the tick grid and the largest size on the lot grid
-- that are at most the desired ones, for 64-bit inputs; both are positive, and the size reaches the
-- market's minimum. Nothing was cut off by the conversion back to 64 bits.
pub round_order_to_grid-IsOnGrid :
    (market : MarketMeta) (limit_px size : ℕ) (g : GridOrder)
    → limit_px < u64_mod
    → size < u64_mod
    → round_order_to_grid market limit_px size ≡ ok g
    → IsOnGrid market limit_px size g
unfolding round_order_to_grid
round_order_to_grid-IsOnGrid market limit_px size g bp bs h =
    elim (Option-cases (grid_value market.tick_size price_plane_decimals)) [
      | inl e ↦ ground arith
      | inr (tick, e) ↦ elim (Option-cases (grid_value market.step_size market.sz_decimals)) [
        | inl e' ↦ ground arith
        | inr (step, e') ↦
            let price = snap-IsSnapped tick limit_px (grid_value-positive _ _ tick e) in
            let quantity = snap-IsSnapped step size (grid_value-positive _ _ step e') in
            let px : g.limit_px ≡ snap tick limit_px = ground (arith, price.below) in
            let sz : g.size ≡ snap step size = ground (arith, quantity.below) in
            record {
              tick = tick;
              step = step;
              has_tick = e;
              has_step = e';
              price = rw px price;
              quantity = rw sz quantity;
              price_positive = ground arith;
              size_positive = ground arith;
              size_admitted = ground arith;
            }
      ]
    ]

snap-IsSnapped_self : (g x y : ℕ) → IsSnapped g x y → snap g y ≡ y
snap-IsSnapped_self g x y h = grind (arith, div-add-mod' y g, h.on_grid)

pub snap-zero : (g x : ℕ) → 0 < g → x < g → snap g x ≡ 0
snap-zero g x h lt =
    let s = snap-IsSnapped g x h in sym (mod-eq_of_lt (omega (arith, s.below))) ∙ s.on_grid

pub snap-positive : (g x : ℕ) → 0 < g → g ≤ x → 0 < snap g x
snap-positive g x h le = let s = snap-IsSnapped g x h in omega (arith, s.near)

IsSnapped-covers : {g x y : ℕ} → IsSnapped g x y → 0 < y → g ≤ y
IsSnapped-covers {g} {y = y} h pos = elim (dec_lt y g) [
  | yes lt ↦ absurd (omega (arith, sym (mod-eq_of_lt lt) ∙ h.on_grid))
  | no ge ↦ omega arith
]

module _ (market : MarketMeta) (tick step : ℕ)
    (has_tick : grid_value market.tick_size price_plane_decimals ≡ some tick)
    (has_step : grid_value market.step_size market.sz_decimals ≡ some step) where
  -- With a usable grid, an order that covers one tick and one step and reaches the minimum is
  -- snapped and accepted.
  pub round_order_to_grid-eq_ok :
      (limit_px size : ℕ)
      → limit_px < u64_mod
      → size < u64_mod
      → tick ≤ limit_px
      → step ≤ size
      → min_lots market ≤ snap step size
      → round_order_to_grid market limit_px size
        ≡ ok (record { limit_px = snap tick limit_px; size = snap step size })
  unfolding round_order_to_grid
  round_order_to_grid-eq_ok limit_px size bp bs tp ts m =
      let pt = grid_value-positive _ _ tick has_tick in
      let ps = grid_value-positive _ _ step has_step in
      let price = snap-IsSnapped tick limit_px pt in
      let quantity = snap-IsSnapped step size ps in
      ground (
        arith,
        price.below,
        quantity.below,
        snap-positive tick limit_px pt tp,
        snap-positive step size ps ts,
      )

  -- With a usable grid, the two refusals name exactly what is wrong.
  pub round_order_to_grid_refused :
      (limit_px size : ℕ)
      → ((round_order_to_grid market limit_px size ≡ err price_below_tick) ↔ (limit_px < tick))
        × ((round_order_to_grid market limit_px size ≡ err below_min_order)
            ↔ ((tick ≤ limit_px) × ((size < step) ⊎ (snap step size < min_lots market))))
  unfolding round_order_to_grid
  round_order_to_grid_refused limit_px size =
      let pt = grid_value-positive _ _ tick has_tick in
      let ps = grid_value-positive _ _ step has_step in
      ground (
        arith,
        snap-zero tick limit_px pt,
        snap-zero step size ps,
        snap-positive tick limit_px pt,
        snap-positive step size ps,
      )

-- Without a usable grid the order is refused, and the price grid is looked at first.
pub round_order_to_grid_no_grid :
    (market : MarketMeta) (limit_px size : ℕ)
    → ((round_order_to_grid market limit_px size ≡ err bad_tick)
        ↔ (grid_value market.tick_size price_plane_decimals ≡ none))
      × ((round_order_to_grid market limit_px size ≡ err bad_step) ↔ (
          (grid_value market.tick_size price_plane_decimals ≢ none)
          × (grid_value market.step_size market.sz_decimals ≡ none)))
unfolding round_order_to_grid
round_order_to_grid_no_grid market limit_px size = ground arith

-- Rounding an order that is already on the grid changes nothing.
pub round_order_to_grid_idempotent :
    (market : MarketMeta) (limit_px size : ℕ) (g : GridOrder)
    → limit_px < u64_mod
    → size < u64_mod
    → round_order_to_grid market limit_px size ≡ ok g
    → round_order_to_grid market g.limit_px g.size ≡ ok g
round_order_to_grid_idempotent market limit_px size g bp bs h =
    let on = round_order_to_grid-IsOnGrid market limit_px size g bp bs h in
    let px = snap-IsSnapped_self _ _ _ on.price in
    let sz = snap-IsSnapped_self _ _ _ on.quantity in
    round_order_to_grid-eq_ok market on.tick on.step on.has_tick on.has_step g.limit_px g.size
      (omega (arith, on.price.below)) (omega (arith, on.quantity.below))
      (IsSnapped-covers on.price on.price_positive) (IsSnapped-covers on.quantity on.size_positive)
      (rw sz on.size_admitted)
    ∙ (λ i. ok (record { limit_px = px i; size = sz i }))
