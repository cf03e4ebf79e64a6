-- ===== src/Twap/Sizing.antt =====
-- The sizing triple of a TWAP (src/twap_plan.rs): a USD amount at a mark, on the lot grid.
use native.Mathlib.Decide.{dec_lt}
use mathlib.Core.Path.{subst}
use metaflux_client_rust.Base.{
  ℕ, ◌+◌, ◌*◌, ◌/◌, ◌^◌, ◌≤◌, ◌<◌, ◌≡◌, ◌≢◌, ◌↔◌, ◌⊎◌, inl, inr, refl, Option, some, none, ok, err,
  arith, max, Result-cases, Option-cases, div-zero, div-positive, div_run, mul-le_of_le-div,
}
use metaflux_client_rust.Decimal.{Text, u128_mod, decimal_to_scaled}
use metaflux_client_rust.Grid.{u64_mod, MarketMeta, grid_value, snap, min_lots, below_min_order}
use metaflux_client_rust.Grid.Snap.{
  IsSnapped, snap-IsSnapped, snap-zero, snap-positive, grid_value-positive,
}
use metaflux_client_rust.Twap.Schedule.{Planned-of_ok, spread-slices}
use metaflux_client_rust.Twap.{
  TwapDurationRequest, TwapPlan, TwapPlanError, zero_duration, bad_tuning, grid, size_overflow,
  usd_plane_decimals, spread, sizes, u32_mod, usd_to_wire_size, twap_from_duration,
}

-- `size` lots are what `total_usd` buys at the mark, rounded down to the lot grid.
pub record IsSized (total_usd mark_px : Text) (market : MarketMeta) (size : ℕ) : Type 0 where
  pub usd : ℕ
  pub mark : ℕ
  pub step : ℕ
  pub has_usd : decimal_to_scaled total_usd usd_plane_decimals ≡ some usd
  pub has_mark : grid_value mark_px usd_plane_decimals ≡ some mark
  pub has_step : grid_value market.step_size market.sz_decimals ≡ some step
  pub snapped : IsSnapped step (usd * 10 ^ market.sz_decimals / mark) size
  pub affordable : size * mark ≤ usd * 10 ^ market.sz_decimals
  pub positive : 0 < size
  pub admitted : min_lots market ≤ size
  pub fits : size < u64_mod

-- A converted size is the largest multiple of the lot step that the amount buys at the mark; it is
-- positive, reaches the market's minimum and fits the wire field.
pub usd_to_wire_size-IsSized :
    (total_usd mark_px : Text) (market : MarketMeta) (size : ℕ)
    → usd_to_wire_size total_usd mark_px market ≡ ok size
    → IsSized total_usd mark_px market size
unfolding usd_to_wire_size
usd_to_wire_size-IsSized total_usd mark_px market size h =
    elim (Option-cases (decimal_to_scaled total_usd usd_plane_decimals)) [
      | inl e ↦ ground arith
      | inr (usd, e) ↦ elim (Option-cases (grid_value mark_px usd_plane_decimals)) [
        | inl e' ↦ ground arith
        | inr (mark, e') ↦ elim (Option-cases (grid_value market.step_size market.sz_decimals)) [
          | inl e'' ↦ ground arith
          | inr (step, e'') ↦
              let snapped =
                snap-IsSnapped step (usd * 10 ^ market.sz_decimals / mark)
                  (grid_value-positive _ _ step e'') in
              let sz : size ≡ snap step (usd * 10 ^ market.sz_decimals / mark) = ground arith in
              record {
                usd = usd;
                mark = mark;
                step = step;
                has_usd = e;
                has_mark = e';
                has_step = e'';
                snapped = rw sz snapped;
                affordable = rw sz (mul-le_of_le-div _ mark _ snapped.below);
                positive = ground arith;
                admitted = ground arith;
                fits = ground arith;
              }
        ]
      ]
    ]

module _ (total_usd mark_px : Text) (market : MarketMeta) (usd mark step : ℕ)
    (has_usd : decimal_to_scaled total_usd usd_plane_decimals ≡ some usd)
    (has_mark : grid_value mark_px usd_plane_decimals ≡ some mark)
    (has_step : grid_value market.step_size market.sz_decimals ≡ some step) where
  -- With an amount, a mark and a lot grid, and products that fit `u128`, the three outcomes are
  -- told apart by the size alone: it is accepted, under the minimum, or too large for the wire.
  pub usd_to_wire_size_outcomes :
      10 ^ market.sz_decimals < u128_mod
      → usd * 10 ^ market.sz_decimals < u128_mod
      → let raw = usd * 10 ^ market.sz_decimals / mark in
        ((usd_to_wire_size total_usd mark_px market ≡ ok (snap step raw))
          ↔ ((step ≤ raw) × (min_lots market ≤ snap step raw) × (snap step raw < u64_mod)))
        × ((usd_to_wire_size total_usd mark_px market ≡ err (grid below_min_order))
            ↔ ((raw < step) ⊎ (snap step raw < min_lots market)))
        × ((usd_to_wire_size total_usd mark_px market ≡ err size_overflow)
            ↔ ((min_lots market ≤ snap step raw) × (u64_mod ≤ snap step raw)))
  unfolding usd_to_wire_size
  usd_to_wire_size_outcomes pow mul =
      let raw = usd * 10 ^ market.sz_decimals / mark in
      let pos = grid_value-positive _ _ step has_step in
      ground (arith, snap-zero step raw pos, snap-positive step raw pos)

-- What a plan that was asked for `usd` carries.
pub record IsSizedPlan (req : TwapDurationRequest) (usd : Text) (plan : TwapPlan) : Type 0 where
  pub mark_px : Text
  pub market : MarketMeta
  pub total : ℕ
  pub slice : ℕ
  pub has_mark_px : req.mark_px ≡ some mark_px
  pub has_market : req.market ≡ some market
  pub has_total : plan.total_size ≡ some total
  pub has_slice : plan.slice_size ≡ some slice
  pub sized : IsSized usd mark_px market total
  pub one_lot : 1 ≤ slice
  pub nominal : (slice * plan.slice_count ≤ total) ⊎ ((slice ≡ 1) × (total < plan.slice_count))
  pub remainder : total < (slice + 1) * plan.slice_count

slice_nominal :
    (total n : ℕ)
    → 0 < n
    → let slice = max (total / n) 1 in
      (1 ≤ slice) × ((slice * n ≤ total) ⊎ ((slice ≡ 1) × (total < n))) × (total < (slice + 1) * n)
slice_nominal total n pos = elim (dec_lt total n) [
  | yes few ↦ let q = div-zero total n few in (omega arith, inr (omega arith), omega arith)
  | no many ↦
      let q = div-positive total n pos (omega arith) in
      let (lo, hi) = div_run total n pos in
      let e : max (total / n) 1 ≡ total / n = omega arith in
      rw e (q, inl (omega arith), omega arith)
]

-- `sizes` with its amount named
sizes-some :
    (usd : Text) (mark_px : Option Text) (market : Option MarketMeta) (n : ℕ)
    (sized : Option ℕ × Option ℕ)
    → sizes (some usd) mark_px market n ≡ ok sized
    → (m : Text) × (k : MarketMeta) × (total : ℕ) × (mark_px ≡ some m)
      × (market ≡ some k)
      × (usd_to_wire_size usd m k ≡ ok total)
      × (sized.0 ≡ some total)
      × (sized.1 ≡ some (max (total / n) 1))
unfolding sizes
sizes-some usd none market n sized h = cc
sizes-some usd (some m) none n sized h = cc
sizes-some usd (some m) (some k) n sized h = elim (Result-cases (usd_to_wire_size usd m k)) [
  | inl (total, e) ↦ (m, k, total, refl, refl, e, ground arith, ground arith)
  | inr (e, e') ↦ ground arith
]

-- A plan that was asked for an amount had a mark and a market, and carries the size that the amount
-- buys. A nominal slice is at least one lot; the slices together stay within the size, unless there
-- are fewer lots than slices, and one lot more on each slice would exceed it.
pub twap_from_duration-IsSizedPlan :
    (req : TwapDurationRequest) (usd : Text) (plan : TwapPlan)
    → req.max_slices < u32_mod
    → req.total_usd ≡ some usd
    → twap_from_duration req ≡ ok plan
    → IsSizedPlan req usd plan
twap_from_duration-IsSizedPlan req usd plan b e h =
    let p = Planned-of_ok req plan b h in
    let two = (spread-slices req p.max_two p.floor).0 in
    let (mark_px, market, total, e_mark, e_market, e_size, e_total, e_slice) =
      sizes-some usd req.mark_px req.market (spread req).0 (plan.total_size, plan.slice_size)
        (subst
          (λ u.
            sizes u req.mark_px req.market (spread req).0 ≡ ok (plan.total_size, plan.slice_size))
          e p.sized) in
    let (one, fit, rest) = slice_nominal total (spread req).0 (omega arith) in
    record {
      mark_px = mark_px;
      market = market;
      total = total;
      slice = max (total / (spread req).0) 1;
      has_mark_px = e_mark;
      has_market = e_market;
      has_total = e_total;
      has_slice = e_slice;
      sized = usd_to_wire_size-IsSized usd mark_px market total e_size;
      one_lot = one;
      nominal = rw p.count fit;
      remainder = rw p.count rest;
    }

usd_to_wire_size-err :
    (usd mark : Text) (market : MarketMeta)
    → (usd_to_wire_size usd mark market ≢ err zero_duration)
      × (usd_to_wire_size usd mark market ≢ err bad_tuning)
unfolding usd_to_wire_size
usd_to_wire_size-err usd mark market = ground arith

-- the conversion never reports the planner's own guards
sizes-err :
    (usd mark : Option Text) (market : Option MarketMeta) (n : ℕ)
    → (sizes usd mark market n ≢ err zero_duration) × (sizes usd mark market n ≢ err bad_tuning)
unfolding sizes
sizes-err none mark market n = ground arith
sizes-err (some usd) none market n = ground arith
sizes-err (some usd) (some mark) none n = ground arith
sizes-err (some usd) (some mark) (some market) n =
    ground (arith, usd_to_wire_size-err usd mark market)

-- The guards come first, in the order of the code: a zero duration, then the tuning; no failed
-- conversion is reported as either.
pub twap_from_duration_guards :
    (req : TwapDurationRequest)
    → ((twap_from_duration req ≡ err zero_duration) ↔ (req.duration_ms ≡ 0))
      × ((twap_from_duration req ≡ err bad_tuning) ↔ (
          (0 < req.duration_ms)
          × ((req.min_delay_ms ≡ 0) ⊎ (req.target_slice_ms ≡ 0) ⊎ (req.max_slices < 2))))
unfolding twap_from_duration
twap_from_duration_guards req =
    ground (arith, sizes-err req.total_usd req.mark_px req.market (spread req).0)

-- Behind the guards, a plan fails exactly when its amount cannot be converted, with the same error.
pub twap_from_duration_errors :
    (req : TwapDurationRequest) (e : TwapPlanError)
    → 0 < req.duration_ms
    → 0 < req.min_delay_ms
    → 0 < req.target_slice_ms
    → 2 ≤ req.max_slices
    → (twap_from_duration req ≡ err e)
      ↔ (sizes req.total_usd req.mark_px req.market (spread req).0 ≡ err e)
unfolding twap_from_duration
twap_from_duration_errors req e d m s n = ground arith
