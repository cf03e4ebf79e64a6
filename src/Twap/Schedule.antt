-- ===== src/Twap/Schedule.antt =====
-- The schedule that `twap_from_duration` (src/twap_plan.rs) derives.
use native.Mathlib.Decide.{dec_lt}
use native.Mathlib.Nat.{le-div_iff_mul-le, div-lt_iff_lt-mul}
use metaflux_client_rust.Base.{
  ℕ, ◌+◌, ◌*◌, ◌/◌, ◌≤◌, ◌<◌, ◌≡◌, ◌↔◌, inl, inr, true, false, ok, arith, ltb, if◌then◌else◌,
  Result-cases, lt→ltb, le-div, div-lt, div_run, ◌∙◌,
}
use metaflux_client_rust.Grid.{u64_mod}
use metaflux_client_rust.Twap.{
  TwapDurationRequest, TwapPlan, clamp, spread, saturating_mul, u32_mod, sizes, twap_from_duration,
}

clamp_bounds : (hi x : ℕ) → 2 ≤ hi → (2 ≤ clamp 2 hi x) × (clamp 2 hi x ≤ hi)
unfolding clamp
clamp_bounds hi x h = ground arith

clamp-le : (hi x : ℕ) → 2 ≤ x → clamp 2 hi x ≤ x
unfolding clamp
clamp-le hi x h = ground arith

clamp-two : (hi x : ℕ) → x < 2 → clamp 2 hi x ≡ 2
unfolding clamp
clamp-two hi x h = ground arith

module _ (req : TwapDurationRequest) (max_two : 2 ≤ req.max_slices)
    (floor : 0 < req.min_delay_ms) where
  -- the slice counts at the target cadence and at the floor
  abbrev first : ℕ
  first = clamp 2 req.max_slices (req.duration_ms / req.target_slice_ms)

  abbrev fewer : ℕ
  fewer = clamp 2 req.max_slices (req.duration_ms / req.min_delay_ms)

  pub spread-slices : (2 ≤ (spread req).0) × ((spread req).0 ≤ req.max_slices)
  unfolding spread
  spread-slices = ground (
    arith,
    clamp_bounds req.max_slices (req.duration_ms / req.target_slice_ms) max_two,
    clamp_bounds req.max_slices (req.duration_ms / req.min_delay_ms) max_two,
  )

  pub spread-delay : (spread req).1 ≡ req.duration_ms / (spread req).0
  unfolding spread
  spread-delay = ground arith

  pub spread_honoured : 2 * req.min_delay_ms ≤ req.duration_ms → req.min_delay_ms ≤ (spread req).1
  unfolding spread
  spread_honoured h =
      let two : 2 ≤ req.duration_ms / req.min_delay_ms = (le-div_iff_mul-le floor).1 h in
      ground (
        arith,
        le-div req.duration_ms req.min_delay_ms fewer floor
            (omega
              (arith, clamp_bounds req.max_slices (req.duration_ms / req.min_delay_ms) max_two))
            (clamp-le req.max_slices _ two),
      )

  pub spread_overrun :
      req.duration_ms < 2 * req.min_delay_ms
      → ((spread req).0 ≡ 2) × ((spread req).1 < req.min_delay_ms)
  unfolding spread
  spread_overrun h =
      let short : req.duration_ms / req.min_delay_ms < 2 = (div-lt_iff_lt-mul floor).1 h in
      let two = clamp-two req.max_slices _ short in
      ground (
        arith,
        two,
        div-lt req.duration_ms req.min_delay_ms fewer (omega (arith, two)) h,
        div-lt req.duration_ms req.min_delay_ms first
            (clamp_bounds req.max_slices (req.duration_ms / req.target_slice_ms) max_two).0 h,
      )

-- What the chain will run for a plan of the request.
pub record IsScheduled (req : TwapDurationRequest) (plan : TwapPlan) : Type 0 where
  pub enough_slices : 2 ≤ plan.slice_count
  pub slices_capped : plan.slice_count ≤ req.max_slices
  pub delay_floored : req.min_delay_ms ≤ plan.delay_ms
  pub requested : plan.requested_duration_ms ≡ req.duration_ms
  pub clamped_iff : (plan.clamped_to_min_delay ≡ true) ↔ (req.duration_ms < 2 * req.min_delay_ms)
  pub honoured :
      plan.clamped_to_min_delay ≡ false
      → (plan.effective_duration_ms ≡ plan.slice_count * plan.delay_ms)
        × (plan.effective_duration_ms ≤ req.duration_ms)
        × (req.duration_ms < plan.effective_duration_ms + plan.slice_count)
  pub overrun :
      plan.clamped_to_min_delay ≡ true
      → (plan.slice_count ≡ 2)
        × (plan.delay_ms ≡ req.min_delay_ms)
        × (plan.effective_duration_ms ≡ saturating_mul 2 req.min_delay_ms)
        × (req.duration_ms ≤ plan.effective_duration_ms)

-- the guards of a successful plan, and the fields of the plan
pub record Planned (req : TwapDurationRequest) (plan : TwapPlan) : Type 0 where
  pub floor : 0 < req.min_delay_ms
  pub max_two : 2 ≤ req.max_slices
  pub positive : 0 < req.duration_ms
  pub count : plan.slice_count ≡ (spread req).0
  pub clamped : plan.clamped_to_min_delay ≡ ltb (spread req).1 req.min_delay_ms
  pub delay :
      plan.delay_ms
      ≡ (if ltb (spread req).1 req.min_delay_ms then req.min_delay_ms else (spread req).1)
  pub effective : plan.effective_duration_ms ≡ saturating_mul plan.slice_count plan.delay_ms
  pub echoed : plan.requested_duration_ms ≡ req.duration_ms
  pub sized :
      sizes req.total_usd req.mark_px req.market (spread req).0
      ≡ ok (plan.total_size, plan.slice_size)

pub Planned-of_ok :
    (req : TwapDurationRequest) (plan : TwapPlan)
    → req.max_slices < u32_mod
    → twap_from_duration req ≡ ok plan
    → Planned req plan
unfolding twap_from_duration
Planned-of_ok req plan b h =
    elim (Result-cases (sizes req.total_usd req.mark_px req.market (spread req).0)) [
      | inl (sized, e) ↦
          let floor : 0 < req.min_delay_ms = ground arith in
          let max_two : 2 ≤ req.max_slices = ground arith in
          let capped = (spread-slices req max_two floor).1 in
          record {
            floor = floor;
            max_two = max_two;
            positive = ground arith;
            count = ground (arith, capped);
            clamped = ground arith;
            delay = ground arith;
            effective = ground (arith, capped);
            echoed = ground arith;
            sized = ground arith;
          }
      | inr (e, e') ↦ ground arith
    ]

clamped-short :
    {req : TwapDurationRequest} {plan : TwapPlan}
    → Planned req plan
    → plan.clamped_to_min_delay ≡ true
    → req.duration_ms < 2 * req.min_delay_ms
clamped-short {req} {plan} p e = elim (dec_lt req.duration_ms (2 * req.min_delay_ms)) [
  | yes short ↦ short
  | no long ↦ absurd (ground (arith, spread_honoured req p.max_two p.floor))
]

-- A plan has at least two slices and at most the ceiling, and never a delay under the floor. The
-- floor raises the delay exactly when the window holds less than two of it, and then the plan is
-- two slices of the floor. Otherwise the run ends within the window, less than one slice count of
-- milliseconds early.
pub twap_from_duration-IsScheduled :
    (req : TwapDurationRequest) (plan : TwapPlan)
    → req.max_slices < u32_mod
    → req.duration_ms < u64_mod
    → twap_from_duration req ≡ ok plan
    → IsScheduled req plan
twap_from_duration-IsScheduled req plan b d h =
    let p = Planned-of_ok req plan b h in
    let slices = spread-slices req p.max_two p.floor in
    let even = spread-delay req p.max_two p.floor in
    record {
      enough_slices = rw p.count slices.0;
      slices_capped = rw p.count slices.1;
      delay_floored = ground (arith, p.delay);
      requested = p.echoed;
      clamped_iff = (
        (λ e. clamped-short p e),
        (λ short. rw p.clamped (lt→ltb _ _ (spread_overrun req p.max_two p.floor short).1)),
      );
      honoured = λ e.
          let run = div_run req.duration_ms (spread req).0 (omega arith) in
          let delay : plan.delay_ms ≡ req.duration_ms / (spread req).0 = ground arith in
          rw (p.effective, delay, p.count) (omega arith);
      overrun = λ e.
          let short = clamped-short p e in
          let two = (spread_overrun req p.max_two p.floor short).0 in
          let delay : plan.delay_ms ≡ req.min_delay_ms = ground arith in
          (
            p.count ∙ two,
            delay,
            rw (p.effective, delay, p.count, two),
            rw (p.effective, delay, p.count, two) (omega arith),
          );
    }
