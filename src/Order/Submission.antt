-- ===== src/Order/Submission.antt =====
-- What `submit_order` and `batch_order` (src/rest/exchange.rs) and `submit_order`
-- (src/ws/client.rs) hand over to be signed and posted, whatever the transport does.
use mathlib.Core.Path.{subst}
use metaflux_client_rust.Base.{
  List, [], ◌∷◌, ◌++◌, false, some, Result, ok, err, ◌≡◌, ◌≢◌, ◌<◌, arith, All, map, refl, sym,
  Result-cases, inl, inr, ap, ◌∙◌,
}
use metaflux_client_rust.Order.{
  Order, Trigger, BatchOrder, TimeInForce, OrderKind, limit, market, stop_loss, take_profit, ioc,
  GuardError, TradingAction, submit, batch, validation, check_trigger_limit, check_legs,
  market_tif_coerced, market_tifs_coerced, coerced_tif, submit_order, batch_order,
}
use metaflux_client_rust.Order.Guard.{IsFireable, check_trigger_limit_iff}

-- `sent` is what may be signed for the order `o`: only the time in force may change, a market
-- order is taken at once, and a trigger leg can fire.
pub record IsPlaceable (o sent : Order) : Type 0 where
  pub unchanged : sent ≡ record o { tif = sent.tif }
  pub takes : sent.kind ≡ market → sent.tif ≡ ioc
  pub keeps : o.kind ≢ market → sent ≡ o
  pub fireable : o.kind ≢ market → IsFireable sent
  pub trail : (t : Trigger) → sent.trigger ≡ some t → t.trail_px ≢ some 0
  pub priced : (t : Trigger) → sent.trigger ≡ some t → t.is_market ≡ false → 0 < sent.limit_px

coerced_tif-keeps : (k : OrderKind) (t : TimeInForce) → k ≢ market → coerced_tif k t ≡ t
coerced_tif-keeps market t h = absurd (h refl)
coerced_tif-keeps limit t h = refl
coerced_tif-keeps stop_loss t h = refl
coerced_tif-keeps take_profit t h = refl

coerced-keeps : (o : Order) → o.kind ≢ market → market_tif_coerced o ≡ o
unfolding market_tif_coerced
coerced-keeps o h = λ i. record o { tif = coerced_tif-keeps o.kind o.tif h i }

coerced-takes : (k : OrderKind) (t : TimeInForce) → k ≡ market → coerced_tif k t ≡ ioc
coerced-takes market t h = refl
coerced-takes limit t h = cc
coerced-takes stop_loss t h = cc
coerced-takes take_profit t h = cc

coerced-IsPlaceable : (o : Order) → IsFireable o → IsPlaceable o (market_tif_coerced o)
coerced-IsPlaceable o f = record {
  unchanged = unfold market_tif_coerced in refl;
  takes = unfold market_tif_coerced in coerced-takes o.kind o.tif;
  keeps = coerced-keeps o;
  fireable = λ h. subst IsFireable (sym (coerced-keeps o h)) f;
  trail = unfold market_tif_coerced in f.trail;
  priced = unfold market_tif_coerced in f.priced;
}

-- each leg and what is signed for it
abbrev pub AllPlaceable : List Order → List Order → Type 0
AllPlaceable [] [] = Unit
AllPlaceable (o ∷ os) (s ∷ ss) = IsPlaceable o s × AllPlaceable os ss
AllPlaceable _ _ = ⊥

check_legs-AllPlaceable :
    (os : List Order) → check_legs os ≡ ok tt → AllPlaceable os (map market_tif_coerced os)
unfolding check_legs
check_legs-AllPlaceable [] h = tt
check_legs-AllPlaceable (o ∷ os) h =
    let passed : check_trigger_limit o ≡ ok tt = ground arith in
    (
      coerced-IsPlaceable o ((check_trigger_limit_iff o).0 passed),
      check_legs-AllPlaceable os (ground arith),
    )

-- the legs before the first one that the check refuses
check_legs_first :
    (os : List Order) (e : GuardError)
    → check_legs os ≡ err e
    → (before : List Order) × (o : Order) × (after : List Order) × (os ≡ before ++ o ∷ after)
      × All IsFireable before
      × (check_trigger_limit o ≡ err e)
unfolding check_legs
check_legs_first [] e h = cc
check_legs_first (o ∷ os) e h = elim (Result-cases (check_trigger_limit o)) [
  | inl (_, passed) ↦
      let (before, bad, after, split, fine, refused) = check_legs_first os e (ground arith) in
      (
        o ∷ before,
        bad,
        after,
        (λ i. o ∷ split i),
        ((check_trigger_limit_iff o).0 (ground arith), fine),
        refused,
      )
  | inr (e', refused) ↦ ([], o, os, refl, tt, ground arith)
]

module _ {E A : Type 0} (post : TradingAction → TradingAction → Result E A) where
  -- What `submit_order` posts is what it signs. Only its time in force may differ from the order: a
  -- market order is taken at once, and any other is signed as it is, with a trigger that can fire.
  pub submit_order-IsPlaceable :
      (o : Order) (a : A)
      → submit_order post o ≡ ok a
      → (sent : Order) × (post (submit sent) (submit sent) ≡ ok a) × IsPlaceable o sent
  unfolding submit_order
  submit_order-IsPlaceable o a h =
      let passed : check_trigger_limit o ≡ ok tt = ground arith in
      (
        market_tif_coerced o,
        ground arith,
        coerced-IsPlaceable o ((check_trigger_limit_iff o).0 passed),
      )

  -- `batch_order` signs what it posts: the owner, the grouping and the order of the legs stay, and
  -- every leg is placeable.
  pub batch_order-AllPlaceable :
      (b : BatchOrder) (a : A)
      → batch_order post b ≡ ok a
      → (sent : BatchOrder) × (post (batch sent) (batch sent) ≡ ok a)
        × (sent.owner ≡ b.owner)
        × (sent.grouping ≡ b.grouping)
        × AllPlaceable b.orders sent.orders
  unfolding batch_order
  batch_order-AllPlaceable b a h =
      let passed : check_legs b.orders ≡ ok tt = ground arith in
      (
        market_tifs_coerced b,
        ground arith,
        unfold market_tifs_coerced in refl,
        unfold market_tifs_coerced in refl,
        unfold market_tifs_coerced in check_legs-AllPlaceable b.orders passed,
      )

  -- A batch that is refused locally is refused for its first leg that cannot fire.
  pub batch_order_refused :
      (b : BatchOrder) (e : GuardError)
      → batch_order post b ≡ err (validation e)
      → (before : List Order) × (o : Order) × (after : List Order) × (b.orders
          ≡ before ++ o ∷ after)
        × All IsFireable before
        × (check_trigger_limit o ≡ err e)
  unfolding batch_order
  batch_order_refused b e h = check_legs_first b.orders e (ground arith)

  -- The check reads the time in force before it is coerced: a market order with a limit trigger
  -- that passes the check is signed with a time in force with which the trigger cannot fire.
  pub submit_order_unfireable :
      (o : Order) (t : Trigger) (a : A)
      → o.kind ≡ market
      → o.trigger ≡ some t
      → t.is_market ≡ false
      → submit_order post o ≡ ok a
      → (sent : Order) × (post (submit sent) (submit sent) ≡ ok a) × (¬ IsFireable sent)
  submit_order_unfireable o t a k e m h =
      let (sent, posted, p) = submit_order-IsPlaceable o a h in
      let kind : sent.kind ≡ market = ap (λ (x : Order). x.kind) p.unchanged ∙ k in
      let trigger : sent.trigger ≡ some t = ap (λ (x : Order). x.trigger) p.unchanged ∙ e in
      (sent, posted, λ f. cc (p.takes kind, f.rests t trigger m))
