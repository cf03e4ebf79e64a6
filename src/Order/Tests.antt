-- ===== src/Order/Tests.antt =====
-- Orders at which the theorems on submission apply, with a transport that accepts everything.
use metaflux_client_rust.Base.{ℕ, [], ◌∷◌, false, none, some, Result, ok, err, ◌≡◌, refl}
use metaflux_client_rust.Order.{
  Order, BatchOrder, Trigger, sl, bid, limit, market, gtc, ioc, alo, na, cancel_oldest,
  TradingAction, submit, batch, validation, non_gtc, zero_trail, check_trigger_limit, check_legs,
  market_tif_coerced, market_tifs_coerced, submit_order, batch_order,
}
use metaflux_client_rust.Order.Triggers.{stop_market, with_trail}
use metaflux_client_rust.Order.Guard.{IsFireable}
use metaflux_client_rust.Order.Submission.{
  IsPlaceable, AllPlaceable, submit_order-IsPlaceable, batch_order-AllPlaceable,
  submit_order_unfireable,
}

-- The receipt of this transport is what it was asked to sign.
abbrev accept : TradingAction → TradingAction → Result ℕ TradingAction
accept wire typed = ok typed

abbrev plain : Order
plain = record {
  owner = 17;
  market_id = 1;
  side = bid;
  kind = market;
  size = 1000;
  limit_px = 5000000000000;
  tif = gtc;
  stp_mode = cancel_oldest;
  reduce_only = false;
  cloid = none;
  builder = none;
  position_side = none;
  trigger = none;
}

abbrev limit_trigger : Trigger
limit_trigger = record { trigger_px = 7; is_market = false; tpsl = sl; trail_px = none }

abbrev triggered : Order
triggered = record plain { trigger = some limit_trigger }

abbrev resting : Order
resting = record plain { kind = limit; trigger = some limit_trigger }

abbrev post_only : Order
post_only = record resting { tif = alo }

abbrev pair : BatchOrder
pair = record { owner = 17; orders = plain ∷ resting ∷ []; grouping = na }

abbrev bad_pair : BatchOrder
bad_pair = record { owner = 17; orders = plain ∷ post_only ∷ []; grouping = na }

refused_trigger : check_trigger_limit post_only ≡ err non_gtc
unfolding check_trigger_limit
refused_trigger = refl

refused_trail :
    check_trigger_limit (record resting { trigger = some (with_trail (stop_market 7) 0) })
    ≡ err zero_trail
unfolding check_trigger_limit with_trail stop_market
refused_trail = refl

sent_plain : submit_order accept plain ≡ ok (submit (record plain { tif = ioc }))
unfolding submit_order check_trigger_limit market_tif_coerced
sent_plain = refl

submit_order-IsPlaceable_example :
    (sent : Order) × (accept (submit sent) (submit sent) ≡ ok (submit (record plain { tif = ioc })))
    × IsPlaceable plain sent
submit_order-IsPlaceable_example =
    submit_order-IsPlaceable accept plain (submit (record plain { tif = ioc })) sent_plain

sent_pair :
    batch_order accept pair
    ≡ ok (batch (record pair { orders = record plain { tif = ioc } ∷ resting ∷ [] }))
unfolding batch_order check_legs check_trigger_limit market_tifs_coerced market_tif_coerced
sent_pair = refl

batch_order-AllPlaceable_example :
    (sent : BatchOrder) × (accept (batch sent) (batch sent)
      ≡ ok (batch (record pair { orders = record plain { tif = ioc } ∷ resting ∷ [] })))
    × (sent.owner ≡ 17)
    × (sent.grouping ≡ na)
    × AllPlaceable (plain ∷ resting ∷ []) sent.orders
batch_order-AllPlaceable_example =
    batch_order-AllPlaceable accept pair
      (batch (record pair { orders = record plain { tif = ioc } ∷ resting ∷ [] })) sent_pair

refused_pair : batch_order accept bad_pair ≡ err (validation non_gtc)
unfolding batch_order check_legs check_trigger_limit
refused_pair = refl

sent_triggered : submit_order accept triggered ≡ ok (submit (record triggered { tif = ioc }))
unfolding submit_order check_trigger_limit market_tif_coerced
sent_triggered = refl

submit_order_unfireable_example :
    (sent : Order) × (accept (submit sent) (submit sent)
      ≡ ok (submit (record triggered { tif = ioc })))
    × (¬ IsFireable sent)
submit_order_unfireable_example =
    submit_order_unfireable accept triggered limit_trigger (submit (record triggered { tif = ioc }))
      refl refl refl sent_triggered
