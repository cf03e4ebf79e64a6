-- ===== src/Trading/Tests.antt =====
-- Runs of the signing of trading actions (src/wallet/typed_orders.rs).
use metaflux_client_rust.Base.{
  String, [], ◌∷◌, true, false, none, some, ok, ◌≡◌, refl, ◌⊎◌, ◌↔◌, ◌&&◌, map, arith,
}
use metaflux_client_rust.Order.{
  Order, BatchOrder, bid, ask, limit, take_profit, gtc, cancel_newest, na, normal_tpsl, tp, long,
}
use metaflux_client_rust.Signing.{Bytes, zeros, Collision}
use metaflux_client_rust.Signing.Digest.{to_digest}
use metaflux_client_rust.Trading.{
  TwapOrder, twap_order, batch_order, submit_order, spot_cancel, order_words, trail_words,
}
use metaflux_client_rust.Trading.Digest.{
  TypedTradingDigest, new, new_with_owner, type_string_for, encode_data, hash_struct,
  payload_owner_slot, is_order_or_cancel, effective_owner, digest,
}
use metaflux_client_rust.Trading.Conforms.{IsDeclared, type_string_for-encode_data}
use metaflux_client_rust.Trading.Binding.{AreFitting, content, trading_digest_binds}
use metaflux_client_rust.Trading.Legs.{batch_digest, IsFittingBatch, batch_digest_binds}
use metaflux_client_rust.Trading.Owner.{IsAcceptable, IsEncodable, digest_given_iff}

abbrev fixed_hash : Bytes → Bytes
fixed_hash x = zeros 32

abbrev hexed : Bytes → String
hexed b = "ab"

abbrev entry : Order
entry = record {
  owner = 7;
  market_id = 1;
  side = bid;
  kind = limit;
  size = 500;
  limit_px = 6673500000000;
  tif = gtc;
  stp_mode = cancel_newest;
  reduce_only = false;
  cloid = some 12;
  builder = none;
  position_side = none;
  trigger = none;
}

abbrev exit_leg : Order
exit_leg = record entry {
  side = ask;
  kind = take_profit;
  reduce_only = true;
  trigger =
      some (record { trigger_px = 6700000000000; is_market = true; tpsl = tp; trail_px = some 0 });
}

abbrev one_leg : BatchOrder
one_leg = record { owner = 7; orders = entry ∷ []; grouping = na }

abbrev two_legs : BatchOrder
two_legs = record { owner = 7; orders = entry ∷ exit_leg ∷ []; grouping = normal_tpsl }

abbrev schedule : TwapOrder
schedule = record {
  market_id = 1;
  side = ask;
  total_size = 100;
  slice_count = 10;
  delay_ms = 30000;
  reduce_only = false;
  position_side = some long;
  randomize = false;
  owner = some 9;
}

type_string_for-encode_data_example :
    IsDeclared
      (type_string_for (some 9) (twap_order schedule))
      (encode_data fixed_hash hexed (twap_order schedule) "Testnet" 1 (some 9))
type_string_for-encode_data_example =
    type_string_for-encode_data fixed_hash hexed (twap_order schedule) "Testnet" 1 (some 9)

abbrev order_digest : TypedTradingDigest
order_digest = new (submit_order entry) 114514 1

abbrev schedule_digest : TypedTradingDigest
schedule_digest = new (twap_order schedule) 114514 2

fits_order : AreFitting (content fixed_hash hexed order_digest)
unfolding effective_owner encode_data
fits_order = omega arith

fits_schedule : AreFitting (content fixed_hash hexed schedule_digest)
unfolding effective_owner encode_data
fits_schedule = omega arith

order_hash : digest fixed_hash hexed order_digest ≡ ok (zeros 32)
unfolding digest effective_owner hash_struct encode_data to_digest
order_hash = refl

schedule_hash : digest fixed_hash hexed schedule_digest ≡ ok (zeros 32)
unfolding digest effective_owner hash_struct encode_data to_digest
schedule_hash = refl

trading_digest_binds_example :
    (content fixed_hash hexed order_digest ≡ content fixed_hash hexed schedule_digest)
    ⊎ Collision fixed_hash
trading_digest_binds_example =
    trading_digest_binds fixed_hash hexed order_digest schedule_digest (zeros 32) (λ x. refl)
      fits_order fits_schedule order_hash schedule_hash

fits_one : IsFittingBatch fixed_hash hexed one_leg 114514 1 0
unfolding effective_owner encode_data
fits_one = omega arith

fits_two : IsFittingBatch fixed_hash hexed two_legs 114514 1 0
unfolding effective_owner encode_data
fits_two = omega arith

one_hash : digest fixed_hash hexed (batch_digest one_leg 114514 1 0) ≡ ok (zeros 32)
unfolding digest effective_owner hash_struct encode_data to_digest
one_hash = refl

two_hash : digest fixed_hash hexed (batch_digest two_legs 114514 1 0) ≡ ok (zeros 32)
unfolding digest effective_owner hash_struct encode_data to_digest
two_hash = refl

batch_digest_binds_example :
    ((map (order_words hexed) one_leg.orders ≡ map (order_words hexed) two_legs.orders)
      × (map trail_words one_leg.orders ≡ map trail_words two_legs.orders))
    ⊎ Collision fixed_hash
batch_digest_binds_example =
    batch_digest_binds fixed_hash hexed one_leg two_legs 114514 1 0 114514 1 0 (zeros 32)
      (λ x. refl) fits_one fits_two one_hash two_hash

abbrev agent_cancel : TypedTradingDigest
agent_cancel =
    new_with_owner (spot_cancel (record { owner = some 9; pair = 3; oid = 44 })) 9 114514 5

-- A batch of orders, given an owner that it does not sign.
abbrev agent_batch : TypedTradingDigest
agent_batch = new_with_owner (batch_order two_legs) 9 114514 5

digest_given_iff_example : ((h : Bytes) × (digest fixed_hash hexed agent_cancel ≡ ok h)) ↔ (
    (((agent_cancel.self_signed && is_order_or_cancel agent_cancel.action) ≡ true)
      ⊎ IsAcceptable (payload_owner_slot agent_cancel.action) agent_cancel.owner)
    × IsEncodable agent_cancel.action)
digest_given_iff_example = digest_given_iff fixed_hash hexed agent_cancel
