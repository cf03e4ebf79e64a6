-- ===== src/Trading/Digest.antt =====
-- The type string, the fields, the owner and the digest of a trading action
-- (src/wallet/typed_orders.rs, `TypedTradingAction` and `TypedTradingDigest`).
use metaflux_client_rust.Base.{
  ℕ, String, List, [], ◌∷◌, ◌++◌, Bool, true, false, not, ◌&&◌, Option, none, some, Result, ok, err,
  ◌>>=◌, map, any, ◌==◌, if◌then◌else◌,
}
use metaflux_client_rust.Order.{Address}
use metaflux_client_rust.Signing.{
  Bytes, as_bytes, concat, Field, field, uint64, uint32, boolean, address, utf8_string, bytes32,
  word,
}
use metaflux_client_rust.Signing.Digest.{
  folded, expiry_word, metaflux_domain_separator, to_digest, metaflux_chain_tag,
}
use metaflux_client_rust.Requests.{is_some}
use metaflux_client_rust.Order.{PositionSide, Order}
use metaflux_client_rust.Trading.{
  TypedTradingAction, submit_order, cancel_order, spot_order, spot_cancel, cancel_by_cloid, modify,
  batch_modify, schedule_cancel, twap_order, twap_cancel, batch_order, batch_cancel, scale_order,
  cancel_scale, chase_order, cancel_chase, side_str, tif_str, stp_str, position_side_str,
  grouping_str, dist_str, or_empty, address_bytes, trail_of, trail_data, modify_words, TradeError,
  owner_mismatch, owner_not_in_payload, cancel_words, all_cancel_words, flat_data, trails,
  hash_items, hash_trail_pxs, scale_weights_hash, cloid_text, cloid_str, order_words,
}
use metaflux_client_rust.Trading.Strings.{
  ty_submit_order, ty_cancel_order, ty_spot_order, ty_spot_cancel, ty_cancel_by_cloid, ty_modify,
  ty_batch_modify, ty_schedule_cancel, ty_twap_order, ty_twap_order_v2, ty_twap_order_v3,
  ty_twap_cancel, ty_batch_order, ty_batch_cancel, ty_submit_order_trail, ty_batch_order_trail,
  ty_spot_order_with_owner, ty_spot_cancel_with_owner, ty_cancel_by_cloid_with_owner,
  ty_modify_with_owner, ty_batch_modify_with_owner, ty_twap_cancel_with_owner,
  ty_batch_cancel_with_owner, ty_submit_order_with_owner, ty_submit_order_trail_with_owner,
  ty_cancel_order_with_owner, ty_schedule_cancel_with_owner, ty_twap_order_with_owner,
  ty_twap_order_v2_with_owner, ty_twap_order_v3_with_owner, ty_scale_order,
  ty_scale_order_with_owner, ty_cancel_scale, ty_cancel_scale_with_owner, ty_chase_order,
  ty_chase_order_with_owner, ty_cancel_chase, ty_cancel_chase_with_owner,
}

abbrev pub type_string : TypedTradingAction → String
type_string (submit_order o) = if trails o then ty_submit_order_trail else ty_submit_order
type_string (cancel_order c) = ty_cancel_order
type_string (spot_order o) = ty_spot_order
type_string (spot_cancel c) = ty_spot_cancel
type_string (cancel_by_cloid p) = ty_cancel_by_cloid
type_string (modify m) = ty_modify
type_string (batch_modify l) = ty_batch_modify
type_string (schedule_cancel p) = ty_schedule_cancel
type_string (twap_order p) =
    if p.randomize
    then ty_twap_order_v3
    else if is_some p.position_side
    then ty_twap_order_v2
    else ty_twap_order
type_string (twap_cancel i) = ty_twap_cancel
type_string (batch_order p) = if any trails p.orders then ty_batch_order_trail else ty_batch_order
type_string (batch_cancel l) = ty_batch_cancel
type_string (scale_order p) = ty_scale_order
type_string (cancel_scale p) = ty_cancel_scale
type_string (chase_order p) = ty_chase_order
type_string (cancel_chase p) = ty_cancel_chase

-- `type_string_for` with an owner.
abbrev pub owned_type_string : TypedTradingAction → String
owned_type_string (submit_order o) =
    if trails o then ty_submit_order_trail_with_owner else ty_submit_order_with_owner
owned_type_string (cancel_order c) = ty_cancel_order_with_owner
owned_type_string (spot_order o) = ty_spot_order_with_owner
owned_type_string (spot_cancel c) = ty_spot_cancel_with_owner
owned_type_string (cancel_by_cloid p) = ty_cancel_by_cloid_with_owner
owned_type_string (modify m) = ty_modify_with_owner
owned_type_string (batch_modify l) = ty_batch_modify_with_owner
owned_type_string (schedule_cancel p) = ty_schedule_cancel_with_owner
owned_type_string (twap_order p) =
    if p.randomize
    then ty_twap_order_v3_with_owner
    else if is_some p.position_side
    then ty_twap_order_v2_with_owner
    else ty_twap_order_with_owner
owned_type_string (twap_cancel i) = ty_twap_cancel_with_owner
owned_type_string (batch_order p) = type_string (batch_order p)
owned_type_string (batch_cancel l) = ty_batch_cancel_with_owner
owned_type_string (scale_order p) = ty_scale_order_with_owner
owned_type_string (cancel_scale p) = ty_cancel_scale_with_owner
owned_type_string (chase_order p) = ty_chase_order_with_owner
owned_type_string (cancel_chase p) = ty_cancel_chase_with_owner

abbrev pub type_string_for : Option Address → TypedTradingAction → String
type_string_for none a = type_string a
type_string_for (some o) a = owned_type_string a

-- The owner slot of the payload: ten actions have one.
abbrev pub payload_owner_slot : TypedTradingAction → Option (Option Address)
payload_owner_slot (submit_order o) = some (some o.owner)
payload_owner_slot (cancel_order c) = some (some c.owner)
payload_owner_slot (schedule_cancel p) = some p.owner
payload_owner_slot (twap_order p) = some p.owner
payload_owner_slot (spot_order o) = some o.owner
payload_owner_slot (spot_cancel c) = some c.owner
payload_owner_slot (scale_order p) = some p.owner
payload_owner_slot (cancel_scale p) = some p.owner
payload_owner_slot (chase_order p) = some p.owner
payload_owner_slot (cancel_chase p) = some p.owner
payload_owner_slot _ = none

abbrev pub supports_owner : TypedTradingAction → Bool
supports_owner (batch_order p) = false
supports_owner _ = true

-- The owner word, behind the chain tag.
abbrev pub owner_data : Option Address → Bool → List Field
owner_data (some o) true = field address (address_bytes o) ∷ []
owner_data (some o) false = []
owner_data none b = []

-- A randomized schedule signs the leg and the flag, another one the leg it has.
abbrev pub twap_tail : Bool → Option PositionSide → List Field
twap_tail true ps = field utf8_string (or_empty position_side_str ps) ∷ field boolean true ∷ []
twap_tail false none = []
twap_tail false (some ps) = field utf8_string (position_side_str ps) ∷ []

module _ (keccak : Bytes → Bytes) (hex_encode : Bytes → String) where
  abbrev pub trail_tail : Bool → List Order → List Field
  trail_tail true orders = field bytes32 (hash_trail_pxs keccak orders) ∷ []
  trail_tail false orders = []

  -- The fields of the action itself.
  abbrev pub action_data : TypedTradingAction → Result TradeError (List Field)
  action_data (submit_order o) = ok (order_words hex_encode o ++ trail_data (trail_of o))
  action_data (cancel_order c) = cancel_words c
  action_data (spot_order o) = ok (
      field uint32 o.pair
      ∷ field utf8_string (side_str o.side)
      ∷ field uint64 o.size
      ∷ field uint64 o.limit_px
      ∷ field utf8_string (tif_str o.tif)
      ∷ field utf8_string (stp_str o.stp_mode)
      ∷ field utf8_string (cloid_str hex_encode o.cloid)
      ∷ [])
  action_data (spot_cancel c) = ok (field uint32 c.pair ∷ field uint64 c.oid ∷ [])
  action_data (cancel_by_cloid p) =
      ok (field uint32 p.asset ∷ field utf8_string (cloid_text hex_encode p.cloid) ∷ [])
  action_data (modify m) = ok (modify_words m)
  action_data (batch_modify l) =
      ok (field bytes32 (hash_items keccak (flat_data modify_words l)) ∷ [])
  action_data (schedule_cancel p) = ok (field uint64 p.cancel_at_block ∷ [])
  action_data (twap_order p) = ok (
      field uint32 p.market_id
      ∷ field utf8_string (side_str p.side)
      ∷ field uint64 p.total_size
      ∷ field uint32 p.slice_count
      ∷ field uint64 p.delay_ms
      ∷ field boolean p.reduce_only
      ∷ twap_tail p.randomize p.position_side)
  action_data (twap_cancel i) = ok (field uint64 i ∷ [])
  action_data (batch_order p) = ok (
      field address (address_bytes p.owner)
      ∷ field bytes32 (hash_items keccak (flat_data (order_words hex_encode) p.orders))
      ∷ field utf8_string (grouping_str p.grouping)
      ∷ trail_tail (any trails p.orders) p.orders)
  action_data (batch_cancel l) =
      all_cancel_words l >>= λ items. ok (field bytes32 (hash_items keccak items) ∷ [])
  action_data (scale_order p) = ok (
      field uint32 p.market_id
      ∷ field utf8_string (side_str p.side)
      ∷ field uint32 p.n
      ∷ field uint64 p.px_low
      ∷ field uint64 p.px_high
      ∷ field uint64 p.total_size
      ∷ field utf8_string (dist_str p.dist)
      ∷ field bytes32 (scale_weights_hash keccak p.dist p.weights)
      ∷ field utf8_string (tif_str p.tif)
      ∷ field boolean p.reduce_only
      ∷ field utf8_string (stp_str p.stp_mode)
      ∷ field utf8_string (or_empty position_side_str p.position_side)
      ∷ field utf8_string (cloid_text hex_encode p.cloid)
      ∷ [])
  action_data (cancel_scale p) =
      ok (field uint32 p.market_id ∷ field utf8_string (cloid_text hex_encode p.cloid) ∷ [])
  action_data (chase_order p) = ok (
      field uint32 p.market_id
      ∷ field utf8_string (side_str p.side)
      ∷ field uint64 p.size
      ∷ field utf8_string (cloid_str hex_encode p.cloid)
      ∷ field utf8_string (stp_str p.stp_mode)
      ∷ field utf8_string (or_empty position_side_str p.position_side)
      ∷ field uint32 p.interval_blocks
      ∷ field uint64 p.ttl_ms
      ∷ field uint32 p.max_reprices
      ∷ [])
  action_data (cancel_chase p) = ok (field uint32 p.market_id ∷ field uint64 p.chase_oid ∷ [])

  abbrev pub framed : String → ℕ → List Field → List Field → List Field
  framed chain_tag nonce owner body =
      field utf8_string chain_tag ∷ owner ++ body ++ field uint64 nonce ∷ []

  unfoldable pub encode_data :
      TypedTradingAction → String → ℕ → Option Address → Result TradeError (List Field)
  encode_data a chain_tag nonce owner = action_data a >>= λ body.
      ok (framed chain_tag nonce (owner_data owner (supports_owner a)) body)

  unfoldable pub hash_struct :
      TypedTradingAction → String → ℕ → Option Address → ℕ → Result TradeError Bytes
  hash_struct a chain_tag nonce owner expires_after =
      encode_data a chain_tag nonce owner >>= λ fields. ok (
        keccak (
          concat (
            keccak (folded (as_bytes (type_string_for owner a)) expires_after)
              ∷ map (word keccak) fields
            ++ expiry_word expires_after)))

pub record TypedTradingDigest : Type 0 where
  pub action : TypedTradingAction
  pub owner : Option Address
  pub chain_id : ℕ
  pub nonce : ℕ
  pub expires_after : ℕ
  pub self_signed : Bool

abbrev pub new : TypedTradingAction → ℕ → ℕ → TypedTradingDigest
new action chain_id nonce = record {
  action = action;
  owner = none;
  chain_id = chain_id;
  nonce = nonce;
  expires_after = 0;
  self_signed = false;
}

abbrev pub new_with_owner : TypedTradingAction → Address → ℕ → ℕ → TypedTradingDigest
new_with_owner action owner chain_id nonce = record (new action chain_id nonce) {
  owner = some owner;
}

abbrev pub self_sign : TypedTradingDigest → TypedTradingDigest
self_sign d = record d { self_signed = true }

abbrev pub with_expires_after : TypedTradingDigest → ℕ → TypedTradingDigest
with_expires_after d expires_after = record d { expires_after = expires_after }

-- `submit_order` and `cancel_order`, the actions that the flag is for.
abbrev pub is_order_or_cancel : TypedTradingAction → Bool
is_order_or_cancel (submit_order o) = true
is_order_or_cancel (cancel_order c) = true
is_order_or_cancel _ = false

-- The `match` on the owner slot of the payload and the bound owner.
abbrev pub owner_of : Option (Option Address) → Option Address → Result TradeError (Option Address)
owner_of (some (some payload)) (some bound) =
    if not (payload == bound) then err (owner_mismatch payload bound) else ok (some payload)
owner_of (some none) (some bound) = err (owner_not_in_payload bound)
owner_of (some slot) none = ok slot
owner_of none bound = ok bound

unfoldable pub effective_owner : TypedTradingDigest → Result TradeError (Option Address)
effective_owner d =
    if d.self_signed && is_order_or_cancel d.action
    then ok none
    else owner_of (payload_owner_slot d.action) d.owner

module _ (keccak : Bytes → Bytes) (hex_encode : Bytes → String) where
  unfoldable pub digest : TypedTradingDigest → Result TradeError Bytes
  digest d = effective_owner d >>= λ owner.
      hash_struct keccak hex_encode d.action (metaflux_chain_tag d.chain_id) d.nonce owner
        d.expires_after
      >>= λ strukt. ok (to_digest keccak (metaflux_domain_separator keccak d.chain_id) strukt)
