-- ===== src/Trading/Conforms.antt =====
-- The type strings of the trading actions against the fields encoded under them
-- (src/wallet/typed_orders.rs, `type_string_for` and `encode_data`).
use metaflux_client_rust.Base.{
  ℕ, String, List, [], ◌∷◌, ◌++◌, Bool, true, false, Option, none, some, Result, ok, err, ◌>>=◌,
  map, any, ◌≡◌, refl, if◌then◌else◌,
}
use metaflux_client_rust.Decimal.{Text}
use metaflux_client_rust.Order.{Address, PositionSide, Order}
use metaflux_client_rust.Signing.{Bytes, as_bytes, Field, kind}
use metaflux_client_rust.Signing.Members.{member_types, kind_name}
use metaflux_client_rust.Signing.Seal.{IsNonceLast}
use metaflux_client_rust.Requests.{is_some}
use metaflux_client_rust.Trading.{
  TypedTradingAction, submit_order, cancel_order, spot_order, spot_cancel, cancel_by_cloid, modify,
  batch_modify, schedule_cancel, twap_order, twap_cancel, batch_order, batch_cancel, scale_order,
  cancel_scale, chase_order, cancel_chase, TradeError, CancelOrder, TwapOrder, trail_of, trails,
  all_cancel_words,
}
use metaflux_client_rust.Order.{BatchOrder}
use metaflux_client_rust.Signing.{field, address, bytes32, utf8_string}
use metaflux_client_rust.Trading.{
  order_words, trail_data, hash_items, address_bytes, grouping_str, flat_data,
}
use metaflux_client_rust.Trading.Digest.{framed, owner_data, trail_tail}
use metaflux_client_rust.Trading.Strings.{
  ty_submit_order_trail, ty_submit_order, ty_submit_order_trail_with_owner,
  ty_submit_order_with_owner, ty_batch_order_trail, ty_batch_order, ty_twap_order, ty_twap_order_v2,
  ty_twap_order_v3, ty_twap_order_with_owner, ty_twap_order_v2_with_owner,
  ty_twap_order_v3_with_owner,
}
use metaflux_client_rust.Trading.Digest.{type_string_for, encode_data}

abbrev pub declared : List Field → List Text
declared fields = map (λ f. kind_name (kind f)) fields

-- An encoding fails, or the member types of the type string are those of its fields.
abbrev pub IsDeclared : String → Result TradeError (List Field) → Type 0
IsDeclared s (err e) = Unit
IsDeclared s (ok fields) = member_types s ≡ declared fields

module _ (keccak : Bytes → Bytes) (hex_encode : Bytes → String) (tag : String) (nonce : ℕ) where
  -- the encoding of an action with and without an owner, in one statement
  abbrev Conforms : TypedTradingAction → Option Address → Type 0
  Conforms a owner =
      IsDeclared (type_string_for owner a) (encode_data keccak hex_encode a tag nonce owner)

  submit_by :
      (o : Order) (t : Option ℕ)
      → (member_types (if is_some t then ty_submit_order_trail else ty_submit_order)
          ≡ declared
              (framed keccak hex_encode tag nonce [] (order_words hex_encode o ++ trail_data t)))
  submit_by o none = refl
  submit_by o (some t) = refl

  owned_submit_by :
      (o : Order) (w : Address) (t : Option ℕ)
      → (member_types
            (if is_some t then ty_submit_order_trail_with_owner else ty_submit_order_with_owner)
          ≡ declared (
              framed keccak hex_encode tag nonce
                (owner_data (some w) true)
                (order_words hex_encode o ++ trail_data t)))
  owned_submit_by o w none = refl
  owned_submit_by o w (some t) = refl

  cancel_by :
      (owner : Option Address) (i : ℕ) (a : Address) (oid cloid : Option ℕ)
      → Conforms
          (cancel_order (record { owner = a; market_id = i; oid = oid; cloid = cloid }))
          owner
  unfolding encode_data
  cancel_by none i a none cloid = tt
  cancel_by none i a (some oid) cloid = refl
  cancel_by (some o) i a none cloid = tt
  cancel_by (some o) i a (some oid) cloid = refl

  batch_cancel_by :
      (owner : Option Address) (l : List CancelOrder) (r : Result TradeError (List Field))
      → IsDeclared (type_string_for owner (batch_cancel l)) (
          (r >>= λ items. ok (field bytes32 (hash_items keccak items) ∷ [])) >>= λ body.
          ok (framed keccak hex_encode tag nonce (owner_data owner true) body))
  batch_cancel_by none l (err e) = tt
  batch_cancel_by none l (ok items) = refl
  batch_cancel_by (some o) l (err e) = tt
  batch_cancel_by (some o) l (ok items) = refl

  batch_by :
      (p : BatchOrder) (b : Bool)
      → (member_types (if b then ty_batch_order_trail else ty_batch_order)
          ≡ declared (
              framed keccak hex_encode tag nonce [] (
                field address (address_bytes p.owner)
                ∷ field bytes32 (hash_items keccak (flat_data (order_words hex_encode) p.orders))
                ∷ field utf8_string (grouping_str p.grouping)
                ∷ trail_tail keccak hex_encode b p.orders)))
  batch_by p true = refl
  batch_by p false = refl

  twap_by :
      (owner : Option Address) (p : TwapOrder) (b : Bool) (ps : Option PositionSide)
      → Conforms (twap_order (record p { randomize = b; position_side = ps })) owner
  unfolding encode_data
  twap_by none p true ps = refl
  twap_by none p false none = refl
  twap_by none p false (some ps) = refl
  twap_by (some o) p true ps = refl
  twap_by (some o) p false none = refl
  twap_by (some o) p false (some ps) = refl

  conforms : (a : TypedTradingAction) (owner : Option Address) → Conforms a owner
  unfolding encode_data
  conforms (submit_order o) none = submit_by o (trail_of o)
  conforms (submit_order o) (some w) = owned_submit_by o w (trail_of o)
  conforms (cancel_order c) owner = cancel_by owner c.market_id c.owner c.oid c.cloid
  conforms (spot_order o) none = refl
  conforms (spot_order o) (some w) = refl
  conforms (spot_cancel c) none = refl
  conforms (spot_cancel c) (some w) = refl
  conforms (cancel_by_cloid p) none = refl
  conforms (cancel_by_cloid p) (some w) = refl
  conforms (modify m) none = refl
  conforms (modify m) (some w) = refl
  conforms (batch_modify l) none = refl
  conforms (batch_modify l) (some w) = refl
  conforms (schedule_cancel p) none = refl
  conforms (schedule_cancel p) (some w) = refl
  conforms (twap_order p) owner = twap_by owner p p.randomize p.position_side
  conforms (twap_cancel i) none = refl
  conforms (twap_cancel i) (some w) = refl
  conforms (batch_order p) none = batch_by p (any trails p.orders)
  conforms (batch_order p) (some w) = batch_by p (any trails p.orders)
  conforms (batch_cancel l) owner = batch_cancel_by owner l (all_cancel_words l)
  conforms (scale_order p) none = refl
  conforms (scale_order p) (some w) = refl
  conforms (cancel_scale p) none = refl
  conforms (cancel_scale p) (some w) = refl
  conforms (chase_order p) none = refl
  conforms (chase_order p) (some w) = refl
  conforms (cancel_chase p) none = refl
  conforms (cancel_chase p) (some w) = refl

-- Of every trading action, with an owner bound and without, the member types that its type string
-- declares are, one for one and in their order, the types of the fields that are encoded, where the
-- action has an encoding.
pub type_string_for-encode_data :
    (keccak : Bytes → Bytes) (hex_encode : Bytes → String) (a : TypedTradingAction) (tag : String)
    (nonce : ℕ) (owner : Option Address)
    → IsDeclared (type_string_for owner a) (encode_data keccak hex_encode a tag nonce owner)
type_string_for-encode_data keccak hex_encode a tag nonce owner =
    conforms keccak hex_encode tag nonce a owner

-- a choice of two type strings that end in the nonce does
chosen-IsNonceLast :
    (b : Bool) (s t : String)
    → IsNonceLast (as_bytes s)
    → IsNonceLast (as_bytes t)
    → IsNonceLast (as_bytes (if b then s else t))
chosen-IsNonceLast true s t h k = h
chosen-IsNonceLast false s t h k = k

pub type_string_for-IsNonceLast :
    (owner : Option Address) (a : TypedTradingAction)
    → IsNonceLast (as_bytes (type_string_for owner a))
type_string_for-IsNonceLast none (submit_order o) =
    chosen-IsNonceLast (trails o) ty_submit_order_trail ty_submit_order refl refl
type_string_for-IsNonceLast none (cancel_order c) = refl
type_string_for-IsNonceLast none (spot_order o) = refl
type_string_for-IsNonceLast none (spot_cancel c) = refl
type_string_for-IsNonceLast none (cancel_by_cloid p) = refl
type_string_for-IsNonceLast none (modify m) = refl
type_string_for-IsNonceLast none (batch_modify l) = refl
type_string_for-IsNonceLast none (schedule_cancel p) = refl
type_string_for-IsNonceLast none (twap_order p) =
    chosen-IsNonceLast p.randomize ty_twap_order_v3 _ refl
      (chosen-IsNonceLast (is_some p.position_side) ty_twap_order_v2 ty_twap_order refl refl)
type_string_for-IsNonceLast none (twap_cancel i) = refl
type_string_for-IsNonceLast none (batch_order p) =
    chosen-IsNonceLast (any trails p.orders) ty_batch_order_trail ty_batch_order refl refl
type_string_for-IsNonceLast none (batch_cancel l) = refl
type_string_for-IsNonceLast none (scale_order p) = refl
type_string_for-IsNonceLast none (cancel_scale p) = refl
type_string_for-IsNonceLast none (chase_order p) = refl
type_string_for-IsNonceLast none (cancel_chase p) = refl
type_string_for-IsNonceLast (some w) (submit_order o) =
    chosen-IsNonceLast (trails o) ty_submit_order_trail_with_owner ty_submit_order_with_owner refl
      refl
type_string_for-IsNonceLast (some w) (cancel_order c) = refl
type_string_for-IsNonceLast (some w) (spot_order o) = refl
type_string_for-IsNonceLast (some w) (spot_cancel c) = refl
type_string_for-IsNonceLast (some w) (cancel_by_cloid p) = refl
type_string_for-IsNonceLast (some w) (modify m) = refl
type_string_for-IsNonceLast (some w) (batch_modify l) = refl
type_string_for-IsNonceLast (some w) (schedule_cancel p) = refl
type_string_for-IsNonceLast (some w) (twap_order p) =
    chosen-IsNonceLast p.randomize ty_twap_order_v3_with_owner _ refl (
      chosen-IsNonceLast (is_some p.position_side) ty_twap_order_v2_with_owner
        ty_twap_order_with_owner refl refl)
type_string_for-IsNonceLast (some w) (twap_cancel i) = refl
type_string_for-IsNonceLast (some w) (batch_order p) =
    chosen-IsNonceLast (any trails p.orders) ty_batch_order_trail ty_batch_order refl refl
type_string_for-IsNonceLast (some w) (batch_cancel l) = refl
type_string_for-IsNonceLast (some w) (scale_order p) = refl
type_string_for-IsNonceLast (some w) (cancel_scale p) = refl
type_string_for-IsNonceLast (some w) (chase_order p) = refl
type_string_for-IsNonceLast (some w) (cancel_chase p) = refl
