-- ===== src/Place.antt =====
-- Unified order placement: src/types/place.rs, `place_order` of src/rest/place.rs, and the statuses
-- of src/types/order.rs that it reports. Reading one status entry is the parameter `decode_status`
-- (serde), and what signs and posts a spot order is the parameter `post_spot`, which is given the
-- order's index, since the same action may be answered differently the next time.
pub mod Legs
pub mod FromLegs
pub mod Routing
mod Tests
use metaflux_client_rust.Base.{
  ℕ, zero, suc, ◌+◌, ◌-◌, String, List, [], ◌∷◌, ◌++◌, Bool, true, false, not, ◌||◌, Option, none,
  some, Result, ok, err, map, any, is_empty, length, ◌==◌, if◌then◌else◌, unwrap_or, and_then,
}
use metaflux_client_rust.Json.{Value, get, as_array}
use metaflux_client_rust.Order.{
  Address, Side, TimeInForce, ioc, StpMode, cancel_oldest, Order, OrderGrouping, na, BatchOrder,
  TradingAction, SubmitError, batch_order,
}

pub record SpotOrder : Type 0 where
  pub owner : Option Address
  pub pair : ℕ
  pub side : Side
  pub size : ℕ
  pub limit_px : ℕ
  pub tif : TimeInForce
  pub stp_mode : StpMode
  pub cloid : Option ℕ

unfoldable pub ioc_limit : ℕ → Side → ℕ → ℕ → SpotOrder
ioc_limit pair side size limit_px = record {
  owner = none;
  pair = pair;
  side = side;
  size = size;
  limit_px = limit_px;
  tif = ioc;
  stp_mode = cancel_oldest;
  cloid = none;
}

abbrev pub with_owner : SpotOrder → Address → SpotOrder
with_owner o owner = record o { owner = some owner }

pub data OrderLeg : Type 0 where
  perp : Order → OrderLeg
  spot : SpotOrder → OrderLeg

pub data PlaceRequest : Type 0 where
  perp_request : Address → List Order → OrderGrouping → PlaceRequest
  spot_request : List SpotOrder → PlaceRequest

-- `PlaceRequest::perp`, `spot_as` and `with_grouping`.
abbrev pub perp_orders : Address → List Order → PlaceRequest
perp_orders owner orders = perp_request owner orders na

pub spot_as : Address → List SpotOrder → PlaceRequest
spot_as owner orders = spot_request (map (λ o. with_owner o owner) orders)

pub with_grouping : PlaceRequest → OrderGrouping → PlaceRequest
with_grouping (perp_request owner orders grouping) g = perp_request owner orders g
with_grouping (spot_request orders) g = spot_request orders

-- The messages of `ClientError::Validation` in this module.
pub data PlaceError : Type 0 where
  no_orders : PlaceError
  mixed_venues : ℕ → ℕ → PlaceError
  owners_disagree : Address → ℕ → Address → PlaceError

-- The loop that sorts the legs by venue, from what it has pushed so far.
pub sort_legs : List OrderLeg → List Order → List SpotOrder → List Order × List SpotOrder
sort_legs [] perps spots = (perps, spots)
sort_legs (perp o ∷ legs) perps spots = sort_legs legs (perps ++ o ∷ []) spots
sort_legs (spot o ∷ legs) perps spots = sort_legs legs perps (spots ++ o ∷ [])

-- `iter().enumerate().find(|(_, o)| o.owner != owner)`, from the index `i`.
pub find_other_owner : Address → List Order → ℕ → Option (ℕ × Address)
find_other_owner owner [] i = none
find_other_owner owner (o ∷ os) i =
    if o.owner == owner then find_other_owner owner os (suc i) else some (i, o.owner)

-- The `match` on which of the two lists is empty.
pub request_of : List Order → List SpotOrder → Result PlaceError PlaceRequest
request_of [] [] = err no_orders
request_of [] (s ∷ ss) = ok (spot_request (s ∷ ss))
request_of (o ∷ os) (s ∷ ss) = err (mixed_venues (length (o ∷ os)) (length (s ∷ ss)))
request_of (o ∷ os) [] = elim (find_other_owner o.owner (o ∷ os) 0) [
  | none ↦ ok (perp_orders o.owner (o ∷ os))
  | some (i, bad) ↦ err (owners_disagree o.owner i bad)
]

pub from_legs : List OrderLeg → Result PlaceError PlaceRequest
from_legs legs = request_of (sort_legs legs [] []).0 (sort_legs legs [] []).1

pub len : PlaceRequest → ℕ
len (perp_request owner orders grouping) = length orders
len (spot_request orders) = length orders

-- The node's answer for one order. An error carries its code, in `Fault`.
pub data OrderStatus (Fault : Type 0) : Type 0 where
  resting : ℕ → Option ℕ → OrderStatus Fault
  filled : String → String → ℕ → OrderStatus Fault
  error : Fault → OrderStatus Fault
  noop : String → OrderStatus Fault
  parked : ℕ → Option ℕ → OrderStatus Fault
  chase : ℕ → ℕ → String → Option String → OrderStatus Fault
  pending : String → ℕ → OrderStatus Fault
  other_status : Value → OrderStatus Fault

pub data LegStatus (Fault : Type 0) : Type 0 where
  known : OrderStatus Fault → LegStatus Fault
  other : Value → LegStatus Fault

module _ {F : Type 0} where
  -- `OrderStatus::oid`.
  abbrev status_oid : OrderStatus F → Option ℕ
  status_oid (resting oid cloid) = some oid
  status_oid (parked oid cloid) = some oid
  status_oid (filled total_sz avg_px oid) = some oid
  status_oid (chase chase_oid leg_oid leg_px cloid) = some chase_oid
  status_oid (error e) = none
  status_oid (noop reason) = none
  status_oid (pending action_hash nonce) = none
  status_oid (other_status v) = none

  abbrev is_error_status : OrderStatus F → Bool
  is_error_status (error e) = true
  is_error_status _ = false

  -- `LegStatus::oid` and `LegStatus::is_error`.
  abbrev pub leg_oid : LegStatus F → Option ℕ
  leg_oid (known s) = status_oid s
  leg_oid (other v) = none

  abbrev pub is_error : LegStatus F → Bool
  is_error (known s) = is_error_status s
  is_error (other v) = false

-- One sent `spot_order` action.
pub record SpotActionOutcome (F E : Type 0) : Type 0 where
  pub index : ℕ
  pub pair : ℕ
  pub result : Result E (List (LegStatus F))

pub record SpotPlacements (F E : Type 0) : Type 0 where
  pub sent : List (SpotActionOutcome F E)
  pub not_sent : List ℕ

pub record BatchPlacement (F : Type 0) : Type 0 where
  pub statuses : List (LegStatus F)
  pub response : Value

pub data Placement (F E : Type 0) : Type 0 where
  batch_action : BatchPlacement F → Placement F E
  separate_spot_actions : SpotPlacements F E → Placement F E

-- The indexes from `i`, `n` of them.
pub range_from : ℕ → ℕ → List ℕ
range_from i zero = []
range_from i (suc n) = i ∷ range_from (suc i) n

-- Why a call fails: no order, or what the batch route answers.
pub data PlaceFailure (E : Type 0) : Type 0 where
  refused : PlaceError → PlaceFailure E
  not_batched : SubmitError E → PlaceFailure E

module _ {F : Type 0} (decode_status : Value → Option (OrderStatus F)) where
  -- `LegStatus::from_value` and `BatchPlacement::from_response`.
  pub leg_status : Value → LegStatus F
  leg_status v = elim (decode_status v) [ some s ↦ known s | none ↦ other v ]

  pub from_response : Value → BatchPlacement F
  from_response response =
      let entries = and_then (get "statuses" response) as_array in
      record {
        statuses = unwrap_or (and_then entries λ vs. some (map leg_status vs)) [];
        response = response;
      }

-- `failed_at.map(|i| ((i + 1)..orders.len()).collect()).unwrap_or_default()`.
pub unsent : Option ℕ → ℕ → List ℕ
unsent none n = []
unsent (some i) n = range_from (suc i) (n - suc i)

module _ {F E : Type 0} (post_spot : ℕ → SpotOrder → Result E (List (OrderStatus F))) where
  -- The loop over the spot orders, from the index `i`: what was sent, and the index that failed.
  pub send_spot : ℕ → List SpotOrder → List (SpotActionOutcome F E) × Option ℕ
  send_spot i [] = ([], none)
  send_spot i (o ∷ os) = elim (post_spot i o) [
    | ok statuses ↦
        let rest = send_spot (suc i) os in
        (record { index = i; pair = o.pair; result = ok (map known statuses) } ∷ rest.0, rest.1)
    | err e ↦ (record { index = i; pair = o.pair; result = err e } ∷ [], some i)
  ]

  -- The spot arm of `place_order`.
  pub place_spot : List SpotOrder → SpotPlacements F E
  place_spot orders = record {
    sent = (send_spot 0 orders).0;
    not_sent = unsent (send_spot 0 orders).1 (length orders);
  }

module _ {F E : Type 0} (decode_status : Value → Option (OrderStatus F))
    (post : TradingAction → TradingAction → Result E Value)
    (post_spot : ℕ → SpotOrder → Result E (List (OrderStatus F))) where
  -- The `match` on the venue.
  pub route : PlaceRequest → Result (PlaceFailure E) (Placement F E)
  route (perp_request owner orders grouping) =
      elim (batch_order post (record { owner = owner; orders = orders; grouping = grouping })) [
        | ok response ↦ ok (batch_action (from_response decode_status response))
        | err e ↦ err (not_batched e)
      ]
  route (spot_request orders) = ok (separate_spot_actions (place_spot post_spot orders))

  pub place_order : PlaceRequest → Result (PlaceFailure E) (Placement F E)
  place_order req = if len req == 0 then err (refused no_orders) else route req

module _ {F E : Type 0} where
  abbrev pub outcome_failed : SpotActionOutcome F E → Bool
  outcome_failed a = elim a.result [ ok st ↦ any is_error st | err e ↦ true ]

  -- `Placement::action_count` and `Placement::has_failure`.
  pub action_count : Placement F E → ℕ
  action_count (batch_action b) = 1
  action_count (separate_spot_actions p) = length p.sent

  pub has_failure : Placement F E → Bool
  has_failure (batch_action b) = any is_error b.statuses
  has_failure (separate_spot_actions p) = not (is_empty p.not_sent) || any outcome_failed p.sent
