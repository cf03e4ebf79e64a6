-- ===== src/Place/Tests.antt =====
-- Requests at which the theorems on placement apply.
use metaflux_client_rust.Base.{
  ℕ, List, [], ◌∷◌, String, false, Option, none, Result, ok, err, ◌≡◌, ◌↔◌, refl, map, ◌==◌,
  if◌then◌else◌,
}
use metaflux_client_rust.Json.{Value}
use metaflux_client_rust.Order.{Order, TradingAction, bid, limit, gtc, cancel_oldest, na}
use metaflux_client_rust.Place.{
  SpotOrder, OrderLeg, perp, spot, perp_request, spot_request, mixed_venues, owners_disagree,
  OrderStatus, resting, SpotPlacements, separate_spot_actions, ioc_limit, from_legs, sort_legs,
  request_of, find_other_owner, place_order, place_spot, send_spot, unsent, range_from,
}
use metaflux_client_rust.Place.Legs.{perps_of}
use metaflux_client_rust.Place.FromLegs.{Carries, from_legs_iff}
use metaflux_client_rust.Place.Routing.{IsAccounted, place_order-IsAccounted}

abbrev order : Order
order = record {
  owner = 17;
  market_id = 1;
  side = bid;
  kind = limit;
  size = 1000;
  limit_px = 5000000000000;
  tif = gtc;
  stp_mode = cancel_oldest;
  reduce_only = false;
  cloid = none;
  builder = none;
  position_side = none;
  trigger = none;
}

abbrev two_perps : List OrderLeg
two_perps = perp order ∷ perp (record order { market_id = 2 }) ∷ []

abbrev two_owners : List OrderLeg
two_owners = perp order ∷ perp (record order { owner = 18 }) ∷ []

from_legs_iff_example :
    (from_legs two_perps ≡ ok (perp_request 17 (perps_of two_perps) na))
    ↔ Carries (perp_request 17 (perps_of two_perps) na) two_perps
from_legs_iff_example = from_legs_iff two_perps (perp_request 17 (perps_of two_perps) na)

disagree : from_legs two_owners ≡ err (owners_disagree 17 1 18)
unfolding from_legs sort_legs request_of find_other_owner
disagree = refl

mixed : from_legs (perp order ∷ spot (ioc_limit 3 bid 1 2) ∷ []) ≡ err (mixed_venues 1 1)
unfolding from_legs sort_legs request_of
mixed = refl

-- A node that rests the first order and does not answer the second.
abbrev answer : ℕ → SpotOrder → Result String (List (OrderStatus ℕ))
answer i o = if i == 0 then ok (resting 7 none ∷ []) else err "timeout"

abbrev three_spots : List SpotOrder
three_spots = ioc_limit 3 bid 10 5 ∷ ioc_limit 4 bid 10 5 ∷ ioc_limit 5 bid 10 5 ∷ []

stops_at_the_failure :
    (map (λ a. a.index) (place_spot answer three_spots).sent ≡ 0 ∷ 1 ∷ [])
    × ((place_spot answer three_spots).not_sent ≡ 2 ∷ [])
unfolding place_spot send_spot unsent range_from
stops_at_the_failure = (refl, refl)

abbrev undecoded : Value → Option (OrderStatus ℕ)
undecoded v = none

abbrev unposted : TradingAction → TradingAction → Result String Value
unposted wire typed = err "not used"

place_order-IsAccounted_example :
    (p : SpotPlacements ℕ String) × (place_order undecoded unposted answer
        (spot_request three_spots)
      ≡ ok (separate_spot_actions p))
    × IsAccounted answer three_spots p
place_order-IsAccounted_example = place_order-IsAccounted undecoded unposted answer three_spots (cc)
