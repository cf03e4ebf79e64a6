-- ===== src/Place/FromLegs.antt =====
-- What `PlaceRequest::from_legs` (src/types/place.rs) accepts and refuses.
use mathlib.Core.Path.{subst}
use metaflux_client_rust.Base.{
  ◌<◌, List, [], ◌∷◌, ok, err, ◌≡◌, ◌≢◌, ◌↔◌, refl, sym, ◌∙◌, inl, inr, arith, All, map, length,
  Option-cases,
}
use metaflux_client_rust.Order.{Order, na}
use metaflux_client_rust.Place.{
  SpotOrder, OrderLeg, perp, spot, PlaceRequest, perp_request, spot_request, PlaceError, no_orders,
  mixed_venues, owners_disagree, find_other_owner, request_of, from_legs,
}
use metaflux_client_rust.Place.Legs.{
  perps_of, spots_of, from_legs-request_of, all_perp, all_spot, perps_of-map, spots_of-map, OwnedBy,
  find_other_owner-none, find_other_owner-eq_none, find_other_owner-some, IsFirstOther,
}

-- The request carries exactly the legs, in their order: perp orders of one owner, or spot orders.
abbrev pub Carries : PlaceRequest → List OrderLeg → Type 0
Carries (perp_request owner orders grouping) legs =
    (orders ≢ []) × (legs ≡ map perp orders) × All (OwnedBy owner) orders × (grouping ≡ na)
Carries (spot_request orders) legs = (orders ≢ []) × (legs ≡ map spot orders)

-- what a refusal says of the orders of the two venues
abbrev pub Explains : PlaceError → List Order → List SpotOrder → Type 0
Explains no_orders os ss = (os ≡ []) × (ss ≡ [])
Explains (mixed_venues n m) os ss = (0 < n) × (0 < m) × (n ≡ length os) × (m ≡ length ss)
Explains (owners_disagree owner i bad) os ss = (ss ≡ []) × IsFirstOther owner os i bad

request_of_sound :
    (os : List Order) (ss : List SpotOrder) (legs : List OrderLeg) (req : PlaceRequest)
    → (ss ≡ [] → legs ≡ map perp os)
    → (os ≡ [] → legs ≡ map spot ss)
    → request_of os ss ≡ ok req
    → Carries req legs
unfolding request_of
request_of_sound [] [] legs req p s h = cc
request_of_sound [] (x ∷ ss) legs req p s h =
    subst (λ r. Carries r legs) {x = spot_request (x ∷ ss)} (ground arith) ((λ e. cc), s refl)
request_of_sound (o ∷ os) (x ∷ ss) legs req p s h = cc
request_of_sound (o ∷ os) [] legs req p s h =
    elim (Option-cases (find_other_owner o.owner (o ∷ os) 0)) [
      | inl e ↦
          subst (λ r. Carries r legs) {x = perp_request o.owner (o ∷ os) na} (ground arith)
            ((λ q. cc), p refl, find_other_owner-none o.owner (o ∷ os) 0 e, refl)
      | inr ((i, bad), e) ↦ absurd (ground arith)
    ]

request_of_refused :
    (os : List Order) (ss : List SpotOrder) (e : PlaceError)
    → request_of os ss ≡ err e
    → Explains e os ss
unfolding request_of
request_of_refused [] [] e h =
    subst (λ x. Explains x [] []) {x = no_orders} (ground arith) (refl, refl)
request_of_refused [] (x ∷ ss) e h = cc
request_of_refused (o ∷ os) (x ∷ ss) e h =
    subst (λ y. Explains y (o ∷ os) (x ∷ ss)) {x = mixed_venues (length (o ∷ os)) (length (x ∷ ss))}
      (ground arith) (omega arith, omega arith, refl, refl)
request_of_refused (o ∷ os) [] e h = elim (Option-cases (find_other_owner o.owner (o ∷ os) 0)) [
  | inl q ↦ absurd (ground arith)
  | inr ((i, bad), q) ↦
      let (n, at, f) = find_other_owner-some o.owner (o ∷ os) 0 i bad q in
      subst (λ y. Explains y (o ∷ os) []) {x = owners_disagree o.owner i bad} (ground arith)
        (refl, subst (λ k. IsFirstOther o.owner (o ∷ os) k bad) {x = n} (omega arith) f)
]

request_of_complete :
    (req : PlaceRequest) (legs : List OrderLeg)
    → Carries req legs
    → request_of (perps_of legs) (spots_of legs) ≡ ok req
unfolding request_of
request_of_complete (perp_request owner [] g) legs h = absurd (h.0 refl)
request_of_complete (perp_request owner (o ∷ os) g) legs (ne, e, (e_owner, own), e_g) =
    rw (e, (perps_of-map (o ∷ os)).0, (perps_of-map (o ∷ os)).1)
      (ground (
        arith,
        e_owner,
        e_g,
        find_other_owner-eq_none o.owner (o ∷ os) 0
            (subst (λ w. All (OwnedBy w) (o ∷ os)) (sym e_owner) (e_owner, own)),
      ))
request_of_complete (spot_request []) legs h = absurd (h.0 refl)
request_of_complete (spot_request (x ∷ ss)) legs (ne, e) =
    rw (e, (spots_of-map (x ∷ ss)).0, (spots_of-map (x ∷ ss)).1) refl

-- A request is built exactly from legs of one venue, and of one owner if they are perp legs; it
-- carries all of them in their order.
pub from_legs_iff :
    (legs : List OrderLeg) (req : PlaceRequest) → (from_legs legs ≡ ok req) ↔ Carries req legs
from_legs_iff legs req = (
  (λ h.
      request_of_sound (perps_of legs) (spots_of legs) legs req (all_perp legs) (all_spot legs)
        (sym (from_legs-request_of legs) ∙ h)),
  (λ c. from_legs-request_of legs ∙ request_of_complete req legs c),
)

-- A refusal says what is wrong: no legs, how many legs of each venue, or the first perp leg of
-- another owner, with its index and that owner.
pub from_legs_refused :
    (legs : List OrderLeg) (e : PlaceError)
    → from_legs legs ≡ err e
    → Explains e (perps_of legs) (spots_of legs)
from_legs_refused legs e h =
    request_of_refused (perps_of legs) (spots_of legs) e (sym (from_legs-request_of legs) ∙ h)
