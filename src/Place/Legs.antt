-- ===== src/Place/Legs.antt =====
-- `PlaceRequest::from_legs` (src/types/place.rs): which legs make a request, and which request.
use metaflux_client_rust.Base.{
  ℕ, suc, ◌+◌, List, [], ◌∷◌, ◌++◌, append_assoc, append-nil, none, some, ◌≡◌, ◌≢◌, refl, ap, inl,
  inr, arith, All, map, length, ◌==◌, Bool-cases,
}
use metaflux_client_rust.Order.{Address, Order}
use metaflux_client_rust.Place.{
  SpotOrder, OrderLeg, perp, spot, sort_legs, find_other_owner, request_of, from_legs,
}

-- The legs of each venue, in the order of the legs.
abbrev pub perps_of : List OrderLeg → List Order
perps_of [] = []
perps_of (perp o ∷ legs) = o ∷ perps_of legs
perps_of (spot o ∷ legs) = perps_of legs

abbrev pub spots_of : List OrderLeg → List SpotOrder
spots_of [] = []
spots_of (perp o ∷ legs) = spots_of legs
spots_of (spot o ∷ legs) = o ∷ spots_of legs

sort_legs_lem :
    (legs : List OrderLeg) (perps : List Order) (spots : List SpotOrder)
    → sort_legs legs perps spots ≡ (perps ++ perps_of legs, spots ++ spots_of legs)
unfolding sort_legs
sort_legs_lem [] perps spots = simp append-nil
sort_legs_lem (perp o ∷ legs) perps spots = simp (sort_legs_lem legs, append_assoc)
sort_legs_lem (spot o ∷ legs) perps spots = simp (sort_legs_lem legs, append_assoc)

pub from_legs-request_of :
    (legs : List OrderLeg) → from_legs legs ≡ request_of (perps_of legs) (spots_of legs)
unfolding from_legs
from_legs-request_of legs = rw (sort_legs_lem legs [] [])

pub all_perp : (legs : List OrderLeg) → spots_of legs ≡ [] → legs ≡ map perp (perps_of legs)
all_perp [] h = refl
all_perp (perp o ∷ legs) h = λ i. perp o ∷ all_perp legs h i
all_perp (spot o ∷ legs) h = cc

pub all_spot : (legs : List OrderLeg) → perps_of legs ≡ [] → legs ≡ map spot (spots_of legs)
all_spot [] h = refl
all_spot (perp o ∷ legs) h = cc
all_spot (spot o ∷ legs) h = λ i. spot o ∷ all_spot legs h i

pub perps_of-map : (os : List Order) → (perps_of (map perp os) ≡ os) × (spots_of (map perp os) ≡ [])
perps_of-map [] = (refl, refl)
perps_of-map (o ∷ os) = ((λ i. o ∷ (perps_of-map os).0 i), (perps_of-map os).1)

pub spots_of-map :
    (os : List SpotOrder) → (spots_of (map spot os) ≡ os) × (perps_of (map spot os) ≡ [])
spots_of-map [] = (refl, refl)
spots_of-map (o ∷ os) = ((λ i. o ∷ (spots_of-map os).0 i), (spots_of-map os).1)

abbrev pub OwnedBy : Address → Order → Type 0
OwnedBy owner o = o.owner ≡ owner

pub find_other_owner-none :
    (owner : Address) (os : List Order) (i : ℕ)
    → find_other_owner owner os i ≡ none
    → All (OwnedBy owner) os
unfolding find_other_owner
find_other_owner-none owner [] i h = tt
find_other_owner-none owner (o ∷ os) i h =
    (ground arith, find_other_owner-none owner os (suc i) (ground arith))

pub find_other_owner-eq_none :
    (owner : Address) (os : List Order) (i : ℕ)
    → All (OwnedBy owner) os
    → find_other_owner owner os i ≡ none
unfolding find_other_owner
find_other_owner-eq_none owner [] i h = refl
find_other_owner-eq_none owner (o ∷ os) i h =
    ground (arith, h.0, find_other_owner-eq_none owner os (suc i) h.1)

-- The order at place `i` is the first one that another account, `bad`, owns.
pub record IsFirstOther (owner : Address) (os : List Order) (i : ℕ) (bad : Address) : Type 0 where
  pub before : List Order
  pub found : Order
  pub after : List Order
  pub split : os ≡ before ++ found ∷ after
  pub at : length before ≡ i
  pub same : All (OwnedBy owner) before
  pub is_bad : found.owner ≡ bad
  pub differs : bad ≢ owner

pub find_other_owner-some :
    (owner : Address) (os : List Order) (i k : ℕ) (bad : Address)
    → find_other_owner owner os i ≡ some (k, bad)
    → (n : ℕ) × (k ≡ i + n) × IsFirstOther owner os n bad
unfolding find_other_owner
find_other_owner-some owner [] i k bad h = cc
find_other_owner-some owner (o ∷ os) i k bad h = elim (Bool-cases (o.owner == owner)) [
  | inl e ↦
      let (n, at, f) = find_other_owner-some owner os (suc i) k bad (ground arith) in
      (
        suc n,
        omega arith,
        record {
          before = o ∷ f.before;
          found = f.found;
          after = f.after;
          split = λ j. o ∷ f.split j;
          at = ap suc f.at;
          same = (ground arith, f.same);
          is_bad = f.is_bad;
          differs = f.differs;
        },
      )
  | inr e ↦ (
    0,
    ground arith,
    record {
      before = [];
      found = o;
      after = os;
      split = refl;
      at = refl;
      same = tt;
      is_bad = ground arith;
      differs = λ q. ground arith;
    },
  )
]
