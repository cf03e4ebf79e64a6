-- ===== src/Place/Routing.antt =====
-- The spot route of `place_order` (src/rest/place.rs): which orders were sent.
use native.Mathlib.Nat.{add-suc, suc-add, zero-add}
use metaflux_client_rust.Base.{
  ℕ, zero, suc, ◌+◌, ◌-◌, List, [], ◌∷◌, ◌++◌, Bool, false, Option, some, Result, ok, err, ◌≡◌, ◌≢◌,
  refl, ap, ◌∙◌, ◌⊎◌, inl, inr, arith, All, map, length-append, length-map, length, any,
  Result-cases,
}
use metaflux_client_rust.Json.{Value}
use metaflux_client_rust.Order.{TradingAction}
use metaflux_client_rust.Place.{
  SpotOrder, spot_request, OrderStatus, known, SpotActionOutcome, SpotPlacements,
  separate_spot_actions, range_from, send_spot, unsent, outcome_failed, action_count, has_failure,
  place_spot, place_order, route, len,
}

module _ {F E : Type 0} (post_spot : ℕ → SpotOrder → Result E (List (OrderStatus F))) where
  -- `sent` is the account of the orders from index `i`: each entry names its order's index and pair and
  -- what was answered for it; behind a success the next order is sent, and behind a failure none is.
  abbrev pub Accounts : ℕ → List SpotOrder → List (SpotActionOutcome F E) → Type 0
  Accounts i [] [] = Unit
  Accounts i (o ∷ os) [] = ⊥
  Accounts i [] (a ∷ sent) = ⊥
  Accounts i (o ∷ os) (a ∷ sent) =
      (a.index ≡ i)
      × (a.pair ≡ o.pair)
      × (((st : List (OrderStatus F)) × (post_spot i o ≡ ok st)
            × (a.result ≡ ok (map known st))
            × Accounts (suc i) os sent)
          ⊎ ((e : E) × (post_spot i o ≡ err e) × (a.result ≡ err e) × (sent ≡ [])))

  send_spot-ok :
      (i : ℕ) (o : SpotOrder) (os : List SpotOrder) (st : List (OrderStatus F))
      → post_spot i o ≡ ok st
      → send_spot post_spot i (o ∷ os) ≡ (
        record { index = i; pair = o.pair; result = ok (map known st) }
            ∷ (send_spot post_spot (suc i) os).0,
        (send_spot post_spot (suc i) os).1,
      )
  unfolding send_spot
  send_spot-ok i o os st e = rw (e, send_spot)

  send_spot-err :
      (i : ℕ) (o : SpotOrder) (os : List SpotOrder) (x : E)
      → post_spot i o ≡ err x
      → send_spot post_spot i (o ∷ os)
        ≡ (record { index = i; pair = o.pair; result = err x } ∷ [], some i)
  unfolding send_spot
  send_spot-err i o os x e = rw (e, send_spot)

  send_spot-Accounts : (i : ℕ) (os : List SpotOrder) → Accounts i os (send_spot post_spot i os).0
  send_spot-Accounts i [] = unfold send_spot in tt
  send_spot-Accounts i (o ∷ os) = elim (Result-cases (post_spot i o)) [
    | inl (st, e) ↦
        rw (send_spot-ok i o os st e) (refl, refl, inl (st, e, refl, send_spot-Accounts (suc i) os))
    | inr (x, e) ↦ rw (send_spot-err i o os x e) (refl, refl, inr (x, e, refl, refl))
  ]

  -- the indexes that were sent, and then those that were not
  send_spot-indexes :
      (i : ℕ) (os : List SpotOrder)
      → map (λ a. a.index) (send_spot post_spot i os).0
          ++ unsent (send_spot post_spot i os).1 (i + length os)
        ≡ range_from i (length os)
  unfolding unsent range_from
  send_spot-indexes i [] = unfold send_spot in refl
  send_spot-indexes i (o ∷ os) = elim (Result-cases (post_spot i o)) [
    | inl (st, e) ↦
        rw (send_spot-ok i o os st e, add-suc)
          (λ j. i ∷ (rw suc-add at (send_spot-indexes (suc i) os)) j)
    | inr (x, e) ↦
        rw (send_spot-err i o os x e)
          let gap : i + suc (length os) - suc i ≡ length os = omega arith in
            (λ j. i ∷ range_from (suc i) (gap j))
  ]

length-range_from : (i n : ℕ) → length (range_from i n) ≡ n
unfolding range_from
length-range_from i zero = refl
length-range_from i (suc n) = ap suc (length-range_from (suc i) n)

any-false : {A : Type 0} (p : A → Bool) (xs : List A) → any p xs ≡ false → All (λ x. p x ≡ false) xs
any-false p [] h = tt
any-false p (x ∷ xs) h = (ground arith, any-false p xs (ground arith))

-- What the spot route reports of the orders: what was sent, in order and with its answer, and the
-- indexes that were not sent. With no failure every order was sent and accepted.
pub record IsAccounted {F E : Type 0} (post_spot : ℕ → SpotOrder → Result E (List (OrderStatus F)))
    (os : List SpotOrder) (p : SpotPlacements F E) : Type 0 where
  pub accounts : Accounts post_spot 0 os p.sent
  pub indexes : map (λ a. a.index) p.sent ++ p.not_sent ≡ range_from 0 (length os)
  pub complete :
      has_failure (separate_spot_actions p) ≡ false
      → (p.not_sent ≡ [])
        × (action_count (separate_spot_actions p) ≡ length os)
        × All (λ a. outcome_failed a ≡ false) p.sent

module _ {F E : Type 0} where
  no_failure :
      (sent : List (SpotActionOutcome F E)) (not_sent : List ℕ)
      → has_failure (separate_spot_actions (record { sent = sent; not_sent = not_sent })) ≡ false
      → (not_sent ≡ []) × All (λ a. outcome_failed a ≡ false) sent
  unfolding has_failure
  no_failure sent [] h = (refl, any-false outcome_failed sent h)
  no_failure sent (i ∷ is) h = cc

  all_sent :
      (p : SpotPlacements F E) (n : ℕ)
      → map (λ a. a.index) p.sent ++ p.not_sent ≡ range_from 0 n
      → has_failure (separate_spot_actions p) ≡ false
      → (p.not_sent ≡ [])
        × (action_count (separate_spot_actions p) ≡ n)
        × All (λ a. outcome_failed a ≡ false) p.sent
  unfolding action_count
  all_sent p n e h =
      let (none_left, fine) = no_failure p.sent p.not_sent h in
      let count = ap length e ∙ length-range_from 0 n in
      (
        none_left,
        omega (
          arith,
          count,
          length-append (map (λ (a : SpotActionOutcome F E). a.index) p.sent) p.not_sent,
          length-map (λ (a : SpotActionOutcome F E). a.index) p.sent,
          ap length none_left,
        ),
        fine,
      )

module _ {F E : Type 0} (decode_status : Value → Option (OrderStatus F))
    (post : TradingAction → TradingAction → Result E Value)
    (post_spot : ℕ → SpotOrder → Result E (List (OrderStatus F))) where
  place_spot-IsAccounted :
      (os : List SpotOrder) → IsAccounted post_spot os (place_spot post_spot os)
  place_spot-IsAccounted os =
      let indexes : map (λ a. a.index) (place_spot post_spot os).sent
            ++ (place_spot post_spot os).not_sent
          ≡ range_from 0 (length os) =
        unfold place_spot in (rw zero-add at (send_spot-indexes post_spot 0 os)) in
      record {
        accounts = unfold place_spot in send_spot-Accounts post_spot 0 os;
        indexes = indexes;
        complete = all_sent (place_spot post_spot os) (length os) indexes;
      }

  -- A spot request with an order always returns, with a true account: the orders up to the first
  -- failure were sent, in order, each with its answer; the others were not; and when no failure
  -- is reported all of them were sent and accepted.
  pub place_order-IsAccounted :
      (os : List SpotOrder)
      → os ≢ []
      → (p : SpotPlacements F E) × (place_order decode_status post post_spot (spot_request os)
          ≡ ok (separate_spot_actions p))
        × IsAccounted post_spot os p
  unfolding place_order route len
  place_order-IsAccounted [] h = absurd (h refl)
  place_order-IsAccounted (o ∷ os) h =
      (place_spot post_spot (o ∷ os), ground arith, place_spot-IsAccounted (o ∷ os))
