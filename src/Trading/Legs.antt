-- ===== src/Trading/Legs.antt =====
-- The items of a batch against its hash (src/wallet/typed_orders.rs, `hash_items`).
use mathlib.Core.List.{map-append, head-eq_of_cons-eq, tail-eq_of_cons-eq}
use metaflux_client_rust.Base.{
  ℕ, ◌*◌, ◌<◌, String, List, [], ◌∷◌, ◌++◌, Result, ok, err, map, ◌≡◌, ◌⊎◌, inl, inr, refl, sym, ap,
  ◌∙◌, All, any, Bool, true, false, ◌||◌, Option, some, none, unwrap_or, length, length-map, arith,
}
use metaflux_client_rust.Order.{Order, BatchOrder}
use metaflux_client_rust.Signing.{
  Bytes, concat, concat_map, Field, field, Kind, kind, Fits, word, Collision, uint64, uint32,
  uint16, boolean, address, utf8_string, bytes32,
}
use metaflux_client_rust.Signing.Words.{
  concat_inj, keccak_cases, list_cases, length-words, fields_cases,
}
use metaflux_client_rust.Signing.Seal.{concat-append, length-concat}
use metaflux_client_rust.Requests.{is_some}
use metaflux_client_rust.Trading.{
  TradeError, batch_order, flat_data, hash_items, order_words, trail_words, trails, trail_of,
  hash_trail_pxs,
}
use metaflux_client_rust.Trading.Digest.{
  trail_tail, TypedTradingDigest, new, with_expires_after, effective_owner, encode_data, digest,
}
use metaflux_client_rust.Trading.Binding.{Content, AreFitting, content, trading_digest_binds}

-- The fields of an item have the given types and fit them.
abbrev IsItem : List Kind → List Field → Type 0
IsItem ks fields = (map kind fields ≡ ks) × All Fits fields

module _ (keccak : Bytes → Bytes) where
  item_bytes : List Field → Bytes
  item_bytes fields = concat (map (word keccak) fields)

  flat_bytes :
      {A : Type 0} (f : A → List Field) (l : List A)
      → concat (map (word keccak) (flat_data f l)) ≡ concat_map item_bytes (map f l)
  unfolding item_bytes
  flat_bytes f [] = refl
  flat_bytes f (a ∷ l) =
      ap concat (map-append (word keccak) (f a) (flat_data f l))
      ∙ concat-append (map (word keccak) (f a)) (map (word keccak) (flat_data f l))
      ∙ ap (λ r. concat (map (word keccak) (f a)) ++ r) (flat_bytes f l)

module _ (keccak : Bytes → Bytes) (size : (x : Bytes) → length (keccak x) ≡ 32) where
  length-item_bytes :
      (ks : List Kind) (fields : List Field)
      → IsItem ks fields
      → length (item_bytes keccak fields) ≡ 32 * length ks
  unfolding item_bytes
  length-item_bytes ks fields (k, h) = omega (
    arith,
    length-concat (map (word keccak) fields) (length-words keccak size fields h),
    length-map (word keccak) fields,
    length-map kind fields,
    ap length k,
  )

  item_cases :
      (ks : List Kind) (fs gs : List Field)
      → IsItem ks fs
      → IsItem ks gs
      → item_bytes keccak fs ≡ item_bytes keccak gs
      → (fs ≡ gs) ⊎ Collision keccak
  unfolding item_bytes
  item_cases ks fs gs (kf, hf) (kg, hg) e = fields_cases keccak size fs gs (kf ∙ sym kg) hf hg (
      concat_inj 32 (map (word keccak) fs) (map (word keccak) gs) counts
        (length-words keccak size fs hf) (length-words keccak size gs hg) e)
    where
      counts : length (map (word keccak) fs) ≡ length (map (word keccak) gs)
      counts =
          length-map (word keccak) fs
          ∙ sym (length-map kind fs)
          ∙ ap length (kf ∙ sym kg)
          ∙ length-map kind gs
          ∙ sym (length-map (word keccak) gs)

  -- Two hashes of items of one shape are of the same items, or show a collision.
  hash_items_cases :
      {A : Type 0} (ks : List Kind) (f : A → List Field) (l m : List A)
      → 0 < length ks
      → All (IsItem ks) (map f l)
      → All (IsItem ks) (map f m)
      → hash_items keccak (flat_data f l) ≡ hash_items keccak (flat_data f m)
      → (map f l ≡ map f m) ⊎ Collision keccak
  hash_items_cases ks f l m pos hl hm e = elim (keccak_cases keccak _ _ e) [
    | inr c ↦ inr c
    | inl p ↦
        list_cases keccak (32 * length ks) (item_bytes keccak) (IsItem ks) (map f l) (map f m)
          (omega arith) (length-item_bytes ks) (item_cases ks) hl hm
          (sym (flat_bytes keccak f l) ∙ p ∙ flat_bytes keccak f m)
  ]

-- the types of the fields of an order
abbrev order_kinds : List Kind
order_kinds =
    uint32 ∷ utf8_string ∷ utf8_string ∷ uint64 ∷ uint64 ∷ utf8_string ∷ utf8_string ∷ boolean
    ∷ utf8_string ∷ uint16 ∷ address ∷ utf8_string ∷ uint64 ∷ boolean ∷ utf8_string ∷ []

-- the types of the fields of a trail
abbrev trail_kinds : List Kind
trail_kinds = boolean ∷ uint64 ∷ []

abbrev carried_bytes : Field → Bytes
carried_bytes (field bytes32 w) = w
carried_bytes _ = []

abbrev content_fields : Result TradeError Content → List Field
content_fields (err e) = []
content_fields (ok c) = c.fields

-- The digest of a batch that expires.
abbrev pub batch_digest : BatchOrder → ℕ → ℕ → ℕ → TypedTradingDigest
batch_digest p chain_id nonce expires_after =
    with_expires_after (new (batch_order p) chain_id nonce) expires_after

trail_items :
    (l : List Order)
    → All (λ o. All Fits (trail_words o)) l
    → All (IsItem trail_kinds) (map trail_words l)
trail_items [] h = tt
trail_items (o ∷ l) (h, hs) = ((refl, h), trail_items l hs)

-- A leg that does not trail signs the same trail words as any other such leg.
untrailed :
    {A : Type 0} (f : Order → A) (l m : List Order)
    → any trails l ≡ false
    → any trails m ≡ false
    → map f l ≡ map f m
    → map trail_words l ≡ map trail_words m
untrailed f [] [] u v h = refl
untrailed f [] (y ∷ m) u v h = absurd (cc h)
untrailed f (x ∷ l) [] u v h = absurd (cc h)
untrailed f (x ∷ l) (y ∷ m) u v h =
    let (ux, ul) = or-false (trails x) (any trails l) u in
    let (vy, vm) = or-false (trails y) (any trails m) v in
    cc (untrailed f l m ul vm (tail-eq_of_cons-eq h), still (trail_of x) (trail_of y) ux vy)
  where
    or-false : (a b : Bool) → (a || b) ≡ false → (a ≡ false) × (b ≡ false)
    or-false true b h = absurd (cc h)
    or-false false b h = (refl, h)

    still :
        (s t : Option ℕ)
        → is_some s ≡ false
        → is_some t ≡ false
        → ◌≡◌ {A = List Field}
            (field boolean (is_some s) ∷ field uint64 (unwrap_or s 0) ∷ [])
            (field boolean (is_some t) ∷ field uint64 (unwrap_or t 0) ∷ [])
    still (some s) t h k = absurd (cc h)
    still none (some t) h k = absurd (cc k)
    still none none h k = refl

module _ (keccak : Bytes → Bytes) (hex_encode : Bytes → String) where
  abbrev legs : BatchOrder → List (List Field)
  legs p = map (order_words hex_encode) p.orders

  -- The numbers of the digest and of every leg are within the widths of their types.
  abbrev pub IsFittingBatch : BatchOrder → ℕ → ℕ → ℕ → Type 0
  IsFittingBatch p chain_id nonce expires_after =
      AreFitting (content keccak hex_encode (batch_digest p chain_id nonce expires_after))
      × All (λ o. All Fits (order_words hex_encode o)) p.orders
      × All (λ o. All Fits (trail_words o)) p.orders

  leg_items :
      (l : List Order)
      → All (λ o. All Fits (order_words hex_encode o)) l
      → All (IsItem order_kinds) (map (order_words hex_encode) l)
  leg_items [] h = tt
  leg_items (o ∷ l) (h, hs) = ((refl, h), leg_items l hs)

  -- both batches sign their trails, or neither
  tail_cases :
      (l m : List Order) (n n' : ℕ) (a b : Bool)
      → trail_tail keccak hex_encode a l ++ field uint64 n ∷ []
        ≡ trail_tail keccak hex_encode b m ++ field uint64 n' ∷ []
      → (hash_trail_pxs keccak l ≡ hash_trail_pxs keccak m) ⊎ ((a ≡ false) × (b ≡ false))
  tail_cases l m n n' true true h = inl (ap carried_bytes (head-eq_of_cons-eq h))
  tail_cases l m n n' true false h = absurd (cc h)
  tail_cases l m n n' false true h = absurd (cc h)
  tail_cases l m n n' false false h = inr (refl, refl)

  same_trails :
      (p q : BatchOrder) (c n e c' n' e' : ℕ)
      → content keccak hex_encode (batch_digest p c n e)
        ≡ content keccak hex_encode (batch_digest q c' n' e')
      → (hash_trail_pxs keccak p.orders ≡ hash_trail_pxs keccak q.orders)
        ⊎ ((any trails p.orders ≡ false) × (any trails q.orders ≡ false))
  unfolding effective_owner encode_data
  same_trails p q c n e c' n' e' h =
      tail_cases p.orders q.orders n n' (any trails p.orders) (any trails q.orders) (
        tail-eq_of_cons-eq
          (tail-eq_of_cons-eq (tail-eq_of_cons-eq (tail-eq_of_cons-eq (ap content_fields h)))))

  same_legs_hash :
      (p q : BatchOrder) (c n e c' n' e' : ℕ)
      → content keccak hex_encode (batch_digest p c n e)
        ≡ content keccak hex_encode (batch_digest q c' n' e')
      → hash_items keccak (flat_data (order_words hex_encode) p.orders)
        ≡ hash_items keccak (flat_data (order_words hex_encode) q.orders)
  unfolding effective_owner encode_data
  same_legs_hash p q c n e c' n' e' h =
      ap carried_bytes
        (head-eq_of_cons-eq (tail-eq_of_cons-eq (tail-eq_of_cons-eq (ap content_fields h))))

-- Two batches of orders that are given one digest have the same legs: as many, in the same order, and
-- each pair of legs with the same signed fields and the same trail, so that no split and no merge of
-- legs shares a signature, unless two different texts with one hash come to light. The numbers are
-- taken within the widths of their types, and the hash answers 32 bytes.
pub batch_digest_binds :
    (keccak : Bytes → Bytes) (hex_encode : Bytes → String) (p q : BatchOrder) (c n e c' n' e' : ℕ)
    (h : Bytes)
    → ((x : Bytes) → length (keccak x) ≡ 32)
    → IsFittingBatch keccak hex_encode p c n e
    → IsFittingBatch keccak hex_encode q c' n' e'
    → digest keccak hex_encode (batch_digest p c n e) ≡ ok h
    → digest keccak hex_encode (batch_digest q c' n' e') ≡ ok h
    → ((map (order_words hex_encode) p.orders ≡ map (order_words hex_encode) q.orders)
        × (map trail_words p.orders ≡ map trail_words q.orders))
      ⊎ Collision keccak
batch_digest_binds keccak hex_encode p q c n e c' n' e' h size (fp, lp, tp) (fq, lq, tq) a b =
    elim (trading_digest_binds keccak hex_encode (batch_digest p c n e) (batch_digest q c' n' e') h
      size fp fq a b) [
        | inr k ↦ inr k
        | inl s ↦
            elim (hash_items_cases keccak size order_kinds (order_words hex_encode) p.orders
              q.orders (omega arith) (leg_items keccak hex_encode p.orders lp)
              (leg_items keccak hex_encode q.orders lq)
              (same_legs_hash keccak hex_encode p q c n e c' n' e' s)) [
                | inr k ↦ inr k
                | inl legs ↦ trails_bound legs (same_trails keccak hex_encode p q c n e c' n' e' s)
              ]
      ]
  where
    trails_bound :
        (map (order_words hex_encode) p.orders ≡ map (order_words hex_encode) q.orders)
        → (hash_trail_pxs keccak p.orders ≡ hash_trail_pxs keccak q.orders)
          ⊎ ((any trails p.orders ≡ false) × (any trails q.orders ≡ false))
        → ((map (order_words hex_encode) p.orders ≡ map (order_words hex_encode) q.orders)
            × (map trail_words p.orders ≡ map trail_words q.orders))
          ⊎ Collision keccak
    trails_bound legs (inr (u, v)) =
        inl (legs, untrailed (order_words hex_encode) p.orders q.orders u v legs)
    trails_bound legs (inl same) =
        elim (hash_items_cases keccak size trail_kinds trail_words p.orders q.orders (omega arith)
          (trail_items p.orders tp) (trail_items q.orders tq) same) [
            | inr k ↦ inr k
            | inl trail ↦ inl (legs, trail)
          ]
