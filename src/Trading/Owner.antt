-- ===== src/Trading/Owner.antt =====
-- The owner of a digest, and when there is one (src/wallet/typed_orders.rs, `effective_owner` and
-- `digest`).
use metaflux_client_rust.Base.{
  ℕ, String, List, [], ◌∷◌, ◌++◌, Bool, true, false, ◌&&◌, Option, none, some, Result, ok, err,
  ◌>>=◌, Bool-cases, Option-cases, ◌≡◌, ◌↔◌, ◌⊎◌, inl, inr, refl, sym, ap, All, ◌==◌, ==_iff,
  if◌then◌else◌, arith,
}
use metaflux_client_rust.Order.{Address}
use metaflux_client_rust.Signing.{Bytes, field, bytes32}
use metaflux_client_rust.Signing.Digest.{metaflux_chain_tag, metaflux_domain_separator, to_digest}
use metaflux_client_rust.Trading.{
  submit_order, spot_order, spot_cancel, cancel_by_cloid, modify, batch_modify, schedule_cancel,
  twap_order, twap_cancel, batch_order, scale_order, cancel_scale, chase_order, cancel_chase,
  hash_items, TypedTradingAction, cancel_order, batch_cancel, CancelOrder, TradeError, cancel_words,
  all_cancel_words,
}
use metaflux_client_rust.Trading.Digest.{
  payload_owner_slot, TypedTradingDigest, is_order_or_cancel, owner_of, effective_owner,
  action_data, encode_data, hash_struct, digest,
}

-- The owner slot of the body, the owner given to the digest, and the owner that it binds: the slot
-- decides where there is one, and what is given must then be nothing or the same.
abbrev pub Agrees : Option (Option Address) → Option Address → Option Address → Type 0
Agrees none bound owner = owner ≡ bound
Agrees (some slot) bound owner = (owner ≡ slot) × ((bound ≡ none) ⊎ (bound ≡ slot))

differ : (p b : ℕ) → (p == b) ≡ false → b ≡ p → ⊥
differ p b h e = ground arith

pub owner_of_iff :
    (slot : Option (Option Address)) (bound owner : Option Address)
    → (owner_of slot bound ≡ ok owner) ↔ Agrees slot bound owner
owner_of_iff none bound owner = (λ e. cc e, λ e. cc e)
owner_of_iff (some none) none owner = (λ e. (cc e, inl refl), λ (e, _). cc e)
owner_of_iff (some (some p)) none owner = (λ e. (cc e, inl refl), λ (e, _). cc e)
owner_of_iff (some none) (some b) owner =
    (λ e. absurd (cc e), λ (e, h). absurd (elim h [ inl x ↦ cc x | inr x ↦ cc x ]))
owner_of_iff (some (some p)) (some b) owner = elim (Bool-cases (p == b)) [
  | inl same ↦ rw same (λ e. (cc e, inr (ap some (sym ((==_iff p b).0 same)))), λ (e, _). cc e)
  | inr other ↦ rw other (
    λ e. absurd (cc e),
    λ (e, h). absurd (elim h [ inl x ↦ cc x | inr x ↦ differ p b other (cc x) ]),
  )
]

-- The owner given to the digest is fit for the slot of the body.
abbrev pub IsAcceptable : Option (Option Address) → Option Address → Type 0
IsAcceptable none bound = Unit
IsAcceptable (some slot) bound = (bound ≡ none) ⊎ (bound ≡ slot)

abbrev HasOid : CancelOrder → Type 0
HasOid c = (oid : ℕ) × (c.oid ≡ some oid)

-- A cancel has a typed form when it names an order id.
abbrev pub IsEncodable : TypedTradingAction → Type 0
IsEncodable (cancel_order c) = HasOid c
IsEncodable (batch_cancel l) = All HasOid l
IsEncodable _ = Unit

abbrev IsOk : {A : Type 0} → Result TradeError A → Type 0
IsOk {A} r = (a : A) × (r ≡ ok a)

-- a chain of two succeeds when both do
IsOk-then :
    {A B : Type 0} (r : Result TradeError A) (f : A → B) → IsOk (r >>= λ a. ok (f a)) ↔ IsOk r
IsOk-then (ok a) f = (λ _. (a, refl), λ _. (f a, refl))
IsOk-then (err e) f = (λ (b, p). absurd (cc p), λ (a, p). absurd (cc p))

IsOk-both :
    {A B C : Type 0} (r : Result TradeError A) (q : Result TradeError B) (f : A → B → C)
    → IsOk (r >>= λ a. q >>= λ b. ok (f a b)) ↔ (IsOk r × IsOk q)
IsOk-both (ok a) (ok b) f = (λ _. ((a, refl), (b, refl)), λ _. (f a b, refl))
IsOk-both (ok a) (err e) f = (λ (x, p). absurd (cc p), λ (_, (x, p)). absurd (cc p))
IsOk-both (err e) q f = (λ (x, p). absurd (cc p), λ ((x, p), _). absurd (cc p))

cancel_words_iff : (c : CancelOrder) → IsOk (cancel_words c) ↔ HasOid c
cancel_words_iff c = elim (Option-cases c.oid) [
  | inl e ↦ rw e (λ (a, p). absurd (cc p), λ (a, p). absurd (cc p))
  | inr (oid, e) ↦ rw e (λ _. (oid, refl), λ _. (_, refl))
]

all_cancel_words_iff : (l : List CancelOrder) → IsOk (all_cancel_words l) ↔ All HasOid l
all_cancel_words_iff [] = (λ _. tt, λ _. ([], refl))
all_cancel_words_iff (c ∷ l) =
    let both = IsOk-both (cancel_words c) (all_cancel_words l) (λ ws rest. ws ++ rest) in
    let first = cancel_words_iff c in
    let others = all_cancel_words_iff l in
    (λ h. (first.0 (both.0 h).0, others.0 (both.0 h).1), λ (h, hs). both.1 (first.1 h, others.1 hs))

module _ (keccak : Bytes → Bytes) (hex_encode : Bytes → String) where
  action_data_iff :
      (a : TypedTradingAction) → IsOk (action_data keccak hex_encode a) ↔ IsEncodable a
  action_data_iff (cancel_order c) = cancel_words_iff c
  action_data_iff (batch_cancel l) =
      let built =
        IsOk-then (all_cancel_words l) (λ items. field bytes32 (hash_items keccak items) ∷ []) in
      let cancels = all_cancel_words_iff l in
      (λ h. cancels.0 (built.0 h), λ h. built.1 (cancels.1 h))
  action_data_iff (submit_order o) = (λ _. tt, λ _. (_, refl))
  action_data_iff (spot_order o) = (λ _. tt, λ _. (_, refl))
  action_data_iff (spot_cancel c) = (λ _. tt, λ _. (_, refl))
  action_data_iff (cancel_by_cloid p) = (λ _. tt, λ _. (_, refl))
  action_data_iff (modify m) = (λ _. tt, λ _. (_, refl))
  action_data_iff (batch_modify l) = (λ _. tt, λ _. (_, refl))
  action_data_iff (schedule_cancel p) = (λ _. tt, λ _. (_, refl))
  action_data_iff (twap_order p) = (λ _. tt, λ _. (_, refl))
  action_data_iff (twap_cancel i) = (λ _. tt, λ _. (_, refl))
  action_data_iff (batch_order p) = (λ _. tt, λ _. (_, refl))
  action_data_iff (scale_order p) = (λ _. tt, λ _. (_, refl))
  action_data_iff (cancel_scale p) = (λ _. tt, λ _. (_, refl))
  action_data_iff (chase_order p) = (λ _. tt, λ _. (_, refl))
  action_data_iff (cancel_chase p) = (λ _. tt, λ _. (_, refl))

  -- the digest of an action under an owner
  sealed_iff :
      (d : TypedTradingDigest) (owner : Option Address)
      → IsOk (
          hash_struct keccak hex_encode d.action
            (metaflux_chain_tag d.chain_id)
            d.nonce
            owner
            d.expires_after
          >>= λ strukt. ok (to_digest keccak (metaflux_domain_separator keccak d.chain_id) strukt))
        ↔ IsEncodable d.action
  unfolding hash_struct encode_data
  sealed_iff d owner =
      thrice (action_data keccak hex_encode d.action) _ _ _ (action_data_iff d.action)
    where
      thrice :
          {A B C D : Type 0} {P : Type 0} (r : Result TradeError A) (f : A → B) (g : B → C)
          (h : C → D)
          → IsOk r ↔ P
          → IsOk (((r >>= λ a. ok (f a)) >>= λ b. ok (g b)) >>= λ c. ok (h c)) ↔ P
      thrice (ok a) f g h k = (λ _. k.0 (a, refl), λ _. (_, refl))
      thrice (err e) f g h k = (λ (x, p). absurd (cc p), λ q. absurd (cc ((k.1 q).1)))

  digest_by :
      (d : TypedTradingDigest) (r : Result TradeError (Option Address))
      → IsOk (
          r >>= λ owner.
          hash_struct keccak hex_encode d.action
            (metaflux_chain_tag d.chain_id)
            d.nonce
            owner
            d.expires_after
          >>= λ strukt. ok (to_digest keccak (metaflux_domain_separator keccak d.chain_id) strukt))
        ↔ (IsOk r × IsEncodable d.action)
  digest_by d (err e) = (λ (x, p). absurd (cc p), λ ((x, p), h). absurd (cc p))
  digest_by d (ok owner) =
      (λ h. ((owner, refl), (sealed_iff d owner).0 h), λ (_, h). (sealed_iff d owner).1 h)

owner_of-IsAcceptable :
    (slot : Option (Option Address)) (bound : Option Address)
    → IsOk (owner_of slot bound) ↔ IsAcceptable slot bound
owner_of-IsAcceptable none bound = (λ _. tt, λ _. (bound, refl))
owner_of-IsAcceptable (some slot) bound = (
  λ (o, e). ((owner_of_iff (some slot) bound o).0 e).1,
  λ h. (slot, (owner_of_iff (some slot) bound slot).1 (refl, h)),
)

owner_given :
    (b : Bool) (slot : Option (Option Address)) (bound : Option Address)
    → IsOk (if b then ok none else owner_of slot bound) ↔ ((b ≡ true) ⊎ IsAcceptable slot bound)
owner_given true slot bound = (λ _. inl refl, λ _. (none, refl))
owner_given false slot bound = (
  λ h. inr ((owner_of-IsAcceptable slot bound).0 h),
  λ h. elim h [ inl e ↦ absurd (cc e) | inr k ↦ (owner_of-IsAcceptable slot bound).1 k ],
)

-- There is a digest exactly when the owner given is fit for the slot of the body, or the action is an
-- order or a cancel signed as one's own, and every cancel in it names an order id.
pub digest_given_iff :
    (keccak : Bytes → Bytes) (hex_encode : Bytes → String) (d : TypedTradingDigest)
    → ((h : Bytes) × (digest keccak hex_encode d ≡ ok h)) ↔ (
        (((d.self_signed && is_order_or_cancel d.action) ≡ true)
          ⊎ IsAcceptable (payload_owner_slot d.action) d.owner)
        × IsEncodable d.action)
unfolding digest effective_owner
digest_given_iff keccak hex_encode d =
    let steps = digest_by keccak hex_encode d (effective_owner d) in
    let owned =
      owner_given (d.self_signed && is_order_or_cancel d.action) (payload_owner_slot d.action)
        d.owner in
    (λ h. (owned.0 (steps.0 h).0, (steps.0 h).1), λ (o, a). steps.1 (owned.1 o, a))
