-- ===== src/Trading/Owned.antt =====
-- The owner that is in a digest (src/wallet/typed_orders.rs, `effective_owner`, `supports_owner` and
-- `digest`).
use metaflux_client_rust.Base.{
  String, List, [], ◌∷◌, Bool, true, false, Option, none, some, Result, ok, ◌>>=◌, ◌≡◌,
}
use metaflux_client_rust.Order.{Address}
use metaflux_client_rust.Signing.{Bytes, Field, field, address}
use metaflux_client_rust.Signing.Digest.{metaflux_chain_tag}
use metaflux_client_rust.Trading.{
  submit_order, batch_order, TypedTradingAction, cancel_order, TradeError, address_bytes,
}
use metaflux_client_rust.Trading.Digest.{
  payload_owner_slot, TypedTradingDigest, type_string_for, action_data, framed,
}
use metaflux_client_rust.Trading.Binding.{Content}
use metaflux_client_rust.Trading.Owner.{Agrees}

-- No owner is signed: an order or a cancel that is signed as one's own, and a batch of orders, whose
-- owner is a member of its own.
abbrev pub is_unowned : Bool → TypedTradingAction → Bool
is_unowned self_signed (batch_order p) = true
is_unowned self_signed (submit_order o) = self_signed
is_unowned self_signed (cancel_order c) = self_signed
is_unowned self_signed _ = false

abbrev BindsBy : Bool → Option (Option Address) → Option Address → Option Address → Type 0
BindsBy true slot given owner = owner ≡ none
BindsBy false slot given owner = Agrees slot given owner

-- The owner that a digest binds: none where none is signed, else the one of the slot of the body, which
-- the one given must not contradict, or the one given where the body has no slot.
abbrev pub Binds : TypedTradingDigest → Option Address → Type 0
Binds d owner =
    BindsBy (is_unowned d.self_signed d.action) (payload_owner_slot d.action) d.owner owner

-- The word of an owner.
abbrev pub owner_word : Option Address → List Field
owner_word none = []
owner_word (some o) = field address (address_bytes o) ∷ []

module _ (keccak : Bytes → Bytes) (hex_encode : Bytes → String) where
  -- What is signed with an owner or without: the type string with the owner's member or without it, and
  -- the chain tag, the owner's word, the action's own fields and the nonce.
  abbrev pub content_with : TypedTradingDigest → Option Address → Result TradeError Content
  content_with d owner = action_data keccak hex_encode d.action >>= λ body. ok (record {
    form = type_string_for owner d.action;
    fields =
        framed keccak hex_encode (metaflux_chain_tag d.chain_id) d.nonce (owner_word owner) body;
    chain_id = d.chain_id;
    expires_after = d.expires_after;
  })
