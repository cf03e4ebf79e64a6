-- ===== src/Requests/Vaults.antt =====
-- The calls about vaults, their operators and the earn pools (src/rest/exchange_typed.rs).
use metaflux_client_rust.Base.{
  ℕ, String, [], ◌∷◌, Bool, false, Option, none, some, ◌==◌, if◌then◌else◌, unwrap_or,
}
use metaflux_client_rust.Json.{Value, bool, number, string, object, end, field, Fields}
use metaflux_client_rust.Signing.{Bytes, Address}
use metaflux_client_rust.Signing.Actions.{
  create_vault, vault_modify, vault_transfer, vault_withdraw, vault_distribute,
  register_metaliquidity_operator, earn_deposit, earn_withdraw,
}
use metaflux_client_rust.Requests.{
  json_object, set_field, posted_hex, is_some, Build, post_signed_typed,
}

pub record VaultModify : Type 0 where
  pub vault_id : ℕ
  pub new_name : Option String
  pub new_lock_period_secs : Option ℕ
  pub new_management_fee_bps : Option ℕ
  pub new_paused : Option Bool

-- A field that serde skips when it is absent.
abbrev pub skip_none {ℓ} : {A : Type ℓ} → String → (A → Value) → Option A → Fields → Fields
skip_none key f none rest = rest
skip_none key f (some a) rest = field key (f a) rest

abbrev pub vault_modify_json : VaultModify → Value
vault_modify_json p = object (
    field "vault_id" (number p.vault_id) (
      skip_none "new_name" string p.new_name (
        skip_none "new_lock_period_secs" number p.new_lock_period_secs (
          skip_none "new_management_fee_bps" number p.new_management_fee_bps
            (skip_none "new_paused" bool p.new_paused end)))))

module _ {R : Type 0} (post : Build → R) where
  abbrev pub create_vault_typed : String → ℕ → ℕ → R
  create_vault_typed name lock_period_secs kind = post_signed_typed post λ chain nonce. (
    create_vault (record {
      metaflux_chain = chain;
      name = name;
      lock_period_secs = lock_period_secs;
      kind = kind;
      nonce = nonce;
    }),
    "create_vault",
    json_object (
        ("name", string name)
        ∷ ("lock_period_secs", number lock_period_secs)
        ∷ ("kind", string (if kind == 1 then "Metaliquidity" else "User"))
        ∷ []),
  )

  abbrev pub vault_modify_typed : VaultModify → R
  vault_modify_typed params = post_signed_typed post λ chain nonce. (
    vault_modify (record {
      metaflux_chain = chain;
      vault_id = params.vault_id;
      new_name = (unwrap_or params.new_name "");
      has_new_lock_period_secs = (is_some params.new_lock_period_secs);
      new_lock_period_secs = (unwrap_or params.new_lock_period_secs 0);
      has_new_management_fee_bps = (is_some params.new_management_fee_bps);
      new_management_fee_bps = (unwrap_or params.new_management_fee_bps 0);
      has_new_paused = (is_some params.new_paused);
      new_paused = (unwrap_or params.new_paused false);
      nonce = nonce;
    }),
    "vault_modify",
    vault_modify_json params,
  )

  abbrev pub vault_transfer_typed : ℕ → Bool → String → R
  vault_transfer_typed vault_id deposit amount = post_signed_typed post λ chain nonce. (
    vault_transfer (record {
      metaflux_chain = chain;
      vault_id = vault_id;
      deposit = deposit;
      amount = amount;
      nonce = nonce;
    }),
    "vault_transfer",
    json_object (
        ("vault_id", number vault_id) ∷ ("deposit", bool deposit) ∷ ("amount", string amount) ∷ []),
  )

  abbrev pub vault_withdraw_typed : ℕ → String → R
  vault_withdraw_typed vault_id shares = post_signed_typed post λ chain nonce. (
    vault_withdraw
        (record { metaflux_chain = chain; vault_id = vault_id; shares = shares; nonce = nonce }),
    "vault_withdraw",
    json_object (("vault_id", number vault_id) ∷ ("shares", string shares) ∷ []),
  )

  abbrev pub earn_deposit_typed : ℕ → String → R
  earn_deposit_typed asset amount = post_signed_typed post λ chain nonce. (
    earn_deposit (record { metaflux_chain = chain; asset = asset; amount = amount; nonce = nonce }),
    "earn_deposit",
    json_object (("asset", number asset) ∷ ("amount", string amount) ∷ []),
  )

  abbrev pub earn_withdraw_typed : ℕ → String → R
  earn_withdraw_typed asset shares = post_signed_typed post λ chain nonce. (
    earn_withdraw
        (record { metaflux_chain = chain; asset = asset; shares = shares; nonce = nonce }),
    "earn_withdraw",
    json_object (("asset", number asset) ∷ ("shares", string shares) ∷ []),
  )

  abbrev pub vault_distribute_typed : ℕ → String → R
  vault_distribute_typed vault_id pnl = post_signed_typed post λ chain nonce. (
    vault_distribute
        (record { metaflux_chain = chain; vault_id = vault_id; pnl = pnl; nonce = nonce }),
    "vault_distribute",
    json_object (("vault_id", number vault_id) ∷ ("pnl", string pnl) ∷ []),
  )

module _ {R : Type 0} (hex_encode : Bytes → String) (post : Build → R) where
  abbrev pub register_metaliquidity_operator_typed : ℕ → Address → Bool → ℕ → R
  register_metaliquidity_operator_typed vault_id operator allowed expires_at_ms =
      post_signed_typed post λ chain nonce. (
        register_metaliquidity_operator (record {
          metaflux_chain = chain;
          vault_id = vault_id;
          operator = operator;
          allowed = allowed;
          expires_at_ms = expires_at_ms;
          nonce = nonce;
        }),
        "register_metaliquidity_operator",
        if expires_at_ms == 0
            then json_object (
                ("vault_id", number vault_id)
                ∷ ("operator", posted_hex hex_encode operator)
                ∷ ("allowed", bool allowed)
                ∷ [])
            else set_field "expires_at_ms" (number expires_at_ms) (
                json_object (
                  ("vault_id", number vault_id)
                  ∷ ("operator", posted_hex hex_encode operator)
                  ∷ ("allowed", bool allowed)
                  ∷ [])),
      )
