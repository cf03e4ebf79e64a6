-- ===== src/Signing/Read/Vaults.antt =====
-- The signed actions about vaults, their operators and the earn pools, read back from their members.
use metaflux_client_rust.Base.{List, [], ◌∷◌, Option, none, some}
use metaflux_client_rust.Signing.{
  Field, field, uint64, uint32, uint16, uint8, boolean, address, utf8_string,
}
use metaflux_client_rust.Signing.Actions.{
  TypedAction, create_vault, vault_modify, vault_transfer, vault_withdraw, vault_distribute,
  register_metaliquidity_operator, earn_deposit, earn_withdraw,
}

abbrev pub read_create_vault : List Field → Option TypedAction
read_create_vault
      (field utf8_string metaflux_chain
        ∷ field utf8_string name
        ∷ field uint64 lock_period_secs
        ∷ field uint8 kind
        ∷ field uint64 nonce
        ∷ []) =
    some (
      create_vault (record {
        metaflux_chain = metaflux_chain;
        name = name;
        lock_period_secs = lock_period_secs;
        kind = kind;
        nonce = nonce;
      }))
read_create_vault _ = none

abbrev pub read_vault_modify : List Field → Option TypedAction
read_vault_modify
      (field utf8_string metaflux_chain
        ∷ field uint64 vault_id
        ∷ field utf8_string new_name
        ∷ field boolean has_new_lock_period_secs
        ∷ field uint64 new_lock_period_secs
        ∷ field boolean has_new_management_fee_bps
        ∷ field uint16 new_management_fee_bps
        ∷ field boolean has_new_paused
        ∷ field boolean new_paused
        ∷ field uint64 nonce
        ∷ []) =
    some (
      vault_modify (record {
        metaflux_chain = metaflux_chain;
        vault_id = vault_id;
        new_name = new_name;
        has_new_lock_period_secs = has_new_lock_period_secs;
        new_lock_period_secs = new_lock_period_secs;
        has_new_management_fee_bps = has_new_management_fee_bps;
        new_management_fee_bps = new_management_fee_bps;
        has_new_paused = has_new_paused;
        new_paused = new_paused;
        nonce = nonce;
      }))
read_vault_modify _ = none

abbrev pub read_vault_transfer : List Field → Option TypedAction
read_vault_transfer
      (field utf8_string metaflux_chain
        ∷ field uint64 vault_id
        ∷ field boolean deposit
        ∷ field utf8_string amount
        ∷ field uint64 nonce
        ∷ []) =
    some (
      vault_transfer (record {
        metaflux_chain = metaflux_chain;
        vault_id = vault_id;
        deposit = deposit;
        amount = amount;
        nonce = nonce;
      }))
read_vault_transfer _ = none

abbrev pub read_vault_withdraw : List Field → Option TypedAction
read_vault_withdraw
      (field utf8_string metaflux_chain
        ∷ field uint64 vault_id
        ∷ field utf8_string shares
        ∷ field uint64 nonce
        ∷ []) =
    some (
      vault_withdraw (record {
        metaflux_chain = metaflux_chain;
        vault_id = vault_id;
        shares = shares;
        nonce = nonce;
      }))
read_vault_withdraw _ = none

abbrev pub read_vault_distribute : List Field → Option TypedAction
read_vault_distribute
      (field utf8_string metaflux_chain
        ∷ field uint64 vault_id
        ∷ field utf8_string pnl
        ∷ field uint64 nonce
        ∷ []) =
    some (
      vault_distribute
        (record { metaflux_chain = metaflux_chain; vault_id = vault_id; pnl = pnl; nonce = nonce }))
read_vault_distribute _ = none

abbrev pub read_register_metaliquidity_operator : List Field → Option TypedAction
read_register_metaliquidity_operator
      (field utf8_string metaflux_chain
        ∷ field uint64 vault_id
        ∷ field address operator
        ∷ field boolean allowed
        ∷ field uint64 expires_at_ms
        ∷ field uint64 nonce
        ∷ []) =
    some (
      register_metaliquidity_operator (record {
        metaflux_chain = metaflux_chain;
        vault_id = vault_id;
        operator = operator;
        allowed = allowed;
        expires_at_ms = expires_at_ms;
        nonce = nonce;
      }))
read_register_metaliquidity_operator _ = none

abbrev pub read_earn_deposit : List Field → Option TypedAction
read_earn_deposit
      (field utf8_string metaflux_chain
        ∷ field uint32 asset
        ∷ field utf8_string amount
        ∷ field uint64 nonce
        ∷ []) =
    some (
      earn_deposit
        (record { metaflux_chain = metaflux_chain; asset = asset; amount = amount; nonce = nonce }))
read_earn_deposit _ = none

abbrev pub read_earn_withdraw : List Field → Option TypedAction
read_earn_withdraw
      (field utf8_string metaflux_chain
        ∷ field uint32 asset
        ∷ field utf8_string shares
        ∷ field uint64 nonce
        ∷ []) =
    some (
      earn_withdraw
        (record { metaflux_chain = metaflux_chain; asset = asset; shares = shares; nonce = nonce }))
read_earn_withdraw _ = none
