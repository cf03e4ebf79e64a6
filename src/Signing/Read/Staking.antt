-- ===== src/Signing/Read/Staking.antt =====
-- The signed actions about staking, sub-accounts and abstractions, read back from their members.
use metaflux_client_rust.Base.{List, [], ◌∷◌, Option, none, some}
use metaflux_client_rust.Signing.{
  Field, field, uint64, uint32, uint8, boolean, address, utf8_string,
}
use metaflux_client_rust.Signing.Actions.{
  TypedAction, claim_rewards, link_staking_user, token_delegate, c_deposit, c_withdraw,
  create_sub_account, sub_account_transfer, sub_account_spot_transfer, agent_set_abstraction,
  user_set_abstraction,
}

abbrev pub read_claim_rewards : List Field → Option TypedAction
read_claim_rewards
      (field utf8_string metaflux_chain ∷ field address validator ∷ field uint64 nonce ∷ []) =
    some (
      claim_rewards
        (record { metaflux_chain = metaflux_chain; validator = validator; nonce = nonce }))
read_claim_rewards _ = none

abbrev pub read_link_staking_user : List Field → Option TypedAction
read_link_staking_user
      (field utf8_string metaflux_chain ∷ field address target ∷ field uint64 nonce ∷ []) =
    some (
      link_staking_user
        (record { metaflux_chain = metaflux_chain; target = target; nonce = nonce }))
read_link_staking_user _ = none

abbrev pub read_token_delegate : List Field → Option TypedAction
read_token_delegate
      (field utf8_string metaflux_chain
        ∷ field address validator
        ∷ field utf8_string amount
        ∷ field boolean is_undelegate
        ∷ field uint8 lock_months
        ∷ field uint64 nonce
        ∷ []) =
    some (
      token_delegate (record {
        metaflux_chain = metaflux_chain;
        validator = validator;
        amount = amount;
        is_undelegate = is_undelegate;
        lock_months = lock_months;
        nonce = nonce;
      }))
read_token_delegate _ = none

abbrev pub read_c_deposit : List Field → Option TypedAction
read_c_deposit
      (field utf8_string metaflux_chain ∷ field utf8_string amount ∷ field uint64 nonce ∷ []) =
    some (c_deposit (record { metaflux_chain = metaflux_chain; amount = amount; nonce = nonce }))
read_c_deposit _ = none

abbrev pub read_c_withdraw : List Field → Option TypedAction
read_c_withdraw
      (field utf8_string metaflux_chain ∷ field utf8_string amount ∷ field uint64 nonce ∷ []) =
    some (c_withdraw (record { metaflux_chain = metaflux_chain; amount = amount; nonce = nonce }))
read_c_withdraw _ = none

abbrev pub read_create_sub_account : List Field → Option TypedAction
read_create_sub_account
      (field utf8_string metaflux_chain
        ∷ field utf8_string name
        ∷ field boolean has_explicit_index
        ∷ field uint32 explicit_index
        ∷ field boolean shared_stp_group
        ∷ field uint64 nonce
        ∷ []) =
    some (
      create_sub_account (record {
        metaflux_chain = metaflux_chain;
        name = name;
        has_explicit_index = has_explicit_index;
        explicit_index = explicit_index;
        shared_stp_group = shared_stp_group;
        nonce = nonce;
      }))
read_create_sub_account _ = none

abbrev pub read_sub_account_transfer : List Field → Option TypedAction
read_sub_account_transfer
      (field utf8_string metaflux_chain
        ∷ field uint32 sub_index
        ∷ field boolean deposit
        ∷ field utf8_string amount
        ∷ field uint64 nonce
        ∷ []) =
    some (
      sub_account_transfer (record {
        metaflux_chain = metaflux_chain;
        sub_index = sub_index;
        deposit = deposit;
        amount = amount;
        nonce = nonce;
      }))
read_sub_account_transfer _ = none

abbrev pub read_sub_account_spot_transfer : List Field → Option TypedAction
read_sub_account_spot_transfer
      (field utf8_string metaflux_chain
        ∷ field uint32 sub_index
        ∷ field uint32 token
        ∷ field boolean deposit
        ∷ field utf8_string amount
        ∷ field uint64 nonce
        ∷ []) =
    some (
      sub_account_spot_transfer (record {
        metaflux_chain = metaflux_chain;
        sub_index = sub_index;
        token = token;
        deposit = deposit;
        amount = amount;
        nonce = nonce;
      }))
read_sub_account_spot_transfer _ = none

abbrev pub read_agent_set_abstraction : List Field → Option TypedAction
read_agent_set_abstraction
      (field utf8_string metaflux_chain
        ∷ field address user
        ∷ field uint8 kind
        ∷ field utf8_string value
        ∷ field uint64 nonce
        ∷ []) =
    some (
      agent_set_abstraction (record {
        metaflux_chain = metaflux_chain;
        user = user;
        kind = kind;
        value = value;
        nonce = nonce;
      }))
read_agent_set_abstraction _ = none

abbrev pub read_user_set_abstraction : List Field → Option TypedAction
read_user_set_abstraction
      (field utf8_string metaflux_chain
        ∷ field uint8 kind
        ∷ field utf8_string value
        ∷ field uint64 nonce
        ∷ []) =
    some (
      user_set_abstraction
        (record { metaflux_chain = metaflux_chain; kind = kind; value = value; nonce = nonce }))
read_user_set_abstraction _ = none
