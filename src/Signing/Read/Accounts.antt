-- ===== src/Signing/Read/Accounts.antt =====
-- The signed actions about agents, referrers, fees, names and multisig accounts, read back from their members.
use metaflux_client_rust.Base.{List, [], ◌∷◌, Option, none, some}
use metaflux_client_rust.Signing.{
  Field, field, uint64, uint32, uint16, boolean, address, utf8_string, octets, addresses,
  octet_strings,
}
use metaflux_client_rust.Signing.Actions.{
  TypedAction, approve_agent, set_referrer, approve_builder_fee, set_display_name,
  set_position_mode, user_portfolio_margin, convert_to_multi_sig_user, multi_sig,
  claim_builder_rewards, claim_referral_rewards, register_referral_code, set_referrer_by_code, noop,
}

abbrev pub read_approve_agent : List Field → Option TypedAction
read_approve_agent
      (field utf8_string metaflux_chain
        ∷ field address agent_address
        ∷ field utf8_string agent_name
        ∷ field uint64 expires_at_ms
        ∷ field uint64 nonce
        ∷ []) =
    some (
      approve_agent (record {
        metaflux_chain = metaflux_chain;
        agent_address = agent_address;
        agent_name = agent_name;
        expires_at_ms = expires_at_ms;
        nonce = nonce;
      }))
read_approve_agent _ = none

abbrev pub read_set_referrer : List Field → Option TypedAction
read_set_referrer
      (field utf8_string metaflux_chain ∷ field address referrer ∷ field uint64 nonce ∷ []) =
    some (
      set_referrer (record { metaflux_chain = metaflux_chain; referrer = referrer; nonce = nonce }))
read_set_referrer _ = none

abbrev pub read_approve_builder_fee : List Field → Option TypedAction
read_approve_builder_fee
      (field utf8_string metaflux_chain
        ∷ field address builder
        ∷ field uint16 max_fee_bps
        ∷ field uint64 nonce
        ∷ []) =
    some (
      approve_builder_fee (record {
        metaflux_chain = metaflux_chain;
        builder = builder;
        max_fee_bps = max_fee_bps;
        nonce = nonce;
      }))
read_approve_builder_fee _ = none

abbrev pub read_set_display_name : List Field → Option TypedAction
read_set_display_name
      (field utf8_string metaflux_chain
        ∷ field utf8_string display_name
        ∷ field uint64 nonce
        ∷ []) =
    some (
      set_display_name
        (record { metaflux_chain = metaflux_chain; display_name = display_name; nonce = nonce }))
read_set_display_name _ = none

abbrev pub read_set_position_mode : List Field → Option TypedAction
read_set_position_mode
      (field utf8_string metaflux_chain ∷ field boolean hedge ∷ field uint64 nonce ∷ []) =
    some (
      set_position_mode
        (record { metaflux_chain = metaflux_chain; owner = none; hedge = hedge; nonce = nonce }))
read_set_position_mode _ = none

abbrev pub read_set_position_mode_with_owner : List Field → Option TypedAction
read_set_position_mode_with_owner
      (field utf8_string metaflux_chain
        ∷ field address owner
        ∷ field boolean hedge
        ∷ field uint64 nonce
        ∷ []) =
    some (
      set_position_mode (record {
        metaflux_chain = metaflux_chain;
        owner = some owner;
        hedge = hedge;
        nonce = nonce;
      }))
read_set_position_mode_with_owner _ = none

abbrev pub read_user_portfolio_margin : List Field → Option TypedAction
read_user_portfolio_margin
      (field utf8_string metaflux_chain ∷ field boolean enroll ∷ field uint64 nonce ∷ []) =
    some (
      user_portfolio_margin
        (record { metaflux_chain = metaflux_chain; enroll = enroll; nonce = nonce }))
read_user_portfolio_margin _ = none

abbrev pub read_convert_to_multi_sig_user : List Field → Option TypedAction
read_convert_to_multi_sig_user
      (field utf8_string metaflux_chain
        ∷ field addresses signers
        ∷ field uint32 threshold
        ∷ field uint64 nonce
        ∷ []) =
    some (
      convert_to_multi_sig_user (record {
        metaflux_chain = metaflux_chain;
        signers = signers;
        threshold = threshold;
        nonce = nonce;
      }))
read_convert_to_multi_sig_user _ = none

abbrev pub read_multi_sig : List Field → Option TypedAction
read_multi_sig
      (field utf8_string metaflux_chain
        ∷ field address user
        ∷ field octets inner_action_blob
        ∷ field octet_strings signatures
        ∷ field uint64 nonce
        ∷ []) =
    some (
      multi_sig (record {
        metaflux_chain = metaflux_chain;
        user = user;
        inner_action_blob = inner_action_blob;
        signatures = signatures;
        nonce = nonce;
      }))
read_multi_sig _ = none

abbrev pub read_claim_builder_rewards : List Field → Option TypedAction
read_claim_builder_rewards (field utf8_string metaflux_chain ∷ field uint64 nonce ∷ []) =
    some (claim_builder_rewards (record { metaflux_chain = metaflux_chain; nonce = nonce }))
read_claim_builder_rewards _ = none

abbrev pub read_claim_referral_rewards : List Field → Option TypedAction
read_claim_referral_rewards (field utf8_string metaflux_chain ∷ field uint64 nonce ∷ []) =
    some (claim_referral_rewards (record { metaflux_chain = metaflux_chain; nonce = nonce }))
read_claim_referral_rewards _ = none

abbrev pub read_register_referral_code : List Field → Option TypedAction
read_register_referral_code
      (field utf8_string metaflux_chain ∷ field utf8_string code ∷ field uint64 nonce ∷ []) =
    some (
      register_referral_code
        (record { metaflux_chain = metaflux_chain; code = code; nonce = nonce }))
read_register_referral_code _ = none

abbrev pub read_set_referrer_by_code : List Field → Option TypedAction
read_set_referrer_by_code
      (field utf8_string metaflux_chain ∷ field utf8_string code ∷ field uint64 nonce ∷ []) =
    some (
      set_referrer_by_code (record { metaflux_chain = metaflux_chain; code = code; nonce = nonce }))
read_set_referrer_by_code _ = none

abbrev pub read_noop : List Field → Option TypedAction
read_noop (field utf8_string metaflux_chain ∷ field uint64 nonce ∷ []) =
    some (noop (record { metaflux_chain = metaflux_chain; nonce = nonce }))
read_noop _ = none
