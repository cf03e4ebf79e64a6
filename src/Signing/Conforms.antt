-- ===== src/Signing/Conforms.antt =====
-- The type strings of the structured actions against the fields encoded under them
-- (src/wallet/typed.rs, `type_string` and `encode_data`).
use metaflux_client_rust.Base.{map, ◌≡◌, refl}
use metaflux_client_rust.Signing.{kind}
use metaflux_client_rust.Signing.Actions.{
  TypedAction, type_string, encode_data, send_asset, usd_class_transfer, withdraw, approve_agent,
  set_referrer, approve_builder_fee, set_display_name, set_position_mode, user_portfolio_margin,
  convert_to_multi_sig_user, multi_sig, update_leverage, claim_rewards, link_staking_user,
  create_vault, vault_modify, spot_margin_close, update_isolated_margin,
  top_up_isolated_only_margin, token_delegate, vault_transfer, vault_withdraw, vault_distribute,
  claim_builder_rewards, claim_referral_rewards, register_referral_code, set_referrer_by_code,
  spot_margin_deposit, spot_margin_withdraw, spot_margin_open, earn_deposit, earn_withdraw,
  agent_set_abstraction, bridge_withdraw, core_evm_transfer, core_evm_transfer_v2,
  send_to_evm_with_data, create_sub_account, sub_account_transfer, sub_account_spot_transfer,
  c_deposit, c_withdraw, user_set_abstraction, priority_bid, cancel_all_orders,
  submit_encrypted_order, rfq_request, rfq_accept, rfq_quote, fba_submit, noop, borrow_lend,
  register_metaliquidity_operator, spot_register_token, spot_register_pair, spot_set_pair_params,
  spot_set_pair_active, spot_seed_holders, spot_finalize_supply, perp_register_asset,
  perp_set_oracle, perp_set_leverage, perp_set_fee_tier, perp_set_maker_rebate, perp_set_min_size,
  perp_set_oi_cap, perp_activate_market, perp_deactivate_market, perp_set_sub_deployers,
  perp_set_sub_deployer_perms, mip3_set_oracle_px,
}
use metaflux_client_rust.Signing.Owners.{
  set_position_mode_cases, update_leverage_cases, update_isolated_margin_cases,
  top_up_isolated_only_margin_cases, cancel_all_orders_cases, rfq_request_cases, rfq_accept_cases,
  rfq_quote_cases,
}
use metaflux_client_rust.Signing.Members.{member_types, kind_name}

-- Of every structured action, the member types that its type string declares are, one for one and in
-- their order, the types of the fields that `encode_data` encodes.
pub type_string-encode_data :
    (a : TypedAction) → member_types (type_string a) ≡ map (λ f. kind_name (kind f)) (encode_data a)
unfolding type_string encode_data
type_string-encode_data (send_asset a) = refl
type_string-encode_data (usd_class_transfer a) = refl
type_string-encode_data (withdraw a) = refl
type_string-encode_data (approve_agent a) = refl
type_string-encode_data (set_referrer a) = refl
type_string-encode_data (approve_builder_fee a) = refl
type_string-encode_data (set_display_name a) = refl
type_string-encode_data (set_position_mode a) =
    set_position_mode_cases
      (λ b.
        member_types (type_string (set_position_mode b))
        ≡ map (λ f. kind_name (kind f)) (encode_data (set_position_mode b)))
      (λ b. refl) (λ b o. refl) a
type_string-encode_data (user_portfolio_margin a) = refl
type_string-encode_data (convert_to_multi_sig_user a) = refl
type_string-encode_data (multi_sig a) = refl
type_string-encode_data (update_leverage a) =
    update_leverage_cases
      (λ b.
        member_types (type_string (update_leverage b))
        ≡ map (λ f. kind_name (kind f)) (encode_data (update_leverage b)))
      (λ b. refl) (λ b o. refl) a
type_string-encode_data (claim_rewards a) = refl
type_string-encode_data (link_staking_user a) = refl
type_string-encode_data (create_vault a) = refl
type_string-encode_data (vault_modify a) = refl
type_string-encode_data (spot_margin_close a) = refl
type_string-encode_data (update_isolated_margin a) =
    update_isolated_margin_cases
      (λ b.
        member_types (type_string (update_isolated_margin b))
        ≡ map (λ f. kind_name (kind f)) (encode_data (update_isolated_margin b)))
      (λ b. refl) (λ b o. refl) a
type_string-encode_data (top_up_isolated_only_margin a) =
    top_up_isolated_only_margin_cases
      (λ b.
        member_types (type_string (top_up_isolated_only_margin b))
        ≡ map (λ f. kind_name (kind f)) (encode_data (top_up_isolated_only_margin b)))
      (λ b. refl) (λ b o. refl) a
type_string-encode_data (token_delegate a) = refl
type_string-encode_data (vault_transfer a) = refl
type_string-encode_data (vault_withdraw a) = refl
type_string-encode_data (vault_distribute a) = refl
type_string-encode_data (claim_builder_rewards a) = refl
type_string-encode_data (claim_referral_rewards a) = refl
type_string-encode_data (register_referral_code a) = refl
type_string-encode_data (set_referrer_by_code a) = refl
type_string-encode_data (spot_margin_deposit a) = refl
type_string-encode_data (spot_margin_withdraw a) = refl
type_string-encode_data (spot_margin_open a) = refl
type_string-encode_data (earn_deposit a) = refl
type_string-encode_data (earn_withdraw a) = refl
type_string-encode_data (agent_set_abstraction a) = refl
type_string-encode_data (bridge_withdraw a) = refl
type_string-encode_data (core_evm_transfer a) = refl
type_string-encode_data (core_evm_transfer_v2 a) = refl
type_string-encode_data (send_to_evm_with_data a) = refl
type_string-encode_data (create_sub_account a) = refl
type_string-encode_data (sub_account_transfer a) = refl
type_string-encode_data (sub_account_spot_transfer a) = refl
type_string-encode_data (c_deposit a) = refl
type_string-encode_data (c_withdraw a) = refl
type_string-encode_data (user_set_abstraction a) = refl
type_string-encode_data (priority_bid a) = refl
type_string-encode_data (cancel_all_orders a) =
    cancel_all_orders_cases
      (λ b.
        member_types (type_string (cancel_all_orders b))
        ≡ map (λ f. kind_name (kind f)) (encode_data (cancel_all_orders b)))
      (λ b. refl) (λ b o. refl) a
type_string-encode_data (submit_encrypted_order a) = refl
type_string-encode_data (rfq_request a) =
    rfq_request_cases
      (λ b.
        member_types (type_string (rfq_request b))
        ≡ map (λ f. kind_name (kind f)) (encode_data (rfq_request b)))
      (λ b. refl) (λ b o. refl) a
type_string-encode_data (rfq_accept a) =
    rfq_accept_cases
      (λ b.
        member_types (type_string (rfq_accept b))
        ≡ map (λ f. kind_name (kind f)) (encode_data (rfq_accept b)))
      (λ b. refl) (λ b o. refl) a
type_string-encode_data (rfq_quote a) =
    rfq_quote_cases
      (λ b.
        member_types (type_string (rfq_quote b))
        ≡ map (λ f. kind_name (kind f)) (encode_data (rfq_quote b)))
      (λ b. refl) (λ b o. refl) a
type_string-encode_data (fba_submit a) = refl
type_string-encode_data (noop a) = refl
type_string-encode_data (borrow_lend a) = refl
type_string-encode_data (register_metaliquidity_operator a) = refl
type_string-encode_data (spot_register_token a) = refl
type_string-encode_data (spot_register_pair a) = refl
type_string-encode_data (spot_set_pair_params a) = refl
type_string-encode_data (spot_set_pair_active a) = refl
type_string-encode_data (spot_seed_holders a) = refl
type_string-encode_data (spot_finalize_supply a) = refl
type_string-encode_data (perp_register_asset a) = refl
type_string-encode_data (perp_set_oracle a) = refl
type_string-encode_data (perp_set_leverage a) = refl
type_string-encode_data (perp_set_fee_tier a) = refl
type_string-encode_data (perp_set_maker_rebate a) = refl
type_string-encode_data (perp_set_min_size a) = refl
type_string-encode_data (perp_set_oi_cap a) = refl
type_string-encode_data (perp_activate_market a) = refl
type_string-encode_data (perp_deactivate_market a) = refl
type_string-encode_data (perp_set_sub_deployers a) = refl
type_string-encode_data (perp_set_sub_deployer_perms a) = refl
type_string-encode_data (mip3_set_oracle_px a) = refl
