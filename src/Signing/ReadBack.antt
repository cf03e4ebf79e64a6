-- ===== src/Signing/ReadBack.antt =====
-- Structured actions read back from what is encoded of them (src/wallet/typed.rs, `encode_data`).
use metaflux_client_rust.Base.{some, ◌≡◌, refl}
use metaflux_client_rust.Signing.Actions.{
  TypedAction, type_string, encode_data, send_asset, usd_class_transfer, withdraw, approve_agent,
  set_referrer, approve_builder_fee, set_display_name, set_position_mode, user_portfolio_margin,
  convert_to_multi_sig_user, multi_sig, update_leverage, claim_rewards, link_staking_user,
  create_vault, vault_modify, spot_margin_close, update_isolated_margin,
  top_up_isolated_only_margin, token_delegate, vault_transfer, vault_withdraw, vault_distribute,
  claim_builder_rewards, claim_referral_rewards, register_referral_code, set_referrer_by_code,
  spot_margin_deposit, spot_margin_withdraw, spot_margin_open, earn_deposit, earn_withdraw,
  agent_set_abstraction, bridge_withdraw, core_evm_transfer, core_evm_transfer_v2,
  send_to_evm_with_data, create_sub_account, sub_account_transfer, sub_account_spot_transfer,
  c_deposit, c_withdraw, user_set_abstraction, priority_bid, cancel_all_orders,
  submit_encrypted_order, rfq_request, rfq_accept, rfq_quote, fba_submit, noop, borrow_lend,
  register_metaliquidity_operator, spot_register_token, spot_register_pair, spot_set_pair_params,
  spot_set_pair_active, spot_seed_holders, spot_finalize_supply, perp_register_asset,
  perp_set_oracle, perp_set_leverage, perp_set_fee_tier, perp_set_maker_rebate, perp_set_min_size,
  perp_set_oi_cap, perp_activate_market, perp_deactivate_market, perp_set_sub_deployers,
  perp_set_sub_deployer_perms, mip3_set_oracle_px,
}
use metaflux_client_rust.Signing.Owners.{
  set_position_mode_cases, update_leverage_cases, update_isolated_margin_cases,
  top_up_isolated_only_margin_cases, cancel_all_orders_cases, rfq_request_cases, rfq_accept_cases,
  rfq_quote_cases,
}
use metaflux_client_rust.Signing.Read.{read}

-- The type string of a structured action and the fields that `encode_data` encodes together recover
-- the action, every field of it: no two actions share both.
pub read-encode_data : (a : TypedAction) → read (type_string a) (encode_data a) ≡ some a
unfolding type_string encode_data read
read-encode_data (send_asset a) = refl
read-encode_data (usd_class_transfer a) = refl
read-encode_data (withdraw a) = refl
read-encode_data (approve_agent a) = refl
read-encode_data (set_referrer a) = refl
read-encode_data (approve_builder_fee a) = refl
read-encode_data (set_display_name a) = refl
read-encode_data (set_position_mode a) =
    set_position_mode_cases
      (λ b.
        read (type_string (set_position_mode b)) (encode_data (set_position_mode b))
        ≡ some (set_position_mode b))
      (λ b. refl) (λ b o. refl) a
read-encode_data (user_portfolio_margin a) = refl
read-encode_data (convert_to_multi_sig_user a) = refl
read-encode_data (multi_sig a) = refl
read-encode_data (update_leverage a) =
    update_leverage_cases
      (λ b.
        read (type_string (update_leverage b)) (encode_data (update_leverage b))
        ≡ some (update_leverage b))
      (λ b. refl) (λ b o. refl) a
read-encode_data (claim_rewards a) = refl
read-encode_data (link_staking_user a) = refl
read-encode_data (create_vault a) = refl
read-encode_data (vault_modify a) = refl
read-encode_data (spot_margin_close a) = refl
read-encode_data (update_isolated_margin a) =
    update_isolated_margin_cases
      (λ b.
        read (type_string (update_isolated_margin b)) (encode_data (update_isolated_margin b))
        ≡ some (update_isolated_margin b))
      (λ b. refl) (λ b o. refl) a
read-encode_data (top_up_isolated_only_margin a) =
    top_up_isolated_only_margin_cases
      (λ b.
        read (type_string (top_up_isolated_only_margin b))
          (encode_data (top_up_isolated_only_margin b))
        ≡ some (top_up_isolated_only_margin b))
      (λ b. refl) (λ b o. refl) a
read-encode_data (token_delegate a) = refl
read-encode_data (vault_transfer a) = refl
read-encode_data (vault_withdraw a) = refl
read-encode_data (vault_distribute a) = refl
read-encode_data (claim_builder_rewards a) = refl
read-encode_data (claim_referral_rewards a) = refl
read-encode_data (register_referral_code a) = refl
read-encode_data (set_referrer_by_code a) = refl
read-encode_data (spot_margin_deposit a) = refl
read-encode_data (spot_margin_withdraw a) = refl
read-encode_data (spot_margin_open a) = refl
read-encode_data (earn_deposit a) = refl
read-encode_data (earn_withdraw a) = refl
read-encode_data (agent_set_abstraction a) = refl
read-encode_data (bridge_withdraw a) = refl
read-encode_data (core_evm_transfer a) = refl
read-encode_data (core_evm_transfer_v2 a) = refl
read-encode_data (send_to_evm_with_data a) = refl
read-encode_data (create_sub_account a) = refl
read-encode_data (sub_account_transfer a) = refl
read-encode_data (sub_account_spot_transfer a) = refl
read-encode_data (c_deposit a) = refl
read-encode_data (c_withdraw a) = refl
read-encode_data (user_set_abstraction a) = refl
read-encode_data (priority_bid a) = refl
read-encode_data (cancel_all_orders a) =
    cancel_all_orders_cases
      (λ b.
        read (type_string (cancel_all_orders b)) (encode_data (cancel_all_orders b))
        ≡ some (cancel_all_orders b))
      (λ b. refl) (λ b o. refl) a
read-encode_data (submit_encrypted_order a) = refl
read-encode_data (rfq_request a) =
    rfq_request_cases
      (λ b. read (type_string (rfq_request b)) (encode_data (rfq_request b)) ≡ some (rfq_request b))
      (λ b. refl) (λ b o. refl) a
read-encode_data (rfq_accept a) =
    rfq_accept_cases
      (λ b. read (type_string (rfq_accept b)) (encode_data (rfq_accept b)) ≡ some (rfq_accept b))
      (λ b. refl) (λ b o. refl) a
read-encode_data (rfq_quote a) =
    rfq_quote_cases
      (λ b. read (type_string (rfq_quote b)) (encode_data (rfq_quote b)) ≡ some (rfq_quote b))
      (λ b. refl) (λ b o. refl) a
read-encode_data (fba_submit a) = refl
read-encode_data (noop a) = refl
read-encode_data (borrow_lend a) = refl
read-encode_data (register_metaliquidity_operator a) = refl
read-encode_data (spot_register_token a) = refl
read-encode_data (spot_register_pair a) = refl
read-encode_data (spot_set_pair_params a) = refl
read-encode_data (spot_set_pair_active a) = refl
read-encode_data (spot_seed_holders a) = refl
read-encode_data (spot_finalize_supply a) = refl
read-encode_data (perp_register_asset a) = refl
read-encode_data (perp_set_oracle a) = refl
read-encode_data (perp_set_leverage a) = refl
read-encode_data (perp_set_fee_tier a) = refl
read-encode_data (perp_set_maker_rebate a) = refl
read-encode_data (perp_set_min_size a) = refl
read-encode_data (perp_set_oi_cap a) = refl
read-encode_data (perp_activate_market a) = refl
read-encode_data (perp_deactivate_market a) = refl
read-encode_data (perp_set_sub_deployers a) = refl
read-encode_data (perp_set_sub_deployer_perms a) = refl
read-encode_data (mip3_set_oracle_px a) = refl
