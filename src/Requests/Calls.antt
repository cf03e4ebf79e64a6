-- ===== src/Requests/Calls.antt =====
-- The calls as one type, and what each hands to the posting of its action.
use metaflux_client_rust.Base.{ℕ, String, List, Bool, Option, Result, ok}
use metaflux_client_rust.Signing.{Bytes, Address}
use metaflux_client_rust.Requests.{
  BridgeChain, CoreSide, BorrowLendKind, RequestError, Request, at_fresh_nonce, at_nonce,
}
use metaflux_client_rust.Requests.Transfers.{
  send_asset_typed, usd_class_transfer_typed, withdraw_typed, mb_withdraw_typed,
  core_evm_transfer_typed, send_to_evm_with_data_typed, borrow_lend_typed,
}
use metaflux_client_rust.Requests.Accounts.{
  approve_agent_typed, set_referrer_typed, register_referral_code_typed, set_referrer_by_code_typed,
  approve_broker_fee_typed, approve_builder_fee_typed, set_display_name_typed,
  set_position_mode_typed, set_position_mode_typed_as, user_portfolio_margin_typed,
  convert_to_multi_sig_user_typed, pm_unenroll_typed, noop_typed, claim_broker_rewards_typed,
  claim_builder_rewards_typed, claim_referral_rewards_typed, multi_sig_typed,
}
use metaflux_client_rust.Requests.Staking.{
  claim_rewards_typed, link_staking_user_typed, token_delegate_typed, agent_set_abstraction_typed,
  create_sub_account_typed, sub_account_transfer_typed, sub_account_spot_transfer_typed,
  c_deposit_typed, c_withdraw_typed, user_set_abstraction_typed,
}
use metaflux_client_rust.Requests.Vaults.{
  VaultModify, create_vault_typed, vault_modify_typed, vault_transfer_typed, vault_withdraw_typed,
  earn_deposit_typed, earn_withdraw_typed, vault_distribute_typed,
  register_metaliquidity_operator_typed,
}
use metaflux_client_rust.Requests.Margin.{
  update_leverage_typed, update_leverage_typed_as, spot_margin_close_typed,
  update_isolated_margin_typed, update_isolated_margin_typed_as, top_up_isolated_only_margin_typed,
  top_up_isolated_only_margin_typed_as, spot_margin_deposit_typed, spot_margin_withdraw_typed,
  spot_margin_open_typed,
}
use metaflux_client_rust.Requests.Quotes.{
  priority_bid_typed, cancel_all_orders_typed, cancel_all_orders_as, submit_encrypted_order_typed,
  rfq_request_typed, rfq_accept_typed, rfq_request_as, rfq_accept_as, fba_submit_typed,
  rfq_quote_typed, rfq_quote_as,
}
use metaflux_client_rust.Requests.SpotDeploy.{
  spot_register_token_typed, spot_register_pair_typed, spot_set_pair_params_typed,
  spot_set_pair_active_typed, spot_seed_holders_typed, spot_finalize_supply_typed,
}
use metaflux_client_rust.Requests.PerpDeploy.{
  perp_register_asset_typed, perp_set_oracle_typed, perp_set_leverage_typed,
  perp_set_fee_tier_typed, perp_set_maker_rebate_typed, perp_set_min_size_typed,
  perp_set_oi_cap_typed, perp_activate_market_typed, perp_deactivate_market_typed,
  perp_set_sub_deployers_typed, perp_set_sub_deployer_perms_typed, mip3_set_oracle_px_typed,
}

pub data Call : Type 0 where
  send_asset_call : ℕ → ℕ → ℕ → Address → String → Bool → Call
  usd_class_transfer_call : String → Bool → Call
  withdraw_call : ℕ → String → ℕ → Bool → Call
  approve_agent_call : Address → String → ℕ → Call
  set_referrer_call : Address → Call
  register_referral_code_call : String → Call
  set_referrer_by_code_call : String → Call
  approve_broker_fee_call : Address → ℕ → Call
  approve_builder_fee_call : Address → ℕ → Call
  set_display_name_call : String → Call
  set_position_mode_call : Bool → Call
  set_position_mode_as_call : Address → Bool → Call
  user_portfolio_margin_call : Bool → Call
  convert_to_multi_sig_user_call : List Address → ℕ → Call
  update_leverage_call : ℕ → ℕ → Bool → Call
  update_leverage_as_call : Address → ℕ → ℕ → Bool → Call
  claim_rewards_call : Address → Call
  link_staking_user_call : Address → Call
  create_vault_call : String → ℕ → ℕ → Call
  vault_modify_call : VaultModify → Call
  spot_margin_close_call : ℕ → ℕ → Call
  update_isolated_margin_call : ℕ → String → Call
  update_isolated_margin_as_call : Address → ℕ → String → Call
  top_up_isolated_only_margin_call : ℕ → String → Call
  top_up_isolated_only_margin_as_call : Address → ℕ → String → Call
  token_delegate_call : Address → String → Bool → ℕ → Call
  vault_transfer_call : ℕ → Bool → String → Call
  vault_withdraw_call : ℕ → String → Call
  spot_margin_deposit_call : ℕ → String → Call
  spot_margin_withdraw_call : ℕ → String → Call
  spot_margin_open_call : ℕ → ℕ → ℕ → String → Call
  earn_deposit_call : ℕ → String → Call
  earn_withdraw_call : ℕ → String → Call
  agent_set_abstraction_call : Address → ℕ → String → Call
  mb_withdraw_call : BridgeChain → ℕ → ℕ → String → Call
  core_evm_transfer_call : String → Bool → Address → ℕ → Call
  send_to_evm_with_data_call : ℕ → String → ℕ → Address → Bool → ℕ → Bytes → ℕ → Call
  create_sub_account_call : String → Option ℕ → Bool → Call
  sub_account_transfer_call : ℕ → Bool → String → Call
  sub_account_spot_transfer_call : ℕ → ℕ → Bool → String → Call
  c_deposit_call : String → Call
  c_withdraw_call : String → Call
  user_set_abstraction_call : ℕ → String → Call
  priority_bid_call : ℕ → ℕ → Call
  cancel_all_orders_call : Option ℕ → Call
  cancel_all_orders_as_call : Address → Option ℕ → Call
  submit_encrypted_order_call : Bytes → Bytes → ℕ → ℕ → ℕ → Call
  pm_unenroll_call : Call
  noop_call : Call
  rfq_request_call : ℕ → CoreSide → ℕ → Option ℕ → ℕ → Option ℕ → Call
  rfq_accept_call : ℕ → ℕ → ℕ → Call
  rfq_request_as_call : Address → ℕ → CoreSide → ℕ → Option ℕ → ℕ → Option ℕ → Call
  rfq_accept_as_call : Address → ℕ → ℕ → ℕ → Call
  fba_submit_call : ℕ → CoreSide → ℕ → ℕ → Option ℕ → Call
  vault_distribute_call : ℕ → String → Call
  rfq_quote_call : ℕ → ℕ → ℕ → ℕ → Option ℕ → Call
  rfq_quote_as_call : Address → ℕ → ℕ → ℕ → ℕ → Option ℕ → Call
  claim_broker_rewards_call : Call
  claim_builder_rewards_call : Call
  claim_referral_rewards_call : Call
  borrow_lend_call : BorrowLendKind → String → Call
  register_metaliquidity_operator_call : ℕ → Address → Bool → ℕ → Call
  spot_register_token_call : String → ℕ → ℕ → String → Call
  spot_register_pair_call : ℕ → ℕ → String → String → Call
  spot_set_pair_params_call : ℕ → ℕ → ℕ → ℕ → Call
  spot_set_pair_active_call : ℕ → Bool → Call
  spot_seed_holders_call : ℕ → List Address → List String → Call
  spot_finalize_supply_call : ℕ → String → Call
  perp_register_asset_call : String → ℕ → String → Call
  perp_set_oracle_call : ℕ → ℕ → Call
  perp_set_leverage_call : ℕ → ℕ → Call
  perp_set_fee_tier_call : ℕ → ℕ → ℕ → ℕ → Call
  perp_set_maker_rebate_call : ℕ → ℕ → Call
  perp_set_min_size_call : ℕ → ℕ → Call
  perp_set_oi_cap_call : ℕ → ℕ → Call
  perp_activate_market_call : ℕ → Call
  perp_deactivate_market_call : ℕ → Call
  perp_set_sub_deployers_call : ℕ → Address → Bool → Call
  perp_set_sub_deployer_perms_call : ℕ → Address → ℕ → Call
  mip3_set_oracle_px_call : ℕ → String → Call
  multi_sig_call : Address → Bytes → List Bytes → ℕ → Call

module _ (hex_encode : Bytes → String) where
  unfoldable pub request : Call → Result RequestError Request
  request (send_asset_call source_dex destination_dex asset destination amount to_perp) = ok (
      send_asset_typed hex_encode at_fresh_nonce source_dex destination_dex asset destination amount
        to_perp)
  request (usd_class_transfer_call ntl to_perp) =
      ok (usd_class_transfer_typed at_fresh_nonce ntl to_perp)
  request (withdraw_call asset amount destination_chain_id use_cctp) =
      ok (withdraw_typed at_fresh_nonce asset amount destination_chain_id use_cctp)
  request (approve_agent_call agent_address agent_name expires_at_ms) =
      ok (approve_agent_typed hex_encode at_fresh_nonce agent_address agent_name expires_at_ms)
  request (set_referrer_call referrer) = ok (set_referrer_typed hex_encode at_fresh_nonce referrer)
  request (register_referral_code_call code) = register_referral_code_typed at_fresh_nonce code
  request (set_referrer_by_code_call code) = set_referrer_by_code_typed at_fresh_nonce code
  request (approve_broker_fee_call broker max_fee_bps) =
      ok (approve_broker_fee_typed hex_encode at_fresh_nonce broker max_fee_bps)
  request (approve_builder_fee_call builder max_fee_bps) =
      ok (approve_builder_fee_typed hex_encode at_fresh_nonce builder max_fee_bps)
  request (set_display_name_call display_name) =
      ok (set_display_name_typed at_fresh_nonce display_name)
  request (set_position_mode_call hedge) =
      ok (set_position_mode_typed hex_encode at_fresh_nonce hedge)
  request (set_position_mode_as_call owner hedge) =
      ok (set_position_mode_typed_as hex_encode at_fresh_nonce owner hedge)
  request (user_portfolio_margin_call enroll) =
      ok (user_portfolio_margin_typed at_fresh_nonce enroll)
  request (convert_to_multi_sig_user_call signers threshold) =
      ok (convert_to_multi_sig_user_typed hex_encode at_fresh_nonce signers threshold)
  request (update_leverage_call asset leverage is_isolated) =
      ok (update_leverage_typed at_fresh_nonce asset leverage is_isolated)
  request (update_leverage_as_call owner asset leverage is_isolated) =
      ok (update_leverage_typed_as hex_encode at_fresh_nonce owner asset leverage is_isolated)
  request (claim_rewards_call validator) =
      ok (claim_rewards_typed hex_encode at_fresh_nonce validator)
  request (link_staking_user_call target) =
      ok (link_staking_user_typed hex_encode at_fresh_nonce target)
  request (create_vault_call name lock_period_secs kind) =
      ok (create_vault_typed at_fresh_nonce name lock_period_secs kind)
  request (vault_modify_call params) = ok (vault_modify_typed at_fresh_nonce params)
  request (spot_margin_close_call pair limit_px) =
      ok (spot_margin_close_typed at_fresh_nonce pair limit_px)
  request (update_isolated_margin_call asset delta) =
      ok (update_isolated_margin_typed hex_encode at_fresh_nonce asset delta)
  request (update_isolated_margin_as_call owner asset delta) =
      ok (update_isolated_margin_typed_as hex_encode at_fresh_nonce owner asset delta)
  request (top_up_isolated_only_margin_call asset amount) =
      ok (top_up_isolated_only_margin_typed hex_encode at_fresh_nonce asset amount)
  request (top_up_isolated_only_margin_as_call owner asset amount) =
      ok (top_up_isolated_only_margin_typed_as hex_encode at_fresh_nonce owner asset amount)
  request (token_delegate_call validator amount is_undelegate lock_months) =
      ok (token_delegate_typed hex_encode at_fresh_nonce validator amount is_undelegate lock_months)
  request (vault_transfer_call vault_id deposit amount) =
      ok (vault_transfer_typed at_fresh_nonce vault_id deposit amount)
  request (vault_withdraw_call vault_id shares) =
      ok (vault_withdraw_typed at_fresh_nonce vault_id shares)
  request (spot_margin_deposit_call pair amount) =
      ok (spot_margin_deposit_typed at_fresh_nonce pair amount)
  request (spot_margin_withdraw_call pair amount) =
      ok (spot_margin_withdraw_typed at_fresh_nonce pair amount)
  request (spot_margin_open_call pair size limit_px borrow) =
      ok (spot_margin_open_typed at_fresh_nonce pair size limit_px borrow)
  request (earn_deposit_call asset amount) = ok (earn_deposit_typed at_fresh_nonce asset amount)
  request (earn_withdraw_call asset shares) = ok (earn_withdraw_typed at_fresh_nonce asset shares)
  request (agent_set_abstraction_call user kind value) =
      ok (agent_set_abstraction_typed hex_encode at_fresh_nonce user kind value)
  request (mb_withdraw_call chain asset amount dst_addr) =
      ok (mb_withdraw_typed at_fresh_nonce chain asset amount dst_addr)
  request (core_evm_transfer_call amount to_evm destination asset) =
      ok (core_evm_transfer_typed hex_encode at_fresh_nonce amount to_evm destination asset)
  request
        (send_to_evm_with_data_call token amount source_dex destination_recipient to_perp
          destination_chain_id payload transfer_nonce) =
      ok (
        send_to_evm_with_data_typed hex_encode at_fresh_nonce token amount source_dex
          destination_recipient to_perp destination_chain_id payload transfer_nonce)
  request (create_sub_account_call name explicit_index shared_stp_group) =
      ok (create_sub_account_typed at_fresh_nonce name explicit_index shared_stp_group)
  request (sub_account_transfer_call sub_index deposit amount) =
      ok (sub_account_transfer_typed at_fresh_nonce sub_index deposit amount)
  request (sub_account_spot_transfer_call sub_index token deposit amount) =
      ok (sub_account_spot_transfer_typed at_fresh_nonce sub_index token deposit amount)
  request (c_deposit_call amount) = ok (c_deposit_typed at_fresh_nonce amount)
  request (c_withdraw_call amount) = ok (c_withdraw_typed at_fresh_nonce amount)
  request (user_set_abstraction_call kind value) =
      ok (user_set_abstraction_typed at_fresh_nonce kind value)
  request (priority_bid_call asset bid_bps) = ok (priority_bid_typed at_fresh_nonce asset bid_bps)
  request (cancel_all_orders_call asset) = ok (cancel_all_orders_typed at_fresh_nonce asset)
  request (cancel_all_orders_as_call owner asset) =
      ok (cancel_all_orders_as hex_encode at_fresh_nonce owner asset)
  request
        (submit_encrypted_order_call ciphertext commitment threshold target_block
          reveal_deadline_ms) =
      ok (
        submit_encrypted_order_typed at_fresh_nonce ciphertext commitment threshold target_block
          reveal_deadline_ms)
  request (pm_unenroll_call) = ok (pm_unenroll_typed at_fresh_nonce)
  request (noop_call) = ok (noop_typed at_fresh_nonce)
  request (rfq_request_call market side size limit_px expiry_ms stp_group) =
      ok (rfq_request_typed at_fresh_nonce market side size limit_px expiry_ms stp_group)
  request (rfq_accept_call rfq_id quote_idx size) =
      ok (rfq_accept_typed at_fresh_nonce rfq_id quote_idx size)
  request (rfq_request_as_call owner market side size limit_px expiry_ms stp_group) =
      ok (
        rfq_request_as hex_encode at_fresh_nonce owner market side size limit_px expiry_ms
          stp_group)
  request (rfq_accept_as_call owner rfq_id quote_idx size) =
      ok (rfq_accept_as hex_encode at_fresh_nonce owner rfq_id quote_idx size)
  request (fba_submit_call market side size price stp_group) =
      ok (fba_submit_typed at_fresh_nonce market side size price stp_group)
  request (vault_distribute_call vault_id pnl) =
      ok (vault_distribute_typed at_fresh_nonce vault_id pnl)
  request (rfq_quote_call rfq_id price max_size valid_until_ms stp_group) =
      ok (rfq_quote_typed at_fresh_nonce rfq_id price max_size valid_until_ms stp_group)
  request (rfq_quote_as_call owner rfq_id price max_size valid_until_ms stp_group) =
      ok (
        rfq_quote_as hex_encode at_fresh_nonce owner rfq_id price max_size valid_until_ms stp_group)
  request (claim_broker_rewards_call) = ok (claim_broker_rewards_typed at_fresh_nonce)
  request (claim_builder_rewards_call) = ok (claim_builder_rewards_typed at_fresh_nonce)
  request (claim_referral_rewards_call) = ok (claim_referral_rewards_typed at_fresh_nonce)
  request (borrow_lend_call kind amount) = ok (borrow_lend_typed at_fresh_nonce kind amount)
  request (register_metaliquidity_operator_call vault_id operator allowed expires_at_ms) = ok (
      register_metaliquidity_operator_typed hex_encode at_fresh_nonce vault_id operator allowed
        expires_at_ms)
  request (spot_register_token_call symbol sz_decimals wei_decimals max_deploy_fee) =
      ok (spot_register_token_typed at_fresh_nonce symbol sz_decimals wei_decimals max_deploy_fee)
  request (spot_register_pair_call base quote name max_deploy_fee) =
      ok (spot_register_pair_typed at_fresh_nonce base quote name max_deploy_fee)
  request (spot_set_pair_params_call pair taker_fee_dbps maker_fee_dbps min_notional_cents) = ok (
      spot_set_pair_params_typed at_fresh_nonce pair taker_fee_dbps maker_fee_dbps
        min_notional_cents)
  request (spot_set_pair_active_call pair active) =
      ok (spot_set_pair_active_typed at_fresh_nonce pair active)
  request (spot_seed_holders_call asset holders amounts) =
      spot_seed_holders_typed hex_encode at_fresh_nonce asset holders amounts
  request (spot_finalize_supply_call asset max_supply) =
      ok (spot_finalize_supply_typed at_fresh_nonce asset max_supply)
  request (perp_register_asset_call symbol decimals name) =
      ok (perp_register_asset_typed at_fresh_nonce symbol decimals name)
  request (perp_set_oracle_call asset oracle_source_mask) =
      ok (perp_set_oracle_typed at_fresh_nonce asset oracle_source_mask)
  request (perp_set_leverage_call asset max_leverage) =
      ok (perp_set_leverage_typed at_fresh_nonce asset max_leverage)
  request (perp_set_fee_tier_call asset taker_fee_dbps maker_fee_dbps deployer_fee_bps) =
      ok (
        perp_set_fee_tier_typed at_fresh_nonce asset taker_fee_dbps maker_fee_dbps deployer_fee_bps)
  request (perp_set_maker_rebate_call asset rebate_bps) =
      ok (perp_set_maker_rebate_typed at_fresh_nonce asset rebate_bps)
  request (perp_set_min_size_call asset min_order_size) =
      ok (perp_set_min_size_typed at_fresh_nonce asset min_order_size)
  request (perp_set_oi_cap_call asset oi_cap_units) =
      ok (perp_set_oi_cap_typed at_fresh_nonce asset oi_cap_units)
  request (perp_activate_market_call asset) = ok (perp_activate_market_typed at_fresh_nonce asset)
  request (perp_deactivate_market_call asset) =
      ok (perp_deactivate_market_typed at_fresh_nonce asset)
  request (perp_set_sub_deployers_call asset sub_deployer add) =
      ok (perp_set_sub_deployers_typed hex_encode at_fresh_nonce asset sub_deployer add)
  request (perp_set_sub_deployer_perms_call asset sub_deployer permissions) =
      ok
        (perp_set_sub_deployer_perms_typed hex_encode at_fresh_nonce asset sub_deployer permissions)
  request (mip3_set_oracle_px_call asset px) = ok (mip3_set_oracle_px_typed at_fresh_nonce asset px)
  request (multi_sig_call user inner_action_blob signatures inner_nonce) =
      ok (multi_sig_typed hex_encode at_nonce user inner_action_blob signatures inner_nonce)
