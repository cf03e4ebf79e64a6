-- ===== src/Signing/Read.antt =====
-- A signed action read back from its type string and its members, as a verifier of signatures would.
pub mod Transfers
pub mod Accounts
pub mod Staking
pub mod Vaults
pub mod Margin
pub mod Requests
pub mod SpotDeploy
pub mod PerpDeploy
use text.Mathlib.Text.{◌==◌ as str_eq}
use metaflux_client_rust.Base.{String, List, [], ◌∷◌, ◌++◌, Bool, true, false, Option, none, some}
use metaflux_client_rust.Signing.{Field}
use metaflux_client_rust.Signing.Actions.{TypedAction}
use metaflux_client_rust.Signing.Actions.Transfers.{
  send_asset_type, usd_class_transfer_type, withdraw_type, mb_withdraw_type, core_evm_transfer_type,
  core_evm_transfer_v2_type, send_to_evm_with_data_type, borrow_lend_type,
}
use metaflux_client_rust.Signing.Read.Transfers.*
use metaflux_client_rust.Signing.Actions.Accounts.{
  approve_agent_type, set_referrer_type, approve_builder_fee_type, set_display_name_type,
  set_position_mode_type, set_position_mode_with_owner_type, user_portfolio_margin_type,
  convert_to_multi_sig_user_type, multi_sig_type, claim_builder_rewards_type,
  claim_referral_rewards_type, register_referral_code_type, set_referrer_by_code_type, noop_type,
}
use metaflux_client_rust.Signing.Read.Accounts.*
use metaflux_client_rust.Signing.Actions.Staking.{
  claim_rewards_type, link_staking_user_type, token_delegate_type, c_deposit_type, c_withdraw_type,
  create_sub_account_type, sub_account_transfer_type, sub_account_spot_transfer_type,
  agent_set_abstraction_type, user_set_abstraction_type,
}
use metaflux_client_rust.Signing.Read.Staking.*
use metaflux_client_rust.Signing.Actions.Vaults.{
  create_vault_type, vault_modify_type, vault_transfer_type, vault_withdraw_type,
  vault_distribute_type, register_metaliquidity_operator_type, earn_deposit_type,
  earn_withdraw_type,
}
use metaflux_client_rust.Signing.Read.Vaults.*
use metaflux_client_rust.Signing.Actions.Margin.{
  update_leverage_type, update_leverage_with_owner_type, update_isolated_margin_type,
  update_isolated_margin_with_owner_type, top_up_isolated_only_margin_type,
  top_up_isolated_only_margin_with_owner_type, spot_margin_deposit_type, spot_margin_withdraw_type,
  spot_margin_open_type, spot_margin_close_type,
}
use metaflux_client_rust.Signing.Read.Margin.*
use metaflux_client_rust.Signing.Actions.Requests.{
  priority_bid_type, cancel_all_orders_type, cancel_all_orders_with_owner_type,
  submit_encrypted_order_type, rfq_request_type, rfq_request_with_owner_type, rfq_accept_type,
  rfq_accept_with_owner_type, rfq_quote_type, rfq_quote_with_owner_type, fba_submit_type,
}
use metaflux_client_rust.Signing.Read.Requests.*
use metaflux_client_rust.Signing.Actions.SpotDeploy.{
  spot_register_token_type, spot_register_pair_type, spot_set_pair_params_type,
  spot_set_pair_active_type, spot_seed_holders_type, spot_finalize_supply_type,
}
use metaflux_client_rust.Signing.Read.SpotDeploy.*
use metaflux_client_rust.Signing.Actions.PerpDeploy.{
  perp_register_asset_type, perp_set_oracle_type, perp_set_leverage_type, perp_set_fee_tier_type,
  perp_set_maker_rebate_type, perp_set_min_size_type, perp_set_oi_cap_type,
  perp_activate_market_type, perp_deactivate_market_type, perp_set_sub_deployers_type,
  perp_set_sub_deployer_perms_type, mip3_set_oracle_px_type,
}
use metaflux_client_rust.Signing.Read.PerpDeploy.*

abbrev Form : Type 0
Form = String × (List Field → Option TypedAction)

abbrev transfers_forms : List Form
transfers_forms =
    (send_asset_type, read_send_asset)
    ∷ (usd_class_transfer_type, read_usd_class_transfer)
    ∷ (withdraw_type, read_withdraw)
    ∷ (mb_withdraw_type, read_bridge_withdraw)
    ∷ (core_evm_transfer_type, read_core_evm_transfer)
    ∷ (core_evm_transfer_v2_type, read_core_evm_transfer_v2)
    ∷ (send_to_evm_with_data_type, read_send_to_evm_with_data)
    ∷ (borrow_lend_type, read_borrow_lend)
    ∷ []

abbrev accounts_forms : List Form
accounts_forms =
    (approve_agent_type, read_approve_agent)
    ∷ (set_referrer_type, read_set_referrer)
    ∷ (approve_builder_fee_type, read_approve_builder_fee)
    ∷ (set_display_name_type, read_set_display_name)
    ∷ (set_position_mode_type, read_set_position_mode)
    ∷ (set_position_mode_with_owner_type, read_set_position_mode_with_owner)
    ∷ (user_portfolio_margin_type, read_user_portfolio_margin)
    ∷ (convert_to_multi_sig_user_type, read_convert_to_multi_sig_user)
    ∷ (multi_sig_type, read_multi_sig)
    ∷ (claim_builder_rewards_type, read_claim_builder_rewards)
    ∷ (claim_referral_rewards_type, read_claim_referral_rewards)
    ∷ (register_referral_code_type, read_register_referral_code)
    ∷ (set_referrer_by_code_type, read_set_referrer_by_code)
    ∷ (noop_type, read_noop)
    ∷ []

abbrev staking_forms : List Form
staking_forms =
    (claim_rewards_type, read_claim_rewards)
    ∷ (link_staking_user_type, read_link_staking_user)
    ∷ (token_delegate_type, read_token_delegate)
    ∷ (c_deposit_type, read_c_deposit)
    ∷ (c_withdraw_type, read_c_withdraw)
    ∷ (create_sub_account_type, read_create_sub_account)
    ∷ (sub_account_transfer_type, read_sub_account_transfer)
    ∷ (sub_account_spot_transfer_type, read_sub_account_spot_transfer)
    ∷ (agent_set_abstraction_type, read_agent_set_abstraction)
    ∷ (user_set_abstraction_type, read_user_set_abstraction)
    ∷ []

abbrev vaults_forms : List Form
vaults_forms =
    (create_vault_type, read_create_vault)
    ∷ (vault_modify_type, read_vault_modify)
    ∷ (vault_transfer_type, read_vault_transfer)
    ∷ (vault_withdraw_type, read_vault_withdraw)
    ∷ (vault_distribute_type, read_vault_distribute)
    ∷ (register_metaliquidity_operator_type, read_register_metaliquidity_operator)
    ∷ (earn_deposit_type, read_earn_deposit)
    ∷ (earn_withdraw_type, read_earn_withdraw)
    ∷ []

abbrev margin_forms : List Form
margin_forms =
    (update_leverage_type, read_update_leverage)
    ∷ (update_leverage_with_owner_type, read_update_leverage_with_owner)
    ∷ (update_isolated_margin_type, read_update_isolated_margin)
    ∷ (update_isolated_margin_with_owner_type, read_update_isolated_margin_with_owner)
    ∷ (top_up_isolated_only_margin_type, read_top_up_isolated_only_margin)
    ∷ (top_up_isolated_only_margin_with_owner_type, read_top_up_isolated_only_margin_with_owner)
    ∷ (spot_margin_deposit_type, read_spot_margin_deposit)
    ∷ (spot_margin_withdraw_type, read_spot_margin_withdraw)
    ∷ (spot_margin_open_type, read_spot_margin_open)
    ∷ (spot_margin_close_type, read_spot_margin_close)
    ∷ []

abbrev requests_forms : List Form
requests_forms =
    (priority_bid_type, read_priority_bid)
    ∷ (cancel_all_orders_type, read_cancel_all_orders)
    ∷ (cancel_all_orders_with_owner_type, read_cancel_all_orders_with_owner)
    ∷ (submit_encrypted_order_type, read_submit_encrypted_order)
    ∷ (rfq_request_type, read_rfq_request)
    ∷ (rfq_request_with_owner_type, read_rfq_request_with_owner)
    ∷ (rfq_accept_type, read_rfq_accept)
    ∷ (rfq_accept_with_owner_type, read_rfq_accept_with_owner)
    ∷ (rfq_quote_type, read_rfq_quote)
    ∷ (rfq_quote_with_owner_type, read_rfq_quote_with_owner)
    ∷ (fba_submit_type, read_fba_submit)
    ∷ []

abbrev spot_deploy_forms : List Form
spot_deploy_forms =
    (spot_register_token_type, read_spot_register_token)
    ∷ (spot_register_pair_type, read_spot_register_pair)
    ∷ (spot_set_pair_params_type, read_spot_set_pair_params)
    ∷ (spot_set_pair_active_type, read_spot_set_pair_active)
    ∷ (spot_seed_holders_type, read_spot_seed_holders)
    ∷ (spot_finalize_supply_type, read_spot_finalize_supply)
    ∷ []

abbrev perp_deploy_forms : List Form
perp_deploy_forms =
    (perp_register_asset_type, read_perp_register_asset)
    ∷ (perp_set_oracle_type, read_perp_set_oracle)
    ∷ (perp_set_leverage_type, read_perp_set_leverage)
    ∷ (perp_set_fee_tier_type, read_perp_set_fee_tier)
    ∷ (perp_set_maker_rebate_type, read_perp_set_maker_rebate)
    ∷ (perp_set_min_size_type, read_perp_set_min_size)
    ∷ (perp_set_oi_cap_type, read_perp_set_oi_cap)
    ∷ (perp_activate_market_type, read_perp_activate_market)
    ∷ (perp_deactivate_market_type, read_perp_deactivate_market)
    ∷ (perp_set_sub_deployers_type, read_perp_set_sub_deployers)
    ∷ (perp_set_sub_deployer_perms_type, read_perp_set_sub_deployer_perms)
    ∷ (mip3_set_oracle_px_type, read_mip3_set_oracle_px)
    ∷ []

abbrev read_by : List Form → String → List Field → Option TypedAction
read_by [] s fields = none
read_by (f ∷ fs) s fields = elim (str_eq s f.0) [ true ↦ f.1 fields | false ↦ read_by fs s fields ]

unfoldable pub read : String → List Field → Option TypedAction
read = read_by (
    transfers_forms ++ accounts_forms ++ staking_forms ++ vaults_forms ++ margin_forms
    ++ requests_forms ++ spot_deploy_forms ++ perp_deploy_forms)
