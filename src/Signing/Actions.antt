-- ===== src/Signing/Actions.antt =====
-- The structured actions that the client signs (src/wallet/typed.rs, `TypedAction`).
pub mod Transfers
pub mod Accounts
pub mod Staking
pub mod Vaults
pub mod Margin
pub mod Requests
pub mod SpotDeploy
pub mod PerpDeploy
use metaflux_client_rust.Base.{String, List, Option, none, some}
use metaflux_client_rust.Signing.{Field}
use metaflux_client_rust.Signing.Actions.Transfers.*
use metaflux_client_rust.Signing.Actions.Accounts.*
use metaflux_client_rust.Signing.Actions.Staking.*
use metaflux_client_rust.Signing.Actions.Vaults.*
use metaflux_client_rust.Signing.Actions.Margin.*
use metaflux_client_rust.Signing.Actions.Requests.*
use metaflux_client_rust.Signing.Actions.SpotDeploy.*
use metaflux_client_rust.Signing.Actions.PerpDeploy.*

pub data TypedAction : Type 0 where
  send_asset : SendAsset → TypedAction
  usd_class_transfer : UsdClassTransfer → TypedAction
  withdraw : Withdraw → TypedAction
  approve_agent : ApproveAgent → TypedAction
  set_referrer : SetReferrer → TypedAction
  approve_builder_fee : ApproveBuilderFee → TypedAction
  set_display_name : SetDisplayName → TypedAction
  set_position_mode : SetPositionMode → TypedAction
  user_portfolio_margin : UserPortfolioMargin → TypedAction
  convert_to_multi_sig_user : ConvertToMultiSigUser → TypedAction
  multi_sig : MultiSig → TypedAction
  update_leverage : UpdateLeverage → TypedAction
  claim_rewards : ClaimRewards → TypedAction
  link_staking_user : LinkStakingUser → TypedAction
  create_vault : CreateVault → TypedAction
  vault_modify : VaultModify → TypedAction
  spot_margin_close : SpotMarginClose → TypedAction
  update_isolated_margin : UpdateIsolatedMargin → TypedAction
  top_up_isolated_only_margin : TopUpIsolatedOnlyMargin → TypedAction
  token_delegate : TokenDelegate → TypedAction
  vault_transfer : VaultTransfer → TypedAction
  vault_withdraw : VaultWithdraw → TypedAction
  vault_distribute : VaultDistribute → TypedAction
  claim_builder_rewards : ClaimBuilderRewards → TypedAction
  claim_referral_rewards : ClaimReferralRewards → TypedAction
  register_referral_code : RegisterReferralCode → TypedAction
  set_referrer_by_code : SetReferrerByCode → TypedAction
  spot_margin_deposit : SpotMarginDeposit → TypedAction
  spot_margin_withdraw : SpotMarginWithdraw → TypedAction
  spot_margin_open : SpotMarginOpen → TypedAction
  earn_deposit : EarnDeposit → TypedAction
  earn_withdraw : EarnWithdraw → TypedAction
  agent_set_abstraction : AgentSetAbstraction → TypedAction
  bridge_withdraw : BridgeWithdraw → TypedAction
  core_evm_transfer : CoreEvmTransfer → TypedAction
  core_evm_transfer_v2 : CoreEvmTransferV2 → TypedAction
  send_to_evm_with_data : SendToEvmWithData → TypedAction
  create_sub_account : CreateSubAccount → TypedAction
  sub_account_transfer : SubAccountTransfer → TypedAction
  sub_account_spot_transfer : SubAccountSpotTransfer → TypedAction
  c_deposit : CDeposit → TypedAction
  c_withdraw : CWithdraw → TypedAction
  user_set_abstraction : UserSetAbstraction → TypedAction
  priority_bid : PriorityBid → TypedAction
  cancel_all_orders : CancelAllOrders → TypedAction
  submit_encrypted_order : SubmitEncryptedOrder → TypedAction
  rfq_request : RfqRequest → TypedAction
  rfq_accept : RfqAccept → TypedAction
  rfq_quote : RfqQuote → TypedAction
  fba_submit : FbaSubmit → TypedAction
  noop : Noop → TypedAction
  borrow_lend : BorrowLend → TypedAction
  register_metaliquidity_operator : RegisterMetaliquidityOperator → TypedAction
  spot_register_token : SpotRegisterToken → TypedAction
  spot_register_pair : SpotRegisterPair → TypedAction
  spot_set_pair_params : SpotSetPairParams → TypedAction
  spot_set_pair_active : SpotSetPairActive → TypedAction
  spot_seed_holders : SpotSeedHolders → TypedAction
  spot_finalize_supply : SpotFinalizeSupply → TypedAction
  perp_register_asset : PerpRegisterAsset → TypedAction
  perp_set_oracle : PerpSetOracle → TypedAction
  perp_set_leverage : PerpSetLeverage → TypedAction
  perp_set_fee_tier : PerpSetFeeTier → TypedAction
  perp_set_maker_rebate : PerpSetMakerRebate → TypedAction
  perp_set_min_size : PerpSetMinSize → TypedAction
  perp_set_oi_cap : PerpSetOiCap → TypedAction
  perp_activate_market : PerpActivateMarket → TypedAction
  perp_deactivate_market : PerpDeactivateMarket → TypedAction
  perp_set_sub_deployers : PerpSetSubDeployers → TypedAction
  perp_set_sub_deployer_perms : PerpSetSubDeployerPerms → TypedAction
  mip3_set_oracle_px : Mip3SetOraclePx → TypedAction

unfoldable pub type_string : TypedAction → String
type_string (send_asset a) = send_asset_type
type_string (usd_class_transfer a) = usd_class_transfer_type
type_string (withdraw a) = withdraw_type
type_string (approve_agent a) = approve_agent_type
type_string (set_referrer a) = set_referrer_type
type_string (approve_builder_fee a) = approve_builder_fee_type
type_string (set_display_name a) = set_display_name_type
type_string (set_position_mode a) = elim a.owner [
  | none ↦ set_position_mode_type
  | some o ↦ set_position_mode_with_owner_type
]
type_string (user_portfolio_margin a) = user_portfolio_margin_type
type_string (convert_to_multi_sig_user a) = convert_to_multi_sig_user_type
type_string (multi_sig a) = multi_sig_type
type_string (update_leverage a) = elim a.owner [
  | none ↦ update_leverage_type
  | some o ↦ update_leverage_with_owner_type
]
type_string (claim_rewards a) = claim_rewards_type
type_string (link_staking_user a) = link_staking_user_type
type_string (create_vault a) = create_vault_type
type_string (vault_modify a) = vault_modify_type
type_string (spot_margin_close a) = spot_margin_close_type
type_string (update_isolated_margin a) = elim a.owner [
  | none ↦ update_isolated_margin_type
  | some o ↦ update_isolated_margin_with_owner_type
]
type_string (top_up_isolated_only_margin a) = elim a.owner [
  | none ↦ top_up_isolated_only_margin_type
  | some o ↦ top_up_isolated_only_margin_with_owner_type
]
type_string (token_delegate a) = token_delegate_type
type_string (vault_transfer a) = vault_transfer_type
type_string (vault_withdraw a) = vault_withdraw_type
type_string (vault_distribute a) = vault_distribute_type
type_string (claim_builder_rewards a) = claim_builder_rewards_type
type_string (claim_referral_rewards a) = claim_referral_rewards_type
type_string (register_referral_code a) = register_referral_code_type
type_string (set_referrer_by_code a) = set_referrer_by_code_type
type_string (spot_margin_deposit a) = spot_margin_deposit_type
type_string (spot_margin_withdraw a) = spot_margin_withdraw_type
type_string (spot_margin_open a) = spot_margin_open_type
type_string (earn_deposit a) = earn_deposit_type
type_string (earn_withdraw a) = earn_withdraw_type
type_string (agent_set_abstraction a) = agent_set_abstraction_type
type_string (bridge_withdraw a) = mb_withdraw_type
type_string (core_evm_transfer a) = core_evm_transfer_type
type_string (core_evm_transfer_v2 a) = core_evm_transfer_v2_type
type_string (send_to_evm_with_data a) = send_to_evm_with_data_type
type_string (create_sub_account a) = create_sub_account_type
type_string (sub_account_transfer a) = sub_account_transfer_type
type_string (sub_account_spot_transfer a) = sub_account_spot_transfer_type
type_string (c_deposit a) = c_deposit_type
type_string (c_withdraw a) = c_withdraw_type
type_string (user_set_abstraction a) = user_set_abstraction_type
type_string (priority_bid a) = priority_bid_type
type_string (cancel_all_orders a) = elim a.owner [
  | none ↦ cancel_all_orders_type
  | some o ↦ cancel_all_orders_with_owner_type
]
type_string (submit_encrypted_order a) = submit_encrypted_order_type
type_string (rfq_request a) = elim a.owner [
  | none ↦ rfq_request_type
  | some o ↦ rfq_request_with_owner_type
]
type_string (rfq_accept a) = elim a.owner [
  | none ↦ rfq_accept_type
  | some o ↦ rfq_accept_with_owner_type
]
type_string (rfq_quote a) = elim a.owner [
  | none ↦ rfq_quote_type
  | some o ↦ rfq_quote_with_owner_type
]
type_string (fba_submit a) = fba_submit_type
type_string (noop a) = noop_type
type_string (borrow_lend a) = borrow_lend_type
type_string (register_metaliquidity_operator a) = register_metaliquidity_operator_type
type_string (spot_register_token a) = spot_register_token_type
type_string (spot_register_pair a) = spot_register_pair_type
type_string (spot_set_pair_params a) = spot_set_pair_params_type
type_string (spot_set_pair_active a) = spot_set_pair_active_type
type_string (spot_seed_holders a) = spot_seed_holders_type
type_string (spot_finalize_supply a) = spot_finalize_supply_type
type_string (perp_register_asset a) = perp_register_asset_type
type_string (perp_set_oracle a) = perp_set_oracle_type
type_string (perp_set_leverage a) = perp_set_leverage_type
type_string (perp_set_fee_tier a) = perp_set_fee_tier_type
type_string (perp_set_maker_rebate a) = perp_set_maker_rebate_type
type_string (perp_set_min_size a) = perp_set_min_size_type
type_string (perp_set_oi_cap a) = perp_set_oi_cap_type
type_string (perp_activate_market a) = perp_activate_market_type
type_string (perp_deactivate_market a) = perp_deactivate_market_type
type_string (perp_set_sub_deployers a) = perp_set_sub_deployers_type
type_string (perp_set_sub_deployer_perms a) = perp_set_sub_deployer_perms_type
type_string (mip3_set_oracle_px a) = mip3_set_oracle_px_type

unfoldable pub encode_data : TypedAction → List Field
encode_data (send_asset a) = send_asset_data a
encode_data (usd_class_transfer a) = usd_class_transfer_data a
encode_data (withdraw a) = withdraw_data a
encode_data (approve_agent a) = approve_agent_data a
encode_data (set_referrer a) = set_referrer_data a
encode_data (approve_builder_fee a) = approve_builder_fee_data a
encode_data (set_display_name a) = set_display_name_data a
encode_data (set_position_mode a) = set_position_mode_data a
encode_data (user_portfolio_margin a) = user_portfolio_margin_data a
encode_data (convert_to_multi_sig_user a) = convert_to_multi_sig_user_data a
encode_data (multi_sig a) = multi_sig_data a
encode_data (update_leverage a) = update_leverage_data a
encode_data (claim_rewards a) = claim_rewards_data a
encode_data (link_staking_user a) = link_staking_user_data a
encode_data (create_vault a) = create_vault_data a
encode_data (vault_modify a) = vault_modify_data a
encode_data (spot_margin_close a) = spot_margin_close_data a
encode_data (update_isolated_margin a) = update_isolated_margin_data a
encode_data (top_up_isolated_only_margin a) = top_up_isolated_only_margin_data a
encode_data (token_delegate a) = token_delegate_data a
encode_data (vault_transfer a) = vault_transfer_data a
encode_data (vault_withdraw a) = vault_withdraw_data a
encode_data (vault_distribute a) = vault_distribute_data a
encode_data (claim_builder_rewards a) = claim_builder_rewards_data a
encode_data (claim_referral_rewards a) = claim_referral_rewards_data a
encode_data (register_referral_code a) = register_referral_code_data a
encode_data (set_referrer_by_code a) = set_referrer_by_code_data a
encode_data (spot_margin_deposit a) = spot_margin_deposit_data a
encode_data (spot_margin_withdraw a) = spot_margin_withdraw_data a
encode_data (spot_margin_open a) = spot_margin_open_data a
encode_data (earn_deposit a) = earn_deposit_data a
encode_data (earn_withdraw a) = earn_withdraw_data a
encode_data (agent_set_abstraction a) = agent_set_abstraction_data a
encode_data (bridge_withdraw a) = bridge_withdraw_data a
encode_data (core_evm_transfer a) = core_evm_transfer_data a
encode_data (core_evm_transfer_v2 a) = core_evm_transfer_v2_data a
encode_data (send_to_evm_with_data a) = send_to_evm_with_data_data a
encode_data (create_sub_account a) = create_sub_account_data a
encode_data (sub_account_transfer a) = sub_account_transfer_data a
encode_data (sub_account_spot_transfer a) = sub_account_spot_transfer_data a
encode_data (c_deposit a) = c_deposit_data a
encode_data (c_withdraw a) = c_withdraw_data a
encode_data (user_set_abstraction a) = user_set_abstraction_data a
encode_data (priority_bid a) = priority_bid_data a
encode_data (cancel_all_orders a) = cancel_all_orders_data a
encode_data (submit_encrypted_order a) = submit_encrypted_order_data a
encode_data (rfq_request a) = rfq_request_data a
encode_data (rfq_accept a) = rfq_accept_data a
encode_data (rfq_quote a) = rfq_quote_data a
encode_data (fba_submit a) = fba_submit_data a
encode_data (noop a) = noop_data a
encode_data (borrow_lend a) = borrow_lend_data a
encode_data (register_metaliquidity_operator a) = register_metaliquidity_operator_data a
encode_data (spot_register_token a) = spot_register_token_data a
encode_data (spot_register_pair a) = spot_register_pair_data a
encode_data (spot_set_pair_params a) = spot_set_pair_params_data a
encode_data (spot_set_pair_active a) = spot_set_pair_active_data a
encode_data (spot_seed_holders a) = spot_seed_holders_data a
encode_data (spot_finalize_supply a) = spot_finalize_supply_data a
encode_data (perp_register_asset a) = perp_register_asset_data a
encode_data (perp_set_oracle a) = perp_set_oracle_data a
encode_data (perp_set_leverage a) = perp_set_leverage_data a
encode_data (perp_set_fee_tier a) = perp_set_fee_tier_data a
encode_data (perp_set_maker_rebate a) = perp_set_maker_rebate_data a
encode_data (perp_set_min_size a) = perp_set_min_size_data a
encode_data (perp_set_oi_cap a) = perp_set_oi_cap_data a
encode_data (perp_activate_market a) = perp_activate_market_data a
encode_data (perp_deactivate_market a) = perp_deactivate_market_data a
encode_data (perp_set_sub_deployers a) = perp_set_sub_deployers_data a
encode_data (perp_set_sub_deployer_perms a) = perp_set_sub_deployer_perms_data a
encode_data (mip3_set_oracle_px a) = mip3_set_oracle_px_data a
