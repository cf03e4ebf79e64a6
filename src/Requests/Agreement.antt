-- ===== src/Requests/Agreement.antt =====
-- The actions that the calls sign against the bodies that they post (src/rest/exchange_typed.rs).
mod Cases
use metaflux_client_rust.Base.{
  ℕ, String, List, [], ◌∷◌, Bool, true, false, not, Option, none, some, Result-cases, inl, inr, ◌≡◌,
  refl, ◌≤◌, reject_if, is_empty, length, ◌==◌,
}
use metaflux_client_rust.Signing.{Bytes, Address}
use metaflux_client_rust.Signing.Actions.{type_string, encode_data}
use metaflux_client_rust.Requests.{
  base, arbitrum, core_bid, core_ask, lend, unlend, borrow, repay, no_holders, lengths_differ,
  validate_referral_code,
}
use metaflux_client_rust.Requests.Calls.{
  Call, request, send_asset_call, usd_class_transfer_call, withdraw_call, approve_agent_call,
  set_referrer_call, register_referral_code_call, set_referrer_by_code_call,
  approve_broker_fee_call, approve_builder_fee_call, set_display_name_call, set_position_mode_call,
  set_position_mode_as_call, user_portfolio_margin_call, convert_to_multi_sig_user_call,
  update_leverage_call, update_leverage_as_call, claim_rewards_call, link_staking_user_call,
  create_vault_call, vault_modify_call, spot_margin_close_call, update_isolated_margin_call,
  update_isolated_margin_as_call, top_up_isolated_only_margin_call,
  top_up_isolated_only_margin_as_call, token_delegate_call, vault_transfer_call,
  vault_withdraw_call, spot_margin_deposit_call, spot_margin_withdraw_call, spot_margin_open_call,
  earn_deposit_call, earn_withdraw_call, agent_set_abstraction_call, mb_withdraw_call,
  core_evm_transfer_call, send_to_evm_with_data_call, create_sub_account_call,
  sub_account_transfer_call, sub_account_spot_transfer_call, c_deposit_call, c_withdraw_call,
  user_set_abstraction_call, priority_bid_call, cancel_all_orders_call, cancel_all_orders_as_call,
  submit_encrypted_order_call, pm_unenroll_call, noop_call, rfq_request_call, rfq_accept_call,
  rfq_request_as_call, rfq_accept_as_call, fba_submit_call, vault_distribute_call, rfq_quote_call,
  rfq_quote_as_call, claim_broker_rewards_call, claim_builder_rewards_call,
  claim_referral_rewards_call, borrow_lend_call, register_metaliquidity_operator_call,
  spot_register_token_call, spot_register_pair_call, spot_set_pair_params_call,
  spot_set_pair_active_call, spot_seed_holders_call, spot_finalize_supply_call,
  perp_register_asset_call, perp_set_oracle_call, perp_set_leverage_call, perp_set_fee_tier_call,
  perp_set_maker_rebate_call, perp_set_min_size_call, perp_set_oi_cap_call,
  perp_activate_market_call, perp_deactivate_market_call, perp_set_sub_deployers_call,
  perp_set_sub_deployer_perms_call, mip3_set_oracle_px_call, multi_sig_call,
}
use metaflux_client_rust.Requests.Carried.{IsFaithful}
use metaflux_client_rust.Requests.Agreement.Cases.{
  claim_rewards_carried, approve_agent_carried, register_metaliquidity_operator_carried,
  create_vault_carried, vault_modify_carried,
}

-- a vault is of one of the two kinds that have a name
abbrev pub IsTagged : Call → Type 0
IsTagged (create_vault_call name lock_period_secs kind) = kind ≤ 1
IsTagged _ = Unit

-- Every call either is refused by its own checks or posts a body that carries the action it signs: the
-- tag of the body names the action of the type string, and with the chain tag and the nonce of the
-- envelope, each member that the type string declares is told by the posted parameters under the
-- member's name, absent and null standing for the default and names for their codes. A vault is taken
-- to be of kind 0 or 1.
pub request-IsFaithful :
    (hex_encode : Bytes → String) (c : Call)
    → IsTagged c
    → IsFaithful hex_encode (request hex_encode c)
unfolding request type_string encode_data
request-IsFaithful hex_encode
      (send_asset_call source_dex destination_dex asset destination amount to_perp) h =
    λ chain nonce. (refl, (refl, (refl, (refl, (refl, (refl, (refl, (refl, (refl, tt)))))))))
request-IsFaithful hex_encode (usd_class_transfer_call ntl to_perp) h =
    λ chain nonce. (refl, (refl, (refl, (refl, (refl, tt)))))
request-IsFaithful hex_encode (withdraw_call asset amount destination_chain_id use_cctp) h =
    λ chain nonce. (refl, (refl, (refl, (refl, (refl, (refl, (refl, tt)))))))
request-IsFaithful hex_encode (approve_agent_call agent_address agent_name expires_at_ms) h =
    approve_agent_carried hex_encode agent_address agent_name expires_at_ms
request-IsFaithful hex_encode (set_referrer_call referrer) h =
    λ chain nonce. (refl, (refl, (refl, (refl, tt))))
request-IsFaithful hex_encode (register_referral_code_call code) h =
    elim (Result-cases (validate_referral_code code)) [
      | inl (u, e) ↦ rw e (λ chain nonce. (refl, (refl, (refl, (refl, tt)))))
      | inr (x, e) ↦ rw e tt
    ]
request-IsFaithful hex_encode (set_referrer_by_code_call code) h =
    elim (Result-cases (validate_referral_code code)) [
      | inl (u, e) ↦ rw e (λ chain nonce. (refl, (refl, (refl, (refl, tt)))))
      | inr (x, e) ↦ rw e tt
    ]
request-IsFaithful hex_encode (approve_broker_fee_call broker max_fee_bps) h =
    λ chain nonce. (refl, (refl, (refl, (refl, (refl, tt)))))
request-IsFaithful hex_encode (approve_builder_fee_call builder max_fee_bps) h =
    λ chain nonce. (refl, (refl, (refl, (refl, (refl, tt)))))
request-IsFaithful hex_encode (set_display_name_call display_name) h =
    λ chain nonce. (refl, (refl, (refl, (refl, tt))))
request-IsFaithful hex_encode (set_position_mode_call hedge) h =
    λ chain nonce. (refl, (refl, (refl, (refl, tt))))
request-IsFaithful hex_encode (set_position_mode_as_call owner hedge) h =
    λ chain nonce. (refl, (refl, (refl, (refl, (refl, tt)))))
request-IsFaithful hex_encode (user_portfolio_margin_call enroll) h =
    λ chain nonce. (refl, (refl, (refl, (refl, tt))))
request-IsFaithful hex_encode (convert_to_multi_sig_user_call signers threshold) h =
    λ chain nonce. (refl, (refl, (refl, (refl, (refl, tt)))))
request-IsFaithful hex_encode (update_leverage_call asset leverage is_isolated) h =
    λ chain nonce. (refl, (refl, (refl, (refl, (refl, (refl, tt))))))
request-IsFaithful hex_encode (update_leverage_as_call owner asset leverage is_isolated) h =
    λ chain nonce. (refl, (refl, (refl, (refl, (refl, (refl, (refl, tt)))))))
request-IsFaithful hex_encode (claim_rewards_call validator) h =
    claim_rewards_carried hex_encode validator
request-IsFaithful hex_encode (link_staking_user_call target) h =
    λ chain nonce. (refl, (refl, (refl, (refl, tt))))
request-IsFaithful hex_encode (create_vault_call name lock_period_secs kind) h =
    create_vault_carried hex_encode name lock_period_secs kind h
request-IsFaithful hex_encode (vault_modify_call params) h = vault_modify_carried hex_encode params
request-IsFaithful hex_encode (spot_margin_close_call pair limit_px) h =
    λ chain nonce. (refl, (refl, (refl, (refl, (refl, tt)))))
request-IsFaithful hex_encode (update_isolated_margin_call asset delta) h =
    λ chain nonce. (refl, (refl, (refl, (refl, (refl, tt)))))
request-IsFaithful hex_encode (update_isolated_margin_as_call owner asset delta) h =
    λ chain nonce. (refl, (refl, (refl, (refl, (refl, (refl, tt))))))
request-IsFaithful hex_encode (top_up_isolated_only_margin_call asset amount) h =
    λ chain nonce. (refl, (refl, (refl, (refl, (refl, tt)))))
request-IsFaithful hex_encode (top_up_isolated_only_margin_as_call owner asset amount) h =
    λ chain nonce. (refl, (refl, (refl, (refl, (refl, (refl, tt))))))
request-IsFaithful hex_encode (token_delegate_call validator amount is_undelegate lock_months) h =
    λ chain nonce. (refl, (refl, (refl, (refl, (refl, (refl, (refl, tt)))))))
request-IsFaithful hex_encode (vault_transfer_call vault_id deposit amount) h =
    λ chain nonce. (refl, (refl, (refl, (refl, (refl, (refl, tt))))))
request-IsFaithful hex_encode (vault_withdraw_call vault_id shares) h =
    λ chain nonce. (refl, (refl, (refl, (refl, (refl, tt)))))
request-IsFaithful hex_encode (spot_margin_deposit_call pair amount) h =
    λ chain nonce. (refl, (refl, (refl, (refl, (refl, tt)))))
request-IsFaithful hex_encode (spot_margin_withdraw_call pair amount) h =
    λ chain nonce. (refl, (refl, (refl, (refl, (refl, tt)))))
request-IsFaithful hex_encode (spot_margin_open_call pair size limit_px borrow_amount) h =
    λ chain nonce. (refl, (refl, (refl, (refl, (refl, (refl, (refl, tt)))))))
request-IsFaithful hex_encode (earn_deposit_call asset amount) h =
    λ chain nonce. (refl, (refl, (refl, (refl, (refl, tt)))))
request-IsFaithful hex_encode (earn_withdraw_call asset shares) h =
    λ chain nonce. (refl, (refl, (refl, (refl, (refl, tt)))))
request-IsFaithful hex_encode (agent_set_abstraction_call user kind value) h =
    λ chain nonce. (refl, (refl, (refl, (refl, (refl, (refl, tt))))))
request-IsFaithful hex_encode (mb_withdraw_call base asset amount dst_addr) h =
    λ chain nonce. (refl, (refl, (refl, (refl, (refl, (refl, (refl, tt)))))))
request-IsFaithful hex_encode (mb_withdraw_call arbitrum asset amount dst_addr) h =
    λ chain nonce. (refl, (refl, (refl, (refl, (refl, (refl, (refl, tt)))))))
request-IsFaithful hex_encode (core_evm_transfer_call amount to_evm destination asset) h =
    λ chain nonce. (refl, (refl, (refl, (refl, (refl, (refl, (refl, tt)))))))
request-IsFaithful hex_encode
      (send_to_evm_with_data_call token amount source_dex destination_recipient to_perp
        destination_chain_id payload transfer_nonce)
      h =
    λ chain nonce.
      (refl, (refl, (refl, (refl, (refl, (refl, (refl, (refl, (refl, (refl, (refl, tt)))))))))))
request-IsFaithful hex_encode (create_sub_account_call name none shared_stp_group) h =
    λ chain nonce. (refl, (refl, (refl, (refl, (refl, (refl, (refl, tt)))))))
request-IsFaithful hex_encode (create_sub_account_call name (some explicit_index) shared_stp_group)
      h =
    λ chain nonce. (refl, (refl, (refl, (refl, (refl, (refl, (refl, tt)))))))
request-IsFaithful hex_encode (sub_account_transfer_call sub_index deposit amount) h =
    λ chain nonce. (refl, (refl, (refl, (refl, (refl, (refl, tt))))))
request-IsFaithful hex_encode (sub_account_spot_transfer_call sub_index token deposit amount) h =
    λ chain nonce. (refl, (refl, (refl, (refl, (refl, (refl, (refl, tt)))))))
request-IsFaithful hex_encode (c_deposit_call amount) h =
    λ chain nonce. (refl, (refl, (refl, (refl, tt))))
request-IsFaithful hex_encode (c_withdraw_call amount) h =
    λ chain nonce. (refl, (refl, (refl, (refl, tt))))
request-IsFaithful hex_encode (user_set_abstraction_call kind value) h =
    λ chain nonce. (refl, (refl, (refl, (refl, (refl, tt)))))
request-IsFaithful hex_encode (priority_bid_call asset bid_bps) h =
    λ chain nonce. (refl, (refl, (refl, (refl, (refl, tt)))))
request-IsFaithful hex_encode (cancel_all_orders_call none) h =
    λ chain nonce. (refl, (refl, (refl, (refl, (refl, tt)))))
request-IsFaithful hex_encode (cancel_all_orders_call (some asset)) h =
    λ chain nonce. (refl, (refl, (refl, (refl, (refl, tt)))))
request-IsFaithful hex_encode (cancel_all_orders_as_call owner none) h =
    λ chain nonce. (refl, (refl, (refl, (refl, (refl, (refl, tt))))))
request-IsFaithful hex_encode (cancel_all_orders_as_call owner (some asset)) h =
    λ chain nonce. (refl, (refl, (refl, (refl, (refl, (refl, tt))))))
request-IsFaithful hex_encode
      (submit_encrypted_order_call ciphertext commitment threshold target_block reveal_deadline_ms)
      h =
    λ chain nonce. (refl, (refl, (refl, (refl, (refl, (refl, (refl, (refl, tt))))))))
request-IsFaithful hex_encode (pm_unenroll_call) h =
    λ chain nonce. (refl, (refl, (refl, (refl, tt))))
request-IsFaithful hex_encode (noop_call) h = λ chain nonce. (refl, (refl, (refl, tt)))
request-IsFaithful hex_encode (rfq_request_call market core_bid size none expiry_ms none) h =
    λ chain nonce.
      (refl, (refl, (refl, (refl, (refl, (refl, (refl, (refl, (refl, (refl, (refl, tt)))))))))))
request-IsFaithful hex_encode
      (rfq_request_call market core_bid size none expiry_ms (some stp_group)) h =
    λ chain nonce.
      (refl, (refl, (refl, (refl, (refl, (refl, (refl, (refl, (refl, (refl, (refl, tt)))))))))))
request-IsFaithful hex_encode (rfq_request_call market core_bid size (some limit_px) expiry_ms none)
      h =
    λ chain nonce.
      (refl, (refl, (refl, (refl, (refl, (refl, (refl, (refl, (refl, (refl, (refl, tt)))))))))))
request-IsFaithful hex_encode
      (rfq_request_call market core_bid size (some limit_px) expiry_ms (some stp_group)) h =
    λ chain nonce.
      (refl, (refl, (refl, (refl, (refl, (refl, (refl, (refl, (refl, (refl, (refl, tt)))))))))))
request-IsFaithful hex_encode (rfq_request_call market core_ask size none expiry_ms none) h =
    λ chain nonce.
      (refl, (refl, (refl, (refl, (refl, (refl, (refl, (refl, (refl, (refl, (refl, tt)))))))))))
request-IsFaithful hex_encode
      (rfq_request_call market core_ask size none expiry_ms (some stp_group)) h =
    λ chain nonce.
      (refl, (refl, (refl, (refl, (refl, (refl, (refl, (refl, (refl, (refl, (refl, tt)))))))))))
request-IsFaithful hex_encode (rfq_request_call market core_ask size (some limit_px) expiry_ms none)
      h =
    λ chain nonce.
      (refl, (refl, (refl, (refl, (refl, (refl, (refl, (refl, (refl, (refl, (refl, tt)))))))))))
request-IsFaithful hex_encode
      (rfq_request_call market core_ask size (some limit_px) expiry_ms (some stp_group)) h =
    λ chain nonce.
      (refl, (refl, (refl, (refl, (refl, (refl, (refl, (refl, (refl, (refl, (refl, tt)))))))))))
request-IsFaithful hex_encode (rfq_accept_call rfq_id quote_idx size) h =
    λ chain nonce. (refl, (refl, (refl, (refl, (refl, (refl, tt))))))
request-IsFaithful hex_encode (rfq_request_as_call owner market core_bid size none expiry_ms none)
      h =
    λ chain nonce. (
      refl,
      (refl, (refl, (refl, (refl, (refl, (refl, (refl, (refl, (refl, (refl, (refl, tt))))))))))),
    )
request-IsFaithful hex_encode
      (rfq_request_as_call owner market core_bid size none expiry_ms (some stp_group)) h =
    λ chain nonce. (
      refl,
      (refl, (refl, (refl, (refl, (refl, (refl, (refl, (refl, (refl, (refl, (refl, tt))))))))))),
    )
request-IsFaithful hex_encode
      (rfq_request_as_call owner market core_bid size (some limit_px) expiry_ms none) h =
    λ chain nonce. (
      refl,
      (refl, (refl, (refl, (refl, (refl, (refl, (refl, (refl, (refl, (refl, (refl, tt))))))))))),
    )
request-IsFaithful hex_encode
      (rfq_request_as_call owner market core_bid size (some limit_px) expiry_ms (some stp_group))
      h =
    λ chain nonce. (
      refl,
      (refl, (refl, (refl, (refl, (refl, (refl, (refl, (refl, (refl, (refl, (refl, tt))))))))))),
    )
request-IsFaithful hex_encode (rfq_request_as_call owner market core_ask size none expiry_ms none)
      h =
    λ chain nonce. (
      refl,
      (refl, (refl, (refl, (refl, (refl, (refl, (refl, (refl, (refl, (refl, (refl, tt))))))))))),
    )
request-IsFaithful hex_encode
      (rfq_request_as_call owner market core_ask size none expiry_ms (some stp_group)) h =
    λ chain nonce. (
      refl,
      (refl, (refl, (refl, (refl, (refl, (refl, (refl, (refl, (refl, (refl, (refl, tt))))))))))),
    )
request-IsFaithful hex_encode
      (rfq_request_as_call owner market core_ask size (some limit_px) expiry_ms none) h =
    λ chain nonce. (
      refl,
      (refl, (refl, (refl, (refl, (refl, (refl, (refl, (refl, (refl, (refl, (refl, tt))))))))))),
    )
request-IsFaithful hex_encode
      (rfq_request_as_call owner market core_ask size (some limit_px) expiry_ms (some stp_group))
      h =
    λ chain nonce. (
      refl,
      (refl, (refl, (refl, (refl, (refl, (refl, (refl, (refl, (refl, (refl, (refl, tt))))))))))),
    )
request-IsFaithful hex_encode (rfq_accept_as_call owner rfq_id quote_idx size) h =
    λ chain nonce. (refl, (refl, (refl, (refl, (refl, (refl, (refl, tt)))))))
request-IsFaithful hex_encode (fba_submit_call market core_bid size price none) h =
    λ chain nonce. (refl, (refl, (refl, (refl, (refl, (refl, (refl, (refl, (refl, tt)))))))))
request-IsFaithful hex_encode (fba_submit_call market core_bid size price (some stp_group)) h =
    λ chain nonce. (refl, (refl, (refl, (refl, (refl, (refl, (refl, (refl, (refl, tt)))))))))
request-IsFaithful hex_encode (fba_submit_call market core_ask size price none) h =
    λ chain nonce. (refl, (refl, (refl, (refl, (refl, (refl, (refl, (refl, (refl, tt)))))))))
request-IsFaithful hex_encode (fba_submit_call market core_ask size price (some stp_group)) h =
    λ chain nonce. (refl, (refl, (refl, (refl, (refl, (refl, (refl, (refl, (refl, tt)))))))))
request-IsFaithful hex_encode (vault_distribute_call vault_id pnl) h =
    λ chain nonce. (refl, (refl, (refl, (refl, (refl, tt)))))
request-IsFaithful hex_encode (rfq_quote_call rfq_id price max_size valid_until_ms none) h =
    λ chain nonce. (refl, (refl, (refl, (refl, (refl, (refl, (refl, (refl, (refl, tt)))))))))
request-IsFaithful hex_encode (rfq_quote_call rfq_id price max_size valid_until_ms (some stp_group))
      h =
    λ chain nonce. (refl, (refl, (refl, (refl, (refl, (refl, (refl, (refl, (refl, tt)))))))))
request-IsFaithful hex_encode (rfq_quote_as_call owner rfq_id price max_size valid_until_ms none)
      h =
    λ chain nonce.
      (refl, (refl, (refl, (refl, (refl, (refl, (refl, (refl, (refl, (refl, tt))))))))))
request-IsFaithful hex_encode
      (rfq_quote_as_call owner rfq_id price max_size valid_until_ms (some stp_group)) h =
    λ chain nonce.
      (refl, (refl, (refl, (refl, (refl, (refl, (refl, (refl, (refl, (refl, tt))))))))))
request-IsFaithful hex_encode (claim_broker_rewards_call) h =
    λ chain nonce. (refl, (refl, (refl, tt)))
request-IsFaithful hex_encode (claim_builder_rewards_call) h =
    λ chain nonce. (refl, (refl, (refl, tt)))
request-IsFaithful hex_encode (claim_referral_rewards_call) h =
    λ chain nonce. (refl, (refl, (refl, tt)))
request-IsFaithful hex_encode (borrow_lend_call lend amount) h =
    λ chain nonce. (refl, (refl, (refl, (refl, (refl, tt)))))
request-IsFaithful hex_encode (borrow_lend_call unlend amount) h =
    λ chain nonce. (refl, (refl, (refl, (refl, (refl, tt)))))
request-IsFaithful hex_encode (borrow_lend_call borrow amount) h =
    λ chain nonce. (refl, (refl, (refl, (refl, (refl, tt)))))
request-IsFaithful hex_encode (borrow_lend_call repay amount) h =
    λ chain nonce. (refl, (refl, (refl, (refl, (refl, tt)))))
request-IsFaithful hex_encode
      (register_metaliquidity_operator_call vault_id operator allowed expires_at_ms) h =
    register_metaliquidity_operator_carried hex_encode vault_id operator allowed expires_at_ms
request-IsFaithful hex_encode
      (spot_register_token_call symbol sz_decimals wei_decimals max_deploy_fee) h =
    λ chain nonce. (refl, (refl, (refl, (refl, (refl, (refl, (refl, tt)))))))
request-IsFaithful hex_encode (spot_register_pair_call base_token quote name max_deploy_fee) h =
    λ chain nonce. (refl, (refl, (refl, (refl, (refl, (refl, (refl, tt)))))))
request-IsFaithful hex_encode
      (spot_set_pair_params_call pair taker_fee_dbps maker_fee_dbps min_notional_cents) h =
    λ chain nonce. (refl, (refl, (refl, (refl, (refl, (refl, (refl, tt)))))))
request-IsFaithful hex_encode (spot_set_pair_active_call pair active) h =
    λ chain nonce. (refl, (refl, (refl, (refl, (refl, tt)))))
request-IsFaithful hex_encode (spot_seed_holders_call asset holders amounts) h =
    elim (Result-cases (reject_if (is_empty holders) no_holders)) [
      | inl (u, e) ↦
          rw e
            (elim (Result-cases
              (reject_if (not (length holders == length amounts)) lengths_differ)) [
                | inl (u, e) ↦
                    rw e (λ chain nonce. (refl, (refl, (refl, (refl, (refl, (refl, tt)))))))
                | inr (x, e) ↦ rw e tt
              ])
      | inr (x, e) ↦ rw e tt
    ]
request-IsFaithful hex_encode (spot_finalize_supply_call asset max_supply) h =
    λ chain nonce. (refl, (refl, (refl, (refl, (refl, tt)))))
request-IsFaithful hex_encode (perp_register_asset_call symbol decimals name) h =
    λ chain nonce. (refl, (refl, (refl, (refl, (refl, (refl, tt))))))
request-IsFaithful hex_encode (perp_set_oracle_call asset oracle_source_mask) h =
    λ chain nonce. (refl, (refl, (refl, (refl, (refl, tt)))))
request-IsFaithful hex_encode (perp_set_leverage_call asset max_leverage) h =
    λ chain nonce. (refl, (refl, (refl, (refl, (refl, tt)))))
request-IsFaithful hex_encode
      (perp_set_fee_tier_call asset taker_fee_dbps maker_fee_dbps deployer_fee_bps) h =
    λ chain nonce. (refl, (refl, (refl, (refl, (refl, (refl, (refl, tt)))))))
request-IsFaithful hex_encode (perp_set_maker_rebate_call asset rebate_bps) h =
    λ chain nonce. (refl, (refl, (refl, (refl, (refl, tt)))))
request-IsFaithful hex_encode (perp_set_min_size_call asset min_order_size) h =
    λ chain nonce. (refl, (refl, (refl, (refl, (refl, tt)))))
request-IsFaithful hex_encode (perp_set_oi_cap_call asset oi_cap_units) h =
    λ chain nonce. (refl, (refl, (refl, (refl, (refl, tt)))))
request-IsFaithful hex_encode (perp_activate_market_call asset) h =
    λ chain nonce. (refl, (refl, (refl, (refl, tt))))
request-IsFaithful hex_encode (perp_deactivate_market_call asset) h =
    λ chain nonce. (refl, (refl, (refl, (refl, tt))))
request-IsFaithful hex_encode (perp_set_sub_deployers_call asset sub_deployer add) h =
    λ chain nonce. (refl, (refl, (refl, (refl, (refl, (refl, tt))))))
request-IsFaithful hex_encode (perp_set_sub_deployer_perms_call asset sub_deployer permissions) h =
    λ chain nonce. (refl, (refl, (refl, (refl, (refl, (refl, tt))))))
request-IsFaithful hex_encode (mip3_set_oracle_px_call asset px) h =
    λ chain nonce. (refl, (refl, (refl, (refl, (refl, tt)))))
request-IsFaithful hex_encode (multi_sig_call user inner_action_blob signatures inner_nonce) h =
    λ chain nonce. (refl, (refl, (refl, (refl, (refl, (refl, tt))))))
