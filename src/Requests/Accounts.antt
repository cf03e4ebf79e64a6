-- ===== src/Requests/Accounts.antt =====
-- The calls about agents, referrers, fees, names and multisig accounts (src/rest/exchange_typed.rs).
use metaflux_client_rust.Base.{
  ℕ, String, List, [], ◌∷◌, Bool, false, Option, none, some, Result, ok, ◌>>◌, ◌==◌, if◌then◌else◌,
}
use metaflux_client_rust.Json.{bool, number, string}
use metaflux_client_rust.Signing.{Bytes, Address}
use metaflux_client_rust.Signing.Actions.{
  approve_agent, set_referrer, approve_builder_fee, set_display_name, set_position_mode,
  user_portfolio_margin, convert_to_multi_sig_user, multi_sig, claim_builder_rewards,
  claim_referral_rewards, register_referral_code, set_referrer_by_code, noop,
}
use metaflux_client_rust.Requests.{
  json_object, set_field, posted_hex, posted_hexes, RequestError, validate_referral_code, Build,
  wire_action, post_signed_typed,
}

module _ {R : Type 0} (post : Build → R) where
  abbrev pub register_referral_code_typed : String → Result RequestError R
  register_referral_code_typed code =
      validate_referral_code code
      >> ok (
          post_signed_typed post λ chain nonce. (
            register_referral_code (record { metaflux_chain = chain; code = code; nonce = nonce }),
            "register_referral_code",
            json_object (("code", string code) ∷ []),
          ))

  abbrev pub set_referrer_by_code_typed : String → Result RequestError R
  set_referrer_by_code_typed code =
      validate_referral_code code
      >> ok (
          post_signed_typed post λ chain nonce. (
            set_referrer_by_code (record { metaflux_chain = chain; code = code; nonce = nonce }),
            "set_referrer_by_code",
            json_object (("code", string code) ∷ []),
          ))

  abbrev pub set_display_name_typed : String → R
  set_display_name_typed display_name = post_signed_typed post λ chain nonce. (
    set_display_name
        (record { metaflux_chain = chain; display_name = display_name; nonce = nonce }),
    "set_display_name",
    json_object (("display_name", string display_name) ∷ []),
  )

  abbrev pub user_portfolio_margin_typed : Bool → R
  user_portfolio_margin_typed enroll = post_signed_typed post λ chain nonce. (
    user_portfolio_margin (record { metaflux_chain = chain; enroll = enroll; nonce = nonce }),
    "user_portfolio_margin",
    json_object (("enroll", bool enroll) ∷ []),
  )

  abbrev pub pm_unenroll_typed : R
  pm_unenroll_typed = post λ chain nonce. (
    user_portfolio_margin (record { metaflux_chain = chain; enroll = false; nonce = nonce }),
    json_object (("type", string "pm_unenroll") ∷ []),
  )

  abbrev pub noop_typed : R
  noop_typed = post λ chain nonce. (
    noop (record { metaflux_chain = chain; nonce = nonce }),
    json_object (("type", string "noop") ∷ []),
  )

  abbrev pub claim_broker_rewards_typed : R
  claim_broker_rewards_typed = post_signed_typed post λ chain nonce. (
    claim_builder_rewards (record { metaflux_chain = chain; nonce = nonce }),
    "claim_broker_rewards",
    json_object ([]),
  )

  abbrev pub claim_referral_rewards_typed : R
  claim_referral_rewards_typed = post_signed_typed post λ chain nonce. (
    claim_referral_rewards (record { metaflux_chain = chain; nonce = nonce }),
    "claim_referral_rewards",
    json_object ([]),
  )

  abbrev pub claim_builder_rewards_typed : R
  claim_builder_rewards_typed = claim_broker_rewards_typed

module _ {R : Type 0} (hex_encode : Bytes → String) (post : Build → R) where
  abbrev pub approve_agent_typed : Address → String → ℕ → R
  approve_agent_typed agent_address agent_name expires_at_ms = post_signed_typed post λ chain nonce.
      (
        approve_agent (record {
          metaflux_chain = chain;
          agent_address = agent_address;
          agent_name = agent_name;
          expires_at_ms = expires_at_ms;
          nonce = nonce;
        }),
        "approve_agent",
        if expires_at_ms == 0
            then json_object
                (("agent", posted_hex hex_encode agent_address) ∷ ("name", string agent_name) ∷ [])
            else set_field "expires_at_ms" (number expires_at_ms) (
                json_object (
                  ("agent", posted_hex hex_encode agent_address)
                  ∷ ("name", string agent_name)
                  ∷ [])),
      )

  abbrev pub set_referrer_typed : Address → R
  set_referrer_typed referrer = post_signed_typed post λ chain nonce. (
    set_referrer (record { metaflux_chain = chain; referrer = referrer; nonce = nonce }),
    "set_referrer",
    json_object (("referrer", posted_hex hex_encode referrer) ∷ []),
  )

  abbrev pub approve_broker_fee_typed : Address → ℕ → R
  approve_broker_fee_typed broker max_fee_bps = post_signed_typed post λ chain nonce. (
    approve_builder_fee (record {
      metaflux_chain = chain;
      builder = broker;
      max_fee_bps = max_fee_bps;
      nonce = nonce;
    }),
    "approve_broker_fee",
    json_object (("builder", posted_hex hex_encode broker) ∷ ("max_bps", number max_fee_bps) ∷ []),
  )

  abbrev pub set_position_mode_bound : Option Address → Bool → R
  set_position_mode_bound owner hedge = post_signed_typed post λ chain nonce. (
    set_position_mode
        (record { metaflux_chain = chain; owner = owner; hedge = hedge; nonce = nonce }),
    "set_position_mode",
    elim owner [
      | none ↦ json_object (("hedge", bool hedge) ∷ [])
      | some o ↦
          set_field "owner" (posted_hex hex_encode o) (json_object (("hedge", bool hedge) ∷ []))
    ],
  )

  abbrev pub convert_to_multi_sig_user_typed : List Address → ℕ → R
  convert_to_multi_sig_user_typed signers threshold = post_signed_typed post λ chain nonce. (
    convert_to_multi_sig_user (record {
      metaflux_chain = chain;
      signers = signers;
      threshold = threshold;
      nonce = nonce;
    }),
    "convert_to_multi_sig_user",
    json_object
        (("signers", posted_hexes hex_encode signers) ∷ ("threshold", number threshold) ∷ []),
  )

  abbrev pub approve_builder_fee_typed : Address → ℕ → R
  approve_builder_fee_typed builder max_fee_bps = approve_broker_fee_typed builder max_fee_bps

  abbrev pub set_position_mode_typed : Bool → R
  set_position_mode_typed hedge = set_position_mode_bound none hedge

  abbrev pub set_position_mode_typed_as : Address → Bool → R
  set_position_mode_typed_as owner hedge = set_position_mode_bound (some owner) hedge

-- The call that signs at a nonce it is given.
module _ {R : Type 0} (hex_encode : Bytes → String) (post_at : ℕ → Build → R) where
  abbrev pub multi_sig_typed : Address → Bytes → List Bytes → ℕ → R
  multi_sig_typed user inner_action_blob signatures inner_nonce = post_at inner_nonce λ chain nonce.
      (
        multi_sig (record {
          metaflux_chain = chain;
          user = user;
          inner_action_blob = inner_action_blob;
          signatures = signatures;
          nonce = nonce;
        }),
        wire_action "multi_sig" (
            json_object (
              ("user", posted_hex hex_encode user)
              ∷ ("inner_action_blob", posted_hex hex_encode inner_action_blob)
              ∷ ("signatures", posted_hexes hex_encode signatures)
              ∷ ("nonce", number nonce)
              ∷ [])),
      )
