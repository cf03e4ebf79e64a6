-- ===== src/Requests/Staking.antt =====
-- The calls about staking, sub-accounts and abstractions (src/rest/exchange_typed.rs).
use metaflux_client_rust.Base.{
  ℕ, String, [], ◌∷◌, Bool, Option, none, some, if◌then◌else◌, unwrap_or,
}
use metaflux_client_rust.Json.{bool, number, string}
use metaflux_client_rust.Signing.{Bytes, Address}
use metaflux_client_rust.Signing.Actions.{
  claim_rewards, link_staking_user, token_delegate, c_deposit, c_withdraw, create_sub_account,
  sub_account_transfer, sub_account_spot_transfer, agent_set_abstraction, user_set_abstraction,
}
use metaflux_client_rust.Requests.{
  json_object, set_field, posted_hex, is_some, is_zero_address, Build, post_signed_typed,
}

module _ {R : Type 0} (post : Build → R) where
  abbrev pub create_sub_account_typed : String → Option ℕ → Bool → R
  create_sub_account_typed name explicit_index shared_stp_group =
      post_signed_typed post λ chain nonce. (
        create_sub_account (record {
          metaflux_chain = chain;
          name = name;
          has_explicit_index = (is_some explicit_index);
          explicit_index = (unwrap_or explicit_index 0);
          shared_stp_group = shared_stp_group;
          nonce = nonce;
        }),
        "create_sub_account",
        elim explicit_index [
          | none ↦
              json_object (("name", string name) ∷ ("shared_stp_group", bool shared_stp_group) ∷ [])
          | some idx ↦ set_field "explicit_index" (number idx) (
              json_object
                (("name", string name) ∷ ("shared_stp_group", bool shared_stp_group) ∷ []))
        ],
      )

  abbrev pub sub_account_transfer_typed : ℕ → Bool → String → R
  sub_account_transfer_typed sub_index deposit amount = post_signed_typed post λ chain nonce. (
    sub_account_transfer (record {
      metaflux_chain = chain;
      sub_index = sub_index;
      deposit = deposit;
      amount = amount;
      nonce = nonce;
    }),
    "sub_account_transfer",
    json_object (
        ("sub_index", number sub_index)
        ∷ ("deposit", bool deposit)
        ∷ ("amount", string amount)
        ∷ []),
  )

  abbrev pub sub_account_spot_transfer_typed : ℕ → ℕ → Bool → String → R
  sub_account_spot_transfer_typed sub_index token deposit amount =
      post_signed_typed post λ chain nonce. (
        sub_account_spot_transfer (record {
          metaflux_chain = chain;
          sub_index = sub_index;
          token = token;
          deposit = deposit;
          amount = amount;
          nonce = nonce;
        }),
        "sub_account_spot_transfer",
        json_object (
            ("sub_index", number sub_index)
            ∷ ("token", number token)
            ∷ ("deposit", bool deposit)
            ∷ ("amount", string amount)
            ∷ []),
      )

  abbrev pub c_deposit_typed : String → R
  c_deposit_typed amount = post_signed_typed post λ chain nonce. (
    c_deposit (record { metaflux_chain = chain; amount = amount; nonce = nonce }),
    "c_deposit",
    json_object (("amount", string amount) ∷ []),
  )

  abbrev pub c_withdraw_typed : String → R
  c_withdraw_typed amount = post_signed_typed post λ chain nonce. (
    c_withdraw (record { metaflux_chain = chain; amount = amount; nonce = nonce }),
    "c_withdraw",
    json_object (("amount", string amount) ∷ []),
  )

  abbrev pub user_set_abstraction_typed : ℕ → String → R
  user_set_abstraction_typed kind value = post_signed_typed post λ chain nonce. (
    user_set_abstraction
        (record { metaflux_chain = chain; kind = kind; value = value; nonce = nonce }),
    "user_set_abstraction",
    json_object (("kind", number kind) ∷ ("value", string value) ∷ []),
  )

module _ {R : Type 0} (hex_encode : Bytes → String) (post : Build → R) where
  abbrev pub claim_rewards_typed : Address → R
  claim_rewards_typed validator = post_signed_typed post λ chain nonce. (
    claim_rewards (record { metaflux_chain = chain; validator = validator; nonce = nonce }),
    "claim_rewards",
    if is_zero_address validator
        then json_object []
        else json_object (("validator", posted_hex hex_encode validator) ∷ []),
  )

  abbrev pub link_staking_user_typed : Address → R
  link_staking_user_typed target = post_signed_typed post λ chain nonce. (
    link_staking_user (record { metaflux_chain = chain; target = target; nonce = nonce }),
    "link_staking_user",
    json_object (("target", posted_hex hex_encode target) ∷ []),
  )

  abbrev pub token_delegate_typed : Address → String → Bool → ℕ → R
  token_delegate_typed validator amount is_undelegate lock_months =
      post_signed_typed post λ chain nonce. (
        token_delegate (record {
          metaflux_chain = chain;
          validator = validator;
          amount = amount;
          is_undelegate = is_undelegate;
          lock_months = lock_months;
          nonce = nonce;
        }),
        "token_delegate",
        json_object (
            ("validator", posted_hex hex_encode validator)
            ∷ ("amount", string amount)
            ∷ ("is_undelegate", bool is_undelegate)
            ∷ ("lock_months", number lock_months)
            ∷ []),
      )

  abbrev pub agent_set_abstraction_typed : Address → ℕ → String → R
  agent_set_abstraction_typed user kind value = post_signed_typed post λ chain nonce. (
    agent_set_abstraction
        (record { metaflux_chain = chain; user = user; kind = kind; value = value; nonce = nonce }),
    "agent_set_abstraction",
    json_object (
        ("user", posted_hex hex_encode user)
        ∷ ("kind", number kind)
        ∷ ("value", string value)
        ∷ []),
  )
