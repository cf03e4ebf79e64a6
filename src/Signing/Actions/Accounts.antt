-- ===== src/Signing/Actions/Accounts.antt =====
-- The signed actions about agents, referrers, fees, names and multisig accounts
-- (src/wallet/typed.rs: variants of `TypedAction`, arms of `encode_data`, type strings).
use metaflux_client_rust.Base.{ℕ, String, List, [], ◌∷◌, Bool, Option}
use metaflux_client_rust.Signing.{
  Bytes, Address, Field, field, uint64, uint32, uint16, boolean, address, utf8_string, octets,
  addresses, octet_strings, bind_owner,
}

abbrev pub approve_agent_type : String
approve_agent_type =
    "MetaFluxTransaction:ApproveAgent(string metafluxChain,address agentAddress,string agentName,uint64 expiresAtMs,uint64 nonce)"

pub record ApproveAgent : Type 0 where
  pub metaflux_chain : String
  pub agent_address : Address
  pub agent_name : String
  pub expires_at_ms : ℕ
  pub nonce : ℕ

abbrev pub approve_agent_data : ApproveAgent → List Field
approve_agent_data a =
    field utf8_string a.metaflux_chain
    ∷ field address a.agent_address
    ∷ field utf8_string a.agent_name
    ∷ field uint64 a.expires_at_ms
    ∷ field uint64 a.nonce
    ∷ []

abbrev pub set_referrer_type : String
set_referrer_type =
    "MetaFluxTransaction:SetReferrer(string metafluxChain,address referrer,uint64 nonce)"

pub record SetReferrer : Type 0 where
  pub metaflux_chain : String
  pub referrer : Address
  pub nonce : ℕ

abbrev pub set_referrer_data : SetReferrer → List Field
set_referrer_data a =
    field utf8_string a.metaflux_chain ∷ field address a.referrer ∷ field uint64 a.nonce ∷ []

abbrev pub approve_builder_fee_type : String
approve_builder_fee_type =
    "MetaFluxTransaction:ApproveBuilderFee(string metafluxChain,address builder,uint16 maxFeeBps,uint64 nonce)"

pub record ApproveBuilderFee : Type 0 where
  pub metaflux_chain : String
  pub builder : Address
  pub max_fee_bps : ℕ
  pub nonce : ℕ

abbrev pub approve_builder_fee_data : ApproveBuilderFee → List Field
approve_builder_fee_data a =
    field utf8_string a.metaflux_chain
    ∷ field address a.builder
    ∷ field uint16 a.max_fee_bps
    ∷ field uint64 a.nonce
    ∷ []

abbrev pub set_display_name_type : String
set_display_name_type =
    "MetaFluxTransaction:SetDisplayName(string metafluxChain,string displayName,uint64 nonce)"

pub record SetDisplayName : Type 0 where
  pub metaflux_chain : String
  pub display_name : String
  pub nonce : ℕ

abbrev pub set_display_name_data : SetDisplayName → List Field
set_display_name_data a =
    field utf8_string a.metaflux_chain
    ∷ field utf8_string a.display_name
    ∷ field uint64 a.nonce
    ∷ []

abbrev pub set_position_mode_type : String
set_position_mode_type =
    "MetaFluxTransaction:SetPositionMode(string metafluxChain,bool hedge,uint64 nonce)"

abbrev pub set_position_mode_with_owner_type : String
set_position_mode_with_owner_type =
    "MetaFluxTransaction:SetPositionMode(string metafluxChain,address owner,bool hedge,uint64 nonce)"

pub record SetPositionMode : Type 0 where
  pub metaflux_chain : String
  pub owner : Option Address
  pub hedge : Bool
  pub nonce : ℕ

abbrev pub set_position_mode_data : SetPositionMode → List Field
set_position_mode_data a =
    bind_owner
      (field utf8_string a.metaflux_chain ∷ field boolean a.hedge ∷ field uint64 a.nonce ∷ [])
      a.owner

abbrev pub user_portfolio_margin_type : String
user_portfolio_margin_type =
    "MetaFluxTransaction:UserPortfolioMargin(string metafluxChain,bool enroll,uint64 nonce)"

pub record UserPortfolioMargin : Type 0 where
  pub metaflux_chain : String
  pub enroll : Bool
  pub nonce : ℕ

abbrev pub user_portfolio_margin_data : UserPortfolioMargin → List Field
user_portfolio_margin_data a =
    field utf8_string a.metaflux_chain ∷ field boolean a.enroll ∷ field uint64 a.nonce ∷ []

abbrev pub convert_to_multi_sig_user_type : String
convert_to_multi_sig_user_type =
    "MetaFluxTransaction:ConvertToMultiSigUser(string metafluxChain,address[] signers,uint32 threshold,uint64 nonce)"

pub record ConvertToMultiSigUser : Type 0 where
  pub metaflux_chain : String
  pub signers : List Address
  pub threshold : ℕ
  pub nonce : ℕ

abbrev pub convert_to_multi_sig_user_data : ConvertToMultiSigUser → List Field
convert_to_multi_sig_user_data a =
    field utf8_string a.metaflux_chain
    ∷ field addresses a.signers
    ∷ field uint32 a.threshold
    ∷ field uint64 a.nonce
    ∷ []

abbrev pub multi_sig_type : String
multi_sig_type =
    "MetaFluxTransaction:MultiSig(string metafluxChain,address user,bytes innerActionBlob,bytes[] signatures,uint64 nonce)"

pub record MultiSig : Type 0 where
  pub metaflux_chain : String
  pub user : Address
  pub inner_action_blob : Bytes
  pub signatures : List Bytes
  pub nonce : ℕ

abbrev pub multi_sig_data : MultiSig → List Field
multi_sig_data a =
    field utf8_string a.metaflux_chain
    ∷ field address a.user
    ∷ field octets a.inner_action_blob
    ∷ field octet_strings a.signatures
    ∷ field uint64 a.nonce
    ∷ []

abbrev pub claim_builder_rewards_type : String
claim_builder_rewards_type =
    "MetaFluxTransaction:ClaimBuilderRewards(string metafluxChain,uint64 nonce)"

pub record ClaimBuilderRewards : Type 0 where
  pub metaflux_chain : String
  pub nonce : ℕ

abbrev pub claim_builder_rewards_data : ClaimBuilderRewards → List Field
claim_builder_rewards_data a = field utf8_string a.metaflux_chain ∷ field uint64 a.nonce ∷ []

abbrev pub claim_referral_rewards_type : String
claim_referral_rewards_type =
    "MetaFluxTransaction:ClaimReferralRewards(string metafluxChain,uint64 nonce)"

pub record ClaimReferralRewards : Type 0 where
  pub metaflux_chain : String
  pub nonce : ℕ

abbrev pub claim_referral_rewards_data : ClaimReferralRewards → List Field
claim_referral_rewards_data a = field utf8_string a.metaflux_chain ∷ field uint64 a.nonce ∷ []

abbrev pub register_referral_code_type : String
register_referral_code_type =
    "MetaFluxTransaction:RegisterReferralCode(string metafluxChain,string code,uint64 nonce)"

pub record RegisterReferralCode : Type 0 where
  pub metaflux_chain : String
  pub code : String
  pub nonce : ℕ

abbrev pub register_referral_code_data : RegisterReferralCode → List Field
register_referral_code_data a =
    field utf8_string a.metaflux_chain ∷ field utf8_string a.code ∷ field uint64 a.nonce ∷ []

abbrev pub set_referrer_by_code_type : String
set_referrer_by_code_type =
    "MetaFluxTransaction:SetReferrerByCode(string metafluxChain,string code,uint64 nonce)"

pub record SetReferrerByCode : Type 0 where
  pub metaflux_chain : String
  pub code : String
  pub nonce : ℕ

abbrev pub set_referrer_by_code_data : SetReferrerByCode → List Field
set_referrer_by_code_data a =
    field utf8_string a.metaflux_chain ∷ field utf8_string a.code ∷ field uint64 a.nonce ∷ []

abbrev pub noop_type : String
noop_type = "MetaFluxTransaction:Noop(string metafluxChain,uint64 nonce)"

pub record Noop : Type 0 where
  pub metaflux_chain : String
  pub nonce : ℕ

abbrev pub noop_words : String → ℕ → List Field
noop_words chain nonce = field utf8_string chain ∷ field uint64 nonce ∷ []

abbrev pub noop_data : Noop → List Field
noop_data a = noop_words a.metaflux_chain a.nonce
