-- ===== src/Signing/Actions/Staking.antt =====
-- The signed actions about staking, sub-accounts and abstractions
-- (src/wallet/typed.rs: variants of `TypedAction`, arms of `encode_data`, type strings).
use metaflux_client_rust.Base.{ℕ, String, List, [], ◌∷◌, Bool}
use metaflux_client_rust.Signing.{
  Address, Field, field, uint64, uint32, uint8, boolean, address, utf8_string,
}

abbrev pub claim_rewards_type : String
claim_rewards_type =
    "MetaFluxTransaction:ClaimRewards(string metafluxChain,address validator,uint64 nonce)"

pub record ClaimRewards : Type 0 where
  pub metaflux_chain : String
  pub validator : Address
  pub nonce : ℕ

abbrev pub claim_rewards_data : ClaimRewards → List Field
claim_rewards_data a =
    field utf8_string a.metaflux_chain ∷ field address a.validator ∷ field uint64 a.nonce ∷ []

abbrev pub link_staking_user_type : String
link_staking_user_type =
    "MetaFluxTransaction:LinkStakingUser(string metafluxChain,address target,uint64 nonce)"

pub record LinkStakingUser : Type 0 where
  pub metaflux_chain : String
  pub target : Address
  pub nonce : ℕ

abbrev pub link_staking_user_data : LinkStakingUser → List Field
link_staking_user_data a =
    field utf8_string a.metaflux_chain ∷ field address a.target ∷ field uint64 a.nonce ∷ []

abbrev pub token_delegate_type : String
token_delegate_type =
    "MetaFluxTransaction:TokenDelegate(string metafluxChain,address validator,string amount,bool isUndelegate,uint8 lockMonths,uint64 nonce)"

pub record TokenDelegate : Type 0 where
  pub metaflux_chain : String
  pub validator : Address
  pub amount : String
  pub is_undelegate : Bool
  pub lock_months : ℕ
  pub nonce : ℕ

abbrev pub token_delegate_data : TokenDelegate → List Field
token_delegate_data a =
    field utf8_string a.metaflux_chain
    ∷ field address a.validator
    ∷ field utf8_string a.amount
    ∷ field boolean a.is_undelegate
    ∷ field uint8 a.lock_months
    ∷ field uint64 a.nonce
    ∷ []

abbrev pub c_deposit_type : String
c_deposit_type = "MetaFluxTransaction:CDeposit(string metafluxChain,string amount,uint64 nonce)"

pub record CDeposit : Type 0 where
  pub metaflux_chain : String
  pub amount : String
  pub nonce : ℕ

abbrev pub staking_move_words : String → String → ℕ → List Field
staking_move_words chain amount nonce =
    field utf8_string chain ∷ field utf8_string amount ∷ field uint64 nonce ∷ []

abbrev pub c_deposit_data : CDeposit → List Field
c_deposit_data a = staking_move_words a.metaflux_chain a.amount a.nonce

abbrev pub c_withdraw_type : String
c_withdraw_type = "MetaFluxTransaction:CWithdraw(string metafluxChain,string amount,uint64 nonce)"

pub record CWithdraw : Type 0 where
  pub metaflux_chain : String
  pub amount : String
  pub nonce : ℕ

abbrev pub c_withdraw_data : CWithdraw → List Field
c_withdraw_data a = staking_move_words a.metaflux_chain a.amount a.nonce

abbrev pub create_sub_account_type : String
create_sub_account_type =
    "MetaFluxTransaction:CreateSubAccount(string metafluxChain,string name,bool hasExplicitIndex,uint32 explicitIndex,bool sharedStpGroup,uint64 nonce)"

pub record CreateSubAccount : Type 0 where
  pub metaflux_chain : String
  pub name : String
  pub has_explicit_index : Bool
  pub explicit_index : ℕ
  pub shared_stp_group : Bool
  pub nonce : ℕ

abbrev pub create_sub_account_words : String → String → Bool → ℕ → Bool → ℕ → List Field
create_sub_account_words chain name has_explicit_index explicit_index shared_stp_group nonce =
    field utf8_string chain
    ∷ field utf8_string name
    ∷ field boolean has_explicit_index
    ∷ field uint32 explicit_index
    ∷ field boolean shared_stp_group
    ∷ field uint64 nonce
    ∷ []

abbrev pub create_sub_account_data : CreateSubAccount → List Field
create_sub_account_data a =
    create_sub_account_words a.metaflux_chain a.name a.has_explicit_index a.explicit_index
      a.shared_stp_group a.nonce

abbrev pub sub_account_transfer_type : String
sub_account_transfer_type =
    "MetaFluxTransaction:SubAccountTransfer(string metafluxChain,uint32 subIndex,bool deposit,string amount,uint64 nonce)"

pub record SubAccountTransfer : Type 0 where
  pub metaflux_chain : String
  pub sub_index : ℕ
  pub deposit : Bool
  pub amount : String
  pub nonce : ℕ

abbrev pub sub_account_transfer_words : String → ℕ → Bool → String → ℕ → List Field
sub_account_transfer_words chain sub_index deposit amount nonce =
    field utf8_string chain
    ∷ field uint32 sub_index
    ∷ field boolean deposit
    ∷ field utf8_string amount
    ∷ field uint64 nonce
    ∷ []

abbrev pub sub_account_transfer_data : SubAccountTransfer → List Field
sub_account_transfer_data a =
    sub_account_transfer_words a.metaflux_chain a.sub_index a.deposit a.amount a.nonce

abbrev pub sub_account_spot_transfer_type : String
sub_account_spot_transfer_type =
    "MetaFluxTransaction:SubAccountSpotTransfer(string metafluxChain,uint32 subIndex,uint32 token,bool deposit,string amount,uint64 nonce)"

pub record SubAccountSpotTransfer : Type 0 where
  pub metaflux_chain : String
  pub sub_index : ℕ
  pub token : ℕ
  pub deposit : Bool
  pub amount : String
  pub nonce : ℕ

abbrev pub sub_account_spot_transfer_words : String → ℕ → ℕ → Bool → String → ℕ → List Field
sub_account_spot_transfer_words chain sub_index token deposit amount nonce =
    field utf8_string chain
    ∷ field uint32 sub_index
    ∷ field uint32 token
    ∷ field boolean deposit
    ∷ field utf8_string amount
    ∷ field uint64 nonce
    ∷ []

abbrev pub sub_account_spot_transfer_data : SubAccountSpotTransfer → List Field
sub_account_spot_transfer_data a =
    sub_account_spot_transfer_words a.metaflux_chain a.sub_index a.token a.deposit a.amount a.nonce

abbrev pub agent_set_abstraction_type : String
agent_set_abstraction_type =
    "MetaFluxTransaction:AgentSetAbstraction(string metafluxChain,address user,uint8 kind,string value,uint64 nonce)"

pub record AgentSetAbstraction : Type 0 where
  pub metaflux_chain : String
  pub user : Address
  pub kind : ℕ
  pub value : String
  pub nonce : ℕ

abbrev pub agent_set_abstraction_data : AgentSetAbstraction → List Field
agent_set_abstraction_data a =
    field utf8_string a.metaflux_chain
    ∷ field address a.user
    ∷ field uint8 a.kind
    ∷ field utf8_string a.value
    ∷ field uint64 a.nonce
    ∷ []

abbrev pub user_set_abstraction_type : String
user_set_abstraction_type =
    "MetaFluxTransaction:UserSetAbstraction(string metafluxChain,uint8 kind,string value,uint64 nonce)"

pub record UserSetAbstraction : Type 0 where
  pub metaflux_chain : String
  pub kind : ℕ
  pub value : String
  pub nonce : ℕ

abbrev pub user_set_abstraction_words : String → ℕ → String → ℕ → List Field
user_set_abstraction_words chain kind value nonce =
    field utf8_string chain ∷ field uint8 kind ∷ field utf8_string value ∷ field uint64 nonce ∷ []

abbrev pub user_set_abstraction_data : UserSetAbstraction → List Field
user_set_abstraction_data a = user_set_abstraction_words a.metaflux_chain a.kind a.value a.nonce
