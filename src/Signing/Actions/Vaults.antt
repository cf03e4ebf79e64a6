-- ===== src/Signing/Actions/Vaults.antt =====
-- The signed actions about vaults, their operators and the earn pools
-- (src/wallet/typed.rs: variants of `TypedAction`, arms of `encode_data`, type strings).
use metaflux_client_rust.Base.{ℕ, String, List, [], ◌∷◌, Bool}
use metaflux_client_rust.Signing.{
  Address, Field, field, uint64, uint32, uint16, uint8, boolean, address, utf8_string,
}

abbrev pub create_vault_type : String
create_vault_type =
    "MetaFluxTransaction:CreateVault(string metafluxChain,string name,uint64 lockPeriodSecs,uint8 kind,uint64 nonce)"

pub record CreateVault : Type 0 where
  pub metaflux_chain : String
  pub name : String
  pub lock_period_secs : ℕ
  pub kind : ℕ
  pub nonce : ℕ

abbrev pub create_vault_data : CreateVault → List Field
create_vault_data a =
    field utf8_string a.metaflux_chain
    ∷ field utf8_string a.name
    ∷ field uint64 a.lock_period_secs
    ∷ field uint8 a.kind
    ∷ field uint64 a.nonce
    ∷ []

abbrev pub vault_modify_type : String
vault_modify_type =
    "MetaFluxTransaction:VaultModify(string metafluxChain,uint64 vaultId,string newName,bool hasNewLockPeriodSecs,uint64 newLockPeriodSecs,bool hasNewManagementFeeBps,uint16 newManagementFeeBps,bool hasNewPaused,bool newPaused,uint64 nonce)"

pub record VaultModify : Type 0 where
  pub metaflux_chain : String
  pub vault_id : ℕ
  pub new_name : String
  pub has_new_lock_period_secs : Bool
  pub new_lock_period_secs : ℕ
  pub has_new_management_fee_bps : Bool
  pub new_management_fee_bps : ℕ
  pub has_new_paused : Bool
  pub new_paused : Bool
  pub nonce : ℕ

abbrev pub vault_modify_data : VaultModify → List Field
vault_modify_data a =
    field utf8_string a.metaflux_chain
    ∷ field uint64 a.vault_id
    ∷ field utf8_string a.new_name
    ∷ field boolean a.has_new_lock_period_secs
    ∷ field uint64 a.new_lock_period_secs
    ∷ field boolean a.has_new_management_fee_bps
    ∷ field uint16 a.new_management_fee_bps
    ∷ field boolean a.has_new_paused
    ∷ field boolean a.new_paused
    ∷ field uint64 a.nonce
    ∷ []

abbrev pub vault_transfer_type : String
vault_transfer_type =
    "MetaFluxTransaction:VaultTransfer(string metafluxChain,uint64 vaultId,bool deposit,string amount,uint64 nonce)"

pub record VaultTransfer : Type 0 where
  pub metaflux_chain : String
  pub vault_id : ℕ
  pub deposit : Bool
  pub amount : String
  pub nonce : ℕ

abbrev pub vault_transfer_data : VaultTransfer → List Field
vault_transfer_data a =
    field utf8_string a.metaflux_chain
    ∷ field uint64 a.vault_id
    ∷ field boolean a.deposit
    ∷ field utf8_string a.amount
    ∷ field uint64 a.nonce
    ∷ []

abbrev pub vault_withdraw_type : String
vault_withdraw_type =
    "MetaFluxTransaction:VaultWithdraw(string metafluxChain,uint64 vaultId,string shares,uint64 nonce)"

pub record VaultWithdraw : Type 0 where
  pub metaflux_chain : String
  pub vault_id : ℕ
  pub shares : String
  pub nonce : ℕ

abbrev pub vault_withdraw_data : VaultWithdraw → List Field
vault_withdraw_data a =
    field utf8_string a.metaflux_chain
    ∷ field uint64 a.vault_id
    ∷ field utf8_string a.shares
    ∷ field uint64 a.nonce
    ∷ []

abbrev pub vault_distribute_type : String
vault_distribute_type =
    "MetaFluxTransaction:VaultDistribute(string metafluxChain,uint64 vaultId,string pnl,uint64 nonce)"

pub record VaultDistribute : Type 0 where
  pub metaflux_chain : String
  pub vault_id : ℕ
  pub pnl : String
  pub nonce : ℕ

abbrev pub vault_distribute_data : VaultDistribute → List Field
vault_distribute_data a =
    field utf8_string a.metaflux_chain
    ∷ field uint64 a.vault_id
    ∷ field utf8_string a.pnl
    ∷ field uint64 a.nonce
    ∷ []

abbrev pub register_metaliquidity_operator_type : String
register_metaliquidity_operator_type =
    "MetaFluxTransaction:RegisterMetaliquidityOperator(string metafluxChain,uint64 vaultId,address operator,bool allowed,uint64 expiresAtMs,uint64 nonce)"

pub record RegisterMetaliquidityOperator : Type 0 where
  pub metaflux_chain : String
  pub vault_id : ℕ
  pub operator : Address
  pub allowed : Bool
  pub expires_at_ms : ℕ
  pub nonce : ℕ

abbrev pub register_metaliquidity_operator_data : RegisterMetaliquidityOperator → List Field
register_metaliquidity_operator_data a =
    field utf8_string a.metaflux_chain
    ∷ field uint64 a.vault_id
    ∷ field address a.operator
    ∷ field boolean a.allowed
    ∷ field uint64 a.expires_at_ms
    ∷ field uint64 a.nonce
    ∷ []

abbrev pub earn_deposit_type : String
earn_deposit_type =
    "MetaFluxTransaction:EarnDeposit(string metafluxChain,uint32 asset,string amount,uint64 nonce)"

pub record EarnDeposit : Type 0 where
  pub metaflux_chain : String
  pub asset : ℕ
  pub amount : String
  pub nonce : ℕ

abbrev pub earn_deposit_data : EarnDeposit → List Field
earn_deposit_data a =
    field utf8_string a.metaflux_chain
    ∷ field uint32 a.asset
    ∷ field utf8_string a.amount
    ∷ field uint64 a.nonce
    ∷ []

abbrev pub earn_withdraw_type : String
earn_withdraw_type =
    "MetaFluxTransaction:EarnWithdraw(string metafluxChain,uint32 asset,string shares,uint64 nonce)"

pub record EarnWithdraw : Type 0 where
  pub metaflux_chain : String
  pub asset : ℕ
  pub shares : String
  pub nonce : ℕ

abbrev pub earn_withdraw_data : EarnWithdraw → List Field
earn_withdraw_data a =
    field utf8_string a.metaflux_chain
    ∷ field uint32 a.asset
    ∷ field utf8_string a.shares
    ∷ field uint64 a.nonce
    ∷ []
