-- ===== src/Signing/Actions/SpotDeploy.antt =====
-- The signed actions about the deployment of spot tokens and pairs
-- (src/wallet/typed.rs: variants of `TypedAction`, arms of `encode_data`, type strings).
use metaflux_client_rust.Base.{ℕ, String, List, [], ◌∷◌, Bool}
use metaflux_client_rust.Signing.{
  Address, Field, field, uint64, uint32, uint8, boolean, utf8_string, addresses, strings,
}

abbrev pub spot_register_token_type : String
spot_register_token_type =
    "MetaFluxTransaction:SpotRegisterToken(string metafluxChain,string symbol,uint8 szDecimals,uint8 weiDecimals,string maxDeployFee,uint64 nonce)"

pub record SpotRegisterToken : Type 0 where
  pub metaflux_chain : String
  pub symbol : String
  pub sz_decimals : ℕ
  pub wei_decimals : ℕ
  pub max_deploy_fee : String
  pub nonce : ℕ

abbrev pub spot_register_token_data : SpotRegisterToken → List Field
spot_register_token_data a =
    field utf8_string a.metaflux_chain
    ∷ field utf8_string a.symbol
    ∷ field uint8 a.sz_decimals
    ∷ field uint8 a.wei_decimals
    ∷ field utf8_string a.max_deploy_fee
    ∷ field uint64 a.nonce
    ∷ []

abbrev pub spot_register_pair_type : String
spot_register_pair_type =
    "MetaFluxTransaction:SpotRegisterPair(string metafluxChain,uint32 base,uint32 quote,string name,string maxDeployFee,uint64 nonce)"

pub record SpotRegisterPair : Type 0 where
  pub metaflux_chain : String
  pub base : ℕ
  pub quote : ℕ
  pub name : String
  pub max_deploy_fee : String
  pub nonce : ℕ

abbrev pub spot_register_pair_data : SpotRegisterPair → List Field
spot_register_pair_data a =
    field utf8_string a.metaflux_chain
    ∷ field uint32 a.base
    ∷ field uint32 a.quote
    ∷ field utf8_string a.name
    ∷ field utf8_string a.max_deploy_fee
    ∷ field uint64 a.nonce
    ∷ []

abbrev pub spot_set_pair_params_type : String
spot_set_pair_params_type =
    "MetaFluxTransaction:SpotSetPairParams(string metafluxChain,uint32 pair,uint32 takerFeeDbps,uint32 makerFeeDbps,uint64 minNotionalCents,uint64 nonce)"

pub record SpotSetPairParams : Type 0 where
  pub metaflux_chain : String
  pub pair : ℕ
  pub taker_fee_dbps : ℕ
  pub maker_fee_dbps : ℕ
  pub min_notional_cents : ℕ
  pub nonce : ℕ

abbrev pub spot_set_pair_params_data : SpotSetPairParams → List Field
spot_set_pair_params_data a =
    field utf8_string a.metaflux_chain
    ∷ field uint32 a.pair
    ∷ field uint32 a.taker_fee_dbps
    ∷ field uint32 a.maker_fee_dbps
    ∷ field uint64 a.min_notional_cents
    ∷ field uint64 a.nonce
    ∷ []

abbrev pub spot_set_pair_active_type : String
spot_set_pair_active_type =
    "MetaFluxTransaction:SpotSetPairActive(string metafluxChain,uint32 pair,bool active,uint64 nonce)"

pub record SpotSetPairActive : Type 0 where
  pub metaflux_chain : String
  pub pair : ℕ
  pub active : Bool
  pub nonce : ℕ

abbrev pub spot_set_pair_active_data : SpotSetPairActive → List Field
spot_set_pair_active_data a =
    field utf8_string a.metaflux_chain
    ∷ field uint32 a.pair
    ∷ field boolean a.active
    ∷ field uint64 a.nonce
    ∷ []

abbrev pub spot_seed_holders_type : String
spot_seed_holders_type =
    "MetaFluxTransaction:SpotSeedHolders(string metafluxChain,uint32 asset,address[] holders,string[] amounts,uint64 nonce)"

pub record SpotSeedHolders : Type 0 where
  pub metaflux_chain : String
  pub asset : ℕ
  pub holders : List Address
  pub amounts : List String
  pub nonce : ℕ

abbrev pub spot_seed_holders_data : SpotSeedHolders → List Field
spot_seed_holders_data a =
    field utf8_string a.metaflux_chain
    ∷ field uint32 a.asset
    ∷ field addresses a.holders
    ∷ field strings a.amounts
    ∷ field uint64 a.nonce
    ∷ []

abbrev pub spot_finalize_supply_type : String
spot_finalize_supply_type =
    "MetaFluxTransaction:SpotFinalizeSupply(string metafluxChain,uint32 asset,string maxSupply,uint64 nonce)"

pub record SpotFinalizeSupply : Type 0 where
  pub metaflux_chain : String
  pub asset : ℕ
  pub max_supply : String
  pub nonce : ℕ

abbrev pub spot_finalize_supply_data : SpotFinalizeSupply → List Field
spot_finalize_supply_data a =
    field utf8_string a.metaflux_chain
    ∷ field uint32 a.asset
    ∷ field utf8_string a.max_supply
    ∷ field uint64 a.nonce
    ∷ []
