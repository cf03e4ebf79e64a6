-- ===== src/Signing/Actions/Margin.antt =====
-- The signed actions about leverage, isolated margin and spot margin
-- (src/wallet/typed.rs: variants of `TypedAction`, arms of `encode_data`, type strings).
use metaflux_client_rust.Base.{ℕ, String, List, [], ◌∷◌, Bool, Option}
use metaflux_client_rust.Signing.{
  Address, Field, field, uint64, uint32, boolean, utf8_string, bind_owner,
}

abbrev pub update_leverage_type : String
update_leverage_type =
    "MetaFluxTransaction:UpdateLeverage(string metafluxChain,uint32 asset,uint32 leverage,bool isIsolated,uint64 nonce)"

abbrev pub update_leverage_with_owner_type : String
update_leverage_with_owner_type =
    "MetaFluxTransaction:UpdateLeverage(string metafluxChain,address owner,uint32 asset,uint32 leverage,bool isIsolated,uint64 nonce)"

pub record UpdateLeverage : Type 0 where
  pub metaflux_chain : String
  pub owner : Option Address
  pub asset : ℕ
  pub leverage : ℕ
  pub is_isolated : Bool
  pub nonce : ℕ

abbrev pub update_leverage_data : UpdateLeverage → List Field
update_leverage_data a =
    bind_owner
      (field utf8_string a.metaflux_chain
        ∷ field uint32 a.asset
        ∷ field uint32 a.leverage
        ∷ field boolean a.is_isolated
        ∷ field uint64 a.nonce
        ∷ [])
      a.owner

abbrev pub update_isolated_margin_type : String
update_isolated_margin_type =
    "MetaFluxTransaction:UpdateIsolatedMargin(string metafluxChain,uint32 asset,string delta,uint64 nonce)"

abbrev pub update_isolated_margin_with_owner_type : String
update_isolated_margin_with_owner_type =
    "MetaFluxTransaction:UpdateIsolatedMargin(string metafluxChain,address owner,uint32 asset,string delta,uint64 nonce)"

pub record UpdateIsolatedMargin : Type 0 where
  pub metaflux_chain : String
  pub owner : Option Address
  pub asset : ℕ
  pub delta : String
  pub nonce : ℕ

abbrev pub update_isolated_margin_data : UpdateIsolatedMargin → List Field
update_isolated_margin_data a =
    bind_owner
      (field utf8_string a.metaflux_chain
        ∷ field uint32 a.asset
        ∷ field utf8_string a.delta
        ∷ field uint64 a.nonce
        ∷ [])
      a.owner

abbrev pub top_up_isolated_only_margin_type : String
top_up_isolated_only_margin_type =
    "MetaFluxTransaction:TopUpIsolatedOnlyMargin(string metafluxChain,uint32 asset,string amount,uint64 nonce)"

abbrev pub top_up_isolated_only_margin_with_owner_type : String
top_up_isolated_only_margin_with_owner_type =
    "MetaFluxTransaction:TopUpIsolatedOnlyMargin(string metafluxChain,address owner,uint32 asset,string amount,uint64 nonce)"

pub record TopUpIsolatedOnlyMargin : Type 0 where
  pub metaflux_chain : String
  pub owner : Option Address
  pub asset : ℕ
  pub amount : String
  pub nonce : ℕ

abbrev pub top_up_isolated_only_margin_data : TopUpIsolatedOnlyMargin → List Field
top_up_isolated_only_margin_data a =
    bind_owner
      (field utf8_string a.metaflux_chain
        ∷ field uint32 a.asset
        ∷ field utf8_string a.amount
        ∷ field uint64 a.nonce
        ∷ [])
      a.owner

abbrev pub spot_margin_deposit_type : String
spot_margin_deposit_type =
    "MetaFluxTransaction:SpotMarginDeposit(string metafluxChain,uint32 pair,string amount,uint64 nonce)"

pub record SpotMarginDeposit : Type 0 where
  pub metaflux_chain : String
  pub pair : ℕ
  pub amount : String
  pub nonce : ℕ

abbrev pub spot_margin_deposit_data : SpotMarginDeposit → List Field
spot_margin_deposit_data a =
    field utf8_string a.metaflux_chain
    ∷ field uint32 a.pair
    ∷ field utf8_string a.amount
    ∷ field uint64 a.nonce
    ∷ []

abbrev pub spot_margin_withdraw_type : String
spot_margin_withdraw_type =
    "MetaFluxTransaction:SpotMarginWithdraw(string metafluxChain,uint32 pair,string amount,uint64 nonce)"

pub record SpotMarginWithdraw : Type 0 where
  pub metaflux_chain : String
  pub pair : ℕ
  pub amount : String
  pub nonce : ℕ

abbrev pub spot_margin_withdraw_data : SpotMarginWithdraw → List Field
spot_margin_withdraw_data a =
    field utf8_string a.metaflux_chain
    ∷ field uint32 a.pair
    ∷ field utf8_string a.amount
    ∷ field uint64 a.nonce
    ∷ []

abbrev pub spot_margin_open_type : String
spot_margin_open_type =
    "MetaFluxTransaction:SpotMarginOpen(string metafluxChain,uint32 pair,uint64 size,uint64 limitPx,string borrow,uint64 nonce)"

pub record SpotMarginOpen : Type 0 where
  pub metaflux_chain : String
  pub pair : ℕ
  pub size : ℕ
  pub limit_px : ℕ
  pub borrow : String
  pub nonce : ℕ

abbrev pub spot_margin_open_data : SpotMarginOpen → List Field
spot_margin_open_data a =
    field utf8_string a.metaflux_chain
    ∷ field uint32 a.pair
    ∷ field uint64 a.size
    ∷ field uint64 a.limit_px
    ∷ field utf8_string a.borrow
    ∷ field uint64 a.nonce
    ∷ []

abbrev pub spot_margin_close_type : String
spot_margin_close_type =
    "MetaFluxTransaction:SpotMarginClose(string metafluxChain,uint32 pair,uint64 limitPx,uint64 nonce)"

pub record SpotMarginClose : Type 0 where
  pub metaflux_chain : String
  pub pair : ℕ
  pub limit_px : ℕ
  pub nonce : ℕ

abbrev pub spot_margin_close_data : SpotMarginClose → List Field
spot_margin_close_data a =
    field utf8_string a.metaflux_chain
    ∷ field uint32 a.pair
    ∷ field uint64 a.limit_px
    ∷ field uint64 a.nonce
    ∷ []
