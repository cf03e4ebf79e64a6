-- ===== src/Mip3/Action.antt =====
-- `Action` (src/mip3/params.rs): its wire JSON and its discriminator. A signed number is given by
-- the constructors of the integers; how serde writes a 128-bit number is a parameter.
use metaflux_client_rust.Base.{ℕ, String, List, map}
use metaflux_client_rust.Base.Integers.{ℤ, pos, negsuc}
use metaflux_client_rust.Json.{Value, number, negative, string, array, object, end, field, of_list}
use metaflux_client_rust.Mip3.Oracle.{
  OracleSource, binance, okx, bybit, coinbase, kraken, kucoin, gate, mexc, bitget, mtf_spot,
}

pub data Action : Type 0 where
  -- name, symbol, decimals and dex name
  perp_register_asset : String → String → ℕ → String → Action
  perp_set_oracle : String → List OracleSource → Action
  perp_set_leverage : String → ℕ → Action
  -- taker, maker and deployer fee
  perp_set_fees : String → ℤ → ℤ → ℕ → Action
  perp_set_min_order_size : String → ℕ → Action
  perp_set_funding_params perp_register_market perp_activate_market : String → Action
  -- base, quote and name
  spot_register_pair : ℕ → ℕ → String → Action
  spot_set_fees : String → ℤ → ℤ → Action
  spot_set_min_notional : String → ℕ → Action
  spot_activate_pair : String → Action

-- The names of the serde attribute, in snake case.
abbrev pub source_name : OracleSource → String
source_name binance = "binance"
source_name okx = "okx"
source_name bybit = "bybit"
source_name coinbase = "coinbase"
source_name kraken = "kraken"
source_name kucoin = "kucoin"
source_name gate = "gate"
source_name mexc = "mexc"
source_name bitget = "bitget"
source_name mtf_spot = "mtf_spot"

abbrev pub integer : ℤ → Value
integer (pos n) = number n
integer (negsuc n) = negative n

abbrev pub sources_json : List OracleSource → Value
sources_json ss = array (of_list (map (λ s. string (source_name s)) ss))

module _ (u128_json : ℕ → Value) where
  unfoldable pub to_json : Action → Value
  to_json (perp_register_asset asset_name asset_symbol decimals dex_name) = object (
      field "type" (string "perp_register_asset") (
        field "asset_name" (string asset_name) (
          field "asset_symbol" (string asset_symbol)
            (field "decimals" (number decimals) (field "name" (string dex_name) end)))))
  to_json (perp_set_oracle asset_name oracle_sources) = object (
      field "type" (string "perp_set_oracle") (
        field "asset_name" (string asset_name)
          (field "oracle_sources" (sources_json oracle_sources) end)))
  to_json (perp_set_leverage asset_name max_leverage) = object (
      field "type" (string "perp_set_leverage")
        (field "asset_name" (string asset_name) (field "max_leverage" (number max_leverage) end)))
  to_json (perp_set_fees asset_name taker maker deployer) = object (
      field "type" (string "perp_set_fees") (
        field "asset_name" (string asset_name) (
          field "taker_fee_bps" (integer taker) (
            field "maker_fee_bps" (integer maker)
              (field "deployer_fee_bps" (number deployer) end)))))
  to_json (perp_set_min_order_size asset_name size) = object (
      field "type" (string "perp_set_min_order_size")
        (field "asset_name" (string asset_name) (field "min_order_size" (u128_json size) end)))
  to_json (perp_set_funding_params asset_name) =
      object (
        field "type" (string "perp_set_funding_params")
          (field "asset_name" (string asset_name) end))
  to_json (perp_register_market asset_name) =
      object
        (field "type" (string "perp_register_market") (field "asset_name" (string asset_name) end))
  to_json (perp_activate_market asset_name) =
      object
        (field "type" (string "perp_activate_market") (field "asset_name" (string asset_name) end))
  to_json (spot_register_pair base quoted name) = object (
      field "type" (string "spot_register_pair") (
        field "base_asset_id" (number base)
          (field "quote_asset_id" (number quoted) (field "name" (string name) end))))
  to_json (spot_set_fees name taker maker) = object (
      field "type" (string "spot_set_fees") (
        field "name" (string name)
          (field "taker_fee_bps" (integer taker) (field "maker_fee_bps" (integer maker) end))))
  to_json (spot_set_min_notional name n) = object (
      field "type" (string "spot_set_min_notional")
        (field "name" (string name) (field "min_notional_cents" (u128_json n) end)))
  to_json (spot_activate_pair name) =
      object (field "type" (string "spot_activate_pair") (field "name" (string name) end))

unfoldable pub type_id : Action → String
type_id (perp_register_asset a s d n) = "perp_register_asset"
type_id (perp_set_oracle a s) = "perp_set_oracle"
type_id (perp_set_leverage a l) = "perp_set_leverage"
type_id (perp_set_fees a t m d) = "perp_set_fees"
type_id (perp_set_min_order_size a n) = "perp_set_min_order_size"
type_id (perp_set_funding_params a) = "perp_set_funding_params"
type_id (perp_register_market a) = "perp_register_market"
type_id (perp_activate_market a) = "perp_activate_market"
type_id (spot_register_pair b q n) = "spot_register_pair"
type_id (spot_set_fees n t m) = "spot_set_fees"
type_id (spot_set_min_notional n c) = "spot_set_min_notional"
type_id (spot_activate_pair n) = "spot_activate_pair"
