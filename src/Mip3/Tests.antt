-- ===== src/Mip3/Tests.antt =====
-- Runs of the deploy builders (src/mip3).
use metaflux_client_rust.Base.{[], ◌∷◌, ◌≡◌, ◌↔◌, refl, ok}
use metaflux_client_rust.Base.Integers.{pos, negsuc}
use metaflux_client_rust.Mip3.Oracle.{
  OracleSource, binance, okx, bybit, coinbase, kraken, kucoin, gate, mexc, bitget, mtf_spot, sort,
}
use metaflux_client_rust.Mip3.Perp.{
  PerpDeployBuilder, build_set_oracle, validate, with_oracle_sources,
}
use metaflux_client_rust.Mip3.Spot.{SpotDeployBuilder}
use metaflux_client_rust.Mip3.Counting.{count, Sorted}
use metaflux_client_rust.Mip3.Canonical.{build_set_oracle-canonical}
use metaflux_client_rust.Mip3.Validity.{IsValid, validate_iff}

abbrev eth_perp : PerpDeployBuilder
eth_perp = record {
  asset_name = "ETH";
  asset_symbol = "DEX:ETH";
  decimals = 8;
  oracle_sources = gate ∷ binance ∷ okx ∷ [];
  max_leverage = 50;
  taker_fee_bps = pos 45;
  maker_fee_bps = negsuc 9;
  min_order_size = 10000;
  deployer_fee_bps = 0;
  dex_name = "DEX";
}

abbrev eth_usdc : SpotDeployBuilder
eth_usdc = record {
  base_asset_id = 3;
  quote_asset_id = 0;
  name = "ETH/USDC";
  taker_fee_bps = pos 30;
  maker_fee_bps = negsuc 4;
  min_notional_cents = 1000;
}

abbrev reordered : PerpDeployBuilder
reordered = with_oracle_sources (okx ∷ gate ∷ binance ∷ []) eth_perp

same_counts :
    (a : OracleSource) → count a eth_perp.oracle_sources ≡ count a reordered.oracle_sources
same_counts = elim [
  | binance ↦ refl
  | okx ↦ refl
  | bybit ↦ refl
  | coinbase ↦ refl
  | kraken ↦ refl
  | kucoin ↦ refl
  | gate ↦ refl
  | mexc ↦ refl
  | bitget ↦ refl
  | mtf_spot ↦ refl
]

validate_iff_example : (validate eth_perp ≡ ok tt) ↔ IsValid eth_perp
validate_iff_example = validate_iff eth_perp

build_set_oracle-canonical_example :
    (build_set_oracle eth_perp ≡ build_set_oracle reordered) × Sorted (sort eth_perp.oracle_sources)
build_set_oracle-canonical_example = build_set_oracle-canonical eth_perp reordered refl same_counts
