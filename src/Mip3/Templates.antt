-- ===== src/Mip3/Templates.antt =====
-- The presets (src/mip3/templates.rs). A preset that failed its validation would panic: it stands
-- for an error here.
use text.Mathlib.Text.{◌==◌ as str_eq}
use metaflux_client_rust.Base.{
  String, Bool, true, false, List, [], ◌∷◌, Option, none, some, if◌then◌else◌, Result, retain,
}
use metaflux_client_rust.Base.Integers.{pos, negsuc}
use metaflux_client_rust.Mip3.Oracle.{OracleSource, coinbase, kraken, all_sources}
use metaflux_client_rust.Mip3.Perp.{PerpDeployBuilder, ValidationError, new_perp}

abbrev pub btc_standard : Result ValidationError PerpDeployBuilder
btc_standard = new_perp "BTC" "BTC" 8 all_sources 50 (pos 45) (negsuc 9) 10000 0

abbrev pub eth_standard : Result ValidationError PerpDeployBuilder
eth_standard = new_perp "ETH" "ETH" 8 all_sources 50 (pos 45) (negsuc 9) 10000 0

abbrev pub lists_long_tail : OracleSource → Bool
lists_long_tail coinbase = false
lists_long_tail kraken = false
lists_long_tail _ = true

abbrev pub long_tail_default : Result ValidationError PerpDeployBuilder
long_tail_default =
    new_perp "ALT-PERP" "ALT" 8 (retain lists_long_tail all_sources) 10 (pos 80) (pos 0) 10000 5

abbrev pub mm_friendly : Result ValidationError PerpDeployBuilder
mm_friendly = new_perp "MM-PERP" "MM" 8 all_sources 20 (pos 30) (negsuc 19) 1000 0

abbrev pub preset_names : List String
preset_names = "btc_standard" ∷ "eth_standard" ∷ "long_tail_default" ∷ "mm_friendly" ∷ []

-- `preset_by_name`, with what `expect` would meet.
unfoldable pub preset_by_name : String → Option (Result ValidationError PerpDeployBuilder)
preset_by_name name =
    if str_eq "btc_standard" name
    then some btc_standard
    else if str_eq "eth_standard" name
    then some eth_standard
    else if str_eq "long_tail_default" name
    then some long_tail_default
    else if str_eq "mm_friendly" name
    then some mm_friendly
    else none
