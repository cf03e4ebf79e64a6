-- ===== src/Mip3/Oracle.antt =====
-- `OracleSource` (src/mip3/params.rs) and its sort.
use metaflux_client_rust.Base.{ℕ, Bool, List, [], ◌∷◌, Option, none, some, if◌then◌else◌, leb, ◌==◌}

pub data OracleSource : Type 0 where
  binance okx bybit coinbase kraken kucoin gate mexc bitget mtf_spot : OracleSource

-- `OracleSource::all`.
abbrev pub all_sources : List OracleSource
all_sources =
    binance ∷ okx ∷ bybit ∷ coinbase ∷ kraken ∷ kucoin ∷ gate ∷ mexc ∷ bitget ∷ mtf_spot ∷ []

-- The derived `Ord` compares the places in the declaration.
abbrev pub rank : OracleSource → ℕ
rank binance = 0
rank okx = 1
rank bybit = 2
rank coinbase = 3
rank kraken = 4
rank kucoin = 5
rank gate = 6
rank mexc = 7
rank bitget = 8
rank mtf_spot = 9

-- The derived `==`.
abbrev pub same : OracleSource → OracleSource → Bool
same a b = rank a == rank b

-- `sources.sort()`.
abbrev pub insert : OracleSource → List OracleSource → List OracleSource
insert s [] = s ∷ []
insert s (r ∷ rs) = if leb (rank s) (rank r) then s ∷ r ∷ rs else r ∷ insert s rs

abbrev pub sort : List OracleSource → List OracleSource
sort [] = []
sort (s ∷ ss) = insert s (sort ss)

-- `for w in sorted.windows(2) { if w[0] == w[1] }`: the first source that is followed by itself.
abbrev pub first_duplicate : List OracleSource → Option OracleSource
first_duplicate [] = none
first_duplicate (s ∷ []) = none
first_duplicate (s ∷ r ∷ rs) = if same s r then some s else first_duplicate (r ∷ rs)
