-- ===== src/Mip3/Canonical.antt =====
-- `build_set_oracle` (src/mip3/params.rs) emits the sources in one order, whatever order they were
-- given in.
use metaflux_client_rust.Base.{
  ℕ, zero, suc, ◌+◌, ◌≤◌, List, [], ◌∷◌, ltb, ◌≡◌, refl, sym, ap, ◌∙◌, inl, inr, arith, Bool-cases,
}
use metaflux_client_rust.Mip3.Oracle.{
  OracleSource, binance, okx, bybit, coinbase, kraken, kucoin, gate, mexc, bitget, mtf_spot,
  all_sources, rank, same, sort,
}
use metaflux_client_rust.Mip3.Perp.{PerpDeployBuilder, build_set_oracle}
use metaflux_client_rust.Mip3.Action.{perp_set_oracle}
use metaflux_client_rust.Mip3.Counting.{
  one_if, count, AtLeast, Sorted, count-sort, sort-Sorted, count-below, AtLeast-weaken,
}

abbrev pick : ℕ → List OracleSource → OracleSource
pick n [] = mtf_spot
pick zero (s ∷ ss) = s
pick (suc n) (s ∷ ss) = pick n ss

abbrev unrank : ℕ → OracleSource
unrank n = pick n all_sources

unrank-rank : (s : OracleSource) → unrank (rank s) ≡ s
unrank-rank binance = refl
unrank-rank okx = refl
unrank-rank bybit = refl
unrank-rank coinbase = refl
unrank-rank kraken = refl
unrank-rank kucoin = refl
unrank-rank gate = refl
unrank-rank mexc = refl
unrank-rank bitget = refl
unrank-rank mtf_spot = refl

rank_inj : (a b : OracleSource) → rank a ≡ rank b → a ≡ b
rank_inj a b h = sym (unrank-rank a) ∙ ap unrank h ∙ unrank-rank b

head-le :
    (x y : OracleSource) (ys : List OracleSource)
    → AtLeast (rank y) ys
    → 1 ≤ count x (y ∷ ys)
    → rank y ≤ rank x
head-le x y ys a h = elim (Bool-cases (ltb (rank x) (rank y))) [
  | inl e ↦
      let low : rank x + 1 ≤ rank y = ground (arith, e) in
      omega (arith, h, count-below x (y ∷ ys) (low, AtLeast-weaken (rank x + 1) (rank y) ys low a))
  | inr e ↦ ground (arith, e)
]

listed : (x : OracleSource) (xs : List OracleSource) → 1 ≤ count x (x ∷ xs)
listed x xs = ground arith

canonical :
    (xs ys : List OracleSource)
    → Sorted xs
    → Sorted ys
    → ((a : OracleSource) → count a xs ≡ count a ys)
    → xs ≡ ys
canonical [] [] d e h = refl
canonical [] (y ∷ ys) d e h = absurd (omega (arith, h y, listed y ys))
canonical (x ∷ xs) [] d e h = absurd (omega (arith, h x, listed x xs))
canonical (x ∷ xs) (y ∷ ys) (a, d) (b, e) h =
    let down = head-le x y ys b (omega (arith, h x, listed x xs)) in
    let up = head-le y x xs a (omega (arith, h y, listed y ys)) in
    let head = rank_inj x y (omega (arith, down, up)) in
    let tail = canonical xs ys d e (λ c. omega (arith, h c, ap (λ z. one_if (same c z)) head)) in
    ap (λ z. z ∷ xs) head ∙ ap (λ zs. y ∷ zs) tail

-- Two builders of one asset that list the same sources, each as often, in whatever order, emit the
-- same `perp_set_oracle` action, and its sources are in the order of `OracleSource::all`.
pub build_set_oracle-canonical :
    (b c : PerpDeployBuilder)
    → b.asset_name ≡ c.asset_name
    → ((a : OracleSource) → count a b.oracle_sources ≡ count a c.oracle_sources)
    → (build_set_oracle b ≡ build_set_oracle c) × Sorted (sort b.oracle_sources)
build_set_oracle-canonical b c n h =
    let same_order =
      canonical (sort b.oracle_sources) (sort c.oracle_sources) (sort-Sorted b.oracle_sources)
        (sort-Sorted c.oracle_sources)
        (λ a. count-sort a b.oracle_sources ∙ h a ∙ sym (count-sort a c.oracle_sources)) in
    (
      ap (λ x. perp_set_oracle x (sort b.oracle_sources)) n
          ∙ ap (λ x. perp_set_oracle c.asset_name x) same_order,
      sort-Sorted b.oracle_sources,
    )
