-- ===== src/Mip3/Validity.antt =====
-- What `validate` accepts in the two builders (src/mip3/params.rs).
use text.Mathlib.Text.{◌==◌ as str_eq}
use text.Mathlib.TextEquality.{eq_iff}
use metaflux_client_rust.Base.{
  ℕ, ◌+◌, ◌≤◌, String, Bool, true, false, ◌||◌, List, [], ◌∷◌, Option, none, some, is_empty, ltb,
  ◌==◌, ◌≡◌, ◌≢◌, ◌↔◌, refl, inl, inr, arith, Bool-cases, Option-cases, Result, ok, err, ◌>>◌,
  reject_if,
}
use metaflux_client_rust.Base.Integers.{ℤ, pos, negsuc, is_negative, exceeds, under}
use metaflux_client_rust.Mip3.Oracle.{OracleSource, sort, first_duplicate}
use metaflux_client_rust.Mip3.Counting.{
  count, count-sort, sort-Sorted, count-duplicate, count_unique,
}
use metaflux_client_rust.Mip3.Perp.{
  PerpDeployBuilder, ValidationError, text_is_empty, reject_duplicate, check_fees, validate,
  asset_name_empty, asset_symbol_empty, decimals_over, leverage_range, taker_fee_range,
  maker_fee_range, deployer_fee_over, oracle_sources_empty, name_empty, degenerate_pair,
}
use metaflux_client_rust.Mip3.Spot.{SpotDeployBuilder, validate_spot}

-- `-low ≤ z ≤ high`
abbrev pub Within : ℕ → ℕ → ℤ → Type 0
Within low high (pos n) = n ≤ high
Within low high (negsuc n) = n + 1 ≤ low

pub record IsValid (b : PerpDeployBuilder) : Type 0 where
  pub named : b.asset_name ≢ ""
  pub symbolic : b.asset_symbol ≢ ""
  pub precise : b.decimals ≤ 18
  pub leveraged : 1 ≤ b.max_leverage
  pub limited : b.max_leverage ≤ 100
  pub taker_range : Within 0 100 b.taker_fee_bps
  pub maker_range : Within 20 100 b.maker_fee_bps
  pub deployer_range : b.deployer_fee_bps ≤ 50
  pub sourced : b.oracle_sources ≢ []
  -- no source is listed twice
  pub distinct : (a : OracleSource) → count a b.oracle_sources ≤ 1

chain :
    (m k : Result ValidationError (Unit {0})) (P Q : Type 0)
    → (m ≡ ok tt) ↔ P
    → (k ≡ ok tt) ↔ Q
    → ((m >> k) ≡ ok tt) ↔ (P × Q)
chain (ok tt) k P Q p q = ((λ h. (p.0 refl, q.0 h)), (λ (g, h). q.1 h))
chain (err e) k P Q p q = ((λ h. absurd (cc h)), (λ (g, h). absurd (cc (p.1 g))))

test : (b : Bool) (e : ValidationError) (P : Type 0) → (b ≡ false) ↔ P → (reject_if b e ≡ ok tt) ↔ P
test true e P p = ((λ h. absurd (cc h)), (λ h. absurd (cc (p.1 h))))
test false e P p = ((λ h. p.0 refl), (λ h. refl))

taker_iff : (z : ℤ) → (is_negative z || exceeds z 100 ≡ false) ↔ Within 0 100 z
taker_iff (pos n) = ground arith
taker_iff (negsuc n) = ground arith

maker_iff : (z : ℤ) → (exceeds z 100 || under z 20 ≡ false) ↔ Within 20 100 z
maker_iff (pos n) = ground arith
maker_iff (negsuc n) = ground arith

empty_iff : (s : String) → (text_is_empty s ≡ false) ↔ (s ≢ "")
empty_iff s = (
  (λ h p. cc (h, (eq_iff s "").1 p)),
  (λ n. elim (Bool-cases (str_eq s "")) [ inl e ↦ absurd (n ((eq_iff s "").0 e)) | inr e ↦ e ]),
)

le_iff : (k n : ℕ) → (ltb k n ≡ false) ↔ (n ≤ k)
le_iff k n = ground arith

leverage_iff : (n : ℕ) → (n == 0 || ltb 100 n ≡ false) ↔ ((1 ≤ n) × (n ≤ 100))
leverage_iff n = ground arith

sourced_iff : (ss : List OracleSource) → (is_empty ss ≡ false) ↔ (ss ≢ [])
sourced_iff [] = ((λ h. absurd (cc h)), (λ h. absurd (h refl)))
sourced_iff (s ∷ ss) = ((λ h p. cc p), (λ h. refl))

duplicated :
    (o : Option OracleSource) (s : OracleSource) → o ≡ some s → reject_duplicate o ≡ ok tt → ⊥
duplicated none s e h = cc e
duplicated (some r) s e h = cc h

distinct_iff :
    (ss : List OracleSource)
    → (reject_duplicate (first_duplicate (sort ss)) ≡ ok tt) ↔ ((a : OracleSource) → count a ss ≤ 1)
distinct_iff ss = (forth, back)
  where
    forth :
        reject_duplicate (first_duplicate (sort ss)) ≡ ok tt → (a : OracleSource) → count a ss ≤ 1
    forth h a = elim (Option-cases (first_duplicate (sort ss))) [
      | inl n ↦ omega (arith, count-sort a ss, count_unique a (sort ss) (sort-Sorted ss) n)
      | inr (s, e) ↦ absurd (duplicated (first_duplicate (sort ss)) s e h)
    ]

    back :
        ((a : OracleSource) → count a ss ≤ 1) → reject_duplicate (first_duplicate (sort ss)) ≡ ok tt
    back h = elim (Option-cases (first_duplicate (sort ss))) [
      | inl n ↦ rw (n) refl
      | inr (s, e) ↦ absurd (omega (arith, h s, count-sort s ss, count-duplicate s (sort ss) e))
    ]

fees_iff :
    (taker maker : ℤ)
    → (check_fees taker maker ≡ ok tt) ↔ (Within 0 100 taker × Within 20 100 maker)
fees_iff taker maker =
    chain (reject_if (is_negative taker || exceeds taker 100) (taker_fee_range taker))
      (reject_if (exceeds maker 100 || under maker 20) (maker_fee_range maker)) (Within 0 100 taker)
      (Within 20 100 maker) (test _ _ _ (taker_iff taker)) (test _ _ _ (maker_iff maker))

-- the conjunction in the order of the checks
abbrev Ranges : PerpDeployBuilder → Type 0
Ranges b =
    (((((((b.asset_name ≢ "") × (b.asset_symbol ≢ "")) × (b.decimals ≤ 18))
            × ((1 ≤ b.max_leverage) × (b.max_leverage ≤ 100)))
          × (Within 0 100 b.taker_fee_bps × Within 20 100 b.maker_fee_bps))
        × (b.deployer_fee_bps ≤ 50))
      × (b.oracle_sources ≢ []))
    × ((a : OracleSource) → count a b.oracle_sources ≤ 1)

validate-Ranges : (b : PerpDeployBuilder) → (validate b ≡ ok tt) ↔ Ranges b
unfolding validate
validate-Ranges b =
    chain _ _ _ _
      (chain _ _ _ _
        (chain _ _ _ _
          (chain _ _ _ _
            (chain _ _ _ _
              (chain _ _ _ _
                (chain _ _ _ _
                  (test (text_is_empty b.asset_name) asset_name_empty _ (empty_iff b.asset_name))
                  (test (text_is_empty b.asset_symbol) asset_symbol_empty _
                    (empty_iff b.asset_symbol)))
                (test (ltb 18 b.decimals) (decimals_over b.decimals) _ (le_iff 18 b.decimals)))
              (test (b.max_leverage == 0 || ltb 100 b.max_leverage) (leverage_range b.max_leverage)
                _ (leverage_iff b.max_leverage)))
            (fees_iff b.taker_fee_bps b.maker_fee_bps))
          (test (ltb 50 b.deployer_fee_bps) (deployer_fee_over b.deployer_fee_bps) _
            (le_iff 50 b.deployer_fee_bps)))
        (test (is_empty b.oracle_sources) oracle_sources_empty _ (sourced_iff b.oracle_sources)))
      (distinct_iff b.oracle_sources)

-- `validate` accepts a perp builder exactly when each of its parameters is in range and no oracle
-- source is listed twice, though it looks for a duplicate only beside itself in the sorted list.
pub validate_iff : (b : PerpDeployBuilder) → (validate b ≡ ok tt) ↔ IsValid b
validate_iff b = (
  (λ h.
      let (((((((n, s), p), (l, m)), (t, k)), d), o), u) = (validate-Ranges b).0 h in
      record {
        named = n;
        symbolic = s;
        precise = p;
        leveraged = l;
        limited = m;
        taker_range = t;
        maker_range = k;
        deployer_range = d;
        sourced = o;
        distinct = u;
      }),
  (λ v. (validate-Ranges b).1 (
    (
      (
        (
          (((v.named, v.symbolic), v.precise), (v.leveraged, v.limited)),
          (v.taker_range, v.maker_range),
        ),
        v.deployer_range,
      ),
      v.sourced,
    ),
    v.distinct,
  )),
)

pub record IsValidPair (b : SpotDeployBuilder) : Type 0 where
  pub named : b.name ≢ ""
  pub apart : b.base_asset_id ≢ b.quote_asset_id
  pub taker_range : Within 0 100 b.taker_fee_bps
  pub maker_range : Within 20 100 b.maker_fee_bps

apart_iff : (m n : ℕ) → (m == n ≡ false) ↔ (m ≢ n)
apart_iff m n = ground arith

validate_spot-Ranges :
    (b : SpotDeployBuilder)
    → (validate_spot b ≡ ok tt) ↔ (
        ((b.name ≢ "") × (b.base_asset_id ≢ b.quote_asset_id))
        × (Within 0 100 b.taker_fee_bps × Within 20 100 b.maker_fee_bps))
unfolding validate_spot
validate_spot-Ranges b =
    chain _ _ _ _
      (chain _ _ _ _ (test (text_is_empty b.name) name_empty _ (empty_iff b.name)) (
        test (b.base_asset_id == b.quote_asset_id)
          (degenerate_pair b.base_asset_id b.quote_asset_id) _
          (apart_iff b.base_asset_id b.quote_asset_id)))
      (fees_iff b.taker_fee_bps b.maker_fee_bps)

-- `validate` accepts a spot builder exactly when it has a name, its two assets differ, and its fees
-- are in range.
pub validate_spot_iff : (b : SpotDeployBuilder) → (validate_spot b ≡ ok tt) ↔ IsValidPair b
validate_spot_iff b = (
  (λ h.
      let ((n, a), (t, k)) = (validate_spot-Ranges b).0 h in
      record { named = n; apart = a; taker_range = t; maker_range = k }),
  (λ v. (validate_spot-Ranges b).1 ((v.named, v.apart), (v.taker_range, v.maker_range))),
)
