-- ===== src/Mip3/Counting.antt =====
-- What the sort of oracle sources (src/mip3/params.rs) does: it keeps how often each is listed, and
-- puts them in order, where a duplicate stands beside itself.
use metaflux_client_rust.Base.{
  ℕ, ◌+◌, ◌≤◌, ◌<◌, Bool, true, false, List, [], ◌∷◌, none, some, leb, ◌≡◌, refl, ap, inl, inr,
  arith, Bool-cases, All,
}
use metaflux_client_rust.Mip3.Oracle.{OracleSource, rank, same, insert, sort, first_duplicate}

abbrev pub one_if : Bool → ℕ
one_if true = 1
one_if false = 0

-- how often a source is listed
abbrev pub count : OracleSource → List OracleSource → ℕ
count a [] = 0
count a (s ∷ ss) = one_if (same a s) + count a ss

abbrev pub AtLeast : ℕ → List OracleSource → Type 0
AtLeast n ss = All (λ s. n ≤ rank s) ss

abbrev pub Sorted : List OracleSource → Type 0
Sorted [] = Unit
Sorted (s ∷ ss) = AtLeast (rank s) ss × Sorted ss

count-insert :
    (a s : OracleSource) (ss : List OracleSource)
    → count a (insert s ss) ≡ one_if (same a s) + count a ss
count-insert a s [] = refl
count-insert a s (r ∷ rs) = elim (Bool-cases (leb (rank s) (rank r))) [
  | inl e ↦ rw (e) refl
  | inr e ↦ rw (e) (omega (arith, count-insert a s rs))
]

pub count-sort : (a : OracleSource) (ss : List OracleSource) → count a (sort ss) ≡ count a ss
count-sort a [] = refl
count-sort a (s ∷ ss) = omega (arith, count-insert a s (sort ss), count-sort a ss)

pub AtLeast-weaken : (m n : ℕ) (ss : List OracleSource) → m ≤ n → AtLeast n ss → AtLeast m ss
AtLeast-weaken m n [] h a = tt
AtLeast-weaken m n (s ∷ ss) h (b, a) = (omega (arith, h, b), AtLeast-weaken m n ss h a)

AtLeast-insert :
    (n : ℕ) (s : OracleSource) (ss : List OracleSource)
    → n ≤ rank s
    → AtLeast n ss
    → AtLeast n (insert s ss)
AtLeast-insert n s [] h a = (h, tt)
AtLeast-insert n s (r ∷ rs) h (b, a) = elim (Bool-cases (leb (rank s) (rank r))) [
  | inl e ↦ rw (e) (h, (b, a))
  | inr e ↦ rw (e) (b, AtLeast-insert n s rs h a)
]

insert-Sorted : (s : OracleSource) (ss : List OracleSource) → Sorted ss → Sorted (insert s ss)
insert-Sorted s [] d = (tt, tt)
insert-Sorted s (r ∷ rs) (a, d) = elim (Bool-cases (leb (rank s) (rank r))) [
  | inl e ↦
      let le : rank s ≤ rank r = ground (arith, e) in
      rw (e) ((le, AtLeast-weaken (rank s) (rank r) rs le a), (a, d))
  | inr e ↦ rw (e) (AtLeast-insert (rank r) s rs (ground (arith, e)) a, insert-Sorted s rs d)
]

pub sort-Sorted : (ss : List OracleSource) → Sorted (sort ss)
sort-Sorted [] = tt
sort-Sorted (s ∷ ss) = insert-Sorted s (sort ss) (sort-Sorted ss)

-- what is below all of a list is not in it
pub count-below :
    (a : OracleSource) (ss : List OracleSource) → AtLeast (rank a + 1) ss → count a ss ≡ 0
count-below a [] h = refl
count-below a (s ∷ ss) (b, h) = ground (arith, b, count-below a ss h)

dup_head :
    (r t s : OracleSource) (ts : List OracleSource)
    → same r t ≡ true
    → first_duplicate (r ∷ t ∷ ts) ≡ some s
    → r ≡ s
dup_head r t s ts e h = ground (arith, e, h)

pub count-duplicate :
    (s : OracleSource) (ss : List OracleSource) → first_duplicate ss ≡ some s → 2 ≤ count s ss
count-duplicate s [] h = absurd (cc h)
count-duplicate s (r ∷ []) h = absurd (cc h)
count-duplicate s (r ∷ t ∷ ts) h = elim (Bool-cases (same r t)) [
  | inl e ↦ ground (arith, e, ap rank (dup_head r t s ts e h))
  | inr e ↦ omega (arith, count-duplicate s (t ∷ ts) (ground (arith, h, e)))
]

one_if-le : (b : Bool) → one_if b ≤ 1
one_if-le true = omega arith
one_if-le false = omega arith

pub count_unique :
    (a : OracleSource) (ss : List OracleSource)
    → Sorted ss
    → first_duplicate ss ≡ none
    → count a ss ≤ 1
count_unique a [] d h = omega arith
count_unique a (r ∷ []) d h = ground arith
count_unique a (r ∷ t ∷ ts) ((b, e), d) h =
    let apart : rank r < rank t = ground (arith, b, h) in
    let rest = count_unique a (t ∷ ts) d (ground (arith, h)) in
    elim (Bool-cases (same a r)) [
      | inl s ↦
          let low : rank a + 1 ≤ rank t = ground (arith, s, apart) in
          omega (
            arith,
            one_if-le (same a r),
            count-below a (t ∷ ts) (low, AtLeast-weaken (rank a + 1) (rank t) ts low d.0),
          )
      | inr s ↦ rw (s) (omega (arith, rest))
    ]
