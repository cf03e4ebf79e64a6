-- ===== src/Decimal/Loops.antt =====
-- The loops of `decimal_to_scaled` (src/grid.rs) against the numbers that the digits spell.
use native.Mathlib.Nat.{pow-suc}
use metaflux_client_rust.Base.{
  ℕ, zero, suc, ◌+◌, ◌-◌, ◌*◌, ◌^◌, ◌≤◌, ◌<◌, [], ◌∷◌, ◌++◌, true, some, arith, ◌≡◌, refl, All,
  length, drop,
}
use metaflux_client_rust.Decimal.{Text, u128_mod, int_digits, frac_digits, all_digits}

abbrev pub IsDigit : ℕ → Type 0
IsDigit c = (b'0' ≤ c) × (c ≤ b'9')

-- The number that digits spell behind `acc`, with no bound.
abbrev pub number : ℕ → Text → ℕ
number acc [] = acc
number acc (c ∷ s) = number (acc * 10 + (c - b'0')) s

-- The first `scale` digits of a fraction behind `acc`, filled up with zeros, with no bound.
abbrev pub scaled : ℕ → Text → ℕ → ℕ
scaled zero f acc = acc
scaled (suc k) [] acc = scaled k [] (acc * 10)
scaled (suc k) (c ∷ f) acc = scaled k f (acc * 10 + (c - b'0'))

pub le-number : (acc : ℕ) (s : Text) → acc ≤ number acc s
le-number acc [] = omega arith
le-number acc (c ∷ s) = omega (arith, le-number (acc * 10 + (c - b'0')) s)

pub le-scaled : (k : ℕ) (f : Text) (acc : ℕ) → acc ≤ scaled k f acc
le-scaled zero f acc = omega arith
le-scaled (suc k) [] acc = omega (arith, le-scaled k [] (acc * 10))
le-scaled (suc k) (c ∷ f) acc = omega (arith, le-scaled k f (acc * 10 + (c - b'0')))

pub number-append : (acc : ℕ) (s t : Text) → number acc (s ++ t) ≡ number (number acc s) t
number-append acc [] t = refl
number-append acc (c ∷ s) t = number-append (acc * 10 + (c - b'0')) s t

pub int_digits_sound :
    (s : Text) (acc v : ℕ) → int_digits s acc ≡ some v → All IsDigit s × (v ≡ number acc s)
unfolding int_digits
int_digits_sound [] acc v h = ground arith
int_digits_sound (c ∷ s) acc v h = ground (arith, int_digits_sound s (acc * 10 + (c - b'0')) v)

pub int_digits_complete :
    (s : Text) (acc : ℕ)
    → All IsDigit s
    → number acc s < u128_mod
    → int_digits s acc ≡ some (number acc s)
unfolding int_digits
int_digits_complete [] acc d b = refl
int_digits_complete (c ∷ s) acc d b = ground (
  arith,
  int_digits_complete s (acc * 10 + (c - b'0')) d.1 b,
  le-number (acc * 10 + (c - b'0')) s,
)

all_digits_sound : (f : Text) → all_digits f ≡ true → All IsDigit f
unfolding all_digits
all_digits_sound [] h = tt
all_digits_sound (c ∷ f) h = ground (arith, all_digits_sound f)

pub all_digits_complete : (k : ℕ) (f : Text) → All IsDigit f → all_digits (drop k f) ≡ true
unfolding all_digits
all_digits_complete zero [] d = refl
all_digits_complete zero (c ∷ f) d = ground (arith, all_digits_complete zero f d.1)
all_digits_complete (suc k) [] d = refl
all_digits_complete (suc k) (c ∷ f) d = all_digits_complete k f d.1

all_digits_nil : (k : ℕ) → all_digits (drop k []) ≡ true
unfolding all_digits
all_digits_nil zero = refl
all_digits_nil (suc k) = refl

pub frac_digits_sound :
    (k : ℕ) (f : Text) (acc v : ℕ)
    → acc < u128_mod
    → frac_digits k f acc ≡ some v
    → all_digits (drop k f) ≡ true
    → All IsDigit f × (v ≡ scaled k f acc) × (v < u128_mod)
unfolding frac_digits
frac_digits_sound zero f acc v b h t = (all_digits_sound f t, ground arith, ground arith)
frac_digits_sound (suc k) [] acc v b h t =
    ground (arith, all_digits_nil k, frac_digits_sound k [] (acc * 10) v)
frac_digits_sound (suc k) (c ∷ f) acc v b h t =
    ground (arith, frac_digits_sound k f (acc * 10 + (c - b'0')) v)

pub frac_digits_complete :
    (k : ℕ) (f : Text) (acc : ℕ)
    → All IsDigit f
    → scaled k f acc < u128_mod
    → frac_digits k f acc ≡ some (scaled k f acc)
unfolding frac_digits
frac_digits_complete zero f acc d b = refl
frac_digits_complete (suc k) [] acc d b =
    ground (arith, frac_digits_complete k [] (acc * 10) d b, le-scaled k [] (acc * 10))
frac_digits_complete (suc k) (c ∷ f) acc d b = ground (
  arith,
  frac_digits_complete k f (acc * 10 + (c - b'0')) d.1 b,
  le-scaled k f (acc * 10 + (c - b'0')),
)

-- `scaled` rounds down: behind `n` digits it is the whole part of `number * 10 ^ k / 10 ^ n`.
abbrev pub IsFloor : ℕ → ℕ → ℕ → ℕ → Type 0
IsFloor v m k n = (v * 10 ^ n ≤ m * 10 ^ k) × (m * 10 ^ k < (v + 1) * 10 ^ n)

-- One more digit `d` in front of `n`, at the place value `p`.
widen :
    (acc d p n : ℕ)
    → d ≤ 9
    → ((acc * 10 + d) * p ≤ n) × (n < (acc * 10 + d + 1) * p)
    → (acc * (p * 10) ≤ n) × (n < (acc + 1) * (p * 10))
widen acc d p n h (lo, hi) = (omega arith, grind arith)

number_below :
    (acc : ℕ) (f : Text)
    → All IsDigit f
    → (acc * 10 ^ length f ≤ number acc f) × (number acc f < (acc + 1) * 10 ^ length f)
number_below acc [] d = omega arith
number_below acc (c ∷ f) d = rw (pow-suc 10 (length f)) (
    widen acc (c - b'0') (10 ^ length f) (number (acc * 10 + (c - b'0')) f) (omega arith)
      (number_below (acc * 10 + (c - b'0')) f d.1))

pub scaled-IsFloor :
    (k : ℕ) (f : Text) (acc : ℕ)
    → All IsDigit f
    → IsFloor (scaled k f acc) (number acc f) k (length f)
scaled-IsFloor zero f acc d = let (lo, hi) = number_below acc f d in (omega arith, omega arith)
scaled-IsFloor (suc k) [] acc d =
    let (lo, hi) = scaled-IsFloor k [] (acc * 10) tt in rw pow-suc (grind arith)
scaled-IsFloor (suc k) (c ∷ f) acc d =
    let (lo, hi) = scaled-IsFloor k f (acc * 10 + (c - b'0')) d.1 in
    rw (pow-suc 10 k, pow-suc 10 (length f)) (grind arith)
