-- ===== src/Decimal/Floor.antt =====
-- `decimal_to_scaled` (src/grid.rs) is `floor(value × 10^scale)`, where it is documented to be.
use metaflux_client_rust.Base.{
  ℕ, ◌+◌, ◌-◌, ◌*◌, ◌^◌, ◌≤◌, ◌<◌, [], ◌∷◌, ◌++◌, false, some, arith, ◌≡◌, All, length, ◌&&◌,
  is_empty, ◌||◌, inl, inr, Option-cases,
}
use metaflux_client_rust.Decimal.{
  Text, u128_mod, trim, parts, scale_parts, decimal_to_scaled, starts_with_minus, int_digits,
  frac_digits,
}
use metaflux_client_rust.Decimal.Loops.{
  IsDigit, number, scaled, le-scaled, number-append, int_digits_sound, int_digits_complete,
  all_digits_complete, frac_digits_sound, frac_digits_complete, scaled-IsFloor,
}

-- `v` is the decimal `int.frac` times `10 ^ scale`, rounded down; both parts are digits.
abbrev pub IsScaled : Text → Text → ℕ → ℕ → Type 0
IsScaled int frac scale v =
    All IsDigit int
    × All IsDigit frac
    × (v * 10 ^ length frac ≤ number 0 (int ++ frac) * 10 ^ scale)
    × (number 0 (int ++ frac) * 10 ^ scale < (v + 1) * 10 ^ length frac)

int_digits-lt : (s : Text) (acc v : ℕ) → acc < u128_mod → int_digits s acc ≡ some v → v < u128_mod
unfolding int_digits
int_digits-lt [] acc v b h = ground arith
int_digits-lt (c ∷ s) acc v b h = ground (arith, int_digits-lt s (acc * 10 + (c - b'0')) v)

lt_of_mul : (v m p : ℕ) {x : ℕ} → v * p ≤ x → x < m * p → v < m
lt_of_mul v m p h k = grind arith

-- what the three loops compute, without the bound
scaled-IsScaled :
    (int frac : Text) (scale : ℕ)
    → All IsDigit int
    → All IsDigit frac
    → IsScaled int frac scale (scaled scale frac (number 0 int))
scaled-IsScaled int frac scale di df =
    let (lo, hi) = scaled-IsFloor scale frac (number 0 int) df in
    (di, df, rw number-append lo, rw number-append hi)

scale_parts_sound :
    (int frac : Text) (scale v : ℕ)
    → scale_parts int frac scale ≡ some v
    → (v ≡ scaled scale frac (number 0 int)) × All IsDigit int × All IsDigit frac × (v < u128_mod)
unfolding scale_parts
scale_parts_sound int frac scale v h = elim (Option-cases (int_digits int 0)) [
  | inl e ↦ ground arith
  | inr (acc, e) ↦ elim (Option-cases (frac_digits scale frac acc)) [
    | inl e' ↦ ground arith
    | inr (w, e') ↦ ground (
      arith,
      int_digits_sound int 0 acc e,
      int_digits-lt int 0 acc (omega arith) e,
      frac_digits_sound scale frac acc w,
    )
  ]
]

scale_parts_complete :
    (int frac : Text) (scale : ℕ)
    → (is_empty int && is_empty frac) ≡ false
    → All IsDigit int
    → All IsDigit frac
    → scaled scale frac (number 0 int) < u128_mod
    → scale_parts int frac scale ≡ some (scaled scale frac (number 0 int))
unfolding scale_parts
scale_parts_complete int frac scale e di df b = ground (
  arith,
  int_digits_complete int 0 di,
  le-scaled scale frac (number 0 int),
  frac_digits_complete scale frac (number 0 int) df b,
  all_digits_complete scale frac df,
)

-- An accepted text is digits with at most one point among them, and the result is its value times
-- `10 ^ scale` rounded down; nothing overflowed.
pub decimal_to_scaled_sound :
    (s : Text) (scale v : ℕ)
    → decimal_to_scaled s scale ≡ some v
    → IsScaled (parts (trim s)).0 (parts (trim s)).1 scale v × (v < u128_mod)
unfolding decimal_to_scaled
decimal_to_scaled_sound s scale v h =
    let p = parts (trim s) in
    let (e, di, df, b) = scale_parts_sound p.0 p.1 scale v (ground arith) in
    (rw e (scaled-IsScaled p.0 p.1 scale di df), b)

-- A text of digits, not empty and without a sign, is accepted if its value times `10 ^ scale` is
-- below `2 ^ 128`.
pub decimal_to_scaled_complete :
    (s : Text) (scale : ℕ)
    → (is_empty (trim s) || starts_with_minus (trim s)) ≡ false
    → (is_empty (parts (trim s)).0 && is_empty (parts (trim s)).1) ≡ false
    → All IsDigit (parts (trim s)).0
    → All IsDigit (parts (trim s)).1
    → number 0 ((parts (trim s)).0 ++ (parts (trim s)).1) * 10 ^ scale
      < u128_mod * 10 ^ length (parts (trim s)).1
    → (v : ℕ) × (decimal_to_scaled s scale ≡ some v)
unfolding decimal_to_scaled
decimal_to_scaled_complete s scale t e di df b =
    let (int, frac) = parts (trim s) in
    let (_, _, lo, hi) = scaled-IsScaled int frac scale di df in
    (
      scaled scale frac (number 0 int),
      rw t (scale_parts_complete int frac scale e di df (lt_of_mul _ _ _ lo b)),
    )
