-- ===== src/Decimal.antt =====
-- The decimal parser `decimal_to_scaled` (src/grid.rs), on which the grid and the TWAP planner stand.
-- A text is the list of its code points. The parser reads bytes; a character outside ASCII is
-- written in bytes of 128 and more, none of which is a digit, so both readings refuse it.
pub mod Loops
pub mod Floor
mod Tests
use mathlib.Core.List.{reverse}
use mathlib.Core.Option
use Prim.Native.Char.{code}
use metaflux_client_rust.Base.{
  ℕ, zero, suc, ◌+◌, ◌-◌, ◌*◌, ◌^◌, String, List, [], ◌∷◌, Bool, true, false, ◌&&◌, ◌||◌, Option,
  none, some, ltb, leb, ◌==◌, if◌then◌else◌, and_then, unwrap_or, drop, is_empty,
}

abbrev pub Text : Type 0
Text = List ℕ

-- The code points of a literal.
abbrev pub codes : String → Text
codes String.[] = []
codes (String.◌∷◌ c s) = code c ∷ codes s

abbrev pub u128_mod : ℕ
u128_mod = 2 ^ 128

-- The White_Space characters of Unicode, which `str::trim` removes.
pub is_whitespace : ℕ → Bool
is_whitespace c =
    leb 9 c && leb c 13
    || c == 0x20
    || c == 0x85
    || c == 0xa0
    || c == 0x1680
    || leb 0x2000 c && leb c 0x200a
    || c == 0x2028
    || c == 0x2029
    || c == 0x202f
    || c == 0x205f
    || c == 0x3000

pub trim_start : Text → Text
trim_start [] = []
trim_start (c ∷ s) = let rest = trim_start s in if is_whitespace c then rest else c ∷ s

pub trim : Text → Text
unfolding trim_start is_whitespace
trim s = reverse (trim_start (reverse (trim_start s)))

abbrev pub starts_with_minus : Text → Bool
starts_with_minus [] = false
starts_with_minus (c ∷ s) = c == b'-'

-- `s.split_once('.')`.
pub split_once : ℕ → Text → Option (Text × Text)
split_once sep [] = none
split_once sep (c ∷ s) =
    if c == sep then some ([], s) else Option.map (λ p. (c ∷ p.0, p.1)) (split_once sep s)

abbrev pub is_ascii_digit : ℕ → Bool
is_ascii_digit c = leb b'0' c && leb c b'9'

-- `u128::checked_mul` and `u128::checked_add`.
abbrev pub checked_mul : ℕ → ℕ → Option ℕ
checked_mul a b = if ltb (a * b) u128_mod then some (a * b) else none

abbrev pub checked_add : ℕ → ℕ → Option ℕ
checked_add a b = if ltb (a + b) u128_mod then some (a + b) else none

-- The loop over the integer part, from the accumulator `acc`.
pub int_digits : Text → ℕ → Option ℕ
int_digits [] acc = some acc
int_digits (c ∷ s) acc =
    if is_ascii_digit c
    then and_then (checked_mul acc 10)
        (λ m. and_then (checked_add m (c - b'0')) (λ n. int_digits s n))
    else none

-- The loop `for i in 0..scale`: the unread fraction stands for the index.
pub frac_digits : ℕ → Text → ℕ → Option ℕ
frac_digits zero f acc = some acc
frac_digits (suc k) [] acc = and_then (checked_mul acc 10) (λ m. frac_digits k [] m)
frac_digits (suc k) (c ∷ f) acc = and_then (checked_mul acc 10) λ m.
    if is_ascii_digit c then and_then (checked_add m (c - b'0')) (λ n. frac_digits k f n) else none

-- The loop over `frac.iter().skip(scale)`, which only checks.
pub all_digits : Text → Bool
all_digits [] = true
all_digits (c ∷ s) = is_ascii_digit c && all_digits s

-- The two parts of the trimmed text; the fraction is empty where there is no point.
pub parts : Text → Text × Text
unfolding split_once trim
parts s = unwrap_or (split_once b'.' s) (s, [])

-- The parse of the two parts.
pub scale_parts : Text → Text → ℕ → Option ℕ
unfolding int_digits frac_digits all_digits
scale_parts int frac scale =
    if is_empty int && is_empty frac
    then none
    else and_then (int_digits int 0) λ acc.
      and_then (frac_digits scale frac acc)
        λ acc'. if all_digits (drop scale frac) then some acc' else none

unfoldable pub decimal_to_scaled : Text → ℕ → Option ℕ
unfolding parts scale_parts
decimal_to_scaled s scale =
    let t = trim s in
    if is_empty t || starts_with_minus t then none else scale_parts (parts t).0 (parts t).1 scale
