-- ===== src/Decimal/Tests.antt =====
-- The unit tests of src/grid.rs on the parser, and inputs at which its theorems apply.
use metaflux_client_rust.Base.{ℕ, none, some, ◌≡◌, refl, arith, ◌<◌}
use metaflux_client_rust.Decimal.{codes, trim, parts, decimal_to_scaled, u128_mod}
use metaflux_client_rust.Decimal.Floor.{
  IsScaled, decimal_to_scaled_sound, decimal_to_scaled_complete,
}

scales_into_the_plane :
    (decimal_to_scaled (codes "0.01") 8 ≡ some 1000000)
    × (decimal_to_scaled (codes "0.001") 5 ≡ some 100)
    × (decimal_to_scaled (codes "100") 8 ≡ some 10000000000)
    × (decimal_to_scaled (codes " 1 ") 0 ≡ some 1)
    × (decimal_to_scaled (codes "1.2345") 2 ≡ some 123)
unfolding decimal_to_scaled
scales_into_the_plane = (refl, refl, refl, refl, refl)

refused :
    (decimal_to_scaled (codes "-1") 8 ≡ none)
    × (decimal_to_scaled (codes "") 8 ≡ none)
    × (decimal_to_scaled (codes "1.2.3") 8 ≡ none)
    × (decimal_to_scaled (codes "abc") 8 ≡ none)
    × (decimal_to_scaled (codes ".") 8 ≡ none)
unfolding decimal_to_scaled
refused = (refl, refl, refl, refl, refl)

decimal_to_scaled_sound_example :
    IsScaled (parts (trim (codes "1.2345"))).0 (parts (trim (codes "1.2345"))).1 2 123
    × (123 < u128_mod)
decimal_to_scaled_sound_example =
    decimal_to_scaled_sound (codes "1.2345") 2 123 scales_into_the_plane.4

decimal_to_scaled_complete_example : (v : ℕ) × (decimal_to_scaled (codes "1.2345") 2 ≡ some v)
unfolding parts
decimal_to_scaled_complete_example =
    decimal_to_scaled_complete (codes "1.2345") 2 refl refl (omega arith) (omega arith)
      (omega arith)
