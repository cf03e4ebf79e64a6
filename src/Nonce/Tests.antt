-- ===== src/Nonce/Tests.antt =====
-- Two threads that read the clock together and draw in turn.
use metaflux_client_rust.Base.{◌≡◌, refl, [], ◌∷◌, arith}
use metaflux_client_rust.Nonce.{
  bump, Shared, start, outside, looping, set_phase, Reach, here, next, enter, exchange, retry,
}
use metaflux_client_rust.Nonce.Increasing.{Descending, Reach-Descending}

abbrev both_in : Shared
both_in = record start {
  phase = set_phase (set_phase start.phase 1 (looping 500 0)) 2 (looping 500 0);
}

abbrev first_out : Shared
first_out = record both_in {
  nonce_clock = bump 500 0;
  phase = set_phase both_in.phase 1 outside;
  issued = (1, bump 500 0) ∷ [];
}

abbrev second_again : Shared
second_again = record first_out { phase = set_phase first_out.phase 2 (looping 500 (bump 500 0)) }

abbrev both_out : Shared
both_out = record second_again {
  nonce_clock = bump 500 (bump 500 0);
  phase = set_phase second_again.phase 2 outside;
  issued = (2, bump 500 (bump 500 0)) ∷ (1, bump 500 0) ∷ [];
}

abbrev overtaking : Reach start first_out
overtaking =
    next (next (next here (enter 1 500 refl (omega arith))) (enter 2 500 refl (omega arith)))
      (exchange 1 500 0 refl refl)

abbrev race : Reach start both_out
race = next (next overtaking (retry 2 500 0 refl)) (exchange 2 500 (bump 500 0) refl refl)

drawn : both_out.issued ≡ (2, 501) ∷ (1, 500) ∷ []
unfolding bump
drawn = refl

Reach-Descending_example : Descending both_out.nonce_clock both_out.issued
Reach-Descending_example = Reach-Descending race (unfold bump in omega arith)
