-- ===== src/Nonce/Progress.antt =====
-- The compare-and-exchange loop of `next_nonce` (src/rest/exchange.rs): what can hold a thread up.
use metaflux_client_rust.Base.{ℕ, ◌<◌, ◌≤◌, ◌≡◌, List, ◌∷◌, ◌⊎◌}
use metaflux_client_rust.Nonce.{outside, looping, Shared, Step}

-- No thread has read more than the clock, and the clock stands where it started or is the nonce that
-- was handed out last.
pub record IsTimely (s : Shared) : Type 0 where
  pub behind : (t now prev : ℕ) → s.phase t ≡ looping now prev → prev ≤ s.nonce_clock
  pub latest :
      (s.nonce_clock ≡ 0)
      ⊎ ((u : ℕ) × (rest : List (ℕ × ℕ)) × (s.issued ≡ (u, s.nonce_clock) ∷ rest))

-- The next step of a thread that gets its nonce: above what it read, and at least the wall clock.
abbrev pub Succeeds : Shared → ℕ → ℕ → ℕ → Type 0
Succeeds s t now prev =
    (s' : Shared) × Step s s'
    × (s'.issued ≡ (t, s'.nonce_clock) ∷ s.issued)
    × (s'.phase t ≡ outside)
    × (now ≤ s'.nonce_clock)
    × (prev < s'.nonce_clock)

-- The nonce that was handed out last is above what a thread read.
abbrev pub IsOvertaken : Shared → ℕ → Type 0
IsOvertaken s prev =
    (u : ℕ) × (rest : List (ℕ × ℕ)) × (s.issued ≡ (u, s.nonce_clock) ∷ rest)
    × (prev < s.nonce_clock)
