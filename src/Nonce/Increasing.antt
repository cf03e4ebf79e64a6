-- ===== src/Nonce/Increasing.antt =====
-- Every nonce handed out by `next_nonce` (src/rest/exchange.rs) is above all earlier ones, over
-- all interleavings.
use metaflux_client_rust.Base.{ℕ, ◌+◌, ◌<◌, ◌≤◌, List, [], ◌∷◌, All, arith}
use metaflux_client_rust.Grid.{u64_mod}
use metaflux_client_rust.Nonce.{
  bump, Shared, start, Step, enter, exchange, retry, Reach, here, next,
}

-- Each nonce is above all that were handed out before it, and the clock is the latest of them.
abbrev pub Descending : ℕ → List (ℕ × ℕ) → Type 0
Descending top [] = Unit
Descending top ((t, n) ∷ issued) = (n ≤ top) × All (λ e. e.1 < n) issued × Descending n issued

pub bump-lt : (now prev : ℕ) → prev + 1 < u64_mod → prev < bump now prev
unfolding bump
bump-lt now prev h = omega arith

below :
    (top n : ℕ) (issued : List (ℕ × ℕ))
    → top < n
    → Descending top issued
    → All (λ e. e.1 < n) issued
below top n [] h d = tt
below top n ((t, m) ∷ issued) h d = (omega arith, below m n issued (omega arith) d.2)

widen : (top n : ℕ) (issued : List (ℕ × ℕ)) → top ≤ n → Descending top issued → Descending n issued
widen top n [] h d = tt
widen top n ((t, m) ∷ issued) h d = (omega arith, d.1, d.2)

-- The clock has not run into the end of `u64`.
abbrev pub InRange : Shared → Type 0
InRange s = s.nonce_clock + 1 < u64_mod

pub Step-le :
    {s s' : Shared} → Step s s' → s'.nonce_clock + 1 < u64_mod → s.nonce_clock ≤ s'.nonce_clock
Step-le (enter t now p b) r = omega arith
Step-le {s} (exchange t now prev p e) r = unfold bump in omega arith
Step-le (retry t now prev p) r = omega arith

Step-Descending :
    {s s' : Shared}
    → Step s s'
    → InRange s
    → Descending s.nonce_clock s.issued
    → Descending s'.nonce_clock s'.issued
Step-Descending (enter t now p b) r d = d
Step-Descending {s} (exchange t now prev p e) r d =
    let up : s.nonce_clock < bump now prev = omega (arith, bump-lt now prev) in
    (
      omega arith,
      below s.nonce_clock (bump now prev) s.issued up d,
      widen s.nonce_clock (bump now prev) s.issued (omega arith) d,
    )
Step-Descending (retry t now prev p) r d = d

-- However the threads interleave, every nonce is strictly above all that were handed out before it,
-- as long as the clock has not reached the last `u64`.
pub Reach-Descending : {s : Shared} → Reach start s → InRange s → Descending s.nonce_clock s.issued
Reach-Descending here r = tt
Reach-Descending (next before st) r =
    let low = Step-le st r in
    Step-Descending st (omega arith) (Reach-Descending before (omega arith))
