-- ===== src/Nonce.antt =====
-- `next_nonce` (src/rest/exchange.rs): one atomic clock, from which any number of threads draw
-- nonces by a compare-and-exchange loop. A step is one atomic action of one thread; the wall clock
-- may read anything, and a weak exchange may fail for no reason.
pub mod Increasing
pub mod Progress
mod Tests
use metaflux_client_rust.Base.{
  ℕ, ◌+◌, ◌-◌, ◌<◌, ◌≢◌, ◌≡◌, List, [], ◌∷◌, max, min, ltb, ◌==◌, if◌then◌else◌,
}
use metaflux_client_rust.Grid.{u64_mod}

abbrev pub saturating_add : ℕ → ℕ → ℕ
saturating_add a b = min (a + b) (u64_mod - 1)

-- `now.max(prev.saturating_add(1))`.
unfoldable pub bump : ℕ → ℕ → ℕ
bump now prev = max now (saturating_add prev 1)

-- Where a thread stands: outside, or in the loop with what it read.
pub data Phase : Type 0 where
  outside : Phase
  -- the wall clock, and the last observed value of the nonce clock
  looping : ℕ → ℕ → Phase

pub record Shared : Type 0 where
  pub nonce_clock : ℕ
  pub phase : ℕ → Phase
  -- the nonces handed out, the latest first, each with the thread that got it
  pub issued : List (ℕ × ℕ)

abbrev pub start : Shared
start = record { nonce_clock = 0; phase = λ t. outside; issued = [] }

abbrev pub set_phase : (ℕ → Phase) → ℕ → Phase → ℕ → Phase
set_phase f t p u = if u == t then p else f u

pub data Step (s : Shared) : Shared → Type 0 where
  -- `current_unix_ms` and the first `load`
  enter :
      (t now : ℕ)
      → s.phase t ≡ outside
      → now < u64_mod
      → Step s (record s { phase = set_phase s.phase t (looping now s.nonce_clock) })
  -- `compare_exchange_weak` succeeds, and the call returns
  exchange :
      (t now prev : ℕ)
      → s.phase t ≡ looping now prev
      → s.nonce_clock ≡ prev
      → Step s (record s {
        nonce_clock = bump now prev;
        phase = set_phase s.phase t outside;
        issued = (t, bump now prev) ∷ s.issued;
      })
  -- it fails, because the clock has moved or for no reason, and observes the clock
  retry :
      (t now prev : ℕ)
      → s.phase t ≡ looping now prev
      → Step s (record s { phase = set_phase s.phase t (looping now s.nonce_clock) })

pub data Reach (s : Shared) : Shared → Type 0 where
  here : Reach s s
  next : {t u : Shared} → Reach s t → Step t u → Reach s u
