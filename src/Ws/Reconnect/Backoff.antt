-- ===== src/Ws/Reconnect/Backoff.antt =====
-- What the reconnect loop (src/ws/client.rs) sleeps, when it ends, and how many handshakes the
-- compression offer costs.
use native.Mathlib.Nat.{pow-succ'}
use metaflux_client_rust.Base.{
  ℕ, zero, suc, ◌+◌, ◌*◌, ◌^◌, ◌≤◌, min, String, Bool, true, false, List, [], ◌∷◌, Option, none,
  some, ◌≡◌, ◌≢◌, refl, ◌∙◌, inl, inr, arith, length, leb, Bool-cases,
}
use metaflux_client_rust.Ws.Connection.{ConnectionExit, user_shutdown, recoverable, failed}
use metaflux_client_rust.Ws.Reconnect.{
  WsConfig, WireMode, Attempt, accepted, subprotocol_refused, connect_failed, connect, Round,
  run_exit, Background, Log, handshakes_of, after_round, run_background, started,
}

-- the sleeps, doubled up to the cap after the first
abbrev pub Doubled : ℕ → ℕ → List ℕ → Type 0
Doubled b cap [] = Unit
Doubled b cap (s ∷ slept) = (s ≡ b) × Doubled (min (b * 2) cap) cap slept

after_round-Doubled :
    (e : ConnectionExit) (b n cap : ℕ) (rest : Log)
    → Doubled (min (b * 2) cap) cap rest.slept
    → Doubled b cap (after_round e b n rest).slept
after_round-Doubled user_shutdown b n cap rest d = tt
after_round-Doubled recoverable b n cap rest d = (refl, d)
after_round-Doubled failed b n cap rest d = (refl, d)

run_background-Doubled :
    (t : String) (config : WsConfig) (s : Background) (rs : List Round)
    → Doubled s.backoff config.max_backoff (run_background t config s rs).slept
unfolding run_background
run_background-Doubled t config s [] = tt
run_background-Doubled t config s (r ∷ rs) =
    after_round-Doubled (run_exit (connect t s.offer_compression r.first r.retry).1 r.exit)
      s.backoff (handshakes_of s.offer_compression r.first) config.max_backoff _
      (run_background-Doubled t config
        (record {
          offer_compression = (connect t s.offer_compression r.first r.retry).0;
          backoff = min (s.backoff * 2) config.max_backoff;
        })
        rs)

-- `xs.get(n)`
abbrev pub nth : ℕ → List ℕ → Option ℕ
nth n [] = none
nth zero (x ∷ xs) = some x
nth (suc n) (x ∷ xs) = nth n xs

-- The closed form.
abbrev pub delay : ℕ → ℕ → ℕ → ℕ
delay b cap zero = b
delay b cap (suc n) = min (b * 2 ^ suc n) cap

two_pow_pos : (n : ℕ) → 1 ≤ 2 ^ n
two_pow_pos zero = omega arith
two_pow_pos (suc n) = rw (pow-succ' 2 n) (omega (arith, two_pow_pos n))

capped_once : (b cap x : ℕ) → 1 ≤ x → min (min (b * 2) cap * x) cap ≡ min (b * (2 * x)) cap
capped_once b cap x h = elim (Bool-cases (leb (b * 2) cap)) [
  | inl e ↦ let same : min (b * 2) cap ≡ b * 2 = ground (arith, e) in rw (same) (grind arith)
  | inr e ↦
      let low : cap ≤ b * 2 = ground (arith, e) in
      let same : min (b * 2) cap ≡ cap = omega (arith, low) in
      let left : cap ≤ cap * x = grind (arith, h) in
      let right : cap ≤ b * (2 * x) = grind (arith, h, low) in
      rw (same) (omega (arith, left, right))
]

delay-min : (b cap n : ℕ) → delay (min (b * 2) cap) cap n ≡ delay b cap (suc n)
delay-min b cap zero = omega arith
delay-min b cap (suc n) =
    rw (pow-succ' 2 (suc n)) (capped_once b cap (2 ^ suc n) (two_pow_pos (suc n)))

Doubled-delay :
    (b cap n s : ℕ) (slept : List ℕ)
    → Doubled b cap slept
    → nth n slept ≡ some s
    → s ≡ delay b cap n
Doubled-delay b cap n s [] d h = absurd (cc h)
Doubled-delay b cap zero s (x ∷ slept) (e, d) h = cc (h, e)
Doubled-delay b cap (suc n) s (x ∷ slept) (e, d) h =
    Doubled-delay (min (b * 2) cap) cap n s slept d h ∙ delay-min b cap n

-- The `n`-th sleep of the loop, counted from 0, is the initial backoff for the first and
-- `min(initial * 2^n, max)` for every later one, whatever the connections come to: the cap applies
-- from the second sleep on.
pub run_background-delay :
    (t : String) (config : WsConfig) (rs : List Round) (n s : ℕ)
    → nth n (run_background t config (started config) rs).slept ≡ some s
    → s ≡ delay config.initial_backoff config.max_backoff n
run_background-delay t config rs n s h =
    Doubled-delay config.initial_backoff config.max_backoff n s
      (run_background t config (started config) rs).slept
      (run_background-Doubled t config (started config) rs) h

after_round-handshakes :
    (e : ConnectionExit) (b n k : ℕ) (rest : Log)
    → rest.handshakes ≤ k
    → (after_round e b n rest).handshakes ≤ n + k
after_round-handshakes user_shutdown b n k rest h = omega arith
after_round-handshakes recoverable b n k rest h = omega (arith, h)
after_round-handshakes failed b n k rest h = omega (arith, h)

abbrev pub spare : Bool → ℕ
spare true = 1
spare false = 0

offered :
    (t : String) (o : Bool) (first retry : Attempt)
    → handshakes_of o first + spare (connect t o first retry).0 ≡ 1 + spare o
offered t false first retry = refl
offered t true (accepted token) retry = refl
offered t true subprotocol_refused retry = refl
offered t true connect_failed retry = refl

handshakes-le :
    (t : String) (config : WsConfig) (s : Background) (rs : List Round)
    → (run_background t config s rs).handshakes ≤ length rs + spare s.offer_compression
unfolding run_background
handshakes-le t config s [] = omega arith
handshakes-le t config s (r ∷ rs) =
    let offer = (connect t s.offer_compression r.first r.retry).0 in
    let later : Background = record {
      offer_compression = offer;
      backoff = min (s.backoff * 2) config.max_backoff;
    } in
    let all =
      after_round-handshakes (run_exit (connect t s.offer_compression r.first r.retry).1 r.exit)
        s.backoff (handshakes_of s.offer_compression r.first) (length rs + spare offer)
        (run_background t config later rs) (handshakes-le t config later rs) in
    omega (arith, all, offered t s.offer_compression r.first r.retry)

-- The loop makes one handshake a round, and one more in all: a server that refuses the offer of
-- compression costs a second handshake once, since the offer is never made again.
pub run_background-handshakes :
    (t : String) (config : WsConfig) (rs : List Round)
    → (run_background t config (started config) rs).handshakes ≤ length rs + 1
run_background-handshakes t config rs = handshakes-le t config (started config) rs

-- no round's connection is shut down by the user
abbrev pub NoShutdown : List Round → Type 0
NoShutdown [] = Unit
NoShutdown (r ∷ rs) = (r.exit ≢ user_shutdown) × NoShutdown rs

after_round-alive :
    (m : Option WireMode) (e : ConnectionExit) (b n k : ℕ) (rest : Log)
    → e ≢ user_shutdown
    → (rest.alive ≡ true) × (length rest.slept ≡ k)
    → ((after_round (run_exit m e) b n rest).alive ≡ true)
      × (length (after_round (run_exit m e) b n rest).slept ≡ k + 1)
after_round-alive none e b n k rest h (a, l) = (a, omega (arith, l))
after_round-alive (some m) user_shutdown b n k rest h (a, l) = absurd (h refl)
after_round-alive (some m) recoverable b n k rest h (a, l) = (a, omega (arith, l))
after_round-alive (some m) failed b n k rest h (a, l) = (a, omega (arith, l))

-- Only the user ends the loop: while no connection is shut down, whatever fails, the loop stays
-- alive and sleeps once before each new attempt.
pub run_background-alive :
    (t : String) (config : WsConfig) (s : Background) (rs : List Round)
    → NoShutdown rs
    → ((run_background t config s rs).alive ≡ true)
      × (length (run_background t config s rs).slept ≡ length rs)
unfolding run_background
run_background-alive t config s [] g = (refl, refl)
run_background-alive t config s (r ∷ rs) (h, g) =
    let offer = (connect t s.offer_compression r.first r.retry).0 in
    let later : Background = record {
      offer_compression = offer;
      backoff = min (s.backoff * 2) config.max_backoff;
    } in
    let (a, l) =
      after_round-alive (connect t s.offer_compression r.first r.retry).1 r.exit s.backoff
        (handshakes_of s.offer_compression r.first) (length rs) (run_background t config later rs) h
        (run_background-alive t config later rs g) in
    (a, omega (arith, l))
