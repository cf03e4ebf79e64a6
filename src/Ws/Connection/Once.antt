-- ===== src/Ws/Connection/Once.antt =====
-- How often `run_connection` (src/ws/client.rs) replies: at most once for each post, and never for
-- a post that its caller gave up.
use mathlib.Core.Path.{subst}
use metaflux_client_rust.Base.{
  ℕ, zero, suc, ◌+◌, ◌≤◌, String, Bool, true, false, List, [], ◌∷◌, Option, none, some, ◌==◌, ◌≡◌,
  refl, ◌⊎◌, inl, inr, arith, Bool-cases, Option-cases,
}
use metaflux_client_rust.Json.{Value}
use metaflux_client_rust.Ws.Subscription.{Subscription}
use metaflux_client_rust.Ws.Connection.{
  subscribe, unsubscribe, post, cancel_post, shutdown, subscribe_frame, text_message, binary, pong,
  ping, close, frame, Event, command, ping_tick, received, ended, stream_error, Connection, lookup,
  remove, is_post, response_id, correlate, dispatch_value, dispatch_parsed, running, replay, opened,
  incoming, turn, Reach, begin, next,
}
use metaflux_client_rust.Ws.Connection.Correlation.{running_inj}

abbrev pub one_if : Bool → ℕ
one_if true = 1
one_if false = 0

-- how often a caller has a reply, is pending, and has posted
abbrev pub replied : ℕ → List (ℕ × Value) → ℕ
replied a [] = 0
replied a (r ∷ rs) = one_if (r.0 == a) + replied a rs

abbrev pub awaited : ℕ → List (ℕ × ℕ) → ℕ
awaited a [] = 0
awaited a (q ∷ p) = one_if (q.1 == a) + awaited a p

abbrev pub posts_of : ℕ → Event → ℕ
posts_of a (command (some (post id f caller)) ok) = one_if (caller == a)
posts_of a _ = 0

abbrev pub posts : ℕ → List Event → ℕ
posts a [] = 0
posts a (e ∷ es) = posts_of a e + posts a es

awaited-remove : (a id : ℕ) (p : List (ℕ × ℕ)) → awaited a (remove id p) ≤ awaited a p
awaited-remove a id [] = omega arith
awaited-remove a id ((k, r) ∷ p) = elim (Bool-cases (k == id)) [
  | inl e ↦ rw (e) (omega (arith, awaited-remove a id p))
  | inr e ↦ rw (e) (omega (arith, awaited-remove a id p))
]

taken_head :
    (id caller k r : ℕ) (p : List (ℕ × ℕ))
    → (k == id) ≡ true
    → lookup id ((k, r) ∷ p) ≡ some caller
    → r ≡ caller
taken_head id caller k r p e h = ground (arith, e, h)

awaited-taken :
    (a id caller : ℕ) (p : List (ℕ × ℕ))
    → lookup id p ≡ some caller
    → one_if (caller == a) + awaited a (remove id p) ≤ awaited a p
awaited-taken a id caller [] h = absurd (cc h)
awaited-taken a id caller ((k, r) ∷ p) h = elim (Bool-cases (k == id)) [
  | inl e ↦ rw (e, taken_head id caller k r p e h) (omega (arith, awaited-remove a id p))
  | inr e ↦ rw (e) (omega (arith, awaited-taken a id caller p (ground (arith, h, e))))
]

abbrev pub Bounded : ℕ → List Event → Connection → Type 0
Bounded a es c = replied a c.replies + awaited a c.pending ≤ posts a es

correlate-Bounded :
    (a : ℕ) (o : Option ℕ) (w : Value) (es : List Event) (c : Connection)
    → Bounded a es c
    → Bounded a es (correlate o w c)
correlate-Bounded a none w es c g = g
correlate-Bounded a (some id) w es c g = elim (Option-cases (lookup id c.pending)) [
  | inl l ↦ rw (l) g
  | inr (caller, l) ↦ rw (l) (omega (arith, g, awaited-taken a id caller c.pending l))
]

dispatch-Bounded :
    (a : ℕ) (o : Option Value) (es : List Event) (c : Connection)
    → Bounded a es c
    → Bounded a es (dispatch_parsed o c)
unfolding dispatch_value
dispatch-Bounded a none es c g = g
dispatch-Bounded a (some w) es c g = elim (Bool-cases (is_post w)) [
  | inl p ↦ rw (p) (correlate-Bounded a (response_id w) w es c g)
  | inr p ↦ rw (p) g
]

-- After a response, or after the caller gave up, the id is pending no more.
lookup-remove : (id : ℕ) (p : List (ℕ × ℕ)) → lookup id (remove id p) ≡ none
lookup-remove id [] = refl
lookup-remove id ((k, r) ∷ p) = elim (Bool-cases (k == id)) [
  | inl e ↦ rw (e) (lookup-remove id p)
  | inr e ↦ ground (arith, e, lookup-remove id p)
]

ignored :
    (id : ℕ) (w : Value) (d : Connection)
    → is_post w ≡ true
    → response_id w ≡ some id
    → lookup id d.pending ≡ none
    → dispatch_value w d ≡ d
unfolding dispatch_value
ignored id w d p i l = rw (p, i, l) refl

answered_lem :
    (id : ℕ) (v : Value) (c : Connection)
    → is_post v ≡ true
    → response_id v ≡ some id
    → lookup id (dispatch_value v c).pending ≡ none
unfolding dispatch_value
answered_lem id v c p i = elim (Option-cases (lookup id c.pending)) [
  | inl l ↦ rw (p, i, l) l
  | inr (caller, l) ↦ rw (p, i, l) (lookup-remove id c.pending)
]

module _ (parse : String → Option Value) (decoder : Option (List ℕ → Option String)) where
  turn-Bounded :
      (a : ℕ) (e : Event) (es : List Event) (c d : Connection)
      → Bounded a es c
      → turn parse decoder e c ≡ running d
      → Bounded a (e ∷ es) d
  turn-Bounded a (command none ok) es c d g h = absurd (cc h)
  turn-Bounded a (command (some shutdown) ok) es c d g h = absurd (cc h)
  turn-Bounded a (command (some (subscribe s)) true) es c d g h =
      subst (λ x. Bounded a ((command (some (subscribe s)) true) ∷ es) x) (running_inj h)
        (omega (arith, g))
  turn-Bounded a (command (some (subscribe s)) false) es c d g h = absurd (cc h)
  turn-Bounded a (command (some (unsubscribe s)) true) es c d g h =
      subst (λ x. Bounded a ((command (some (unsubscribe s)) true) ∷ es) x) (running_inj h)
        (omega (arith, g))
  turn-Bounded a (command (some (unsubscribe s)) false) es c d g h = absurd (cc h)
  turn-Bounded a (command (some (post id f caller)) true) es c d g h =
      subst (λ x. Bounded a ((command (some (post id f caller)) true) ∷ es) x) (running_inj h)
        (omega (arith, g, awaited-remove a id c.pending))
  turn-Bounded a (command (some (post id f caller)) false) es c d g h = absurd (cc h)
  turn-Bounded a (command (some (cancel_post id)) ok) es c d g h =
      subst (λ x. Bounded a ((command (some (cancel_post id)) ok) ∷ es) x) (running_inj h)
        (omega (arith, g, awaited-remove a id c.pending))
  turn-Bounded a (ping_tick true) es c d g h =
      subst (λ x. Bounded a ((ping_tick true) ∷ es) x) (running_inj h) (omega (arith, g))
  turn-Bounded a (ping_tick false) es c d g h = absurd (cc h)
  turn-Bounded a (received pong) es c d g h =
      subst (λ x. Bounded a ((received pong) ∷ es) x) (running_inj h) (omega (arith, g))
  turn-Bounded a (received ping) es c d g h =
      subst (λ x. Bounded a ((received ping) ∷ es) x) (running_inj h) (omega (arith, g))
  turn-Bounded a (received frame) es c d g h =
      subst (λ x. Bounded a ((received frame) ∷ es) x) (running_inj h) (omega (arith, g))
  turn-Bounded a (received close) es c d g h = absurd (cc h)
  turn-Bounded a (received (text_message t)) es c d g h =
      subst (λ x. Bounded a ((received (text_message t)) ∷ es) x) (running_inj h)
        (omega (arith, dispatch-Bounded a (parse t) es c g))
  turn-Bounded a (received (binary m)) es c d g h =
      subst (λ x. Bounded a ((received (binary m)) ∷ es) x) (running_inj h)
        (omega (arith, dispatch-Bounded a (incoming parse decoder (binary m)) es c g))
  turn-Bounded a ended es c d g h = absurd (cc h)
  turn-Bounded a stream_error es c d g h = absurd (cc h)

  replay-Bounded :
      (a n : ℕ) (subs : List Subscription) (c d : Connection)
      → Bounded a [] c
      → replay n subs c ≡ running d
      → Bounded a [] d
  replay-Bounded a n [] c d g h = subst (λ x. Bounded a [] x) (running_inj h) g
  replay-Bounded a zero (s ∷ subs) c d g h = absurd (cc h)
  replay-Bounded a (suc n) (s ∷ subs) c d g h =
      replay-Bounded a n subs (record c { sent = subscribe_frame s ∷ c.sent }) d g h

  reach-Bounded :
      (a : ℕ) (c d : Connection) (es : List Event)
      → Bounded a [] c
      → Reach parse decoder c es d
      → Bounded a es d
  reach-Bounded a c d es g begin = g
  reach-Bounded a c d es g (next e r h) = turn-Bounded a e _ _ d (reach-Bounded a c _ _ g r) h

  -- Whatever the events of a connection and their order, after its replay of any subscriptions, the
  -- replies and the pending entries of a caller are together at most its posts: no post is replied
  -- to twice.
  pub replied_once :
      (a n : ℕ) (subs : List Subscription) (c d : Connection) (es : List Event)
      → replay n subs opened ≡ running c
      → Reach parse decoder c es d
      → replied a d.replies + awaited a d.pending ≤ posts a es
  replied_once a n subs c d es h r =
      reach-Bounded a c d es (replay-Bounded a n subs opened c (omega arith) h) r

  -- Once the caller of `id` gave up, or its response was dispatched, another response to `id`
  -- changes nothing until `id` is posted again.
  pub response_ignored :
      (id : ℕ) (ok : Bool) (v w : Value) (c d : Connection)
      → is_post w ≡ true
      → response_id w ≡ some id
      → (turn parse decoder (command (some (cancel_post id)) ok) c ≡ running d)
        ⊎ ((is_post v ≡ true) × (response_id v ≡ some id) × (dispatch_value v c ≡ d))
      → dispatch_value w d ≡ d
  response_ignored id ok v w c d p i (inl h) =
      ignored id w d p i
        (subst (λ x. lookup id x.pending ≡ none) (running_inj h) (lookup-remove id c.pending))
  response_ignored id ok v w c d p i (inr (q, j, h)) =
      ignored id w d p i (subst (λ x. lookup id x.pending ≡ none) h (answered_lem id v c q j))
