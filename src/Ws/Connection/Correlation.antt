-- ===== src/Ws/Connection/Correlation.antt =====
-- Which replies `run_connection` (src/ws/client.rs) gives: they answer posts that it has sent.
use mathlib.Core.Path.{subst}
use metaflux_client_rust.Base.{
  ℕ, zero, suc, String, true, false, List, [], ◌∷◌, Option, none, some, ◌==◌, ◌≡◌, refl, inl, inr,
  arith, Bool-cases, Option-cases, All,
}
use metaflux_client_rust.Json.{Value}
use metaflux_client_rust.Ws.Subscription.{Subscription}
use metaflux_client_rust.Ws.Connection.{
  subscribe, unsubscribe, post, cancel_post, shutdown, subscribe_frame, Message, text_message,
  binary, pong, ping, close, frame, Event, command, ping_tick, received, ended, stream_error,
  WsFrame, Connection, lookup, remove, is_post, response_id, response, correlate, dispatch_value,
  dispatch_parsed, running, replay, opened, incoming, turn, Reach, begin, next,
}

-- The history has a post of `id` that the socket took, for this caller.
pub data Posted (id caller : ℕ) : List Event → Type 0 where
  posted :
      (f : String) (es : List Event)
      → Posted id caller (command (some (post id f caller)) true ∷ es)
  earlier : {es : List Event} (e : Event) → Posted id caller es → Posted id caller (e ∷ es)

lookup_head :
    (id caller k r : ℕ) (p : List (ℕ × ℕ))
    → (k == id) ≡ true
    → lookup id ((k, r) ∷ p) ≡ some caller
    → (k ≡ id) × (r ≡ caller)
lookup_head id caller k r p b e = (ground (arith, b), ground (arith, b, e))

pub lookup-All :
    (P : (ℕ × ℕ) → Type 0) (id caller : ℕ) (p : List (ℕ × ℕ))
    → lookup id p ≡ some caller
    → All P p
    → P (id, caller)
lookup-All P id caller [] e a = absurd (cc e)
lookup-All P id caller ((k, r) ∷ p) e (h, a) = elim (Bool-cases (k == id)) [
  | inl b ↦
      let (f, g) = lookup_head id caller k r p b e in
      subst (λ x. P (id, x)) g (subst (λ x. P (x, r)) f h)
  | inr b ↦ lookup-All P id caller p (ground (arith, b, e)) a
]

pub remove-All : (P : (ℕ × ℕ) → Type 0) (id : ℕ) (p : List (ℕ × ℕ)) → All P p → All P (remove id p)
remove-All P id [] a = tt
remove-All P id ((k, r) ∷ p) (h, a) = elim (Bool-cases (k == id)) [
  | inl e ↦ rw (e) (remove-All P id p a)
  | inr e ↦ rw (e) (h, remove-All P id p a)
]

pub running_inj : {c d : Connection} → running c ≡ running d → c ≡ d
running_inj h = cc h

map-All {ℓ} :
    {A : Type ℓ} (P Q : A → Type 0) (xs : List A) → ((x : A) → P x → Q x) → All P xs → All Q xs
map-All P Q [] f a = tt
map-All P Q (x ∷ xs) f (h, a) = (f x h, map-All P Q xs f a)

module _ (parse : String → Option Value) (decoder : Option (List ℕ → Option String)) where
  -- The history has a frame of the `post` channel that names a post of this caller which was sent
  -- before it, with this response.
  pub data Answered (caller : ℕ) (v : Value) : List Event → Type 0 where
    answered :
        (m : Message) (w : Value) (id : ℕ) {es : List Event}
        → incoming parse decoder m ≡ some w
        → is_post w ≡ true
        → response_id w ≡ some id
        → response w ≡ v
        → Posted id caller es
        → Answered caller v (received m ∷ es)
    earlier_answer :
        {es : List Event} (e : Event) → Answered caller v es → Answered caller v (e ∷ es)

  -- What is pending was posted, what was replied was answered, and nothing of the `post` channel
  -- was broadcast.
  abbrev pub Correlated : List Event → Connection → Type 0
  Correlated es c =
      All (λ q. Posted q.0 q.1 es) c.pending
      × All (λ r. Answered r.0 r.1 es) c.replies
      × All (λ (w : WsFrame). is_post w.message ≡ false) c.inbound

  later : (es : List Event) (e : Event) (c : Connection) → Correlated es c → Correlated (e ∷ es) c
  later es e c (p, r, b) = (
    map-All (λ q. Posted q.0 q.1 es) (λ q. Posted q.0 q.1 (e ∷ es)) c.pending (λ q h. earlier e h)
        p,
    map-All (λ q. Answered q.0 q.1 es) (λ q. Answered q.0 q.1 (e ∷ es)) c.replies
        (λ q h. earlier_answer e h) r,
    b,
  )

  correlate-Correlated :
      (m : Message) (w : Value) (es : List Event) (c : Connection)
      → incoming parse decoder m ≡ some w
      → is_post w ≡ true
      → Correlated es c
      → Correlated (received m ∷ es) (correlate (response_id w) w c)
  correlate-Correlated m w es c e p g = elim (Option-cases (response_id w)) [
    | inl n ↦ rw (n) (later es (received m) c g)
    | inr (id, n) ↦ elim (Option-cases (lookup id c.pending)) [
      | inl l ↦ rw (n, l) (later es (received m) c g)
      | inr (caller, l) ↦
          let (a, r, b) = later es (received m) c g in
          rw (n, l)
            (
              remove-All (λ q. Posted q.0 q.1 (received m ∷ es)) id c.pending a,
              (
                answered m w id e p n refl
                    (lookup-All (λ q. Posted q.0 q.1 es) id caller c.pending l g.0),
                r,
              ),
              b,
            )
    ]
  ]

  dispatch-Correlated :
      (m : Message) (o : Option Value) (es : List Event) (c : Connection)
      → incoming parse decoder m ≡ o
      → Correlated es c
      → Correlated (received m ∷ es) (dispatch_parsed o c)
  unfolding dispatch_value
  dispatch-Correlated m none es c e g = later es (received m) c g
  dispatch-Correlated m (some w) es c e g = elim (Bool-cases (is_post w)) [
    | inl p ↦ rw (p) (correlate-Correlated m w es c e p g)
    | inr p ↦ let (a, r, b) = later es (received m) c g in rw (p) (a, r, (p, b))
  ]

  turn-Correlated :
      (e : Event) (es : List Event) (c d : Connection)
      → Correlated es c
      → turn parse decoder e c ≡ running d
      → Correlated (e ∷ es) d
  turn-Correlated (command none ok) es c d g h = absurd (cc h)
  turn-Correlated (command (some shutdown) ok) es c d g h = absurd (cc h)
  turn-Correlated (command (some (subscribe s)) true) es c d g h =
      subst (λ x. Correlated ((command (some (subscribe s)) true) ∷ es) x) (running_inj h)
        (later es (command (some (subscribe s)) true) c g)
  turn-Correlated (command (some (subscribe s)) false) es c d g h = absurd (cc h)
  turn-Correlated (command (some (unsubscribe s)) true) es c d g h =
      subst (λ x. Correlated ((command (some (unsubscribe s)) true) ∷ es) x) (running_inj h)
        (later es (command (some (unsubscribe s)) true) c g)
  turn-Correlated (command (some (unsubscribe s)) false) es c d g h = absurd (cc h)
  turn-Correlated (command (some (post id f caller)) true) es c d g h =
      let (p, r, b) = later es (command (some (post id f caller)) true) c g in
      subst (λ x. Correlated ((command (some (post id f caller)) true) ∷ es) x) (running_inj h)
        (
          (
            posted f es,
            remove-All (λ q. Posted q.0 q.1 ((command (some (post id f caller)) true) ∷ es)) id
                c.pending p,
          ),
          r,
          b,
        )
  turn-Correlated (command (some (post id f caller)) false) es c d g h = absurd (cc h)
  turn-Correlated (command (some (cancel_post id)) ok) es c d g h =
      let (p, r, b) = later es (command (some (cancel_post id)) ok) c g in
      subst (λ x. Correlated ((command (some (cancel_post id)) ok) ∷ es) x) (running_inj h)
        (
          remove-All (λ q. Posted q.0 q.1 ((command (some (cancel_post id)) ok) ∷ es)) id c.pending
              p,
          r,
          b,
        )
  turn-Correlated (ping_tick true) es c d g h =
      subst (λ x. Correlated ((ping_tick true) ∷ es) x) (running_inj h)
        (later es (ping_tick true) c g)
  turn-Correlated (ping_tick false) es c d g h = absurd (cc h)
  turn-Correlated (received pong) es c d g h =
      subst (λ x. Correlated ((received pong) ∷ es) x) (running_inj h)
        (later es (received pong) c g)
  turn-Correlated (received ping) es c d g h =
      subst (λ x. Correlated ((received ping) ∷ es) x) (running_inj h)
        (later es (received ping) c g)
  turn-Correlated (received frame) es c d g h =
      subst (λ x. Correlated ((received frame) ∷ es) x) (running_inj h)
        (later es (received frame) c g)
  turn-Correlated (received close) es c d g h = absurd (cc h)
  turn-Correlated (received (text_message t)) es c d g h =
      subst (λ x. Correlated ((received (text_message t)) ∷ es) x) (running_inj h)
        (dispatch-Correlated (text_message t) (parse t) es c refl g)
  turn-Correlated (received (binary m)) es c d g h =
      subst (λ x. Correlated ((received (binary m)) ∷ es) x) (running_inj h)
        (dispatch-Correlated (binary m) (incoming parse decoder (binary m)) es c refl g)
  turn-Correlated ended es c d g h = absurd (cc h)
  turn-Correlated stream_error es c d g h = absurd (cc h)

  replay-Correlated :
      (n : ℕ) (subs : List Subscription) (c d : Connection)
      → Correlated [] c
      → replay n subs c ≡ running d
      → Correlated [] d
  replay-Correlated n [] c d g h = subst (λ x. Correlated [] x) (running_inj h) g
  replay-Correlated zero (s ∷ subs) c d g h = absurd (cc h)
  replay-Correlated (suc n) (s ∷ subs) c d g h =
      replay-Correlated n subs (record c { sent = subscribe_frame s ∷ c.sent }) d g h

  reach-Correlated :
      (c d : Connection) (es : List Event)
      → Correlated [] c
      → Reach parse decoder c es d
      → Correlated es d
  reach-Correlated c d es g begin = g
  reach-Correlated c d es g (next e r h) = turn-Correlated e _ _ d (reach-Correlated c _ _ g r) h

  -- Whatever the events of a connection and their order, after its replay of any subscriptions:
  -- each pending entry is a post that the socket took; each reply goes to a caller whose post was
  -- sent before a frame of the `post` channel that names its id, and carries that frame's response;
  -- and no frame of the `post` channel is broadcast.
  pub Reach-Correlated :
      (n : ℕ) (subs : List Subscription) (c d : Connection) (es : List Event)
      → replay n subs opened ≡ running c
      → Reach parse decoder c es d
      → Correlated es d
  Reach-Correlated n subs c d es h r =
      reach-Correlated c d es (replay-Correlated n subs opened c (tt, tt, tt) h) r
