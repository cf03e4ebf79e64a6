-- ===== src/Ws/Post/Outcomes.antt =====
-- When a post over the WebSocket (src/ws/client.rs) succeeds.
use metaflux_client_rust.Base.{
  ℕ, String, Bool, true, false, [], ◌∷◌, if◌then◌else◌, and_then, unwrap_or, Result, ok, err,
  map_err, ◌≡◌, refl, ap,
}
use metaflux_client_rust.Json.{Value, null, get, as_str}
use metaflux_client_rust.Envelope.{ClientError, decode_envelope}
use metaflux_client_rust.Envelope.Split.{Payload, decode_envelope-Payload}
use metaflux_client_rust.Ws.Connection.{is_text}
use metaflux_client_rust.Ws.Post.{
  Wait, answered, dropped, elapsed, PostError, envelope, refused_post, post_command, post_request,
}

ok_inj : {E A : Type 0} {a b : A} → ◌≡◌ {A = Result E A} (ok a) (ok b) → a ≡ b
ok_inj h = cc h

map_err-ok : {E F A : Type 0} (f : E → F) (r : Result E A) (a : A) → map_err f r ≡ ok a → r ≡ ok a
map_err-ok f (ok x) a h = ap ok (ok_inj h)
map_err-ok f (err e) a h = absurd (cc h)

module _ {T J P : Type 0} (api_error : Value → Result J P) where
  read_lem :
      (v d : Value) (b : Bool) (s : String)
      → is_text (and_then (get "type" v) as_str) "error" ≡ b
      → ◌≡◌ {A = Result (PostError (ClientError T J P)) Value}
          (if b
            then err (refused_post s)
            else map_err envelope (decode_envelope api_error (unwrap_or (get "payload" v) null)))
          (ok d)
      → (b ≡ false) × Payload (unwrap_or (get "payload" v) null) d
  read_lem v d true s e h = absurd (cc h)
  read_lem v d false s e h = (
    refl,
    decode_envelope-Payload {T = T} {R = Value} api_error (λ x. ok null) (λ x. ok null)
        (unwrap_or (get "payload" v) null) d
        (map_err-ok envelope (decode_envelope api_error (unwrap_or (get "payload" v) null)) d h),
  )

  -- A post returns a value only where the task took it, its response arrived in time and is not an
  -- error reply, and the value is what the response's payload holds under the envelope; then one
  -- post command was given and no cancellation.
  pub post_request_succeeds :
      (frame_text : ℕ → String → Value → String) (id : ℕ) (taken : Bool) (request_type : String)
      (payload : Value) (w : Wait) (d : Value)
      → (post_request {T = T} api_error frame_text id taken request_type payload w).result ≡ ok d
      → (v : Value) × (taken ≡ true)
        × (w ≡ answered v)
        × (is_text (and_then (get "type" v) as_str) "error" ≡ false)
        × Payload (unwrap_or (get "payload" v) null) d
        × ((post_request {T = T} api_error frame_text id taken request_type payload w).commands
            ≡ post_command frame_text id request_type payload ∷ [])
  unfolding post_request
  post_request_succeeds frame_text id false request_type payload w d h = absurd (cc h)
  post_request_succeeds frame_text id true request_type payload dropped d h = absurd (cc h)
  post_request_succeeds frame_text id true request_type payload elapsed d h = absurd (cc h)
  post_request_succeeds frame_text id true request_type payload (answered v) d h =
      let (n, p) =
        read_lem v d (is_text (and_then (get "type" v) as_str) "error")
          (unwrap_or (and_then (get "payload" v) as_str) "unknown post error") refl h in
      (v, refl, refl, n, p, refl)
