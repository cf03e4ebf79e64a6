-- ===== src/Envelope/Split.antt =====
-- When a call of the REST client (src/rest/mod.rs) succeeds: the body decides before the status.
use mathlib.Core.Path.{subst}
use metaflux_client_rust.Base.{
  ℕ, Bool, true, false, List, Option, none, some, if◌then◌else◌, ◌≡◌, ◌≢◌, refl, ap, Result, ok,
  err, map_err, ◌>>=◌,
}
use metaflux_client_rust.Json.{
  Value, null, bool, number, negative, float, string, array, object, Fields, find_field,
}
use metaflux_client_rust.Envelope.{
  ClientError, json, protocol_error, is_success, error_half, refused_as, split_fields,
  decode_envelope, accept, read_body, post_json,
}

-- What a success comes from: its payload is the `data` half of an object, null or not, or a body
-- that has neither half.
pub data Payload : Value → Value → Type 0 where
  data_half :
      (fs : Fields) (d : Value)
      → error_half fs ≡ none
      → find_field "data" fs ≡ some d
      → Payload (object fs) d
  bare_object :
      (fs : Fields)
      → error_half fs ≡ none
      → find_field "data" fs ≡ none
      → Payload (object fs) (object fs)
  verbatim : (v : Value) → ((fs : Fields) → v ≢ object fs) → Payload v v

ok_inj : {E : Type 0} {A : Type 0} {a b : A} → ◌≡◌ {A = Result E A} (ok a) (ok b) → a ≡ b
ok_inj h = cc h

module _ {T J P R : Type 0} (api_error : Value → Result J P) (parse : List ℕ → Result J Value)
    (decode : Value → Result J R) where
  refused-err : (o : Result J P) (d : Value) → refused_as {T = T} api_error o ≡ ok d → ⊥
  refused-err (ok p) d h = cc h
  refused-err (err j) d h = cc h

  split-Payload :
      (fs : Fields) (o p : Option Value) (d : Value)
      → error_half fs ≡ o
      → find_field "data" fs ≡ p
      → split_fields {T = T} api_error o p fs ≡ ok d
      → Payload (object fs) d
  split-Payload fs (some raw) p d e n h = absurd (refused-err (api_error raw) d h)
  split-Payload fs none (some x) d e n h =
      subst (λ y. Payload (object fs) y) (ok_inj h) (data_half fs x e n)
  split-Payload fs none none d e n h =
      subst (λ y. Payload (object fs) y) (ok_inj h) (bare_object fs e n)

  pub decode_envelope-Payload :
      (v d : Value) → decode_envelope {T = T} api_error v ≡ ok d → Payload v d
  unfolding decode_envelope
  decode_envelope-Payload null d h =
      subst (λ x. Payload null x) (ok_inj h) (verbatim null (λ fs e. cc e))
  decode_envelope-Payload (bool b) d h =
      subst (λ x. Payload (bool b) x) (ok_inj h) (verbatim (bool b) (λ fs e. cc e))
  decode_envelope-Payload (number n) d h =
      subst (λ x. Payload (number n) x) (ok_inj h) (verbatim (number n) (λ fs e. cc e))
  decode_envelope-Payload (negative n) d h =
      subst (λ x. Payload (negative n) x) (ok_inj h) (verbatim (negative n) (λ fs e. cc e))
  decode_envelope-Payload (float n) d h =
      subst (λ x. Payload (float n) x) (ok_inj h) (verbatim (float n) (λ fs e. cc e))
  decode_envelope-Payload (string s) d h =
      subst (λ x. Payload (string s) x) (ok_inj h) (verbatim (string s) (λ fs e. cc e))
  decode_envelope-Payload (array xs) d h =
      subst (λ x. Payload (array xs) x) (ok_inj h) (verbatim (array xs) (λ fs e. cc e))
  decode_envelope-Payload (object fs) d h =
      split-Payload fs (error_half fs) (find_field "data" fs) d refl refl h

  accepted :
      (b : Bool) (m : Result J R) (e : ClientError T J P) (r : R)
      → (if b then map_err json m else err e) ≡ ok r
      → (b ≡ true) × (m ≡ ok r)
  accepted true (ok x) e r h = (refl, ap ok (ok_inj h))
  accepted true (err j) e r h = absurd (cc h)
  accepted false m e r h = absurd (cc h)

  unread-err :
      (b : Bool) (e f : ClientError T J P) (r : R)
      → ◌≡◌ {A = Result (ClientError T J P) R} (if b then err e else err f) (ok r)
      → ⊥
  unread-err true e f r h = cc h
  unread-err false e f r h = cc h

  bind-ok :
      (m : Result (ClientError T J P) Value) (f : Value → Result (ClientError T J P) R) (r : R)
      → (m >>= f) ≡ ok r
      → (d : Value) × (m ≡ ok d) × (f d ≡ ok r)
  bind-ok (ok d) f r h = (d, refl, h)
  bind-ok (err e) f r h = absurd (cc h)

  read-Payload :
      (status : ℕ) (bytes : List ℕ) (r : R) (m : Result J Value)
      → read_body {T = T} api_error parse decode status bytes m ≡ ok r
      → (is_success status ≡ true)
        × (v : Value) × (d : Value) × (m ≡ ok v)
        × Payload v d
        × (decode d ≡ ok r)
  read-Payload status bytes r (err j) h =
      absurd (unread-err (is_success status) (json j) (protocol_error status bytes) r h)
  read-Payload status bytes r (ok v) h =
      let (d, e, f) =
        bind-ok (decode_envelope {T = T} api_error v) (accept api_error parse decode status bytes) r
          h in
      let (s, g) = accepted (is_success status) (decode d) (protocol_error status bytes) r f in
      (s, v, d, refl, decode_envelope-Payload v d e, g)

  -- A call succeeds only with a successful status and a body that holds a payload, which the typed
  -- decoder reads: no rejection, failure status, or unreadable body is taken for a success.
  pub post_json_succeeds :
      (status : ℕ) (bytes : List ℕ) (r : R)
      → post_json {T = T} api_error parse decode (ok (status, bytes)) ≡ ok r
      → (is_success status ≡ true)
        × (v : Value) × (d : Value) × (parse bytes ≡ ok v)
        × Payload v d
        × (decode d ≡ ok r)
  unfolding post_json
  post_json_succeeds status bytes r h = read-Payload status bytes r (parse bytes) h
