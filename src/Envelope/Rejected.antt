-- ===== src/Envelope/Rejected.antt =====
-- When a call of the REST client (src/rest/mod.rs) is rejected by the node: the `error` half of the
-- body decides, whatever the status.
use metaflux_client_rust.Base.{
  ℕ, Bool, true, false, List, Option, none, some, if◌then◌else◌, ◌≡◌, refl, Result, ok, err,
  map_err, ◌>>=◌, ◌↔◌, ◌∙◌, inl, inr, Bool-cases, Result-cases,
}
use metaflux_client_rust.Json.{
  Value, null, bool, number, negative, float, string, array, object, Fields, find_field, is_null,
}
use metaflux_client_rust.Envelope.{
  ClientError, json, api, protocol_error, is_success, error_half, non_null, split_fields,
  decode_envelope, accept, read_body, post_json,
}

some_inj : {A : Type 0} {a b : A} → ◌≡◌ {A = Option A} (some a) (some b) → a ≡ b
some_inj h = cc h

half_present :
    (o : Option Value) (raw : Value)
    → (non_null o ≡ some raw) ↔ ((o ≡ some raw) × (is_null raw ≡ false))
half_present none raw = (λ h. absurd (cc h), λ (h, n). absurd (cc h))
half_present (some e) raw = elim (Bool-cases (is_null e)) [
  | inl n ↦ rw n (λ h. absurd (cc h), λ (h, k). absurd (cc (n, k, h)))
  | inr n ↦ rw n (λ h. (h, rw (← some_inj h) n), λ (h, k). h)
]

-- What a rejection is read from: an object with an `error` half that is not null and is read as it.
abbrev pub IsRejection : {J P : Type 0} → (Value → Result J P) → Result J Value → P → Type 0
IsRejection api_error body p =
    (fs : Fields) × (raw : Value) × (body ≡ ok (object fs))
    × (find_field "error" fs ≡ some raw)
    × (is_null raw ≡ false)
    × (api_error raw ≡ ok p)

module _ {T J P R : Type 0} (api_error : Value → Result J P) (parse : List ℕ → Result J Value)
    (decode : Value → Result J R) where
  unread-api :
      (b : Bool) (j : J) (status : ℕ) (bytes : List ℕ) (p : P)
      → ◌≡◌ {A = Result (ClientError T J P) R}
          (if b then err (json j) else err (protocol_error status bytes))
          (err (api p))
      → ⊥
  unread-api true j status bytes p h = cc h
  unread-api false j status bytes p h = cc h

  accept-api :
      (b : Bool) (m : Result J R) (status : ℕ) (bytes : List ℕ) (p : P)
      → ◌≡◌ {A = Result (ClientError T J P) R}
          (if b then map_err json m else err (protocol_error status bytes))
          (err (api p))
      → ⊥
  accept-api true (ok r) status bytes p h = cc h
  accept-api true (err j) status bytes p h = cc h
  accept-api false m status bytes p h = cc h

  split-api :
      (o d : Option Value) (fs : Fields) (status : ℕ) (bytes : List ℕ) (p : P)
      → (split_fields {T = T} api_error o d fs >>= accept api_error parse decode status bytes)
        ≡ err (api p)
      → (raw : Value) × (o ≡ some raw) × (api_error raw ≡ ok p)
  split-api none (some v) fs status bytes p h =
      absurd (accept-api (is_success status) (decode v) status bytes p h)
  split-api none none fs status bytes p h =
      absurd (accept-api (is_success status) (decode (object fs)) status bytes p h)
  split-api (some raw) d fs status bytes p h = elim (Result-cases (api_error raw)) [
    | inl (q, e) ↦ (raw, refl, e ∙ cc (rw e at h))
    | inr (x, e) ↦ absurd (cc (rw e at h))
  ]

  read-IsRejection :
      (status : ℕ) (bytes : List ℕ) (p : P) (m : Result J Value)
      → read_body {T = T} api_error parse decode status bytes m ≡ err (api p)
      → IsRejection api_error m p
  unfolding decode_envelope
  read-IsRejection status bytes p (err j) h =
      absurd (unread-api (is_success status) j status bytes p h)
  read-IsRejection status bytes p (ok (object fs)) h =
      let (raw, e, a) = split-api (error_half fs) (find_field "data" fs) fs status bytes p h in
      let (f, n) = (half_present (find_field "error" fs) raw).0 e in (fs, raw, refl, f, n, a)
  read-IsRejection status bytes p (ok null) h =
      absurd (accept-api (is_success status) (decode null) status bytes p h)
  read-IsRejection status bytes p (ok (bool b)) h =
      absurd (accept-api (is_success status) (decode (bool b)) status bytes p h)
  read-IsRejection status bytes p (ok (number n)) h =
      absurd (accept-api (is_success status) (decode (number n)) status bytes p h)
  read-IsRejection status bytes p (ok (negative n)) h =
      absurd (accept-api (is_success status) (decode (negative n)) status bytes p h)
  read-IsRejection status bytes p (ok (float n)) h =
      absurd (accept-api (is_success status) (decode (float n)) status bytes p h)
  read-IsRejection status bytes p (ok (string s)) h =
      absurd (accept-api (is_success status) (decode (string s)) status bytes p h)
  read-IsRejection status bytes p (ok (array xs)) h =
      absurd (accept-api (is_success status) (decode (array xs)) status bytes p h)

  -- A call that is answered fails with an API error exactly when the body is an object whose `error`
  -- half is present and not null and is read as that error: at every status, 200 included, and whatever
  -- its `data` half; and no other failure, of the status, of the body or of the typed decoder, is given
  -- out as a rejection by the node.
  pub post_json_rejected_iff :
      (status : ℕ) (bytes : List ℕ) (p : P)
      → (post_json {T = T} api_error parse decode (ok (status, bytes)) ≡ err (api p))
        ↔ IsRejection api_error (parse bytes) p
  unfolding post_json decode_envelope
  post_json_rejected_iff status bytes p = (
    λ h. read-IsRejection status bytes p (parse bytes) h,
    λ (fs, raw, e, f, n, a). rw (e, f, n, a) refl,
  )
