-- ===== src/Envelope.antt =====
-- The response envelope that `/info` and `/exchange` share: `decode_envelope`, `post_json` and
-- `protocol_error` (src/rest/mod.rs). The transport, the JSON parser and the typed decoders are
-- parameters.
pub mod Split
pub mod Rejected
mod Tests
use metaflux_client_rust.Base.{
  ℕ, Bool, true, false, ◌&&◌, List, Option, none, some, if◌then◌else◌, leb, Result, ok, err,
  map_err, ◌>>=◌,
}
use metaflux_client_rust.Json.{
  Value, null, bool, number, negative, float, string, array, object, Fields, find_field, is_null,
}

-- `ClientError`, with the errors of the transport and of serde, and the API errors, as parameters.
pub data ClientError (T J P : Type 0) : Type 0 where
  transport : T → ClientError T J P
  json : J → ClientError T J P
  api : P → ClientError T J P
  -- the status, and the raw body
  protocol_error : ℕ → List ℕ → ClientError T J P

-- `StatusCode::is_success`.
abbrev pub is_success : ℕ → Bool
is_success status = leb 200 status && leb status 299

-- `map.get("error").is_some_and(|e| !e.is_null())`, keeping the value.
abbrev pub non_null : Option Value → Option Value
non_null none = none
non_null (some e) = if is_null e then none else some e

abbrev pub error_half : Fields → Option Value
error_half fs = non_null (find_field "error" fs)

module _ {T J P : Type 0} (api_error : Value → Result J P) where
  -- A rejection is an error, whether or not serde can read it.
  abbrev pub refused_as : Result J P → Result (ClientError T J P) Value
  refused_as (ok p) = err (api p)
  refused_as (err j) = err (json j)

  abbrev pub split_fields : Option Value → Option Value → Fields → Result (ClientError T J P) Value
  split_fields (some raw) d fs = refused_as (api_error raw)
  split_fields none (some d) fs = ok d
  split_fields none none fs = ok (object fs)

  unfoldable pub decode_envelope : Value → Result (ClientError T J P) Value
  decode_envelope (object fs) = split_fields (error_half fs) (find_field "data" fs) fs
  decode_envelope null = ok null
  decode_envelope (bool b) = ok (bool b)
  decode_envelope (number n) = ok (number n)
  decode_envelope (negative n) = ok (negative n)
  decode_envelope (float n) = ok (float n)
  decode_envelope (string s) = ok (string s)
  decode_envelope (array xs) = ok (array xs)

  -- `post_json`, for what the transport answers: a status and a body.
  module _ {R : Type 0} (parse : List ℕ → Result J Value) (decode : Value → Result J R) where
    abbrev pub accept : ℕ → List ℕ → Value → Result (ClientError T J P) R
    accept status bytes payload =
        if is_success status
        then map_err json (decode payload)
        else err (protocol_error status bytes)

    abbrev pub unreadable : ℕ → List ℕ → J → Result (ClientError T J P) R
    unreadable status bytes j =
        if is_success status then err (json j) else err (protocol_error status bytes)

    abbrev pub read_body : ℕ → List ℕ → Result J Value → Result (ClientError T J P) R
    read_body status bytes (err j) = unreadable status bytes j
    read_body status bytes (ok v) = decode_envelope v >>= accept status bytes

    unfoldable pub post_json : Result T (ℕ × List ℕ) → Result (ClientError T J P) R
    post_json (err t) = err (transport t)
    post_json (ok (status, bytes)) = read_body status bytes (parse bytes)
