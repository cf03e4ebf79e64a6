-- ===== src/Envelope/Tests.antt =====
-- Runs of the response envelope (src/rest/mod.rs).
use metaflux_client_rust.Base.{ℕ, List, [], ◌∷◌, ◌≡◌, ◌↔◌, refl, true, Result, ok, err}
use metaflux_client_rust.Json.{Value, number, string, object, Fields, end, field}
use metaflux_client_rust.Envelope.{api, is_success, post_json, decode_envelope}
use metaflux_client_rust.Envelope.Split.{Payload, post_json_succeeds}
use metaflux_client_rust.Envelope.Rejected.{IsRejection, post_json_rejected_iff}

-- a body of one byte stands for a rejection, and any other for a success
abbrev refused_fields : Fields
refused_fields = field "data" (number 3) (field "error" (string "RATE_LIMITED") end)

abbrev parse_body : List ℕ → Result ℕ Value
parse_body [] = ok (object (field "data" (number 5) end))
parse_body (b ∷ bytes) = ok (object refused_fields)

abbrev keep : Value → Result ℕ Value
keep v = ok v

post_json_rejected_iff_example :
    (post_json {T = ℕ} keep parse_body keep (ok (200, 1 ∷ [])) ≡ err (api (string "RATE_LIMITED")))
    ↔ IsRejection keep (parse_body (1 ∷ [])) (string "RATE_LIMITED")
post_json_rejected_iff_example =
    post_json_rejected_iff {T = ℕ} keep parse_body keep 200 (1 ∷ []) (string "RATE_LIMITED")

success_run : post_json {T = ℕ} keep parse_body keep (ok (200, [])) ≡ ok (number 5)
unfolding post_json decode_envelope
success_run = refl

post_json_succeeds_example :
    (is_success 200 ≡ true)
    × (v : Value) × (d : Value) × (parse_body [] ≡ ok v)
    × Payload v d
    × (keep d ≡ ok (number 5))
post_json_succeeds_example =
    post_json_succeeds {T = ℕ} keep parse_body keep 200 [] (number 5) success_run
