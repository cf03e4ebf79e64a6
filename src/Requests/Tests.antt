-- ===== src/Requests/Tests.antt =====
-- Runs of the calls that sign and post a structured action (src/rest/exchange_typed.rs).
use metaflux_client_rust.Base.{ℕ, String, [], ◌∷◌, some, true, Result, ok, ◌≡◌, refl, arith}
use metaflux_client_rust.Json.{string, number, bool}
use metaflux_client_rust.Signing.{Bytes, zeros}
use metaflux_client_rust.Requests.{
  TypedSignedEnvelope, json_object, wire_action, posted_hex, posted_hexes, post_signed_typed_raw,
  post_signed_typed_at_nonce,
}
use metaflux_client_rust.Requests.Calls.{
  Call, request, send_asset_call, create_vault_call, multi_sig_call,
}
use metaflux_client_rust.Requests.Carried.{IsFaithful}
use metaflux_client_rust.Requests.Agreement.{request-IsFaithful}
use metaflux_client_rust.Requests.Posting.{envelope_of, IsSigned, envelope_of-Verifies}

abbrev hash : Bytes → Bytes
hash x = zeros 32

abbrev hexed : Bytes → String
hexed b = "00"

abbrev signer : Bytes → Result ℕ String
signer digest = ok "0xsigned"

abbrev transfer_call : Call
transfer_call = send_asset_call 0 1 7 (zeros 20) "12.5" true

abbrev posted_transfer : TypedSignedEnvelope
posted_transfer = record {
  action = wire_action "send_asset" (
      json_object (
        ("source_dex", number 0)
        ∷ ("destination_dex", number 1)
        ∷ ("asset", number 7)
        ∷ ("destination", posted_hex hexed (zeros 20))
        ∷ ("amount", string "12.5")
        ∷ ("to_perp", bool true)
        ∷ []));
  nonce = 1700000000000;
  signature = "0xsigned";
  expires_after = some 1700000060000;
}

request-IsFaithful_example : IsFaithful hexed (request hexed (create_vault_call "alpha" 3600 1))
request-IsFaithful_example =
    request-IsFaithful hexed (create_vault_call "alpha" 3600 1) (omega arith)

posts : envelope_of hash hexed signer 1700000060000 1700000000000 transfer_call ≡ ok posted_transfer
unfolding envelope_of post_signed_typed_raw post_signed_typed_at_nonce request
posts = refl

abbrev bundle_call : Call
bundle_call = multi_sig_call (zeros 20) (1 ∷ 2 ∷ []) ((3 ∷ []) ∷ (4 ∷ []) ∷ []) 1650000000000

abbrev posted_bundle : TypedSignedEnvelope
posted_bundle = record {
  action = wire_action "multi_sig" (
      json_object (
        ("user", posted_hex hexed (zeros 20))
        ∷ ("inner_action_blob", posted_hex hexed (1 ∷ 2 ∷ []))
        ∷ ("signatures", posted_hexes hexed ((3 ∷ []) ∷ (4 ∷ []) ∷ []))
        ∷ ("nonce", number 1650000000000)
        ∷ []));
  nonce = 1650000000000;
  signature = "0xsigned";
  expires_after = some 1700000060000;
}

posts_bundle :
    envelope_of hash hexed signer 1700000060000 1700000000000 bundle_call ≡ ok posted_bundle
unfolding envelope_of post_signed_typed_raw post_signed_typed_at_nonce request
posts_bundle = refl

envelope_of-Verifies_example :
    (posted_bundle.nonce ≡ 1650000000000)
    × IsSigned hash hexed signer 1700000060000 posted_bundle (request hexed bundle_call)
envelope_of-Verifies_example =
    envelope_of-Verifies hash hexed signer 1700000060000 1700000000000 bundle_call posted_bundle tt
      posts_bundle
