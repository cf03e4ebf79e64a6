-- ===== src/Signing/Tests.antt =====
-- Runs of the signing of structured actions (src/wallet/typed.rs).
use metaflux_client_rust.Base.{true, some, ◌≡◌, refl, ◌⊎◌, map, arith}
use metaflux_client_rust.Signing.{Bytes, zeros, kind, Collision}
use metaflux_client_rust.Signing.Actions.{send_asset, update_leverage, type_string, encode_data}
use metaflux_client_rust.Signing.Actions.Transfers.{SendAsset}
use metaflux_client_rust.Signing.Actions.Margin.{UpdateLeverage}
use metaflux_client_rust.Signing.Digest.{TypedActionDigest, new, new_with_expiry, to_digest, digest}
use metaflux_client_rust.Signing.Members.{member_types, kind_name}
use metaflux_client_rust.Signing.Read.{read}
use metaflux_client_rust.Signing.Conforms.{type_string-encode_data}
use metaflux_client_rust.Signing.ReadBack.{read-encode_data}
use metaflux_client_rust.Signing.Binding.{IsSized, digest_binds}

-- a hash that answers 32 bytes
abbrev constant_hash : Bytes → Bytes
constant_hash x = zeros 32

abbrev transfer : SendAsset
transfer = record {
  metaflux_chain = "Testnet";
  source_dex = 0;
  destination_dex = 1;
  asset = 7;
  destination = zeros 20;
  amount = "12.5";
  to_perp = true;
  nonce = 1700000000000;
}

abbrev leverage : UpdateLeverage
leverage = record {
  metaflux_chain = "Testnet";
  owner = some (zeros 20);
  asset = 7;
  leverage = 25;
  is_isolated = true;
  nonce = 1700000000001;
}

abbrev first_digest : TypedActionDigest
first_digest = new_with_expiry (send_asset transfer) 114514 1700000060000

abbrev second_digest : TypedActionDigest
second_digest = new (update_leverage leverage) 114514

type_string-encode_data_example :
    member_types (type_string (update_leverage leverage))
    ≡ map (λ f. kind_name (kind f)) (encode_data (update_leverage leverage))
type_string-encode_data_example = type_string-encode_data (update_leverage leverage)

read-encode_data_example :
    read (type_string (send_asset transfer)) (encode_data (send_asset transfer))
    ≡ some (send_asset transfer)
read-encode_data_example = read-encode_data (send_asset transfer)

first_digest-IsSized : IsSized first_digest
unfolding encode_data
first_digest-IsSized = omega arith

second_digest-IsSized : IsSized second_digest
unfolding encode_data
second_digest-IsSized = omega arith

same_digest : digest constant_hash first_digest ≡ digest constant_hash second_digest
unfolding digest to_digest
same_digest = refl

digest_binds_example : (first_digest ≡ second_digest) ⊎ Collision constant_hash
digest_binds_example =
    digest_binds constant_hash first_digest second_digest (λ x. refl) first_digest-IsSized
      second_digest-IsSized same_digest
