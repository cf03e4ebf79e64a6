-- ===== src/Signing/Digest.antt =====
-- What is signed of a structured action: the folded type hash, the struct hash, the domain and the
-- digest (src/wallet/typed.rs; `to_digest` stands in src/wallet/sign.rs).
use metaflux_client_rust.Base.{ℕ, String, List, [], ◌∷◌, ◌++◌, map, ◌==◌, if◌then◌else◌}
use metaflux_client_rust.Signing.{Bytes, as_bytes, enc_u64, zeros, concat, word}
use metaflux_client_rust.Signing.Actions.{TypedAction, type_string, encode_data}

pub metaflux_chain_tag : ℕ → String
metaflux_chain_tag chain_id =
    if chain_id == 8964
    then "Mainnet"
    else if chain_id == 114514
    then "Testnet"
    else if chain_id == 31337
    then "Devnet"
    else "Devnet"

-- `base[..base.len() - 1]`; the type strings are not empty.
abbrev pub but_last : Bytes → Bytes
but_last [] = []
but_last (b ∷ []) = []
but_last (b ∷ c ∷ bs) = b ∷ but_last (c ∷ bs)

-- The text whose hash is the folded type hash.
abbrev pub folded : Bytes → ℕ → Bytes
folded base expires_after =
    if expires_after == 0 then base else but_last base ++ as_bytes ",uint64 expiresAfter)"

-- The word that an expiry adds behind the nonce.
abbrev pub expiry_word : ℕ → List Bytes
expiry_word expires_after = if expires_after == 0 then [] else enc_u64 expires_after ∷ []

-- `TypedActionDigest`.
pub record TypedActionDigest : Type 0 where
  pub action : TypedAction
  pub chain_id : ℕ
  pub expires_after : ℕ

abbrev pub new : TypedAction → ℕ → TypedActionDigest
new action chain_id = record { action = action; chain_id = chain_id; expires_after = 0 }

abbrev pub new_with_expiry : TypedAction → ℕ → ℕ → TypedActionDigest
new_with_expiry action chain_id expires_after = record {
  action = action;
  chain_id = chain_id;
  expires_after = expires_after;
}

module _ (keccak : Bytes → Bytes) where
  unfoldable pub metaflux_domain_separator : ℕ → Bytes
  metaflux_domain_separator chain_id = keccak (
      concat (
        keccak (
          as_bytes
            "EIP712Domain(string name,string version,uint256 chainId,address verifyingContract)")
        ∷ keccak (as_bytes "MetaFlux")
        ∷ keccak (as_bytes "1")
        ∷ enc_u64 chain_id
        ∷ zeros 32
        ∷ []))

  -- `to_digest`: 0x19 0x01, the domain and the struct hash.
  unfoldable pub to_digest : Bytes → Bytes → Bytes
  to_digest domain struct_hash = keccak (0x19 ∷ 0x01 ∷ domain ++ struct_hash)

  abbrev pub type_hash : TypedAction → Bytes
  type_hash a = keccak (as_bytes (type_string a))

  unfoldable pub folded_type_hash : TypedAction → ℕ → Bytes
  folded_type_hash a expires_after = keccak (folded (as_bytes (type_string a)) expires_after)

  unfoldable pub hash_struct_with_expiry : TypedAction → ℕ → Bytes
  unfolding folded_type_hash
  hash_struct_with_expiry a expires_after = keccak (
      concat (
        folded_type_hash a expires_after ∷ map (word keccak) (encode_data a)
        ++ expiry_word expires_after))

  unfoldable pub hash_struct : TypedAction → Bytes
  hash_struct a = hash_struct_with_expiry a 0

  unfoldable pub digest : TypedActionDigest → Bytes
  digest d =
      to_digest (metaflux_domain_separator d.chain_id)
        (hash_struct_with_expiry d.action d.expires_after)
