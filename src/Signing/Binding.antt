-- ===== src/Signing/Binding.antt =====
-- What the digest of a structured action binds (src/wallet/typed.rs, `TypedActionDigest`).
use metaflux_client_rust.Base.{
  ℕ, ◌≡◌, ◌⊎◌, inl, inr, ◌<◌, ◌^◌, map, All, length, length-map, sym, ap, ◌∙◌,
}
use mathlib.Core.List.{map-map}
use metaflux_client_rust.Signing.{Bytes, as_bytes, kind, Fits, word, Collision}
use metaflux_client_rust.Signing.Bytes.{as_bytes_inj}
use metaflux_client_rust.Signing.Words.{length-words, fields_cases}
use metaflux_client_rust.Signing.Actions.{TypedAction, type_string, encode_data}
use metaflux_client_rust.Signing.Digest.{
  TypedActionDigest, hash_struct_with_expiry, folded_type_hash, digest,
}
use metaflux_client_rust.Signing.Seal.{struct_cases, digest_cases}
use metaflux_client_rust.Signing.Members.{member_types, kind_name, kind_names_inj}
use metaflux_client_rust.Signing.Conforms.{type_string-encode_data}
use metaflux_client_rust.Signing.ReadBack.{read-encode_data}
use metaflux_client_rust.Signing.NonceLast.{type_string-IsNonceLast}

-- The numbers, addresses and hashes of a digest's content have the sizes of their types.
abbrev pub IsSized : TypedActionDigest → Type 0
IsSized d = All Fits (encode_data d.action) × (d.chain_id < 2 ^ 64) × (d.expires_after < 2 ^ 64)

-- actions of one type string have members of the same types
same_kinds :
    (a b : TypedAction)
    → type_string a ≡ type_string b
    → map kind (encode_data a) ≡ map kind (encode_data b)
same_kinds a b e = kind_names_inj (map kind (encode_data a)) (map kind (encode_data b)) (
    map-map kind_name kind (encode_data a)
    ∙ sym (type_string-encode_data a)
    ∙ ap member_types e
    ∙ type_string-encode_data b
    ∙ sym (map-map kind_name kind (encode_data b)))

same_action :
    (a b : TypedAction) → type_string a ≡ type_string b → encode_data a ≡ encode_data b → a ≡ b
same_action a b s e = cc (read-encode_data a, read-encode_data b, s, e)

-- what `same_action` asks, from the bytes of the type strings and the words
action_cases :
    (keccak : Bytes → Bytes) (size : (x : Bytes) → length (keccak x) ≡ 32) (a b : TypedAction)
    → All Fits (encode_data a)
    → All Fits (encode_data b)
    → as_bytes (type_string a) ≡ as_bytes (type_string b)
    → map (word keccak) (encode_data a) ≡ map (word keccak) (encode_data b)
    → (a ≡ b) ⊎ Collision keccak
action_cases keccak size a b ha hb s w =
    let t = as_bytes_inj (type_string a) (type_string b) s in
    elim (fields_cases keccak size (encode_data a) (encode_data b) (same_kinds a b t) ha hb w) [
      | inl e ↦ inl (same_action a b t e)
      | inr c ↦ inr c
    ]

-- Equal struct hashes are those of one action with one expiry, or show a collision.
hash_struct_cases :
    (keccak : Bytes → Bytes) (size : (x : Bytes) → length (keccak x) ≡ 32) (a b : TypedAction)
    (e f : ℕ)
    → All Fits (encode_data a)
    → All Fits (encode_data b)
    → e < 2 ^ 64
    → f < 2 ^ 64
    → hash_struct_with_expiry keccak a e ≡ hash_struct_with_expiry keccak b f
    → ((a ≡ b) × (e ≡ f)) ⊎ Collision keccak
unfolding hash_struct_with_expiry folded_type_hash
hash_struct_cases keccak size a b e f ha hb he hf p =
    let us = map (word keccak) (encode_data a) in
    let vs = map (word keccak) (encode_data b) in
    let counts : as_bytes (type_string a) ≡ as_bytes (type_string b) → length us ≡ length vs = λ s.
      length-map (word keccak) (encode_data a)
      ∙ sym (length-map kind (encode_data a))
      ∙ ap length (same_kinds a b (as_bytes_inj (type_string a) (type_string b) s))
      ∙ length-map kind (encode_data b)
      ∙ sym (length-map (word keccak) (encode_data b)) in
    elim (struct_cases keccak size (as_bytes (type_string a)) (as_bytes (type_string b)) us vs e f
      (type_string-IsNonceLast a) (type_string-IsNonceLast b) counts
      (length-words keccak size (encode_data a) ha) (length-words keccak size (encode_data b) hb) he
      hf p) [
        | inr c ↦ inr c
        | inl (s, w, x) ↦ elim (action_cases keccak size a b ha hb s w) [
          | inl q ↦ inl (q, x)
          | inr c ↦ inr c
        ]
      ]

-- Two structured actions with one digest are the same action, every field of it, for the same chain
-- id and the same expiry, unless the digests show two different texts with one hash: a signature
-- binds all of it. Numbers are taken within the widths of their types, addresses are of 20 bytes,
-- and the hash answers 32 bytes.
pub digest_binds :
    (keccak : Bytes → Bytes) (d e : TypedActionDigest)
    → ((x : Bytes) → length (keccak x) ≡ 32)
    → IsSized d
    → IsSized e
    → digest keccak d ≡ digest keccak e
    → (d ≡ e) ⊎ Collision keccak
unfolding digest
digest_binds keccak d e size (fd, cd, xd) (fe, ce, xe) p =
    elim (digest_cases keccak size d.chain_id e.chain_id _ _ cd ce p) [
      | inr c ↦ inr c
      | inl (chain, strukt) ↦
          elim (hash_struct_cases keccak size d.action e.action d.expires_after e.expires_after fd
            fe xd xe strukt) [ inr c ↦ inr c | inl (a, x) ↦ inl (cc (a, x, chain)) ]
    ]
