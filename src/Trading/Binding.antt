-- ===== src/Trading/Binding.antt =====
-- What the digest of a trading action binds (src/wallet/typed_orders.rs, `TypedTradingDigest`).
use mathlib.Core.List.{map-map}
use metaflux_client_rust.Base.{
  ℕ, String, List, ◌∷◌, ◌++◌, Option, Result, ok, err, ◌>>=◌, Result-cases, map, ◌≡◌, ◌<◌, ◌^◌, ◌⊎◌,
  inl, inr, refl, sym, ap, ◌∙◌, All, length, length-map,
}
use metaflux_client_rust.Order.{Address}
use metaflux_client_rust.Signing.{Bytes, as_bytes, concat, Field, kind, Fits, word, Collision}
use metaflux_client_rust.Signing.Bytes.{as_bytes_inj}
use metaflux_client_rust.Signing.Words.{length-words, fields_cases}
use metaflux_client_rust.Signing.Digest.{
  folded, expiry_word, metaflux_domain_separator, to_digest, metaflux_chain_tag,
}
use metaflux_client_rust.Signing.Seal.{IsNonceLast, struct_cases, digest_cases}
use metaflux_client_rust.Signing.Members.{member_types, kind_name, kind_names_inj}
use metaflux_client_rust.Trading.{TradeError}
use metaflux_client_rust.Trading.Digest.{
  type_string_for, encode_data, hash_struct, TypedTradingDigest, effective_owner, digest,
}
use metaflux_client_rust.Trading.Conforms.{
  declared, IsDeclared, type_string_for-encode_data, type_string_for-IsNonceLast,
}

-- What is hashed: the type string, the fields under it, the chain id and the expiry.
pub record Content : Type 0 where
  pub form : String
  pub fields : List Field
  pub chain_id : ℕ
  pub expires_after : ℕ

-- The fields have the sizes of their types.
abbrev pub AreFitting : Result TradeError Content → Type 0
AreFitting (err e) = Unit
AreFitting (ok c) = All Fits c.fields × (c.chain_id < 2 ^ 64) × (c.expires_after < 2 ^ 64)

-- The type string ends in the nonce and declares the fields.
abbrev IsFormed : Result TradeError Content → Type 0
IsFormed (err e) = Unit
IsFormed (ok c) = IsNonceLast (as_bytes c.form) × (member_types c.form ≡ declared c.fields)

same_kinds :
    (s t : String) (fs gs : List Field)
    → member_types s ≡ declared fs
    → member_types t ≡ declared gs
    → s ≡ t
    → map kind fs ≡ map kind gs
same_kinds s t fs gs h k e =
    kind_names_inj (map kind fs) (map kind gs)
      (map-map kind_name kind fs ∙ sym h ∙ ap member_types e ∙ k ∙ sym (map-map kind_name kind gs))

module _ (keccak : Bytes → Bytes) where
  abbrev pub struct_of : Content → Bytes
  struct_of c = keccak (
      concat (
        keccak (folded (as_bytes c.form) c.expires_after) ∷ map (word keccak) c.fields
        ++ expiry_word c.expires_after))

  abbrev pub sealed : Content → Bytes
  sealed c = to_digest keccak (metaflux_domain_separator keccak c.chain_id) (struct_of c)

  sealed_cases :
      (c d : Content)
      → ((x : Bytes) → length (keccak x) ≡ 32)
      → IsFormed (ok c)
      → IsFormed (ok d)
      → AreFitting (ok c)
      → AreFitting (ok d)
      → sealed c ≡ sealed d
      → (c ≡ d) ⊎ Collision keccak
  sealed_cases c d size (nc, mc) (nd, md) (fc, cc_, ec) (fd, cd, ed) p =
      let kinds : as_bytes c.form ≡ as_bytes d.form → map kind c.fields ≡ map kind d.fields =
        λ s. same_kinds c.form d.form c.fields d.fields mc md (as_bytes_inj c.form d.form s) in
      let counts : as_bytes c.form ≡ as_bytes d.form
          → length (map (word keccak) c.fields) ≡ length (map (word keccak) d.fields) =
        λ s.
          length-map (word keccak) c.fields
          ∙ sym (length-map kind c.fields)
          ∙ ap length (kinds s)
          ∙ length-map kind d.fields
          ∙ sym (length-map (word keccak) d.fields) in
      elim (digest_cases keccak size c.chain_id d.chain_id (struct_of c) (struct_of d) cc_ cd p) [
        | inr k ↦ inr k
        | inl (chain, strukt) ↦
            elim (struct_cases keccak size (as_bytes c.form) (as_bytes d.form)
              (map (word keccak) c.fields) (map (word keccak) d.fields) c.expires_after
              d.expires_after nc nd counts (length-words keccak size c.fields fc)
              (length-words keccak size d.fields fd) ec ed strukt) [
                | inr k ↦ inr k
                | inl (s, w, x) ↦
                    elim (fields_cases keccak size c.fields d.fields (kinds s) fc fd w) [
                      | inr k ↦ inr k
                      | inl f ↦ inl (cc (as_bytes_inj c.form d.form s, f, chain, x))
                    ]
              ]
      ]

module _ (keccak : Bytes → Bytes) (hex_encode : Bytes → String) where
  abbrev pub content_for : TypedTradingDigest → Option Address → Result TradeError Content
  content_for d owner =
      encode_data keccak hex_encode d.action (metaflux_chain_tag d.chain_id) d.nonce owner
      >>= λ fields. ok (record {
        form = type_string_for owner d.action;
        fields = fields;
        chain_id = d.chain_id;
        expires_after = d.expires_after;
      })

  -- What a digest is of: with the owner that it binds, the type string and the fields of the action.
  abbrev pub content : TypedTradingDigest → Result TradeError Content
  content d = effective_owner d >>= λ owner. content_for d owner

  abbrev digest_for : TypedTradingDigest → Option Address → Result TradeError Bytes
  digest_for d owner =
      hash_struct keccak hex_encode d.action (metaflux_chain_tag d.chain_id) d.nonce owner
        d.expires_after
      >>= λ strukt. ok (to_digest keccak (metaflux_domain_separator keccak d.chain_id) strukt)

  digest_for-content :
      (d : TypedTradingDigest) (owner : Option Address)
      → (r : Result TradeError (List Field))
      → encode_data keccak hex_encode d.action (metaflux_chain_tag d.chain_id) d.nonce owner ≡ r
      → digest_for d owner ≡ (content_for d owner >>= λ c. ok (sealed keccak c))
  unfolding hash_struct
  digest_for-content d owner (err e) h = rw h refl
  digest_for-content d owner (ok fields) h = rw h refl

  pub digest-content :
      (d : TypedTradingDigest)
      → digest keccak hex_encode d ≡ (content d >>= λ c. ok (sealed keccak c))
  unfolding digest
  digest-content d = elim (Result-cases (effective_owner d)) [
    | inl (owner, e) ↦ rw e (digest_for-content d owner _ refl)
    | inr (x, e) ↦ rw e refl
  ]

  content_for-IsFormed :
      (d : TypedTradingDigest) (owner : Option Address) (r : Result TradeError (List Field))
      → IsDeclared (type_string_for owner d.action) r
      → IsFormed (
          r >>= λ fields. ok (record {
            form = type_string_for owner d.action;
            fields = fields;
            chain_id = d.chain_id;
            expires_after = d.expires_after;
          }))
  content_for-IsFormed d owner (err e) h = tt
  content_for-IsFormed d owner (ok fields) h = (type_string_for-IsNonceLast owner d.action, h)

  content-IsFormed : (d : TypedTradingDigest) → IsFormed (content d)
  content-IsFormed d = elim (Result-cases (effective_owner d)) [
    | inl (owner, e) ↦ rw e (
        content_for-IsFormed d owner _ (
          type_string_for-encode_data keccak hex_encode d.action (metaflux_chain_tag d.chain_id)
            d.nonce owner))
    | inr (x, e) ↦ rw e tt
  ]

  contents_cases :
      (x y : Result TradeError Content) (h : Bytes)
      → ((x : Bytes) → length (keccak x) ≡ 32)
      → IsFormed x
      → IsFormed y
      → AreFitting x
      → AreFitting y
      → (x >>= λ c. ok (sealed keccak c)) ≡ ok h
      → (y >>= λ c. ok (sealed keccak c)) ≡ ok h
      → (x ≡ y) ⊎ Collision keccak
  contents_cases (err e) y h size gx gy fx fy p q = absurd (cc p)
  contents_cases (ok c) (err e) h size gx gy fx fy p q = absurd (cc q)
  contents_cases (ok c) (ok d) h size gx gy fx fy p q =
      elim (sealed_cases keccak c d size gx gy fx fy (cc (p, q))) [
        | inl e ↦ inl (ap ok e)
        | inr k ↦ inr k
      ]

-- Two trading actions that are given one digest have one content: one type string, with an owner or
-- without, the same fields under it, the nonce among them, one chain id and one expiry, unless the
-- digests show two different texts with one hash. The numbers are taken within the widths of their
-- types, and the hash answers 32 bytes.
pub trading_digest_binds :
    (keccak : Bytes → Bytes) (hex_encode : Bytes → String) (d e : TypedTradingDigest) (h : Bytes)
    → ((x : Bytes) → length (keccak x) ≡ 32)
    → AreFitting (content keccak hex_encode d)
    → AreFitting (content keccak hex_encode e)
    → digest keccak hex_encode d ≡ ok h
    → digest keccak hex_encode e ≡ ok h
    → (content keccak hex_encode d ≡ content keccak hex_encode e) ⊎ Collision keccak
trading_digest_binds keccak hex_encode d e h size fd fe p q =
    contents_cases keccak hex_encode (content keccak hex_encode d) (content keccak hex_encode e) h
      size (content-IsFormed keccak hex_encode d) (content-IsFormed keccak hex_encode e) fd fe
      (sym (digest-content keccak hex_encode d) ∙ p) (sym (digest-content keccak hex_encode e) ∙ q)
