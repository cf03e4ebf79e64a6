-- ===== src/Signing/Seal.antt =====
-- From a struct hash and a digest back to what was hashed (src/wallet/typed.rs).
use mathlib.Core.List.{head-eq_of_cons-eq, tail-eq_of_cons-eq}
use metaflux_client_rust.Base.{
  ℕ, ◌*◌, ◌^◌, ◌<◌, List, [], ◌∷◌, ◌++◌, ◌≡◌, refl, sym, ap, ◌∙◌, ◌⊎◌, ◌≢◌, inl, inr, length,
  length-append, arith, All, append_assoc, ◌==◌, ==_iff, Bool-cases,
}
use metaflux_client_rust.Signing.{Bytes, zeros, to_be_bytes, as_bytes, enc_u64, concat, Collision}
use metaflux_client_rust.Signing.Bytes.{append_split, to_be_bytes_inj}
use metaflux_client_rust.Signing.Words.{concat_inj, keccak_cases}
use metaflux_client_rust.Signing.Digest.{
  but_last, folded, expiry_word, metaflux_domain_separator, to_digest,
}

-- The last member of a signed struct is its nonce.
abbrev pub IsNonceLast : Bytes → Type 0
IsNonceLast s =
    s ≡ but_last (but_last (but_last (but_last (but_last (but_last s))))) ++ as_bytes "nonce)"

append_split_right :
    (xs ys us vs : Bytes) → length us ≡ length vs → xs ++ us ≡ ys ++ vs → (xs ≡ ys) × (us ≡ vs)
append_split_right xs ys us vs h e =
    append_split xs ys us vs (omega (arith, ap length e, length-append xs us, length-append ys vs))
      e

but_last-append : (p : Bytes) (b : ℕ) → but_last (p ++ b ∷ []) ≡ p
but_last-append [] b = refl
but_last-append (x ∷ []) b = refl
but_last-append (x ∷ y ∷ p) b = ap (λ q. x ∷ q) (but_last-append (y ∷ p) b)

closed_by : (s q : Bytes) (b : ℕ) → s ≡ q ++ b ∷ [] → s ≡ but_last s ++ b ∷ []
closed_by s q b e = e ∙ ap (λ r. r ++ b ∷ []) (sym (ap but_last e ∙ but_last-append q b))

closed : (s : Bytes) → IsNonceLast s → s ≡ but_last s ++ b')' ∷ []
closed s h = closed_by s _ b')' (h ∙ sym (append_assoc _ (as_bytes "nonce") (b')' ∷ [])))

not_expiring : (s t : Bytes) → IsNonceLast s → s ≢ but_last t ++ as_bytes ",uint64 expiresAfter)"
not_expiring s t h e =
    let ends =
      append_split_right _ (but_last t ++ as_bytes ",uint64 expires") (as_bytes "nonce)")
        (as_bytes "After)") refl
        (sym h
          ∙ e
          ∙ sym (append_assoc (but_last t) (as_bytes ",uint64 expires") (as_bytes "After)"))) in
    absurd (omega (arith, head-eq_of_cons-eq ends.1))

folded_inj :
    (s t : Bytes) (e f : ℕ)
    → IsNonceLast s
    → IsNonceLast t
    → folded s e ≡ folded t f
    → (s ≡ t) × ((e == 0) ≡ (f == 0))
folded_inj s t e f hs ht p = elim (Bool-cases (e == 0)) [
  | inl a ↦ elim (Bool-cases (f == 0)) [
    | inl b ↦ (rw (a, b) at p, a ∙ sym b)
    | inr b ↦ absurd (not_expiring s t hs (rw (a, b) at p))
  ]
  | inr a ↦ elim (Bool-cases (f == 0)) [
    | inl b ↦ absurd (not_expiring t s ht (sym (rw (a, b) at p)))
    | inr b ↦ (
      closed s hs
          ∙ ap (λ r. r ++ b')' ∷ []) (append_split_right _ _ _ _ refl (rw (a, b) at p)).0
          ∙ sym (closed t ht),
      a ∙ sym b,
    )
  ]
]

u64_inj : (v w : ℕ) → v < 2 ^ 64 → w < 2 ^ 64 → enc_u64 v ≡ enc_u64 w → v ≡ w
u64_inj v w hv hw e =
    to_be_bytes_inj 8 v w (omega arith) (omega arith)
      (append_split (zeros 24) (zeros 24) (to_be_bytes 8 v) (to_be_bytes 8 w) refl e).1

expiry_word_inj :
    (e f : ℕ)
    → e < 2 ^ 64
    → f < 2 ^ 64
    → (e == 0) ≡ (f == 0)
    → concat (expiry_word e) ≡ concat (expiry_word f)
    → e ≡ f
expiry_word_inj e f he hf h p = elim (Bool-cases (e == 0)) [
  | inl a ↦ (==_iff e 0).0 a ∙ sym ((==_iff f 0).0 (sym h ∙ a))
  | inr a ↦
      u64_inj e f he hf (append_split (enc_u64 e) (enc_u64 f) [] [] refl (rw (a, sym h ∙ a) at p)).0
]

pub concat-append : (us vs : List Bytes) → concat (us ++ vs) ≡ concat us ++ concat vs
concat-append [] vs = refl
concat-append (u ∷ us) vs =
    ap (λ r. u ++ r) (concat-append us vs) ∙ sym (append_assoc u (concat us) (concat vs))

pub length-concat :
    (us : List Bytes) → All (λ w. length w ≡ 32) us → length (concat us) ≡ 32 * length us
length-concat [] h = refl
length-concat (u ∷ us) (h, hs) = omega (arith, length-append u (concat us), length-concat us hs)

-- The words before the expiry and the expiry itself, from the text under the struct hash.
words_split :
    (us vs : List Bytes) (e f : ℕ)
    → e < 2 ^ 64
    → f < 2 ^ 64
    → (e == 0) ≡ (f == 0)
    → length us ≡ length vs
    → All (λ w. length w ≡ 32) us
    → All (λ w. length w ≡ 32) vs
    → concat (us ++ expiry_word e) ≡ concat (vs ++ expiry_word f)
    → (us ≡ vs) × (e ≡ f)
words_split us vs e f he hf z h hu hv p =
    let (a, b) =
      append_split (concat us) (concat vs) (concat (expiry_word e)) (concat (expiry_word f))
        (omega (arith, length-concat us hu, length-concat vs hv))
        (sym (concat-append us (expiry_word e)) ∙ p ∙ concat-append vs (expiry_word f)) in
    (concat_inj 32 us vs h hu hv a, expiry_word_inj e f he hf z b)

module _ (keccak : Bytes → Bytes) (size : (x : Bytes) → length (keccak x) ≡ 32) where
  -- Equal struct hashes come of one type string, one list of words and one expiry.
  pub struct_cases :
      (s t : Bytes) (us vs : List Bytes) (e f : ℕ)
      → IsNonceLast s
      → IsNonceLast t
      → (s ≡ t → length us ≡ length vs)
      → All (λ w. length w ≡ 32) us
      → All (λ w. length w ≡ 32) vs
      → e < 2 ^ 64
      → f < 2 ^ 64
      → keccak (concat (keccak (folded s e) ∷ us ++ expiry_word e))
        ≡ keccak (concat (keccak (folded t f) ∷ vs ++ expiry_word f))
      → ((s ≡ t) × (us ≡ vs) × (e ≡ f)) ⊎ Collision keccak
  struct_cases s t us vs e f hs ht h hu hv he hf p = elim (keccak_cases keccak _ _ p) [
    | inr c ↦ inr c
    | inl q ↦
        let (a, b) =
          append_split (keccak (folded s e)) (keccak (folded t f)) (concat (us ++ expiry_word e))
            (concat (vs ++ expiry_word f)) (size _ ∙ sym (size _)) q in
        elim (keccak_cases keccak _ _ a) [
          | inr c ↦ inr c
          | inl r ↦
              let (m, z) = folded_inj s t e f hs ht r in
              let (x, y) = words_split us vs e f he hf z (h m) hu hv b in inl (m, x, y)
        ]
  ]

  abbrev domain_words : ℕ → List Bytes
  domain_words c =
      keccak (
        as_bytes
          "EIP712Domain(string name,string version,uint256 chainId,address verifyingContract)")
      ∷ keccak (as_bytes "MetaFlux")
      ∷ keccak (as_bytes "1")
      ∷ enc_u64 c
      ∷ zeros 32
      ∷ []

  domain_inj :
      (c d : ℕ)
      → c < 2 ^ 64
      → d < 2 ^ 64
      → concat (domain_words c) ≡ concat (domain_words d)
      → c ≡ d
  domain_inj c d hc hd e =
      let sized : (c : ℕ) → All (λ w. length w ≡ 32) (domain_words c) =
        λ c. (size _, (size _, (size _, (refl, (refl, tt))))) in
      let ws = concat_inj 32 (domain_words c) (domain_words d) refl (sized c) (sized d) e in
      u64_inj c d hc hd
        (head-eq_of_cons-eq (tail-eq_of_cons-eq (tail-eq_of_cons-eq (tail-eq_of_cons-eq ws))))

  -- Equal digests come of one chain and one struct hash.
  pub digest_cases :
      (c d : ℕ) (x y : Bytes)
      → c < 2 ^ 64
      → d < 2 ^ 64
      → to_digest keccak (metaflux_domain_separator keccak c) x
        ≡ to_digest keccak (metaflux_domain_separator keccak d) y
      → ((c ≡ d) × (x ≡ y)) ⊎ Collision keccak
  unfolding to_digest metaflux_domain_separator
  digest_cases c d x y hc hd p = elim (keccak_cases keccak _ _ p) [
    | inr k ↦ inr k
    | inl q ↦
        let (a, b) =
          append_split (metaflux_domain_separator keccak c) (metaflux_domain_separator keccak d) x y
            (size _ ∙ sym (size _)) (tail-eq_of_cons-eq (tail-eq_of_cons-eq q)) in
        elim (keccak_cases keccak _ _ a) [ inr k ↦ inr k | inl r ↦ inl (domain_inj c d hc hd r, b) ]
  ]
