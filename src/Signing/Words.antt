-- ===== src/Signing/Words.antt =====
-- From the words of a signed struct back to its members (src/wallet/typed.rs, the encoders).
use mathlib.Core.Path.{subst}
use mathlib.Core.List.{head-eq_of_cons-eq, tail-eq_of_cons-eq}
use metaflux_client_rust.Base.{
  ℕ, ◌^◌, ◌<◌, String, List, [], ◌∷◌, ◌++◌, Bool, true, false, ◌≡◌, refl, sym, ap, ◌∙◌, ◌⊎◌, inl,
  inr, length, length-append, arith, All, map,
}
use metaflux_client_rust.Signing.{
  Bytes, Address, zeros, to_be_bytes, as_bytes, enc_addr, enc_u8, enc_bool, concat, concat_map,
  Kind, Value, Field, field, kind, Fits, word, Collision, enc_string, enc_bytes, uint64, uint32,
  uint16, uint8, boolean, address, utf8_string, octets, bytes32, addresses, strings, octet_strings,
}
use metaflux_client_rust.Signing.Bytes.{append_split, to_be_bytes_inj, as_bytes_inj, bytes_cases}

padded_inj :
    (n k v w : ℕ)
    → v < 256 ^ k
    → w < 256 ^ k
    → zeros n ++ to_be_bytes k v ≡ zeros n ++ to_be_bytes k w
    → v ≡ w
padded_inj n k v w hv hw e =
    to_be_bytes_inj k v w hv hw (append_split (zeros n) (zeros n) _ _ refl e).1

u8_inj : (v w : ℕ) → enc_u8 v ≡ enc_u8 w → v ≡ w
u8_inj v w e = head-eq_of_cons-eq (append_split (zeros 31) (zeros 31) (v ∷ []) (w ∷ []) refl e).1

bool_inj : (b c : Bool) → enc_bool b ≡ enc_bool c → b ≡ c
bool_inj true true e = refl
bool_inj true false e = absurd (omega (arith, u8_inj 1 0 e))
bool_inj false true e = absurd (omega (arith, u8_inj 0 1 e))
bool_inj false false e = refl

address_inj : (a b : Address) → enc_addr a ≡ enc_addr b → a ≡ b
address_inj a b e = (append_split (zeros 12) (zeros 12) a b refl e).1

-- Equal concatenations of pieces of `n` bytes, of as many pieces each, have equal pieces.
pub concat_inj :
    (n : ℕ) (us vs : List Bytes)
    → length us ≡ length vs
    → All (λ w. length w ≡ n) us
    → All (λ w. length w ≡ n) vs
    → concat us ≡ concat vs
    → us ≡ vs
concat_inj n [] [] h hu hv e = refl
concat_inj n [] (v ∷ vs) h hu hv e = absurd (omega arith)
concat_inj n (u ∷ us) [] h hu hv e = absurd (omega arith)
concat_inj n (u ∷ us) (v ∷ vs) h (hu, hus) (hv, hvs) e =
    let (p, q) = append_split u v (concat us) (concat vs) (hu ∙ sym hv) e in
    cc (p, concat_inj n us vs (omega arith) hus hvs q)

all_unit : {A : Type 0} (l : List A) → All (λ _. Unit {0}) l
all_unit [] = tt
all_unit (x ∷ l) = (tt, all_unit l)

module _ (keccak : Bytes → Bytes) where
  pub keccak_cases : (x y : Bytes) → keccak x ≡ keccak y → (x ≡ y) ⊎ Collision keccak
  keccak_cases x y e = elim (bytes_cases x y) [ inl p ↦ inl p | inr n ↦ inr (x, y, n, e) ]

  pub string_cases :
      (s t : String) → enc_string keccak s ≡ enc_string keccak t → (s ≡ t) ⊎ Collision keccak
  string_cases s t e = elim (keccak_cases (as_bytes s) (as_bytes t) e) [
    | inl p ↦ inl (as_bytes_inj s t p)
    | inr c ↦ inr c
  ]

  -- A list is determined by the concatenated words of its elements, of as many bytes each, when
  -- every element is by its word.
  pub list_cases :
      {A : Type 0} (n : ℕ) (f : A → Bytes) (P : A → Type 0) (xs ys : List A)
      → 0 < n
      → ((x : A) → P x → length (f x) ≡ n)
      → ((x y : A) → P x → P y → f x ≡ f y → (x ≡ y) ⊎ Collision keccak)
      → All P xs
      → All P ys
      → concat_map f xs ≡ concat_map f ys
      → (xs ≡ ys) ⊎ Collision keccak
  list_cases n f P [] [] pos size inj hx hy e = inl refl
  list_cases n f P [] (y ∷ ys) pos size inj hx hy e =
      absurd (omega (arith, ap length e, length-append (f y) (concat_map f ys), size y hy.0))
  list_cases n f P (x ∷ xs) [] pos size inj hx hy e =
      absurd (omega (arith, ap length e, length-append (f x) (concat_map f xs), size x hx.0))
  list_cases n f P (x ∷ xs) (y ∷ ys) pos size inj hx hy e =
      let (p, q) =
        append_split (f x) (f y) (concat_map f xs) (concat_map f ys)
          (size x hx.0 ∙ sym (size y hy.0)) e in
      elim (inj x y hx.0 hy.0 p) [
        | inr c ↦ inr c
        | inl r ↦ elim (list_cases n f P xs ys pos size inj hx.1 hy.1 q) [
          | inl s ↦ inl (cc (r, s))
          | inr c ↦ inr c
        ]
      ]

module _ (keccak : Bytes → Bytes) (size : (x : Bytes) → length (keccak x) ≡ 32) where
  pub length-word : (f : Field) → Fits f → length (word keccak f) ≡ 32
  length-word (field uint64 v) h = refl
  length-word (field uint32 v) h = refl
  length-word (field uint16 v) h = refl
  length-word (field uint8 v) h = refl
  length-word (field boolean b) h = refl
  length-word (field address a) h = omega arith
  length-word (field utf8_string s) h = size _
  length-word (field octets b) h = size _
  length-word (field bytes32 w) h = h
  length-word (field addresses l) h = size _
  length-word (field strings l) h = size _
  length-word (field octet_strings l) h = size _

  -- Two values of one type whose words agree are equal.
  same_kind :
      (k : Kind) (v w : Value k)
      → Fits (field k v)
      → Fits (field k w)
      → word keccak (field k v) ≡ word keccak (field k w)
      → (field k v ≡ field k w) ⊎ Collision keccak
  same_kind uint64 v w hv hw e =
      inl (ap (field uint64) (padded_inj 24 8 v w (omega arith) (omega arith) e))
  same_kind uint32 v w hv hw e =
      inl (ap (field uint32) (padded_inj 28 4 v w (omega arith) (omega arith) e))
  same_kind uint16 v w hv hw e =
      inl (ap (field uint16) (padded_inj 30 2 v w (omega arith) (omega arith) e))
  same_kind uint8 v w hv hw e = inl (ap (field uint8) (u8_inj v w e))
  same_kind boolean b c hv hw e = inl (ap (field boolean) (bool_inj b c e))
  same_kind address a b hv hw e = inl (ap (field address) (address_inj a b e))
  same_kind utf8_string s t hv hw e = elim (string_cases keccak s t e) [
    | inl p ↦ inl (ap (field utf8_string) p)
    | inr c ↦ inr c
  ]
  same_kind octets a b hv hw e = elim (keccak_cases keccak a b e) [
    | inl p ↦ inl (ap (field octets) p)
    | inr c ↦ inr c
  ]
  same_kind bytes32 a b hv hw e = inl (ap (field bytes32) e)
  same_kind addresses l m hv hw e =
      elim (keccak_cases keccak (concat_map enc_addr l) (concat_map enc_addr m) e) [
        | inr c ↦ inr c
        | inl p ↦
            elim (list_cases keccak 32 enc_addr (λ a. length a ≡ 20) l m (omega arith)
              (λ a h. omega arith) (λ a b h i q. inl (address_inj a b q)) hv hw p) [
                | inl q ↦ inl (ap (field addresses) q)
                | inr c ↦ inr c
              ]
      ]
  same_kind strings l m hv hw e =
      elim (keccak_cases keccak (concat_map (enc_string keccak) l)
        (concat_map (enc_string keccak) m) e) [
          | inr c ↦ inr c
          | inl p ↦
              elim (list_cases keccak 32 (enc_string keccak) (λ s. Unit {0}) l m (omega arith)
                (λ s h. size _) (λ s t h i q. string_cases keccak s t q) (all_unit l) (all_unit m)
                p) [ inl q ↦ inl (ap (field strings) q) | inr c ↦ inr c ]
        ]
  same_kind octet_strings l m hv hw e =
      elim (keccak_cases keccak (concat_map (enc_bytes keccak) l) (concat_map (enc_bytes keccak) m)
        e) [
          | inr c ↦ inr c
          | inl p ↦
              elim (list_cases keccak 32 (enc_bytes keccak) (λ s. Unit {0}) l m (omega arith)
                (λ s h. size _) (λ s t h i q. keccak_cases keccak s t q) (all_unit l) (all_unit m)
                p) [ inl q ↦ inl (ap (field octet_strings) q) | inr c ↦ inr c ]
        ]

  field_cases :
      (f g : Field)
      → kind f ≡ kind g
      → Fits f
      → Fits g
      → word keccak f ≡ word keccak g
      → (f ≡ g) ⊎ Collision keccak
  field_cases (field k v) (field j w) e =
      subst
        (λ (j : Kind).
          (w : Value j)
          → Fits (field k v)
          → Fits (field j w)
          → word keccak (field k v) ≡ word keccak (field j w)
          → (field k v ≡ field j w) ⊎ Collision keccak)
        e (same_kind k v) w

  pub length-words :
      (fs : List Field) → All Fits fs → All (λ w. length w ≡ 32) (map (word keccak) fs)
  length-words [] h = tt
  length-words (f ∷ fs) (h, hs) = (length-word f h, length-words fs hs)

  -- Two lists of members of the same types whose words agree are equal, or show a collision.
  pub fields_cases :
      (fs gs : List Field)
      → map kind fs ≡ map kind gs
      → All Fits fs
      → All Fits gs
      → map (word keccak) fs ≡ map (word keccak) gs
      → (fs ≡ gs) ⊎ Collision keccak
  fields_cases [] [] k hf hg e = inl refl
  fields_cases [] (g ∷ gs) k hf hg e = absurd (cc k)
  fields_cases (f ∷ fs) [] k hf hg e = absurd (cc k)
  fields_cases (f ∷ fs) (g ∷ gs) k (hf, hfs) (hg, hgs) e =
      elim (field_cases f g (head-eq_of_cons-eq k) hf hg (head-eq_of_cons-eq e)) [
        | inr c ↦ inr c
        | inl p ↦ elim (fields_cases fs gs (tail-eq_of_cons-eq k) hfs hgs (tail-eq_of_cons-eq e)) [
          | inl q ↦ inl (cc (p, q))
          | inr c ↦ inr c
        ]
      ]
