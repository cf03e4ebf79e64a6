-- ===== src/Signing/Bytes.antt =====
-- Bytes, numbers and texts against the words that carry them (src/wallet/typed.rs, the encoders).
use Prim.Native.Char.{code}
use text.Mathlib.TextEquality.{Char-path}
use metaflux_client_rust.Base.{
  ℕ, zero, suc, ◌/◌, ◌%◌, ◌^◌, ◌≤◌, ◌<◌, String, List, [], ◌∷◌, ◌++◌, ◌≡◌, refl, sym, ap, ◌∙◌, ◌≢◌,
  ◌⊎◌, inl, inr, length, length-append, arith,
}
use mathlib.Core.List.{head-eq_of_cons-eq, tail-eq_of_cons-eq}
use metaflux_client_rust.Signing.{Bytes, to_be_bytes, utf8, as_bytes}

pub append_split {ℓ} :
    {A : Type ℓ} (xs ys us vs : List A)
    → length xs ≡ length ys
    → xs ++ us ≡ ys ++ vs
    → (xs ≡ ys) × (us ≡ vs)
append_split [] [] us vs h e = (refl, e)
append_split [] (y ∷ ys) us vs h e = absurd (omega arith)
append_split (x ∷ xs) [] us vs h e = absurd (omega arith)
append_split (x ∷ xs) (y ∷ ys) us vs h e =
    let (p, q) = append_split xs ys us vs (omega arith) (tail-eq_of_cons-eq e) in
    (cc (head-eq_of_cons-eq e, p), q)

pub length-to_be_bytes : (k v : ℕ) → length (to_be_bytes k v) ≡ k
length-to_be_bytes zero v = refl
length-to_be_bytes (suc k) v = rw length-append (omega (arith, length-to_be_bytes k (v / 256)))

pub to_be_bytes_inj :
    (k v w : ℕ) → v < 256 ^ k → w < 256 ^ k → to_be_bytes k v ≡ to_be_bytes k w → v ≡ w
to_be_bytes_inj zero v w hv hw e = omega arith
to_be_bytes_inj (suc k) v w hv hw e =
    let (p, q) =
      append_split (to_be_bytes k (v / 256)) (to_be_bytes k (w / 256)) (v % 256 ∷ []) (w % 256 ∷ [])
        (length-to_be_bytes k (v / 256) ∙ sym (length-to_be_bytes k (w / 256))) e in
    omega (
      arith,
      to_be_bytes_inj k (v / 256) (w / 256) (omega arith) (omega arith) p,
      head-eq_of_cons-eq q,
    )

utf8_split : (c d : ℕ) (xs ys : Bytes) → utf8 c ++ xs ≡ utf8 d ++ ys → (c ≡ d) × (xs ≡ ys)
utf8_split c d xs ys e = grind arith

utf8_nonempty : (c : ℕ) (xs : Bytes) → 1 ≤ length (utf8 c ++ xs)
utf8_nonempty c xs = grind arith

pub as_bytes_inj : (s t : String) → as_bytes s ≡ as_bytes t → s ≡ t
as_bytes_inj String.[] String.[] e = refl
as_bytes_inj String.[] (String.◌∷◌ d t) e =
    absurd (omega (arith, ap length e, utf8_nonempty (code d) (as_bytes t)))
as_bytes_inj (String.◌∷◌ c s) String.[] e =
    absurd (omega (arith, ap length e, utf8_nonempty (code c) (as_bytes s)))
as_bytes_inj (String.◌∷◌ c s) (String.◌∷◌ d t) e =
    let (p, q) = utf8_split (code c) (code d) (as_bytes s) (as_bytes t) e in
    cc (Char-path c d p, as_bytes_inj s t q)

pub list_discrete {ℓ} :
    {A : Type ℓ} → ((a b : A) → (a ≡ b) ⊎ (a ≢ b)) → (xs ys : List A) → (xs ≡ ys) ⊎ (xs ≢ ys)
list_discrete dec [] [] = inl refl
list_discrete dec [] (y ∷ ys) = inr λ e. cc e
list_discrete dec (x ∷ xs) [] = inr λ e. cc e
list_discrete dec (x ∷ xs) (y ∷ ys) = elim (dec x y) [
  | inl p ↦ elim (list_discrete dec xs ys) [
    | inl q ↦ inl (cc (p, q))
    | inr n ↦ inr λ e. n (tail-eq_of_cons-eq e)
  ]
  | inr n ↦ inr λ e. n (head-eq_of_cons-eq e)
]

number_cases : (a b : ℕ) → (a ≡ b) ⊎ (a ≢ b)
number_cases a b = ground arith

pub bytes_cases : (x y : Bytes) → (x ≡ y) ⊎ (x ≢ y)
bytes_cases = list_discrete number_cases
