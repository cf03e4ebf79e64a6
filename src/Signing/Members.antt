-- ===== src/Signing/Members.antt =====
-- The member types that a type string declares, in their order: EIP-712's `encodeType` read back.
use mathlib.Core.List.{head-eq_of_cons-eq, tail-eq_of_cons-eq}
use metaflux_client_rust.Base.{
  ℕ, String, List, [], ◌∷◌, Bool, true, false, ◌≡◌, refl, ap, map, ◌==◌, ◌&&◌, if◌then◌else◌,
  Option, none, some,
}
use metaflux_client_rust.Decimal.{Text, codes}
use metaflux_client_rust.Signing.{
  Kind, uint64, uint32, uint16, uint8, boolean, address, utf8_string, octets, bytes32, addresses,
  strings, octet_strings,
}

-- What stands from a character on, and behind it.
abbrev pub behind : ℕ → Text → Text
behind sep [] = []
behind sep (c ∷ s) = elim (c == sep) [ true ↦ s | false ↦ behind sep s ]

-- One character more in front of the first of some texts.
abbrev pub push_front : ℕ → List Text → List Text
push_front c [] = (c ∷ []) ∷ []
push_front c (t ∷ ts) = (c ∷ t) ∷ ts

-- `is_type` tells the type of a member from its name.
abbrev pub types_from : Bool → Text → List Text
types_from is_type [] = []
types_from true (c ∷ s) = elim (c == b' ') [
  | true ↦ [] ∷ types_from false s
  | false ↦ push_front c (types_from true s)
]
types_from false (c ∷ s) = elim (c == b',') [
  | true ↦ types_from true s
  | false ↦ types_from false s
]

abbrev pub member_types : String → List Text
member_types s = types_from true (behind b'(' (codes s))

abbrev pub kind_name : Kind → Text
kind_name uint64 = codes "uint64"
kind_name uint32 = codes "uint32"
kind_name uint16 = codes "uint16"
kind_name uint8 = codes "uint8"
kind_name boolean = codes "bool"
kind_name address = codes "address"
kind_name utf8_string = codes "string"
kind_name octets = codes "bytes"
kind_name bytes32 = codes "bytes32"
kind_name addresses = codes "address[]"
kind_name strings = codes "string[]"
kind_name octet_strings = codes "bytes[]"

kinds : List Kind
kinds =
    uint64 ∷ uint32 ∷ uint16 ∷ uint8 ∷ boolean ∷ address ∷ utf8_string ∷ octets ∷ bytes32
    ∷ addresses ∷ strings ∷ octet_strings ∷ []

text_eq : Text → Text → Bool
text_eq [] [] = true
text_eq [] (d ∷ t) = false
text_eq (c ∷ s) [] = false
text_eq (c ∷ s) (d ∷ t) = c == d && text_eq s t

named : Text → List Kind → Option Kind
named t [] = none
named t (k ∷ ks) = if text_eq t (kind_name k) then some k else named t ks

named-kind_name : (k : Kind) → named (kind_name k) kinds ≡ some k
unfolding named kinds text_eq
named-kind_name uint64 = refl
named-kind_name uint32 = refl
named-kind_name uint16 = refl
named-kind_name uint8 = refl
named-kind_name boolean = refl
named-kind_name address = refl
named-kind_name utf8_string = refl
named-kind_name octets = refl
named-kind_name bytes32 = refl
named-kind_name addresses = refl
named-kind_name strings = refl
named-kind_name octet_strings = refl

-- The names of the types tell the types apart.
pub kind_name_inj : (k j : Kind) → kind_name k ≡ kind_name j → k ≡ j
kind_name_inj k j e = cc (named-kind_name k, named-kind_name j, ap (λ t. named t kinds) e)

pub kind_names_inj : (ks js : List Kind) → map kind_name ks ≡ map kind_name js → ks ≡ js
kind_names_inj [] [] e = refl
kind_names_inj [] (j ∷ js) e = absurd (cc e)
kind_names_inj (k ∷ ks) [] e = absurd (cc e)
kind_names_inj (k ∷ ks) (j ∷ js) e =
    cc (kind_name_inj k j (head-eq_of_cons-eq e), kind_names_inj ks js (tail-eq_of_cons-eq e))
