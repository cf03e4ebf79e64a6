-- ===== src/Signing.antt =====
-- The words of an EIP-712 struct (src/wallet/typed.rs, the encoder toolkit): each signed field is
-- one 32-byte word. Bytes are native numbers. `keccak` is a parameter, for it is the code of another
-- crate; all that is ever asked of it is that it answers 32 bytes.
pub mod Bytes
pub mod Words
pub mod Actions
pub mod Digest
pub mod Seal
pub mod Members
pub mod Read
pub mod Owners
pub mod Conforms
mod NonceLast
pub mod ReadBack
pub mod Binding
mod Tests
use Prim.Native.Char.{code}
use metaflux_client_rust.Base.{
  ℕ, zero, suc, ◌+◌, ◌/◌, ◌%◌, ◌^◌, ◌<◌, String, List, [], ◌∷◌, ◌++◌, Bool, true, false, ◌≡◌, ◌≢◌,
  length, All, ltb, if◌then◌else◌, Option, none, some,
}

abbrev pub Bytes : Type 0
Bytes = List ℕ

-- 20 bytes
abbrev pub Address : Type 0
Address = Bytes

-- The UTF-8 bytes of one character.
abbrev pub utf8 : ℕ → Bytes
utf8 c =
    if ltb c 0x80
    then c ∷ []
    else if ltb c 0x800
    then (0xc0 + c / 64) ∷ (0x80 + c % 64) ∷ []
    else if ltb c 0x10000
    then (0xe0 + c / 4096) ∷ (0x80 + c / 64 % 64) ∷ (0x80 + c % 64) ∷ []
    else (0xf0 + c / 262144) ∷ (0x80 + c / 4096 % 64) ∷ (0x80 + c / 64 % 64) ∷ (0x80 + c % 64) ∷ []

-- `str::as_bytes`.
abbrev pub as_bytes : String → Bytes
as_bytes String.[] = []
as_bytes (String.◌∷◌ c s) = utf8 (code c) ++ as_bytes s

-- `to_be_bytes` of a number of `k` bytes.
abbrev pub to_be_bytes : ℕ → ℕ → Bytes
to_be_bytes zero v = []
to_be_bytes (suc k) v = to_be_bytes k (v / 256) ++ (v % 256) ∷ []

abbrev pub zeros : ℕ → Bytes
zeros zero = []
zeros (suc n) = 0 ∷ zeros n

abbrev pub enc_addr : Address → Bytes
enc_addr a = zeros 12 ++ a

abbrev pub enc_u64 : ℕ → Bytes
enc_u64 v = zeros 24 ++ to_be_bytes 8 v

abbrev pub enc_u32 : ℕ → Bytes
enc_u32 v = zeros 28 ++ to_be_bytes 4 v

abbrev pub enc_u16 : ℕ → Bytes
enc_u16 v = zeros 30 ++ to_be_bytes 2 v

abbrev pub enc_u8 : ℕ → Bytes
enc_u8 v = zeros 31 ++ v ∷ []

-- `u8::from`
abbrev pub u8_from : Bool → ℕ
u8_from true = 1
u8_from false = 0

abbrev pub enc_bool : Bool → Bytes
enc_bool b = enc_u8 (u8_from b)

-- The bytes that a hasher was fed one after another.
abbrev pub concat : List Bytes → Bytes
concat [] = []
concat (w ∷ ws) = w ++ concat ws

abbrev pub concat_map {ℓ} : {A : Type ℓ} → (A → Bytes) → List A → Bytes
concat_map f [] = []
concat_map f (a ∷ l) = f a ++ concat_map f l

-- The types of the members of a signed struct.
pub data Kind : Type 0 where
  uint64 uint32 uint16 uint8 boolean address : Kind
  utf8_string octets bytes32 addresses strings octet_strings : Kind

abbrev pub Value : Kind → Type 0
Value uint64 = ℕ
Value uint32 = ℕ
Value uint16 = ℕ
Value uint8 = ℕ
Value boolean = Bool
Value address = Address
Value utf8_string = String
Value octets = Bytes
Value bytes32 = Bytes
Value addresses = List Address
Value strings = List String
Value octet_strings = List Bytes

-- A call of one of the encoders, before it is run: `field uint64 v` is `enc_u64(v)`.
pub data Field : Type 0 where
  field : (k : Kind) → Value k → Field

-- `bind_owner`; `Vec::insert` panics on an empty list, and no caller has one.
abbrev pub bind_owner : List Field → Option Address → List Field
bind_owner words none = words
bind_owner [] (some o) = []
bind_owner (w ∷ words) (some o) = w ∷ field address o ∷ words

abbrev pub kind : Field → Kind
kind (field k v) = k

-- What the types of the source say of a value.
abbrev pub Fits : Field → Type 0
Fits (field uint64 v) = v < 2 ^ 64
Fits (field uint32 v) = v < 2 ^ 32
Fits (field uint16 v) = v < 2 ^ 16
Fits (field uint8 v) = v < 2 ^ 8
Fits (field boolean b) = Unit
Fits (field address a) = length a ≡ 20
Fits (field utf8_string s) = Unit
Fits (field octets b) = Unit
Fits (field bytes32 w) = length w ≡ 32
Fits (field addresses l) = All (λ a. length a ≡ 20) l
Fits (field strings l) = Unit
Fits (field octet_strings l) = Unit

module _ (keccak : Bytes → Bytes) where
  abbrev pub enc_string : String → Bytes
  enc_string s = keccak (as_bytes s)

  abbrev pub enc_bytes : Bytes → Bytes
  enc_bytes b = keccak b

  abbrev pub enc_bytes_array : List Bytes → Bytes
  enc_bytes_array items = keccak (concat_map enc_bytes items)

  abbrev pub enc_addr_array : List Address → Bytes
  enc_addr_array addrs = keccak (concat_map enc_addr addrs)

  abbrev pub enc_string_array : List String → Bytes
  enc_string_array items = keccak (concat_map enc_string items)

  abbrev pub word : Field → Bytes
  word (field uint64 v) = enc_u64 v
  word (field uint32 v) = enc_u32 v
  word (field uint16 v) = enc_u16 v
  word (field uint8 v) = enc_u8 v
  word (field boolean b) = enc_bool b
  word (field address a) = enc_addr a
  word (field utf8_string s) = enc_string s
  word (field octets b) = enc_bytes b
  word (field bytes32 w) = w
  word (field addresses l) = enc_addr_array l
  word (field strings l) = enc_string_array l
  word (field octet_strings l) = enc_bytes_array l

  -- Two texts with one hash.
  abbrev pub Collision : Type 0
  Collision = (x y : Bytes) × (x ≢ y) × (keccak x ≡ keccak y)
