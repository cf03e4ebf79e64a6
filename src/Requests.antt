-- ===== src/Requests.antt =====
-- The calls that sign a structured action and post it (src/rest/exchange_typed.rs). A call builds the
-- action and the body from the chain tag and the nonce; `post` stands for what signs and posts them.
-- Hexadecimal text is the parameter `hex_encode`, for it is the code of another crate, and so are the
-- hash, the signature and the transport of a session.
pub mod Transfers
pub mod Accounts
pub mod Staking
pub mod Vaults
pub mod Margin
pub mod Quotes
pub mod SpotDeploy
pub mod PerpDeploy
pub mod Calls
pub mod Carried
pub mod Agreement
pub mod Posting
mod Tests
use Prim.Native.String.{◌++◌ as push_str}
use metaflux_client_rust.Base.{
  ℕ, String, List, [], ◌∷◌, Bool, true, false, not, ◌&&◌, ◌||◌, Option, none, some, Result, ok, err,
  ◌>>=◌, leb, ◌==◌, if◌then◌else◌, length, map,
}
use metaflux_client_rust.Json.{
  Value, null, bool, number, string, array, object, end, field, Fields, of_list,
}
use metaflux_client_rust.Signing.{Bytes, Address, as_bytes, zeros}
use metaflux_client_rust.Signing.Actions.{TypedAction}
use metaflux_client_rust.Signing.Digest.{new_with_expiry, digest, metaflux_chain_tag}

abbrev pub mtf_chain_id : ℕ
mtf_chain_id = 114514

-- `json!({ … })`.
abbrev pub fields_of : List (String × Value) → Fields
fields_of [] = end
fields_of (p ∷ ps) = field p.0 p.1 (fields_of ps)

abbrev pub json_object : List (String × Value) → Value
json_object ps = object (fields_of ps)

-- `params[key] = value` for a key that the object has not.
abbrev pub set_field : String → Value → Value → Value
set_field key value (object fs) = object (field key value fs)
set_field key value other = other

abbrev pub optional_number : Option ℕ → Value
optional_number none = null
optional_number (some n) = number n

abbrev pub numbers : Bytes → Value
numbers bytes = array (of_list (map number bytes))

abbrev pub texts : List String → Value
texts items = array (of_list (map string items))

-- How an address is written, and a byte string in a multisig bundle.
abbrev pub prefixed : (Bytes → String) → Bytes → String
prefixed hex_encode b = push_str "0x" (hex_encode b)

abbrev pub posted_hex : (Bytes → String) → Bytes → Value
posted_hex hex_encode b = string (prefixed hex_encode b)

abbrev pub posted_hexes : (Bytes → String) → List Bytes → Value
posted_hexes hex_encode items = array (of_list (map (posted_hex hex_encode) items))

abbrev pub is_some {ℓ} : {A : Type ℓ} → Option A → Bool
is_some none = false
is_some (some a) = true

abbrev pub bytes_equal : Bytes → Bytes → Bool
bytes_equal [] [] = true
bytes_equal [] (c ∷ cs) = false
bytes_equal (b ∷ bs) [] = false
bytes_equal (b ∷ bs) (c ∷ cs) = b == c && bytes_equal bs cs

-- `address == Address::ZERO`.
abbrev pub is_zero_address : Address → Bool
is_zero_address a = bytes_equal a (zeros 20)

pub data BridgeChain : Type 0 where
  base arbitrum : BridgeChain

abbrev pub mb_chain_to_u8 : BridgeChain → ℕ
mb_chain_to_u8 base = 1
mb_chain_to_u8 arbitrum = 2

abbrev pub mb_chain_name : BridgeChain → String
mb_chain_name base = "Base"
mb_chain_name arbitrum = "Arbitrum"

-- `CoreSide` of src/types/rfq.rs, with its serde names.
pub data CoreSide : Type 0 where
  core_bid core_ask : CoreSide

abbrev pub core_side_to_u8 : CoreSide → ℕ
core_side_to_u8 core_bid = 0
core_side_to_u8 core_ask = 1

abbrev pub core_side_name : CoreSide → String
core_side_name core_bid = "Bid"
core_side_name core_ask = "Ask"

-- `BorrowLendKind` of src/types/defi.rs.
pub data BorrowLendKind : Type 0 where
  lend unlend borrow repay : BorrowLendKind

abbrev pub as_u8 : BorrowLendKind → ℕ
as_u8 lend = 0
as_u8 unlend = 1
as_u8 borrow = 2
as_u8 repay = 3

abbrev pub wire_name : BorrowLendKind → String
wire_name lend = "Lend"
wire_name unlend = "UnLend"
wire_name borrow = "Borrow"
wire_name repay = "Repay"

-- The messages of `ClientError::Validation` in this module.
pub data RequestError : Type 0 where
  bad_referral_code no_holders lengths_differ : RequestError

abbrev pub all_lower_or_digit : Bytes → Bool
all_lower_or_digit [] = true
all_lower_or_digit (b ∷ bs) =
    (leb b'a' b && leb b b'z' || leb b'0' b && leb b b'9') && all_lower_or_digit bs

unfoldable pub is_referral_code : String → Bool
is_referral_code code =
    (leb 3 (length (as_bytes code)) && leb (length (as_bytes code)) 16)
    && all_lower_or_digit (as_bytes code)

unfoldable pub validate_referral_code : String → Result RequestError (Unit {0})
unfolding is_referral_code
validate_referral_code code = if is_referral_code code then ok tt else err bad_referral_code

-- The closure of a call: the action to sign and the body to post, from the chain tag and the nonce.
abbrev pub Build : Type 0
Build = String → ℕ → TypedAction × Value

-- What a call hands on: to `post_signed_typed_raw`, or to `post_signed_typed_at_nonce`.
pub data Request : Type 0 where
  at_fresh_nonce : Build → Request
  at_nonce : ℕ → Build → Request

abbrev pub wire_action : String → Value → Value
wire_action ty params = json_object (("type", string ty) ∷ ("params", params) ∷ [])

abbrev pub post_signed_typed :
    {R : Type 0} → (Build → R) → (String → ℕ → TypedAction × String × Value) → R
post_signed_typed post build =
    post
      λ chain nonce. let (typed, ty, params) = build chain nonce in (typed, wire_action ty params)

-- `expires_after_wire`.
abbrev pub expires_after_wire : ℕ → Option ℕ
expires_after_wire expires_after_ms = if expires_after_ms == 0 then none else some expires_after_ms

pub record TypedSignedEnvelope : Type 0 where
  pub action : Value
  pub nonce : ℕ
  pub signature : String
  pub expires_after : Option ℕ

module _ {E A : Type 0} (keccak : Bytes → Bytes) (sign : Bytes → Result E String)
    (post_json : TypedSignedEnvelope → Result E A) (expires_after_ms : ℕ) where
  -- At an explicit nonce; `post_signed_typed_raw` is the same at a fresh one.
  unfoldable pub post_signed_typed_at_nonce : ℕ → Build → Result E A
  post_signed_typed_at_nonce nonce build =
      let (typed, action) = build (metaflux_chain_tag mtf_chain_id) nonce in
      sign (digest keccak (new_with_expiry typed mtf_chain_id expires_after_ms)) >>= λ signature.
      post_json (record {
        action = action;
        nonce = nonce;
        signature = signature;
        expires_after = expires_after_wire expires_after_ms;
      })

  -- `post_signed_typed_raw`: `fresh` is what `next_nonce` answers.
  unfoldable pub post_signed_typed_raw : ℕ → Build → Result E A
  unfolding post_signed_typed_at_nonce
  post_signed_typed_raw fresh build = post_signed_typed_at_nonce fresh build
