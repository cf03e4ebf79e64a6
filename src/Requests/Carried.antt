-- ===== src/Requests/Carried.antt =====
-- What a verifier needs of a posted call: each member that the type string declares is the chain tag,
-- the nonce of the envelope, or is carried by the posted parameters under the member's name.
use metaflux_client_rust.Base.{
  ℕ, zero, suc, String, List, [], ◌∷◌, Bool, true, false, ◌&&◌, Option, none, some, ◌≡◌, Result, ok,
  err, leb, ◌==◌, ◌+◌, if◌then◌else◌, drop, unwrap_or,
}
use metaflux_client_rust.Decimal.{Text, codes}
use metaflux_client_rust.Json.{Value, null, bool, number, string, object, Fields, end, field, get}
use metaflux_client_rust.Signing.{
  Bytes, Field, uint64, uint32, uint16, uint8, boolean, address, utf8_string, octets, bytes32,
  addresses, strings, octet_strings, zeros,
}
use metaflux_client_rust.Signing.Actions.{TypedAction, type_string, encode_data}
use metaflux_client_rust.Signing.Members.{behind, push_front}
use metaflux_client_rust.Requests.{
  bytes_equal, prefixed, posted_hex, posted_hexes, numbers, texts, is_some, RequestError, Build,
  Request, at_fresh_nonce, at_nonce,
}

abbrev take : ℕ → Text → Text
take zero s = []
take (suc n) [] = []
take (suc n) (c ∷ s) = c ∷ take n s

-- The names of the members of a type string.
abbrev names_from : Bool → Text → List Text
names_from is_name [] = []
names_from false (c ∷ s) = elim (c == b' ') [
  | true ↦ names_from true s
  | false ↦ names_from false s
]
names_from true (c ∷ s) = elim (c == b',') [
  | true ↦ [] ∷ names_from false s
  | false ↦ elim (c == b')') [ true ↦ [] ∷ [] | false ↦ push_front c (names_from true s) ]
]

abbrev pub member_names : String → List Text
member_names s = names_from false (behind b'(' (codes s))

-- `camelCase` as `snake_case`.
abbrev snake : Text → Text
snake [] = []
snake (c ∷ s) =
    let rest = snake s in if leb b'A' c && leb c b'Z' then b'_' ∷ (c + 32) ∷ rest else c ∷ rest

-- The four members that go by another name in the posted parameters.
abbrev renamed : Text → Text
renamed n =
    if bytes_equal n (codes "agentAddress")
    then codes "agent"
    else if bytes_equal n (codes "agentName")
    then codes "name"
    else if bytes_equal n (codes "maxFeeBps")
    then codes "max_bps"
    else if bytes_equal n (codes "transferNonce")
    then codes "nonce"
    else snake n

abbrev find_in : Text → Fields → Option Value
find_in k end = none
find_in k (field j v fs) = if bytes_equal (codes j) k then some v else find_in k fs

abbrev before : ℕ → Text → Text
before sep [] = []
before sep (c ∷ s) = let rest = before sep s in elim (c == sep) [ true ↦ [] | false ↦ c ∷ rest ]

-- The name of the action in a type string, `SendAsset` of `MetaFluxTransaction:SendAsset(…)`, in snake
-- case.
abbrev struct_name : String → Text
struct_name s = drop 1 (snake (before b'(' (behind b':' (codes s))))

-- The tag of a posted body as the name of an action: three tags are other names of one.
abbrev named_by : Text → Text
named_by tag =
    if bytes_equal tag (codes "pm_unenroll")
    then codes "user_portfolio_margin"
    else if bytes_equal tag (codes "approve_broker_fee")
    then codes "approve_builder_fee"
    else if bytes_equal tag (codes "claim_broker_rewards")
    then codes "claim_builder_rewards"
    else tag

-- The tag names the action that the type string declares.
abbrev IsNamed : String → Option Value → Type 0
IsNamed s (some (string tag)) = named_by (codes tag) ≡ struct_name s
IsNamed s _ = ⊥

-- What is posted under a key; `null` is as good as nothing.
abbrev posted : Text → Value → Option Value
posted k (object fs) = elim (find_in k fs) [ none ↦ none | some null ↦ none | some v ↦ some v ]
posted k _ = none

-- The codes that the verifier signs for the names of kinds, sides and chains.
abbrev name_code : Text → Option ℕ
name_code n =
    if bytes_equal n (codes "User")
    then some 0
    else if bytes_equal n (codes "Metaliquidity")
    then some 1
    else if bytes_equal n (codes "Bid")
    then some 0
    else if bytes_equal n (codes "Ask")
    then some 1
    else if bytes_equal n (codes "Base")
    then some 1
    else if bytes_equal n (codes "Arbitrum")
    then some 2
    else if bytes_equal n (codes "Lend")
    then some 0
    else if bytes_equal n (codes "UnLend")
    then some 1
    else if bytes_equal n (codes "Borrow")
    then some 2
    else if bytes_equal n (codes "Repay")
    then some 3
    else none

-- What a member that is not posted is taken to be.
abbrev IsDefault : Field → Type 0
IsDefault (Field.field uint64 v) = v ≡ 0
IsDefault (Field.field uint32 v) = v ≡ 0
IsDefault (Field.field uint16 v) = v ≡ 0
IsDefault (Field.field uint8 v) = v ≡ 0
IsDefault (Field.field boolean b) = b ≡ false
IsDefault (Field.field address a) = a ≡ zeros 20
IsDefault (Field.field utf8_string s) = s ≡ ""
IsDefault _ = ⊥

-- The member that a flag is about: `limit_px` of `hasLimitPx`.
abbrev flagged : Text → Text
flagged n = drop 1 (snake (drop 3 n))

-- `hasLimitPx` and its like
abbrev is_flag : Text → Bool
is_flag n = bytes_equal (take 3 n) (codes "has")

abbrev pub build_of : Request → Build
build_of (at_fresh_nonce build) = build
build_of (at_nonce nonce build) = build

module _ (hex_encode : Bytes → String) where
  abbrev to_json : Field → Value
  to_json (Field.field uint64 v) = number v
  to_json (Field.field uint32 v) = number v
  to_json (Field.field uint16 v) = number v
  to_json (Field.field uint8 v) = number v
  to_json (Field.field boolean b) = bool b
  to_json (Field.field address a) = posted_hex hex_encode a
  to_json (Field.field utf8_string s) = string s
  to_json (Field.field octets b) = numbers b
  to_json (Field.field bytes32 w) = numbers w
  to_json (Field.field addresses l) = posted_hexes hex_encode l
  to_json (Field.field strings l) = texts l
  to_json (Field.field octet_strings l) = posted_hexes hex_encode l

  -- A posted value stands for a member: a name for its code, and hexadecimal text for bytes.
  abbrev IsWire : Value → Field → Type 0
  IsWire (string s) (Field.field uint8 n) = name_code (codes s) ≡ some n
  IsWire (string s) (Field.field octets b) = s ≡ prefixed hex_encode b
  IsWire v f = v ≡ to_json f

  abbrev IsPosted : Option Value → Field → Type 0
  IsPosted none f = IsDefault f
  IsPosted (some v) f = IsWire v f

  -- One member: the chain tag, the nonce of the envelope, the flag of another member, or posted.
  abbrev IsCarried : String → ℕ → Value → Text → Field → Type 0
  IsCarried chain nonce params n f = elim (bytes_equal n (codes "metafluxChain")) [
    | true ↦ f ≡ Field.field utf8_string chain
    | false ↦ elim (bytes_equal n (codes "nonce")) [
      | true ↦ f ≡ Field.field uint64 nonce
      | false ↦ elim (is_flag n) [
        | true ↦ f ≡ Field.field boolean (is_some (posted (flagged n) params))
        | false ↦ IsPosted (posted (renamed n) params) f
      ]
    ]
  ]

  abbrev AreCarried : String → ℕ → Value → List Text → List Field → Type 0
  AreCarried chain nonce params [] [] = Unit
  AreCarried chain nonce params [] (f ∷ fs) = ⊥
  AreCarried chain nonce params (n ∷ ns) [] = ⊥
  AreCarried chain nonce params (n ∷ ns) (f ∷ fs) =
      IsCarried chain nonce params n f × AreCarried chain nonce params ns fs

  -- The posted body carries the action: its tag names it, and with the chain tag and the nonce it tells
  -- every member.
  abbrev pub Carries : String → ℕ → TypedAction → Value → Type 0
  Carries chain nonce typed body =
      IsNamed (type_string typed) (get "type" body)
      × AreCarried chain nonce (unwrap_or (get "params" body) null)
          (member_names (type_string typed)) (encode_data typed)

  -- A call is refused, or what it builds is carried, whatever the chain tag and the nonce.
  abbrev pub IsFaithful : Result RequestError Request → Type 0
  IsFaithful (err e) = Unit
  IsFaithful (ok req) =
      (chain : String) (nonce : ℕ)
      → Carries chain nonce (build_of req chain nonce).0 (build_of req chain nonce).1
