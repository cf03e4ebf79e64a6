-- ===== src/Ws/Subscription.antt =====
-- `Subscription` (src/ws/subscriptions.rs) and `CandleType` (src/types/candle.rs). A coin and an
-- interval are texts; an address is a number.
use text.Mathlib.Text.{◌==◌ as str_eq}
use text.Mathlib.TextEquality.{eq_iff}
use metaflux_client_rust.Base.{
  ℕ, ℕ_discrete, String, Bool, true, false, Option, none, some, ◌≡◌, ◌↔◌, refl, sym, ap, ◌∙◌, ◌⊎◌,
  Bool-cases, inl, inr, if◌then◌else◌,
}
use metaflux_client_rust.Order.{Address}

pub data CandleType : Type 0 where
  mark oracle trade : CandleType

-- `CandleType::token` and `CandleType::from_token`, which tries `CandleType::ALL` in turn.
pub token : CandleType → String
token mark = "mark"
token oracle = "oracle"
token trade = "trade"

pub from_token : String → Option CandleType
unfolding token
from_token s =
    if str_eq (token mark) s
    then some mark
    else if str_eq (token oracle) s
    then some oracle
    else if str_eq (token trade) s
    then some trade
    else none

pub data Subscription : Type 0 where
  l2_book : String → Option ℕ → Option ℕ → Option ℕ → Subscription
  trades bbo : String → Subscription
  candles : String → String → CandleType → Subscription
  fills order_updates notifications ledger_updates user_fundings user_twap_slice_fills :
      Address → Subscription
  user_twap_history account_state clearinghouse_state option_state spot_margin_state :
      Address → Subscription
  active_asset_data : String → Address → Subscription
  open_orders : Address → Subscription
  markets : Subscription

pub String-discrete : Discrete String
String-discrete s t = elim (Bool-cases (str_eq s t)) [
  | inl e ↦ yes ((eq_iff s t).0 e)
  | inr e ↦ no (λ p. cc ((eq_iff s t).1 p))
]

pub CandleType-discrete : Discrete CandleType
CandleType-discrete = hlevel

pub Subscription-discrete : Discrete Subscription
Subscription-discrete = hlevel (String-discrete, ℕ_discrete, CandleType-discrete)

-- The derived `==`.
unfoldable pub sub_eq : Subscription → Subscription → Bool
sub_eq a b = elim (Subscription-discrete a b) [ yes e ↦ true | no e ↦ false ]

pub sub_eq_iff : (a b : Subscription) → (sub_eq a b ≡ true) ↔ (a ≡ b)
unfolding sub_eq
sub_eq_iff a b =
    elim (Subscription-discrete a b)
      as (λ d. ((elim d [ yes e ↦ true | no e ↦ false ]) ≡ true) ↔ (a ≡ b)) [
        | yes e ↦ ((λ h. e), (λ h. refl))
        | no e ↦ ((λ h. absurd (cc h)), (λ h. absurd (e h)))
      ]

some_if_lem :
    (b : Bool) (c : CandleType) {r : Option CandleType} {d : CandleType}
    → (if b then some c else r) ≡ some d
    → ((b ≡ true) × (c ≡ d)) ⊎ (r ≡ some d)
some_if_lem true c h = inl (refl, cc h)
some_if_lem false c h = inr h

from_token-token : (c : CandleType) → from_token (token c) ≡ some c
unfolding from_token
from_token-token mark = refl
from_token-token oracle = refl
from_token-token trade = refl

token_of : (c d : CandleType) (s : String) → str_eq (token d) s ≡ true → d ≡ c → token c ≡ s
token_of c d s e p = ap token (sym p) ∙ (eq_iff (token d) s).0 e

-- `from_token` reads a token exactly when `token` writes it: every other text is refused.
pub token_roundtrip : (c : CandleType) (s : String) → (from_token s ≡ some c) ↔ (token c ≡ s)
unfolding from_token
token_roundtrip c s = (forth, λ e. ap from_token (sym e) ∙ from_token-token c)
  where
    forth : from_token s ≡ some c → token c ≡ s
    forth h = elim (some_if_lem (str_eq (token mark) s) mark h) [
      | inl (e, p) ↦ token_of c mark s e p
      | inr g ↦ elim (some_if_lem (str_eq (token oracle) s) oracle g) [
        | inl (e, p) ↦ token_of c oracle s e p
        | inr f ↦ elim (some_if_lem (str_eq (token trade) s) trade f) [
          | inl (e, p) ↦ token_of c trade s e p
          | inr n ↦ absurd (cc n)
        ]
      ]
    ]
