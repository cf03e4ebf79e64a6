-- ===== src/ErrorCode/RoundTrip.antt =====
-- The error codes (src/error.rs) survive the wire.
use text.Mathlib.Text.{◌==◌ as str_eq}
use text.Mathlib.TextEquality.{eq_iff}
use metaflux_client_rust.Base.{
  String, if◌then◌else◌, ◌≡◌, refl, sym, ap, ◌∙◌, ◌↔◌, Bool-cases, inl, inr,
}
use metaflux_client_rust.ErrorCode.{
  ErrorCode, order_not_found, order_zero_size, order_invalid_price, order_invalid_size,
  order_below_min_notional, order_self_trade, order_duplicate_cloid, margin_insufficient,
  auth_unauthorized, auth_bad_signature, auth_agent_forbidden, market_not_found, market_inactive,
  market_oi_cap, asset_insufficient_balance, rate_limited, invalid_request, unknown_type, not_found,
  action_unsupported, precondition_failed, nonce_replayed, internal, unavailable, unknown, as_str,
  from_wire, to_text,
}

known_or :
    (c r : ErrorCode) (s : String)
    → as_str r ≡ s
    → as_str (if str_eq (as_str c) s then c else r) ≡ s
known_or c r s h = elim (Bool-cases (str_eq (as_str c) s)) [
  | inl e ↦ rw (e) ((eq_iff (as_str c) s).0 e)
  | inr e ↦ rw (e) h
]

as_str-from_wire : (s : String) → as_str (from_wire s) ≡ s
unfolding as_str from_wire
as_str-from_wire s = known_or order_not_found _ s (
    known_or order_zero_size _ s (
      known_or order_invalid_price _ s (
        known_or order_invalid_size _ s (
          known_or order_below_min_notional _ s (
            known_or order_self_trade _ s (
              known_or order_duplicate_cloid _ s (
                known_or margin_insufficient _ s (
                  known_or auth_unauthorized _ s (
                    known_or auth_bad_signature _ s (
                      known_or auth_agent_forbidden _ s (
                        known_or market_not_found _ s (
                          known_or market_inactive _ s (
                            known_or market_oi_cap _ s (
                              known_or asset_insufficient_balance _ s (
                                known_or rate_limited _ s (
                                  known_or invalid_request _ s (
                                    known_or unknown_type _ s (
                                      known_or not_found _ s (
                                        known_or action_unsupported _ s (
                                          known_or precondition_failed _ s (
                                            known_or nonce_replayed _ s (
                                              known_or internal _ s (
                                                known_or unavailable _ s
                                                  (refl))))))))))))))))))))))))

-- a code that the build knows by name
abbrev pub IsKnown : ErrorCode → Type 0
IsKnown (unknown s) = ⊥
IsKnown _ = Unit

from_wire-as_str : (c : ErrorCode) → IsKnown c → from_wire (as_str c) ≡ c
unfolding as_str from_wire
from_wire-as_str order_not_found h = refl
from_wire-as_str order_zero_size h = refl
from_wire-as_str order_invalid_price h = refl
from_wire-as_str order_invalid_size h = refl
from_wire-as_str order_below_min_notional h = refl
from_wire-as_str order_self_trade h = refl
from_wire-as_str order_duplicate_cloid h = refl
from_wire-as_str margin_insufficient h = refl
from_wire-as_str auth_unauthorized h = refl
from_wire-as_str auth_bad_signature h = refl
from_wire-as_str auth_agent_forbidden h = refl
from_wire-as_str market_not_found h = refl
from_wire-as_str market_inactive h = refl
from_wire-as_str market_oi_cap h = refl
from_wire-as_str asset_insufficient_balance h = refl
from_wire-as_str rate_limited h = refl
from_wire-as_str invalid_request h = refl
from_wire-as_str unknown_type h = refl
from_wire-as_str not_found h = refl
from_wire-as_str action_unsupported h = refl
from_wire-as_str precondition_failed h = refl
from_wire-as_str nonce_replayed h = refl
from_wire-as_str internal h = refl
from_wire-as_str unavailable h = refl
from_wire-as_str (unknown s) h = absurd h

to_text-as_str : (c : ErrorCode) → to_text c ≡ as_str c
unfolding to_text
to_text-as_str order_not_found = refl
to_text-as_str order_zero_size = refl
to_text-as_str order_invalid_price = refl
to_text-as_str order_invalid_size = refl
to_text-as_str order_below_min_notional = refl
to_text-as_str order_self_trade = refl
to_text-as_str order_duplicate_cloid = refl
to_text-as_str margin_insufficient = refl
to_text-as_str auth_unauthorized = refl
to_text-as_str auth_bad_signature = refl
to_text-as_str auth_agent_forbidden = refl
to_text-as_str market_not_found = refl
to_text-as_str market_inactive = refl
to_text-as_str market_oi_cap = refl
to_text-as_str asset_insufficient_balance = refl
to_text-as_str rate_limited = refl
to_text-as_str invalid_request = refl
to_text-as_str unknown_type = refl
to_text-as_str not_found = refl
to_text-as_str action_unsupported = refl
to_text-as_str precondition_failed = refl
to_text-as_str nonce_replayed = refl
to_text-as_str internal = refl
to_text-as_str unavailable = refl
to_text-as_str (unknown s) = refl

-- Any wire code, known or not, survives the conversion to a code and back.
pub to_text-from_wire : (s : String) → to_text (from_wire s) ≡ s
to_text-from_wire s = to_text-as_str (from_wire s) ∙ as_str-from_wire s

-- A known code is read from its own wire string, and from no other text.
pub from_wire_iff : (c : ErrorCode) (s : String) → IsKnown c → (from_wire s ≡ c) ↔ (s ≡ as_str c)
from_wire_iff c s k =
    ((λ e. sym (as_str-from_wire s) ∙ ap as_str e), (λ e. ap from_wire e ∙ from_wire-as_str c k))
