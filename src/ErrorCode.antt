-- ===== src/ErrorCode.antt =====
-- The error codes of the wire: `ErrorCode`, `as_str`, `from_wire` and the conversions from and to
-- a string (src/error.rs).
mod RoundTrip
mod Tests
use text.Mathlib.Text.{◌==◌ as str_eq}
use metaflux_client_rust.Base.{String, if◌then◌else◌}

pub data ErrorCode : Type 0 where
  order_not_found order_zero_size order_invalid_price order_invalid_size : ErrorCode
  order_below_min_notional order_self_trade order_duplicate_cloid margin_insufficient : ErrorCode
  auth_unauthorized auth_bad_signature auth_agent_forbidden market_not_found : ErrorCode
  market_inactive market_oi_cap asset_insufficient_balance rate_limited : ErrorCode
  invalid_request unknown_type not_found action_unsupported : ErrorCode
  precondition_failed nonce_replayed internal unavailable : ErrorCode
  -- a code that this build does not know
  unknown : String → ErrorCode

unfoldable pub as_str : ErrorCode → String
as_str order_not_found = "ORDER_NOT_FOUND"
as_str order_zero_size = "ORDER_ZERO_SIZE"
as_str order_invalid_price = "ORDER_INVALID_PRICE"
as_str order_invalid_size = "ORDER_INVALID_SIZE"
as_str order_below_min_notional = "ORDER_BELOW_MIN_NOTIONAL"
as_str order_self_trade = "ORDER_SELF_TRADE"
as_str order_duplicate_cloid = "ORDER_DUPLICATE_CLOID"
as_str margin_insufficient = "MARGIN_INSUFFICIENT"
as_str auth_unauthorized = "AUTH_UNAUTHORIZED"
as_str auth_bad_signature = "AUTH_BAD_SIGNATURE"
as_str auth_agent_forbidden = "AUTH_AGENT_FORBIDDEN"
as_str market_not_found = "MARKET_NOT_FOUND"
as_str market_inactive = "MARKET_INACTIVE"
as_str market_oi_cap = "MARKET_OI_CAP"
as_str asset_insufficient_balance = "ASSET_INSUFFICIENT_BALANCE"
as_str rate_limited = "RATE_LIMITED"
as_str invalid_request = "INVALID_REQUEST"
as_str unknown_type = "UNKNOWN_TYPE"
as_str not_found = "NOT_FOUND"
as_str action_unsupported = "ACTION_UNSUPPORTED"
as_str precondition_failed = "PRECONDITION_FAILED"
as_str nonce_replayed = "NONCE_REPLAYED"
as_str internal = "INTERNAL"
as_str unavailable = "UNAVAILABLE"
as_str (unknown s) = s

unfoldable pub from_wire : String → ErrorCode
from_wire s =
    if str_eq "ORDER_NOT_FOUND" s
    then order_not_found
    else if str_eq "ORDER_ZERO_SIZE" s
    then order_zero_size
    else if str_eq "ORDER_INVALID_PRICE" s
    then order_invalid_price
    else if str_eq "ORDER_INVALID_SIZE" s
    then order_invalid_size
    else if str_eq "ORDER_BELOW_MIN_NOTIONAL" s
    then order_below_min_notional
    else if str_eq "ORDER_SELF_TRADE" s
    then order_self_trade
    else if str_eq "ORDER_DUPLICATE_CLOID" s
    then order_duplicate_cloid
    else if str_eq "MARGIN_INSUFFICIENT" s
    then margin_insufficient
    else if str_eq "AUTH_UNAUTHORIZED" s
    then auth_unauthorized
    else if str_eq "AUTH_BAD_SIGNATURE" s
    then auth_bad_signature
    else if str_eq "AUTH_AGENT_FORBIDDEN" s
    then auth_agent_forbidden
    else if str_eq "MARKET_NOT_FOUND" s
    then market_not_found
    else if str_eq "MARKET_INACTIVE" s
    then market_inactive
    else if str_eq "MARKET_OI_CAP" s
    then market_oi_cap
    else if str_eq "ASSET_INSUFFICIENT_BALANCE" s
    then asset_insufficient_balance
    else if str_eq "RATE_LIMITED" s
    then rate_limited
    else if str_eq "INVALID_REQUEST" s
    then invalid_request
    else if str_eq "UNKNOWN_TYPE" s
    then unknown_type
    else if str_eq "NOT_FOUND" s
    then not_found
    else if str_eq "ACTION_UNSUPPORTED" s
    then action_unsupported
    else if str_eq "PRECONDITION_FAILED" s
    then precondition_failed
    else if str_eq "NONCE_REPLAYED" s
    then nonce_replayed
    else if str_eq "INTERNAL" s
    then internal
    else if str_eq "UNAVAILABLE" s
    then unavailable
    else unknown s

-- `From<ErrorCode> for String`.
unfoldable pub to_text : ErrorCode → String
unfolding as_str
to_text (unknown s) = s
to_text order_not_found = as_str order_not_found
to_text order_zero_size = as_str order_zero_size
to_text order_invalid_price = as_str order_invalid_price
to_text order_invalid_size = as_str order_invalid_size
to_text order_below_min_notional = as_str order_below_min_notional
to_text order_self_trade = as_str order_self_trade
to_text order_duplicate_cloid = as_str order_duplicate_cloid
to_text margin_insufficient = as_str margin_insufficient
to_text auth_unauthorized = as_str auth_unauthorized
to_text auth_bad_signature = as_str auth_bad_signature
to_text auth_agent_forbidden = as_str auth_agent_forbidden
to_text market_not_found = as_str market_not_found
to_text market_inactive = as_str market_inactive
to_text market_oi_cap = as_str market_oi_cap
to_text asset_insufficient_balance = as_str asset_insufficient_balance
to_text rate_limited = as_str rate_limited
to_text invalid_request = as_str invalid_request
to_text unknown_type = as_str unknown_type
to_text not_found = as_str not_found
to_text action_unsupported = as_str action_unsupported
to_text precondition_failed = as_str precondition_failed
to_text nonce_replayed = as_str nonce_replayed
to_text internal = as_str internal
to_text unavailable = as_str unavailable
