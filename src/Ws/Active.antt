-- ===== src/Ws/Active.antt =====
-- The set of active subscriptions that is replayed on reconnect: what `subscribe` and `unsubscribe`
-- (src/ws/client.rs) do to it under its lock.
pub mod Views
pub mod Unique
use text.Mathlib.Text.{◌==◌ as str_eq}
use metaflux_client_rust.Base.{
  String, List, [], ◌∷◌, ◌++◌, retain, Bool, true, false, not, ◌||◌, if◌then◌else◌, Option, none,
  some,
}
use metaflux_client_rust.Ws.Subscription.{
  Subscription, l2_book, trades, bbo, candles, fills, order_updates, notifications, ledger_updates,
  user_fundings, user_twap_slice_fills, user_twap_history, account_state, clearinghouse_state,
  option_state, spot_margin_state, active_asset_data, open_orders, markets, sub_eq,
}

abbrev pub contains : List Subscription → Subscription → Bool
contains [] s = false
contains (x ∷ xs) s = sub_eq x s || contains xs s

unfoldable pub l2_book_is_coin : Subscription → String → Bool
l2_book_is_coin (l2_book c n_sig_figs mantissa n_levels) coin = str_eq c coin
l2_book_is_coin _ coin = false

-- The coin of an order-book subscription.
abbrev pub book_coin : Subscription → Option String
book_coin (l2_book c n_sig_figs mantissa n_levels) = some c
book_coin _ = none

-- `WsClient::subscribe`, on the active set: by the coin of an order-book subscription.
abbrev pub subscribe_as : Option String → Subscription → List Subscription → List Subscription
subscribe_as (some coin) sub active = retain (λ s. not (l2_book_is_coin s coin)) active ++ sub ∷ []
subscribe_as none sub active = if contains active sub then active else active ++ sub ∷ []

unfoldable pub subscribe : Subscription → List Subscription → List Subscription
subscribe sub active = subscribe_as (book_coin sub) sub active

-- `WsClient::unsubscribe`, on the active set.
abbrev pub unsubscribe_as : Option String → Subscription → List Subscription → List Subscription
unsubscribe_as (some coin) sub active = retain (λ s. not (l2_book_is_coin s coin)) active
unsubscribe_as none sub active = retain (λ s. not (sub_eq s sub)) active

unfoldable pub unsubscribe : Subscription → List Subscription → List Subscription
unsubscribe sub active = unsubscribe_as (book_coin sub) sub active
