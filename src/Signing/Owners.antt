-- ===== src/Signing/Owners.antt =====
-- An action that may be bound to an owner is treated with an owner and without.
use metaflux_client_rust.Base.{Option, none, some}
use metaflux_client_rust.Signing.{Address}
use metaflux_client_rust.Signing.Actions.Accounts.{SetPositionMode}
use metaflux_client_rust.Signing.Actions.Margin.{
  UpdateLeverage, UpdateIsolatedMargin, TopUpIsolatedOnlyMargin,
}
use metaflux_client_rust.Signing.Actions.Requests.{CancelAllOrders, RfqRequest, RfqAccept, RfqQuote}

pub set_position_mode_cases :
    (P : SetPositionMode → Type 0)
    → ((a : SetPositionMode) → P (record a { owner = none }))
    → ((a : SetPositionMode) (o : Address) → P (record a { owner = some o }))
    → (a : SetPositionMode) → P a
set_position_mode_cases P without with_owner a = by a.owner
  where
    by : (owner : Option Address) → P (record a { owner = owner })
    by none = without a
    by (some o) = with_owner a o

pub update_leverage_cases :
    (P : UpdateLeverage → Type 0)
    → ((a : UpdateLeverage) → P (record a { owner = none }))
    → ((a : UpdateLeverage) (o : Address) → P (record a { owner = some o }))
    → (a : UpdateLeverage) → P a
update_leverage_cases P without with_owner a = by a.owner
  where
    by : (owner : Option Address) → P (record a { owner = owner })
    by none = without a
    by (some o) = with_owner a o

pub update_isolated_margin_cases :
    (P : UpdateIsolatedMargin → Type 0)
    → ((a : UpdateIsolatedMargin) → P (record a { owner = none }))
    → ((a : UpdateIsolatedMargin) (o : Address) → P (record a { owner = some o }))
    → (a : UpdateIsolatedMargin) → P a
update_isolated_margin_cases P without with_owner a = by a.owner
  where
    by : (owner : Option Address) → P (record a { owner = owner })
    by none = without a
    by (some o) = with_owner a o

pub top_up_isolated_only_margin_cases :
    (P : TopUpIsolatedOnlyMargin → Type 0)
    → ((a : TopUpIsolatedOnlyMargin) → P (record a { owner = none }))
    → ((a : TopUpIsolatedOnlyMargin) (o : Address) → P (record a { owner = some o }))
    → (a : TopUpIsolatedOnlyMargin) → P a
top_up_isolated_only_margin_cases P without with_owner a = by a.owner
  where
    by : (owner : Option Address) → P (record a { owner = owner })
    by none = without a
    by (some o) = with_owner a o

pub cancel_all_orders_cases :
    (P : CancelAllOrders → Type 0)
    → ((a : CancelAllOrders) → P (record a { owner = none }))
    → ((a : CancelAllOrders) (o : Address) → P (record a { owner = some o }))
    → (a : CancelAllOrders) → P a
cancel_all_orders_cases P without with_owner a = by a.owner
  where
    by : (owner : Option Address) → P (record a { owner = owner })
    by none = without a
    by (some o) = with_owner a o

pub rfq_request_cases :
    (P : RfqRequest → Type 0)
    → ((a : RfqRequest) → P (record a { owner = none }))
    → ((a : RfqRequest) (o : Address) → P (record a { owner = some o }))
    → (a : RfqRequest) → P a
rfq_request_cases P without with_owner a = by a.owner
  where
    by : (owner : Option Address) → P (record a { owner = owner })
    by none = without a
    by (some o) = with_owner a o

pub rfq_accept_cases :
    (P : RfqAccept → Type 0)
    → ((a : RfqAccept) → P (record a { owner = none }))
    → ((a : RfqAccept) (o : Address) → P (record a { owner = some o }))
    → (a : RfqAccept) → P a
rfq_accept_cases P without with_owner a = by a.owner
  where
    by : (owner : Option Address) → P (record a { owner = owner })
    by none = without a
    by (some o) = with_owner a o

pub rfq_quote_cases :
    (P : RfqQuote → Type 0)
    → ((a : RfqQuote) → P (record a { owner = none }))
    → ((a : RfqQuote) (o : Address) → P (record a { owner = some o }))
    → (a : RfqQuote) → P a
rfq_quote_cases P without with_owner a = by a.owner
  where
    by : (owner : Option Address) → P (record a { owner = owner })
    by none = without a
    by (some o) = with_owner a o
