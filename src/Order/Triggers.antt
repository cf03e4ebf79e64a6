-- ===== src/Order/Triggers.antt =====
-- The constructors of `Trigger` (src/types/order.rs).
use metaflux_client_rust.Base.{ℕ, true, false, none, some}
use metaflux_client_rust.Order.{Trigger, tp, sl}

unfoldable pub stop_market : ℕ → Trigger
stop_market px = record { trigger_px = px; is_market = true; tpsl = sl; trail_px = none }

unfoldable pub take_profit_market : ℕ → Trigger
take_profit_market px = record { trigger_px = px; is_market = true; tpsl = tp; trail_px = none }

unfoldable pub stop_limit : ℕ → Trigger
stop_limit px = record { trigger_px = px; is_market = false; tpsl = sl; trail_px = none }

unfoldable pub take_profit_limit : ℕ → Trigger
take_profit_limit px = record { trigger_px = px; is_market = false; tpsl = tp; trail_px = none }

unfoldable pub with_trail : Trigger → ℕ → Trigger
with_trail t px = record t { trail_px = some px }
