-- ===== src/Order/Guard.antt =====
-- `check_trigger_limit` (src/rest/exchange.rs) against the rule that its comment states.
use metaflux_client_rust.Base.{false, some, ok, ◌≡◌, ◌≢◌, ◌↔◌, ◌<◌, arith, inl, inr, Option-cases}
use metaflux_client_rust.Order.{Order, Trigger, gtc, check_trigger_limit}

-- A trigger leg has no zero callback, and one that fires as a limit order has a price and `gtc`.
pub record IsFireable (o : Order) : Type 0 where
  pub trail : (t : Trigger) → o.trigger ≡ some t → t.trail_px ≢ some 0
  pub priced : (t : Trigger) → o.trigger ≡ some t → t.is_market ≡ false → 0 < o.limit_px
  pub rests : (t : Trigger) → o.trigger ≡ some t → t.is_market ≡ false → o.tif ≡ gtc

IsFireable-of_ok : (o : Order) → check_trigger_limit o ≡ ok tt → IsFireable o
unfolding check_trigger_limit
IsFireable-of_ok o h = record {
  trail = λ t e z. ground arith;
  priced = λ t e m. ground arith;
  rests = λ t e m. ground arith;
}

IsFireable-ok : (o : Order) → IsFireable o → check_trigger_limit o ≡ ok tt
unfolding check_trigger_limit
IsFireable-ok o f = elim (Option-cases o.trigger) [
  | inl e ↦ ground arith
  | inr (t, e) ↦ ground (arith, f.trail t e, f.priced t e, f.rests t e)
]

pub check_trigger_limit_iff : (o : Order) → (check_trigger_limit o ≡ ok tt) ↔ IsFireable o
check_trigger_limit_iff o = (IsFireable-of_ok o, IsFireable-ok o)
