-- ===== src/Ws/Active/Views.antt =====
-- The active set (src/ws/client.rs) as a map from views to subscriptions: the server holds one
-- order-book view for each coin, whatever its parameters, and one stream for each other
-- subscription.
use text.Mathlib.Text.{◌==◌ as str_eq}
use text.Mathlib.TextEquality.{eq_iff}
use metaflux_client_rust.Base.{
  String, List, [], ◌∷◌, ◌++◌, Bool, true, false, not, if◌then◌else◌, Option, none, some, ◌≡◌, ◌↔◌,
  refl, sym, ap, ◌∙◌, inl, inr, arith, Bool-cases, Option-cases, retain,
}
use metaflux_client_rust.Ws.Subscription.{
  Subscription, l2_book, trades, bbo, candles, fills, order_updates, notifications, ledger_updates,
  user_fundings, user_twap_slice_fills, user_twap_history, account_state, clearinghouse_state,
  option_state, spot_margin_state, active_asset_data, open_orders, markets, sub_eq, sub_eq_iff,
}
use metaflux_client_rust.Ws.Active.{
  contains, l2_book_is_coin, book_coin, subscribe, subscribe_as, unsubscribe,
}

-- The view that a subscription asks for.
abbrev pub view : Subscription → Subscription
view (l2_book c n_sig_figs mantissa n_levels) = l2_book c none none none
view s = s

pub same_view : Subscription → Subscription → Bool
same_view a b = sub_eq (view a) (view b)

-- The subscription that holds a view.
abbrev pub holder : Subscription → List Subscription → Option Subscription
holder v [] = none
holder v (s ∷ active) = if same_view s v then some s else holder v active

pub same_view_iff : (a b : Subscription) → (same_view a b ≡ true) ↔ (view a ≡ view b)
unfolding same_view
same_view_iff a b = sub_eq_iff (view a) (view b)

-- two tests of the same thing are equal
bool_eq : {P : Type 0} (a b : Bool) → (a ≡ true) ↔ P → (b ≡ true) ↔ P → a ≡ b
bool_eq true true p q = refl
bool_eq true false p q = absurd (cc (q.1 (p.0 refl)))
bool_eq false true p q = absurd (cc (p.1 (q.0 refl)))
bool_eq false false p q = refl

is_coin_lem :
    (s : Subscription) (coin : String)
    → l2_book_is_coin s coin ≡ (elim (book_coin s) [ some c ↦ str_eq c coin | none ↦ false ])
unfolding l2_book_is_coin
is_coin_lem (l2_book x y z w) coin = refl
is_coin_lem (trades x) coin = refl
is_coin_lem (bbo x) coin = refl
is_coin_lem (candles x y z) coin = refl
is_coin_lem (fills x) coin = refl
is_coin_lem (order_updates x) coin = refl
is_coin_lem (notifications x) coin = refl
is_coin_lem (ledger_updates x) coin = refl
is_coin_lem (user_fundings x) coin = refl
is_coin_lem (user_twap_slice_fills x) coin = refl
is_coin_lem (user_twap_history x) coin = refl
is_coin_lem (account_state x) coin = refl
is_coin_lem (clearinghouse_state x) coin = refl
is_coin_lem (option_state x) coin = refl
is_coin_lem (spot_margin_state x) coin = refl
is_coin_lem (active_asset_data x y) coin = refl
is_coin_lem (open_orders x) coin = refl
is_coin_lem markets coin = refl

view_lem :
    (s : Subscription)
    → view s ≡ (elim (book_coin s) [ some c ↦ l2_book c none none none | none ↦ s ])
view_lem (l2_book x y z w) = refl
view_lem (trades x) = refl
view_lem (bbo x) = refl
view_lem (candles x y z) = refl
view_lem (fills x) = refl
view_lem (order_updates x) = refl
view_lem (notifications x) = refl
view_lem (ledger_updates x) = refl
view_lem (user_fundings x) = refl
view_lem (user_twap_slice_fills x) = refl
view_lem (user_twap_history x) = refl
view_lem (account_state x) = refl
view_lem (clearinghouse_state x) = refl
view_lem (option_state x) = refl
view_lem (spot_margin_state x) = refl
view_lem (active_asset_data x y) = refl
view_lem (open_orders x) = refl
view_lem markets = refl

view_book :
    (s : Subscription) (c : String) → book_coin s ≡ some c → view s ≡ l2_book c none none none
view_book s c e = rw (view_lem s, e) refl

view_other : (s : Subscription) → book_coin s ≡ none → view s ≡ s
view_other s e = rw (view_lem s, e) refl

is_coin_iff :
    (s sub : Subscription) (coin : String)
    → book_coin sub ≡ some coin
    → (l2_book_is_coin s coin ≡ true) ↔ (view s ≡ view sub)
is_coin_iff s sub coin e = elim (Option-cases (book_coin s)) [
  | inl n ↦
      rw (is_coin_lem s coin, n, view_other s n, view_book sub coin e)
        ((λ h. absurd (cc h)), (λ p. absurd (cc (n, ap book_coin p))))
  | inr (c, n) ↦
      rw (is_coin_lem s coin, n, view_book s c n, view_book sub coin e)
        (
          (λ h. ap (λ x. l2_book x none none none) ((eq_iff c coin).0 h)),
          (λ p. (eq_iff c coin).1 (cc p)),
        )
]

pub eq_iff_view :
    (s sub : Subscription) → book_coin sub ≡ none → (sub_eq s sub ≡ true) ↔ (view s ≡ view sub)
eq_iff_view s sub e = elim (Option-cases (book_coin s)) [
  | inl n ↦ rw (view_other s n, view_other sub e) (sub_eq_iff s sub)
  | inr (c, n) ↦
      rw (view_book s c n, view_other sub e)
        ((λ h. absurd (cc (n, e, (sub_eq_iff s sub).0 h))), (λ p. absurd (cc (e, ap book_coin p))))
]

same_view_cong : (a b v : Subscription) → same_view a b ≡ true → same_view a v ≡ same_view b v
unfolding same_view
same_view_cong a b v h = ap (λ x. sub_eq x (view v)) ((same_view_iff a b).0 h)

same_view_meet :
    (a b v : Subscription) → same_view a v ≡ true → same_view b v ≡ true → same_view a b ≡ true
same_view_meet a b v g h =
    (same_view_iff a b).1 (((same_view_iff a v).0 g) ∙ sym ((same_view_iff b v).0 h))

-- Dropping a view leaves the holders of the others.
holder-retain :
    (p : Subscription → Bool) (k v : Subscription) (active : List Subscription)
    → ((s : Subscription) → p s ≡ not (same_view s k))
    → holder v (retain p active) ≡ (if same_view k v then none else holder v active)
holder-retain p k v [] all = ground (arith)
holder-retain p k v (s ∷ active) all =
    ground
      (arith, holder-retain p k v active all, all s, same_view_cong s k v, same_view_meet s k v)

-- the first of two holders
abbrev found_or : Option Subscription → Bool → Subscription → Option Subscription
found_or (some r) b s = some r
found_or none b s = if b then some s else none

found_or_dropped :
    (b : Bool) (o : Option Subscription) (s : Subscription)
    → found_or (if b then none else o) b s ≡ (if b then some s else o)
found_or_dropped true o s = refl
found_or_dropped false none s = refl
found_or_dropped false (some r) s = refl

found_or_missing :
    (b : Bool) (o : Option Subscription) (s : Subscription)
    → (b ≡ true → o ≡ none)
    → found_or o b s ≡ (if b then some s else o)
found_or_missing true o s h = rw (h refl) refl
found_or_missing false none s h = refl
found_or_missing false (some r) s h = refl

holder-append :
    (v s : Subscription) (active : List Subscription)
    → holder v (active ++ s ∷ []) ≡ found_or (holder v active) (same_view s v) s
holder-append v s [] = refl
holder-append v s (r ∷ active) = elim (Bool-cases (same_view r v)) [
  | inl e ↦ rw (e) refl
  | inr e ↦ rw (e) (holder-append v s active)
]

-- What `contains` finds of a subscription that is not of an order book holds its own view.
holder-contains :
    (sub v : Subscription) (active : List Subscription)
    → book_coin sub ≡ none
    → contains active sub ≡ true
    → same_view sub v ≡ true
    → holder v active ≡ some sub
holder-contains sub v [] n c h = absurd (cc c)
holder-contains sub v (s ∷ active) n c h = elim (Bool-cases (same_view s v)) [
  | inl e ↦ rw (e) (ap some ((sub_eq_iff s sub).0 ((eq_iff_view s sub n).1 (same s e))))
  | inr e ↦ rw (e) (holder-contains sub v active n (rest e) h)
]
  where
    same : (s : Subscription) → same_view s v ≡ true → view s ≡ view sub
    same s e = ((same_view_iff s v).0 e) ∙ sym ((same_view_iff sub v).0 h)

    rest : same_view s v ≡ false → contains active sub ≡ true
    rest e =
        ground (arith, c, e, h, eq_iff_view s sub n, same_view_cong s sub v, same_view_iff s sub)

-- Without an equal subscription, nothing holds its view.
holder-missing :
    (sub v : Subscription) (active : List Subscription)
    → book_coin sub ≡ none
    → contains active sub ≡ false
    → same_view sub v ≡ true
    → holder v active ≡ none
holder-missing sub v [] n c h = refl
holder-missing sub v (s ∷ active) n c h = ground (
  arith,
  holder-missing sub v active n,
  c,
  h,
  same_view_meet s sub v,
  eq_iff_view s sub n,
  same_view_iff s sub,
)

pub coin_test :
    (sub : Subscription) (coin : String)
    → book_coin sub ≡ some coin
    → (s : Subscription) → not (l2_book_is_coin s coin) ≡ not (same_view s sub)
coin_test sub coin e s = ap not (
    bool_eq (l2_book_is_coin s coin) (same_view s sub) (is_coin_iff s sub coin e)
      (same_view_iff s sub))

eq_test :
    (sub : Subscription)
    → book_coin sub ≡ none
    → (s : Subscription) → not (sub_eq s sub) ≡ not (same_view s sub)
eq_test sub e s =
    ap not (bool_eq (sub_eq s sub) (same_view s sub) (eq_iff_view s sub e) (same_view_iff s sub))

-- After `unsubscribe`, nothing holds the view of the subscription, and every other view is held as
-- before: a book is dropped whatever its parameters.
pub holder-unsubscribe :
    (sub v : Subscription) (active : List Subscription)
    → holder v (unsubscribe sub active) ≡ (if same_view sub v then none else holder v active)
unfolding unsubscribe
holder-unsubscribe sub v active = elim (Option-cases (book_coin sub)) [
  | inl n ↦ rw (n) (holder-retain (λ s. not (sub_eq s sub)) sub v active (eq_test sub n))
  | inr (coin, e) ↦
      rw (e) (holder-retain (λ s. not (l2_book_is_coin s coin)) sub v active (coin_test sub coin e))
]

holder-added :
    (sub v : Subscription) (active : List Subscription)
    → book_coin sub ≡ none
    → holder v (subscribe_as none sub active)
      ≡ (if same_view sub v then some sub else holder v active)
holder-added sub v active n = elim (Bool-cases (contains active sub)) [
  | inl c ↦ ground (arith, c, holder-contains sub v active n c)
  | inr c ↦
      rw (c, holder-append v sub active)
        (found_or_missing (same_view sub v) (holder v active) sub (holder-missing sub v active n c))
]

-- After `subscribe`, the subscription holds its own view, whatever held it before, and every other
-- view is held as before: the active set is a map from views, whatever its order.
pub holder-subscribe :
    (sub v : Subscription) (active : List Subscription)
    → holder v (subscribe sub active) ≡ (if same_view sub v then some sub else holder v active)
unfolding subscribe
holder-subscribe sub v active = elim (Option-cases (book_coin sub)) [
  | inl n ↦ rw (n) (holder-added sub v active n)
  | inr (coin, e) ↦
      rw
        (
          e,
          holder-append v sub (retain (λ s. not (l2_book_is_coin s coin)) active),
          holder-retain (λ s. not (l2_book_is_coin s coin)) sub v active (coin_test sub coin e),
        )
        (found_or_dropped (same_view sub v) (holder v active) sub)
]
