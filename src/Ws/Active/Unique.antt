-- ===== src/Ws/Active/Unique.antt =====
-- No view is held twice in the active set (src/ws/client.rs).
use metaflux_client_rust.Base.{
  String, List, [], ◌∷◌, ◌++◌, Bool, false, not, Option, none, some, ◌≡◌, refl, inl, inr, arith,
  Bool-cases, All, All-append, retain,
}
use metaflux_client_rust.Ws.Subscription.{Subscription, sub_eq}
use metaflux_client_rust.Ws.Active.{
  contains, l2_book_is_coin, book_coin, subscribe, subscribe_as, unsubscribe_as, unsubscribe,
}
use metaflux_client_rust.Ws.Active.Views.{same_view, same_view_iff, eq_iff_view, coin_test}

-- No view is held twice.
abbrev pub Distinct : List Subscription → Type 0
Distinct [] = Unit
Distinct (s ∷ active) = All (λ r. same_view s r ≡ false) active × Distinct active

All-retain :
    (P : Subscription → Type 0) (p : Subscription → Bool) (active : List Subscription)
    → All P active
    → All P (retain p active)
All-retain P p [] a = tt
All-retain P p (s ∷ active) (h, a) = elim (Bool-cases (p s)) [
  | inl e ↦ rw (e) (h, All-retain P p active a)
  | inr e ↦ rw (e) (All-retain P p active a)
]

Distinct-retain :
    (p : Subscription → Bool) (active : List Subscription)
    → Distinct active
    → Distinct (retain p active)
Distinct-retain p [] d = tt
Distinct-retain p (s ∷ active) (h, d) = elim (Bool-cases (p s)) [
  | inl e ↦ rw (e) (All-retain (λ r. same_view s r ≡ false) p active h, Distinct-retain p active d)
  | inr e ↦ rw (e) (Distinct-retain p active d)
]

Distinct-append :
    (s : Subscription) (active : List Subscription)
    → Distinct active
    → All (λ r. same_view r s ≡ false) active
    → Distinct (active ++ s ∷ [])
Distinct-append s [] d a = (tt, tt)
Distinct-append s (r ∷ active) (h, d) (e, a) = (
  All-append (λ x. same_view r x ≡ false) active (s ∷ []) h (e, tt),
  Distinct-append s active d a,
)

retain_others :
    (p : Subscription → Bool) (k : Subscription) (active : List Subscription)
    → ((s : Subscription) → p s ≡ not (same_view s k))
    → All (λ r. same_view r k ≡ false) (retain p active)
retain_others p k [] all = tt
retain_others p k (s ∷ active) all = elim (Bool-cases (p s)) [
  | inl e ↦ rw (e) (ground (arith, e, all s), retain_others p k active all)
  | inr e ↦ rw (e) (retain_others p k active all)
]

missing_others :
    (k : Subscription) (active : List Subscription)
    → book_coin k ≡ none
    → contains active k ≡ false
    → All (λ r. same_view r k ≡ false) active
missing_others k [] n c = tt
missing_others k (s ∷ active) n c = (
  ground (arith, c, eq_iff_view s k n, same_view_iff s k),
  missing_others k active n (ground (arith, c)),
)

Distinct-added :
    (o : Option String) (sub : Subscription) (active : List Subscription)
    → book_coin sub ≡ o
    → Distinct active
    → Distinct (subscribe_as o sub active)
Distinct-added none sub active n d = elim (Bool-cases (contains active sub)) [
  | inl c ↦ rw (c) d
  | inr c ↦ rw (c) (Distinct-append sub active d (missing_others sub active n c))
]
Distinct-added (some coin) sub active e d =
    Distinct-append sub (retain (λ s. not (l2_book_is_coin s coin)) active)
      (Distinct-retain (λ s. not (l2_book_is_coin s coin)) active d)
      (retain_others (λ s. not (l2_book_is_coin s coin)) sub active (coin_test sub coin e))

Distinct-dropped :
    (o : Option String) (sub : Subscription) (active : List Subscription)
    → Distinct active
    → Distinct (unsubscribe_as o sub active)
Distinct-dropped none sub active d = Distinct-retain (λ s. not (sub_eq s sub)) active d
Distinct-dropped (some coin) sub active d =
    Distinct-retain (λ s. not (l2_book_is_coin s coin)) active d

-- No view is held twice, whatever `subscribe` and `unsubscribe` do to the active set: so what is
-- replayed on a reconnect asks for each view once.
pub Distinct-subscribe :
    (sub : Subscription) (active : List Subscription)
    → Distinct active
    → Distinct (subscribe sub active) × Distinct (unsubscribe sub active)
unfolding subscribe unsubscribe
Distinct-subscribe sub active d = (
  Distinct-added (book_coin sub) sub active refl d,
  Distinct-dropped (book_coin sub) sub active d,
)
