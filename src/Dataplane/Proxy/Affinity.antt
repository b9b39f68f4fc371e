-- ===== src/Dataplane/Proxy/Affinity.antt =====
-- selectBackend of internal/dataplane/proxy.go, and the affinity of a session.
use jbalance.Common.{
  ℕ, ◌≡◌, refl, ap, ◌∙◌, ◌⊎◌, inl, inr, true, false, not, Option, none, some, List, Text, is_empty,
  Run, returned, Bool-cases, Option-cases, if◌then◌else◌,
}
use jbalance.Platform.{Platform, FloatOrder}
use jbalance.Dataplane.Entry.{find_first, selectable, update_first, acquire_entry}
use jbalance.Dataplane.Ring.{RingPoint}
use jbalance.Dataplane.Backends.{BackendList, pin_to}
use jbalance.Dataplane.Backends.Counters.{pinnable}
use jbalance.Dataplane.Backends.Invariant.{IsValid}
use jbalance.Dataplane.Selection.{refresh, next_for_key}
use jbalance.Dataplane.Selection.Owner.{Sorts}
use jbalance.Dataplane.Selection.Outcome.{InRange, Serves, next_for_key-Serves}
use jbalance.Dataplane.Proxy.{
  affinity_cookie, Cookie, Chosen, choose_next, pinned_or_next, select_backend,
}

module _ ⦃p : Platform⦄ where
  -- The value of the cookie, if affinity is on and its backend may be selected.
  abbrev pub honoured : ℕ → Option Text → BackendList p → Option Text
  honoured now none b = none
  honoured now (some value) b =
      if not b.sticky.enabled
      then none
      else if is_empty value
      then none
      else if pinnable now (find_first value b.entries)
      then some value
      else none

  -- The request stays with the backend of its cookie, on which it is counted.
  abbrev pub Stays : ℕ → Text → BackendList p → Chosen → Type 0
  Stays now value b r =
      r
      ≡ returned (
        record b { entries = update_first value acquire_entry b.entries },
        some value,
        some (affinity_cookie b.sticky.cookie_name, value),
      )

  pin_cases :
      (now : ℕ) (a : Text) (b : BackendList p)
      → ((pinnable now (find_first a b.entries) ≡ true)
          × (pin_to now a b
              ≡ (record b { entries = update_first a acquire_entry b.entries }, true)))
        ⊎ ((pinnable now (find_first a b.entries) ≡ false) × (pin_to now a b ≡ (b, false)))
  unfolding pin_to
  pin_cases now a b = elim (Option-cases (find_first a b.entries)) [
    | inl q ↦ inr (rw q refl, rw (q, pin_to) refl)
    | inr (e, q) ↦ elim (Bool-cases (selectable now e)) [
      | inl k ↦ inl (rw q k, rw (q, pin_to, k) refl)
      | inr k ↦ inr (rw q k, rw (q, pin_to, k) refl)
    ]
  ]

  select_backend-cases :
      (intn : ℕ → ℕ → ℕ) (sort : List RingPoint → List RingPoint) (now : ℕ) (client : Text)
      (cookie : Option Text) (b : BackendList p)
      → ((value : Text) × (honoured now cookie b ≡ some value)
          × Stays now value b (select_backend intn sort now client cookie b))
        ⊎ ((honoured now cookie b ≡ none)
            × (select_backend intn sort now client cookie b ≡ choose_next intn sort now client b))
  unfolding select_backend pinned_or_next
  select_backend-cases intn sort now client none b = elim (Bool-cases b.sticky.enabled) [
    | inl e ↦ inr (refl, rw e refl)
    | inr e ↦ inr (refl, rw e refl)
  ]
  select_backend-cases intn sort now client (some value) b = elim (Bool-cases b.sticky.enabled) [
    | inr e ↦ inr (rw e refl, rw e refl)
    | inl e ↦ elim (Bool-cases (is_empty value)) [
      | inl z ↦ inr (rw (e, z) refl, rw (e, z) refl)
      | inr z ↦
          let step : select_backend intn sort now client (some value) b
              ≡ pinned_or_next intn sort now client b.sticky.cookie_name value
                  (pin_to now value b) =
            simp (e, z) refl in
          elim (pin_cases now value b) [
            | inl (k, r) ↦ inl (
              value,
              rw (e, z, k) refl,
              step ∙ ap (pinned_or_next intn sort now client b.sticky.cookie_name value) r,
            )
            | inr (k, r) ↦ inr (
              rw (e, z, k) refl,
              step ∙ ap (pinned_or_next intn sort now client b.sticky.cookie_name value) r,
            )
          ]
    ]
  ]

  -- The cookie that pins what was chosen, where affinity is on.
  abbrev pub follow_cookie : BackendList p → BackendList p × Option Text → Cookie
  follow_cookie b (b', a) =
      if b.sticky.enabled
      then elim a [ none ↦ none | some addr ↦ some (affinity_cookie b.sticky.cookie_name, addr) ]
      else none

  -- NextForKey returns, and its list and address are the outcome, with the cookie for them.
  abbrev pub Follows : BackendList p → Run (BackendList p × Option Text) → Chosen → Type 0
  Follows b q r =
      (q' : BackendList p × Option Text) × (q ≡ returned q')
      × (r ≡ returned (q'.0, q'.1, follow_cookie b q'))

module _ ⦃p : Platform⦄ (o : FloatOrder p) (intn : ℕ → ℕ → ℕ) (draws : InRange intn)
    (sort : List RingPoint → List RingPoint) (sorts : Sorts sort) where
  next_for_key-returns :
      (now : ℕ) (key : Text) (b : BackendList p)
      → IsValid now b
      → (q : BackendList p × Option Text) × (next_for_key intn sort now key b ≡ returned q)
  next_for_key-returns now key b v =
      elim (next_for_key-Serves o intn draws sort sorts now key b v) [
        | inl (_, e) ↦ ((refresh now b, none), e)
        | inr (s, e, cursor, q, k, r) ↦ (_, r)
      ]

  choose_next-follows :
      (now : ℕ) (client : Text) (b : BackendList p) (q : BackendList p × Option Text)
      → next_for_key intn sort now client b ≡ returned q
      → choose_next intn sort now client b ≡ returned (q.0, q.1, follow_cookie b q)
  unfolding choose_next
  choose_next-follows now client b q f = rw f refl

  -- On a valid list, with draws in range, a sort that sorts and the order of float64, a request
  -- whose cookie names a backend that may be selected is counted on it and stays with it where
  -- affinity is on; any other goes where NextForKey says, with the cookie for that where affinity
  -- is on, and nothing panics.
  pub select_backend-Stays :
      (now : ℕ) (client : Text) (cookie : Option Text) (b : BackendList p)
      → IsValid now b
      → ((value : Text) × (honoured now cookie b ≡ some value)
          × Stays now value b (select_backend intn sort now client cookie b))
        ⊎ ((honoured now cookie b ≡ none)
            × Serves now b (next_for_key intn sort now client b)
            × Follows b
                (next_for_key intn sort now client b)
                (select_backend intn sort now client cookie b))
  select_backend-Stays now client cookie b v =
      elim (select_backend-cases intn sort now client cookie b) [
        | inl stays ↦ inl stays
        | inr (k, e) ↦
            let (q, f) = next_for_key-returns now client b v in
            inr (
              k,
              next_for_key-Serves o intn draws sort sorts now client b v,
              (q, f, e ∙ choose_next-follows now client b q f),
            )
      ]
