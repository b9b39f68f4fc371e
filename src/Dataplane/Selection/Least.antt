-- ===== src/Dataplane/Selection/Least.antt =====
-- The scan of nextLeastConnections.
use jbalance.Common.{
  All-weaken, ℕ, subst, ◌≢◌, ◌≡◌, refl, true, false, none, some, List, [], ◌∷◌, arith, get_elem?,
  index-of_get_elem?, Run, returned, All, Bool-cases, inl, inr, ◌==◌, nat_eq, any,
}
use jbalance.Platform.{Platform, FloatOrder}
use jbalance.Dataplane.Entry.{BackendEntry}
use jbalance.Dataplane.Backends.{BackendList}
use jbalance.Dataplane.Selection.{
  Picked, Best, load, better, least_step, least_loop, take_best, next_least_connections, take_entry,
}
use jbalance.Dataplane.Selection.Refresh.{IsSlot}
use jbalance.Dataplane.Selection.Picks.{Takes}

module _ ⦃p : Platform⦄ (o : FloatOrder p) (now : ℕ) (es : List BackendEntry) where
  -- The best so far is a slot with its load, and no load seen is below it.
  abbrev IsBest : Best → Type 0
  IsBest none = Unit {0}
  IsBest (some (t, m)) = (k : IsSlot now es t) × (m ≡ load k.0)

  abbrev Low : Best → p.Float → Type 0
  Low none l = ⊥
  Low (some (t, m)) l = p.f_lt l m ≡ false

  Low-better : (best : Best) (s : ℕ) (l : p.Float) → Low (better best s l) l
  unfolding better
  Low-better none s l = o.irrefl l
  Low-better (some (t, m)) s l = elim (Bool-cases (p.f_lt l m)) [
    | inl h ↦ rw h (o.irrefl l)
    | inr h ↦ rw h h
  ]

  better-Low : (best : Best) (s : ℕ) (l k : p.Float) → Low best k → Low (better best s l) k
  unfolding better
  better-Low none s l k h = absurd h
  better-Low (some (t, m)) s l k h = elim (Bool-cases (p.f_lt l m)) [
    | inl q ↦ elim (Bool-cases (p.f_lt k l)) [ inl r ↦ cc (o.trans k l m r q) | inr r ↦ rw q r ]
    | inr q ↦ rw q h
  ]

  better-IsBest :
      (best : Best) (s : ℕ) (k : IsSlot now es s) → IsBest best → IsBest (better best s (load k.0))
  unfolding better
  better-IsBest none s k h = (k, refl)
  better-IsBest (some (t, m)) s k h = elim (Bool-cases (p.f_lt (load k.0) m)) [
    | inl q ↦ rw q (k, refl)
    | inr q ↦ rw q h
  ]

  -- The load of the entry at a slot that was seen is not below the best.
  abbrev LowAt : Best → ℕ → Type 0
  LowAt best s = (e : BackendEntry) → get_elem? es s ≡ some e → Low best (load e)

  abbrev Covers : List ℕ → Best → Type 0
  Covers seen best = (s : ℕ) → any (λ t. t == s) seen ≡ true → LowAt best s

  -- What the scan has reached after some slots.
  abbrev Scanned : List ℕ → List ℕ × Best → Run (List ℕ × Best) → Type 0
  Scanned ss (seen, best) r =
      (st : List ℕ × Best) × (r ≡ returned st)
      × (IsBest st.1)
      × (Covers st.0 st.1)
      × ((l : p.Float) → Low best l → Low st.1 l)
      × (All (LowAt st.1) ss)

  low_here : (s : ℕ) (best : Best) (k : IsSlot now es s) → LowAt (better best s (load k.0)) s
  low_here s best k e g =
      let q : k.0 ≡ e = cc (k.1) in
      let best' = better best s (load k.0) in
      subst (λ f. Low best' (load f)) q (Low-better best s (load k.0))

  Covers-more :
      (s : ℕ) (seen : List ℕ) (best : Best) (k : IsSlot now es s)
      → Covers seen best
      → Covers (s ∷ seen) (better best s (load k.0))
  unfolding any
  Covers-more s seen best k c t x = elim (Bool-cases (nat_eq.same s t)) [
    | inl y ↦
        subst (LowAt (better best s (load k.0))) ((nat_eq.same_iff s t).0 y) (low_here s best k)
    | inr y ↦ λ e g. better-Low best s (load k.0) (load e) (c t (ground (arith, x, y)) e g)
  ]

  least_step-Scanned :
      (s : ℕ) (seen : List ℕ) (best : Best)
      → IsSlot now es s
      → IsBest best
      → Covers seen best
      → Scanned (s ∷ []) (seen, best) (least_step es s (seen, best))
  unfolding least_step
  least_step-Scanned s seen best k h c = elim (Bool-cases (any (λ t. t == s) seen)) [
    | inl q ↦ ((seen, best), rw q, h, c, (λ l x. x), (c s q, tt))
    | inr q ↦
        let best' = better best s (load k.0) in
        (
          (s ∷ seen, best'),
          rw (q, index-of_get_elem? es s k.1),
          better-IsBest best s k h,
          Covers-more s seen best k c,
          (λ l. better-Low best s (load k.0) l),
          (low_here s best k, tt),
        )
  ]

  -- The loop returns a slot of least load among all slots.
  least_loop-Scanned :
      (ss seen : List ℕ) (best : Best)
      → All (IsSlot now es) ss
      → IsBest best
      → Covers seen best
      → Scanned ss (seen, best) (least_loop es ss (seen, best))
  unfolding least_loop
  least_loop-Scanned [] seen best h k c = ((seen, best), refl, k, c, (λ l x. x), tt)
  least_loop-Scanned (s ∷ ss) seen best h k c =
      let (st, q, k', c', low, here) = least_step-Scanned s seen best h.0 k c in
      let (out, r, k'', c'', low', rest) = least_loop-Scanned ss st.0 st.1 h.1 k' c' in
      (
        out,
        rw q r,
        k'',
        c'',
        (λ l x. low' l (low l x)),
        ((λ e g. low' (load e) (here.0 e g)), rest),
      )

module _ ⦃p : Platform⦄ (o : FloatOrder p) where
  -- No slot of the list names a backend of less load than `e`.
  abbrev pub IsLeast : BackendList p → BackendEntry → Type 0
  IsLeast b e =
      All
        (λ t.
          (f : BackendEntry) → get_elem? b.entries t ≡ some f → p.f_lt (load f) (load e) ≡ false)
        b.slots

  abbrev pub TakesLeast : ℕ → BackendList p → Picked → Type 0
  TakesLeast now b r = (t : Takes now b r) × (IsLeast b t.1)

  take_best-TakesLeast :
      (now : ℕ) (b : BackendList p) (best : Best)
      → All (IsSlot now b.entries) b.slots
      → b.slots ≢ []
      → IsBest o now b.entries best
      → All (LowAt o now b.entries best) b.slots
      → TakesLeast now b (take_best best b)
  unfolding take_best take_entry
  take_best-TakesLeast now b none h l k low = absurd (none_low b.slots l h low)
    where
      none_low :
          (ss : List ℕ)
          → ss ≢ []
          → All (IsSlot now b.entries) ss
          → All (LowAt o now b.entries none) ss
          → ⊥
      none_low [] m h low = m refl
      none_low (s ∷ ss) m h low = low.0 h.0.0 h.0.1
  take_best-TakesLeast now b (some (t, m)) h l (k, q) low = (
    (t, k.0, b.next, k.1, k.2, rw (index-of_get_elem? b.entries t k.1)),
    All-weaken b.slots (λ s c f g. rw q at (c f g)) low,
  )

  pub next_least_connections-TakesLeast :
      (now : ℕ) (b : BackendList p)
      → All (IsSlot now b.entries) b.slots
      → b.slots ≢ []
      → TakesLeast now b (next_least_connections b)
  unfolding next_least_connections any
  next_least_connections-TakesLeast now b h l =
      let (st, q, k, c, low, all_low) =
        least_loop-Scanned o now b.entries b.slots [] none h tt (λ s x e g. cc) in
      rw q (take_best-TakesLeast now b st.1 h l k all_low)
