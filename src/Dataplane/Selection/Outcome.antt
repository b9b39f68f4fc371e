-- ===== src/Dataplane/Selection/Outcome.antt =====
-- The outcome of NextForKey, under every algorithm.
use jbalance.Common.{
  ℕ, ◌≡◌, ◌≢◌, ◌⊎◌, ◌<◌, refl, sym, subst, ◌∙◌, ap, false, Option, none, List, [], ◌∷◌, arith, All,
  All-get_elem?, length, set, returned, Text, is_empty, Bool-cases, inl, inr, nat_eq,
}
use jbalance.Platform.{Platform, FloatOrder}
use jbalance.Dataplane.Entry.{
  acquire_entry, Algorithm, round_robin, least_connections, random, p2c, consistent_hash,
  selectable,
}
use jbalance.Dataplane.Entry.Loops.{SameViews-set, All-set}
use jbalance.Dataplane.Ring.{RingPoint}
use jbalance.Dataplane.Backends.{BackendList}
use jbalance.Dataplane.Backends.Invariant.{
  IsSound, IsValid, same-IsValid, acquire_entry-IsSound, rebuild-IsValid,
}
use jbalance.Dataplane.Selection.{Picked, refresh, dispatch, next_for_key}
use jbalance.Dataplane.Selection.Refresh.{
  IsSlot, refresh-slots, refresh-IsSlot, refresh-entries, no_slots,
}
use jbalance.Dataplane.Selection.Picks.{
  Takes, next_round_robin-Takes, next_random-Takes, next_p2c-Takes,
}
use jbalance.Dataplane.Selection.Least.{TakesLeast, next_least_connections-TakesLeast}
use jbalance.Dataplane.Selection.Owner.{
  Sorts, TakesOwner, next_consistent_hash-TakesOwner, length_pos,
}

-- rng.Intn(n) is below n.
abbrev pub InRange : (ℕ → ℕ → ℕ) → Type 0
InRange intn = (k n : ℕ) → 0 < n → intn k n < n

module _ ⦃p : Platform⦄ where
  -- No backend may be selected and none is returned, or one that may be is taken.
  abbrev pub Serves : ℕ → BackendList p → Picked → Type 0
  Serves now b r =
      ((All (λ e. selectable now e ≡ false) b.entries) × (r ≡ returned (refresh now b, none)))
      ⊎ Takes now (refresh now b) r

  pub refresh-IsValid : (now : ℕ) (b : BackendList p) → IsValid now b → IsValid now (refresh now b)
  unfolding refresh
  refresh-IsValid now b v = ground (arith, v, rebuild-IsValid now b v.sound)

  -- A call that takes a backend leaves the list valid.
  pub Takes-IsValid :
      (now : ℕ) (b b' : BackendList p) (a : Option Text)
      → IsValid now b
      → Takes now b (returned (b', a))
      → IsValid now b'
  Takes-IsValid now b b' a v (s, e, cursor, q, k, r) =
      let es = set b.entries s (acquire_entry e) in
      let taken : BackendList p = record b { entries = es; next = cursor } in
      let same =
        same-IsValid es v (SameViews-set b.entries s e (acquire_entry e) q (refl, refl, refl)) (
          All-set IsSound b.entries s (acquire_entry e)
            (acquire_entry-IsSound e (All-get_elem? IsSound b.entries s e v.sound q)) v.sound) in
      let valid : IsValid now taken = record {
        built_at = same.built_at;
        past = same.past;
        built = same.built;
        sound = same.sound;
      } in
      let e : taken ≡ b' = cc (r) in subst (IsValid now) e valid

slots_cases : (ss : List ℕ) → (ss ≡ []) ⊎ ((ss ≢ []) × (nat_eq.same (length ss) 0 ≡ false))
slots_cases [] = inl refl
slots_cases (s ∷ ss) = inr ((λ q. cc), ground arith)

module _ ⦃p : Platform⦄ where
  refresh-IsSlot' :
      (now : ℕ) (b : BackendList p)
      → IsValid now b
      → All (IsSlot now (refresh now b).entries) (refresh now b).slots
  refresh-IsSlot' now b v = rw (refresh-entries now b) (refresh-IsSlot now b v)

  refresh-algorithm : (now : ℕ) (b : BackendList p) → (refresh now b).algorithm ≡ b.algorithm
  unfolding refresh
  refresh-algorithm now b = ground arith

module _ ⦃p : Platform⦄ (o : FloatOrder p) (intn : ℕ → ℕ → ℕ) (draws : InRange intn)
    (sort : List RingPoint → List RingPoint) (sorts : Sorts sort) where
  dispatch-Takes :
      (now : ℕ) (algorithm : Algorithm) (key : Text) (b : BackendList p)
      → All (IsSlot now b.entries) b.slots
      → b.slots ≢ []
      → Takes now b (dispatch intn sort algorithm key b)
  unfolding dispatch
  dispatch-Takes now round_robin key b h m = next_round_robin-Takes now b h (length_pos b.slots m)
  dispatch-Takes now least_connections key b h m = (next_least_connections-TakesLeast o now b h m).0
  dispatch-Takes now random key b h m =
      next_random-Takes now intn b h (draws 0 _ (length_pos b.slots m))
  dispatch-Takes now p2c key b h m =
      next_p2c-Takes now intn b h (draws 0 _ (length_pos b.slots m)) (λ l. draws 1 _ (omega arith))
  dispatch-Takes now consistent_hash key b h m = elim (Bool-cases (is_empty key)) [
    | inl q ↦ rw q (next_round_robin-Takes now b h (length_pos b.slots m))
    | inr q ↦ rw q (next_consistent_hash-TakesOwner sort sorts now key b h m).0
  ]

  -- On a valid list, with draws in range, a sort that sorts and the order of float64, NextForKey
  -- under every algorithm takes a backend that may be selected at that moment and counts the
  -- request on it, or it returns none and then no backend may be selected; no index is out of
  -- range.
  pub next_for_key-Serves :
      (now : ℕ) (key : Text) (b : BackendList p)
      → IsValid now b
      → Serves now b (next_for_key intn sort now key b)
  unfolding next_for_key
  next_for_key-Serves now key b v =
      let r = refresh now b in
      let slots = refresh-slots now b v in
      elim (slots_cases r.slots) [
        | inl q ↦ inl (no_slots now 0 b.entries v.sound (sym slots ∙ q), rw q)
        | inr (m, e) ↦ inr (rw e (dispatch-Takes now r.algorithm key r (refresh-IsSlot' now b v) m))
      ]

  next_for_key-by :
      (now : ℕ) (key : Text) (b : BackendList p) {a : Algorithm}
      → nat_eq.same (length (refresh now b).slots) 0 ≡ false
      → (refresh now b).algorithm ≡ a
      → next_for_key intn sort now key b ≡ dispatch intn sort a key (refresh now b)
  unfolding next_for_key
  next_for_key-by now key b e q =
      let r = refresh now b in (rw e) ∙ ap (λ a. dispatch intn sort a key r) q

  -- On a valid list with least_connections, draws in range, a sort that sorts and the order of
  -- float64, no backend may be selected, or one is taken than which no other slot's backend has
  -- less load.
  pub next_for_key-TakesLeast :
      (now : ℕ) (key : Text) (b : BackendList p)
      → IsValid now b
      → b.algorithm ≡ least_connections
      → (All (λ e. selectable now e ≡ false) b.entries)
        ⊎ TakesLeast o now (refresh now b) (next_for_key intn sort now key b)
  unfolding dispatch
  next_for_key-TakesLeast now key b v a =
      let r = refresh now b in
      let slots = refresh-slots now b v in
      let q : r.algorithm ≡ least_connections = refresh-algorithm now b ∙ a in
      elim (slots_cases r.slots) [
        | inl z ↦ inl (no_slots now 0 b.entries v.sound (sym slots ∙ z))
        | inr (m, e) ↦ inr (
            subst (TakesLeast o now r) (sym (next_for_key-by now key b e q))
              (next_least_connections-TakesLeast o now r (refresh-IsSlot' now b v) m))
      ]

  -- On a valid list with consistent_hash and a key that is not empty, draws in range, a sort that
  -- sorts and the order of float64, no backend may be selected, or one is taken of which a virtual
  -- node stands on the sorted ring of the slots and owns the key's hash there: the first at or
  -- after the hash, or the first of all where there is none.
  pub next_for_key-TakesOwner :
      (now : ℕ) (key : Text) (b : BackendList p)
      → IsValid now b
      → b.algorithm ≡ consistent_hash
      → is_empty key ≡ false
      → (All (λ e. selectable now e ≡ false) b.entries)
        ⊎ TakesOwner sort sorts now key (refresh now b) (next_for_key intn sort now key b)
  unfolding dispatch
  next_for_key-TakesOwner now key b v a k =
      let r = refresh now b in
      let slots = refresh-slots now b v in
      let q : r.algorithm ≡ consistent_hash = refresh-algorithm now b ∙ a in
      elim (slots_cases r.slots) [
        | inl z ↦ inl (no_slots now 0 b.entries v.sound (sym slots ∙ z))
        | inr (m, e) ↦ inr (
            subst (TakesOwner sort sorts now key r) (sym (next_for_key-by now key b e q ∙ rw k))
              (next_consistent_hash-TakesOwner sort sorts now key r (refresh-IsSlot' now b v) m))
      ]
