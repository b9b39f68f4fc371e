-- ===== src/Dataplane/Selection/Picks.antt =====
-- The indices and the picks of the algorithms.
use jbalance.Common.{
  ℕ, ◌+◌, ◌-◌, ◌%◌, ◌^◌, ◌<◌, ◌≡◌, true, some, List, arith, length, get_elem?, get_elem?-lt, set,
  index, index-of_get_elem?, returned, All, All-get_elem?, Bool-cases, inl, inr,
}
use jbalance.Platform.{Platform}
use jbalance.Dataplane.Entry.{acquire_entry, BackendEntry, selectable}
use jbalance.Dataplane.Backends.{BackendList}
use jbalance.Dataplane.Selection.{
  Picked, take_entry, next_round_robin, next_random, load, next_p2c, second_choice,
}
use jbalance.Dataplane.Selection.Refresh.{IsSlot}

-- An index in range names a slot of the list.
pub IsSlot-at :
    (now : ℕ) (es : List BackendEntry) (ss : List ℕ) (i : ℕ)
    → All (IsSlot now es) ss
    → i < length ss
    → (s : ℕ) × (index ss i ≡ returned s) × (IsSlot now es s)
IsSlot-at now es ss i h l =
    let (s, q) = get_elem?-lt ss i l in
    (s, index-of_get_elem? ss i q, All-get_elem? (IsSlot now es) ss i s h q)

module _ ⦃p : Platform⦄ where
  -- The call returns a backend that may be selected now; it has counted the request there, and
  -- changed no more than the round-robin cursor besides.
  abbrev pub Takes : ℕ → BackendList p → Picked → Type 0
  Takes now b r =
      (s : ℕ) × (e : BackendEntry) × (cursor : ℕ) × (get_elem? b.entries s ≡ some e)
      × (selectable now e ≡ true)
      × (r
          ≡ returned (
            record b { entries = set b.entries s (acquire_entry e); next = cursor },
            some e.address,
          ))

  take_entry-Takes :
      (now cursor s : ℕ) (b : BackendList p)
      → IsSlot now b.entries s
      → Takes now b (take_entry s (record b { next = cursor }))
  unfolding take_entry
  take_entry-Takes now cursor s b (e, q, k) =
      (s, e, cursor, q, k, rw (index-of_get_elem? b.entries s q))

  pub next_round_robin-Takes :
      (now : ℕ) (b : BackendList p)
      → All (IsSlot now b.entries) b.slots
      → 0 < length b.slots
      → Takes now b (next_round_robin b)
  unfolding next_round_robin
  next_round_robin-Takes now b h l =
      let next = (b.next + 1) % 2 ^ 64 in
      let (s, q, k) =
        IsSlot-at now b.entries b.slots (((next + 2 ^ 64 - 1) % 2 ^ 64) % length b.slots) h
          (grind arith) in
      rw q (take_entry-Takes now next s b k)

  pub next_random-Takes :
      (now : ℕ) (intn : ℕ → ℕ → ℕ) (b : BackendList p)
      → All (IsSlot now b.entries) b.slots
      → intn 0 (length b.slots) < length b.slots
      → Takes now b (next_random intn b)
  unfolding next_random
  next_random-Takes now intn b h l =
      let (s, q, k) = IsSlot-at now b.entries b.slots (intn 0 (length b.slots)) h l in
      rw q (take_entry-Takes now b.next s b k)

  second_choice-lt : (n i draw : ℕ) → i < n → (1 < n → draw < n - 1) → second_choice n i draw < n
  unfolding second_choice
  second_choice-lt n i draw h k = grind arith

  -- Of the two backends drawn the one with the lower load is taken.
  pub next_p2c-Takes :
      (now : ℕ) (intn : ℕ → ℕ → ℕ) (b : BackendList p)
      → All (IsSlot now b.entries) b.slots
      → intn 0 (length b.slots) < length b.slots
      → (1 < length b.slots → intn 1 (length b.slots - 1) < length b.slots - 1)
      → Takes now b (next_p2c intn b)
  unfolding next_p2c
  next_p2c-Takes now intn b h l m =
      let n = length b.slots in
      let i = intn 0 n in
      let j = second_choice n i (intn 1 (n - 1)) in
      let (s, q, k) = IsSlot-at now b.entries b.slots i h l in
      let (t, r, g) = IsSlot-at now b.entries b.slots j h (second_choice-lt n i _ l m) in
      let a = take_entry-Takes now b.next s b k in
      let c = take_entry-Takes now b.next t b g in
      let e = index-of_get_elem? b.entries s k.1 in
      let f = index-of_get_elem? b.entries t g.1 in
      elim (Bool-cases (p.f_lt (load g.0) (load k.0))) [
        | inl x ↦ rw (q, r, e, f, x) c
        | inr x ↦ rw (q, r, e, f, x) a
      ]
