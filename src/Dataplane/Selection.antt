-- ===== src/Dataplane/Selection.antt =====
-- internal/dataplane/backends.go, Next and the five algorithms. A call is one atomic step; `intn k n`
-- is the value of the k-th call of rng.Intn(n) in it, and `sort` the order that sort.Slice leaves.
pub mod Refresh
pub mod Picks
pub mod Least
pub mod Owner
pub mod Outcome
pub mod Balance
use jbalance.Common.{
  ℕ, suc, ◌+◌, ◌-◌, ◌%◌, ◌^◌, Bool, true, false, not, ◌≡◌, Option, none, some, List, [], ◌∷◌, ◌<◌,
  Text, is_empty, leb, ltb, length, get_elem?, set, index, Run, returned, ◌>>=◌, if◌then◌else◌,
  ◌==◌, nat_eq, ℤ, pos, leb_ℤ, any,
}
use jbalance.Platform.{Platform}
use jbalance.Dataplane.Entry.{
  acquire_entry, BackendEntry, Algorithm, round_robin, least_connections, random, p2c,
  consistent_hash,
}
use jbalance.Dataplane.Backends.{BackendList, rebuild_slots_locked}
use jbalance.Dataplane.Ring.{RingPoint, hash_key, ring_loop, binary_search}

-- `sort.Search(len(ring), …)`: the index of the first point at or after `h`, on the sorted ring.
unfoldable pub at_or_after : ℕ → List RingPoint → ℕ → Bool
at_or_after h ring i = elim (get_elem? ring i) [ none ↦ false | some q ↦ leb h q.hash ]

unfoldable pub ring_index : ℕ → List RingPoint → ℕ
unfolding at_or_after binary_search
ring_index h ring =
    let i = binary_search (length ring) (at_or_after h ring) in if i == length ring then 0 else i

-- The second, distinct index of nextP2C.
unfoldable pub second_choice : ℕ → ℕ → ℕ → ℕ
second_choice n i draw = if ltb 1 n then (if leb i draw then draw + 1 else draw) else i

-- Whether the ejection window that ends first has ended.
unfoldable pub need_rebuild : ℕ → Option ℕ → Bool
need_rebuild now expiry = elim expiry [ none ↦ false | some t ↦ not (ltb now t) ]

module _ ⦃p : Platform⦄ where
  abbrev pub Picked : Type 0
  Picked = Run (BackendList p × Option Text)

  -- `entry := entries[slot]; entry.activeConns.Add(1); return entry.address, true`
  unfoldable pub take_entry : ℕ → BackendList p → Picked
  take_entry slot b = do
    e ← index b.entries slot
    returned (record b { entries = set b.entries slot (acquire_entry e) }, some e.address)

  unfoldable pub next_round_robin : BackendList p → Picked
  unfolding take_entry
  next_round_robin b = do
    let next = (b.next + 1) % 2 ^ 64
    let idx = (next + 2 ^ 64 - 1) % 2 ^ 64
    slot ← index b.slots (idx % length b.slots)
    take_entry slot (record b { next = next })

  unfoldable pub next_random : (ℕ → ℕ → ℕ) → BackendList p → Picked
  unfolding take_entry
  next_random intn b = do slot ← index b.slots (intn 0 (length b.slots)); take_entry slot b

  -- Outstanding requests by weight.
  unfoldable pub load : BackendEntry → p.Float
  load e =
      p.f_div (p.f_int e.active_conns)
        (p.f_int (if leb_ℤ e.weight (pos 0) then pos 1 else e.weight))

  abbrev pub Best : Type 0
  Best = Option (ℕ × p.Float)

  unfoldable pub better : Best → ℕ → p.Float → Best
  better none s l = some (s, l)
  better (some (t, m)) s l = if p.f_lt l m then some (s, l) else some (t, m)

  unfoldable pub least_step : List BackendEntry → ℕ → List ℕ × Best → Run (List ℕ × Best)
  unfolding better load
  least_step es s (seen, best) =
      if any (λ t. t == s) seen
      then returned (seen, best)
      else (do e ← index es s; returned (s ∷ seen, better best s (load e)))

  unfoldable pub least_loop : List BackendEntry → List ℕ → List ℕ × Best → Run (List ℕ × Best)
  unfolding least_step
  least_loop es [] st = returned st
  least_loop es (s ∷ ss) st = do st' ← least_step es s st; least_loop es ss st'

  unfoldable pub take_best : Best → BackendList p → Picked
  unfolding take_entry
  take_best none b = returned (b, none)
  take_best (some (s, l)) b = take_entry s b

  unfoldable pub next_least_connections : BackendList p → Picked
  unfolding least_loop take_best
  next_least_connections b = do st ← least_loop b.entries b.slots ([], none); take_best st.1 b

  unfoldable pub next_p2c : (ℕ → ℕ → ℕ) → BackendList p → Picked
  unfolding take_entry load second_choice
  next_p2c intn b = do
    let n = length b.slots
    let i = intn 0 n
    let j = second_choice n i (intn 1 (n - 1))
    s ← index b.slots i
    t ← index b.slots j
    a ← index b.entries s
    c ← index b.entries t
    take_entry (if p.f_lt (load c) (load a) then t else s) b

  -- The owner of the key on the sorted ring, where the ring is not empty.
  unfoldable pub take_owner :
      (List RingPoint → List RingPoint) → Text → List RingPoint → BackendList p → Picked
  unfolding ring_index take_entry hash_key
  take_owner sort key [] b = returned (b, none)
  take_owner sort key (q ∷ points) b = do
    let ring = sort (q ∷ points)
    o ← index ring (ring_index (hash_key key) ring)
    take_entry o.slot b

  unfoldable pub next_consistent_hash :
      (List RingPoint → List RingPoint) → Text → BackendList p → Picked
  unfolding ring_loop take_owner
  next_consistent_hash sort key b = do
    st ← ring_loop b.entries b.slots ([], [])
    take_owner sort key st.1 b

  -- Re-admission of the backends whose ejection has ended.
  unfoldable pub refresh : ℕ → BackendList p → BackendList p
  unfolding need_rebuild rebuild_slots_locked
  refresh now b = if need_rebuild now b.next_eject_expiry then rebuild_slots_locked now b else b

  module _ (intn : ℕ → ℕ → ℕ) (sort : List RingPoint → List RingPoint) where
    unfoldable pub dispatch : Algorithm → Text → BackendList p → Picked
    unfolding next_round_robin next_random next_least_connections next_p2c next_consistent_hash
    dispatch least_connections key b = next_least_connections b
    dispatch random key b = next_random intn b
    dispatch p2c key b = next_p2c intn b
    dispatch consistent_hash key b =
        if is_empty key then next_round_robin b else next_consistent_hash sort key b
    dispatch round_robin key b = next_round_robin b

    unfoldable pub next_for_key : ℕ → Text → BackendList p → Picked
    unfolding refresh dispatch
    next_for_key now key b =
        let r = refresh now b in
        if nat_eq.same (length r.slots) 0 then returned (r, none) else dispatch r.algorithm key r
