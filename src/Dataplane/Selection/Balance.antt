-- ===== src/Dataplane/Selection/Balance.antt =====
-- A selection followed by the release of its backend.
use jbalance.Common.{ℕ, ◌≡◌, inl, inr, subst, ◌∙◌, some, List, Text, returned, set}
use jbalance.Platform.{Platform, FloatOrder}
use jbalance.Dataplane.Entry.{acquire_entry}
use jbalance.Dataplane.Ring.{RingPoint}
use jbalance.Dataplane.Backends.{BackendList, release}
use jbalance.Dataplane.Backends.Invariant.{IsValid}
use jbalance.Dataplane.Backends.Updates.{Unique}
use jbalance.Dataplane.Backends.Counters.{release_taken}
use jbalance.Dataplane.Selection.{next_for_key, refresh}
use jbalance.Dataplane.Selection.Refresh.{refresh-entries}
use jbalance.Dataplane.Selection.Picks.{Takes}
use jbalance.Dataplane.Selection.Owner.{Sorts}
use jbalance.Dataplane.Selection.Outcome.{InRange, next_for_key-Serves, refresh-IsValid}

module _ ⦃p : Platform⦄ where
  Takes-release :
      (now : ℕ) (b b' : BackendList p) (a : Text)
      → IsValid now b
      → Unique b.entries
      → Takes now b (returned (b', some a))
      → (release a b').entries ≡ b.entries
  unfolding release
  Takes-release now b b' a v u (s, e, cursor, q, k, r) =
      let es : b'.entries ≡ set b.entries s (acquire_entry e) = cc in
      let addr : a ≡ e.address = cc in rw (es, addr) (release_taken b.entries s e v.sound u q)

  -- On a valid list with unique addresses, draws in range, a sort that sorts and the order of
  -- float64, releasing the address that a selection returned restores every entry.
  pub next_for_key-release :
      (o : FloatOrder p) (intn : ℕ → ℕ → ℕ)
      → InRange intn
      → (sort : List RingPoint → List RingPoint) → Sorts sort
      → (now : ℕ) (key a : Text) (b b' : BackendList p) → IsValid now b
      → Unique b.entries
      → next_for_key intn sort now key b ≡ returned (b', some a)
      → (release a b').entries ≡ b.entries
  next_for_key-release o intn i sort s now key a b b' v u q =
      elim (next_for_key-Serves o intn i sort s now key b v) [
        | inl (_, e) ↦ cc (e, q)
        | inr t ↦
            Takes-release now (refresh now b) b' a (refresh-IsValid now b v)
              (rw (refresh-entries now b) u) (subst (Takes now (refresh now b)) q t)
            ∙ refresh-entries now b
      ]
