-- ===== src/Dataplane/Backends/Counters.antt =====
-- The counts of outstanding requests, under PinTo, selection and Release.
use jbalance.Common.{
  ℕ, suc, ◌≡◌, refl, subst, ◌⊎◌, ap, Bool, true, false, Option, none, some, List, [], ◌∷◌, arith,
  ◌+ℤ◌, ◌-ℤ◌, All, get_elem?, set, Text, text_eq, text_eq_refl, text_eq_iff, Bool-cases,
  Option-cases, inl, inr,
}
use jbalance.Platform.{Platform}
use jbalance.Dataplane.Entry.{
  release_entry, acquire_entry, BackendEntry, update_first, find_first, selectable,
}
use jbalance.Dataplane.Backends.{BackendList, release, pin_to}
use jbalance.Dataplane.Backends.Invariant.{IsSound}
use jbalance.Dataplane.Backends.Updates.{Unique}

release-acquire : (e : BackendEntry) → IsSound e → release_entry (acquire_entry e) ≡ e
unfolding release_entry ◌+ℤ◌ ◌-ℤ◌
release-acquire e h = ground arith

other_address :
    (a : Text) (es : List BackendEntry) (s : ℕ) (e : BackendEntry)
    → find_first a es ≡ none
    → get_elem? es s ≡ some e
    → text_eq a e.address ≡ false
unfolding find_first
other_address a [] s e h q = cc
other_address a (f ∷ es) ℕ.zero e h q =
    ground (arith, text_eq_iff a e.address, text_eq_iff f.address a)
other_address a (f ∷ es) (suc s) e h q = other_address a es s e (ground arith) q

-- Release after a selection of slot `s` gives back the entries, if addresses are unique.
pub release_taken :
    (es : List BackendEntry) (s : ℕ) (e : BackendEntry)
    → All IsSound es
    → Unique es
    → get_elem? es s ≡ some e
    → update_first e.address release_entry (set es s (acquire_entry e)) ≡ es
unfolding update_first
release_taken [] s e h u q = refl
release_taken (f ∷ es) ℕ.zero e h u q =
    let k : f ≡ e = cc in
    let back = release-acquire e (subst IsSound k h.0) in rw (text_eq_refl e.address) (cc (back, k))
release_taken (f ∷ es) (suc s) e h u q =
    rw (other_address f.address es s e u.0 q) (ap (◌∷◌ f) (release_taken es s e h.1 u.1 q))

pub release_pinned :
    (a : Text) (es : List BackendEntry)
    → All IsSound es
    → update_first a release_entry (update_first a acquire_entry es) ≡ es
unfolding update_first
release_pinned a [] h = refl
release_pinned a (f ∷ es) h = ground (arith, release-acquire f h.0, release_pinned a es h.1)

-- Whether there is an entry, which may be selected.
abbrev pub pinnable : ℕ → Option BackendEntry → Bool
pinnable now none = false
pinnable now (some e) = selectable now e

module _ ⦃p : Platform⦄ where
  -- What a pin and the release of its address come to.
  abbrev pub PinOutcome : ℕ → Text → BackendList p → Type 0
  PinOutcome now a b =
      ((pinnable now (find_first a b.entries) ≡ true)
        × ((pin_to now a b).1 ≡ true)
        × (release a (pin_to now a b).0 ≡ b))
      ⊎ ((pinnable now (find_first a b.entries) ≡ false) × (pin_to now a b ≡ (b, false)))

  -- On sound entries a pin is accepted exactly if the first backend of the address may be selected,
  -- and a release then restores the list; a refused pin changes nothing.
  pub pin_to-release :
      (now : ℕ) (a : Text) (b : BackendList p) → All IsSound b.entries → PinOutcome now a b
  unfolding release pin_to
  pin_to-release now a b h =
      let back =
        ap (λ (es : List BackendEntry). record b { entries = es }) (release_pinned a b.entries h) in
      elim (Option-cases (find_first a b.entries)) [
        | inl q ↦ inr (rw q refl, rw (q, pin_to) refl)
        | inr (e, q) ↦ elim (Bool-cases (selectable now e)) [
          | inl k ↦ inl (rw q k, rw (q, pin_to, k) refl, rw (q, pin_to, k) back)
          | inr k ↦ inr (rw q k, rw (q, pin_to, k) refl)
        ]
      ]
