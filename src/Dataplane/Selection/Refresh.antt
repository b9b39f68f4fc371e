-- ===== src/Dataplane/Selection/Refresh.antt =====
-- The slots that selection reads, against the entries that may be selected now.
use jbalance.Common.{
  All-weaken, subst, ℕ, suc, ◌+◌, ◌≤◌, ◌<◌, ◌≡◌, refl, sym, ◌∙◌, true, false, Option, none, some,
  List, [], ◌∷◌, ◌++◌, arith, pos, pos_part, ◌≤ℤ◌, get_elem?, replicate, All, All-append,
  Bool-cases, Option-cases, inl, inr, ltb,
}
use jbalance.Platform.{Platform}
use jbalance.Dataplane.Entry.{
  BackendEntry, ejected, selectable, entry_slots, slots_from, earlier, expiry_from,
}
use jbalance.Dataplane.Entry.Loops.{AtMost, expiry_from-AtMost}
use jbalance.Dataplane.Backends.{BackendList}
use jbalance.Dataplane.Backends.Invariant.{IsSound, IsValid}
use jbalance.Dataplane.Selection.{need_rebuild, refresh}

not_due : (o : Option ℕ) (now y : ℕ) → AtMost o y → need_rebuild now o ≡ false → now < y
unfolding need_rebuild
not_due none now y h r = absurd h
not_due (some x) now y h r = ground arith

earlier-le_right : (o : Option ℕ) (u : ℕ) → (z : ℕ) × (earlier o (some u) ≡ some z) × (z ≤ u)
unfolding earlier
earlier-le_right none u = (u, refl, omega arith)
earlier-le_right (some s) u = elim (Bool-cases (ltb u s)) [
  | inl h ↦ (u, ground arith, omega arith)
  | inr h ↦ (s, ground arith, ground arith)
]

still_ejected :
    (t now u : ℕ) (next : Option ℕ) (e : BackendEntry) (es : List BackendEntry)
    → e.ejected_until ≡ some u
    → need_rebuild now (expiry_from t (earlier next e.ejected_until) es) ≡ false
    → ejected now e ≡ true
unfolding ejected
still_ejected t now u next e es q r =
    let (z, k, l) = earlier-le_right next u in
    let r' : need_rebuild now (expiry_from t (some z) es) ≡ false = rw (← k) (rw (← q) r) in
    let due = not_due (expiry_from t (some z) es) now z (expiry_from-AtMost t z es) r' in
    ground arith

ejected-some :
    (t : ℕ) (e : BackendEntry) → ejected t e ≡ true → (u : ℕ) × (e.ejected_until ≡ some u)
unfolding ejected
ejected-some t e h = elim (Option-cases e.ejected_until) [
  | inl q ↦ absurd (ground arith)
  | inr uq ↦ uq
]

-- An ejection that is over stays over.
pub ejected-later :
    (t now : ℕ) (e : BackendEntry) → t ≤ now → ejected t e ≡ false → ejected now e ≡ false
unfolding ejected
ejected-later t now e h k = ground arith

-- Until the recorded expiry no ejection that the slots reflect has ended.
same_ejection :
    (t now : ℕ) (next : Option ℕ) (es : List BackendEntry)
    → t ≤ now
    → need_rebuild now (expiry_from t next es) ≡ false
    → All (λ e. ejected t e ≡ ejected now e) es
unfolding expiry_from
same_ejection t now next [] h r = tt
same_ejection t now next (e ∷ es) h r = elim (Bool-cases (ejected t e)) [
  | inl k ↦
      let r' : need_rebuild now (expiry_from t (earlier next e.ejected_until) es) ≡ false =
        rw k at r in
      let (u, q) = ejected-some t e k in
      (
        k ∙ sym (still_ejected t now u next e es q r'),
        same_ejection t now (earlier next e.ejected_until) es h r',
      )
  | inr k ↦
      let r' : need_rebuild now (expiry_from t next es) ≡ false = rw k at r in
      (k ∙ sym (ejected-later t now e h k), same_ejection t now next es h r')
]

slots_from-same_ejection :
    (t now i : ℕ) (es : List BackendEntry)
    → All (λ e. ejected t e ≡ ejected now e) es
    → slots_from t i es ≡ slots_from now i es
unfolding slots_from
slots_from-same_ejection t now i [] h = refl
slots_from-same_ejection t now i (e ∷ es) h =
    ground (arith, h.0, slots_from-same_ejection t now (suc i) es h.1)

-- A slot that names a backend which may be selected now.
abbrev pub IsSlot : ℕ → List BackendEntry → ℕ → Type 0
IsSlot now es s = (e : BackendEntry) × (get_elem? es s ≡ some e) × (selectable now e ≡ true)

-- The same of a slot that counts from `i`.
abbrev IsSlotFrom : ℕ → ℕ → List BackendEntry → ℕ → Type 0
IsSlotFrom now i es s = (k : ℕ) × (s ≡ k + i) × (IsSlot now es k)

All-replicate {ℓ} : (P : ℕ → Type ℓ) (n i : ℕ) → P i → All P (replicate n i)
All-replicate P ℕ.zero i h = tt
All-replicate P (suc n) i h = (h, All-replicate P n i h)

entry_slots-IsSlotFrom :
    (now i : ℕ) (e : BackendEntry) (es : List BackendEntry)
    → All (IsSlotFrom now i (e ∷ es)) (entry_slots now i e)
unfolding entry_slots selectable
entry_slots-IsSlotFrom now i e es = elim (Bool-cases (ejected now e)) [
  | inl h ↦ rw h tt
  | inr h ↦ elim (Bool-cases e.healthy) [
    | inl k ↦
        simp (h, k)
          (All-replicate (IsSlotFrom now i (e ∷ es)) (pos_part e.weight) i
            (0, omega arith, (e, refl, ground arith)))
    | inr k ↦ simp (h, k) tt
  ]
]

slots_from-IsSlotFrom :
    (now i : ℕ) (es : List BackendEntry) → All (IsSlotFrom now i es) (slots_from now i es)
unfolding slots_from
slots_from-IsSlotFrom now i [] = tt
slots_from-IsSlotFrom now i (e ∷ es) =
    All-append (IsSlotFrom now i (e ∷ es)) (entry_slots now i e) (slots_from now (suc i) es)
      (entry_slots-IsSlotFrom now i e es)
      (All-weaken (slots_from now (suc i) es) (λ s h. (suc h.0, omega (arith, h.1), h.2))
        (slots_from-IsSlotFrom now (suc i) es))

pub slots_from-IsSlot :
    (now : ℕ) (es : List BackendEntry) → All (IsSlot now es) (slots_from now 0 es)
slots_from-IsSlot now es =
    All-weaken (slots_from now 0 es)
      (λ s h. let q : h.0 ≡ s = omega (arith, h.1) in subst (IsSlot now es) q h.2)
      (slots_from-IsSlotFrom now 0 es)

module _ ⦃p : Platform⦄ where
  -- What NextForKey reads are the slots of this moment.
  pub refresh-slots :
      (now : ℕ) (b : BackendList p)
      → IsValid now b
      → (refresh now b).slots ≡ slots_from now 0 b.entries
  unfolding refresh
  refresh-slots now b v =
      let r : need_rebuild now b.next_eject_expiry ≡ false → b.slots ≡ slots_from now 0 b.entries =
        λ h.
          v.built.0
          ∙ slots_from-same_ejection v.built_at now 0 b.entries
              (same_ejection v.built_at now none b.entries v.past (rw (← v.built.1) h)) in
      elim (Bool-cases (need_rebuild now b.next_eject_expiry)) [ inl h ↦ rw h | inr h ↦ rw h (r h) ]

  pub refresh-entries : (now : ℕ) (b : BackendList p) → (refresh now b).entries ≡ b.entries
  unfolding refresh
  refresh-entries now b = ground arith

  -- Each of them is the index of a backend that may be selected now, …
  pub refresh-IsSlot :
      (now : ℕ) (b : BackendList p)
      → IsValid now b
      → All (IsSlot now b.entries) (refresh now b).slots
  refresh-IsSlot now b v = rw (refresh-slots now b v) (slots_from-IsSlot now b.entries)

append-eq-nil {ℓ} : {A : Type ℓ} (xs ys : List A) → xs ++ ys ≡ [] → (xs ≡ []) × (ys ≡ [])
append-eq-nil [] ys q = (refl, q)
append-eq-nil (x ∷ xs) ys q = cc

replicate-eq-nil : (n i : ℕ) → replicate n i ≡ [] → n ≡ 0
replicate-eq-nil ℕ.zero i q = refl
replicate-eq-nil (suc n) i q = cc

no_entry_slots :
    (now i : ℕ) (e : BackendEntry)
    → pos 1 ≤ℤ e.weight
    → entry_slots now i e ≡ []
    → selectable now e ≡ false
unfolding entry_slots selectable
no_entry_slots now i e h q = ground (arith, replicate-eq-nil (pos_part e.weight) i)

-- … and there is one unless no backend may be selected.
pub no_slots :
    (now i : ℕ) (es : List BackendEntry)
    → All IsSound es
    → slots_from now i es ≡ []
    → All (λ e. selectable now e ≡ false) es
unfolding slots_from
no_slots now i [] h q = tt
no_slots now i (e ∷ es) h q =
    let (here, rest) = append-eq-nil (entry_slots now i e) (slots_from now (suc i) es) q in
    (no_entry_slots now i e h.0.0 here, no_slots now (suc i) es h.1 rest)
