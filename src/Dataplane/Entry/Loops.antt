-- ===== src/Dataplane/Entry/Loops.antt =====
-- The loops over the entries: what they leave of health, weight, ejection and connection counts.
use jbalance.Common.{
  ℕ, suc, ◌≤◌, ◌≡◌, refl, Bool, Option, none, some, List, [], ◌∷◌, arith, get_elem?, set, All, Text,
  Map, lookup, insert, lookup-insert, text_instance, Bool-cases, inl, inr, ltb,
}
use jbalance.Dataplane.Entry.{
  BackendEntry, ejected, slots_from, earlier, expiry_from, update_first, find_first, set_first,
  by_address,
}

-- Two entries that selection does not tell apart but by load.
abbrev pub SameView : BackendEntry → BackendEntry → Type 0
SameView e f = (e.healthy ≡ f.healthy) × (e.weight ≡ f.weight) × (e.ejected_until ≡ f.ejected_until)

abbrev pub SameViews : List BackendEntry → List BackendEntry → Type 0
SameViews [] [] = Unit {0}
SameViews [] (f ∷ fs) = ⊥
SameViews (e ∷ es) [] = ⊥
SameViews (e ∷ es) (f ∷ fs) = SameView e f × SameViews es fs

abbrev pub Keeps : (BackendEntry → BackendEntry) → Type 0
Keeps g = (e : BackendEntry) → SameView (g e) e

pub SameViews-refl : (es : List BackendEntry) → SameViews es es
SameViews-refl [] = tt
SameViews-refl (e ∷ es) = ((refl, refl, refl), SameViews-refl es)

pub SameViews-update_first :
    (a : Text) (g : BackendEntry → BackendEntry) (es : List BackendEntry)
    → Keeps g
    → SameViews (update_first a g es) es
unfolding update_first
SameViews-update_first a g [] k = tt
SameViews-update_first a g (e ∷ es) k =
    ground (arith, k e, SameViews-refl es, SameViews-update_first a g es k)

pub SameViews-set :
    (es : List BackendEntry) (i : ℕ) (e v : BackendEntry)
    → get_elem? es i ≡ some e
    → SameView v e
    → SameViews (set es i v) es
SameViews-set [] i e v h k = tt
SameViews-set (f ∷ es) ℕ.zero e v h k = ground (arith, SameViews-refl es)
SameViews-set (f ∷ es) (suc i) e v h k = ((refl, refl, refl), SameViews-set es i e v h k)

pub slots_from-SameViews :
    (now i : ℕ) (es fs : List BackendEntry)
    → SameViews es fs
    → slots_from now i es ≡ slots_from now i fs
unfolding slots_from ejected
slots_from-SameViews now i [] [] k = refl
slots_from-SameViews now i [] (f ∷ fs) k = absurd k
slots_from-SameViews now i (e ∷ es) [] k = absurd k
slots_from-SameViews now i (e ∷ es) (f ∷ fs) k =
    ground (arith, slots_from-SameViews now (suc i) es fs k.1)

pub expiry_from-SameViews :
    (now : ℕ) (next : Option ℕ) (es fs : List BackendEntry)
    → SameViews es fs
    → expiry_from now next es ≡ expiry_from now next fs
unfolding expiry_from ejected
expiry_from-SameViews now next [] [] k = refl
expiry_from-SameViews now next [] (f ∷ fs) k = absurd k
expiry_from-SameViews now next (e ∷ es) [] k = absurd k
expiry_from-SameViews now next (e ∷ es) (f ∷ fs) k = ground (
  arith,
  expiry_from-SameViews now next es fs k.1,
  expiry_from-SameViews now (earlier next e.ejected_until) es fs k.1,
)

abbrev pub AtMost : Option ℕ → ℕ → Type 0
AtMost none y = ⊥
AtMost (some x) y = x ≤ y

AtMost-trans : (o : Option ℕ) (y z : ℕ) → AtMost o y → y ≤ z → AtMost o z
AtMost-trans none y z h l = h
AtMost-trans (some x) y z h l = omega arith

pub earlier-le : (y : ℕ) (o : Option ℕ) → (z : ℕ) × (earlier (some y) o ≡ some z) × (z ≤ y)
unfolding earlier
earlier-le y none = (y, refl, omega arith)
earlier-le y (some t) = elim (Bool-cases (ltb t y)) [
  | inl h ↦ (t, ground arith, ground arith)
  | inr h ↦ (y, ground arith, omega arith)
]

-- The expiry that is recorded is no later than one already found.
pub expiry_from-AtMost :
    (now y : ℕ) (es : List BackendEntry) → AtMost (expiry_from now (some y) es) y
unfolding expiry_from
expiry_from-AtMost now y [] = omega arith
expiry_from-AtMost now y (e ∷ es) =
    let (z, q, l) = earlier-le y e.ejected_until in
    let found = AtMost-trans (expiry_from now (some z) es) z y (expiry_from-AtMost now z es) l in
    elim (Bool-cases (ejected now e)) [
      | inl h ↦ rw (h, q) found
      | inr h ↦ rw h (expiry_from-AtMost now y es)
    ]

-- A write through the first entry that was found.
pub update_first-found :
    (a : Text) (g : BackendEntry → BackendEntry) (e : BackendEntry) (es : List BackendEntry)
    → find_first a es ≡ some e
    → update_first a (λ _. g e) es ≡ update_first a g es
unfolding update_first find_first
update_first-found a g e [] h = refl
update_first-found a g e (f ∷ es) h = ground (arith, update_first-found a g e es)

module _ {ℓ} (P : BackendEntry → Type ℓ) where
  pub All-update_first :
      (a : Text) (g : BackendEntry → BackendEntry) (es : List BackendEntry)
      → ((e : BackendEntry) → P e → P (g e))
      → All P es
      → All P (update_first a g es)
  unfolding update_first
  All-update_first a g [] k h = h
  All-update_first a g (e ∷ es) k h = ground (arith, k e, All-update_first a g es k h.1)

  pub All-set :
      (es : List BackendEntry) (i : ℕ) (v : BackendEntry) → P v → All P es → All P (set es i v)
  All-set [] i v p h = h
  All-set (e ∷ es) ℕ.zero v p h = (p, h.1)
  All-set (e ∷ es) (suc i) v p h = (h.0, All-set es i v p h.1)

  pub All-set_first :
      (a : Text) (healthy : Bool) (es : List BackendEntry)
      → ((e : BackendEntry) → P e → P (record e { healthy = healthy }))
      → All P es
      → All P (set_first a healthy es).0
  unfolding set_first
  All-set_first a healthy [] k h = h
  All-set_first a healthy (e ∷ es) k h = ground (arith, k e, All-set_first a healthy es k h.1)

  pub All-find_first :
      (a : Text) (es : List BackendEntry) {e : BackendEntry}
      → All P es
      → find_first a es ≡ some e
      → P e
  unfolding find_first
  All-find_first a [] h q = cc
  All-find_first a (f ∷ es) {e} h q = ground (arith, All-find_first a es {e = e})

  -- What holds of all entries holds of those that prevEntries knows.
  pub lookup-by_address :
      (a : Text) (m : Map Text BackendEntry) (es : List BackendEntry)
      → All P es
      → ((e : BackendEntry) → lookup a m ≡ some e → P e)
      → (e : BackendEntry) → lookup a (by_address m es) ≡ some e
      → P e
  unfolding by_address
  lookup-by_address a m [] h k e q = k e q
  lookup-by_address a m (f ∷ es) h k e q =
      lookup-by_address a (insert f.address f m) es h.1
        (λ g r. ground (arith, k g, lookup-insert f.address a f m, h.0)) e q
