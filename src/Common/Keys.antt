-- ===== src/Common/Keys.antt =====
-- A Go map has one entry for each key, so a loop over its entries speaks of every key.
use mathlib.Core.Path.{◌≡◌, refl, ap, ◌∙◌, sym}
use mathlib.Core.Logic.{◌↔◌, ◌⊎◌, inl, inr}
use mathlib.Core.Bool.{Bool, true, false, ◌||◌}
use mathlib.Core.List.{[], ◌∷◌}
use mathlib.Core.Option.{none, some}
use native.Mathlib.Omega.{arith}
use jbalance.Common.Tests.{Comparable, ◌==◌, if◌then◌else◌, Bool-cases}
use jbalance.Common.Lists.{any, all}
use jbalance.Common.Assoc.{Map, lookup, insert, lookup-insert, beq_refl}

or_cases : (a b : Bool) → (a || b) ≡ true → (a ≡ true) ⊎ (b ≡ true)
or_cases a b h = ground arith

module _ {ℓ κ} {K : Type ℓ} {V : Type κ} ⦃e : Comparable K⦄ where
  abbrev pub Distinct : Map K V → Type κ
  Distinct [] = Unit
  Distinct ((k, v) ∷ m) = (lookup k m ≡ none) × Distinct m

  lookup-insert_other :
      (k j : K) (v : V) (m : Map K V) → (k == j) ≡ false → lookup j (insert k v m) ≡ lookup j m
  lookup-insert_other k j v m h = lookup-insert k j v m ∙ rw h refl

  pub insert-Distinct : (k : K) (v : V) (m : Map K V) → Distinct m → Distinct (insert k v m)
  unfolding insert lookup
  insert-Distinct k v [] h = (refl, tt)
  insert-Distinct k v ((j, w) ∷ m) h = elim (Bool-cases (j == k)) [
    | inl q ↦ let same : j ≡ k = (e.same_iff j k).0 q in rw q (rw (sym same) h.0, h.1)
    | inr q ↦
        let other : (k == j) ≡ false = ground (arith, e.same_iff j k, e.same_iff k j) in
        rw q (lookup-insert_other k j v m other ∙ h.0, insert-Distinct k v m h.1)
  ]

  -- What the rest of the map holds is what the map holds.
  lookup-rest :
      (j k : K) (w v : V) (m : Map K V)
      → Distinct ((j, w) ∷ m)
      → lookup k m ≡ some v
      → lookup k ((j, w) ∷ m) ≡ some v
  unfolding lookup
  lookup-rest j k w v m h l = elim (Bool-cases (j == k)) [
    | inl q ↦
        let same : j ≡ k = (e.same_iff j k).0 q in
        let gone : lookup k m ≡ none = rw (sym same) h.0 in cc (gone, l)
    | inr q ↦ rw q l
  ]

  lookup-cons :
      (j k : K) (w v : V) (m : Map K V)
      → lookup k ((j, w) ∷ m) ≡ some v
      → (◌≡◌ {A = K × V} (j, w) (k, v)) ⊎ (lookup k m ≡ some v)
  unfolding lookup
  lookup-cons j k w v m l = elim (Bool-cases (j == k)) [
    | inl q ↦
        let same : j ≡ k = (e.same_iff j k).0 q in
        let found : some w ≡ some v = ap (λ c. if c then some w else lookup k m) (sym q) ∙ l in
        let val : w ≡ v = cc in inl (λ i. (same i, val i))
    | inr q ↦ inr (ap (λ c. if c then some w else lookup k m) (sym q) ∙ l)
  ]

  any_find :
      (f : K × V → Bool) (m : Map K V)
      → Distinct m
      → any f m ≡ true
      → (k : K) × (v : V) × (lookup k m ≡ some v) × (f (k, v) ≡ true)
  unfolding any lookup
  any_find f [] h q = cc
  any_find f ((j, w) ∷ m) h q = elim (or_cases (f (j, w)) (any f m) q) [
    | inl t ↦ (j, w, rw (beq_refl j) refl, t)
    | inr t ↦ let (k, v, l, t) = any_find f m h.1 t in (k, v, lookup-rest j k w v m h l, t)
  ]

  any_found :
      (f : K × V → Bool) (m : Map K V) (k : K) (v : V)
      → lookup k m ≡ some v
      → f (k, v) ≡ true
      → any f m ≡ true
  unfolding any lookup
  any_found f [] k v l t = cc
  any_found f ((j, w) ∷ m) k v l t = elim (lookup-cons j k w v m l) [
    | inl q ↦ let here : f (j, w) ≡ true = ap f q ∙ t in ground arith
    | inr q ↦ let rest = any_found f m k v q t in ground arith
  ]

  all_at :
      (f : K × V → Bool) (m : Map K V) (k : K) (v : V)
      → all f m ≡ true
      → lookup k m ≡ some v
      → f (k, v) ≡ true
  unfolding all lookup
  all_at f [] k v t l = cc
  all_at f ((j, w) ∷ m) k v t l = elim (lookup-cons j k w v m l) [
    | inl q ↦ let here : f (j, w) ≡ true = ground arith in sym (ap f q) ∙ here
    | inr q ↦ all_at f m k v (ground arith) q
  ]

  all_from :
      (f : K × V → Bool) (m : Map K V)
      → Distinct m
      → ((k : K) (v : V) → lookup k m ≡ some v → f (k, v) ≡ true)
      → all f m ≡ true
  unfolding all lookup
  all_from f [] h t = refl
  all_from f ((j, w) ∷ m) h t =
      let head : f (j, w) ≡ true = t j w (rw (beq_refl j) refl) in
      let rest = all_from f m h.1 (λ k v l. t k v (lookup-rest j k w v m h l)) in ground arith

  -- A test of the entries is a test of what the keys have.
  pub any_iff :
      (f : K × V → Bool) (m : Map K V)
      → Distinct m
      → (any f m ≡ true) ↔ ((k : K) × (v : V) × (lookup k m ≡ some v) × (f (k, v) ≡ true))
  any_iff f m h = (any_find f m h, λ (k, v, l, t). any_found f m k v l t)

  pub all_iff :
      (f : K × V → Bool) (m : Map K V)
      → Distinct m
      → (all f m ≡ true) ↔ ((k : K) (v : V) → lookup k m ≡ some v → f (k, v) ≡ true)
  all_iff f m h = (λ t k v l. all_at f m k v t l, all_from f m h)
