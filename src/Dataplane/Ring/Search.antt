-- ===== src/Dataplane/Ring/Search.antt =====
-- sort.Search on a monotone test, and sorted rings.
use jbalance.Common.{
  ℕ, zero, suc, ◌+◌, ◌/◌, ◌≤◌, ◌<◌, ◌≡◌, ap, inl, inr, Bool, true, false, some, List, [], ◌∷◌,
  arith, All, ltb, get_elem?, Bool-cases, All-get_elem?,
}
use jbalance.Dataplane.Ring.{RingPoint, search_from, binary_search}

module _ (f : ℕ → Bool) where
  abbrev Mono : ℕ → Type 0
  Mono n = (a b : ℕ) → a ≤ b → b < n → f a ≡ true → f b ≡ true

  abbrev FalseBelow : ℕ → Type 0
  FalseBelow i = (k : ℕ) → k < i → f k ≡ false

  abbrev TrueFrom : ℕ → ℕ → Type 0
  TrueFrom i n = (k : ℕ) → i ≤ k → k < n → f k ≡ true

  false_below : (n h : ℕ) → Mono n → h < n → f h ≡ false → FalseBelow (h + 1)
  false_below n h m l q k lt = elim (Bool-cases (f k)) [
    | inl r ↦ cc (m k h (omega arith) l r)
    | inr r ↦ r
  ]

  search_from-boundary :
      (fuel i j n : ℕ)
      → Mono n
      → j < fuel + i
      → i ≤ j
      → j ≤ n
      → FalseBelow i
      → TrueFrom j n
      → let r = search_from fuel f i j in (r ≤ n) × FalseBelow r × TrueFrom r n
  unfolding search_from
  search_from-boundary zero i j n m l ij jn lo hi = absurd (omega arith)
  search_from-boundary (suc fuel) i j n m l ij jn lo hi =
      let h = (i + j) / 2 in
      elim (Bool-cases (ltb i j)) [
        | inr q ↦ rw q (omega (arith, ge q), lo, λ k x y. hi k (omega (arith, ge q)) y)
        | inl q ↦ elim (Bool-cases (f h)) [
          | inl r ↦
              rw (q, r)
                (search_from-boundary fuel i h n m (omega (arith, lt q)) (omega (arith, lt q))
                  (omega (arith, lt q)) lo (λ k x y. m h k x y r))
          | inr r ↦
              rw (q, r)
                (search_from-boundary fuel (h + 1) j n m (omega (arith, lt q)) (omega (arith, lt q))
                  jn (false_below n h m (omega (arith, lt q)) r) hi)
        ]
      ]
    where
      lt : ltb i j ≡ true → i < j
      lt q = ground arith

      ge : ltb i j ≡ false → j ≤ i
      ge q = ground arith

  pub binary_search-boundary :
      (n : ℕ) → Mono n → let r = binary_search n f in (r ≤ n) × FalseBelow r × TrueFrom r n
  unfolding binary_search
  binary_search-boundary n m =
      search_from-boundary (suc n) 0 n n m (omega arith) (omega arith) (omega arith)
        (λ k h. absurd (omega arith)) (λ k h l. absurd (omega arith))

-- The points of a ring in the order of their hashes.
abbrev pub IsSorted : List RingPoint → Type 0
IsSorted [] = Unit {0}
IsSorted (q ∷ ring) = All (λ r. q.hash ≤ r.hash) ring × IsSorted ring

pub sorted_le :
    (ring : List RingPoint) (i j : ℕ) (q r : RingPoint)
    → IsSorted ring
    → i ≤ j
    → get_elem? ring i ≡ some q
    → get_elem? ring j ≡ some r
    → q.hash ≤ r.hash
sorted_le [] i j q r h l a b = cc
sorted_le (x ∷ ring) zero zero q r h l a b =
    let e : q ≡ r = cc in omega (arith, ap (λ (s : RingPoint). s.hash) e)
sorted_le (x ∷ ring) zero (suc j) q r h l a b =
    let e : x ≡ q = cc in
    let d = All-get_elem? (λ s. x.hash ≤ s.hash) ring j r h.0 b in
    omega (arith, ap (λ (s : RingPoint). s.hash) e)
sorted_le (x ∷ ring) (suc i) zero q r h l a b = absurd (omega arith)
sorted_le (x ∷ ring) (suc i) (suc j) q r h l a b = sorted_le ring i j q r h.1 (omega arith) a b
