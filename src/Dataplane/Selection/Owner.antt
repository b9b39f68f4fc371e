-- ===== src/Dataplane/Selection/Owner.antt =====
-- nextConsistentHash, and the owner of a hash on the ring of the slots.
use jbalance.Common.{
  ℕ, zero, suc, ◌*◌, ◌≤◌, ◌<◌, ◌≡◌, ◌≢◌, ◌⊎◌, refl, subst, true, false, some, List, [], ◌∷◌, ◌++◌,
  arith, All, All-append, All-get_elem?, get_elem?, get_elem?-lt, index-of_get_elem?, Run, returned,
  Bool-cases, inl, inr, ltb, any, ◌==◌, nat_eq, pos_part, ℤ, length, Text,
}
use mathlib.Core.List.{Permᴰ}
use jbalance.Platform.{Platform}
use jbalance.Dataplane.Entry.{BackendEntry}
use jbalance.Dataplane.Ring.{
  RingPoint, hash_key, points_from, ring_weight, vnodes_per_unit_weight, ring_step, ring_loop,
  binary_search,
}
use jbalance.Dataplane.Ring.Search.{IsSorted, sorted_le, binary_search-boundary}
use jbalance.Dataplane.Backends.{BackendList}
use jbalance.Dataplane.Selection.{
  at_or_after, ring_index, take_entry, take_owner, next_consistent_hash, Picked,
}
use jbalance.Dataplane.Selection.Refresh.{IsSlot}
use jbalance.Dataplane.Selection.Picks.{Takes}

-- The documented result of sort.Slice by hash: the same points, in order.
pub record Sorts (sort : List RingPoint → List RingPoint) : Type 0 where
  pub perm : (ring : List RingPoint) → Permᴰ ring (sort ring)
  pub sorted : (ring : List RingPoint) → IsSorted (sort ring)

pub All-perm {ℓ κ} :
    {A : Type ℓ} (P : A → Type κ) {xs ys : List A} → Permᴰ xs ys → All P xs → All P ys
All-perm P Permᴰ.nil h = h
All-perm P (Permᴰ.cons q r) h = (subst P q h.0, All-perm P r h.1)
All-perm P (Permᴰ.swap q r) (x, (y, z)) = (subst P r y, (subst P q x, z))
All-perm P (Permᴰ.trans q r) h = All-perm P r (All-perm P q h)

-- `q` owns the hash `h`: it is the first point at or after `h`, or the first of all if none is.
abbrev pub Owns : ℕ → List RingPoint → RingPoint → Type 0
Owns h ring q =
    ((h ≤ q.hash) × (All (λ r. h ≤ r.hash → q.hash ≤ r.hash) ring))
    ⊎ (All (λ r. r.hash < h) ring × All (λ r. q.hash ≤ r.hash) ring)

at_or_after-Mono :
    (h : ℕ) (ring : List RingPoint)
    → IsSorted ring
    → (a b : ℕ) → a ≤ b
    → b < length ring
    → at_or_after h ring a ≡ true
    → at_or_after h ring b ≡ true
unfolding at_or_after
at_or_after-Mono h ring k a b l m e =
    let (q, f) = get_elem?-lt ring a (omega arith) in
    let (r, g) = get_elem?-lt ring b m in let o = sorted_le ring a b q r k l f g in ground arith

-- What holds at each index holds of all.
All-of_get_elem? {ℓ κ} :
    {A : Type ℓ} (P : A → Type κ) (xs : List A)
    → ((i : ℕ) (x : A) → get_elem? xs i ≡ some x → P x)
    → All P xs
All-of_get_elem? P [] h = tt
All-of_get_elem? P (x ∷ xs) h = (h 0 x refl, All-of_get_elem? P xs (λ i. h (suc i)))

pub length_pos {ℓ} : {A : Type ℓ} (xs : List A) → xs ≢ [] → 0 < length xs
length_pos [] h = absurd (h refl)
length_pos (x ∷ xs) h = omega arith

at_true :
    (h i : ℕ) (ring : List RingPoint) (q : RingPoint)
    → get_elem? ring i ≡ some q
    → at_or_after h ring i ≡ true
    → h ≤ q.hash
unfolding at_or_after
at_true h i ring q e f = ground arith

at_false :
    (h i : ℕ) (ring : List RingPoint) (q : RingPoint)
    → get_elem? ring i ≡ some q
    → at_or_after h ring i ≡ false
    → q.hash < h
unfolding at_or_after
at_false h i ring q e f = ground arith

get_elem?-bound {ℓ} :
    {A : Type ℓ} (xs : List A) (i : ℕ) (x : A) → get_elem? xs i ≡ some x → i < length xs
get_elem?-bound [] i x e = cc
get_elem?-bound (y ∷ xs) zero x e = omega arith
get_elem?-bound (y ∷ xs) (suc i) x e = omega (arith, get_elem?-bound xs i x e)

perm-ne-nil {ℓ} : {A : Type ℓ} {xs ys : List A} → Permᴰ xs ys → xs ≢ [] → ys ≢ []
perm-ne-nil Permᴰ.nil h q = h refl
perm-ne-nil (Permᴰ.cons e r) h q = cc
perm-ne-nil (Permᴰ.swap e f) h q = cc
perm-ne-nil (Permᴰ.trans r s) h q = perm-ne-nil s (perm-ne-nil r h) q

module _ (h : ℕ) (ring : List RingPoint) (k : IsSorted ring) where
  -- The boundary of the test at an index, and what it says of the point there.
  first-Owns :
      (q : RingPoint)
      → get_elem? ring 0 ≡ some q
      → ((j : ℕ) → j < length ring → at_or_after h ring j ≡ false)
      → Owns h ring q
  first-Owns q e below = inr (
    All-of_get_elem? (λ r. r.hash < h) ring
        (λ j r f. at_false h j ring r f (below j (get_elem?-bound ring j r f))),
    All-of_get_elem? (λ r. q.hash ≤ r.hash) ring
        (λ j r f. sorted_le ring 0 j q r k (omega arith) e f),
  )

  boundary-Owns :
      (i : ℕ) (q : RingPoint)
      → get_elem? ring i ≡ some q
      → ((j : ℕ) → j < i → at_or_after h ring j ≡ false)
      → at_or_after h ring i ≡ true
      → Owns h ring q
  boundary-Owns i q e below t = inl (
    at_true h i ring q e t,
    All-of_get_elem? (λ r. h ≤ r.hash → q.hash ≤ r.hash) ring
        λ j r f g. elim (Bool-cases (ltb j i)) [
          | inl lt ↦
              let past = at_false h j ring r f (below j (ground arith)) in absurd (omega arith)
          | inr ge ↦ sorted_le ring i j q r k (ground arith) e f
        ],
  )

  -- The point at `ring_index` of a sorted ring owns the hash.
  ring_index-Owns :
      ring ≢ [] → (q : RingPoint) × (get_elem? ring (ring_index h ring) ≡ some q) × (Owns h ring q)
  unfolding ring_index
  ring_index-Owns l =
      let n = length ring in
      let i = binary_search n (at_or_after h ring) in
      let (le, below, from) =
        binary_search-boundary (at_or_after h ring) n (at_or_after-Mono h ring k) in
      elim (Bool-cases (nat_eq.same i n)) [
        | inl e ↦
            let ie = (nat_eq.same_iff i n).0 e in
            let (q, f) = get_elem?-lt ring 0 (length_pos ring l) in
            rw e (q, f, first-Owns q f (λ j lt. below j (omega (arith, ie))))
        | inr e ↦
            let ne : i < n = boundary_lt i n le e in
            let (q, f) = get_elem?-lt ring i ne in
            rw e (q, f, boundary-Owns i q f below (from i (omega arith) ne))
      ]
    where
      boundary_lt : (i n : ℕ) → i ≤ n → nat_eq.same i n ≡ false → i < n
      boundary_lt i n h e = ground arith

points_from-slots :
    (now : ℕ) (es : List BackendEntry) (e : BackendEntry) (s v k : ℕ)
    → IsSlot now es s
    → All (λ (q : RingPoint). IsSlot now es q.slot) (points_from e s v k)
unfolding points_from
points_from-slots now es e s v zero h = tt
points_from-slots now es e s v (suc k) h = (h, points_from-slots now es e s (suc v) k h)

points_from-ne-nil : (e : BackendEntry) (s v k : ℕ) → 0 < k → points_from e s v k ≢ []
unfolding points_from
points_from-ne-nil e s v zero h q = elim h [ ]
points_from-ne-nil e s v (suc k) h q = cc

append-ne-nil {ℓ} : {A : Type ℓ} (xs ys : List A) → (xs ≢ []) ⊎ (ys ≢ []) → xs ++ ys ≢ []
append-ne-nil [] ys (inl h) q = h refl
append-ne-nil [] ys (inr h) q = h q
append-ne-nil (x ∷ xs) ys h q = cc

ring_points : (w : ℤ) → 0 < pos_part (ring_weight w) * vnodes_per_unit_weight
ring_points w = ground arith

-- The loop over the slots: every point names a slot, and there is one once a slot was seen.
abbrev Rings : ℕ → List BackendEntry → List ℕ × List RingPoint → Type 0
Rings now es (seen, ring) = All (λ q. IsSlot now es q.slot) ring × ((seen ≢ []) → ring ≢ [])

abbrev StepRings : ℕ → List BackendEntry → Run (List ℕ × List RingPoint) → Type 0
StepRings now es r =
    (st : List ℕ × List RingPoint) × (r ≡ returned st) × (Rings now es st) × (st.0 ≢ [])

ring_step-added :
    (now s : ℕ) (es : List BackendEntry) (seen : List ℕ) (ring : List RingPoint)
    → IsSlot now es s
    → Rings now es (seen, ring)
    → any (λ t. t == s) seen ≡ false
    → StepRings now es (ring_step es s (seen, ring))
unfolding ring_step
ring_step-added now s es seen ring (e, q, h) (r, m) a =
    let k = pos_part (ring_weight e.weight) * vnodes_per_unit_weight in
    let points = points_from e s 0 k in
    (
      (s ∷ seen, ring ++ points),
      rw (a, index-of_get_elem? es s q),
      (
        All-append (λ p. IsSlot now es p.slot) ring points r
            (points_from-slots now es e s 0 k (e, q, h)),
        λ _. append-ne-nil ring points (inr (points_from-ne-nil e s 0 k (ring_points e.weight))),
      ),
      λ x. cc,
    )

ring_step-Rings :
    (now s : ℕ) (es : List BackendEntry) (seen : List ℕ) (ring : List RingPoint)
    → IsSlot now es s
    → Rings now es (seen, ring)
    → StepRings now es (ring_step es s (seen, ring))
unfolding ring_step any
ring_step-Rings now s es [] ring h r = ring_step-added now s es [] ring h r refl
ring_step-Rings now s es (t ∷ seen) ring h r = elim (Bool-cases (any (λ u. u == s) (t ∷ seen))) [
  | inl a ↦ ((t ∷ seen, ring), rw a, r, λ x. cc)
  | inr a ↦ ring_step-added now s es (t ∷ seen) ring h r a
]

ring_loop-Rings :
    (now : ℕ) (es : List BackendEntry) (ss seen : List ℕ) (ring : List RingPoint)
    → All (IsSlot now es) ss
    → Rings now es (seen, ring)
    → (seen ≢ []) ⊎ (ss ≢ [])
    → StepRings now es (ring_loop es ss (seen, ring))
unfolding ring_loop
ring_loop-Rings now es [] seen ring h r (inl m) = ((seen, ring), refl, r, m)
ring_loop-Rings now es [] seen ring h r (inr m) = absurd (m refl)
ring_loop-Rings now es (s ∷ ss) seen ring h r m =
    let (st, q, r', m') = ring_step-Rings now s es seen ring h.0 r in
    rw q (ring_loop-Rings now es ss st.0 st.1 h.1 r' (inl m'))

module _ ⦃p : Platform⦄ (sort : List RingPoint → List RingPoint) (sorts : Sorts sort) where
  -- A backend that may be selected, by a point that stands on the sorted ring of the slots and owns
  -- the key's hash there.
  abbrev pub TakesOwner : ℕ → Text → BackendList p → Picked → Type 0
  TakesOwner now key b r =
      (t : Takes now b r) × (st : List ℕ × List RingPoint) × (q : RingPoint) × (i : ℕ) × (ring_loop
          b.entries b.slots ([], [])
        ≡ returned st)
      × (get_elem? (sort st.1) i ≡ some q)
      × (q.slot ≡ t.0)
      × (Owns (hash_key key) (sort st.1) q)

  take_owner-Owns :
      (now : ℕ) (key : Text) (ring : List RingPoint) (b : BackendList p)
      → All (λ q. IsSlot now b.entries q.slot) ring
      → ring ≢ []
      → (t : Takes now b (take_owner sort key ring b)) × (q : RingPoint) × (i : ℕ) × (get_elem?
            (sort ring)
            i
          ≡ some q)
        × (q.slot ≡ t.0)
        × (Owns (hash_key key) (sort ring) q)
  unfolding take_owner take_entry
  take_owner-Owns now key [] b h m = absurd (m refl)
  take_owner-Owns now key (x ∷ points) b h m =
      let ring = x ∷ points in
      let slots = All-perm (λ q. IsSlot now b.entries q.slot) (sorts.perm ring) h in
      let (q, e, own) =
        ring_index-Owns (hash_key key) (sort ring) (sorts.sorted ring)
          (perm-ne-nil (sorts.perm ring) m) in
      let k =
        All-get_elem? (λ r. IsSlot now b.entries r.slot) (sort ring)
          (ring_index (hash_key key) (sort ring)) q slots e in
      (
        (
          q.slot,
          k.0,
          b.next,
          k.1,
          k.2,
          rw (index-of_get_elem? (sort ring) (ring_index (hash_key key) (sort ring)) e)
              (rw (index-of_get_elem? b.entries q.slot k.1)),
        ),
        q,
        ring_index (hash_key key) (sort ring),
        e,
        refl,
        own,
      )

  pub next_consistent_hash-TakesOwner :
      (now : ℕ) (key : Text) (b : BackendList p)
      → All (IsSlot now b.entries) b.slots
      → b.slots ≢ []
      → TakesOwner now key b (next_consistent_hash sort key b)
  unfolding next_consistent_hash
  next_consistent_hash-TakesOwner now key b h m =
      let (st, q, r, k) =
        ring_loop-Rings now b.entries b.slots [] [] h (tt, λ x. absurd (x refl)) (inr m) in
      let (t, o, i, on, e, own) = take_owner-Owns now key st.1 b r.0 (r.1 k) in
      rw q (t, st, o, i, refl, on, e, own)
