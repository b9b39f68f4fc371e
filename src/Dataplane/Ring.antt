-- ===== src/Dataplane/Ring.antt =====
-- internal/dataplane/backends.go, nextConsistentHash and hashKey: the hash ring. The order that
-- sort.Slice gives to points of one hash is not documented, so the sort is a parameter.
pub mod Search
pub mod Decimal
use jbalance.Common.{
  ℕ, zero, suc, ◌+◌, ◌*◌, ◌/◌, ◌%◌, ◌^◌, Bool, List, [], ◌∷◌, ◌++◌, Text, bytes, ltb, index, Run,
  returned, ◌>>=◌, if◌then◌else◌, ◌==◌, nat_eq, ℤ, pos, pos_part, leb_ℤ, any,
}
use Prim.Native.Nat.{bit_xor}
use jbalance.Dataplane.Entry.{BackendEntry}

abbrev pub vnodes_per_unit_weight : ℕ
vnodes_per_unit_weight = 40

-- One byte of FNV-1a in uint32.
abbrev pub fnv_step : ℕ → ℕ → ℕ
fnv_step h c = (bit_xor h c * 16777619) % 2 ^ 32

unfoldable pub hash_from : ℕ → Text → ℕ
hash_from h [] = h
hash_from h (c ∷ s) = hash_from (fnv_step h c) s

unfoldable pub hash_key : Text → ℕ
unfolding hash_from
hash_key s = hash_from 2166136261 s

-- strconv.Itoa of a natural number; the fuel bounds the digits.
unfoldable pub itoa_from : ℕ → ℕ → Text → Text
itoa_from zero n acc = acc
itoa_from (suc f) n acc =
    let d = (b'0' + n % 10) ∷ acc in
    let rest = itoa_from f (n / 10) d in if ltb n 10 then d else rest

unfoldable pub itoa : ℕ → Text
unfolding itoa_from
itoa n = itoa_from (suc n) n []

pub record RingPoint : Type 0 where
  pub hash : ℕ
  pub slot : ℕ

-- The virtual nodes v, v + 1, … of one backend, `k` of them.
unfoldable pub points_from : BackendEntry → ℕ → ℕ → ℕ → List RingPoint
unfolding hash_key itoa
points_from e slot v zero = []
points_from e slot v (suc k) =
    record { hash = hash_key (e.address ++ bytes "#" ++ itoa v); slot = slot }
    ∷ points_from e slot (suc v) k

abbrev pub ring_weight : ℤ → ℤ
ring_weight w = if leb_ℤ w (pos 0) then pos 1 else w

-- One slot of the loop that builds the ring: `seen`, and the points so far.
unfoldable pub ring_step :
    List BackendEntry → ℕ → List ℕ × List RingPoint → Run (List ℕ × List RingPoint)
unfolding points_from
ring_step es s (seen, ring) = if any (λ t. t == s) seen then returned (seen, ring) else (do
  e ← index es s
  returned (
    s ∷ seen,
    ring ++ points_from e s 0 (pos_part (ring_weight e.weight) * vnodes_per_unit_weight),
  ))

unfoldable pub ring_loop :
    List BackendEntry → List ℕ → List ℕ × List RingPoint → Run (List ℕ × List RingPoint)
unfolding ring_step
ring_loop es [] st = returned st
ring_loop es (s ∷ ss) st = do st' ← ring_step es s st; ring_loop es ss st'

-- sort.Search(n, f) between `i` and `j`: a halving loop on fuel.
unfoldable pub search_from : ℕ → (ℕ → Bool) → ℕ → ℕ → ℕ
search_from zero f i j = i
search_from (suc fuel) f i j =
    let h = (i + j) / 2 in
    let right = search_from fuel f (h + 1) j in
    let left = search_from fuel f i h in if ltb i j then (if f h then left else right) else i

unfoldable pub binary_search : ℕ → (ℕ → Bool) → ℕ
unfolding search_from
binary_search n f = search_from (suc n) f 0 n
