-- ===== src/Samples.antt =====
-- A concrete platform for the tests: floats in thousandths, a limiter that never refills, draws
-- that are always 0, and an insertion sort of ring points.
use mathlib.Core.List.{Permᴰ}
use mathlib.Core.List.Permᴰ
use jbalance.Common.{
  All-weaken, ◌+◌, text_eq, ℕ, ◌*◌, ◌-◌, ◌/◌, ◌≤◌, ◌≡◌, refl, true, false, List, [], ◌∷◌, arith,
  pos, pos_part, Bool-cases, inl, inr, leb, ltb, nat_beq, if◌then◌else◌, leb→le,
}
use jbalance.Platform.{Platform, FloatOrder}
use jbalance.Dataplane.Ring.{RingPoint}
use jbalance.Dataplane.Ring.Search.{IsSorted}
use jbalance.Dataplane.Selection.Owner.{Sorts, All-perm}
use jbalance.Dataplane.Selection.Outcome.{InRange}

instance abbrev pub milli : Platform
milli = record {
  Float = ℕ;
  f_lt = ltb;
  f_le = leb;
  f_eq = nat_beq;
  f_int = λ n. pos_part n * 1000;
  f_add = λ (x y : ℕ). x + y;
  f_div = λ x y. x * 1000 / y;
  f_trunc = λ x. pos (x / 1000);
  Limiter = ℕ;
  new_limiter = λ rps burst. pos_part burst;
  limiter_allow = λ now l. if ltb 0 l then (l - 1, true) else (0, false);
  equal_fold = text_eq;
  trim_space = λ s. s;
  canonical_key = λ s. s;
}

milli_irrefl : (x : ℕ) → ltb x x ≡ false
milli_irrefl x = ground arith

milli_trans : (x y z : ℕ) → ltb x y ≡ true → ltb y z ≡ true → ltb x z ≡ true
milli_trans x y z h k = ground arith

pub milli_order : FloatOrder milli
milli_order = record { irrefl = milli_irrefl; trans = milli_trans }

abbrev pub no_luck : ℕ → ℕ → ℕ
no_luck k n = 0

pub no_luck-InRange : InRange no_luck
no_luck-InRange k n h = h

unfoldable pub put_point : RingPoint → List RingPoint → List RingPoint
put_point q [] = q ∷ []
put_point q (r ∷ ring) = if leb q.hash r.hash then q ∷ r ∷ ring else r ∷ put_point q ring

unfoldable pub sort_points : List RingPoint → List RingPoint
unfolding put_point
sort_points [] = []
sort_points (q ∷ ring) = put_point q (sort_points ring)

put_point-perm : (q : RingPoint) (ring : List RingPoint) → Permᴰ (q ∷ ring) (put_point q ring)
unfolding put_point
put_point-perm q [] = Permᴰ.refl (q ∷ [])
put_point-perm q (r ∷ ring) = elim (Bool-cases (leb q.hash r.hash)) [
  | inl h ↦ rw h (Permᴰ.refl (q ∷ r ∷ ring))
  | inr h ↦ rw h (Permᴰ.trans (Permᴰ.swap refl refl) (Permᴰ.cons refl (put_point-perm q ring)))
]

put_point-IsSorted :
    (q : RingPoint) (ring : List RingPoint) → IsSorted ring → IsSorted (put_point q ring)
unfolding put_point
put_point-IsSorted q [] h = (tt, tt)
put_point-IsSorted q (r ∷ ring) h = elim (Bool-cases (leb q.hash r.hash)) [
  | inl k ↦
      let le = leb→le q.hash r.hash k in
      rw k ((le, All-weaken ring (λ s l. omega (arith, le, l)) h.0), h)
  | inr k ↦
      let lt : r.hash ≤ q.hash = ground arith in
      rw k (
        All-perm (λ s. r.hash ≤ s.hash) (put_point-perm q ring) (lt, h.0),
        put_point-IsSorted q ring h.1,
      )
]

sort_points-perm : (ring : List RingPoint) → Permᴰ ring (sort_points ring)
unfolding sort_points
sort_points-perm [] = Permᴰ.nil
sort_points-perm (q ∷ ring) =
    Permᴰ.trans (Permᴰ.cons refl (sort_points-perm ring)) (put_point-perm q (sort_points ring))

sort_points-IsSorted : (ring : List RingPoint) → IsSorted (sort_points ring)
unfolding sort_points
sort_points-IsSorted [] = tt
sort_points-IsSorted (q ∷ ring) =
    put_point-IsSorted q (sort_points ring) (sort_points-IsSorted ring)

pub sort_points-Sorts : Sorts sort_points
sort_points-Sorts = record { perm = sort_points-perm; sorted = sort_points-IsSorted }
