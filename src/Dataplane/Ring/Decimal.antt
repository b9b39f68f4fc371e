-- ===== src/Dataplane/Ring/Decimal.antt =====
-- The decimal numbers of the virtual nodes.
use jbalance.Common.{
  ℕ, zero, suc, ◌+◌, ◌-◌, ◌*◌, ◌/◌, ◌%◌, ◌<◌, ◌≡◌, ap, ◌∙◌, [], ◌∷◌, arith, Text, ltb, Bool-cases,
  inl, inr,
}
use jbalance.Dataplane.Ring.{itoa, itoa_from}

-- The number that decimal digits stand for, after those that stand for `n`.
pub read_from : ℕ → Text → ℕ
read_from n [] = n
read_from n (c ∷ s) = read_from (n * 10 + (c - b'0')) s

itoa_from-read : (f n : ℕ) (acc : Text) → n < f → read_from 0 (itoa_from f n acc) ≡ read_from n acc
unfolding itoa_from read_from
itoa_from-read zero n acc h = absurd (omega arith)
itoa_from-read (suc f) n acc h = elim (Bool-cases (ltb n 10)) [
  | inl l ↦
      let small : n < 10 = ground arith in rw l (ap (λ m. read_from m acc) (omega (arith, small)))
  | inr l ↦
      let large : 9 < n = ground arith in
      rw l (
        itoa_from-read f (n / 10) ((b'0' + n % 10) ∷ acc) (omega (arith, h, large))
        ∙ ap (λ m. read_from m acc) (omega arith))
]

pub itoa-read : (n : ℕ) → read_from 0 (itoa n) ≡ n
unfolding itoa read_from
itoa-read n = itoa_from-read (suc n) n [] (omega arith)
