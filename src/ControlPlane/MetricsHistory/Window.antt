-- ===== src/ControlPlane/MetricsHistory/Window.antt =====
-- The window of the history that is shown.
use mathlib.Core.Option
use jbalance.Common.{
  ℤ, pos, negsuc, pos_part, int64, ◌-ℤ◌, ℕ, zero, suc, ◌-◌, ◌+◌, ◌≡◌, refl, ap, ◌∙◌, true, Option,
  none, some, List, [], ◌∷◌, ltb, length, drop, get_elem?, if◌then◌else◌, arith, min, sym,
}
use jbalance.Platform.{Platform}
use jbalance.ControlPlane.MetricsHistory.{
  Sample, HistoryPoint, not_negative, points_of, point_of, recent,
}

get_elem?-drop {ℓ} :
    {A : Type ℓ} (k : ℕ) (xs : List A) (i : ℕ) → get_elem? (drop k xs) i ≡ get_elem? xs (k + i)
get_elem?-drop zero xs i = let e : 0 + i ≡ i = omega arith in rw e refl
get_elem?-drop (suc k) [] i = refl
get_elem?-drop (suc k) (x ∷ xs) i =
    let e : suc k + i ≡ suc (k + i) = omega arith in rw e (get_elem?-drop k xs i)

module _ ⦃p : Platform⦄ where
  -- The sample before the k-th.
  abbrev pub before : Option (Sample p) → ℕ → List (Sample p) → Option (Sample p)
  before prev zero xs = prev
  before prev (suc j) xs = get_elem? xs j

  before-get_elem? :
      (prev : Option (Sample p)) (k : ℕ) (xs : List (Sample p))
      → before prev k xs ≡ (if ltb 0 k then get_elem? xs (k - 1) else prev)
  before-get_elem? prev zero xs = refl
  before-get_elem? prev (suc j) xs =
      let gone : suc j - 1 ≡ j = omega arith in
      let yes : ltb 0 (suc j) ≡ true = ground arith in rw (yes, gone) refl

  points_of-drop :
      (prev : Option (Sample p)) (k : ℕ) (xs : List (Sample p))
      → drop k (points_of prev xs) ≡ points_of (before prev k xs) (drop k xs)
  unfolding points_of
  points_of-drop prev zero xs = refl
  points_of-drop prev (suc k) [] = refl
  points_of-drop prev (suc zero) (x ∷ xs) = refl
  points_of-drop prev (suc (suc k)) (x ∷ xs) = points_of-drop (some x) (suc k) xs

  length-points_of :
      (prev : Option (Sample p)) (xs : List (Sample p)) → length (points_of prev xs) ≡ length xs
  unfolding points_of
  length-points_of prev [] = refl
  length-points_of prev (x ∷ xs) = ap suc (length-points_of (some x) xs)

  length-drop : (k : ℕ) (xs : List (Sample p)) → length (drop k xs) ≡ length xs - k
  length-drop zero xs = omega arith
  length-drop (suc k) [] = omega arith
  length-drop (suc k) (x ∷ xs) = omega (arith, length-drop k xs)

  recent-before :
      (n : ℕ) (xs : List (Sample p))
      → recent n xs ≡ points_of (before none (length xs - n) xs) (drop (length xs - n) xs)
  unfolding recent
  recent-before n xs =
      let start : (if ltb n (length xs) then length xs - n else 0) ≡ length xs - n = ground arith in
      rw (start, before-get_elem? none (length xs - n) xs) refl

  -- The growth of a counter since the sample before: 0 where there is none or it fell.
  abbrev pub growth : (Sample p → ℤ) → Option (Sample p) → Sample p → ℤ
  growth counter none x = pos 0
  growth counter (some y) x = pos (pos_part (int64 (counter x -ℤ counter y)))

  abbrev pub shown : Option (Sample p) → Sample p → HistoryPoint p
  shown prev x = record {
    time = x.t;
    requests_delta = growth (λ (y : Sample p). y.requests_total) prev x;
    errors_5xx_delta = growth (λ (y : Sample p). y.errors_5xx_total) prev x;
    active_conns = x.active_connections;
    avg_duration_ms = x.avg_duration_ms;
  }

  not_negative-pos_part : (d : ℤ) → not_negative d ≡ pos (pos_part d)
  not_negative-pos_part (pos n) = ground arith
  not_negative-pos_part (negsuc n) = ground arith

  point_of-shown : (prev : Option (Sample p)) (x : Sample p) → point_of prev x ≡ shown prev x
  unfolding point_of
  point_of-shown none x = refl
  point_of-shown (some y) x =
      rw
        (
          not_negative-pos_part (int64 (x.requests_total -ℤ y.requests_total)),
          not_negative-pos_part (int64 (x.errors_5xx_total -ℤ y.errors_5xx_total)),
        )
        refl

  get_elem?-points_of :
      (prev : Option (Sample p)) (xs : List (Sample p)) (i : ℕ)
      → get_elem? (points_of prev xs) i ≡ Option.map (shown (before prev i xs)) (get_elem? xs i)
  unfolding points_of
  get_elem?-points_of prev [] i = refl
  get_elem?-points_of prev (x ∷ xs) zero = ap some (point_of-shown prev x)
  get_elem?-points_of prev (x ∷ xs) (suc zero) = get_elem?-points_of (some x) xs zero
  get_elem?-points_of prev (x ∷ xs) (suc (suc i)) = get_elem?-points_of (some x) xs (suc i)

  -- The i-th of the last n points that are shown is the sample at its place in the whole history,
  -- with what its counters grew, in int64, since the sample before it there, or 0 where there is
  -- none or they fell: so the first point of a window that does not start the history has its
  -- difference too; min n of the samples are shown.
  pub get_elem?-recent :
      (n i : ℕ) (xs : List (Sample p))
      → (get_elem? (recent n xs) i
          ≡ Option.map
              (shown (before none (length xs - n + i) xs))
              (get_elem? xs (length xs - n + i)))
        × (length (recent n xs) ≡ min n (length xs))
  get_elem?-recent n i xs =
      let k = length xs - n in
      let last = recent-before n xs in
      (
        ap (λ ps. get_elem? ps i) (last ∙ sym (points_of-drop none k xs))
            ∙ get_elem?-drop k (points_of none xs) i
            ∙ get_elem?-points_of none xs (k + i),
        ap length last
            ∙ length-points_of (before none k xs) (drop k xs)
            ∙ length-drop k xs
            ∙ omega arith,
      )
