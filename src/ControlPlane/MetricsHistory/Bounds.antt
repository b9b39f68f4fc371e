-- ===== src/ControlPlane/MetricsHistory/Bounds.antt =====
-- The bounds of the history, and its newest sample.
use jbalance.Common.{
  All-weaken, ℕ, ◌+◌, ◌≤◌, ◌≡◌, refl, ap, none, some, List, [], ◌∷◌, ◌++◌, ltb, length, arith,
  Bool-cases, inl, inr, All, length-append, subst, All-append, ◌⊎◌,
}
use jbalance.Platform.{Platform}
use jbalance.ControlPlane.MetricsHistory.{
  Sample, GroupMetricsSnapshot, record_sample, put_sample, trim, split_last, history_bucket_width,
  max_history_points, sample, add_up, no_totals,
}

module _ ⦃p : Platform⦄ where
  -- At most 250 samples, at least five seconds apart, none of them later than `now`.
  abbrev pub IsSpaced : ℕ → List (Sample p) → Type 0
  IsSpaced now [] = Unit
  IsSpaced now (x ∷ xs) =
      (x.t ≤ now) × All (λ (y : Sample p). x.t + history_bucket_width ≤ y.t) xs × IsSpaced now xs

  abbrev pub IsBounded : ℕ → List (Sample p) → Type 0
  IsBounded now xs = (length xs ≤ max_history_points) × IsSpaced now xs

  IsSpaced-mono :
      (now later : ℕ) (xs : List (Sample p)) → now ≤ later → IsSpaced now xs → IsSpaced later xs
  IsSpaced-mono now later [] h v = tt
  IsSpaced-mono now later (x ∷ xs) h v = (omega (arith, v.0), v.1, IsSpaced-mono now later xs h v.2)

  pub IsBounded-mono :
      (now later : ℕ) (xs : List (Sample p)) → now ≤ later → IsBounded now xs → IsBounded later xs
  IsBounded-mono now later xs h v = (v.0, IsSpaced-mono now later xs h v.1)

  -- Every point is at least one width before `t`.
  abbrev Precede : ℕ → List (Sample p) → Type 0
  Precede t xs = All (λ (y : Sample p). y.t + history_bucket_width ≤ t) xs

  IsSpaced-split :
      (now : ℕ) (xs : List (Sample p)) (l : Sample p)
      → IsSpaced now (xs ++ l ∷ [])
      → IsSpaced now xs × Precede l.t xs × (l.t ≤ now)
  IsSpaced-split now [] l v = (tt, tt, v.0)
  IsSpaced-split now (x ∷ xs) l v =
      let rest = IsSpaced-split now xs l v.2 in
      let parts = All-split xs l v.1 in ((v.0, parts.0, rest.0), (parts.1, rest.1), rest.2)
    where
      All-split :
          (ys : List (Sample p)) (m : Sample p)
          → All (λ (y : Sample p). x.t + history_bucket_width ≤ y.t) (ys ++ m ∷ [])
          → All (λ (y : Sample p). x.t + history_bucket_width ≤ y.t) ys
            × (x.t + history_bucket_width ≤ m.t)
      All-split [] m h = (tt, h.0)
      All-split (y ∷ ys) m h = let r = All-split ys m h.1 in ((h.0, r.0), r.1)

  IsSpaced-append :
      (now : ℕ) (xs : List (Sample p)) (l : Sample p)
      → IsSpaced now xs
      → Precede l.t xs
      → l.t ≤ now
      → IsSpaced now (xs ++ l ∷ [])
  IsSpaced-append now [] l v h k = (k, tt, tt)
  IsSpaced-append now (x ∷ xs) l v h k = (
    v.0,
    All-append (λ (y : Sample p). x.t + history_bucket_width ≤ y.t) xs (l ∷ []) v.1 (h.0, tt),
    IsSpaced-append now xs l v.2 h.1 k,
  )

  split_last-append :
      (xs : List (Sample p))
      → ((xs ≡ []) × (split_last xs ≡ none))
        ⊎ ((before : List (Sample p)) × (last : Sample p) × (xs ≡ before ++ last ∷ [])
            × (split_last xs ≡ some (before, last)))
  unfolding split_last
  split_last-append [] = inl (refl, refl)
  split_last-append (x ∷ xs) = elim (split_last-append xs) [
    | inl (e, q) ↦ inr ([], x, ap (λ ys. x ∷ ys) e, rw q refl)
    | inr (before, last, e, q) ↦ inr (x ∷ before, last, ap (λ ys. x ∷ ys) e, rw q refl)
  ]

  trim-IsBounded :
      (now : ℕ) (xs : List (Sample p))
      → length xs ≤ max_history_points + 1
      → IsSpaced now xs
      → IsBounded now (trim xs)
  unfolding trim
  trim-IsBounded now [] h v = (omega arith, tt)
  trim-IsBounded now (x ∷ xs) h v = elim (Bool-cases (ltb max_history_points (length (x ∷ xs)))) [
    | inl q ↦ rw q (omega (arith, h), v.2)
    | inr q ↦ rw q (ground arith, v)
  ]

  put_sample-IsBounded :
      (earlier now : ℕ) (new : Sample p) (points : List (Sample p))
      → new.t ≡ now
      → earlier ≤ now
      → IsBounded earlier points
      → IsBounded now (put_sample now new points)
  unfolding put_sample
  put_sample-IsBounded earlier now new points e h v = elim (split_last-append points) [
    | inl (empty, q) ↦
        rw (q, put_sample, empty)
          (trim-IsBounded now (new ∷ []) (omega arith) (omega (arith, e), tt, tt))
    | inr (before, last, whole, q) ↦
        let size : length before + 1 ≤ max_history_points =
          omega (arith, v.0, ap length whole, length-append before (last ∷ [])) in
        let parts = IsSpaced-split earlier before last (subst (IsSpaced earlier) whole v.1) in
        let kept = IsSpaced-mono earlier now before h parts.0 in
        elim (Bool-cases (ltb now (last.t + history_bucket_width))) [
          | inl c ↦
              rw (q, put_sample, c)
                (
                  omega (arith, size, length-append before (record new { t = last.t } ∷ [])),
                  IsSpaced-append now before (record new { t = last.t }) kept parts.1
                      (omega (arith, parts.2)),
                )
          | inr c ↦
              let gap : last.t + history_bucket_width ≤ new.t = ground (arith, e) in
              let all = IsSpaced-append now before last kept parts.1 (omega (arith, parts.2)) in
              let spaced =
                IsSpaced-append now (before ++ last ∷ []) new all
                  (All-append (λ (y : Sample p). y.t + history_bucket_width ≤ new.t) before
                    (last ∷ []) (All-weaken before (λ y l. omega (arith, l, gap)) parts.1)
                    (gap, tt))
                  (omega (arith, e)) in
              rw (q, put_sample, c, whole)
                (trim-IsBounded now ((before ++ last ∷ []) ++ new ∷ [])
                  (omega (
                    arith,
                    size,
                    length-append before (last ∷ []),
                    length-append (before ++ last ∷ []) (new ∷ []),
                  ))
                  spaced)
        ]
  ]

  pub record_sample-IsBounded :
      (earlier now : ℕ) (snapshots : List (GroupMetricsSnapshot p)) (points : List (Sample p))
      → earlier ≤ now
      → IsBounded earlier points
      → IsBounded now (record_sample now snapshots points)
  unfolding record_sample sample
  record_sample-IsBounded earlier now snapshots points h v =
      put_sample-IsBounded earlier now (sample now (add_up no_totals snapshots)) points refl h v

  trim-ends :
      (xs : List (Sample p)) (x : Sample p)
      → (before : List (Sample p)) × (trim (xs ++ x ∷ []) ≡ before ++ x ∷ [])
  unfolding trim
  trim-ends [] x = ([], refl)
  trim-ends (y ∷ xs) x = elim (Bool-cases (ltb max_history_points (length (y ∷ xs ++ x ∷ [])))) [
    | inl q ↦ (xs, rw q refl)
    | inr q ↦ (y ∷ xs, rw q refl)
  ]

  -- The newest point has the new totals.
  pub put_sample-ends :
      (now : ℕ) (new : Sample p) (points : List (Sample p))
      → (before : List (Sample p)) × (t : ℕ) × (put_sample now new points
          ≡ before ++ record new { t = t } ∷ [])
  unfolding put_sample
  put_sample-ends now new points =
      let (added, e) = trim-ends points new in
      elim (split_last-append points) [
        | inl (empty, q) ↦ (added, new.t, rw (q, put_sample) e)
        | inr (before, last, whole, q) ↦
            elim (Bool-cases (ltb now (last.t + history_bucket_width))) [
              | inl c ↦ (before, last.t, rw (q, put_sample, c) refl)
              | inr c ↦ (added, new.t, rw (q, put_sample, c) e)
            ]
      ]
