-- ===== src/Dataplane/HealthCheck/Hysteresis.antt =====
-- recordResult of internal/dataplane/healthcheck.go, against runs of equal results.
use jbalance.Common.{
  ℕ, suc, ◌<◌, ◌≤◌, ◌^◌, ◌≡◌, refl, ap, ◌∙◌, Bool, true, false, none, some, List, [], ◌∷◌, arith,
  length, leb, ℤ, pos, negsuc, ◌+ℤ◌, ◌-ℤ◌, int64, Text, text_eq_refl, text_instance, lookup, insert,
  lookup-insert, if◌then◌else◌,
}
use jbalance.Platform.{Platform}
use jbalance.Dataplane.Backends.{BackendList, set_health}
use jbalance.Dataplane.HealthCheck.{
  HealthChecker, known, mark_healthy, streak_of, next_streak, marks, record_result,
}

-- How many results at the head of the list, which is the newest, are `r`.
pub run : Bool → List Bool → ℕ
run r [] = 0
run true (true ∷ rs) = suc (run true rs)
run true (false ∷ rs) = 0
run false (true ∷ rs) = 0
run false (false ∷ rs) = suc (run false rs)

-- The streak that the run at the head stands for.
abbrev streak_at : List Bool → ℤ
streak_at [] = pos 0
streak_at (true ∷ rs) = pos (suc (run true rs))
streak_at (false ∷ rs) = negsuc (run false rs)

run-length : (r : Bool) (rs : List Bool) → run r rs ≤ length rs
unfolding run
run-length r [] = omega arith
run-length true (true ∷ rs) = omega (arith, run-length true rs)
run-length true (false ∷ rs) = omega arith
run-length false (true ∷ rs) = omega arith
run-length false (false ∷ rs) = omega (arith, run-length false rs)

next_streak-run :
    (r : Bool) (rs : List Bool)
    → suc (length rs) < 2 ^ 63
    → next_streak r (streak_at rs) ≡ streak_at (r ∷ rs)
unfolding next_streak run ◌+ℤ◌ ◌-ℤ◌ int64
next_streak-run true [] h = refl
next_streak-run false [] h = refl
next_streak-run true (true ∷ rs) h = ground (arith, run-length true rs)
next_streak-run true (false ∷ rs) h = ground arith
next_streak-run false (true ∷ rs) h = ground arith
next_streak-run false (false ∷ rs) h = ground (arith, run-length false rs)

marks-run :
    (s f : ℕ) (r : Bool) (rs : List Bool) (h : HealthChecker)
    → h.success_threshold ≡ pos s
    → h.failure_threshold ≡ pos f
    → suc (length rs) < 2 ^ 63
    → marks h r (streak_at (r ∷ rs))
      ≡ (if leb (if r then s else f) (run r (r ∷ rs)) then some r else none)
unfolding marks run int64 ◌-ℤ◌
marks-run s f true rs h hs hf l = rw hs (ground arith)
marks-run s f false rs h hs hf l = rw hf (ground (arith, run-length false rs))

module _ ⦃p : Platform⦄ where
  -- The checker after the results of one address, of which the head is the newest. What is done
  -- to the backends does not matter to it.
  pub probed : Text → List Bool → HealthChecker → BackendList p → HealthChecker
  probed a [] h b = h
  probed a (r ∷ rs) h b = (record_result 0 a r (probed a rs h b) b).0

  probed-thresholds :
      (a : Text) (rs : List Bool) (h : HealthChecker) (b : BackendList p)
      → ((probed a rs h b).failure_threshold ≡ h.failure_threshold)
        × ((probed a rs h b).success_threshold ≡ h.success_threshold)
  unfolding probed record_result
  probed-thresholds a [] h b = (refl, refl)
  probed-thresholds a (r ∷ rs) h b = probed-thresholds a rs h b

  streak_of-probed :
      (a : Text) (rs : List Bool) (h : HealthChecker) (b : BackendList p)
      → lookup a h.streak ≡ none
      → length rs < 2 ^ 63
      → streak_of a (probed a rs h b) ≡ streak_at rs
  unfolding probed record_result streak_of
  streak_of-probed a [] h b q l = ap known q
  streak_of-probed a (r ∷ rs) h b q l =
      let before = streak_of-probed a rs h b q (omega (arith, l)) in
      let g = probed a rs h b in
      let n = next_streak r (streak_of a g) in
      let stored : lookup a (insert a n g.streak) ≡ some n =
        lookup-insert a a n g.streak ∙ rw (text_eq_refl a) refl in
      ap known stored ∙ ap (next_streak r) before ∙ next_streak-run r rs l

  -- A probe result after other results of an address that was not known before, fewer than 2^63 in
  -- all, marks the backend as that result exactly if it ends a run of equal results of at least the
  -- threshold for it, and else leaves the backends alone.
  pub record_result-run :
      (now s f : ℕ) (a : Text) (r : Bool) (rs : List Bool) (h : HealthChecker) (b : BackendList p)
      → lookup a h.streak ≡ none
      → h.success_threshold ≡ pos s
      → h.failure_threshold ≡ pos f
      → suc (length rs) < 2 ^ 63
      → (record_result now a r (probed a rs h b) b).1
        ≡ (if leb (if r then s else f) (run r (r ∷ rs)) then set_health now a r b else b)
  unfolding record_result mark_healthy
  record_result-run now s f a r rs h b q hs hf l =
      let g = probed a rs h b in
      let kept = probed-thresholds a rs h b in
      let n : next_streak r (streak_of a g) ≡ streak_at (r ∷ rs) =
        ap (next_streak r) (streak_of-probed a rs h b q (omega (arith, l)))
        ∙ next_streak-run r rs l in
      ap (λ k. mark_healthy now a (marks g r k) b) n
      ∙ ap (λ m. mark_healthy now a m b) (marks-run s f r rs g (kept.1 ∙ hs) (kept.0 ∙ hf) l)
      ∙ marked (leb (if r then s else f) (run r (r ∷ rs)))
    where
      marked :
          (due : Bool)
          → mark_healthy now a (if due then some r else none) b
            ≡ (if due then set_health now a r b else b)
      marked true = refl
      marked false = refl
