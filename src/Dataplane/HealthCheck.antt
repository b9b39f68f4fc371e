-- ===== src/Dataplane/HealthCheck.antt =====
-- internal/dataplane/healthcheck.go: how probe results change the health of a backend. The probes
-- themselves are network calls.
pub mod Hysteresis
use jbalance.Common.{
  ℕ, Bool, true, false, not, ◌&&◌, Option, none, some, List, [], ◌∷◌, ℤ, pos, negsuc, ◌+ℤ◌, ◌-ℤ◌,
  int64, ltb_ℤ, leb_ℤ, eqb_ℤ, Text, text_instance, Map, lookup, insert, if◌then◌else◌,
}
use jbalance.Platform.{Platform}
use jbalance.Dataplane.Backends.{BackendList, set_health}

-- The thresholds, and the streak of each address: positive for successes, negative for failures.
pub record HealthChecker : Type 0 where
  pub failure_threshold : ℤ
  pub success_threshold : ℤ
  pub http_expect_status : ℤ
  pub streak : Map Text ℤ

unfoldable pub status_healthy : HealthChecker → ℤ → Bool
status_healthy h status =
    if not (eqb_ℤ h.http_expect_status (pos 0))
    then eqb_ℤ status h.http_expect_status
    else leb_ℤ (pos 200) status && ltb_ℤ status (pos 300)

-- A missing address reads as 0.
abbrev pub known : Option ℤ → ℤ
known none = pos 0
known (some n) = n

-- h.streak[addr]
unfoldable pub streak_of : Text → HealthChecker → ℤ
streak_of a h = known (lookup a h.streak)

unfoldable pub next_streak : Bool → ℤ → ℤ
next_streak true n = int64 ((if ltb_ℤ n (pos 0) then pos 0 else n) +ℤ pos 1)
next_streak false n = int64 ((if ltb_ℤ (pos 0) n then pos 0 else n) -ℤ pos 1)

-- What the streak makes of the health: `none` for no change.
unfoldable pub marks : HealthChecker → Bool → ℤ → Option Bool
marks h success n =
    if success && leb_ℤ h.success_threshold n
    then some true
    else if not success && leb_ℤ h.failure_threshold (int64 (pos 0 -ℤ n))
    then some false
    else none

module _ ⦃p : Platform⦄ where
  -- markHealthy, where there is a change.
  unfoldable pub mark_healthy : ℕ → Text → Option Bool → BackendList p → BackendList p
  unfolding set_health
  mark_healthy now a none b = b
  mark_healthy now a (some healthy) b = set_health now a healthy b

  unfoldable pub record_result :
      ℕ → Text → Bool → HealthChecker → BackendList p → HealthChecker × BackendList p
  unfolding streak_of next_streak marks mark_healthy
  record_result now a success h b =
      let n = next_streak success (streak_of a h) in
      (record h { streak = insert a n h.streak }, mark_healthy now a (marks h success n) b)
