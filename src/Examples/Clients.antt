-- ===== src/Examples/Clients.antt =====
-- Runs of the rate limiter and of the health checker.
use jbalance.Common.{
  ◌*◌, ◌≡◌, refl, true, false, some, [], ◌∷◌, pos, bytes, lookup, text_eq, arith, if◌then◌else◌,
  leb, text_instance,
}
use jbalance.Samples.{milli}
use jbalance.Examples.Fleet.{fleet}
use jbalance.Dataplane.Backends.{set_health}
use jbalance.Dataplane.RateLimit.{GroupRateLimiter, allow, second}
use jbalance.Dataplane.RateLimit.Isolation.{allow-independent, allow-keeps}
use jbalance.Dataplane.HealthCheck.{HealthChecker, record_result}
use jbalance.Dataplane.HealthCheck.Hysteresis.{run, probed, record_result-run}

-- One request each second and client, and a client seen after 5 s.
abbrev limited : GroupRateLimiter milli
limited = record {
  cfg = record { enabled = true; rps = 1000; burst = pos 1 };
  clients = (bytes "10.0.0.2", record { limiter = 1; last_seen = 5 * second }) ∷ [];
  last_keep = 0;
}

allow-independent_example :
    (allow (60 * second) (bytes "10.0.0.2") (allow (60 * second) (bytes "10.0.0.1") limited).0).1
    ≡ (allow (60 * second) (bytes "10.0.0.2") limited).1
unfolding text_eq
allow-independent_example =
    allow-independent (60 * second) (bytes "10.0.0.1") (bytes "10.0.0.2") limited refl

allow-keeps_example :
    lookup (bytes "10.0.0.2") (allow (60 * second) (bytes "10.0.0.1") limited).0.clients
    ≡ some (record { limiter = 1; last_seen = 5 * second })
unfolding text_eq lookup
allow-keeps_example =
    allow-keeps (60 * second) (bytes "10.0.0.1") (bytes "10.0.0.2")
      (record { limiter = 1; last_seen = 5 * second }) limited refl refl (omega arith)

abbrev checker : HealthChecker
checker = record {
  failure_threshold = pos 3;
  success_threshold = pos 2;
  http_expect_status = pos 0;
  streak = [];
}

record_result-run_example :
    (record_result 20
      (bytes "a:1")
      false
      (probed (bytes "a:1") (false ∷ false ∷ true ∷ []) checker (fleet []))
      (fleet [])).1
    ≡ (if leb 3 (run false (false ∷ false ∷ false ∷ true ∷ []))
        then set_health 20 (bytes "a:1") false (fleet [])
        else fleet [])
unfolding lookup
record_result-run_example =
    record_result-run 20 2 3 (bytes "a:1") false (false ∷ false ∷ true ∷ []) checker (fleet []) refl
      refl refl (omega arith)
