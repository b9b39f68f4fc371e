-- ===== src/ControlPlane/Reports/Fleet.antt =====
-- The instances of the Fleet view, and any sequence of reports and streams' ends.
use jbalance.Common.{ℕ, ◌≤◌, List, Text, text_instance, Distinct, arith}
use jbalance.Platform.{Platform}
use jbalance.Proto.{HealthReport, MetricsReport}
use jbalance.ControlPlane.MetricsHistory.{GroupMetricsSnapshot}
use jbalance.ControlPlane.MetricsHistory.Bounds.{IsBounded, IsBounded-mono, record_sample-IsBounded}
use jbalance.ControlPlane.Reports.{
  Reports, no_reports, report_health, report_metrics, health_key_instance, mark_instance_connected,
  mark_instance_disconnected, metrics_snapshot, put_metrics,
}
use jbalance.ControlPlane.Reports.Health.{report_health-Distinct}

module _ ⦃p : Platform⦄ where
  -- One report, or the start or the end of a stream, at time `now`.
  pub data Told (now : ℕ) (s : Reports p) : Reports p → Type 0 where
    health_told : (report : HealthReport) → Told now s (report_health now report s)
    metrics_told :
        (sort : List (GroupMetricsSnapshot p) → List (GroupMetricsSnapshot p))
        (report : MetricsReport p)
        → Told now s (report_metrics sort now report s)
    connected :
        (id group : Text)
        → Told now s (record s { instances = mark_instance_connected now id group s.instances })
    disconnected :
        (id : Text)
        → Told now s (record s { instances = mark_instance_disconnected id s.instances })

  -- What the server may hold by the time `now`.
  pub data Held : ℕ → Reports p → Type 0 where
    nothing : (now : ℕ) → Held now no_reports
    told :
        (earlier now : ℕ) (s t : Reports p)
        → Held earlier s
        → earlier ≤ now
        → Told now s t
        → Held now t

  abbrev pub IsKept : ℕ → Reports p → Type 0
  IsKept now s = Distinct s.health × IsBounded now s.history

  Told-IsKept :
      (earlier now : ℕ) (s t : Reports p)
      → earlier ≤ now
      → IsKept earlier s
      → Told now s t
      → IsKept now t
  unfolding report_health report_metrics
  Told-IsKept earlier now s t h k (health_told report) =
      (report_health-Distinct now report s k.0, IsBounded-mono earlier now s.history h k.1)
  Told-IsKept earlier now s t h k (metrics_told sort report) = (
    k.0,
    record_sample-IsBounded earlier now
        (metrics_snapshot sort now
          (record s { metrics = put_metrics now report report.groups s.metrics }))
        s.history h k.1,
  )
  Told-IsKept earlier now s t h k (connected id group) =
      (k.0, IsBounded-mono earlier now s.history h k.1)
  Told-IsKept earlier now s t h k (disconnected id) =
      (k.0, IsBounded-mono earlier now s.history h k.1)

  -- After any reports and any starts and ends of streams, at times that do not fall, no health key
  -- has two entries, and the history has at most 250 samples that lie at least five seconds apart
  -- and none later than now.
  pub Held-IsKept : (now : ℕ) (s : Reports p) → Held now s → IsKept now s
  unfolding no_reports
  Held-IsKept now s (nothing _) = (tt, (omega arith, tt))
  Held-IsKept now s (told earlier _ r _ held h step) =
      Told-IsKept earlier now r s h (Held-IsKept earlier r held) step
