-- ===== src/Examples/Reports.antt =====
-- Runs of the reports, their views and the streams.
use mathlib.Core.List.Permᴰ
use jbalance.Common.{
  get_elem?, ℕ, ◌≡◌, refl, true, false, some, List, [], ◌∷◌, pos, bytes, lookup, insert, text_eq,
  text_instance, nat_eq, length, ◌*◌, arith,
}
use jbalance.Samples.{milli}
use jbalance.Proto.{BackendSet, HealthReport, MetricsReport}
use jbalance.Dataplane.RateLimit.{second}
use jbalance.Dataplane.Backends.{new_backend_list}
use jbalance.Dataplane.Backends.Updates.{deliver, Reflects}
use jbalance.ControlPlane.MetricsHistory.{Sample, GroupMetricsSnapshot, recent}
use jbalance.ControlPlane.MetricsHistory.Window.{shown, get_elem?-recent}
use jbalance.ControlPlane.Server.{
  new_server, subscribe, publish, next_set, group_subs, offer_group, offer_all, offer,
}
use jbalance.ControlPlane.Server.Publishing.{numbered}
use jbalance.ControlPlane.Reports.{
  Reports, no_reports, report_health, report_metrics, health_for_address, health_key_instance,
}
use jbalance.ControlPlane.Reports.Health.{
  ShowsReports, ShowsAtMost, health_for_address_iff, report_health-health_for_address,
}
use jbalance.ControlPlane.Reports.Traffic.{
  EndsInTotals, Permutes, fresh_entries, report_metrics-totals,
}
use jbalance.ControlPlane.Reports.Fleet.{Told, Held, IsKept, Held-IsKept}
use jbalance.ControlPlane.Views.{in_rotation, group_state, group_state-in_rotation}
use jbalance.ControlPlane.Streams.{World, Step, Steps, open_stream, take_all, take_update}
use jbalance.ControlPlane.Streams.Versions.{IsOrdered, Steps-IsOrdered}
use jbalance.ControlPlane.Streams.Delivery.{publish-take_all}
use jbalance.Examples.Publishing.{pair, operated}

abbrev at : ℕ → ℕ → Sample milli
at t n = record {
  t = t;
  requests_total = pos n;
  errors_5xx_total = pos 0;
  active_connections = pos 1;
  avg_duration_ms = 0;
}

-- The counter falls at the third sample.
abbrev samples : List (Sample milli)
samples = at 0 10 ∷ at (5 * second) 25 ∷ at (10 * second) 3 ∷ []

get_elem?-recent_example :
    (get_elem? (recent 2 samples) 0 ≡ some (shown (some (at 0 10)) (at (5 * second) 25)))
    × (length (recent 2 samples) ≡ 2)
get_elem?-recent_example = get_elem?-recent 2 0 samples

abbrev health : HealthReport
health = record {
  instance_id = bytes "i1";
  group = bytes "web";
  backends =
      record { address = bytes "a:1"; healthy = true }
      ∷ record { address = bytes "b:2"; healthy = false }
      ∷ [];
}

abbrev heard : Reports milli
heard = report_health second health no_reports

abbrev one_group : MetricsReport milli
one_group = record {
  instance_id = bytes "i1";
  groups =
      record {
        group = bytes "web";
        requests_total = pos 7;
        errors_5xx_total = pos 1;
        active_connections = pos 2;
        avg_duration_ms = 1500;
      }
      ∷ [];
}

abbrev unsorted : List (GroupMetricsSnapshot milli) → List (GroupMetricsSnapshot milli)
unsorted gs = gs

unsorted-Permutes : Permutes unsorted
unsorted-Permutes = record { perm = λ gs. Permᴰ.refl gs }

heard-Held : Held second heard
heard-Held =
    Held.told 0 second no_reports heard (Held.nothing 0) (omega arith) (Told.health_told health)

Held-IsKept_example : IsKept (2 * second) (report_metrics unsorted (2 * second) one_group heard)
Held-IsKept_example =
    Held-IsKept (2 * second) (report_metrics unsorted (2 * second) one_group heard) (
      Held.told second (2 * second) heard (report_metrics unsorted (2 * second) one_group heard)
        heard-Held (omega arith) (Told.metrics_told unsorted one_group))

health_for_address_iff_example :
    ShowsReports
      (2 * second)
      (bytes "web")
      (bytes "b:2")
      heard.health
      (health_for_address (2 * second) (bytes "web") (bytes "b:2") heard)
health_for_address_iff_example =
    health_for_address_iff (2 * second) (bytes "web") (bytes "b:2") heard
      (Held-IsKept second heard heard-Held).0

report_health-health_for_address_example : ShowsAtMost false (
    health_for_address
      (9 * second)
      (bytes "web")
      (bytes "b:2")
      (report_health (3 * second) health heard))
unfolding text_eq
report_health-health_for_address_example =
    report_health-health_for_address (3 * second) (9 * second) health (bytes "b:2") false heard
      (Held-IsKept second heard heard-Held).0 refl (omega arith)

report_metrics-totals_example :
    EndsInTotals
      (fresh_entries second (report_metrics unsorted second one_group heard).metrics)
      (report_metrics unsorted second one_group heard).history
report_metrics-totals_example =
    report_metrics-totals unsorted unsorted-Permutes second one_group heard

group_state-in_rotation_example :
    in_rotation (group_state second (bytes "web") pair operated heard).backends
    ≡ (next_set (bytes "web") pair operated).backends
group_state-in_rotation_example = group_state-in_rotation second (bytes "web") pair operated heard

abbrev nobody : World milli
nobody = record { server = new_server; instances = []; streams = [] }

abbrev listening : World milli
listening = open_stream second 7 (bytes "web") (bytes "i1") nobody

listening-Steps : Steps 0 listening
unfolding lookup
listening-Steps =
    Steps.steps 0 0 nobody listening Steps.starts
      (Step.opens second 7 (bytes "web") (bytes "i1") refl)

Steps-IsOrdered_example : IsOrdered 0 listening.server
Steps-IsOrdered_example = Steps-IsOrdered 0 listening listening-Steps (omega arith)

abbrev first_set : BackendSet milli
first_set = numbered (bytes "web") (next_set (bytes "web") pair listening.server) listening.server

publish-take_all_example :
    (lookup 7 (
        group_subs
          (bytes "web")
          (take_all 4 7 (bytes "web") (
            publish
              (bytes "web")
              (next_set (bytes "web") pair listening.server)
              listening.server)).1)
      ≡ some [])
    × (lookup
          (bytes "web")
          (publish
            (bytes "web")
            (next_set (bytes "web") pair listening.server)
            listening.server).last
        ≡ some first_set)
    × Reflects first_set (deliver ((second, first_set) ∷ []) (new_backend_list 0))
unfolding take_all open_stream new_server group_subs lookup text_eq subscribe insert take_update
    publish offer_group offer_all offer new_backend_list
publish-take_all_example =
    publish-take_all 0 7 (bytes "web") (next_set (bytes "web") pair listening.server) []
      listening.server ((second, first_set) ∷ []) (new_backend_list 0) (omega arith)
      Steps-IsOrdered_example refl (omega arith) refl (omega arith)
