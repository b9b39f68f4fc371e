-- ===== src/ControlPlane/Reports.antt =====
-- internal/controlplane/server.go: what the data planes report, and the views that the console
-- shows of it.
pub mod Health
pub mod Traffic
pub mod Fleet
use jbalance.Common.{
  ℕ, ◌+◌, ◌*◌, ◌≡◌, Bool, true, false, not, ◌&&◌, ◌||◌, Option, none, some, List, [], ◌∷◌, map, ap,
  ap₂, ◌↔◌, ℤ, pos, ◌+ℤ◌, int64, ltb, length, Text, text_instance, text_eq_iff, text_eq,
  text_eq_refl, Comparable, ◌==◌, Map, lookup, insert, is_empty, if◌then◌else◌, arith, bytes,
}
use jbalance.Platform.{Platform}
use jbalance.Proto.{BackendHealth, HealthReport, GroupMetrics, MetricsReport}
use jbalance.Dataplane.RateLimit.{second, f_zero}
use jbalance.ControlPlane.MetricsHistory.{GroupMetricsSnapshot, Sample, record_sample}

pub record BackendHealthKey : Type 0 where
  pub group : Text
  pub instance_id : Text
  pub address : Text

unfoldable pub same_health_key : BackendHealthKey → BackendHealthKey → Bool
same_health_key j k =
    text_eq j.group k.group && text_eq j.instance_id k.instance_id && text_eq j.address k.address

pub same_health_key_iff : (j k : BackendHealthKey) → (same_health_key j k ≡ true) ↔ (j ≡ k)
unfolding same_health_key
same_health_key_iff j k = (
  λ h.
      let g : j.group ≡ k.group = ground (arith, text_eq_iff j.group k.group) in
      let n : j.instance_id ≡ k.instance_id =
        ground (arith, text_eq_iff j.instance_id k.instance_id) in
      let a : j.address ≡ k.address = ground (arith, text_eq_iff j.address k.address) in
      λ i. record { group = g i; instance_id = n i; address = a i },
  λ e. rw (e, text_eq_refl k.group, text_eq_refl k.instance_id) (text_eq_refl k.address),
)

instance abbrev pub health_key_instance : Comparable BackendHealthKey
health_key_instance = record { same = same_health_key; same_iff = same_health_key_iff }

pub record HealthEntry : Type 0 where
  pub healthy : Bool
  pub reported_at : ℕ

pub record MetricsKey : Type 0 where
  pub instance_id : Text
  pub group : Text

unfoldable pub same_metrics_key : MetricsKey → MetricsKey → Bool
same_metrics_key j k = text_eq j.instance_id k.instance_id && text_eq j.group k.group

pub same_metrics_key_iff : (j k : MetricsKey) → (same_metrics_key j k ≡ true) ↔ (j ≡ k)
unfolding same_metrics_key
same_metrics_key_iff j k = (
  λ h.
      let n : j.instance_id ≡ k.instance_id =
        ground (arith, text_eq_iff j.instance_id k.instance_id) in
      let g : j.group ≡ k.group = ground (arith, text_eq_iff j.group k.group) in
      λ i. record { instance_id = n i; group = g i },
  λ e. rw (e, text_eq_refl k.instance_id) (text_eq_refl k.group),
)

instance abbrev pub metrics_key_instance : Comparable MetricsKey
metrics_key_instance = record { same = same_metrics_key; same_iff = same_metrics_key_iff }

pub record MetricsEntry (p : Platform) : Type 0 where
  pub requests_total : ℤ  -- int64
  pub errors_5xx_total : ℤ  -- int64
  pub active_conns : ℤ  -- int64
  pub avg_duration_ms : p.Float
  pub reported_at : ℕ

-- The type instanceState; the zero time is `none`.
pub record InstanceState : Type 0 where
  pub group : Text
  pub connected_at : ℕ
  pub connected : Bool
  pub last_health_report_at : Option ℕ
  pub reported_backends : ℕ

-- The fields of Server that hold reports.
pub record Reports (p : Platform) : Type 0 where
  pub health : Map BackendHealthKey HealthEntry
  pub metrics : Map MetricsKey (MetricsEntry p)
  pub instances : Map Text InstanceState
  pub history : List (Sample p)

-- healthReportMaxAge and metricsReportMaxAge.
abbrev pub report_max_age : ℕ
report_max_age = 30 * second

-- `now.Sub(reportedAt) > maxAge`
abbrev pub stale : ℕ → ℕ → Bool
stale now reported_at = ltb (reported_at + report_max_age) now

-- The loop of ReportHealth.
unfoldable pub put_health :
    ℕ
    → HealthReport
    → List BackendHealth
    → Map BackendHealthKey HealthEntry
    → Map BackendHealthKey HealthEntry
put_health now report [] m = m
put_health now report (bh ∷ rest) m = put_health now report rest (
    insert (record { group = report.group; instance_id = report.instance_id; address = bh.address })
      (record { healthy = bh.healthy; reported_at = now }) m)

-- What one entry of s.health does to (healthy, hasData).
unfoldable pub count_health :
    ℕ → Text → Text → BackendHealthKey → HealthEntry → Bool × Bool → Bool × Bool
count_health now group address key entry (healthy, known) =
    if not (text_eq key.group group) || not (text_eq key.address address)
    then (healthy, known)
    else if stale now entry.reported_at
    then (healthy, known)
    else (if not entry.healthy then false else healthy, true)

unfoldable pub health_loop :
    ℕ → Text → Text → Map BackendHealthKey HealthEntry → Bool × Bool → Bool × Bool
unfolding count_health
health_loop now group address [] acc = acc
health_loop now group address ((key, entry) ∷ rest) acc =
    health_loop now group address rest (count_health now group address key entry acc)

unfoldable pub mark_instance_connected :
    ℕ → Text → Text → Map Text InstanceState → Map Text InstanceState
mark_instance_connected now id group m =
    if is_empty id
    then m
    else insert id
        (record {
          group = group;
          connected_at = now;
          connected = true;
          last_health_report_at = none;
          reported_backends = 0;
        })
        m

-- A change of the entry of an instance, if it has one.
abbrev pub change_instance :
    Text → (InstanceState → InstanceState) → Map Text InstanceState → Map Text InstanceState
change_instance id f m =
    if is_empty id then m else elim (lookup id m) [ none ↦ m | some st ↦ insert id (f st) m ]

unfoldable pub mark_instance_disconnected : Text → Map Text InstanceState → Map Text InstanceState
mark_instance_disconnected id = change_instance id (λ st. record st { connected = false })

unfoldable pub record_instance_health_report :
    Text → ℕ → ℕ → Map Text InstanceState → Map Text InstanceState
record_instance_health_report id count at =
    change_instance id
      (λ st. record st { last_health_report_at = some at; reported_backends = count })

module _ ⦃p : Platform⦄ where
  unfoldable pub no_reports : Reports p
  no_reports = record { health = []; metrics = []; instances = []; history = [] }

  unfoldable pub report_health : ℕ → HealthReport → Reports p → Reports p
  unfolding put_health record_instance_health_report
  report_health now report s = record s {
    health = put_health now report report.backends s.health;
    instances =
        record_instance_health_report report.instance_id (length report.backends) now s.instances;
  }

  unfoldable pub health_for_address : ℕ → Text → Text → Reports p → Bool × Bool
  unfolding health_loop
  health_for_address now group address s = health_loop now group address s.health (true, false)

  -- The loop of ReportMetrics.
  unfoldable pub put_metrics :
      ℕ
      → MetricsReport p
      → List (GroupMetrics p)
      → Map MetricsKey (MetricsEntry p)
      → Map MetricsKey (MetricsEntry p)
  put_metrics now report [] m = m
  put_metrics now report (gm ∷ rest) m = put_metrics now report rest (
      insert (record { instance_id = report.instance_id; group = gm.group })
        (record {
          requests_total = gm.requests_total;
          errors_5xx_total = gm.errors_5xx_total;
          active_conns = gm.active_connections;
          avg_duration_ms = gm.avg_duration_ms;
          reported_at = now;
        })
        m)

  abbrev pub no_traffic : Text → GroupMetricsSnapshot p
  no_traffic group = record {
    group = group;
    requests_total = pos 0;
    errors_5xx_total = pos 0;
    active_connections = pos 0;
    avg_duration_ms = f_zero;
    reporting_instances = 0;
  }

  unfoldable pub add_entry : MetricsEntry p → GroupMetricsSnapshot p → GroupMetricsSnapshot p
  add_entry entry g = record g {
    requests_total = int64 (g.requests_total +ℤ entry.requests_total);
    errors_5xx_total = int64 (g.errors_5xx_total +ℤ entry.errors_5xx_total);
    active_connections = int64 (g.active_connections +ℤ entry.active_conns);
    avg_duration_ms = p.f_add g.avg_duration_ms entry.avg_duration_ms;
    reporting_instances = g.reporting_instances + 1;
  }

  -- byGroup[group], or a new entry.
  abbrev pub or_no_traffic : Text → Option (GroupMetricsSnapshot p) → GroupMetricsSnapshot p
  or_no_traffic group none = no_traffic group
  or_no_traffic group (some g) = g

  unfoldable pub by_group :
      ℕ
      → Map MetricsKey (MetricsEntry p)
      → Map Text (GroupMetricsSnapshot p)
      → Map Text (GroupMetricsSnapshot p)
  unfolding add_entry
  by_group now [] m = m
  by_group now ((key, entry) ∷ rest) m = by_group now rest (
      if stale now entry.reported_at
      then m
      else insert key.group (add_entry entry (or_no_traffic key.group (lookup key.group m))) m)

  -- The loop that makes averages of the sums of durations.
  unfoldable pub averaged : GroupMetricsSnapshot p → GroupMetricsSnapshot p
  averaged g = record g {
    avg_duration_ms =
        if ltb 0 g.reporting_instances
        then p.f_div g.avg_duration_ms (p.f_int (pos g.reporting_instances))
        else g.avg_duration_ms;
  }

  abbrev pub values : Map Text (GroupMetricsSnapshot p) → List (GroupMetricsSnapshot p)
  values [] = []
  values ((group, g) ∷ rest) = averaged g ∷ values rest

  -- `sort` is sort.Slice by group.
  unfoldable pub metrics_snapshot :
      (List (GroupMetricsSnapshot p) → List (GroupMetricsSnapshot p))
      → ℕ
      → Reports p
      → List (GroupMetricsSnapshot p)
  unfolding by_group averaged
  metrics_snapshot sort now s = sort (values (by_group now s.metrics []))

  unfoldable pub report_metrics :
      (List (GroupMetricsSnapshot p) → List (GroupMetricsSnapshot p))
      → ℕ
      → MetricsReport p
      → Reports p
      → Reports p
  unfolding put_metrics metrics_snapshot record_sample
  report_metrics sort now report s =
      let held : Reports p = record s {
        metrics = put_metrics now report report.groups s.metrics;
      } in
      record held { history = record_sample now (metrics_snapshot sort now held) held.history }
