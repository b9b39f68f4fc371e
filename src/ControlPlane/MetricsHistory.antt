-- ===== src/ControlPlane/MetricsHistory.antt =====
-- internal/controlplane/metricshistory.go: the samples of the fleet's traffic, oldest first.
pub mod Window
pub mod Bounds
use jbalance.Common.{
  ℕ, ◌-◌, ◌*◌, ◌+◌, Bool, true, false, Option, none, some, List, [], ◌∷◌, ◌++◌, ℤ, pos, ◌+ℤ◌, ◌-ℤ◌,
  int64, ltb_ℤ, ltb, length, drop, get_elem?, Text, if◌then◌else◌,
}
use jbalance.Platform.{Platform}
use jbalance.Dataplane.RateLimit.{second, f_zero}

-- server.go: the traffic of one group.
pub record GroupMetricsSnapshot (p : Platform) : Type 0 where
  pub group : Text
  pub requests_total : ℤ  -- int64
  pub errors_5xx_total : ℤ  -- int64
  pub active_connections : ℤ  -- int64
  pub avg_duration_ms : p.Float
  pub reporting_instances : ℕ

-- The type historyPoint.
pub record Sample (p : Platform) : Type 0 where
  pub t : ℕ
  pub requests_total : ℤ  -- int64
  pub errors_5xx_total : ℤ  -- int64
  pub active_connections : ℤ  -- int64
  pub avg_duration_ms : p.Float

-- The type HistoryPoint.
pub record HistoryPoint (p : Platform) : Type 0 where
  pub time : ℕ
  pub requests_delta : ℤ  -- int64
  pub errors_5xx_delta : ℤ  -- int64
  pub active_conns : ℤ  -- int64
  pub avg_duration_ms : p.Float

abbrev pub max_history_points : ℕ
max_history_points = 250

abbrev pub history_bucket_width : ℕ
history_bucket_width = 5 * second

-- What the loop over the snapshots adds up.
pub record Totals (p : Platform) : Type 0 where
  pub requests : ℤ
  pub errors : ℤ
  pub active : ℤ
  pub duration_sum : p.Float
  pub groups_with_data : ℕ

module _ ⦃p : Platform⦄ where
  unfoldable pub add_group : Totals p → GroupMetricsSnapshot p → Totals p
  add_group acc g = record {
    requests = int64 (acc.requests +ℤ g.requests_total);
    errors = int64 (acc.errors +ℤ g.errors_5xx_total);
    active = int64 (acc.active +ℤ g.active_connections);
    duration_sum = p.f_add acc.duration_sum g.avg_duration_ms;
    groups_with_data = acc.groups_with_data + 1;
  }

  unfoldable pub add_up : Totals p → List (GroupMetricsSnapshot p) → Totals p
  unfolding add_group
  add_up acc [] = acc
  add_up acc (g ∷ rest) = add_up (add_group acc g) rest

  abbrev pub no_totals : Totals p
  no_totals = record {
    requests = pos 0;
    errors = pos 0;
    active = pos 0;
    duration_sum = f_zero;
    groups_with_data = 0;
  }

  unfoldable pub sample : ℕ → Totals p → Sample p
  sample now sum = record {
    t = now;
    requests_total = sum.requests;
    errors_5xx_total = sum.errors;
    active_connections = sum.active;
    avg_duration_ms =
        if ltb 0 sum.groups_with_data
        then p.f_div sum.duration_sum (p.f_int (pos sum.groups_with_data))
        else f_zero;
  }

  -- h.points[len(h.points)-1], with the points before it.
  unfoldable pub split_last : List (Sample p) → Option (List (Sample p) × Sample p)
  split_last [] = none
  split_last (x ∷ xs) = elim (split_last xs) [
    | none ↦ some ([], x)
    | some (before, last) ↦ some (x ∷ before, last)
  ]

  -- The oldest point goes where there are too many.
  unfoldable pub trim : List (Sample p) → List (Sample p)
  trim points = if ltb max_history_points (length points) then drop 1 points else points

  unfoldable pub put_sample : ℕ → Sample p → List (Sample p) → List (Sample p)
  unfolding split_last trim
  put_sample now new points = elim (split_last points) [
    | none ↦ trim (points ++ new ∷ [])
    | some (before, last) ↦
        if ltb now (last.t + history_bucket_width)
        then before ++ record new { t = last.t } ∷ []
        else trim (points ++ new ∷ [])
  ]

  unfoldable pub record_sample :
      ℕ → List (GroupMetricsSnapshot p) → List (Sample p) → List (Sample p)
  unfolding put_sample sample add_up
  record_sample now snapshots points =
      put_sample now (sample now (add_up no_totals snapshots)) points

  -- A counter that was reset does not show as negative traffic.
  abbrev pub not_negative : ℤ → ℤ
  not_negative d = if ltb_ℤ d (pos 0) then pos 0 else d

  -- The point of a sample after `prev`, if there is one.
  unfoldable pub point_of : Option (Sample p) → Sample p → HistoryPoint p
  point_of prev x = record {
    time = x.t;
    requests_delta = elim prev [
      | none ↦ pos 0
      | some y ↦ not_negative (int64 (x.requests_total -ℤ y.requests_total))
    ];
    errors_5xx_delta = elim prev [
      | none ↦ pos 0
      | some y ↦ not_negative (int64 (x.errors_5xx_total -ℤ y.errors_5xx_total))
    ];
    active_conns = x.active_connections;
    avg_duration_ms = x.avg_duration_ms;
  }

  -- The loop over h.points[start:].
  unfoldable pub points_of : Option (Sample p) → List (Sample p) → List (HistoryPoint p)
  unfolding point_of
  points_of prev [] = []
  points_of prev (x ∷ xs) = point_of prev x ∷ points_of (some x) xs

  -- Recent, for n that is not negative.
  unfoldable pub recent : ℕ → List (Sample p) → List (HistoryPoint p)
  unfolding points_of
  recent n points =
      let start = if ltb n (length points) then length points - n else 0 in
      points_of (if ltb 0 start then get_elem? points (start - 1) else none) (drop start points)
