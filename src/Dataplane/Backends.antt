-- ===== src/Dataplane/Backends.antt =====
-- internal/dataplane/backends.go: the backends of one group, their health, their passive ejection
-- and the weighted slots from which a backend is chosen (Dataplane/Selection). A method returns the
-- new list, and reads the clock once.
pub mod Invariant
pub mod Outlier
pub mod Streak
pub mod Updates
pub mod Counters
use jbalance.Common.{
  ℕ, ◌+◌, Bool, true, false, not, ◌&&◌, Option, none, some, List, [], map, ℤ, pos, ◌+ℤ◌, ◌-ℤ◌, ◌*ℤ◌,
  int64, leb_ℤ, ltb_ℤ, eqb_ℤ, length, Text, text_instance, bool_eq, if◌then◌else◌,
}
use jbalance.Platform.{Platform}
use jbalance.Proto.{BackendSet}
use jbalance.Dataplane.RateLimit.{
  GroupRateLimiter, second, f_zero, new_group_rate_limiter, set_config, allow,
}
use jbalance.Dataplane.Entry.{
  Algorithm, round_robin, BackendEntry, OutlierConfig, ejected, selectable, with_defaults,
  normalize_algorithm, slots_from, expiry_from, update_first, find_first, set_first, count_ejected,
  count_healthy, by_address, fresh_entry, over_share, eject, address_health, release_entry,
  acquire_entry,
}

pub record StickyConfig : Type 0 where
  pub enabled : Bool
  pub cookie_name : Text
  pub ttl : ℤ

pub record BackendList (p : Platform) : Type 0 where
  pub entries : List BackendEntry
  pub version : ℤ  -- int64
  pub algorithm : Algorithm
  pub sticky : StickyConfig
  pub next : ℕ  -- atomic.Uint64
  pub slots : List ℕ
  pub outlier : OutlierConfig
  pub rate_limit : GroupRateLimiter p
  pub next_eject_expiry : Option ℕ

module _ ⦃p : Platform⦄ where
  unfoldable pub new_backend_list : ℕ → BackendList p
  unfolding new_group_rate_limiter
  new_backend_list now = record {
    entries = [];
    version = pos 0;
    algorithm = round_robin;
    sticky = record { enabled = false; cookie_name = []; ttl = pos 0 };
    next = 0;
    slots = [];
    outlier = record {
      enabled = false;
      consecutive_errors = pos 0;
      base_eject_duration = pos 0;
      max_eject_duration = pos 0;
      max_eject_percent = pos 0;
    };
    rate_limit = new_group_rate_limiter now;
    next_eject_expiry = none;
  }

  unfoldable pub rebuild_slots_locked : ℕ → BackendList p → BackendList p
  unfolding slots_from expiry_from
  rebuild_slots_locked now b = record b {
    slots = slots_from now 0 b.entries;
    next_eject_expiry = expiry_from now none b.entries;
  }

  -- The fields that Update writes behind its guard, before it rebuilds the slots.
  unfoldable pub replaced : BackendSet p → BackendList p → BackendList p
  unfolding fresh_entry by_address normalize_algorithm set_config
  replaced set b = record b {
    entries = map (fresh_entry (by_address [] b.entries)) set.backends;
    version = set.version;
    algorithm = normalize_algorithm set.algorithm;
    sticky = record {
      enabled = set.sticky;
      cookie_name = set.sticky_cookie_name;
      ttl = int64 (set.sticky_ttl_seconds *ℤ pos second);
    };
    rate_limit =
        set_config
          (record {
            enabled = p.f_lt f_zero set.rate_limit_rps;
            rps = set.rate_limit_rps;
            burst = set.rate_limit_burst;
          })
          b.rate_limit;
  }

  unfoldable pub update : ℕ → BackendSet p → BackendList p → BackendList p
  unfolding replaced rebuild_slots_locked
  update now set b =
      if leb_ℤ set.version b.version && not (eqb_ℤ b.version (pos 0))
      then b
      else rebuild_slots_locked now (replaced set b)

  unfoldable pub set_health : ℕ → Text → Bool → BackendList p → BackendList p
  unfolding set_first rebuild_slots_locked
  set_health now a h b =
      let (es, changed) = set_first a h b.entries in
      if changed then rebuild_slots_locked now (record b { entries = es }) else b

  unfoldable pub set_outlier_config : OutlierConfig → BackendList p → BackendList p
  unfolding with_defaults
  set_outlier_config cfg b = record b {
    outlier = record (with_defaults cfg) { enabled = cfg.enabled };
  }

  -- A failed request against the entry `e`, the first of address `a`.
  unfoldable pub record_error : ℕ → Text → BackendEntry → BackendList p → BackendList p
  unfolding ejected over_share eject rebuild_slots_locked update_first
  record_error now a e b =
      let bumped = record e { consec_errors = e.consec_errors + 1 } in
      let counted = record b { entries = update_first a (λ _. bumped) b.entries } in
      if ltb_ℤ (pos (e.consec_errors + 1)) b.outlier.consecutive_errors
      then counted
      else if ejected now e
      then counted
      else if over_share now b.outlier b.entries
      then counted
      else rebuild_slots_locked now
          (record b { entries = update_first a (λ _. eject now b.outlier bumped) b.entries })

  unfoldable pub record_result : ℕ → Text → Bool → BackendList p → BackendList p
  unfolding record_error find_first update_first
  record_result now a success b =
      if not b.outlier.enabled then b else elim (find_first a b.entries) [
        | none ↦ b
        | some e ↦
            if success
            then record b {
              entries = update_first a (λ e. record e { consec_errors = 0 }) b.entries;
            }
            else record_error now a e b
      ]

  unfoldable pub release : Text → BackendList p → BackendList p
  unfolding release_entry update_first
  release a b = record b { entries = update_first a release_entry b.entries }

  unfoldable pub pin_to : ℕ → Text → BackendList p → BackendList p × Bool
  unfolding find_first selectable update_first
  pin_to now a b = elim (find_first a b.entries) [
    | none ↦ (b, false)
    | some e ↦
        if not (selectable now e)
        then (b, false)
        else (record b { entries = update_first a acquire_entry b.entries }, true)
  ]

  unfoldable pub rate_limit_allow : ℕ → Text → BackendList p → BackendList p × Bool
  unfolding allow
  rate_limit_allow now client b =
      let (g, ok) = allow now client b.rate_limit in (record b { rate_limit = g }, ok)

  unfoldable pub ejected_len : ℕ → BackendList p → ℕ
  unfolding count_ejected
  ejected_len now b = count_ejected now b.entries

  unfoldable pub list_len : BackendList p → ℕ
  list_len b = length b.entries

  unfoldable pub healthy_len : BackendList p → ℕ
  unfolding count_healthy
  healthy_len b = count_healthy b.entries

  unfoldable pub addresses : BackendList p → List Text
  addresses b = map (λ e. e.address) b.entries

  unfoldable pub health_snapshot : BackendList p → List (Text × Bool)
  health_snapshot b = map address_health b.entries
