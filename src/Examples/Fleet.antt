-- ===== src/Examples/Fleet.antt =====
-- A group of two backends as the control plane publishes it.
use jbalance.Common.{ℕ, true, false, [], ◌∷◌, pos, Text, bytes}
use jbalance.Proto.{BackendSet}
use jbalance.Samples.{milli}
use jbalance.Dataplane.Backends.{BackendList, new_backend_list, update, set_outlier_config}
use jbalance.Dataplane.Backends.Invariant.{
  IsValid, new_backend_list-IsValid, update-IsValid, set_outlier_config-IsValid,
}

abbrev pub web : Text → ℕ → BackendSet milli
web algorithm version = record {
  group = bytes "web";
  backends =
      record { address = bytes "a:1"; weight = pos 1 }
      ∷ record { address = bytes "b:2"; weight = pos 2 }
      ∷ [];
  version = pos version;
  algorithm = algorithm;
  sticky = false;
  sticky_cookie_name = [];
  sticky_ttl_seconds = pos 0;
  rate_limit_rps = 0;
  rate_limit_burst = pos 0;
}

abbrev pub fleet : Text → BackendList milli
fleet algorithm = update 10 (web algorithm 1) (new_backend_list 10)

pub fleet-IsValid : (algorithm : Text) → IsValid 10 (fleet algorithm)
fleet-IsValid algorithm =
    update-IsValid 10 (web algorithm 1) (new_backend_list 10) (new_backend_list-IsValid 10)

-- The same group, whose backends are ejected after two failures in a row.
abbrev pub watched : BackendList milli
watched =
    set_outlier_config
      (record {
        enabled = true;
        consecutive_errors = pos 2;
        base_eject_duration = pos 0;
        max_eject_duration = pos 0;
        max_eject_percent = pos 50;
      })
      (fleet [])

pub watched-IsValid : IsValid 10 watched
watched-IsValid = set_outlier_config-IsValid 10 _ (fleet []) (fleet-IsValid [])
