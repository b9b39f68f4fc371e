-- ===== src/Examples/Balancing.antt =====
-- Runs of a backend list.
use mathlib.Core.Option
use jbalance.Common.{
  ℕ, ltb, ◌+◌, ◌≢◌, get_elem?, ◌*◌, min, Text, ◌≡◌, refl, true, false, some, none, [], ◌∷◌, pos,
  bytes, text_eq, lookup, index, arith, returned, All, arith, ◌⊎◌,
}
use jbalance.Samples.{milli, milli_order, no_luck, no_luck-InRange, sort_points, sort_points-Sorts}
use jbalance.Examples.Fleet.{web, fleet, fleet-IsValid, watched}
use jbalance.Dataplane.Entry.{
  OutlierConfig, with_defaults, BackendEntry, selectable, find_first, count_ejected, ejected, eject,
}
use jbalance.Dataplane.Backends.{
  BackendList, new_backend_list, update, release, record_result, set_outlier_config,
}
use jbalance.Dataplane.Backends.Invariant.{IsValid}
use jbalance.Dataplane.Backends.Updates.{
  deliver, HoldsLatest, deliver-HoldsLatest, update-carries, carry, find_backend, Unique,
}
use jbalance.Dataplane.RateLimit.{second}
use jbalance.Dataplane.Backends.Outlier.{
  cooling, eject-ejected, WithinShare, record_result-WithinShare,
}
use jbalance.Dataplane.Backends.Streak.{failures-eject, failures, bump_by}
use jbalance.Dataplane.Backends.Counters.{PinOutcome, pin_to-release}
use jbalance.Dataplane.Selection.{Picked, next_for_key, refresh}
use jbalance.Dataplane.Selection.Least.{TakesLeast}
use jbalance.Dataplane.Selection.Owner.{TakesOwner}
use jbalance.Dataplane.Selection.Outcome.{
  Serves, next_for_key-Serves, next_for_key-TakesLeast, next_for_key-TakesOwner,
}
use jbalance.Dataplane.Selection.Balance.{next_for_key-release}
use jbalance.Dataplane.Proxy.{select_backend}
use jbalance.Dataplane.Proxy.Affinity.{honoured, Stays, Follows, select_backend-Stays}
use jbalance.Dataplane.History.{Reached, Call, Reached-IsValid}

next_for_key-Serves_example :
    Serves 10 (fleet (bytes "p2c")) (next_for_key no_luck sort_points 10 [] (fleet (bytes "p2c")))
next_for_key-Serves_example =
    next_for_key-Serves milli_order no_luck no_luck-InRange sort_points sort_points-Sorts 10 []
      (fleet (bytes "p2c")) (fleet-IsValid (bytes "p2c"))

next_for_key-TakesLeast_example :
    (All
      (λ (e : BackendEntry). selectable 10 e ≡ false)
      (fleet (bytes "least_connections")).entries)
    ⊎ TakesLeast milli_order 10
        (refresh 10 (fleet (bytes "least_connections")))
        (next_for_key no_luck sort_points 10 [] (fleet (bytes "least_connections")))
unfolding update new_backend_list text_eq
next_for_key-TakesLeast_example =
    next_for_key-TakesLeast milli_order no_luck no_luck-InRange sort_points sort_points-Sorts 10 []
      (fleet (bytes "least_connections")) (fleet-IsValid (bytes "least_connections")) refl

next_for_key-TakesOwner_example :
    (All (λ (e : BackendEntry). selectable 10 e ≡ false) (fleet (bytes "consistent_hash")).entries)
    ⊎ TakesOwner sort_points sort_points-Sorts 10
        (bytes "client")
        (refresh 10 (fleet (bytes "consistent_hash")))
        (next_for_key no_luck sort_points 10 (bytes "client") (fleet (bytes "consistent_hash")))
unfolding update new_backend_list text_eq
next_for_key-TakesOwner_example =
    next_for_key-TakesOwner milli_order no_luck no_luck-InRange sort_points sort_points-Sorts 10
      (bytes "client") (fleet (bytes "consistent_hash")) (fleet-IsValid (bytes "consistent_hash"))
      refl refl

abbrev list_of : Picked → BackendList milli
list_of (returned r) = r.0
list_of _ = fleet []

pub fleet-Unique : Unique (fleet []).entries
unfolding update new_backend_list find_first text_eq
fleet-Unique = (refl, (refl, tt))

next_for_key-release_example :
    (release (bytes "a:1") (list_of (next_for_key no_luck sort_points 10 [] (fleet [])))).entries
    ≡ (fleet []).entries
unfolding next_for_key update new_backend_list ejected lookup text_eq index
next_for_key-release_example =
    next_for_key-release milli_order no_luck no_luck-InRange sort_points sort_points-Sorts 10 []
      (bytes "a:1") (fleet []) (list_of (next_for_key no_luck sort_points 10 [] (fleet [])))
      (fleet-IsValid []) fleet-Unique refl

Reached-IsValid_example : IsValid 20 (record_result 20 (bytes "a:1") false (fleet []))
Reached-IsValid_example = Reached-IsValid milli_order (
    Reached.called 10 20 (fleet []) (record_result 20 (bytes "a:1") false (fleet []))
      (Reached.called 10 10 (new_backend_list 10) (fleet []) (Reached.created 10) (omega arith)
        (Call.updates (web [] 1)))
      (omega arith) (Call.records (bytes "a:1") false))

update-carries_example :
    find_first (bytes "b:2") (update 20 (web (bytes "p2c") 2) (fleet [])).entries
    ≡ Option.map
        (carry (find_first (bytes "b:2") (fleet []).entries))
        (find_backend (bytes "b:2") (web (bytes "p2c") 2).backends)
unfolding update new_backend_list
update-carries_example =
    update-carries 20 (web (bytes "p2c") 2) (fleet []) (bytes "b:2") fleet-Unique (omega arith)

deliver-HoldsLatest_example : HoldsLatest (web [] 2 ∷ web (bytes "random") 3 ∷ web [] 1 ∷ []) (
    deliver
      ((10, web [] 2) ∷ (11, web (bytes "random") 3) ∷ (12, web [] 1) ∷ [])
      (new_backend_list 0))
deliver-HoldsLatest_example =
    deliver-HoldsLatest 0 10 (web [] 2) ((11, web (bytes "random") 3) ∷ (12, web [] 1) ∷ [])
      (omega arith)

record_result-WithinShare_example : WithinShare 20 (record_result 20 (bytes "a:1") false watched)
unfolding update new_backend_list ejected set_outlier_config count_ejected
record_result-WithinShare_example =
    record_result-WithinShare 20 (bytes "a:1") false watched (omega arith)

-- The entry of `a:1`.
abbrev first_watched : BackendEntry
first_watched = record {
  address = bytes "a:1";
  weight = pos 1;
  healthy = true;
  active_conns = pos 0;
  consec_errors = 0;
  ejected_until = none;
  eject_count = 0;
}

abbrev given_up : BackendList milli
given_up = record_result 30 (bytes "a:1") false (failures (20 ∷ []) (bytes "a:1") watched)

failures-eject_example :
    (find_first (bytes "a:1") (failures (20 ∷ []) (bytes "a:1") watched).entries
      ≡ some (bump_by 1 (first_watched)))
    × ((failures (20 ∷ []) (bytes "a:1") watched).slots ≡ watched.slots)
    × (find_first (bytes "a:1") given_up.entries ≡ some (cooling 30 (30 * second) first_watched))
    × All
        (λ s. get_elem? given_up.entries s ≢ some (cooling 30 (30 * second) first_watched))
        given_up.slots
unfolding update new_backend_list ejected set_outlier_config find_first text_eq lookup count_ejected
    with_defaults
failures-eject_example =
    failures-eject (20 ∷ []) 30 1 (30 * second) (300 * second) 50 (bytes "a:1") first_watched
      watched refl refl refl refl refl (omega arith) (omega arith) refl (omega arith) refl
      (omega arith)

pin_to-release_example : PinOutcome 10 (bytes "a:1") (fleet [])
pin_to-release_example = pin_to-release 10 (bytes "a:1") (fleet []) (fleet-IsValid []).sound

abbrev pinning : BackendList milli
pinning = record (fleet []) { sticky = record { enabled = true; cookie_name = []; ttl = pos 0 } }

pinning-IsValid : IsValid 10 pinning
pinning-IsValid =
    let v = fleet-IsValid [] in
    record { built_at = v.built_at; past = v.past; built = v.built; sound = v.sound }

select_backend-Stays_example :
    ((value : Text) × (honoured 10 (some (bytes "b:2")) pinning ≡ some value)
      × Stays 10 value pinning
          (select_backend no_luck sort_points 10 (bytes "client") (some (bytes "b:2")) pinning))
    ⊎ ((honoured 10 (some (bytes "b:2")) pinning ≡ none)
        × Serves 10 pinning (next_for_key no_luck sort_points 10 (bytes "client") pinning)
        × Follows pinning
            (next_for_key no_luck sort_points 10 (bytes "client") pinning)
            (select_backend no_luck sort_points 10 (bytes "client") (some (bytes "b:2")) pinning))
select_backend-Stays_example =
    select_backend-Stays milli_order no_luck no_luck-InRange sort_points sort_points-Sorts 10
      (bytes "client") (some (bytes "b:2")) pinning pinning-IsValid

-- The third cooldown of 30 ns each is capped at 80 ns.
abbrev backing_off : OutlierConfig
backing_off = record {
  enabled = true;
  consecutive_errors = pos 5;
  base_eject_duration = pos 30;
  max_eject_duration = pos 80;
  max_eject_percent = pos 50;
}

eject-ejected_example :
    ((t : ℕ)
      → ejected t (eject 20 (with_defaults backing_off) (record first_watched { eject_count = 2 }))
        ≡ ltb t (20 + min 90 80))
    × (ejected 20 (eject 20 (with_defaults backing_off) (record first_watched { eject_count = 2 }))
        ≡ true)
    × ((eject 20 (with_defaults backing_off) (record first_watched { eject_count = 2 })).eject_count
        ≡ 3)
    × ((eject 20
          (with_defaults backing_off)
          (record first_watched { eject_count = 2 })).consec_errors
        ≡ 0)
unfolding with_defaults
eject-ejected_example =
    eject-ejected 20 backing_off (record first_watched { eject_count = 2 }) (omega arith)
