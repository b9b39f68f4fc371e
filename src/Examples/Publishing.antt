-- ===== src/Examples/Publishing.antt =====
-- Runs of the control plane.
use mathlib.Core.Option
use jbalance.Common.{
  ◌≡◌, refl, true, some, none, [], ◌∷◌, pos, bytes, lookup, insert, text_eq, text_instance, ◌↔◌,
  ◌⊎◌, arith, length,
}
use jbalance.Samples.{milli}
use jbalance.Examples.Fleet.{web}
use jbalance.Proto.{BackendSet}
use jbalance.Dataplane.Entry.{find_first}
use jbalance.Dataplane.Backends.{new_backend_list, update}
use jbalance.Dataplane.Backends.Updates.{find_backend, carry}
use jbalance.ControlPlane.Stores.{group_overrides}
use jbalance.ControlPlane.Server.{
  Server, Snapshot, new_server, server_set_override, subscribe, force_republish, publish_if_changed,
  next_set, backend_sets_equal,
}
use jbalance.ControlPlane.Server.Snapshot.{sent}
use jbalance.ControlPlane.Server.Equality.{IsDistinct, SameWeights, backend_sets_equal_iff}
use jbalance.ControlPlane.Server.Publishing.{
  Published, IsUnchanged, numbered, publish_if_changed-Published, force_republish-update,
}

abbrev pub pair : Snapshot
pair =
    record { address = bytes "a:1"; weight = pos 1 }
    ∷ record { address = bytes "b:2"; weight = pos 2 }
    ∷ []

abbrev swapped : Snapshot
swapped =
    record { address = bytes "b:2"; weight = pos 2 }
    ∷ record { address = bytes "a:1"; weight = pos 1 }
    ∷ []

-- A subscriber, and a:1 drained before the provider could be asked.
abbrev pub operated : Server milli
operated =
    server_set_override true (bytes "web") (bytes "a:1") (record { weight = none; drained = true })
      none (subscribe (bytes "web") 7 new_server)

publish_if_changed-Published_example :
    ((IsUnchanged (lookup (bytes "web") operated.last) (next_set (bytes "web") pair operated)
        × (publish_if_changed (bytes "web") pair operated ≡ operated))
      ⊎ ((¬ IsUnchanged (lookup (bytes "web") operated.last) (next_set (bytes "web") pair operated))
          × Published
              (bytes "web")
              (bytes "db")
              7
              (next_set (bytes "web") pair operated)
              operated
              (publish_if_changed (bytes "web") pair operated)))
    × Published
        (bytes "web")
        (bytes "db")
        7
        (next_set (bytes "web") pair operated)
        operated
        (force_republish (bytes "web") (some pair) operated)
unfolding text_eq IsDistinct lookup new_server server_set_override subscribe next_set insert
publish_if_changed-Published_example =
    publish_if_changed-Published (bytes "web") (bytes "db") 7 pair operated refl refl (refl, tt)

force_republish-update_example :
    find_first
      (bytes "a:1")
      (update 20
        (numbered (bytes "web") (next_set (bytes "web") pair operated) operated)
        (new_backend_list 10)).entries
    ≡ Option.map (carry (find_first (bytes "a:1") (new_backend_list ⦃p = milli⦄ 10).entries)) (
        sent
          (lookup (bytes "a:1") (group_overrides (bytes "web") operated.overrides))
          (find_backend (bytes "a:1") pair))
unfolding force_republish new_server text_eq lookup insert new_backend_list server_set_override
    subscribe
force_republish-update_example =
    force_republish-update 20 (bytes "web") (bytes "a:1") pair operated (new_backend_list 10)
      (numbered (bytes "web") (next_set (bytes "web") pair operated) operated) refl tt (omega arith)

abbrev with_backends : Snapshot → BackendSet milli
with_backends bs = record (web [] 1) { backends = bs }

pair-IsDistinct : IsDistinct pair
unfolding IsDistinct text_eq
pair-IsDistinct = (refl, (refl, tt))

swapped-IsDistinct : IsDistinct swapped
unfolding IsDistinct text_eq
swapped-IsDistinct = (refl, (refl, tt))

backend_sets_equal_iff_example :
    (backend_sets_equal (some (with_backends pair)) (some (with_backends swapped)) ≡ true)
    ↔ ((length pair ≡ length swapped) × SameWeights pair swapped)
backend_sets_equal_iff_example =
    backend_sets_equal_iff (with_backends pair) (with_backends swapped) pair-IsDistinct
      swapped-IsDistinct
