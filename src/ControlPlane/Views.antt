-- ===== src/ControlPlane/Views.antt =====
-- internal/controlplane/server.go: Snapshot and FleetSnapshot, what the console shows.
use jbalance.Common.{
  ℕ, ◌≡◌, refl, Bool, true, false, Option, none, some, List, [], ◌∷◌, ℤ, pos, Text, text_instance,
  Map, lookup, length, if◌then◌else◌, ap, ◌∙◌, Bool-cases, Option-cases, inl, inr,
}
use jbalance.Platform.{Platform}
use jbalance.Proto.{Backend}
use jbalance.ControlPlane.Stores.{
  Override, StickyConfig, RateLimitConfig, group_overrides, get_algorithm, get_sticky,
  get_rate_limit,
}
use jbalance.ControlPlane.Server.{
  Server, Snapshot, group_subs, next_set, snapshot_to_backend_set, sent_backends, overridden,
  attach,
}
use jbalance.ControlPlane.Reports.{Reports, InstanceState, health_for_address}

pub record BackendState : Type 0 where
  pub address : Text
  pub weight : ℤ  -- int32
  pub healthy : Bool
  pub health_known : Bool
  pub drained : Bool
  pub weight_overridden : Bool

pub record GroupState (p : Platform) : Type 0 where
  pub group : Text
  pub version : ℤ  -- int64
  pub backends : List BackendState
  pub subscriber_count : ℕ
  pub algorithm : Text
  pub sticky : StickyConfig
  pub rate_limit : RateLimitConfig p

-- The type InstanceState of the Fleet view; the zero time is `none`.
pub record InstanceView : Type 0 where
  pub instance_id : Text
  pub group : Text
  pub connected : Bool
  pub connected_since : ℕ
  pub last_health_report : Option ℕ
  pub reported_backends : ℕ

unfoldable pub instance_views : Map Text InstanceState → List InstanceView
instance_views [] = []
instance_views ((id, st) ∷ rest) =
    record {
      instance_id = id;
      group = st.group;
      connected = st.connected;
      connected_since = st.connected_at;
      last_health_report = st.last_health_report_at;
      reported_backends = st.reported_backends;
    }
    ∷ instance_views rest

-- An override that `overrides[b.Address]` may give.
abbrev pub drains : Option Override → Bool
drains none = false
drains (some ov) = ov.drained

abbrev pub new_weight : Option Override → Option ℤ
new_weight none = none
new_weight (some ov) = ov.weight

module _ ⦃p : Platform⦄ where
  -- `sort` is sort.Slice by instance.
  unfoldable pub fleet_snapshot :
      (List InstanceView → List InstanceView) → Reports p → List InstanceView
  unfolding instance_views
  fleet_snapshot sort r = sort (instance_views r.instances)

  unfoldable pub backend_state : ℕ → Text → Option Override → Reports p → Backend → BackendState
  unfolding health_for_address
  backend_state now group ov r b =
      let (healthy, known) = health_for_address now group b.address r in
      record {
        address = b.address;
        weight = elim (new_weight ov) [ none ↦ b.weight | some w ↦ w ];
        healthy = healthy;
        health_known = known;
        drained = drains ov;
        weight_overridden = elim (new_weight ov) [ none ↦ false | some w ↦ true ];
      }

  unfoldable pub backend_states :
      ℕ → Text → Map Text Override → Reports p → Snapshot → List BackendState
  unfolding backend_state
  backend_states now group ovs r [] = []
  backend_states now group ovs r (b ∷ bs) =
      backend_state now group (lookup b.address ovs) r b ∷ backend_states now group ovs r bs

  unfoldable pub group_state : ℕ → Text → Snapshot → Server p → Reports p → GroupState p
  unfolding backend_states group_subs group_overrides get_algorithm get_sticky get_rate_limit
  group_state now group snap s r = record {
    group = group;
    version = elim (lookup group s.last) [ none ↦ pos 0 | some set ↦ set.version ];
    backends = backend_states now group (group_overrides group s.overrides) r snap;
    subscriber_count = length (group_subs group s);
    algorithm = get_algorithm group s.algorithms;
    sticky = get_sticky group s.sticky;
    rate_limit = get_rate_limit group s.rate_limits;
  }

  -- The provider's groups with their snapshots; `none` for a failed Groups, whose answer is nil.
  unfoldable pub group_states :
      ℕ → List (Text × Option Snapshot) → Server p → Reports p → List (GroupState p)
  unfolding group_state
  group_states now [] s r = []
  group_states now ((group, none) ∷ rest) s r = group_states now rest s r
  group_states now ((group, some snap) ∷ rest) s r =
      group_state now group snap s r ∷ group_states now rest s r

  unfoldable pub snapshot :
      ℕ → Option (List (Text × Option Snapshot)) → Server p → Reports p → List (GroupState p)
  unfolding group_states
  snapshot now none s r = []
  snapshot now (some groups) s r = group_states now groups s r

  -- What a data plane would be sent of the backends that are shown.
  abbrev pub in_rotation : List BackendState → List Backend
  in_rotation [] = []
  in_rotation (b ∷ bs) =
      if b.drained
      then in_rotation bs
      else record { address = b.address; weight = b.weight } ∷ in_rotation bs

  backend_states-in_rotation :
      (now : ℕ) (group : Text) (ovs : Map Text Override) (r : Reports p) (snap : Snapshot)
      → in_rotation (backend_states now group ovs r snap) ≡ sent_backends ovs snap
  unfolding backend_states backend_state sent_backends overridden
  backend_states-in_rotation now group ovs r [] = refl
  backend_states-in_rotation now group ovs r (b ∷ bs) =
      shown (lookup b.address ovs)
      ∙ ap (attach (overridden (lookup b.address ovs) b))
          (backend_states-in_rotation now group ovs r bs)
    where
      shown :
          (ov : Option Override)
          → in_rotation (backend_state now group ov r b ∷ backend_states now group ovs r bs)
            ≡ attach (overridden ov b) (in_rotation (backend_states now group ovs r bs))
      shown none = refl
      shown (some ov) = elim (Bool-cases ov.drained) [
        | inl q ↦ rw q refl
        | inr q ↦ elim (Option-cases ov.weight) [
          | inl n ↦ rw (q, n) refl
          | inr (w, n) ↦ rw (q, n) refl
        ]
      ]

  -- The backends that the console shows as not drained, with the weights it shows, are exactly
  -- those of the set that the group would be sent.
  pub group_state-in_rotation :
      (now : ℕ) (group : Text) (snap : Snapshot) (s : Server p) (r : Reports p)
      → in_rotation (group_state now group snap s r).backends ≡ (next_set group snap s).backends
  unfolding group_state next_set snapshot_to_backend_set
  group_state-in_rotation now group snap s r =
      backend_states-in_rotation now group (group_overrides group s.overrides) r snap
