-- ===== src/ControlPlane/Server.antt =====
-- internal/controlplane/server.go: the backend sets that the control plane publishes. The provider
-- and the clock are outside; a failed Snapshot is `none`. A subscriber's channel is known by a
-- number and holds at most 4 sets; the order of a Go map is that of the list.
pub mod Snapshot
pub mod Equality
pub mod Publishing
use jbalance.Common.{
  ℕ, ◌/◌, ◌%◌, ◌*◌, ◌^◌, ◌-◌, Bool, true, false, not, ◌&&◌, Option, none, some, List, [], ◌∷◌, ◌++◌,
  map, ℤ, pos, negsuc, ◌+ℤ◌, int64, eqb_ℤ, ltb_ℤ, length, Text, text_instance, ◌==◌, nat_eq, Map,
  lookup, insert, delete, ltb, if◌then◌else◌, pos_part,
}
use jbalance.Platform.{Platform}
use jbalance.Proto.{Backend, BackendSet}
use jbalance.Dataplane.RateLimit.{second, f_zero}
use jbalance.ControlPlane.Stores.{
  Override, Overrides, StickyConfig, RateLimitConfig, group_overrides, set_override, clear_override,
  get_algorithm, set_algorithm, get_sticky, get_rate_limit, set_sticky, set_rate_limit,
  effective_cookie_name, effective_ttl, effective_rps, effective_burst,
}

-- The backends of a pool.Snapshot.
abbrev pub Snapshot : Type 0
Snapshot = List Backend

-- The weight sent for a backend, if it is sent.
unfoldable pub overridden : Option Override → Backend → Option Backend
overridden none b = some b
overridden (some ov) b =
    if ov.drained
    then none
    else elim ov.weight [ none ↦ some b | some w ↦ some (record b { weight = w }) ]

abbrev pub attach : Option Backend → List Backend → List Backend
attach none rest = rest
attach (some be) rest = be ∷ rest

unfoldable pub sent_backends : Map Text Override → Snapshot → List Backend
unfolding overridden
sent_backends ovs [] = []
sent_backends ovs (b ∷ bs) = attach (overridden (lookup b.address ovs) b) (sent_backends ovs bs)

-- `count`: a later backend of the same address wins.
unfoldable pub count_weights : Map Text ℤ → List Backend → Map Text ℤ
count_weights m [] = m
count_weights m (b ∷ bs) = count_weights (insert b.address b.weight m) bs

-- The second loop, which takes what it meets out of `count`, and the test that follows it.
unfoldable pub used_up : Map Text ℤ → List Backend → Bool
used_up m [] = nat_eq.same (length m) 0
used_up m (b ∷ bs) =
    let rest = used_up (delete b.address m) bs in
    elim (lookup b.address m) [
      | none ↦ false
      | some w ↦ if not (eqb_ℤ w b.weight) then false else rest
    ]

module _ ⦃p : Platform⦄ where
  -- time.Duration.Seconds of a duration that is not negative.
  abbrev pub seconds_of : ℕ → p.Float
  seconds_of d =
      p.f_add (p.f_int (pos (d / second)))
        (p.f_div (p.f_int (pos (d % second))) (p.f_int (pos second)))

  unfoldable pub snapshot_to_backend_set :
      Text → Snapshot → Map Text Override → Text → StickyConfig → RateLimitConfig p → BackendSet p
  unfolding sent_backends effective_cookie_name effective_ttl effective_rps effective_burst
  snapshot_to_backend_set group snap ovs algorithm sticky limit = record {
    group = group;
    backends = sent_backends ovs snap;
    version = pos 0;
    algorithm = algorithm;
    sticky = sticky.enabled;
    sticky_cookie_name = effective_cookie_name sticky;
    sticky_ttl_seconds = p.f_trunc (seconds_of (pos_part (effective_ttl sticky)));
    rate_limit_rps = if limit.enabled then effective_rps limit else f_zero;
    rate_limit_burst =
        if limit.enabled
        then (if ltb_ℤ (pos (2 ^ 31 - 1)) (effective_burst limit)
            then pos (2 ^ 31 - 1)
            else effective_burst limit)
        else pos 0;
  }

  unfoldable pub backend_sets_equal : Option (BackendSet p) → Option (BackendSet p) → Bool
  unfolding count_weights used_up
  backend_sets_equal none none = true
  backend_sets_equal none (some b) = false
  backend_sets_equal (some a) none = false
  backend_sets_equal (some a) (some b) =
      if not (nat_eq.same (length a.backends) (length b.backends))
      then false
      else used_up (count_weights [] a.backends) b.backends

-- The settings, the last set of each group, and the channels of its subscribers with what waits
-- in them.
pub record Server (p : Platform) : Type 0 where
  pub overrides : Overrides
  pub algorithms : Map Text Text
  pub sticky : Map Text StickyConfig
  pub rate_limits : Map Text (RateLimitConfig p)
  pub last : Map Text (BackendSet p)
  pub subs : Map Text (Map ℕ (List (BackendSet p)))

module _ ⦃p : Platform⦄ where
  unfoldable pub new_server : Server p
  new_server = record {
    overrides = [];
    algorithms = [];
    sticky = [];
    rate_limits = [];
    last = [];
    subs = [];
  }

  -- The set that the settings make of a snapshot.
  unfoldable pub next_set : Text → Snapshot → Server p → BackendSet p
  unfolding snapshot_to_backend_set group_overrides get_algorithm get_sticky get_rate_limit
  next_set group snap s =
      snapshot_to_backend_set group snap (group_overrides group s.overrides)
        (get_algorithm group s.algorithms) (get_sticky group s.sticky)
        (get_rate_limit group s.rate_limits)

  unfoldable pub next_version : Option (BackendSet p) → ℤ
  next_version none = pos 1
  next_version (some prev) = int64 (prev.version +ℤ pos 1)

  -- `select { case ch <- next: default: }`
  unfoldable pub offer : BackendSet p → List (BackendSet p) → List (BackendSet p)
  offer set waiting = if ltb (length waiting) 4 then waiting ++ set ∷ [] else waiting

  unfoldable pub offer_all :
      BackendSet p → Map ℕ (List (BackendSet p)) → Map ℕ (List (BackendSet p))
  unfolding offer
  offer_all set [] = []
  offer_all set ((ch, waiting) ∷ rest) = (ch, offer set waiting) ∷ offer_all set rest

  -- A missing group reads as a nil map.
  abbrev pub channels : Option (Map ℕ (List (BackendSet p))) → Map ℕ (List (BackendSet p))
  channels none = []
  channels (some chans) = chans

  -- s.subs[group]
  unfoldable pub group_subs : Text → Server p → Map ℕ (List (BackendSet p))
  group_subs group s = channels (lookup group s.subs)

  -- The loop over s.subs[group].
  unfoldable pub offer_group :
      BackendSet p
      → Text
      → Map Text (Map ℕ (List (BackendSet p)))
      → Map Text (Map ℕ (List (BackendSet p)))
  unfolding offer_all
  offer_group set group subs = elim (lookup group subs) [
    | none ↦ subs
    | some chans ↦ insert group (offer_all set chans) subs
  ]

  -- What both ways of publishing do under the lock.
  unfoldable pub publish : Text → BackendSet p → Server p → Server p
  unfolding next_version offer_group
  publish group next s =
      let set : BackendSet p = record next { version = next_version (lookup group s.last) } in
      record s { last = insert group set s.last; subs = offer_group set group s.subs }

  unfoldable pub force_republish : Text → Option Snapshot → Server p → Server p
  unfolding publish next_set
  force_republish group none s = s
  force_republish group (some snap) s = publish group (next_set group snap s) s

  unfoldable pub publish_if_changed : Text → Snapshot → Server p → Server p
  unfolding publish next_set backend_sets_equal
  publish_if_changed group snap s =
      let next = next_set group snap s in
      if backend_sets_equal (lookup group s.last) (some next) then s else publish group next s

  -- The groups of the provider with their snapshots; `none` for a failed Groups.
  unfoldable pub reconcile : Option (List (Text × Option Snapshot)) → Server p → Server p
  unfolding publish_if_changed
  reconcile none s = s
  reconcile (some []) s = s
  reconcile (some ((group, snap) ∷ rest)) s =
      reconcile (some rest) (elim snap [ none ↦ s | some bs ↦ publish_if_changed group bs s ])

  unfoldable pub subscribe : Text → ℕ → Server p → Server p
  unfolding group_subs
  subscribe group ch s = record s { subs = insert group (insert ch [] (group_subs group s)) s.subs }

  unfoldable pub unsubscribe : Text → ℕ → Server p → Server p
  unsubscribe group ch s = record s {
    subs = elim (lookup group s.subs) [
      | none ↦ s.subs
      | some chans ↦ insert group (delete ch chans) s.subs
    ];
  }

  -- The setters. `saved` says whether the store's file was written: if not, the error is returned
  -- before anything is published.
  unfoldable pub server_set_override :
      Bool → Text → Text → Override → Option Snapshot → Server p → Server p
  unfolding set_override force_republish
  server_set_override saved group address ov snap s =
      let changed : Server p = record s { overrides = set_override group address ov s.overrides } in
      if saved then force_republish group snap changed else changed

  unfoldable pub server_clear_override : Bool → Text → Text → Option Snapshot → Server p → Server p
  unfolding clear_override force_republish
  server_clear_override saved group address snap s =
      let changed : Server p = record s { overrides = clear_override group address s.overrides } in
      if saved then force_republish group snap changed else changed

  unfoldable pub server_set_algorithm : Bool → Text → Text → Option Snapshot → Server p → Server p
  unfolding set_algorithm force_republish
  server_set_algorithm saved group a snap s = elim (set_algorithm group a s.algorithms) [
    | none ↦ s
    | some algorithms ↦
        let changed : Server p = record s { algorithms = algorithms } in
        if saved then force_republish group snap changed else changed
  ]

  unfoldable pub server_set_sticky :
      Bool → Text → StickyConfig → Option Snapshot → Server p → Server p
  unfolding set_sticky force_republish
  server_set_sticky saved group cfg snap s =
      let changed : Server p = record s { sticky = set_sticky group cfg s.sticky } in
      if saved then force_republish group snap changed else changed

  unfoldable pub server_set_rate_limit :
      Bool → Text → RateLimitConfig p → Option Snapshot → Server p → Server p
  unfolding set_rate_limit force_republish
  server_set_rate_limit saved group cfg snap s =
      let changed : Server p = record s { rate_limits = set_rate_limit group cfg s.rate_limits } in
      if saved then force_republish group snap changed else changed
