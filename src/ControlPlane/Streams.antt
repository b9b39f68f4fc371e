-- ===== src/ControlPlane/Streams.antt =====
-- internal/controlplane/server.go: StreamBackends, as the steps that its goroutines take between
-- the publications. A stream that runs is known by the number of its channel.
pub mod Versions
pub mod Delivery
use jbalance.Common.{
  ℕ, zero, suc, ◌+◌, ◌≡◌, Bool, true, false, Option, none, some, List, [], ◌∷◌, ◌++◌, Text,
  text_instance, nat_eq, Map, lookup, insert, delete,
}
use jbalance.Platform.{Platform}
use jbalance.Proto.{BackendSet}
use jbalance.ControlPlane.Stores.{Overrides, StickyConfig, RateLimitConfig}
use jbalance.ControlPlane.Server.{
  Server, Snapshot, new_server, subscribe, unsubscribe, group_subs, force_republish,
  publish_if_changed, backend_sets_equal, next_set,
}
use jbalance.ControlPlane.Reports.{
  InstanceState, mark_instance_connected, mark_instance_disconnected,
}

-- A call of StreamBackends, with the sets that it has sent, oldest first.
pub record Stream (p : Platform) : Type 0 where
  pub group : Text
  pub instance_id : Text
  pub sent : List (BackendSet p)

pub record World (p : Platform) : Type 0 where
  pub server : Server p
  pub instances : Map Text InstanceState
  pub streams : Map ℕ (Stream p)

module _ ⦃p : Platform⦄ where
  -- Subscription and the mark, before anything is sent.
  unfoldable pub open_stream : ℕ → ℕ → Text → Text → World p → World p
  unfolding subscribe mark_instance_connected
  open_stream now ch group id w = record {
    server = subscribe group ch w.server;
    instances = mark_instance_connected now id group w.instances;
    streams = insert ch (record { group = group; instance_id = id; sent = [] }) w.streams;
  }

  -- `current := s.last[group]`, and Send unless it is nil.
  unfoldable pub greet : Server p → Stream p → Stream p
  greet s st = elim (lookup st.group s.last) [
    | none ↦ st
    | some current ↦ record st { sent = st.sent ++ current ∷ [] }
  ]

  -- What is left of the server when the first set of a channel's content is taken.
  abbrev pub take_first :
      ℕ → Text → Server p → Option (List (BackendSet p)) → Option (Server p × BackendSet p)
  take_first ch group s none = none
  take_first ch group s (some []) = none
  take_first ch group s (some (update ∷ rest)) =
      some (record s { subs = insert group (insert ch rest (group_subs group s)) s.subs }, update)

  -- `case update := <-ch`, if something waits.
  unfoldable pub take_update : ℕ → Text → Server p → Option (Server p × BackendSet p)
  unfolding group_subs
  take_update ch group s = take_first ch group s (lookup ch (group_subs group s))

  -- The deferred calls, the last one first.
  unfoldable pub close_stream : ℕ → Stream p → World p → World p
  unfolding unsubscribe mark_instance_disconnected
  close_stream ch st w = record {
    server = unsubscribe st.group ch w.server;
    instances = mark_instance_disconnected st.instance_id w.instances;
    streams = delete ch w.streams;
  }

  -- The loop of a stream while something waits, for at most `fuel` rounds: what it sends.
  unfoldable pub take_all : ℕ → ℕ → Text → Server p → List (BackendSet p) × Server p
  unfolding take_update
  take_all zero ch group s = ([], s)
  take_all (suc fuel) ch group s = elim (take_update ch group s) [
    | none ↦ ([], s)
    | some (rest, update) ↦ let (updates, t) = take_all fuel ch group rest in (update ∷ updates, t)
  ]

  -- One step of a stream, of a check or a republication, or of a setter's change before its
  -- publication; `n` counts the sets that were published.
  pub data Step (n : ℕ) (w : World p) : ℕ → World p → Type 0 where
    opens :
        (now ch : ℕ) (group id : Text)
        → lookup ch w.streams ≡ none
        → Step n w n (open_stream now ch group id w)
    greets :
        (ch : ℕ) (st : Stream p)
        → lookup ch w.streams ≡ some st
        → Step n w n (record w { streams = insert ch (greet w.server st) w.streams })
    takes :
        (ch : ℕ) (st : Stream p) (s : Server p) (update : BackendSet p)
        → lookup ch w.streams ≡ some st
        → take_update ch st.group w.server ≡ some (s, update)
        → Step n w n (record w {
          server = s;
          streams = insert ch (record st { sent = st.sent ++ update ∷ [] }) w.streams;
        })
    closes :
        (ch : ℕ) (st : Stream p) → lookup ch w.streams ≡ some st → Step n w n (close_stream ch st w)
    configures :
        (overrides : Overrides) (algorithms : Map Text Text) (sticky : Map Text StickyConfig)
        (rate_limits : Map Text (RateLimitConfig p))
        → Step n w n (record w {
          server = record w.server {
            overrides = overrides;
            algorithms = algorithms;
            sticky = sticky;
            rate_limits = rate_limits;
          };
        })
    republishes :
        (group : Text) (snap : Snapshot)
        → Step n w (n + 1) (record w { server = force_republish group (some snap) w.server })
    cannot_list :
        (group : Text) → Step n w n (record w { server = force_republish group none w.server })
    finds_changed :
        (group : Text) (snap : Snapshot)
        → backend_sets_equal (lookup group w.server.last) (some (next_set group snap w.server))
          ≡ false
        → Step n w (n + 1) (record w { server = publish_if_changed group snap w.server })
    finds_same :
        (group : Text) (snap : Snapshot)
        → backend_sets_equal (lookup group w.server.last) (some (next_set group snap w.server))
          ≡ true
        → Step n w n (record w { server = publish_if_changed group snap w.server })

  -- What a new control plane may become after `n` sets were published.
  pub data Steps : ℕ → World p → Type 0 where
    starts : Steps 0 (record { server = new_server; instances = []; streams = [] })
    steps : (n m : ℕ) (w v : World p) → Steps n w → Step n w m v → Steps m v
