-- ===== src/Dataplane/History.antt =====
-- Any sequence of calls of a backend list's methods, at times that do not fall. Every method takes
-- the list's lock or works on an atomic counter, so the calls of concurrent goroutines are taken
-- as one sequence.
use jbalance.Common.{ℕ, ◌≤◌, ◌≡◌, Bool, Option, Text, List, returned, inl, inr, subst}
use jbalance.Platform.{Platform, FloatOrder}
use jbalance.Proto.{BackendSet}
use jbalance.Dataplane.Entry.{OutlierConfig}
use jbalance.Dataplane.Ring.{RingPoint}
use jbalance.Dataplane.Backends.{
  BackendList, new_backend_list, update, set_health, set_outlier_config, record_result, release,
  pin_to, rate_limit_allow,
}
use jbalance.Dataplane.Backends.Invariant.{
  IsValid, IsValid-mono, new_backend_list-IsValid, update-IsValid, set_health-IsValid,
  set_outlier_config-IsValid, record_result-IsValid, release-IsValid, pin_to-IsValid,
  rate_limit_allow-IsValid,
}
use jbalance.Dataplane.Selection.{next_for_key, refresh}
use jbalance.Dataplane.Selection.Owner.{Sorts}
use jbalance.Dataplane.Selection.Picks.{Takes}
use jbalance.Dataplane.Selection.Outcome.{
  InRange, refresh-IsValid, Takes-IsValid, next_for_key-Serves,
}

module _ ⦃p : Platform⦄ where
  -- One call at time `now`. A selection may draw any numbers in range and meet any order of equal
  -- hashes.
  pub data Call (now : ℕ) (b : BackendList p) : BackendList p → Type 0 where
    updates : (set : BackendSet p) → Call now b (update now set b)
    sets_health : (a : Text) (h : Bool) → Call now b (set_health now a h b)
    configures : (cfg : OutlierConfig) → Call now b (set_outlier_config cfg b)
    records : (a : Text) (ok : Bool) → Call now b (record_result now a ok b)
    releases : (a : Text) → Call now b (release a b)
    pins : (a : Text) → Call now b (pin_to now a b).0
    limits : (client : Text) → Call now b (rate_limit_allow now client b).0
    selects :
        (intn : ℕ → ℕ → ℕ)
        → InRange intn
        → (sort : List RingPoint → List RingPoint) → Sorts sort
        → (key : Text) (b' : BackendList p) (a : Option Text)
        → next_for_key intn sort now key b ≡ returned (b', a)
        → Call now b b'

  -- What a new list may become by the time `now`.
  pub data Reached : ℕ → BackendList p → Type 0 where
    created : (now : ℕ) → Reached now (new_backend_list now)
    called :
        (earlier now : ℕ) (b b' : BackendList p)
        → Reached earlier b
        → earlier ≤ now
        → Call now b b'
        → Reached now b'

  module _ (o : FloatOrder p) where
    pub selects-IsValid :
        (now : ℕ) (b : BackendList p) (intn : ℕ → ℕ → ℕ)
        → InRange intn
        → (sort : List RingPoint → List RingPoint) → Sorts sort
        → (key : Text) (b' : BackendList p) (a : Option Text)
        → next_for_key intn sort now key b ≡ returned (b', a)
        → IsValid now b
        → IsValid now b'
    selects-IsValid now b intn i sort s key b' a q v =
        let r = refresh-IsValid now b v in
        elim (next_for_key-Serves o intn i sort s now key b v) [
          | inl (_, e) ↦ let f : refresh now b ≡ b' = cc (e, q) in subst (IsValid now) f r
          | inr t ↦ Takes-IsValid now (refresh now b) b' a r (subst (Takes now (refresh now b)) q t)
        ]

    pub Call-IsValid :
        {now : ℕ} {b b' : BackendList p} → Call now b b' → IsValid now b → IsValid now b'
    Call-IsValid {now} {b} (updates set) v = update-IsValid now set b v
    Call-IsValid {now} {b} (sets_health a h) v = set_health-IsValid now a h b v
    Call-IsValid {now} {b} (configures cfg) v = set_outlier_config-IsValid now cfg b v
    Call-IsValid {now} {b} (records a ok) v = record_result-IsValid now a ok b v
    Call-IsValid {now} {b} (releases a) v = release-IsValid now a b v
    Call-IsValid {now} {b} (pins a) v = pin_to-IsValid now a b v
    Call-IsValid {now} {b} (limits c) v = rate_limit_allow-IsValid now c b v
    Call-IsValid {now} {b} (selects intn i sort s key b' a q) v =
        selects-IsValid now b intn i sort s key b' a q v

    -- After any calls at times that do not fall, whoever makes them, the slots and the next expiry
    -- are those of the entries at some past time, every weight is positive and no count of
    -- outstanding requests is negative.
    pub Reached-IsValid : {now : ℕ} {b : BackendList p} → Reached now b → IsValid now b
    Reached-IsValid (created now) = new_backend_list-IsValid now
    Reached-IsValid (called earlier now b b' r l c) =
        Call-IsValid c (IsValid-mono (Reached-IsValid r) l)
