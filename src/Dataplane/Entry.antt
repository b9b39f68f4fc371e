-- ===== src/Dataplane/Entry.antt =====
-- internal/dataplane/backends.go: one backend of a group, and the loops over the entries that the
-- methods of Dataplane/Backends share. A time is a number of nanoseconds; `none` is the zero time.
pub mod Loops
use jbalance.Common.{
  ◌-ℤ◌, ◌+ℤ◌, ℕ, suc, ◌+◌, ◌*◌, Bool, true, false, not, ◌&&◌, Option, none, some, List, [], ◌∷◌,
  ◌++◌, ℤ, pos, pos_part, ◌+ℤ◌, ◌*ℤ◌, int64, leb_ℤ, ltb_ℤ, ltb, length, replicate, Text, bytes,
  text_instance, bool_eq, ◌==◌, Map, lookup, insert, if◌then◌else◌,
}
use jbalance.Proto.{Backend}
use jbalance.Dataplane.RateLimit.{second}

pub data Algorithm : Type 0 where
  round_robin least_connections random p2c consistent_hash : Algorithm

pub record BackendEntry : Type 0 where
  pub address : Text
  pub weight : ℤ  -- int32
  pub healthy : Bool
  pub active_conns : ℤ  -- atomic.Int64
  pub consec_errors : ℕ
  pub ejected_until : Option ℕ
  pub eject_count : ℕ

pub record OutlierConfig : Type 0 where
  pub enabled : Bool
  pub consecutive_errors : ℤ
  pub base_eject_duration : ℤ
  pub max_eject_duration : ℤ
  pub max_eject_percent : ℤ

unfoldable pub ejected : ℕ → BackendEntry → Bool
ejected now e = elim e.ejected_until [ none ↦ false | some t ↦ ltb now t ]

unfoldable pub selectable : ℕ → BackendEntry → Bool
unfolding ejected
selectable now e = e.healthy && not (ejected now e)

unfoldable pub with_defaults : OutlierConfig → OutlierConfig
with_defaults c = record c {
  consecutive_errors = if leb_ℤ c.consecutive_errors (pos 0) then pos 5 else c.consecutive_errors;
  base_eject_duration =
      if leb_ℤ c.base_eject_duration (pos 0) then pos (30 * second) else c.base_eject_duration;
  max_eject_duration =
      if leb_ℤ c.max_eject_duration (pos 0) then pos (300 * second) else c.max_eject_duration;
  max_eject_percent =
      if leb_ℤ c.max_eject_percent (pos 0)
      then pos 50
      else if ltb_ℤ (pos 100) c.max_eject_percent
      then pos 50
      else c.max_eject_percent;
}

unfoldable pub normalize_algorithm : Text → Algorithm
normalize_algorithm s =
    if s == bytes "least_connections"
    then least_connections
    else if s == bytes "random"
    then random
    else if s == bytes "p2c"
    then p2c
    else if s == bytes "consistent_hash"
    then consistent_hash
    else round_robin

-- The slots that one turn of the loop of rebuildSlotsLocked appends for entry `i`.
unfoldable pub entry_slots : ℕ → ℕ → BackendEntry → List ℕ
entry_slots now i e =
    if ejected now e then [] else if not e.healthy then [] else replicate (pos_part e.weight) i

unfoldable pub slots_from : ℕ → ℕ → List BackendEntry → List ℕ
unfolding entry_slots
slots_from now i [] = []
slots_from now i (e ∷ es) = entry_slots now i e ++ slots_from now (suc i) es

-- The earlier of two expiries, of which the first may not be set yet.
unfoldable pub earlier : Option ℕ → Option ℕ → Option ℕ
earlier none t = t
earlier (some s) none = some s
earlier (some s) (some t) = if ltb t s then some t else some s

unfoldable pub expiry_from : ℕ → Option ℕ → List BackendEntry → Option ℕ
unfolding earlier
expiry_from now next [] = next
expiry_from now next (e ∷ es) =
    expiry_from now (if ejected now e then earlier next e.ejected_until else next) es

-- A write through the pointer of the first entry with the address.
unfoldable pub update_first :
    Text → (BackendEntry → BackendEntry) → List BackendEntry → List BackendEntry
update_first a f [] = []
update_first a f (e ∷ es) = if e.address == a then f e ∷ es else e ∷ update_first a f es

unfoldable pub find_first : Text → List BackendEntry → Option BackendEntry
find_first a [] = none
find_first a (e ∷ es) = if e.address == a then some e else find_first a es

-- The loop of SetHealth, and whether it changed an entry.
unfoldable pub set_first : Text → Bool → List BackendEntry → List BackendEntry × Bool
set_first a h [] = ([], false)
set_first a h (e ∷ es) =
    let (rest, changed) = set_first a h es in
    if e.address == a && not (e.healthy == h)
    then (record e { healthy = h } ∷ es, true)
    else (e ∷ rest, changed)

unfoldable pub count_ejected : ℕ → List BackendEntry → ℕ
count_ejected now [] = 0
count_ejected now (e ∷ es) = (if ejected now e then 1 else 0) + count_ejected now es

unfoldable pub count_healthy : List BackendEntry → ℕ
count_healthy [] = 0
count_healthy (e ∷ es) = (if e.healthy then 1 else 0) + count_healthy es

-- prevEntries: a later entry of the same address wins.
unfoldable pub by_address : Map Text BackendEntry → List BackendEntry → Map Text BackendEntry
by_address m [] = m
by_address m (e ∷ es) = by_address (insert e.address e m) es

unfoldable pub fresh_entry : Map Text BackendEntry → Backend → BackendEntry
fresh_entry prev be = record {
  address = be.address;
  weight = if leb_ℤ be.weight (pos 0) then pos 1 else be.weight;
  healthy = elim (lookup be.address prev) [ none ↦ true | some e ↦ e.healthy ];
  active_conns = elim (lookup be.address prev) [ none ↦ pos 0 | some e ↦ e.active_conns ];
  consec_errors = 0;
  ejected_until = none;
  eject_count = 0;
}

-- The cooldown of the n-th ejection: n times the base, in int64, capped.
unfoldable pub eject_duration : OutlierConfig → ℕ → ℤ
eject_duration c n =
    let dur = int64 (pos n *ℤ c.base_eject_duration) in
    if ltb_ℤ c.max_eject_duration dur then c.max_eject_duration else dur

-- Whether one more ejection would pass the allowed share of the group.
unfoldable pub over_share : ℕ → OutlierConfig → List BackendEntry → Bool
unfolding count_ejected
over_share now c es =
    ltb 0 (length es)
    && ltb_ℤ (c.max_eject_percent *ℤ pos (length es)) (pos ((count_ejected now es + 1) * 100))

unfoldable pub eject : ℕ → OutlierConfig → BackendEntry → BackendEntry
unfolding eject_duration
eject now c e = record e {
  eject_count = e.eject_count + 1;
  ejected_until = some (pos_part (pos now +ℤ eject_duration c (e.eject_count + 1)));
  consec_errors = 0;
}

-- HealthSnapshot's view of an entry.
abbrev pub address_health : BackendEntry → Text × Bool
address_health e = (e.address, e.healthy)

unfoldable pub release_entry : BackendEntry → BackendEntry
release_entry e =
    if leb_ℤ e.active_conns (pos 0) then e else record e { active_conns = e.active_conns -ℤ pos 1 }

abbrev pub acquire_entry : BackendEntry → BackendEntry
acquire_entry e = record e { active_conns = e.active_conns +ℤ pos 1 }
