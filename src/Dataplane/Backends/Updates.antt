-- ===== src/Dataplane/Backends/Updates.antt =====
-- What Update makes of the sets that the control plane's stream delivers.
use mathlib.Core.List.{Memᴰ}
use mathlib.Core.Option
use jbalance.Common.{
  ℕ, ◌≡◌, refl, ◌∙◌, ap, true, false, not, Option, none, some, List, [], ◌∷◌, map, arith, ℤ, pos,
  ◌≤ℤ◌, leb_ℤ, eqb_ℤ, ltb_ℤ, All, Text, Map, lookup, insert, lookup-insert, text_instance,
  text_eq_iff, ◌==◌, if◌then◌else◌, Bool-cases, text_eq, ◌&&◌, ◌⊎◌, inl, inr, ◌<ℤ◌,
}
use jbalance.Platform.{Platform}
use jbalance.Proto.{Backend, BackendSet}
use jbalance.Dataplane.Entry.{
  BackendEntry, find_first, by_address, fresh_entry, normalize_algorithm,
}
use jbalance.Dataplane.Backends.{
  BackendList, new_backend_list, replaced, rebuild_slots_locked, update, addresses,
}

-- No two entries have one address.
abbrev pub Unique : List BackendEntry → Type 0
Unique [] = Unit {0}
Unique (e ∷ es) = (find_first e.address es ≡ none) × Unique es

or_else : Option BackendEntry → Option BackendEntry → Option BackendEntry
or_else none o = o
or_else (some e) o = some e

lookup-by_address-eq :
    (a : Text) (m : Map Text BackendEntry) (es : List BackendEntry)
    → Unique es
    → lookup a (by_address m es) ≡ or_else (find_first a es) (lookup a m)
unfolding by_address find_first or_else
lookup-by_address-eq a m [] u = refl
lookup-by_address-eq a m (e ∷ es) u = ground (
  arith,
  u.0,
  text_eq_iff e.address a,
  lookup-by_address-eq a (insert e.address e m) es u.1,
  lookup-insert e.address a e m,
)

abbrev pub find_backend : Text → List Backend → Option Backend
find_backend a [] = none
find_backend a (be ∷ bs) = if be.address == a then some be else find_backend a bs

-- The entry of a backend that the list knew as `old`.
pub carry : Option BackendEntry → Backend → BackendEntry
carry old be = record {
  address = be.address;
  weight = if ltb_ℤ (pos 0) be.weight then be.weight else pos 1;
  healthy = elim old [ none ↦ true | some e ↦ e.healthy ];
  active_conns = elim old [ none ↦ pos 0 | some e ↦ e.active_conns ];
  consec_errors = 0;
  ejected_until = none;
  eject_count = 0;
}

fresh_entry-carry :
    (es : List BackendEntry) (be : Backend)
    → Unique es
    → fresh_entry (by_address [] es) be ≡ carry (find_first be.address es) be
unfolding fresh_entry carry or_else lookup
fresh_entry-carry es be u = ground (arith, lookup-by_address-eq be.address [] es u)

find_first-fresh :
    (a : Text) (es : List BackendEntry) (bs : List Backend)
    → Unique es
    → find_first a (map (fresh_entry (by_address [] es)) bs)
      ≡ Option.map (carry (find_first a es)) (find_backend a bs)
unfolding find_first fresh_entry
find_first-fresh a es [] u = refl
find_first-fresh a es (be ∷ bs) u =
    let e = fresh_entry-carry es be u in
    let same : (fresh_entry (by_address [] es) be).address ≡ be.address =
      unfold fresh_entry in refl in
    elim (Bool-cases (text_eq be.address a)) [
      | inl h ↦
          let q : be.address ≡ a = (text_eq_iff be.address a).0 h in
          rw (same, h) (ap some (e ∙ ap (λ x. carry (find_first x es) be) q))
      | inr h ↦ rw (same, h) (find_first-fresh a es bs u)
    ]

newer_test : (v w : ℤ) → w <ℤ v → (leb_ℤ v w && not (eqb_ℤ w (pos 0))) ≡ false
newer_test v w h = ground arith

guard_held :
    (v w held : ℤ) → w ≡ held → pos 1 ≤ℤ held → (leb_ℤ v w && not (eqb_ℤ w (pos 0))) ≡ leb_ℤ v w
guard_held v w held e h = rw e (ground arith)

stale_le : (v w held : ℤ) → w ≡ held → leb_ℤ v w ≡ true → v ≤ℤ held
stale_le v w held e q = rw (← e) (ground arith)

fresh_le : (v w held : ℤ) → w ≡ held → leb_ℤ v w ≡ false → held ≤ℤ v
fresh_le v w held e q = rw (← e) (ground arith)

skip_second {ℓ} : {A : Type ℓ} {w x y : A} {xs : List A} → Memᴰ w (x ∷ xs) → Memᴰ w (x ∷ y ∷ xs)
skip_second (Memᴰ.head e) = Memᴰ.head e
skip_second (Memᴰ.tail m) = Memᴰ.tail (Memᴰ.tail m)

module _ ⦃p : Platform⦄ where
  pub update-newer :
      (now : ℕ) (set : BackendSet p) (b : BackendList p)
      → b.version <ℤ set.version
      → update now set b ≡ rebuild_slots_locked now (replaced set b)
  unfolding update
  update-newer now set b h = rw (newer_test set.version b.version h)

  -- A newer set that arrives at a list with unique addresses replaces the group: the first backend
  -- of each address keeps the health and the count of requests it had, a new one is healthy and
  -- idle, and an address that is not in the set is gone.
  pub update-carries :
      (now : ℕ) (set : BackendSet p) (b : BackendList p) (a : Text)
      → Unique b.entries
      → b.version <ℤ set.version
      → find_first a (update now set b).entries
        ≡ Option.map (carry (find_first a b.entries)) (find_backend a set.backends)
  unfolding replaced rebuild_slots_locked
  update-carries now set b a u h =
      ap (λ (c : BackendList p). find_first a c.entries) (update-newer now set b h)
      ∙ find_first-fresh a b.entries set.backends u

  -- The list holds what the set says.
  pub record Reflects (set : BackendSet p) (b : BackendList p) : Type 0 where
    pub version : b.version ≡ set.version
    pub addresses_eq : addresses b ≡ map (λ be. be.address) set.backends
    pub algorithm : b.algorithm ≡ normalize_algorithm set.algorithm
    pub sticky : b.sticky.enabled ≡ set.sticky
    pub cookie : b.sticky.cookie_name ≡ set.sticky_cookie_name

  -- Sets that arrive one after the other, each at a time.
  unfoldable pub deliver : List (ℕ × BackendSet p) → BackendList p → BackendList p
  deliver [] b = b
  deliver ((t, set) ∷ rest) b = deliver rest (update t set b)

  map-fresh_address :
      (prev : Map Text BackendEntry) (bs : List Backend)
      → map (λ (e : BackendEntry). e.address) (map (fresh_entry prev) bs)
        ≡ map (λ (be : Backend). be.address) bs
  unfolding fresh_entry
  map-fresh_address prev [] = refl
  map-fresh_address prev (be ∷ bs) = ap (◌∷◌ be.address) (map-fresh_address prev bs)

  pub rebuilt-Reflects :
      (now : ℕ) (set : BackendSet p) (b : BackendList p)
      → Reflects set (rebuild_slots_locked now (replaced set b))
  unfolding replaced rebuild_slots_locked addresses
  rebuilt-Reflects now set b = record {
    version = refl;
    addresses_eq = map-fresh_address (by_address [] b.entries) set.backends;
    algorithm = refl;
    sticky = refl;
    cookie = refl;
  }

  -- Of the versions delivered `set` has the highest, and the list holds it.
  abbrev pub HoldsLatest : List (BackendSet p) → BackendList p → Type 0
  HoldsLatest sets b =
      (set : BackendSet p) × (Memᴰ set sets)
      × (Reflects set b)
      × (All (λ r. r.version ≤ℤ set.version) sets)

  abbrev pub received : List (ℕ × BackendSet p) → List (BackendSet p)
  received [] = []
  received ((t, set) ∷ rest) = set ∷ received rest

  update-cases :
      (t : ℕ) (set held : BackendSet p) (b : BackendList p)
      → Reflects held b
      → pos 1 ≤ℤ held.version
      → ((set.version ≤ℤ held.version) × Reflects held (update t set b))
        ⊎ ((held.version ≤ℤ set.version) × Reflects set (update t set b))
  unfolding update
  update-cases t set held b r h = elim (Bool-cases (leb_ℤ set.version b.version)) [
    | inl q ↦ inl (
      stale_le set.version b.version held.version r.version q,
      rw (guard_held set.version b.version held.version r.version h, q) r,
    )
    | inr q ↦ inr (
      fresh_le set.version b.version held.version r.version q,
      rw (guard_held set.version b.version held.version r.version h, q) (rebuilt-Reflects t set b),
    )
  ]

  deliver-from :
      (rs : List (ℕ × BackendSet p)) (held : BackendSet p) (b : BackendList p)
      → Reflects held b
      → pos 1 ≤ℤ held.version
      → HoldsLatest (held ∷ received rs) (deliver rs b)
  unfolding deliver
  deliver-from [] held b r h = (held, Memᴰ.head refl, r, (omega arith, tt))
  deliver-from ((t, set) ∷ rs) held b r h = elim (update-cases t set held b r h) [
    | inl (l, r') ↦
        let (w, m, r'', above) = deliver-from rs held (update t set b) r' h in
        (w, skip_second m, r'', (above.0, (omega (arith, l, above.0), above.1)))
    | inr (l, r') ↦
        let (w, m, r'', above) = deliver-from rs set (update t set b) r' (omega (arith, h, l)) in
        (w, Memᴰ.tail m, r'', (omega (arith, l, above.0), above))
  ]

  -- Whatever the order and repetition in which sets arrive at a new list, if the first of them has
  -- a version of at least 1, the list ends with the highest of their versions, and with the
  -- addresses, the algorithm, the affinity switch and the cookie name of a delivered set of that
  -- version.
  pub deliver-HoldsLatest :
      (now t : ℕ) (set : BackendSet p) (rs : List (ℕ × BackendSet p))
      → pos 1 ≤ℤ set.version
      → HoldsLatest (set ∷ received rs) (deliver ((t, set) ∷ rs) (new_backend_list now))
  unfolding deliver
  deliver-HoldsLatest now t set rs h =
      let first =
        update-newer t set (new_backend_list now) (unfold new_backend_list in omega (arith, h)) in
      deliver-from rs set (update t set (new_backend_list now))
        (rw first (rebuilt-Reflects t set (new_backend_list now))) h
