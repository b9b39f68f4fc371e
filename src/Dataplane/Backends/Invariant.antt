-- ===== src/Dataplane/Backends/Invariant.antt =====
-- What holds of a backend list between two calls.
use jbalance.Common.{
  ℕ, ◌+◌, ◌≤◌, ◌≡◌, refl, sym, ◌∙◌, Bool, none, some, List, [], ◌∷◌, map, arith, pos, ◌-ℤ◌, ◌≤ℤ◌,
  All, Text, Map, lookup, int_laws, text_instance, Bool-cases, Option-cases, inl, inr, bool_eq,
}
use jbalance.Platform.{Platform}
use jbalance.Proto.{Backend, BackendSet}
use jbalance.Dataplane.Entry.{
  release_entry, acquire_entry, BackendEntry, OutlierConfig, slots_from, expiry_from, update_first,
  find_first, set_first, by_address, fresh_entry, eject,
}
use jbalance.Dataplane.Entry.Loops.{
  SameViews, Keeps, SameViews-update_first, slots_from-SameViews, expiry_from-SameViews,
  update_first-found, All-update_first, All-set_first, All-find_first, lookup-by_address,
}
use jbalance.Dataplane.Backends.{
  BackendList, new_backend_list, rebuild_slots_locked, replaced, update, set_health,
  set_outlier_config, record_error, record_result, release, pin_to, rate_limit_allow,
}

-- A weight in force is positive, and no count of outstanding requests is negative.
abbrev pub IsSound : BackendEntry → Type 0
IsSound e = (pos 1 ≤ℤ e.weight) × (pos 0 ≤ℤ e.active_conns)

module _ ⦃p : Platform⦄ where
  -- The slots and the next expiry are those of the entries at time `t`.
  abbrev pub BuiltAt : ℕ → BackendList p → Type 0
  BuiltAt t b =
      (b.slots ≡ slots_from t 0 b.entries) × (b.next_eject_expiry ≡ expiry_from t none b.entries)

  -- The list as it may stand at time `now`.
  pub record IsValid (now : ℕ) (b : BackendList p) : Type 0 where
    pub built_at : ℕ
    pub past : built_at ≤ now
    pub built : BuiltAt built_at b
    pub sound : All IsSound b.entries

  pub BuiltAt-SameViews :
      (t : ℕ) (b : BackendList p) (es : List BackendEntry)
      → SameViews es b.entries
      → BuiltAt t b
      → BuiltAt t (record b { entries = es })
  BuiltAt-SameViews t b es k (s, x) = (
    s ∙ sym (slots_from-SameViews t 0 es b.entries k),
    x ∙ sym (expiry_from-SameViews t none es b.entries k),
  )

  -- Time passes.
  pub IsValid-mono : {s t : ℕ} {b : BackendList p} → IsValid s b → s ≤ t → IsValid t b
  IsValid-mono v h = record {
    built_at = v.built_at;
    past = omega arith;
    built = v.built;
    sound = v.sound;
  }

  pub rebuild-IsValid :
      (now : ℕ) (b : BackendList p)
      → All IsSound b.entries
      → IsValid now (rebuild_slots_locked now b)
  unfolding rebuild_slots_locked
  rebuild-IsValid now b h = record {
    built_at = now;
    past = omega arith;
    built = (refl, refl);
    sound = h;
  }

  pub same-IsValid :
      {now : ℕ} {b : BackendList p} (es : List BackendEntry)
      → IsValid now b
      → SameViews es b.entries
      → All IsSound es
      → IsValid now (record b { entries = es })
  same-IsValid {b = b} es v k h = record {
    built_at = v.built_at;
    past = v.past;
    built = BuiltAt-SameViews v.built_at b es k v.built;
    sound = h;
  }

  pub update_first-IsValid :
      {now : ℕ} (b : BackendList p) (a : Text) (g : BackendEntry → BackendEntry)
      → IsValid now b
      → Keeps g
      → ((e : BackendEntry) → IsSound e → IsSound (g e))
      → IsValid now (record b { entries = update_first a g b.entries })
  update_first-IsValid b a g v k h =
      same-IsValid (update_first a g b.entries) v (SameViews-update_first a g b.entries k)
        (All-update_first IsSound a g b.entries h v.sound)

  pub new_backend_list-IsValid : (now : ℕ) → IsValid now (new_backend_list now)
  unfolding new_backend_list slots_from expiry_from
  new_backend_list-IsValid now = record {
    built_at = now;
    past = omega arith;
    built = (refl, refl);
    sound = tt;
  }

  fresh_entry-IsSound :
      (prev : Map Text BackendEntry) (be : Backend)
      → ((e : BackendEntry) → lookup be.address prev ≡ some e → IsSound e)
      → IsSound (fresh_entry prev be)
  unfolding fresh_entry
  fresh_entry-IsSound prev be h = elim (Option-cases (lookup be.address prev)) [
    | inl q ↦ ground arith
    | inr (e, q) ↦ ground (arith, h e q)
  ]

  fresh_entries-IsSound :
      (prev : Map Text BackendEntry) (bs : List Backend)
      → ((a : Text) (e : BackendEntry) → lookup a prev ≡ some e → IsSound e)
      → All IsSound (map (fresh_entry prev) bs)
  fresh_entries-IsSound prev [] h = tt
  fresh_entries-IsSound prev (be ∷ bs) h =
      (fresh_entry-IsSound prev be (h be.address), fresh_entries-IsSound prev bs h)

  replaced-IsSound :
      (set : BackendSet p) (b : BackendList p)
      → All IsSound b.entries
      → All IsSound (replaced set b).entries
  unfolding replaced lookup
  replaced-IsSound set b h =
      fresh_entries-IsSound (by_address [] b.entries) set.backends
        λ a e q. lookup-by_address IsSound a [] b.entries h (λ f r. cc) e q

  pub update-IsValid :
      (now : ℕ) (set : BackendSet p) (b : BackendList p)
      → IsValid now b
      → IsValid now (update now set b)
  unfolding update
  update-IsValid now set b v =
      ground (arith, v, rebuild-IsValid now (replaced set b) (replaced-IsSound set b v.sound))

  pub set_health-IsValid :
      (now : ℕ) (a : Text) (h : Bool) (b : BackendList p)
      → IsValid now b
      → IsValid now (set_health now a h b)
  unfolding set_health
  set_health-IsValid now a h b v =
      let sound = All-set_first IsSound a h b.entries (λ e k. k) v.sound in
      let rebuilt =
        rebuild-IsValid now (record b { entries = (set_first a h b.entries).0 }) sound in
      elim (Bool-cases (set_first a h b.entries).1) [ inl c ↦ rw c rebuilt | inr c ↦ rw c v ]

  pub set_outlier_config-IsValid :
      (now : ℕ) (cfg : OutlierConfig) (b : BackendList p)
      → IsValid now b
      → IsValid now (set_outlier_config cfg b)
  unfolding set_outlier_config
  set_outlier_config-IsValid now cfg b v = record {
    built_at = v.built_at;
    past = v.past;
    built = v.built;
    sound = v.sound;
  }

  record_error-IsValid :
      (now : ℕ) (a : Text) (e : BackendEntry) (b : BackendList p)
      → find_first a b.entries ≡ some e
      → IsValid now b
      → IsValid now (record_error now a e b)
  unfolding record_error eject
  record_error-IsValid now a e b q v =
      let bump = λ (f : BackendEntry). record f { consec_errors = f.consec_errors + 1 } in
      let counted : IsValid now (record b { entries = update_first a (λ _. bump e) b.entries }) =
        rw (update_first-found a bump e b.entries q)
          (update_first-IsValid b a bump v (λ f. (refl, refl, refl)) (λ f k. k)) in
      let found : IsSound e = All-find_first IsSound a b.entries v.sound q in
      let out = eject now b.outlier (bump e) in
      let ejects =
        rebuild-IsValid now (record b { entries = update_first a (λ _. out) b.entries })
          (All-update_first IsSound a (λ _. out) b.entries (λ f k. found) v.sound) in
      ground (arith, counted, ejects)

  pub record_result-IsValid :
      (now : ℕ) (a : Text) (success : Bool) (b : BackendList p)
      → IsValid now b
      → IsValid now (record_result now a success b)
  unfolding record_result
  record_result-IsValid now a success b v =
      let reset =
        update_first-IsValid b a (λ e. record e { consec_errors = 0 }) v (λ f. (refl, refl, refl))
          (λ f k. k) in
      elim (Option-cases (find_first a b.entries)) [
        | inl q ↦ ground (arith, v)
        | inr (e, q) ↦ ground (arith, v, reset, record_error-IsValid now a e b q v)
      ]

  release_entry-IsSound : (e : BackendEntry) → IsSound e → IsSound (release_entry e)
  unfolding release_entry ◌-ℤ◌
  release_entry-IsSound e h = ground arith

  pub acquire_entry-IsSound : (e : BackendEntry) → IsSound e → IsSound (acquire_entry e)
  acquire_entry-IsSound e h = (h.0, omega (int_laws, h.1))

  release_entry-Keeps : Keeps release_entry
  unfolding release_entry
  release_entry-Keeps e = ground arith

  pub release-IsValid :
      (now : ℕ) (a : Text) (b : BackendList p) → IsValid now b → IsValid now (release a b)
  unfolding release
  release-IsValid now a b v =
      update_first-IsValid b a release_entry v release_entry-Keeps release_entry-IsSound

  pub pin_to-IsValid :
      (now : ℕ) (a : Text) (b : BackendList p) → IsValid now b → IsValid now (pin_to now a b).0
  unfolding pin_to
  pin_to-IsValid now a b v =
      let pinned =
        update_first-IsValid b a acquire_entry v (λ f. (refl, refl, refl)) acquire_entry-IsSound in
      elim (Option-cases (find_first a b.entries)) [
        | inl q ↦ ground (arith, v)
        | inr (e, q) ↦ ground (arith, v, pinned)
      ]

  pub rate_limit_allow-IsValid :
      (now : ℕ) (client : Text) (b : BackendList p)
      → IsValid now b
      → IsValid now (rate_limit_allow now client b).0
  unfolding rate_limit_allow
  rate_limit_allow-IsValid now client b v = record {
    built_at = v.built_at;
    past = v.past;
    built = v.built;
    sound = v.sound;
  }
