-- ===== src/ControlPlane/Reports/Health.antt =====
-- The health that the console shows of an address.
use jbalance.Common.{
  ℕ, Bool, true, false, not, ◌&&◌, ◌||◌, List, [], ◌∷◌, Text, text_eq, text_eq_iff, text_eq_refl,
  lookup, insert, Map, some, none, Option, Distinct, any_iff, all_iff, any, all, ◌↔◌, ◌≡◌, refl, ap,
  ◌∙◌, arith, Bool-cases, inl, inr, if◌then◌else◌, ◌+◌, ◌≤◌, lookup-insert, insert-Distinct, sym,
}
use jbalance.Platform.{Platform}
use jbalance.Proto.{BackendHealth, HealthReport}
use jbalance.ControlPlane.Reports.{
  BackendHealthKey, HealthEntry, Reports, stale, put_health, count_health, health_loop,
  report_health, health_for_address, report_max_age, health_key_instance, same_health_key,
}

-- A fresh report of the address in the group.
abbrev pub speaks : ℕ → Text → Text → BackendHealthKey × HealthEntry → Bool
speaks now group address (key, entry) =
    text_eq key.group group && text_eq key.address address && not (stale now entry.reported_at)

abbrev agrees : ℕ → Text → Text → BackendHealthKey × HealthEntry → Bool
agrees now group address x = not (speaks now group address x) || x.1.healthy

count_health-speaks :
    (now : ℕ) (group address : Text) (key : BackendHealthKey) (entry : HealthEntry) (h k : Bool)
    → count_health now group address key entry (h, k)
      ≡ (h && agrees now group address (key, entry), k || speaks now group address (key, entry))
unfolding count_health
count_health-speaks now group address key entry h k = ground arith

health_loop-any :
    (now : ℕ) (group address : Text) (m : Map BackendHealthKey HealthEntry) (h k : Bool)
    → health_loop now group address m (h, k)
      ≡ (h && all (agrees now group address) m, k || any (speaks now group address) m)
unfolding health_loop any all
health_loop-any now group address [] h k = ground arith
health_loop-any now group address ((key, entry) ∷ m) h k =
    ap (health_loop now group address m) (count_health-speaks now group address key entry h k)
    ∙ health_loop-any now group address m (h && agrees now group address (key, entry))
        (k || speaks now group address (key, entry))
    ∙ ground arith

-- A fresh entry of the address in the group, of the named instance.
abbrev pub Fresh : ℕ → Text → Text → Text → HealthEntry → Map BackendHealthKey HealthEntry → Type 0
Fresh now group id address entry m =
    (lookup (record { group = group; instance_id = id; address = address }) m ≡ some entry)
    × (stale now entry.reported_at ≡ false)

-- What is shown of an address: whether something fresh is known, and that all of it is good.
abbrev pub ShowsReports : ℕ → Text → Text → Map BackendHealthKey HealthEntry → Bool × Bool → Type 0
ShowsReports now group address m (healthy, known) =
    ((known ≡ true) ↔ ((id : Text) × (entry : HealthEntry) × Fresh now group id address entry m))
    × ((healthy ≡ true) ↔ (
        (id : Text) (entry : HealthEntry)
        → Fresh now group id address entry m
        → entry.healthy ≡ true))

speaks-Fresh :
    (now : ℕ) (group address : Text) (m : Map BackendHealthKey HealthEntry) (key : BackendHealthKey)
    (entry : HealthEntry)
    → lookup key m ≡ some entry
    → speaks now group address (key, entry) ≡ true
    → Fresh now group key.instance_id address entry m
speaks-Fresh now group address m key entry l t =
    let g : key.group ≡ group = ground (arith, text_eq_iff key.group group) in
    let a : key.address ≡ address = ground (arith, text_eq_iff key.address address) in
    let same : key ≡ record { group = group; instance_id = key.instance_id; address = address } =
      λ i. record { group = g i; instance_id = key.instance_id; address = a i } in
    (sym (ap (λ k. lookup k m) same) ∙ l, ground arith)

Fresh-speaks :
    (now : ℕ) (group address : Text) (id : Text) (entry : HealthEntry)
    → stale now entry.reported_at ≡ false
    → speaks now group address
        (record { group = group; instance_id = id; address = address }, entry)
      ≡ true
Fresh-speaks now group address id entry s = rw (text_eq_refl group, text_eq_refl address, s) refl

abbrev or_else : Option Bool → Option Bool → Option Bool
or_else first none = first
or_else first (some h) = some h

-- What the report says of an address last.
abbrev pub last_status : Text → List BackendHealth → Option Bool
last_status address [] = none
last_status address (bh ∷ rest) =
    or_else (if text_eq bh.address address then some bh.healthy else none)
      (last_status address rest)

abbrev after_report : ℕ → Option Bool → Option HealthEntry → Option HealthEntry
after_report now none old = old
after_report now (some h) old = some (record { healthy = h; reported_at = now })

abbrev key_for : HealthReport → Text → BackendHealthKey
key_for report address = record {
  group = report.group;
  instance_id = report.instance_id;
  address = address;
}

same_key_for :
    (report : HealthReport) (a b : Text)
    → same_health_key (key_for report a) (key_for report b) ≡ text_eq a b
unfolding same_health_key
same_key_for report a b = rw (text_eq_refl report.group, text_eq_refl report.instance_id) refl

-- The last status in a report is what the reporter has said of the address.
put_health-lookup :
    (now : ℕ) (report : HealthReport) (address : Text) (bs : List BackendHealth)
    (m : Map BackendHealthKey HealthEntry)
    → lookup (key_for report address) (put_health now report bs m)
      ≡ after_report now (last_status address bs) (lookup (key_for report address) m)
unfolding put_health
put_health-lookup now report address [] m = refl
put_health-lookup now report address (bh ∷ bs) m =
    let entry : HealthEntry = record { healthy = bh.healthy; reported_at = now } in
    put_health-lookup now report address bs (insert (key_for report bh.address) entry m)
    ∙ ap (after_report now (last_status address bs)) (
        lookup-insert (key_for report bh.address) (key_for report address) entry m
        ∙ ap (λ c. if c then some entry else lookup (key_for report address) m)
            (same_key_for report bh.address address))
    ∙ joined (text_eq bh.address address) (last_status address bs)
  where
    joined :
        (c : Bool) (later : Option Bool)
        → after_report now later (
            if c
            then some (record { healthy = bh.healthy; reported_at = now })
            else lookup (key_for report address) m)
          ≡ after_report now
              (or_else (if c then some bh.healthy else none) later)
              (lookup (key_for report address) m)
    joined true none = refl
    joined true (some h) = refl
    joined false none = refl
    joined false (some h) = refl

put_health-Distinct :
    (now : ℕ) (report : HealthReport) (bs : List BackendHealth)
    (m : Map BackendHealthKey HealthEntry)
    → Distinct m
    → Distinct (put_health now report bs m)
unfolding put_health
put_health-Distinct now report [] m d = d
put_health-Distinct now report (bh ∷ bs) m d =
    put_health-Distinct now report bs
      (insert (key_for report bh.address) (record { healthy = bh.healthy; reported_at = now }) m)
      (insert-Distinct (key_for report bh.address)
        (record { healthy = bh.healthy; reported_at = now }) m d)

-- Something is known, and it is not better than `status`.
abbrev pub ShowsAtMost : Bool → Bool × Bool → Type 0
ShowsAtMost status (healthy, known) = (known ≡ true) × (healthy ≡ true → status ≡ true)

module _ ⦃p : Platform⦄ where
  health_for_address-all :
      (now : ℕ) (group address : Text) (s : Reports p)
      → health_for_address now group address s
        ≡ (all (agrees now group address) s.health, any (speaks now group address) s.health)
  unfolding health_for_address
  health_for_address-all now group address s = health_loop-any now group address s.health true false

  -- Where no key has two entries, an address is shown as known exactly if some instance has a
  -- report of it that is at most thirty seconds old, and as healthy exactly if every such report
  -- says so.
  pub health_for_address_iff :
      (now : ℕ) (group address : Text) (s : Reports p)
      → Distinct s.health
      → ShowsReports now group address s.health (health_for_address now group address s)
  health_for_address_iff now group address s d =
      let known = any_iff (speaks now group address) s.health d in
      let healthy = all_iff (agrees now group address) s.health d in
      rw (health_for_address-all now group address s) (
        (
          λ t.
              let (key, entry, l, r) = known.0 t in
              (key.instance_id, entry, speaks-Fresh now group address s.health key entry l r),
          λ (id, entry, f). known.1 (_, entry, f.0, Fresh-speaks now group address id entry f.1),
        ),
        (
          λ t id entry f.
              let heard = Fresh-speaks now group address id entry f.1 in
              let kept =
                healthy.0 t (record { group = group; instance_id = id; address = address }) entry
                  f.0 in
              ground arith,
          λ t. healthy.1 (λ key entry l. elim (Bool-cases (speaks now group address (key, entry))) [
            | inl r ↦
                let good =
                  t key.instance_id entry (speaks-Fresh now group address s.health key entry l r) in
                ground arith
            | inr r ↦ ground arith
          ]),
        ),
      )

  pub report_health-Distinct :
      (now : ℕ) (report : HealthReport) (s : Reports p)
      → Distinct s.health
      → Distinct (report_health now report s).health
  unfolding report_health
  report_health-Distinct now report s d = put_health-Distinct now report report.backends s.health d

  -- Where no key has two entries, for thirty seconds after a report with an address, that is known,
  -- and it is shown as healthy only if the last status of the report for it is good.
  pub report_health-health_for_address :
      (at now : ℕ) (report : HealthReport) (address : Text) (status : Bool) (s : Reports p)
      → Distinct s.health
      → last_status address report.backends ≡ some status
      → now ≤ at + report_max_age
      → ShowsAtMost status (health_for_address now report.group address (report_health at report s))
  unfolding report_health
  report_health-health_for_address at now report address status s d l h =
      let entry : HealthEntry = record { healthy = status; reported_at = at } in
      let held : lookup (key_for report address) (report_health at report s).health ≡ some entry =
        put_health-lookup at report address report.backends s.health ∙ rw l refl in
      let fresh : stale now at ≡ false = ground arith in
      let views =
        health_for_address_iff now report.group address (report_health at report s)
          (report_health-Distinct at report s d) in
      (
        views.0.1 (report.instance_id, entry, (held, fresh)),
        λ t. views.1.0 t report.instance_id entry (held, fresh),
      )
