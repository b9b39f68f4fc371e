-- ===== src/ControlPlane/Reports/Traffic.antt =====
-- The traffic that is shown and remembered, as sums over the reports that are fresh.
use mathlib.Core.List.{Permᴰ}
use jbalance.Common.{
  ℕ, ◌≡◌, refl, sym, ap, ap₂, ◌∙◌, List, [], ◌∷◌, ◌++◌, some, ℤ, pos, ◌+ℤ◌, int64, int64_add,
  int64_twice, int64_small, int_laws, Text, text_eq, text_instance, int64-congr, Map, lookup,
  insert, if◌then◌else◌, Bool-cases, inl, inr, arith,
}
use jbalance.Platform.{Platform}
use jbalance.Proto.{MetricsReport}
use jbalance.ControlPlane.MetricsHistory.{
  GroupMetricsSnapshot, Sample, Totals, add_up, add_group, no_totals, record_sample, sample,
}
use jbalance.ControlPlane.MetricsHistory.Bounds.{put_sample-ends}
use jbalance.ControlPlane.Reports.{
  MetricsKey, MetricsEntry, Reports, stale, add_entry, no_traffic, or_no_traffic, by_group,
  averaged, values, metrics_snapshot, report_metrics, put_metrics,
}

abbrev pub sum_of {ℓ} : {A : Type ℓ} → (A → ℤ) → List A → ℤ
sum_of f [] = pos 0
sum_of f (x ∷ xs) = f x +ℤ sum_of f xs

sum_swap {ℓ} :
    {A : Type ℓ} (f : A → ℤ) {a b a' b' : A} (t : ℤ)
    → a ≡ b'
    → b ≡ a'
    → f a +ℤ (f b +ℤ t) ≡ f a' +ℤ (f b' +ℤ t)
sum_swap f {a = a} {b = b} t q r =
    let swapped : f a +ℤ (f b +ℤ t) ≡ f b +ℤ (f a +ℤ t) = omega int_laws in
    swapped ∙ ap₂ (λ x y. x +ℤ (y +ℤ t)) (ap f r) (ap f q)

sum_of-perm {ℓ} :
    {A : Type ℓ} (f : A → ℤ) {xs ys : List A} → Permᴰ xs ys → sum_of f xs ≡ sum_of f ys
sum_of-perm f Permᴰ.nil = refl
sum_of-perm f (Permᴰ.cons q r) = ap₂ (λ x y. x +ℤ y) (ap f q) (sum_of-perm f r)
sum_of-perm f (Permᴰ.swap q r) = sum_swap f _ q r
sum_of-perm f (Permᴰ.trans q r) = sum_of-perm f q ∙ sum_of-perm f r

-- A sum that may start wrapped.
int64-sum {ℓ} :
    {A : Type ℓ} (f : A → ℤ) (a : ℤ) (x : A) (xs : List A)
    → int64 (int64 (a +ℤ f x) +ℤ sum_of f xs) ≡ int64 (a +ℤ sum_of f (x ∷ xs))
int64-sum f a x xs =
    let apart : (a +ℤ f x) +ℤ sum_of f xs ≡ a +ℤ (f x +ℤ sum_of f xs) = omega int_laws in
    int64_add (a +ℤ f x) (sum_of f xs) ∙ ap int64 apart

module _ ⦃p : Platform⦄ where
  -- The entries of s.metrics that are not stale.
  abbrev pub fresh_entries : ℕ → Map MetricsKey (MetricsEntry p) → List (MetricsEntry p)
  fresh_entries now [] = []
  fresh_entries now ((key, entry) ∷ rest) =
      if stale now entry.reported_at then fresh_entries now rest else entry ∷ fresh_entries now rest

  -- A counter of a report, and of what a group's reports add up to.
  record Counter : Type 0 where
    of : MetricsEntry p → ℤ
    total : GroupMetricsSnapshot p → ℤ
    none_yet : (group : Text) → total (no_traffic group) ≡ pos 0
    adds :
        (entry : MetricsEntry p) (g : GroupMetricsSnapshot p)
        → total (add_entry entry g) ≡ int64 (total g +ℤ of entry)
    stays : (g : GroupMetricsSnapshot p) → total (averaged g) ≡ total g

  module _ (c : Counter) where
    -- The counter summed over byGroup.
    abbrev over_groups : Map Text (GroupMetricsSnapshot p) → ℤ
    over_groups [] = pos 0
    over_groups ((k, g) ∷ m) = c.total g +ℤ over_groups m

    -- Adding an entry to its group adds it to the sum over the groups.
    insert-total :
        (group : Text) (entry : MetricsEntry p) (g : GroupMetricsSnapshot p)
        (m : Map Text (GroupMetricsSnapshot p))
        → or_no_traffic group (lookup group m) ≡ g
        → int64 (over_groups (insert group (add_entry entry g) m))
          ≡ int64 (over_groups m +ℤ c.of entry)
    unfolding insert lookup
    insert-total group entry g [] h =
        let none : c.total g ≡ pos 0 = sym (ap c.total h) ∙ c.none_yet group in
        let first : (pos 0 +ℤ c.of entry) +ℤ pos 0 ≡ pos 0 +ℤ c.of entry = omega int_laws in
        ap (λ z. int64 (z +ℤ pos 0)) (c.adds entry g ∙ ap (λ z. int64 (z +ℤ c.of entry)) none)
        ∙ int64_add (pos 0 +ℤ c.of entry) (pos 0)
        ∙ ap int64 first
    insert-total group entry g ((k, old) ∷ m) h = elim (Bool-cases (text_eq k group)) [
      | inl q ↦
          let same : old ≡ g =
            ap (λ b. or_no_traffic group (if b then some old else lookup group m)) (sym q) ∙ h in
          let moved : (c.total g +ℤ c.of entry) +ℤ over_groups m
              ≡ (c.total g +ℤ over_groups m) +ℤ c.of entry =
            omega int_laws in
          rw q (
            ap (λ z. int64 (z +ℤ over_groups m)) (c.adds entry g)
            ∙ int64_add (c.total g +ℤ c.of entry) (over_groups m)
            ∙ ap int64 moved
            ∙ ap (λ x. int64 ((c.total x +ℤ over_groups m) +ℤ c.of entry)) (sym same))
      | inr q ↦
          let below : or_no_traffic group (lookup group m) ≡ g =
            ap (λ b. or_no_traffic group (if b then some old else lookup group m)) (sym q) ∙ h in
          let moved : c.total old +ℤ (over_groups m +ℤ c.of entry)
              ≡ (c.total old +ℤ over_groups m) +ℤ c.of entry =
            omega int_laws in
          rw q (int64-congr (c.total old) _ _ (insert-total group entry g m below) ∙ ap int64 moved)
    ]

    by_group-total :
        (now : ℕ) (ms : Map MetricsKey (MetricsEntry p)) (m : Map Text (GroupMetricsSnapshot p))
        → int64 (over_groups (by_group now ms m))
          ≡ int64 (over_groups m +ℤ sum_of c.of (fresh_entries now ms))
    unfolding by_group
    by_group-total now [] m =
        let same : over_groups m ≡ over_groups m +ℤ pos 0 = omega int_laws in ap int64 same
    by_group-total now ((key, entry) ∷ ms) m = elim (Bool-cases (stale now entry.reported_at)) [
      | inl q ↦ rw q (by_group-total now ms m)
      | inr q ↦
          let with =
            insert key.group (add_entry entry (or_no_traffic key.group (lookup key.group m))) m in
          rw q (
            by_group-total now ms with
            ∙ sym (int64_add (over_groups with) (sum_of c.of (fresh_entries now ms)))
            ∙ ap (λ z. int64 (z +ℤ sum_of c.of (fresh_entries now ms)))
                (insert-total key.group entry (or_no_traffic key.group (lookup key.group m)) m refl)
            ∙ int64-sum c.of (over_groups m) entry (fresh_entries now ms))
    ]

    values-total :
        (m : Map Text (GroupMetricsSnapshot p)) → sum_of c.total (values m) ≡ over_groups m
    values-total [] = refl
    values-total ((k, g) ∷ m) = ap₂ (λ x y. x +ℤ y) (c.stays g) (values-total m)

  -- sort.Slice keeps the elements.
  pub record Permutes (sort : List (GroupMetricsSnapshot p) → List (GroupMetricsSnapshot p))
      : Type 0 where
    pub perm : (gs : List (GroupMetricsSnapshot p)) → Permᴰ gs (sort gs)

  module _ (sort : List (GroupMetricsSnapshot p) → List (GroupMetricsSnapshot p))
      (perms : Permutes sort) where
    metrics_snapshot-total :
        (c : Counter) (now : ℕ) (s : Reports p)
        → int64 (sum_of c.total (metrics_snapshot sort now s))
          ≡ int64 (sum_of c.of (fresh_entries now s.metrics))
    unfolding metrics_snapshot
    metrics_snapshot-total c now s =
        let groups = by_group now s.metrics [] in
        let plain : pos 0 +ℤ sum_of c.of (fresh_entries now s.metrics)
            ≡ sum_of c.of (fresh_entries now s.metrics) =
          omega int_laws in
        ap int64 (sym (sum_of-perm c.total (perms.perm (values groups))) ∙ values-total c groups)
        ∙ by_group-total c now s.metrics []
        ∙ ap int64 plain

  -- The same counter in the totals and in a sample.
  record Column (c : Counter) : Type 0 where
    so_far : Totals p → ℤ
    shown : Sample p → ℤ
    starts : so_far no_totals ≡ pos 0
    adds_group :
        (acc : Totals p) (g : GroupMetricsSnapshot p)
        → so_far (add_group acc g) ≡ int64 (so_far acc +ℤ c.total g)
    shows : (now : ℕ) (acc : Totals p) → shown (sample now acc) ≡ so_far acc

  module _ (c : Counter) (l : Column c) where
    add_up-total :
        (acc : Totals p) (gs : List (GroupMetricsSnapshot p))
        → int64 (l.so_far (add_up acc gs)) ≡ int64 (l.so_far acc +ℤ sum_of c.total gs)
    unfolding add_up
    add_up-total acc [] =
        let same : l.so_far acc ≡ l.so_far acc +ℤ pos 0 = omega int_laws in ap int64 same
    add_up-total acc (g ∷ gs) =
        add_up-total (add_group acc g) gs
        ∙ ap (λ z. int64 (z +ℤ sum_of c.total gs)) (l.adds_group acc g)
        ∙ int64-sum c.total (l.so_far acc) g gs

    -- Every total is an int64.
    add_up-wrapped :
        (acc : Totals p) (gs : List (GroupMetricsSnapshot p))
        → int64 (l.so_far acc) ≡ l.so_far acc
        → int64 (l.so_far (add_up acc gs)) ≡ l.so_far (add_up acc gs)
    unfolding add_up
    add_up-wrapped acc [] h = h
    add_up-wrapped acc (g ∷ gs) h = add_up-wrapped (add_group acc g) gs (
        ap int64 (l.adds_group acc g)
        ∙ int64_twice (l.so_far acc +ℤ c.total g)
        ∙ sym (l.adds_group acc g))

    module _ (sort : List (GroupMetricsSnapshot p) → List (GroupMetricsSnapshot p))
        (perms : Permutes sort) where
      sample-total :
          (now : ℕ) (s : Reports p)
          → l.shown (sample now (add_up no_totals (metrics_snapshot sort now s)))
            ≡ int64 (sum_of c.of (fresh_entries now s.metrics))
      sample-total now s =
          let gs = metrics_snapshot sort now s in
          let zero : int64 (l.so_far no_totals) ≡ l.so_far no_totals =
            ap int64 l.starts ∙ int64_small 0 (omega arith) ∙ sym l.starts in
          let plain : pos 0 +ℤ sum_of c.total gs ≡ sum_of c.total gs = omega int_laws in
          l.shows now (add_up no_totals gs)
          ∙ sym (add_up-wrapped no_totals gs zero)
          ∙ add_up-total no_totals gs
          ∙ ap (λ z. int64 (z +ℤ sum_of c.total gs)) l.starts
          ∙ ap int64 plain
          ∙ metrics_snapshot-total sort perms c now s

  requests : Counter
  unfolding add_entry averaged
  requests = record {
    of = λ (e : MetricsEntry p). e.requests_total;
    total = λ (g : GroupMetricsSnapshot p). g.requests_total;
    none_yet = λ group. refl;
    adds = λ e g. refl;
    stays = λ g. refl;
  }

  requests_column : Column requests
  unfolding add_group sample requests
  requests_column = record {
    so_far = λ (t : Totals p). t.requests;
    shown = λ (x : Sample p). x.requests_total;
    starts = refl;
    adds_group = λ acc g. refl;
    shows = λ now acc. refl;
  }

  errors : Counter
  unfolding add_entry averaged
  errors = record {
    of = λ (e : MetricsEntry p). e.errors_5xx_total;
    total = λ (g : GroupMetricsSnapshot p). g.errors_5xx_total;
    none_yet = λ group. refl;
    adds = λ e g. refl;
    stays = λ g. refl;
  }

  errors_column : Column errors
  unfolding add_group sample errors
  errors_column = record {
    so_far = λ (t : Totals p). t.errors;
    shown = λ (x : Sample p). x.errors_5xx_total;
    starts = refl;
    adds_group = λ acc g. refl;
    shows = λ now acc. refl;
  }

  active : Counter
  unfolding add_entry averaged
  active = record {
    of = λ (e : MetricsEntry p). e.active_conns;
    total = λ (g : GroupMetricsSnapshot p). g.active_connections;
    none_yet = λ group. refl;
    adds = λ e g. refl;
    stays = λ g. refl;
  }

  active_column : Column active
  unfolding add_group sample active
  active_column = record {
    so_far = λ (t : Totals p). t.active;
    shown = λ (x : Sample p). x.active_connections;
    starts = refl;
    adds_group = λ acc g. refl;
    shows = λ now acc. refl;
  }

  -- The newest sample has the sums of the entries, as int64.
  abbrev pub EndsInTotals : List (MetricsEntry p) → List (Sample p) → Type 0
  EndsInTotals fresh history =
      (before : List (Sample p)) × (x : Sample p) × (history ≡ before ++ x ∷ [])
      × (x.requests_total ≡ int64 (sum_of (λ (e : MetricsEntry p). e.requests_total) fresh))
      × (x.errors_5xx_total ≡ int64 (sum_of (λ (e : MetricsEntry p). e.errors_5xx_total) fresh))
      × (x.active_connections ≡ int64 (sum_of (λ (e : MetricsEntry p). e.active_conns) fresh))

  -- With a sort that keeps the elements, the newest sample after a metrics report has the sums, as
  -- int64, of the requests, the errors and the active connections over all entries that are not
  -- stale: by way of the groups none is lost and none counted twice.
  pub report_metrics-totals :
      (sort : List (GroupMetricsSnapshot p) → List (GroupMetricsSnapshot p))
      → Permutes sort
      → (now : ℕ) (report : MetricsReport p) (s : Reports p)
      → EndsInTotals
          (fresh_entries now (report_metrics sort now report s).metrics)
          (report_metrics sort now report s).history
  unfolding report_metrics record_sample requests errors active requests_column errors_column
      active_column
  report_metrics-totals sort perms now report s =
      let held : Reports p = record s {
        metrics = put_metrics now report report.groups s.metrics;
      } in
      let new = sample now (add_up no_totals (metrics_snapshot sort now held)) in
      let (before, t, e) = put_sample-ends now new held.history in
      (
        before,
        record new { t = t },
        e,
        sample-total requests requests_column sort perms now held,
        sample-total errors errors_column sort perms now held,
        sample-total active active_column sort perms now held,
      )
