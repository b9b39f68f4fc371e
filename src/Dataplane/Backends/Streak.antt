-- ===== src/Dataplane/Backends/Streak.antt =====
-- A run of failures against one backend.
use jbalance.Common.{
  ℕ, suc, ◌+◌, ◌<◌, ◌≡◌, refl, ap, sym, ◌∙◌, true, false, some, List, [], ◌∷◌, arith, length, Text,
  text_instance, ℤ, pos, ltb_ℤ, ◌≢◌, ◌*◌, ◌≤◌, ◌^◌, min, All, All-weaken, get_elem?,
}
use jbalance.Platform.{Platform}
use jbalance.Dataplane.Entry.{
  BackendEntry, OutlierConfig, ejected, update_first, find_first, over_share, eject, selectable,
  slots_from, count_ejected,
}
use jbalance.Dataplane.Entry.Loops.{update_first-found}
use jbalance.Dataplane.Backends.{BackendList, record_result, record_error, rebuild_slots_locked}
use jbalance.Dataplane.Backends.Outlier.{
  count_ejected-update_first-eq, length-update_first, cooling, eject-cooling, over_share-room,
}
use jbalance.Dataplane.Selection.Refresh.{IsSlot, slots_from-IsSlot}

abbrev pub bump_by : ℕ → BackendEntry → BackendEntry
bump_by k e = record e { consec_errors = e.consec_errors + k }

find_first-update_first :
    (a : Text) (g : BackendEntry → BackendEntry) (es : List BackendEntry) {e : BackendEntry}
    → ((f : BackendEntry) → (g f).address ≡ f.address)
    → find_first a es ≡ some e
    → find_first a (update_first a g es) ≡ some (g e)
unfolding find_first update_first
find_first-update_first a g [] k q = cc
find_first-update_first a g (f ∷ es) {e} k q =
    ground (arith, k f, find_first-update_first a g es {e = e} k)

update_first-update_first :
    (a : Text) (g h : BackendEntry → BackendEntry) (es : List BackendEntry)
    → ((f : BackendEntry) → (g f).address ≡ f.address)
    → update_first a h (update_first a g es) ≡ update_first a (λ f. h (g f)) es
unfolding update_first
update_first-update_first a g h [] k = refl
update_first-update_first a g h (f ∷ es) k =
    ground (arith, k f, update_first-update_first a g h es k)

update_first-cong :
    (a : Text) (g h : BackendEntry → BackendEntry) (es : List BackendEntry)
    → ((f : BackendEntry) → g f ≡ h f)
    → update_first a g es ≡ update_first a h es
unfolding update_first
update_first-cong a g h [] k = refl
update_first-cong a g h (f ∷ es) k = ground (arith, k f, update_first-cong a g h es k)

update_first-none : (a : Text) (es : List BackendEntry) → update_first a (bump_by 0) es ≡ es
unfolding update_first
update_first-none a [] = refl
update_first-none a (f ∷ es) = ground (arith, update_first-none a es)

update_first-bumps :
    (k : ℕ) (a : Text) (es : List BackendEntry)
    → update_first a (bump_by k) (update_first a (bump_by 1) es)
      ≡ update_first a (bump_by (suc k)) es
update_first-bumps k a es =
    update_first-update_first a (bump_by 1) (bump_by k) es (λ f. refl)
    ∙ update_first-cong a (λ f. bump_by k (bump_by 1 f)) (bump_by (suc k)) es (λ f. ground arith)

below_test : (x m n : ℕ) (z : ℤ) → z ≡ pos n → x + suc m < n → ltb_ℤ (pos (x + 1)) z ≡ true
below_test x m n z e h = rw e (ground arith)

reached_test : (x k n : ℕ) (z : ℤ) → z ≡ pos (suc n) → x + k ≡ n → ltb_ℤ (pos (x + k + 1)) z ≡ false
reached_test x k n z e h = rw e (ground arith)

over_share-update_first :
    (now : ℕ) (a : Text) (k : ℕ) (c : OutlierConfig) (es : List BackendEntry)
    → over_share now c (update_first a (bump_by k) es) ≡ over_share now c es
unfolding over_share
over_share-update_first now a k c es = rw (
  count_ejected-update_first-eq now a (bump_by k) es (λ e. unfold ejected in refl),
  length-update_first a (bump_by k) es,
)

selectable-ejected : (now : ℕ) (e : BackendEntry) → selectable now e ≡ true → ejected now e ≡ false
unfolding selectable
selectable-ejected now e h = ground (arith, h)

cooling-ejected : (now d : ℕ) (e : BackendEntry) → 0 < d → ejected now (cooling now d e) ≡ true
unfolding ejected
cooling-ejected now d e h = ground (arith, h)

module _ ⦃p : Platform⦄ where
  -- Failed requests against `a` at some times.
  pub failures : List ℕ → Text → BackendList p → BackendList p
  failures [] a b = b
  failures (t ∷ ts) a b = failures ts a (record_result t a false b)

  record_result_below :
      (now : ℕ) (a : Text) (e : BackendEntry) (b : BackendList p)
      → b.outlier.enabled ≡ true
      → find_first a b.entries ≡ some e
      → ltb_ℤ (pos (e.consec_errors + 1)) b.outlier.consecutive_errors ≡ true
      → record_result now a false b ≡ record b { entries = update_first a (bump_by 1) b.entries }
  unfolding record_result record_error
  record_result_below now a e b on q l =
      let found = update_first-found a (bump_by 1) e b.entries q in ground (arith, found)

  -- Below the threshold a failure adds to the streak, and selection does not see it.
  failures_below :
      (ts : List ℕ) (n : ℕ) (a : Text) (e : BackendEntry) (b : BackendList p)
      → b.outlier.enabled ≡ true
      → b.outlier.consecutive_errors ≡ pos n
      → find_first a b.entries ≡ some e
      → e.consec_errors + length ts < n
      → failures ts a b ≡ record b { entries = update_first a (bump_by (length ts)) b.entries }
  unfolding failures
  failures_below [] n a e b on c q l =
      ap (λ (es : List BackendEntry). record b { entries = es })
        (sym (update_first-none a b.entries))
  failures_below (t ∷ ts) n a e b on c q l =
      let b₁ : BackendList p = record b { entries = update_first a (bump_by 1) b.entries } in
      let first : record_result t a false b ≡ b₁ =
        record_result_below t a e b on q (below_test e.consec_errors (length ts) n _ c l) in
      let rest =
        failures_below ts n a (bump_by 1 e) b₁ on c
          (find_first-update_first a (bump_by 1) b.entries (λ f. refl) q) (omega arith) in
      ap (failures ts a) first
      ∙ rest
      ∙ ap (λ (es : List BackendEntry). record b { entries = es })
          (update_first-bumps (length ts) a b.entries)

  record_result_ejects :
      (now : ℕ) (a : Text) (f : BackendEntry) (b : BackendList p)
      → b.outlier.enabled ≡ true
      → find_first a b.entries ≡ some f
      → ltb_ℤ (pos (f.consec_errors + 1)) b.outlier.consecutive_errors ≡ false
      → ejected now f ≡ false
      → over_share now b.outlier b.entries ≡ false
      → (find_first a (record_result now a false b).entries
          ≡ some (eject now b.outlier (bump_by 1 f)))
        × ((record_result now a false b).slots
            ≡ slots_from now 0 (record_result now a false b).entries)
  unfolding record_result record_error rebuild_slots_locked
  record_result_ejects now a f b on q l free room =
      let g = λ (h : BackendEntry). eject now b.outlier (bump_by 1 h) in
      let moved = find_first-update_first a g b.entries (λ h. unfold eject in refl) q in
      let found = update_first-found a g f b.entries q in
      simp (on, q, l, free, room) (rw found (moved, refl))

  -- An ejected entry stands at no slot.
  no_slot :
      (now : ℕ) (f : BackendEntry) (es : List BackendEntry)
      → ejected now f ≡ true
      → All (λ s. get_elem? es s ≢ some f) (slots_from now 0 es)
  no_slot now f es gone =
      All-weaken (slots_from now 0 es) (λ s h. absent s h) (slots_from-IsSlot now es)
    where
      absent : (s : ℕ) → IsSlot now es s → get_elem? es s ≢ some f
      absent s (e, q, may) r =
          let same : e ≡ f = cc (q, r) in
          let here : ejected now e ≡ true = ap (ejected now) same ∙ gone in
          cc (here, selectable-ejected now e may)

  -- With ejection enabled and a threshold of n + 1, further failures that bring the first backend
  -- of an address to n in a row only count there and leave the slots alone; the next one, at a time
  -- when the backend is not ejected and one more ejection is within the share, ejects it for its
  -- cooldown, which is the base times one more than its earlier ejections, under the cap, where
  -- that is not zero and within int64: the streak starts anew, the ejection is counted, and no slot
  -- has the backend.
  pub failures-eject :
      (ts : List ℕ) (now n base limit q : ℕ) (a : Text) (e : BackendEntry) (b : BackendList p)
      → b.outlier.enabled ≡ true
      → b.outlier.consecutive_errors ≡ pos (suc n)
      → b.outlier.base_eject_duration ≡ pos base
      → b.outlier.max_eject_duration ≡ pos limit
      → b.outlier.max_eject_percent ≡ pos q
      → 0 < min (suc e.eject_count * base) limit
      → suc e.eject_count * base < 2 ^ 63
      → find_first a b.entries ≡ some e
      → e.consec_errors + length ts ≡ n
      → ejected now e ≡ false
      → (count_ejected now b.entries + 1) * 100 ≤ q * length b.entries
      → let cooled = cooling now (min (suc e.eject_count * base) limit) e in
        let last = record_result now a false (failures ts a b) in
        (find_first a (failures ts a b).entries ≡ some (bump_by (length ts) e))
        × ((failures ts a b).slots ≡ b.slots)
        × (find_first a last.entries ≡ some cooled)
        × All (λ s. get_elem? last.entries s ≢ some cooled) last.slots
  failures-eject ts now n base limit q a e b on c bases limits percent long l found sum free room =
      let counted = failures_below ts (suc n) a e b on c found (omega (arith, sum)) in
      let k = length ts in
      let b' : BackendList p = record b { entries = update_first a (bump_by k) b.entries } in
      let found' = find_first-update_first a (bump_by k) b.entries (λ f. refl) found in
      let (moved, slots) =
        record_result_ejects now a (bump_by k e) b' on found'
          (reached_test e.consec_errors k n _ c sum) (unfold ejected in free)
          (over_share-update_first now a k b.outlier b.entries
            ∙ over_share-room now b.outlier b.entries q percent room) in
      let cooled : eject now b.outlier (bump_by 1 (bump_by k e))
          ≡ cooling now (min (suc e.eject_count * base) limit) e =
        eject-cooling now b.outlier (bump_by 1 (bump_by k e)) base limit bases limits l in
      let still = cooling-ejected now (min (suc e.eject_count * base) limit) e long in
      rw counted (
        found',
        refl,
        moved ∙ ap some cooled,
        rw slots (no_slot now _ (record_result now a false b').entries still),
      )
