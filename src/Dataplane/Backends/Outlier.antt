-- ===== src/Dataplane/Backends/Outlier.antt =====
-- Passive outlier detection: the error streak, the safety valve, and the cooldown.
use jbalance.Common.{
  ℕ, suc, ◌+◌, ◌*◌, ◌^◌, ◌≤◌, ◌<◌, ◌≡◌, refl, min, if◌then◌else◌, inl, inr, Bool, true, false, zero,
  subst, leb_ℤ, ◌&&◌, ltb, some, List, [], ◌∷◌, arith, length, Text, text_instance, ℤ, pos, negsuc,
  pos_part, ◌*ℤ◌, int64, int64_small, pos-*ℤ, pos-+ℤ, ltb_ℤ, Option-cases,
}
use jbalance.Platform.{Platform}
use jbalance.Dataplane.Entry.{
  BackendEntry, OutlierConfig, ejected, update_first, find_first, count_ejected, eject_duration,
  over_share, eject, with_defaults,
}
use jbalance.Dataplane.Entry.Loops.{update_first-found}
use jbalance.Dataplane.RateLimit.{second}
use jbalance.Dataplane.Backends.{BackendList, record_result, record_error, rebuild_slots_locked}

min_test : (x y : ℕ) → (if ltb_ℤ (pos y) (pos x) then pos y else pos x) ≡ pos (min x y)
min_test x y = ground arith

-- What a refused test of the safety valve says, in numbers.
share_test : (z : ℤ) (n m : ℕ) → ltb_ℤ (z *ℤ pos n) (pos m) ≡ false → m ≤ pos_part z * n
unfolding ◌*ℤ◌
share_test (pos k) n m h = grind arith
share_test (negsuc k) n m h = grind arith

eject_duration-min :
    (c : OutlierConfig) (n base limit : ℕ)
    → c.base_eject_duration ≡ pos base
    → c.max_eject_duration ≡ pos limit
    → suc n * base < 2 ^ 63
    → eject_duration c (suc n) ≡ pos (min (suc n * base) limit)
unfolding eject_duration
eject_duration-min c n base limit b m l =
    let e : int64 (pos (suc n) *ℤ c.base_eject_duration) ≡ pos (suc n * base) =
      rw b (rw (pos-*ℤ (suc n) base) (int64_small (suc n * base) l)) in
    rw (e, m) (min_test (suc n * base) limit)

-- The first `d` nanoseconds of one more ejection.
abbrev pub cooling : ℕ → ℕ → BackendEntry → BackendEntry
cooling now d e = record e {
  eject_count = suc e.eject_count;
  ejected_until = some (now + d);
  consec_errors = 0;
}

pub eject-cooling :
    (now : ℕ) (c : OutlierConfig) (e : BackendEntry) (base limit : ℕ)
    → c.base_eject_duration ≡ pos base
    → c.max_eject_duration ≡ pos limit
    → suc e.eject_count * base < 2 ^ 63
    → eject now c e ≡ cooling now (min (suc e.eject_count * base) limit) e
unfolding eject
eject-cooling now c e base limit b m l =
    let next : e.eject_count + 1 ≡ suc e.eject_count = omega arith in
    let d : eject_duration c (suc e.eject_count) ≡ pos (min (suc e.eject_count * base) limit) =
      eject_duration-min c e.eject_count base limit b m l in
    rw (next, d, pos-+ℤ now (min (suc e.eject_count * base) limit)) refl

positive_base :
    (z : ℤ) (n : ℕ) → 0 < n → (b : ℕ) × ((if leb_ℤ z (pos 0) then pos n else z) ≡ pos b) × (0 < b)
positive_base (negsuc k) n h = (n, ground arith, h)
positive_base (pos zero) n h = (n, ground arith, h)
positive_base (pos (suc k)) n h = (suc k, ground arith, omega arith)

later : (now n limit : ℕ) → 0 < n → 0 < limit → ltb now (now + min n limit) ≡ true
later now n limit h k = ground arith

some_times : (n base : ℕ) → 0 < base → 0 < suc n * base
some_times n base h = grind arith

based : (c : OutlierConfig) → (b : ℕ) × ((with_defaults c).base_eject_duration ≡ pos b) × (0 < b)
unfolding with_defaults
based c = positive_base c.base_eject_duration (30 * second) (omega arith)

limited : (c : OutlierConfig) → (b : ℕ) × ((with_defaults c).max_eject_duration ≡ pos b) × (0 < b)
unfolding with_defaults
limited c = positive_base c.max_eject_duration (300 * second) (omega arith)

-- Under any configuration with its defaults, where the base times one more than the earlier
-- ejections is within int64, an ejection holds from now until that product, under the cap, has
-- passed, and not longer; it holds at once, is counted, and starts the streak anew.
pub eject-ejected :
    (now : ℕ) (c : OutlierConfig) (e : BackendEntry)
    → suc e.eject_count * pos_part (with_defaults c).base_eject_duration < 2 ^ 63
    → let f = eject now (with_defaults c) e in
      ((t : ℕ)
        → ejected t f
          ≡ ltb t (
              now
              + min
                  (suc e.eject_count * pos_part (with_defaults c).base_eject_duration)
                  (pos_part (with_defaults c).max_eject_duration)))
      × (ejected now f ≡ true)
      × (f.eject_count ≡ suc e.eject_count)
      × (f.consec_errors ≡ 0)
unfolding ejected
eject-ejected now c e l =
    let (base, b, some_base) = based c in
    let (limit, m, some_limit) = limited c in
    let l' : suc e.eject_count * base < 2 ^ 63 =
      subst (λ z. suc e.eject_count * pos_part z < 2 ^ 63) b l in
    let f = eject-cooling now (with_defaults c) e base limit b m l' in
    rw (f, b, m)
      (
        λ t. refl,
        later now (suc e.eject_count * base) limit (some_times e.eject_count base some_base)
            some_limit,
        refl,
        refl,
      )

count_ejected-update_first-le :
    (now : ℕ) (a : Text) (g : BackendEntry → BackendEntry) (es : List BackendEntry)
    → count_ejected now (update_first a g es) ≤ count_ejected now es + 1
unfolding count_ejected update_first
count_ejected-update_first-le now a g [] = omega arith
count_ejected-update_first-le now a g (e ∷ es) =
    ground (arith, count_ejected-update_first-le now a g es)

pub count_ejected-update_first-eq :
    (now : ℕ) (a : Text) (g : BackendEntry → BackendEntry) (es : List BackendEntry)
    → ((e : BackendEntry) → ejected now (g e) ≡ ejected now e)
    → count_ejected now (update_first a g es) ≡ count_ejected now es
unfolding count_ejected update_first
count_ejected-update_first-eq now a g [] h = refl
count_ejected-update_first-eq now a g (e ∷ es) h =
    ground (arith, h e, count_ejected-update_first-eq now a g es h)

pub length-update_first :
    (a : Text) (g : BackendEntry → BackendEntry) (es : List BackendEntry)
    → length (update_first a g es) ≡ length es
unfolding update_first
length-update_first a g [] = refl
length-update_first a g (e ∷ es) = ground (arith, length-update_first a g es)

find_first-length :
    (a : Text) (es : List BackendEntry) {e : BackendEntry}
    → find_first a es ≡ some e
    → 0 < length es
unfolding find_first
find_first-length a [] q = cc
find_first-length a (f ∷ es) q = omega arith

-- The valve is shut while one more ejection keeps to the share.
pub over_share-room :
    (now : ℕ) (c : OutlierConfig) (es : List BackendEntry) (q : ℕ)
    → c.max_eject_percent ≡ pos q
    → (count_ejected now es + 1) * 100 ≤ q * length es
    → over_share now c es ≡ false
unfolding over_share
over_share-room now c es q e h =
    let room : ltb_ℤ (pos (q * length es)) (pos ((count_ejected now es + 1) * 100)) ≡ false =
      ground (arith, h) in
    rw (e, pos-*ℤ q (length es), room) (last (ltb 0 (length es)))
  where
    last : (b : Bool) → (b && false) ≡ false
    last true = refl
    last false = refl

within_valve :
    (now : ℕ) (c : OutlierConfig) (es : List BackendEntry)
    → 0 < length es
    → over_share now c es ≡ false
    → (count_ejected now es + 1) * 100 ≤ pos_part c.max_eject_percent * length es
unfolding over_share
within_valve now c es l v =
    share_test c.max_eject_percent (length es) ((count_ejected now es + 1) * 100) (ground arith)

module _ ⦃p : Platform⦄ where
  -- No more than the configured share of the group is ejected.
  abbrev pub WithinShare : ℕ → BackendList p → Type 0
  WithinShare now b =
      count_ejected now b.entries * 100 ≤ pos_part b.outlier.max_eject_percent * length b.entries

  record_error-WithinShare :
      (now : ℕ) (a : Text) (e : BackendEntry) (b : BackendList p)
      → find_first a b.entries ≡ some e
      → WithinShare now b
      → WithinShare now (record_error now a e b)
  unfolding record_error rebuild_slots_locked
  record_error-WithinShare now a e b q h =
      let bump = λ (f : BackendEntry). record f { consec_errors = f.consec_errors + 1 } in
      let found = update_first-found a bump e b.entries q in
      let same = count_ejected-update_first-eq now a bump b.entries (λ e. unfold ejected in refl) in
      let counted : count_ejected now (update_first a (λ _. bump e) b.entries) * 100
          ≤ pos_part b.outlier.max_eject_percent * length (update_first a (λ _. bump e) b.entries) =
        rw (found, same, length-update_first a bump b.entries) h in
      let out = eject now b.outlier (bump e) in
      let more = count_ejected-update_first-le now a (λ _. out) b.entries in
      let len = length-update_first a (λ _. out) b.entries in
      let room = within_valve now b.outlier b.entries (find_first-length a b.entries q) in
      let ejects : over_share now b.outlier b.entries ≡ false
          → count_ejected now (update_first a (λ _. out) b.entries) * 100
            ≤ pos_part b.outlier.max_eject_percent * length (update_first a (λ _. out) b.entries) =
        λ v. rw len (omega (arith, more, room v)) in
      ground (arith, h, counted, ejects)

  -- If the ejected backends are within the allowed share of the group, they still are after any
  -- reported result, whatever its address and outcome.
  pub record_result-WithinShare :
      (now : ℕ) (a : Text) (ok : Bool) (b : BackendList p)
      → WithinShare now b
      → WithinShare now (record_result now a ok b)
  unfolding record_result
  record_result-WithinShare now a ok b h =
      let reset =
        count_ejected-update_first-eq now a (λ e. record e { consec_errors = 0 }) b.entries
          (λ e. unfold ejected in refl) in
      let len =
        length-update_first a (λ (e : BackendEntry). record e { consec_errors = 0 }) b.entries in
      elim (Option-cases (find_first a b.entries)) [
        | inl q ↦ ground (arith, h)
        | inr (e, q) ↦ ground (arith, h, reset, len, record_error-WithinShare now a e b q h)
      ]
