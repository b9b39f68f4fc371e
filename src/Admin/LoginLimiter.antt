-- ===== src/Admin/LoginLimiter.antt =====
-- internal/admin/ratelimit.go: failed logins of each client address. A time is a number of
-- nanoseconds, and an argument of the call that reads the clock; a lock that was never set is `none`
-- for the zero time, and the count of failures, one for each login, stays far below 2 ^ 63.
use jbalance.Common.{
  ◌≡◌, refl, ap, ◌∙◌, ℕ, suc, ◌+◌, ◌-◌, ◌≤◌, Bool, true, false, not, ◌||◌, Option, none, some, List,
  [], ◌∷◌, ltb, leb, Text, Map, lookup, insert, delete, lookup-insert, text_instance, ◌==◌,
  if◌then◌else◌, length, All, arith, beq_refl, lookup-delete,
}

pub record LoginAttempts : Type 0 where
  pub failures : ℕ
  pub first_fail_at : ℕ
  pub locked_until : Option ℕ

pub record LoginLimiter : Type 0 where
  pub max_failures : ℕ
  pub lockout : ℕ
  pub window : ℕ
  pub by_ip : Map Text LoginAttempts

unfoldable pub new_login_limiter : ℕ → ℕ → ℕ → LoginLimiter
new_login_limiter max_failures window lockout = record {
  max_failures = max_failures;
  lockout = lockout;
  window = window;
  by_ip = [];
}

abbrev unlocked : ℕ → Option ℕ → Bool
unlocked now none = true
unlocked now (some until) = ltb until now

abbrev entry_allowed : ℕ → Option LoginAttempts → Bool
entry_allowed now none = true
entry_allowed now (some a) = unlocked now a.locked_until

unfoldable pub allowed : ℕ → Text → LoginLimiter → Bool
allowed now ip l = entry_allowed now (lookup ip l.by_ip)

abbrev fresh_attempts : ℕ → LoginAttempts
fresh_attempts now = record { failures = 0; first_fail_at = now; locked_until = none }

-- The entry that a failure is counted in.
abbrev current_attempts : ℕ → ℕ → Option LoginAttempts → LoginAttempts
current_attempts now window none = fresh_attempts now
current_attempts now window (some a) =
    if ltb window (now - a.first_fail_at) then fresh_attempts now else a

abbrev count_failure : ℕ → LoginLimiter → LoginAttempts → LoginAttempts
count_failure now l a = record {
  failures = suc a.failures;
  first_fail_at = a.first_fail_at;
  locked_until =
      if leb l.max_failures (suc a.failures) then some (now + l.lockout) else a.locked_until;
}

unfoldable pub record_failure : ℕ → Text → LoginLimiter → LoginLimiter
record_failure now ip l = record l {
  by_ip =
      insert ip (count_failure now l (current_attempts now l.window (lookup ip l.by_ip))) l.by_ip;
}

unfoldable pub record_success : Text → LoginLimiter → LoginLimiter
record_success ip l = record l { by_ip = delete ip l.by_ip }

-- Failures of one address, the earliest first.
unfoldable pub record_failures : List ℕ → Text → LoginLimiter → LoginLimiter
record_failures [] ip l = l
record_failures (t ∷ ts) ip l = record_failures ts ip (record_failure t ip l)

abbrev pub last : ℕ → List ℕ → ℕ
last t [] = t
last t (u ∷ us) = last u us

-- What n failures leave, the first at `first` and the last at `latest`.
abbrev after_failures : LoginLimiter → ℕ → ℕ → ℕ → LoginAttempts
after_failures l n first latest = record {
  failures = n;
  first_fail_at = first;
  locked_until = if leb l.max_failures n then some (latest + l.lockout) else none;
}

count_failure-after_failures :
    (t : ℕ) (l : LoginLimiter) (n first latest : ℕ)
    → t - first ≤ l.window
    → count_failure t l (current_attempts t l.window (some (after_failures l n first latest)))
      ≡ after_failures l (suc n) first t
count_failure-after_failures t l n first latest w =
    let late : ltb l.window (t - first) ≡ false = ground arith in
    let same : (if leb l.max_failures (suc n)
          then some (t + l.lockout)
          else if leb l.max_failures n
          then some (latest + l.lockout)
          else none)
        ≡ (if leb l.max_failures (suc n) then some (t + l.lockout) else none) =
      ground arith in
    rw late (λ i. record { failures = suc n; first_fail_at = first; locked_until = same i })

unlocked-after :
    (now : ℕ) (locks : Bool) (until : ℕ)
    → unlocked now (if locks then some until else none) ≡ (not locks || ltb until now)
unlocked-after now true until = refl
unlocked-after now false until = refl

module _ (ip : Text) where
  record_failure-lookup :
      (t : ℕ) (l : LoginLimiter)
      → lookup ip (record_failure t ip l).by_ip
        ≡ some (count_failure t l (current_attempts t l.window (lookup ip l.by_ip)))
  unfolding record_failure
  record_failure-lookup t l = rw (lookup-insert ip ip) (rw (beq_refl ip) refl)

  record_failures-lookup :
      (ts : List ℕ) (l : LoginLimiter) (n first latest : ℕ)
      → lookup ip l.by_ip ≡ some (after_failures l n first latest)
      → All (λ t. t - first ≤ l.window) ts
      → lookup ip (record_failures ts ip l).by_ip
        ≡ some (after_failures l (n + length ts) first (last latest ts))
  unfolding record_failures record_failure
  record_failures-lookup [] l n first latest h w = let e : n + 0 ≡ n = ground arith in rw e h
  record_failures-lookup (t ∷ ts) l n first latest h w =
      let e : n + suc (length ts) ≡ suc n + length ts = ground arith in
      rw e (
        record_failures-lookup ts (record_failure t ip l) (suc n) first t
          (record_failure-lookup t l
            ∙ rw h (ap some (count_failure-after_failures t l n first latest w.0)))
          w.1)

  first_failures-lookup :
      (t : ℕ) (ts : List ℕ) (l : LoginLimiter)
      → lookup ip l.by_ip ≡ none
      → All (λ u. u - t ≤ l.window) ts
      → lookup ip (record_failures (t ∷ ts) ip l).by_ip
        ≡ some (after_failures l (suc (length ts)) t (last t ts))
  unfolding record_failures record_failure
  first_failures-lookup t ts l h w =
      let e : suc (length ts) ≡ 1 + length ts = ground arith in
      rw e (
        record_failures-lookup ts (record_failure t ip l) 1 t t
          (record_failure-lookup t l ∙ rw h refl) w)

  record_failures-other :
      (ts : List ℕ) (l : LoginLimiter) (j : Text)
      → (ip == j) ≡ false
      → lookup j (record_failures ts ip l).by_ip ≡ lookup j l.by_ip
  unfolding record_failures record_failure
  record_failures-other [] l j h = refl
  record_failures-other (t ∷ ts) l j h =
      record_failures-other ts (record_failure t ip l) j h
      ∙ lookup-insert ip j _ l.by_ip
      ∙ rw h refl

  -- For an address with no entry that fails to sign in any number of times, each within the window
  -- of the first failure: an attempt is allowed exactly if the failures are fewer than the limit or
  -- the lock-out of the last one is over, every other address is treated as before, and a success
  -- clears the address.
  pub allowed-record_failures :
      (t : ℕ) (ts : List ℕ) (l : LoginLimiter) (now : ℕ)
      → lookup ip l.by_ip ≡ none
      → All (λ u. u - t ≤ l.window) ts
      → (allowed now ip (record_failures (t ∷ ts) ip l)
          ≡ (not (leb l.max_failures (suc (length ts))) || ltb (last t ts + l.lockout) now))
        × ((j : Text)
            → (ip == j) ≡ false
            → allowed now j (record_failures (t ∷ ts) ip l) ≡ allowed now j l)
        × (allowed now ip (record_success ip (record_failures (t ∷ ts) ip l)) ≡ true)
  unfolding allowed record_success
  allowed-record_failures t ts l now h w =
      let m = (record_failures (t ∷ ts) ip l).by_ip in
      let gone : lookup ip (delete ip m) ≡ none =
        lookup-delete ip ip m ∙ ap (λ same. if same then none else lookup ip m) (beq_refl ip) in
      (
        ap (entry_allowed now) (first_failures-lookup t ts l h w)
            ∙ unlocked-after now (leb l.max_failures (suc (length ts))) (last t ts + l.lockout),
        λ j other. ap (entry_allowed now) (record_failures-other (t ∷ ts) l j other),
        ap (entry_allowed now) gone,
      )
