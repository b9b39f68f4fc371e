-- ===== src/Dataplane/RateLimit/Isolation.antt =====
-- Calls of groupRateLimiter.allow for two clients (internal/dataplane/ratelimit.go).
use jbalance.Common.{
  ℕ, ◌-◌, ◌≤◌, ◌≡◌, refl, ap, sym, ◌∙◌, Bool, true, false, not, ◌||◌, some, [], ◌∷◌, arith, Text,
  Map, lookup, text_instance, text_eq, ltb, lookup-insert, Bool-cases, inl, inr,
}
use jbalance.Platform.{Platform}
use jbalance.Dataplane.RateLimit.{
  GroupRateLimiter, ClientBucket, RateLimitConfig, f_zero, minute, sweep_locked, take_token, allow,
  client_limiter, idle_bucket_ttl, keep_recent,
}

module _ ⦃p : Platform⦄ where
  -- Whether the limiter is off.
  abbrev off : GroupRateLimiter p → Bool
  off g = not g.cfg.enabled || p.f_le g.cfg.rps f_zero

  sweep_locked-cfg : (now : ℕ) (g : GroupRateLimiter p) → (sweep_locked now g).cfg ≡ g.cfg
  unfolding sweep_locked
  sweep_locked-cfg now g = ground arith

  -- A sweep has just been made, or is not due.
  swept :
      (now : ℕ) (g : GroupRateLimiter p) → ltb (now - (sweep_locked now g).last_keep) minute ≡ true
  unfolding sweep_locked
  swept now g = ground arith

  sweep_locked_again :
      (now : ℕ) (g : GroupRateLimiter p)
      → ltb (now - g.last_keep) minute ≡ true
      → sweep_locked now g ≡ g
  unfolding sweep_locked
  sweep_locked_again now g h = rw h refl

  allow-off :
      (now : ℕ) (client : Text) (g : GroupRateLimiter p)
      → off g ≡ true
      → allow now client g ≡ (g, true)
  unfolding allow
  allow-off now client g h = rw h refl

  allow-on :
      (now : ℕ) (client : Text) (g : GroupRateLimiter p)
      → off g ≡ false
      → allow now client g ≡ take_token now client (sweep_locked now g)
  unfolding allow
  allow-on now client g h = rw h refl

  take_token-other :
      (now : ℕ) (client other : Text) (g : GroupRateLimiter p)
      → text_eq client other ≡ false
      → (take_token now other (take_token now client g).0).1 ≡ (take_token now other g).1
  unfolding take_token
  take_token-other now client other g h =
      ap (λ b. (p.limiter_allow now (client_limiter g.cfg b)).1)
        (lookup-insert client other _ g.clients ∙ rw h refl)

  -- A call for a client is answered the same whether or not a call for another client comes just
  -- before it, at the same time.
  pub allow-independent :
      (now : ℕ) (client other : Text) (g : GroupRateLimiter p)
      → text_eq client other ≡ false
      → (allow now other (allow now client g).0).1 ≡ (allow now other g).1
  unfolding take_token
  allow-independent now client other g h = elim (Bool-cases (off g)) [
    | inl e ↦ ap (λ r. (allow now other r.0).1) (allow-off now client g e)
    | inr e ↦
        let s = sweep_locked now g in
        let t = (take_token now client s).0 in
        let on : off t ≡ false =
          ap (λ (c : RateLimitConfig p). not c.enabled || p.f_le c.rps f_zero)
            (sweep_locked-cfg now g)
          ∙ e in
        ap (λ r. (allow now other r.0).1) (allow-on now client g e)
        ∙ ap (λ r. r.1) (allow-on now other t on)
        ∙ ap (λ u. (take_token now other u).1) (sweep_locked_again now t (swept now g))
        ∙ take_token-other now client other s h
        ∙ sym (ap (λ r. r.1) (allow-on now other g e))
  ]

  keep_recent-recent :
      (now : ℕ) (other : Text) (b : ClientBucket p) (m : Map Text (ClientBucket p))
      → lookup other m ≡ some b
      → ltb idle_bucket_ttl (now - b.last_seen) ≡ false
      → lookup other (keep_recent now m) ≡ some b
  unfolding keep_recent lookup
  keep_recent-recent now other b [] q h = q
  keep_recent-recent now other b ((k, c) ∷ m) q h = elim (Bool-cases (text_eq k other)) [
    | inl e ↦
        let same : c ≡ b = ground (arith, q, e) in
        let recent : ltb idle_bucket_ttl (now - c.last_seen) ≡ false = rw same h in
        rw recent (rw e (ap some same))
    | inr e ↦
        let found : lookup other m ≡ some b = ground (arith, q, e) in
        let rest = keep_recent-recent now other b m found h in
        elim (Bool-cases (ltb idle_bucket_ttl (now - c.last_seen))) [
          | inl old ↦ rw old rest
          | inr new ↦ rw new (rw e rest)
        ]
  ]

  -- Another client's call, with the sweep it may make, leaves the bucket of a client as it is, if
  -- that was used in the last ten minutes.
  pub allow-keeps :
      (now : ℕ) (client other : Text) (b : ClientBucket p) (g : GroupRateLimiter p)
      → text_eq client other ≡ false
      → lookup other g.clients ≡ some b
      → now - b.last_seen ≤ idle_bucket_ttl
      → lookup other (allow now client g).0.clients ≡ some b
  unfolding take_token sweep_locked
  allow-keeps now client other b g h q l =
      let recent : ltb idle_bucket_ttl (now - b.last_seen) ≡ false = ground arith in
      elim (Bool-cases (off g)) [
        | inl e ↦ ap (λ r. lookup other r.0.clients) (allow-off now client g e) ∙ q
        | inr e ↦
            let kept : lookup other (sweep_locked now g).clients ≡ some b =
              ground (arith, q, keep_recent-recent now other b g.clients q recent) in
            ap (λ r. lookup other r.0.clients) (allow-on now client g e)
            ∙ lookup-insert client other _ (sweep_locked now g).clients
            ∙ rw h kept
      ]
