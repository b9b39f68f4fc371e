-- ===== src/Dataplane/RateLimit.antt =====
-- internal/dataplane/ratelimit.go: one token bucket for each client of a group. A time is a number
-- of nanoseconds, and an argument of the call that reads the clock.
pub mod Isolation
use jbalance.Common.{
  ℕ, ◌-◌, ◌*◌, Bool, true, not, ◌&&◌, ◌||◌, Option, none, some, List, [], ◌∷◌, ℤ, pos, eqb_ℤ, leb_ℤ,
  ltb_ℤ, ltb, Text, Map, lookup, insert, if◌then◌else◌, ◌==◌, bool_eq, text_instance,
}
use jbalance.Platform.{Platform}

pub record RateLimitConfig (p : Platform) : Type 0 where
  pub enabled : Bool
  pub rps : p.Float
  pub burst : ℤ

pub record ClientBucket (p : Platform) : Type 0 where
  pub limiter : p.Limiter
  pub last_seen : ℕ

pub record GroupRateLimiter (p : Platform) : Type 0 where
  pub cfg : RateLimitConfig p
  pub clients : Map Text (ClientBucket p)
  pub last_keep : ℕ

abbrev pub second : ℕ
second = 1_000_000_000

abbrev pub minute : ℕ
minute = 60_000_000_000

abbrev pub idle_bucket_ttl : ℕ
idle_bucket_ttl = 600_000_000_000

module _ ⦃p : Platform⦄ where
  abbrev pub f_zero : p.Float
  f_zero = p.f_int (pos 0)

  unfoldable pub new_group_rate_limiter : ℕ → GroupRateLimiter p
  new_group_rate_limiter now = record {
    cfg = record { enabled = Bool.false; rps = f_zero; burst = pos 0 };
    clients = [];
    last_keep = now;
  }

  -- `cfg == g.cfg`
  unfoldable pub config_eq : RateLimitConfig p → RateLimitConfig p → Bool
  config_eq c d = c.enabled == d.enabled && p.f_eq c.rps d.rps && eqb_ℤ c.burst d.burst

  unfoldable pub set_config : RateLimitConfig p → GroupRateLimiter p → GroupRateLimiter p
  unfolding config_eq
  set_config cfg g = if config_eq cfg g.cfg then g else record g { cfg = cfg; clients = [] }

  -- The loop of sweepLocked over the map.
  unfoldable pub keep_recent : ℕ → Map Text (ClientBucket p) → Map Text (ClientBucket p)
  keep_recent now [] = []
  keep_recent now ((k, b) ∷ m) =
      if ltb idle_bucket_ttl (now - b.last_seen)
      then keep_recent now m
      else (k, b) ∷ keep_recent now m

  unfoldable pub sweep_locked : ℕ → GroupRateLimiter p → GroupRateLimiter p
  sweep_locked now g =
      if ltb (now - g.last_keep) minute
      then g
      else record g { last_keep = now; clients = keep_recent now g.clients }

  -- The depth of a new bucket: the configured burst, else one second's worth, at least 1.
  unfoldable pub effective_burst : RateLimitConfig p → ℤ
  effective_burst cfg =
      if leb_ℤ cfg.burst (pos 0)
      then (if ltb_ℤ (p.f_trunc cfg.rps) (pos 1) then pos 1 else p.f_trunc cfg.rps)
      else cfg.burst

  -- The limiter of a client, made if the map has none.
  unfoldable pub client_limiter : RateLimitConfig p → Option (ClientBucket p) → p.Limiter
  client_limiter cfg none = p.new_limiter cfg.rps (effective_burst cfg)
  client_limiter cfg (some b) = b.limiter

  -- A sweep, then the client's bucket takes the request.
  unfoldable pub take_token : ℕ → Text → GroupRateLimiter p → GroupRateLimiter p × Bool
  take_token now client g =
      let (l, ok) = p.limiter_allow now (client_limiter g.cfg (lookup client g.clients)) in
      (record g { clients = insert client (record { limiter = l; last_seen = now }) g.clients }, ok)

  unfoldable pub allow : ℕ → Text → GroupRateLimiter p → GroupRateLimiter p × Bool
  unfolding take_token sweep_locked
  allow now client g =
      if not g.cfg.enabled || p.f_le g.cfg.rps f_zero
      then (g, true)
      else take_token now client (sweep_locked now g)
