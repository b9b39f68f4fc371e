-- ===== src/ControlPlane/Stores.antt =====
-- internal/controlplane/overrides.go, algorithm.go, sticky.go and ratelimit.go: the settings of a
-- group, held in memory; the files they are written to are not modelled. A duration is a number
-- of nanoseconds.
use jbalance.Common.{
  ◌*◌, Bool, false, not, Option, none, some, List, [], ◌∷◌, ℤ, pos, leb_ℤ, ltb_ℤ, Text, bytes,
  is_empty, any, text_instance, ◌==◌, Map, lookup, insert, delete, if◌then◌else◌,
}
use jbalance.Platform.{Platform}
use jbalance.Dataplane.RateLimit.{minute, f_zero}

-- A nil weight is `none`.
pub record Override : Type 0 where
  pub weight : Option ℤ  -- int32
  pub drained : Bool

-- The data of an OverrideStore: group, then address.
abbrev pub Overrides : Type 0
Overrides = Map Text (Map Text Override)

-- s.stored[group], where a missing group reads as a nil map.
unfoldable pub group_overrides : Text → Overrides → Map Text Override
group_overrides group stored = elim (lookup group stored) [ none ↦ [] | some m ↦ m ]

unfoldable pub set_override : Text → Text → Override → Overrides → Overrides
unfolding group_overrides
set_override group address ov stored =
    insert group (insert address ov (group_overrides group stored)) stored

unfoldable pub clear_override : Text → Text → Overrides → Overrides
clear_override group address stored = elim (lookup group stored) [
  | none ↦ stored
  | some m ↦ elim (delete address m) [
    | [] ↦ delete group stored
    | x ∷ rest ↦ insert group (x ∷ rest) stored
  ]
]

abbrev pub valid_algorithms : List Text
valid_algorithms =
    bytes "round_robin"
    ∷ bytes "least_connections"
    ∷ bytes "random"
    ∷ bytes "p2c"
    ∷ bytes "consistent_hash"
    ∷ []

unfoldable pub is_valid_algorithm : Text → Bool
is_valid_algorithm a = any (λ v. v == a) valid_algorithms

unfoldable pub get_algorithm : Text → Map Text Text → Text
unfolding is_valid_algorithm
get_algorithm group stored = elim (lookup group stored) [
  | none ↦ bytes "round_robin"
  | some a ↦ if is_valid_algorithm a then a else bytes "round_robin"
]

-- `none` is the error for an algorithm that is not known.
unfoldable pub set_algorithm : Text → Text → Map Text Text → Option (Map Text Text)
unfolding is_valid_algorithm
set_algorithm group a stored =
    if not (is_valid_algorithm a) then none else some (insert group a stored)

pub record StickyConfig : Type 0 where
  pub enabled : Bool
  pub cookie_name : Text
  pub ttl : ℤ

unfoldable pub effective_cookie_name : StickyConfig → Text
effective_cookie_name c = if is_empty c.cookie_name then bytes "jb_affinity" else c.cookie_name

unfoldable pub effective_ttl : StickyConfig → ℤ
effective_ttl c = if leb_ℤ c.ttl (pos 0) then pos (30 * minute) else c.ttl

unfoldable pub get_sticky : Text → Map Text StickyConfig → StickyConfig
get_sticky group stored = elim (lookup group stored) [
  | none ↦ record { enabled = false; cookie_name = []; ttl = pos 0 }
  | some c ↦ c
]

unfoldable pub set_sticky : Text → StickyConfig → Map Text StickyConfig → Map Text StickyConfig
set_sticky group c stored = insert group c stored

pub record RateLimitConfig (p : Platform) : Type 0 where
  pub enabled : Bool
  pub rps : p.Float
  pub burst : ℤ

module _ ⦃p : Platform⦄ where
  unfoldable pub effective_rps : RateLimitConfig p → p.Float
  effective_rps c = if p.f_le c.rps f_zero then p.f_int (pos 10) else c.rps

  unfoldable pub effective_burst : RateLimitConfig p → ℤ
  unfolding effective_rps
  effective_burst c =
      if leb_ℤ c.burst (pos 0)
      then (let b = p.f_trunc (effective_rps c) in if ltb_ℤ b (pos 1) then pos 1 else b)
      else c.burst

  unfoldable pub get_rate_limit : Text → Map Text (RateLimitConfig p) → RateLimitConfig p
  get_rate_limit group stored = elim (lookup group stored) [
    | none ↦ record { enabled = false; rps = f_zero; burst = pos 0 }
    | some c ↦ c
  ]

  unfoldable pub set_rate_limit :
      Text → RateLimitConfig p → Map Text (RateLimitConfig p) → Map Text (RateLimitConfig p)
  set_rate_limit group c stored = insert group c stored
