-- ===== src/Dataplane/Proxy.antt =====
-- internal/dataplane/proxy.go: the proxy's settings, and the choice of a backend with session
-- affinity. The reverse proxy of net/http is outside.
pub mod Affinity
use jbalance.Common.{
  ℕ, Bool, true, false, not, ◌&&◌, Option, none, some, List, [], ◌∷◌, ℤ, Text, bytes, is_empty,
  text_instance, ◌==◌, if◌then◌else◌, Run, returned, ◌>>=◌, leb_ℤ, ltb_ℤ, eqb_ℤ, pos, ◌*◌,
}
use jbalance.Platform.{Platform}
use jbalance.Dataplane.RateLimit.{second}
use jbalance.Dataplane.Ring.{RingPoint}
use jbalance.Dataplane.Backends.{BackendList, pin_to}
use jbalance.Dataplane.Selection.{next_for_key}

-- A duration is a number of nanoseconds.
pub record ProxyConfig : Type 0 where
  pub connect_timeout : ℤ
  pub response_timeout : ℤ
  pub max_retries : ℤ
  pub retry_backoff : ℤ
  pub backend_protocol : Text

unfoldable pub with_defaults : ProxyConfig → ProxyConfig
with_defaults c = record c {
  connect_timeout = if leb_ℤ c.connect_timeout (pos 0) then pos (5 * second) else c.connect_timeout;
  response_timeout =
      if ltb_ℤ c.response_timeout (pos 0)
      then pos 0
      else if eqb_ℤ c.response_timeout (pos 0)
      then pos (30 * second)
      else c.response_timeout;
  max_retries = if ltb_ℤ c.max_retries (pos 0) then pos 0 else c.max_retries;
  retry_backoff = if leb_ℤ c.retry_backoff (pos 0) then pos 50_000_000 else c.retry_backoff;
}

-- The name of the affinity cookie.
unfoldable pub affinity_cookie : Text → Text
affinity_cookie name = if is_empty name then bytes "jb_affinity" else name

-- The cookie that is set on the response: its name and the address.
abbrev pub Cookie : Type 0
Cookie = Option (Text × Text)

module _ ⦃p : Platform⦄ where
  abbrev pub Chosen : Type 0
  Chosen = Run (BackendList p × Option Text × Cookie)

  -- NextForKey, whose address is then pinned where affinity is on.
  unfoldable pub choose_next :
      (ℕ → ℕ → ℕ) → (List RingPoint → List RingPoint) → ℕ → Text → BackendList p → Chosen
  unfolding next_for_key affinity_cookie
  choose_next intn sort now client b = do
    (b', a) ← next_for_key intn sort now client b
    returned (
      b',
      a,
      if b.sticky.enabled
          then elim a [
            | none ↦ none
            | some addr ↦ some (affinity_cookie b.sticky.cookie_name, addr)
          ]
          else none,
    )

  -- What follows the answer of PinTo for the cookie's value.
  unfoldable pub pinned_or_next :
      (ℕ → ℕ → ℕ)
      → (List RingPoint → List RingPoint)
      → ℕ
      → Text
      → Text
      → Text
      → BackendList p × Bool
      → Chosen
  unfolding choose_next affinity_cookie
  pinned_or_next intn sort now client name value (b, true) =
      returned (b, some value, some (affinity_cookie name, value))
  pinned_or_next intn sort now client name value (b, false) = choose_next intn sort now client b

  -- `cookie` is the value of the affinity cookie of the request, if it has one; `client` is its
  -- address.
  unfoldable pub select_backend :
      (ℕ → ℕ → ℕ)
      → (List RingPoint → List RingPoint)
      → ℕ
      → Text
      → Option Text
      → BackendList p
      → Chosen
  unfolding choose_next pinned_or_next pin_to
  select_backend intn sort now client cookie b =
      if not b.sticky.enabled then choose_next intn sort now client b else elim cookie [
        | none ↦ choose_next intn sort now client b
        | some value ↦
            if is_empty value
            then choose_next intn sort now client b
            else pinned_or_next intn sort now client b.sticky.cookie_name value (pin_to now value b)
      ]
