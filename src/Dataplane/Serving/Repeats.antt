-- ===== src/Dataplane/Serving/Repeats.antt =====
-- Which requests are tried again, and how often.
use mathlib.Core.List.{Memᴰ}
use jbalance.Common.{
  bytes, ◌==◌, ◌+◌, ℤ, negsuc, eqb_ℤ, pos_part, text_eq_iff, text_instance, ℕ, ◌≤◌, ◌≡◌, refl, ap,
  Bool, true, false, not, ◌&&◌, ◌||◌, [], ◌∷◌, pos, Text, Bool-cases, inl, inr, ◌⊎◌, arith,
}
use jbalance.Platform.{Platform}
use jbalance.Dataplane.Proxy.{ProxyConfig}
use jbalance.Dataplane.Serving.{request_is_upgrade, Incoming, request_retryable, attempts}

-- A request of a safe method, without a body, that asks for no other protocol.
abbrev pub IsRepeatable : ⦃p : Platform⦄ → Incoming → Type 0
IsRepeatable r =
    Memᴰ r.request.method (bytes "GET" ∷ bytes "HEAD" ∷ bytes "OPTIONS" ∷ bytes "TRACE" ∷ [])
    × ((r.has_body ≡ false) ⊎ (r.content_length ≡ pos 0))
    × (request_is_upgrade r.header ≡ false)

-- One attempt, or as many more as retries are allowed where the request is repeatable.
abbrev pub IsAllowed : ⦃p : Platform⦄ → ProxyConfig → Incoming → ℕ → Type 0
IsAllowed cfg r n = (n ≤ 1) ⊎ ((n ≤ 1 + pos_part cfg.max_retries) × IsRepeatable r)

one_of_four :
    (m a b c d : Text) → (m == a || m == b || m == c || m == d) ≡ true → Memᴰ m (a ∷ b ∷ c ∷ d ∷ [])
one_of_four m a b c d h = elim (Bool-cases (m == a)) [
  | inl q ↦ Memᴰ.head ((text_eq_iff m a).0 q)
  | inr q ↦ elim (Bool-cases (m == b)) [
    | inl s ↦ Memᴰ.tail (Memᴰ.head ((text_eq_iff m b).0 s))
    | inr s ↦ elim (Bool-cases (m == c)) [
      | inl t ↦ Memᴰ.tail (Memᴰ.tail (Memᴰ.head ((text_eq_iff m c).0 t)))
      | inr t ↦ Memᴰ.tail (Memᴰ.tail (Memᴰ.tail (Memᴰ.head ((text_eq_iff m d).0 (ground arith)))))
    ]
  ]
]

no_body : (b : Bool) (n : ℤ) → (b && not (eqb_ℤ n (pos 0))) ≡ false → (b ≡ false) ⊎ (n ≡ pos 0)
no_body false n h = inl refl
no_body true (pos n) h = inr (ap pos (ground arith))
no_body true (negsuc n) h = ground arith

request_retryable-IsRepeatable :
    ⦃p : Platform⦄ (r : Incoming) → request_retryable r ≡ true → IsRepeatable r
unfolding request_retryable
request_retryable-IsRepeatable r h =
    let u : request_is_upgrade r.header ≡ false = ground (arith, h) in
    let b : (r.has_body && not (eqb_ℤ r.content_length (pos 0))) ≡ false = ground (arith, h) in
    let m : (r.request.method == bytes "GET"
          || r.request.method == bytes "HEAD"
          || r.request.method == bytes "OPTIONS"
          || r.request.method == bytes "TRACE")
        ≡ true =
      ground (arith, h) in
    (one_of_four r.request.method _ _ _ _ m, no_body r.has_body r.content_length b, u)

pub attempts-IsAllowed :
    ⦃p : Platform⦄ (cfg : ProxyConfig) (r : Incoming) (n : ℕ)
    → n ≤ attempts cfg (request_retryable r)
    → IsAllowed cfg r n
unfolding attempts
attempts-IsAllowed cfg r n h = elim (Bool-cases (request_retryable r)) [
  | inl q ↦
      let few : n ≤ 1 + pos_part cfg.max_retries = ground (arith, h) in
      inr (few, request_retryable-IsRepeatable r q)
  | inr q ↦ inl (ground (arith, h))
]
