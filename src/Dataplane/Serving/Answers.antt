-- ===== src/Dataplane/Serving/Answers.antt =====
-- The answers of the handler, in the order of its tests.
use jbalance.Common.{
  ℕ, ◌≤◌, ◌≡◌, ◌≢◌, ◌++◌, ◌==◌, Option, bytes, text_eq_iff, text_instance, arith, refl, true, false,
  none, some, Text, returned, Bool-cases, inl, inr, ◌⊎◌,
}
use jbalance.Platform.{Platform, FloatOrder}
use jbalance.Proto.{RouteAuth}
use jbalance.Dataplane.Backends.{BackendList, rate_limit_allow}
use jbalance.Dataplane.Backends.Invariant.{IsValid, IsValid-mono, rate_limit_allow-IsValid}
use jbalance.Dataplane.Backends.Updates.{Unique}
use jbalance.Dataplane.Proxy.{ProxyConfig}
use jbalance.Dataplane.EdgeAuth.{
  JwtLibrary, Verdict, admitted, rejected, authenticate, enabled, auth_challenge, api_key_header,
}
use jbalance.Dataplane.Serving.{
  Incoming, Surroundings, Served, Handled, handler, handle_admitted, serve_with_retries, answer,
}
use jbalance.Dataplane.Serving.Actives.{actives}
use jbalance.Dataplane.Serving.Attempts.{IsOrderly, IsOut, FoundOne, serve_with_retries-Settles}

module _ ⦃p : Platform⦄ where
  -- The answer of the attempts, or 503 because no backend may be selected.
  abbrev pub Answered : Surroundings → Served p → Handled → Type 0
  Answered env s h =
      ((s.available ≡ true) × (h.status_code ≡ s.status_code))
      ⊎ ((s.available ≡ false)
          × (h.status_code ≡ 503)
          × (k : ℕ) × IsOut (env.selected_at k) h.backends)

  -- The limit is passed and the attempts are answered, or it is not and nothing is tried.
  abbrev pub Limited : ProxyConfig → Surroundings → Incoming → ℕ → BackendList p → Handled → Type 0
  Limited cfg env r now b h =
      (((rate_limit_allow now r.client b).1 ≡ false)
        × (h.status_code ≡ 429)
        × (h.challenge ≡ none)
        × (h.served ≡ none)
        × (h.backends ≡ (rate_limit_allow now r.client b).0))
      ⊎ (((rate_limit_allow now r.client b).1 ≡ true)
          × (s : Served p) × (serve_with_retries cfg env r (rate_limit_allow now r.client b).0
              ≡ returned s)
          × (h.served ≡ some s)
          × (h.challenge ≡ none)
          × (h.backends ≡ s.backends)
          × Answered env s h)

  -- The challenge of the rule's mode.
  abbrev pub Challenges : RouteAuth → Option Text → Type 0
  Challenges auth c =
      ((auth.mode ≡ bytes "jwt") × (c ≡ some (bytes "Bearer")))
      ⊎ ((auth.mode ≡ bytes "api_key") × (c ≡ some (bytes "ApiKey header=" ++ api_key_header auth)))

  -- A request that its rule rejects gets a 401 and leaves the list alone; the others are limited.
  abbrev pub Answers :
      JwtLibrary
      → RouteAuth
      → ProxyConfig
      → Surroundings
      → Incoming
      → ℕ
      → BackendList p
      → Handled
      → Type 0
  Answers j auth cfg env r now b h =
      (((reason : Text) × (authenticate j auth r.header ≡ rejected reason))
        × (h.status_code ≡ 401)
        × Challenges auth h.challenge
        × (h.served ≡ none)
        × (h.backends ≡ b))
      ⊎ ((((auth.mode ≢ bytes "api_key") × (auth.mode ≢ bytes "jwt"))
            ⊎ (authenticate j auth r.header ≡ admitted))
          × Limited cfg env r now b h)

  enabled-cases :
      (auth : RouteAuth)
      → ((enabled auth ≡ true) × Challenges auth (some (auth_challenge auth)))
        ⊎ ((enabled auth ≡ false) × (auth.mode ≢ bytes "api_key") × (auth.mode ≢ bytes "jwt"))
  unfolding enabled auth_challenge
  enabled-cases auth = elim (Bool-cases (auth.mode == bytes "jwt")) [
    | inl q ↦ inl (ground (arith, q), inl ((text_eq_iff auth.mode (bytes "jwt")).0 q, rw q refl))
    | inr q ↦ elim (Bool-cases (auth.mode == bytes "api_key")) [
      | inl k ↦
          inl (ground (arith, k), inr ((text_eq_iff auth.mode (bytes "api_key")).0 k, rw q refl))
      | inr k ↦ inr (
        ground (arith, k, q),
        λ e. let t = (text_eq_iff auth.mode (bytes "api_key")).1 e in cc (t, k),
        λ e. let t = (text_eq_iff auth.mode (bytes "jwt")).1 e in cc (t, q),
      )
    ]
  ]

  answer-Answered : (env : Surroundings) (s : Served p) → FoundOne env s → Answered env s (answer s)
  answer-Answered env s (inl a) = inl (a, rw a refl)
  answer-Answered env s (inr (a, k, out)) = inr (a, rw a refl, k, out)

  Verdict-cases : (v : Verdict) → (v ≡ admitted) ⊎ ((reason : Text) × (v ≡ rejected reason))
  Verdict-cases admitted = inl refl
  Verdict-cases (rejected reason) = inr (reason, refl)

module _ ⦃p : Platform⦄ (o : FloatOrder p) (j : JwtLibrary) (auth : RouteAuth) (cfg : ProxyConfig)
    (env : Surroundings) (orderly : IsOrderly env) (r : Incoming) where
  handle_admitted-Limited :
      (now : ℕ) (b : BackendList p)
      → now ≤ env.selected_at 0
      → IsValid now b
      → Unique b.entries
      → (h : Handled) × (handle_admitted cfg env r now b ≡ returned h)
        × Limited cfg env r now b h
        × (actives h.backends.entries ≡ actives b.entries)
  unfolding handle_admitted rate_limit_allow
  handle_admitted-Limited now b t v u =
      let limited = (rate_limit_allow now r.client b).0 in
      let (s, e, few, same, one, found) =
        serve_with_retries-Settles o cfg env orderly r limited
          (IsValid-mono (rate_limit_allow-IsValid now r.client b v) t) u in
      elim (Bool-cases (rate_limit_allow now r.client b).1) [
        | inl q ↦
            rw (q, e)
              (
                answer s,
                refl,
                inr (refl, s, refl, refl, refl, refl, answer-Answered env s found),
                same,
              )
        | inr q ↦ rw q (_, refl, inl (refl, refl, refl, refl, refl), refl)
      ]

  -- On a valid list with unique addresses, in orderly surroundings and the order of float64, the
  -- handler always answers. A rule of mode jwt or api_key that rejects the request gives 401 with
  -- the challenge Bearer or ApiKey header=, no attempt and an untouched list; a rule of any other
  -- mode, known or not, admits it. A client over its limit gets 429 and no attempt. Else the status
  -- is that of the attempts, or 503 where at some attempt no backend may be selected. In every case
  -- each backend has as many outstanding requests as before.
  pub handler-Answers :
      (now : ℕ) (b : BackendList p)
      → now ≤ env.selected_at 0
      → IsValid now b
      → Unique b.entries
      → (h : Handled) × (handler j auth cfg env r now b ≡ returned h)
        × Answers j auth cfg env r now b h
        × (actives h.backends.entries ≡ actives b.entries)
  unfolding handler
  handler-Answers now b t v u =
      let (h, e, l, same) = handle_admitted-Limited now b t v u in
      elim (enabled-cases auth) [
        | inr (q, keys, tokens) ↦ rw q (h, e, inr (inl (keys, tokens), l), same)
        | inl (q, challenge) ↦ elim (Verdict-cases (authenticate j auth r.header)) [
          | inl w ↦ rw (q, w) (h, e, inr (inr refl, l), same)
          | inr (reason, w) ↦
              rw (q, w) (_, refl, inl ((reason, refl), refl, challenge, refl, refl), refl)
        ]
      ]
