-- ===== src/Dataplane/EdgeAuth/Admission.antt =====
-- Who is admitted.
use mathlib.Core.List.{Memᴰ}
use jbalance.Common.{
  ◌≡◌, refl, sym, ap, ◌∙◌, ◌↔◌, Bool, true, false, ◌||◌, Option, none, some, List, [], ◌∷◌, Text,
  bytes, is_empty, text_eq, text_eq_iff, text_instance, if◌then◌else◌, Bool-cases, inl, inr, ◌⊎◌,
  arith, ltb, length,
}
use jbalance.Platform.{Platform}
use jbalance.Proto.{RouteAuth}
use jbalance.Http.{Values}
use jbalance.Dataplane.EdgeAuth.{
  Verdict, admitted, rejected, JwtLibrary, any_key, authenticate, check_api_key, check_jwt,
  header_get, api_key_header, authorize, token_from_context, request_metadata, bearer_token,
  key_func, demanded, token_verdict, parse_verdict, by_mode,
}

any_key-kept : (presented : Text) (ks : List Text) → any_key presented ks true ≡ true
unfolding any_key
any_key-kept presented [] = refl
any_key-kept presented (k ∷ ks) = elim (Bool-cases (text_eq presented k)) [
  | inl q ↦ rw q (any_key-kept presented ks)
  | inr q ↦ rw q (any_key-kept presented ks)
]

any_key-Mem :
    (presented : Text) (ks : List Text) → any_key presented ks false ≡ true → Memᴰ presented ks
unfolding any_key
any_key-Mem presented [] h = cc h
any_key-Mem presented (k ∷ ks) h = elim (Bool-cases (text_eq presented k)) [
  | inl q ↦ Memᴰ.head ((text_eq_iff presented k).0 q)
  | inr q ↦ Memᴰ.tail (
      any_key-Mem presented ks
        (sym (ap (λ (b : Bool). any_key presented ks (if b then true else false)) q) ∙ h))
]

Mem-any_key :
    (presented : Text) (ks : List Text) → Memᴰ presented ks → any_key presented ks false ≡ true
unfolding any_key
Mem-any_key presented [] m = elim m [ ]
Mem-any_key presented (k ∷ ks) (Memᴰ.head e) =
    rw ((text_eq_iff presented k).1 e) (any_key-kept presented ks)
Mem-any_key presented (k ∷ ks) (Memᴰ.tail m) = elim (Bool-cases (text_eq presented k)) [
  | inl q ↦ rw q (any_key-kept presented ks)
  | inr q ↦ rw q (Mem-any_key presented ks m)
]

open_modes :
    (m : Text) → (is_empty m || text_eq m (bytes "none")) ≡ true → (m ≡ []) ⊎ (m ≡ bytes "none")
open_modes [] h = inl refl
open_modes (x ∷ xs) h = inr ((text_eq_iff (x ∷ xs) (bytes "none")).0 h)

-- The switch, read from the verdict.
by_mode_iff :
    (m : Text) (k l : Verdict)
    → (by_mode m k l ≡ admitted) ↔ (
        ((m ≡ []) ⊎ (m ≡ bytes "none"))
        ⊎ ((m ≡ bytes "api_key") × (k ≡ admitted))
        ⊎ ((m ≡ bytes "jwt") × (l ≡ admitted)))
unfolding by_mode text_eq
by_mode_iff m k l = (forth, back)
  where
    forth :
        by_mode m k l ≡ admitted
        → ((m ≡ []) ⊎ (m ≡ bytes "none"))
          ⊎ ((m ≡ bytes "api_key") × (k ≡ admitted))
          ⊎ ((m ≡ bytes "jwt") × (l ≡ admitted))
    forth h = elim (Bool-cases (is_empty m || text_eq m (bytes "none"))) [
      | inl q ↦ inl (open_modes m q)
      | inr q ↦ elim (Bool-cases (text_eq m (bytes "api_key"))) [
        | inl r ↦ inr (inl ((text_eq_iff m (bytes "api_key")).0 r, ground arith))
        | inr r ↦ elim (Bool-cases (text_eq m (bytes "jwt"))) [
          | inl s ↦ inr (inr ((text_eq_iff m (bytes "jwt")).0 s, ground arith))
          | inr s ↦ ground arith
        ]
      ]
    ]

    back :
        ((m ≡ []) ⊎ (m ≡ bytes "none"))
          ⊎ ((m ≡ bytes "api_key") × (k ≡ admitted))
          ⊎ ((m ≡ bytes "jwt") × (l ≡ admitted))
        → by_mode m k l ≡ admitted
    back (inl (inl e)) = ap (λ x. by_mode x k l) e
    back (inl (inr e)) = ap (λ x. by_mode x k l) e
    back (inr (inl (e, h))) = ap (λ x. by_mode x k l) e ∙ h
    back (inr (inr (e, h))) = ap (λ x. by_mode x k l) e ∙ h

module _ ⦃p : Platform⦄ where
  -- The request has one of the rule's keys, in its header.
  abbrev pub HasKey : RouteAuth → Values → Type 0
  HasKey a h =
      (is_empty (header_get h (api_key_header a)) ≡ false)
      × Memᴰ (header_get h (api_key_header a)) a.api_keys

  -- The request has a bearer token that the parser finds valid.
  abbrev pub HasToken : JwtLibrary → RouteAuth → Values → Type 0
  HasToken j a h =
      (token : Text) × (bearer_token (header_get h (bytes "Authorization")) ≡ some token)
      × (j.parse token (key_func j a) (demanded a.expected_issuer) (demanded a.expected_audience)
          ≡ some true)

  check_api_key_iff : (a : RouteAuth) (h : Values) → (check_api_key a h ≡ admitted) ↔ HasKey a h
  unfolding check_api_key
  check_api_key_iff a h = elim (Bool-cases (is_empty (header_get h (api_key_header a)))) [
    | inl e ↦ rw e (λ q. cc q, λ k. cc k.0)
    | inr e ↦ elim (Bool-cases (any_key (header_get h (api_key_header a)) a.api_keys false)) [
      | inl k ↦ rw (e, k) (λ q. (refl, any_key-Mem _ a.api_keys k), λ q. refl)
      | inr k ↦
          rw (e, k) (λ q. cc q, λ q. let found = Mem-any_key _ a.api_keys q.1 in cc (found, k))
    ]
  ]

  check_jwt_iff :
      (j : JwtLibrary) (a : RouteAuth) (h : Values) → (check_jwt j a h ≡ admitted) ↔ HasToken j a h
  unfolding check_jwt
  check_jwt_iff j a h = go (bearer_token (header_get h (bytes "Authorization")))
    where
      parsed : (o : Option Bool) → (parse_verdict o ≡ admitted) ↔ (o ≡ some true)
      parsed none = (λ q. cc q, λ q. cc q)
      parsed (some true) = (λ q. refl, λ q. refl)
      parsed (some false) = (λ q. cc q, λ q. cc q)

      given : Text → Option Bool
      given token =
          j.parse token (key_func j a) (demanded a.expected_issuer) (demanded a.expected_audience)

      go :
          (o : Option Text)
          → (token_verdict j a o ≡ admitted)
            ↔ ((token : Text) × (o ≡ some token) × (given token ≡ some true))
      go none = (λ q. cc q, λ (token, t, v). cc t)
      go (some token) = (
        λ q. (token, refl, (parsed (given token)).0 q),
        λ (u, t, v). let same : token ≡ u = cc t in (parsed (given token)).1 (ap given same ∙ v),
      )

  -- What the rule's mode demands; an unknown mode admits nobody.
  abbrev pub Admits : JwtLibrary → RouteAuth → Values → Type 0
  Admits j a h =
      ((a.mode ≡ []) ⊎ (a.mode ≡ bytes "none"))
      ⊎ ((a.mode ≡ bytes "api_key") × HasKey a h)
      ⊎ ((a.mode ≡ bytes "jwt") × HasToken j a h)

  -- Authentication passes exactly if the mode is empty or none, or it is api_key and the key header
  -- has one of the rule's keys, not empty, or it is jwt and there is a bearer token that the parser
  -- finds valid with the rule's key function, issuer and audience; an unknown mode admits nobody.
  pub authenticate_iff :
      (j : JwtLibrary) (a : RouteAuth) (h : Values) → (authenticate j a h ≡ admitted) ↔ Admits j a h
  unfolding authenticate
  authenticate_iff j a h =
      let mode = by_mode_iff a.mode (check_api_key a h) (check_jwt j a h) in
      let key = check_api_key_iff a h in
      let token = check_jwt_iff j a h in
      (λ q. there key.0 token.0 (mode.0 q), λ q. mode.1 (here key.1 token.1 q))
    where
      there :
          (check_api_key a h ≡ admitted → HasKey a h)
          → (check_jwt j a h ≡ admitted → HasToken j a h)
          → ((a.mode ≡ []) ⊎ (a.mode ≡ bytes "none"))
            ⊎ ((a.mode ≡ bytes "api_key") × (check_api_key a h ≡ admitted))
            ⊎ ((a.mode ≡ bytes "jwt") × (check_jwt j a h ≡ admitted))
          → Admits j a h
      there f g (inl o) = inl o
      there f g (inr (inl (e, q))) = inr (inl (e, f q))
      there f g (inr (inr (e, q))) = inr (inr (e, g q))

      here :
          (HasKey a h → check_api_key a h ≡ admitted)
          → (HasToken j a h → check_jwt j a h ≡ admitted)
          → Admits j a h
          → ((a.mode ≡ []) ⊎ (a.mode ≡ bytes "none"))
            ⊎ ((a.mode ≡ bytes "api_key") × (check_api_key a h ≡ admitted))
            ⊎ ((a.mode ≡ bytes "jwt") × (check_jwt j a h ≡ admitted))
      here f g (inl o) = inl o
      here f g (inr (inl (e, q))) = inr (inl (e, f q))
      here f g (inr (inr (e, q))) = inr (inr (e, g q))

  -- What authorize answers to a token, where one is expected.
  abbrev answered : Text → Text → Verdict
  answered expected token =
      if is_empty token
      then rejected (bytes "missing bearer token")
      else if text_eq token expected
      then admitted
      else rejected (bytes "invalid bearer token")

  answered_iff :
      (expected token : Text)
      → is_empty expected ≡ false
      → (answered expected token ≡ admitted) ↔ (token ≡ expected)
  answered_iff expected [] e =
      (λ q. cc q, λ q. let bad : true ≡ false = ap is_empty q ∙ e in cc bad)
  answered_iff expected (x ∷ token) e = elim (Bool-cases (text_eq (x ∷ token) expected)) [
    | inl q ↦ rw q (λ h. (text_eq_iff (x ∷ token) expected).0 q, λ h. refl)
    | inr q ↦
        rw q (λ h. cc h, λ h. let same = (text_eq_iff (x ∷ token) expected).1 h in cc (same, q))
  ]

  -- Where a token is expected and EqualFold finds the prefix equal to itself, a call with the
  -- metadata of a client's token is authorized exactly if the token is the expected one.
  pub authorize-request_metadata :
      (expected token : Text)
      → p.equal_fold (bytes "Bearer ") (bytes "Bearer ") ≡ true
      → is_empty expected ≡ false
      → (authorize expected (request_metadata token ∷ []) ≡ admitted) ↔ (token ≡ expected)
  unfolding authorize token_from_context bearer_token request_metadata
  authorize-request_metadata expected token f e =
      let long : ltb (length (request_metadata token)) 7 ≡ false = ground arith in
      let got : bearer_token (request_metadata token) ≡ some token = rw (long, f) refl in
      let sent : token_from_context (request_metadata token ∷ []) ≡ token =
        rw (got, token_from_context) refl in
      let answer : authorize expected (request_metadata token ∷ []) ≡ answered expected token =
        rw e (ap (answered expected) sent) in
      rw answer (answered_iff expected token e)
