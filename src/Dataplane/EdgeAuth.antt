-- ===== src/Dataplane/EdgeAuth.antt =====
-- internal/dataplane/edgeauth.go and internal/grpcauth/grpcauth.go: the authentication of requests
-- at the edge, and of the data planes' calls. The parsers of golang-jwt and of PEM keys are outside.
pub mod Admission
use jbalance.Common.{
  ℕ, Bool, true, false, not, ◌&&◌, ◌||◌, Option, none, some, List, [], ◌∷◌, ◌++◌, Text, bytes,
  is_empty, text_instance, ◌==◌, if◌then◌else◌, length, ltb, drop, take,
}
use jbalance.Platform.{Platform}
use jbalance.Proto.{RouteAuth}
use jbalance.Http.{Values, header_values}

-- The error that authenticate returns, or none.
pub data Verdict : Type 0 where
  admitted : Verdict
  rejected : Text → Verdict

unfoldable pub enabled : RouteAuth → Bool
enabled a = a.mode == bytes "api_key" || a.mode == bytes "jwt"

-- The kinds of token.Method, and the key that the key function gives.
pub data SigningMethod : Type 0 where
  hmac rsa other_method : SigningMethod

pub data Key : Type 0 where
  secret_key : Text → Key
  public_key : Text → Key

-- jwt.Parse of a token with a key function, an issuer and an audience if they are demanded: none
-- for an error, or whether the token is valid; and parseRSAPublicKey.
pub record JwtLibrary : Type 0 where
  pub parse : Text → (SigningMethod → Option Key) → Option Text → Option Text → Option Bool
  pub rsa_public_key : Text → Option Text

-- `if s != ""`
abbrev pub demanded : Text → Option Text
demanded s = if is_empty s then none else some s

unfoldable pub key_func : JwtLibrary → RouteAuth → SigningMethod → Option Key
key_func j a hmac = if is_empty a.hmac_secret then none else some (secret_key a.hmac_secret)
key_func j a rsa =
    if is_empty a.rsa_public_key_pem
    then none
    else elim (j.rsa_public_key a.rsa_public_key_pem) [ none ↦ none | some k ↦ some (public_key k) ]
key_func j a other_method = none

unfoldable pub api_key_header : RouteAuth → Text
api_key_header a = if is_empty a.api_key_header then bytes "X-API-Key" else a.api_key_header

-- The loop over the keys, which runs to its end.
unfoldable pub any_key : Text → List Text → Bool → Bool
any_key presented [] ok = ok
any_key presented (k ∷ ks) ok = any_key presented ks (if presented == k then true else ok)

abbrev pub first_value : List Text → Text
first_value [] = []
first_value (v ∷ vs) = v

-- What checkJWT makes of the parser's answer, and of the token of the header.
abbrev pub parse_verdict : Option Bool → Verdict
parse_verdict none = rejected (bytes "parse error")
parse_verdict (some true) = admitted
parse_verdict (some false) = rejected (bytes "invalid token")

abbrev pub token_verdict : JwtLibrary → RouteAuth → Option Text → Verdict
token_verdict j a none = rejected (bytes "missing bearer token")
token_verdict j a (some token) =
    parse_verdict
      (j.parse token (key_func j a) (demanded a.expected_issuer) (demanded a.expected_audience))

-- The switch over the mode.
unfoldable pub by_mode : Text → Verdict → Verdict → Verdict
by_mode mode api_key jwt =
    if is_empty mode || mode == bytes "none"
    then admitted
    else if mode == bytes "api_key"
    then api_key
    else if mode == bytes "jwt"
    then jwt
    else rejected (bytes "unknown auth mode")

unfoldable pub auth_challenge : RouteAuth → Text
unfolding api_key_header
auth_challenge a =
    if a.mode == bytes "jwt" then bytes "Bearer" else bytes "ApiKey header=" ++ api_key_header a

module _ ⦃p : Platform⦄ where
  -- r.Header.Get(name)
  unfoldable pub header_get : Values → Text → Text
  unfolding header_values
  header_get h name = first_value (header_values h name)

  unfoldable pub check_api_key : RouteAuth → Values → Verdict
  unfolding header_get any_key api_key_header
  check_api_key a h =
      let presented = header_get h (api_key_header a) in
      if is_empty presented
      then rejected (bytes "missing API key")
      else if any_key presented a.api_keys false
      then admitted
      else rejected (bytes "invalid API key")

  -- What follows "Bearer " in any case, if the text is long enough and starts so.
  unfoldable pub bearer_token : Text → Option Text
  bearer_token s =
      if ltb (length s) 7
      then none
      else if p.equal_fold (take 7 s) (bytes "Bearer ")
      then some (drop 7 s)
      else none

  unfoldable pub check_jwt : JwtLibrary → RouteAuth → Values → Verdict
  unfolding header_get bearer_token key_func
  check_jwt j a h = token_verdict j a (bearer_token (header_get h (bytes "Authorization")))

  unfoldable pub authenticate : JwtLibrary → RouteAuth → Values → Verdict
  unfolding check_api_key check_jwt by_mode
  authenticate j a h = by_mode a.mode (check_api_key a h) (check_jwt j a h)

  -- grpcauth: the first authorization value of the call's metadata; no metadata has none.
  unfoldable pub token_from_context : List Text → Text
  unfolding bearer_token
  token_from_context [] = []
  token_from_context (v ∷ vs) = elim (bearer_token v) [ none ↦ [] | some token ↦ token ]

  unfoldable pub authorize : Text → List Text → Verdict
  unfolding token_from_context
  authorize expected vals =
      if is_empty expected
      then admitted
      else if is_empty (token_from_context vals)
      then rejected (bytes "missing bearer token")
      else if token_from_context vals == expected
      then admitted
      else rejected (bytes "invalid bearer token")

  -- GetRequestMetadata, the authorization value that a client sends.
  unfoldable pub request_metadata : Text → Text
  request_metadata token = bytes "Bearer " ++ token
