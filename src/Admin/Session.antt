-- ===== src/Admin/Session.antt =====
-- internal/admin/session.go: the signed cookie of a session. The code of a message's authentication
-- (crypto/hmac with SHA-256, in unpadded base64url) and strconv's numbers are parameters; a time is
-- a number of nanoseconds, and an argument of the call that reads the clock.
use jbalance.Common.{
  ◌≡◌, refl, ap, ◌∙◌, ℕ, ◌<◌, ◌^◌, ◌+◌, ◌/◌, ◌*◌, Bool-cases, inl, inr, Bool, false, not, ◌&&◌,
  Option, none, some, [], ◌∷◌, ◌++◌, ℤ, pos, ltb_ℤ, ltb, Text, is_empty, text_instance, ◌==◌,
  if◌then◌else◌, All, arith, nat_eq, beq_refl,
}
use jbalance.CertPairs.{cut}

pub record Signer : Type 0 where
  -- base64.RawURLEncoding of the HMAC of a text under a secret.
  pub mac : Text → Text → Text
  -- strconv.FormatInt(n, 10) and strconv.ParseInt(s, 10, 64).
  pub format_int : ℤ → Text
  pub parse_int : Text → Option ℤ

abbrev pub second : ℕ
second = 1_000_000_000

abbrev pub session_duration : ℕ
session_duration = 12 * 3600 * second

-- time.Time.Unix
abbrev pub unix : ℕ → ℤ
unix t = pos (t / second)

abbrev pub dot : ℕ
dot = 46

-- strconv's numbers: what is written of an int64 that is not negative reads back, and has no dot.
pub record Decimal (s : Signer) : Type 0 where
  pub parse-format : (n : ℕ) → n < 2 ^ 63 → s.parse_int (s.format_int (pos n)) ≡ some (pos n)
  pub no_dot : (n : ℕ) → All (λ x. nat_eq.same x dot ≡ false) (s.format_int (pos n))

cut-append :
    (c : ℕ) (before after : Text)
    → All (λ x. nat_eq.same x c ≡ false) before
    → cut c (before ++ c ∷ after) ≡ some (before, after)
unfolding cut
cut-append c [] after h = rw (beq_refl c) refl
cut-append c (x ∷ before) after h = rw h.0 (rw (cut-append c before after h.1) refl)

module _ (s : Signer) where
  unfoldable pub sign_session : Text → ℤ → Text
  sign_session secret expiry = s.mac secret (s.format_int expiry)

  -- The value of the cookie.
  unfoldable pub issue_session : ℕ → Text → Text
  issue_session now secret =
      let expiry = unix (now + session_duration) in
      s.format_int expiry ++ dot ∷ sign_session secret expiry

  abbrev valid_until : ℕ → Text → Text → Option ℤ → Bool
  valid_until now secret sig none = false
  valid_until now secret sig (some expiry) =
      if ltb_ℤ expiry (unix now) then false else sig == sign_session secret expiry

  abbrev valid_parts : ℕ → Text → Option (Text × Text) → Bool
  valid_parts now secret none = false
  valid_parts now secret (some (expiry, sig)) = valid_until now secret sig (s.parse_int expiry)

  -- The request's cookie, where it has one.
  unfoldable pub valid_session : ℕ → Text → Option Text → Bool
  valid_session now secret none = false
  valid_session now secret (some value) =
      if is_empty value then false else valid_parts now secret (cut dot value)

  not_empty : (before after : Text) → is_empty (before ++ dot ∷ after) ≡ false
  not_empty [] after = refl
  not_empty (x ∷ before) after = refl

  valid_until-pos :
      (now n : ℕ) (secret sig : Text)
      → valid_until now secret sig (some (pos n))
        ≡ (not (ltb n (now / second)) && (sig == sign_session secret (pos n)))
  valid_until-pos now n secret sig =
      let same : ltb_ℤ (pos n) (unix now) ≡ ltb n (now / second) = ground arith in
      elim (Bool-cases (ltb n (now / second))) [
        | inl q ↦ rw (same ∙ q) (rw q refl)
        | inr q ↦ rw (same ∙ q) (rw q refl)
      ]

  valid_session-text :
      (d : Decimal s) (now n : ℕ) (secret sig : Text)
      → n < 2 ^ 63
      → valid_session now secret (some (s.format_int (pos n) ++ dot ∷ sig))
        ≡ (not (ltb n (now / second)) && (sig == sign_session secret (pos n)))
  unfolding valid_session
  valid_session-text d now n secret sig m = rw (not_empty (s.format_int (pos n)) sig) (
      ap (valid_parts now secret) (cut-append dot (s.format_int (pos n)) sig (d.no_dot n))
      ∙ ap (valid_until now secret sig) (d.parse-format n m)
      ∙ valid_until-pos now n secret sig)

  -- The cookie that issueSession sets is a valid session exactly until twelve hours later, by the
  -- second of the clock, and only under a secret that signs the expiry the same way: where strconv
  -- reads back the int64 that it writes, and writes no dot, and the expiry is an int64.
  pub valid_session-issue_session :
      (d : Decimal s) (issued now : ℕ) (secret other : Text)
      → (issued + session_duration) / second < 2 ^ 63
      → valid_session now other (some (issue_session issued secret)) ≡ (
          not (ltb ((issued + session_duration) / second) (now / second))
          && (sign_session secret (unix (issued + session_duration))
              == sign_session other (unix (issued + session_duration))))
  unfolding issue_session
  valid_session-issue_session d issued now secret other m =
      valid_session-text d now ((issued + session_duration) / second) other
        (sign_session secret (unix (issued + session_duration))) m
