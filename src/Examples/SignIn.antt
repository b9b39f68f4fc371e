-- ===== src/Examples/SignIn.antt =====
-- Signing in to the console.
use jbalance.Dataplane.Ring.{itoa, itoa_from}
use jbalance.Dataplane.Ring.Decimal.{read_from, itoa-read}
use jbalance.Common.{
  ◌%◌, ◌^◌, lt→ltb, Bool-cases, inl, inr, if◌then◌else◌, negsuc, ◌/◌, ◌+◌, ap, ◌∙◌, Option, none, ℤ,
  ltb, ◌++◌, ◌≡◌, refl, ℕ, zero, suc, true, false, some, [], ◌∷◌, pos, Text, bytes, All, ◌==◌,
  text_instance, nat_eq, lookup, insert, text_eq, arith,
}
use jbalance.Admin.LoginLimiter.{
  LoginLimiter, record_failure, new_login_limiter, allowed, record_failures, record_success,
  allowed-record_failures,
}
use jbalance.Admin.Session.{
  Signer, Decimal, dot, sign_session, issue_session, valid_session, valid_session-issue_session,
}

-- Three failures within 60 lock for 100.
abbrev three_tries : LoginLimiter
three_tries = new_login_limiter 3 60 100

abbrev guest : Text
guest = bytes "10.0.0.7"

locked_out : allowed 131 guest (record_failures (10 ∷ 20 ∷ 31 ∷ []) guest three_tries) ≡ false
unfolding allowed record_failures record_failure new_login_limiter lookup insert text_eq
locked_out = refl

unlocked_later : allowed 132 guest (record_failures (10 ∷ 20 ∷ 31 ∷ []) guest three_tries) ≡ true
unfolding allowed record_failures record_failure new_login_limiter lookup insert text_eq
unlocked_later = refl

allowed-record_failures_example :
    (allowed 131 guest (record_failures (10 ∷ 20 ∷ 31 ∷ []) guest three_tries) ≡ false)
    × ((j : Text)
        → (guest == j) ≡ false
        → allowed 131 j (record_failures (10 ∷ 20 ∷ 31 ∷ []) guest three_tries)
          ≡ allowed 131 j three_tries)
    × (allowed 131 guest
          (record_success guest (record_failures (10 ∷ 20 ∷ 31 ∷ []) guest three_tries))
        ≡ true)
unfolding lookup new_login_limiter text_eq
allowed-record_failures_example =
    allowed-record_failures guest 10 (20 ∷ 31 ∷ []) three_tries 131 refl
      (ground arith, (ground arith, tt))

-- Numbers as strconv writes and reads them, for the int64 that are not negative, and a signature
-- that shows its secret.
abbrev read_int : ℕ → Option ℤ
read_int n = if ltb n (2 ^ 63) then some (pos n) else none

abbrev plain_signer : Signer
plain_signer = record {
  mac = λ secret text. secret ++ text;
  format_int = λ n. elim n [ pos k ↦ itoa k | negsuc k ↦ 45 ∷ itoa (suc k) ];
  parse_int = λ text. read_int (read_from 0 text);
}

abbrev NoDots : Text → Type 0
NoDots = All (λ x. nat_eq.same x dot ≡ false)

itoa_from-NoDots : (f n : ℕ) (acc : Text) → NoDots acc → NoDots (itoa_from f n acc)
unfolding itoa_from
itoa_from-NoDots zero n acc h = h
itoa_from-NoDots (suc f) n acc h =
    let digit : nat_eq.same (b'0' + n % 10) dot ≡ false = ground arith in
    elim (Bool-cases (ltb n 10)) [
      | inl l ↦ rw l (digit, h)
      | inr l ↦ rw l (itoa_from-NoDots f (n / 10) ((b'0' + n % 10) ∷ acc) (digit, h))
    ]

plain_signer-Decimal : Decimal plain_signer
unfolding itoa
plain_signer-Decimal = record {
  parse-format = λ n h. ap read_int (itoa-read n) ∙ rw (lt→ltb n (2 ^ 63) h) refl;
  no_dot = λ n. itoa_from-NoDots (suc n) n [] tt;
}

valid_session-issue_session_example :
    valid_session plain_signer 7 (bytes "new") (some (issue_session plain_signer 5 (bytes "old")))
    ≡ false
unfolding text_eq sign_session
valid_session-issue_session_example =
    valid_session-issue_session plain_signer plain_signer-Decimal 5 7 (bytes "old") (bytes "new")
      (omega arith)
