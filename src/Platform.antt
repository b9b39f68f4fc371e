-- ===== src/Platform.antt =====
-- What the program takes from elsewhere: float64 arithmetic, and the token bucket of
-- golang.org/x/time/rate, which is not in the repository; strings.EqualFold, strings.TrimSpace and the
-- canonical form of a header's name, which go by tables of the standard library.
use jbalance.Common.{Text, ℕ, Bool, ◌≡◌, true, false, ℤ}

pub record Platform : Type 1 where
  -- float64: the tests `<`, `<=` and `==`, conversion from and to integers, sum, quotient.
  pub Float : Type 0
  pub f_lt : Float → Float → Bool
  pub f_le : Float → Float → Bool
  pub f_eq : Float → Float → Bool
  pub f_int : ℤ → Float
  pub f_add : Float → Float → Float
  pub f_div : Float → Float → Float
  pub f_trunc : Float → ℤ
  -- rate.NewLimiter(limit, burst), and Allow at a time.
  pub Limiter : Type 0
  pub new_limiter : Float → ℤ → Limiter
  pub limiter_allow : ℕ → Limiter → Limiter × Bool
  -- strings.EqualFold, strings.TrimSpace, and http.CanonicalHeaderKey.
  pub equal_fold : Text → Text → Bool
  pub trim_space : Text → Text
  pub canonical_key : Text → Text

-- `<` on float64 is a strict order (a NaN is less than nothing).
pub record FloatOrder (p : Platform) : Type 0 where
  pub irrefl : (x : p.Float) → p.f_lt x x ≡ false
  pub trans : (x y z : p.Float) → p.f_lt x y ≡ true → p.f_lt y z ≡ true → p.f_lt x z ≡ true
