-- ===== src/Common/Panics.antt =====
-- The outcome of a Go call that may index a slice: a value, or the panic of an index out of range.
use Prim.Native.Nat.{ℕ}
use mathlib.Core.Path.{◌≡◌}
use mathlib.Core.List.{List}
use mathlib.Core.Option.{Option, none, some}
use jbalance.Common.Lists.{get_elem?}

pub data Run {ℓ} (A : Type ℓ) : Type ℓ where
  returned : A → Run A
  panicked : Run A

infixl 5 ◌>>=◌
abbrev pub ◌>>=◌ {ℓ κ} : {A : Type ℓ} {B : Type κ} → Run A → (A → Run B) → Run B
returned a >>= f = f a
panicked >>= f = panicked

abbrev pub or_panic {ℓ} : {A : Type ℓ} → Option A → Run A
or_panic none = panicked
or_panic (some a) = returned a

-- `xs[i]`
unfoldable pub index {ℓ} : {A : Type ℓ} → List A → ℕ → Run A
index xs i = or_panic (get_elem? xs i)

module _ {ℓ} {A : Type ℓ} where
  pub index-of_get_elem? :
      (xs : List A) (i : ℕ) {x : A} → get_elem? xs i ≡ some x → index xs i ≡ returned x
  unfolding index
  index-of_get_elem? xs i e = rw e
