-- ===== src/ControlPlane/Server/Equality.antt =====
-- backendSetsEqual of internal/controlplane/server.go, against the weights of the addresses.
use jbalance.Common.{
  ◌≡◌, refl, sym, ◌∙◌, Bool, true, false, not, Option, none, some, List, [], ◌∷◌, arith, ℤ, Text,
  text_instance, ◌↔◌, Map, lookup, insert, delete, text_eq_iff, text_eq_refl, if◌then◌else◌, ◌==◌,
  lookup-insert, lookup-delete, length, nat_eq,
}
use jbalance.Platform.{Platform}
use jbalance.Proto.{Backend, BackendSet}
use jbalance.ControlPlane.Server.{count_weights, used_up, backend_sets_equal}

-- The weight of the first backend with the address.
abbrev pub weight_at : Text → List Backend → Option ℤ
weight_at a [] = none
weight_at a (b ∷ bs) = if b.address == a then some b.weight else weight_at a bs

-- No two backends have one address.
unfoldable pub IsDistinct : List Backend → Type 0
IsDistinct [] = Unit {0}
IsDistinct (b ∷ bs) = (weight_at b.address bs ≡ none) × IsDistinct bs

-- Every address has the same weight in both.
abbrev pub SameWeights : List Backend → List Backend → Type 0
SameWeights xs ys = (a : Text) → weight_at a xs ≡ weight_at a ys

used_up_sound :
    (m : Map Text ℤ) (bs : List Backend) (a : Text)
    → used_up m bs ≡ true
    → lookup a m ≡ weight_at a bs
unfolding used_up lookup
used_up_sound [] [] a h = refl
used_up_sound (x ∷ m) [] a h = ground arith
used_up_sound m (b ∷ bs) a h =
    let rest = used_up_sound (delete b.address m) bs a in
    let gone = lookup-delete b.address a m in ground (arith, h, rest, gone, text_eq_iff b.address a)

used_up_complete :
    (m : Map Text ℤ) (bs : List Backend)
    → IsDistinct bs
    → ((a : Text) → lookup a m ≡ weight_at a bs)
    → used_up m bs ≡ true
unfolding used_up IsDistinct lookup
used_up_complete [] [] d h = refl
used_up_complete ((a, w) ∷ m) [] d h =
    let found : lookup a ((a, w) ∷ m) ≡ some w = rw (text_eq_refl a) refl in cc (found, h a)
used_up_complete m (b ∷ bs) d h =
    let here : lookup b.address m ≡ some b.weight =
      h b.address ∙ rw (text_eq_refl b.address) refl in
    let rest = used_up_complete (delete b.address m) bs d.1 (without m b bs d.0 h) in
    ground (arith, here, rest)
  where
    without :
        (m : Map Text ℤ) (b : Backend) (bs : List Backend)
        → weight_at b.address bs ≡ none
        → ((a : Text) → lookup a m ≡ weight_at a (b ∷ bs))
        → (a : Text) → lookup a (delete b.address m) ≡ weight_at a bs
    without m b bs d h a =
        ground (arith, d, h a, lookup-delete b.address a m, text_eq_iff b.address a)

lookup-count_weights :
    (m : Map Text ℤ) (bs : List Backend) (a : Text)
    → IsDistinct bs
    → lookup a (count_weights m bs) ≡ elim (weight_at a bs) [ none ↦ lookup a m | some w ↦ some w ]
unfolding count_weights IsDistinct
lookup-count_weights m [] a d = refl
lookup-count_weights m (b ∷ bs) a d = ground (
  arith,
  d.0,
  lookup-count_weights (insert b.address b.weight m) bs a d.1,
  lookup-insert b.address a b.weight m,
  text_eq_iff b.address a,
)

counted :
    (bs : List Backend) (a : Text) → IsDistinct bs → lookup a (count_weights [] bs) ≡ weight_at a bs
unfolding lookup
counted bs a d = lookup-count_weights [] bs a d ∙ known (weight_at a bs)
  where
    known : (o : Option ℤ) → elim o [ none ↦ none | some w ↦ some w ] ≡ o
    known none = refl
    known (some w) = refl

module _ ⦃p : Platform⦄ where
  -- Two sets, each with distinct addresses, are equal to backendSetsEqual exactly if they have as
  -- many backends and every address has the same weight in both: order and version do not matter.
  pub backend_sets_equal_iff :
      (x y : BackendSet p)
      → IsDistinct x.backends
      → IsDistinct y.backends
      → (backend_sets_equal (some x) (some y) ≡ true)
        ↔ ((length x.backends ≡ length y.backends) × SameWeights x.backends y.backends)
  unfolding backend_sets_equal
  backend_sets_equal_iff x y d e = (
    λ h. (
      (nat_eq.same_iff (length x.backends) (length y.backends)).0
          (same_length (nat_eq.same (length x.backends) (length y.backends)) _ h),
      λ a.
          sym (counted x.backends a d)
          ∙ used_up_sound (count_weights [] x.backends) y.backends a
              (same_weights (nat_eq.same (length x.backends) (length y.backends)) _ h),
    ),
    λ h. rw ((nat_eq.same_iff (length x.backends) (length y.backends)).1 h.0) (
        used_up_complete (count_weights [] x.backends) y.backends e
          (λ a. counted x.backends a d ∙ h.1 a)),
  )
    where
      same_length : (t u : Bool) → (if not t then false else u) ≡ true → t ≡ true
      same_length t u h = ground arith

      same_weights : (t u : Bool) → (if not t then false else u) ≡ true → u ≡ true
      same_weights t u h = ground arith
