-- ===== src/Config/Conditions.antt =====
-- The guards of the validators, as conditions on the settings.
use jbalance.Common.{
  ◌≡◌, ◌≢◌, ◌↔◌, ◌⊎◌, inl, inr, refl, ap, Bool, true, false, not, ◌&&◌, ◌||◌, [], ◌∷◌, ℤ, pos,
  negsuc, ◌<ℤ◌, ◌≤ℤ◌, ltb_ℤ, eqb_ℤ, Text, is_empty, bool_eq, ◌==◌, arith, Bool-cases,
}
use jbalance.Config.{Problem, problem_if}
use jbalance.Config.Checks.{problem_if_iff}

-- A guard that holds exactly against a condition reports exactly against it.
pub guards : {P : Type 0} (b : Bool) (q : Problem) → ((b ≡ false) ↔ P) → (problem_if b q ≡ []) ↔ P
guards b q f = let plain = problem_if_iff b q in (λ h. f.0 (plain.0 h), λ h. plain.1 (f.1 h))

pub set_iff : (t : Text) → (is_empty t ≡ false) ↔ (t ≢ [])
set_iff [] = (λ h. cc h, λ h. absurd (h refl))
set_iff (x ∷ xs) = (λ h e. cc e, λ h. refl)

pub unset_iff : (t : Text) → (not (is_empty t) ≡ false) ↔ (t ≡ [])
unset_iff [] = (λ h. refl, λ h. refl)
unset_iff (x ∷ xs) = (λ h. cc h, λ h. cc h)

-- Two settings that go together.
pub together_iff : (s t : Text) → (not (is_empty s == is_empty t) ≡ false) ↔ ((s ≡ []) ↔ (t ≡ []))
together_iff [] [] = (λ h. (λ e. refl, λ e. refl), λ h. refl)
together_iff [] (x ∷ xs) = (λ h. cc h, λ h. let e = h.0 refl in cc e)
together_iff (x ∷ xs) [] = (λ h. cc h, λ h. let e = h.1 refl in cc e)
together_iff (x ∷ xs) (y ∷ ys) = (λ h. (λ e. cc e, λ e. cc e), λ h. refl)

pub within_iff :
    (low high n : ℤ) → ((ltb_ℤ n low || ltb_ℤ high n) ≡ false) ↔ ((low ≤ℤ n) × (n ≤ℤ high))
within_iff low high n = (λ h. (ground (arith, h), ground (arith, h)), λ h. ground (arith, h))

-- 0, or in range.
pub zero_or_within_iff :
    (low high n : ℤ)
    → ((not (eqb_ℤ n (pos 0)) && (ltb_ℤ n low || ltb_ℤ high n)) ≡ false)
      ↔ ((n ≡ pos 0) ⊎ ((low ≤ℤ n) × (n ≤ℤ high)))
zero_or_within_iff low high n = (
  λ h. elim (Bool-cases (eqb_ℤ n (pos 0))) [
    | inl q ↦ inl (zero n q)
    | inr q ↦ inr ((within_iff low high n).0 (ground (arith, h, q)))
  ],
  λ h. elim h [
    | inl e ↦ rw e (ground arith)
    | inr r ↦ let w = (within_iff low high n).1 r in ground (arith, w)
  ],
)
  where
    zero : (n : ℤ) → eqb_ℤ n (pos 0) ≡ true → n ≡ pos 0
    zero (pos k) h = ap pos (ground (arith, h))
    zero (negsuc k) h = ground (arith, h)

-- A cap that is not below what it caps, where both are positive.
pub capped_iff :
    (high n : ℤ)
    → ((ltb_ℤ (pos 0) high && ltb_ℤ (pos 0) n && ltb_ℤ high n) ≡ false)
      ↔ (pos 0 <ℤ high → pos 0 <ℤ n → n ≤ℤ high)
capped_iff high n = (
  λ h a b. ground (arith, h, a, b),
  λ h. elim (Bool-cases (ltb_ℤ high n)) [
    | inr q ↦ ground (arith, q)
    | inl q ↦ elim (Bool-cases (ltb_ℤ (pos 0) high && ltb_ℤ (pos 0) n)) [
      | inr r ↦ ground (arith, r)
      | inl r ↦
          let a : pos 0 <ℤ high = ground (arith, r) in
          let b : pos 0 <ℤ n = ground (arith, r) in
          let c : n ≤ℤ high = h a b in ground (arith, c, q)
    ]
  ],
)

-- A test that matters only under a switch.
pub under_iff :
    {P : Type 0} (on b : Bool) → ((b ≡ false) ↔ P) → ((on && b) ≡ false) ↔ (on ≡ true → P)
under_iff true b f = (λ h e. f.0 h, λ h. f.1 (h refl))
under_iff false b f = (λ h e. cc e, λ h. refl)

pub both_iff :
    {P Q : Type 0} (a b : Bool)
    → ((a ≡ false) ↔ P)
    → ((b ≡ false) ↔ Q)
    → ((a || b) ≡ false) ↔ (P × Q)
both_iff true b f g = (λ h. cc h, λ h. let e = f.1 h.0 in cc e)
both_iff false b f g = (λ h. (f.0 refl, g.0 h), λ h. g.1 h.1)

pub three_iff :
    {P Q R : Type 0} {a b c : Bool}
    → ((a ≡ false) ↔ P)
    → ((b ≡ false) ↔ Q)
    → ((c ≡ false) ↔ R)
    → ((a || b || c) ≡ false) ↔ (P × Q × R)
three_iff {a = a} {b = b} {c = c} f g h =
    let pair = both_iff a b f g in
    let all = both_iff (a || b) c pair h in
    (λ e. let (pq, r) = all.0 e in (pq.0, pq.1, r), λ (x, y, z). all.1 ((x, y), z))

pub same_iff : {b : Bool} → (b ≡ false) ↔ (b ≡ false)
same_iff = (λ h. h, λ h. h)

pub passes_iff : (b : Bool) → (not b ≡ false) ↔ (b ≡ true)
passes_iff true = (λ h. refl, λ h. refl)
passes_iff false = (λ h. cc h, λ h. cc h)

-- A test that matters only where a setting is given.
pub given_iff :
    {P : Type 0} (t : Text) (b : Bool)
    → ((b ≡ false) ↔ P)
    → ((not (is_empty t) && b) ≡ false) ↔ (t ≢ [] → P)
given_iff [] b f = (λ h e. absurd (e refl), λ h. refl)
given_iff (x ∷ xs) b f = (λ h e. f.0 h, λ h. f.1 (h (λ e. cc e)))

-- A load that is tried where two settings are given.
pub loads_iff :
    (s t : Text) (loads : Bool)
    → ((not (is_empty s) && not (is_empty t) && not loads) ≡ false)
      ↔ (s ≢ [] → t ≢ [] → loads ≡ true)
loads_iff [] t loads = (λ h e. absurd (e refl), λ h. refl)
loads_iff (x ∷ xs) [] loads = (λ h d e. absurd (e refl), λ h. refl)
loads_iff (x ∷ xs) (y ∷ ys) true = (λ h d e. refl, λ h. refl)
loads_iff (x ∷ xs) (y ∷ ys) false = (λ h. cc h, λ h. let e = h (λ e. cc e) (λ e. cc e) in cc e)

-- The same under a switch.
pub loads_under_iff :
    (on : Bool) (s t : Text) (loads : Bool)
    → ((on && not (is_empty s) && not (is_empty t) && not loads) ≡ false)
      ↔ (on ≡ true → s ≢ [] → t ≢ [] → loads ≡ true)
loads_under_iff true s t loads = let f = loads_iff s t loads in (λ h e. f.0 h, λ h. f.1 (h refl))
loads_under_iff false s t loads = (λ h e. cc e, λ h. refl)
