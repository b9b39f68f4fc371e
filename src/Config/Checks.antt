-- ===== src/Config/Checks.antt =====
-- When a check finds nothing.
use mathlib.Core.List.{Memᴰ}
use jbalance.Common.{
  ℕ, ◌≡◌, ◌↔◌, inl, inr, refl, sym, ap, ◌∙◌, Bool, true, false, not, ◌||◌, Option, none, some, List,
  [], ◌∷◌, ◌++◌, ℤ, pos, ◌<ℤ◌, ◌≤ℤ◌, leb_ℤ, ltb_ℤ, Text, is_empty, text_eq, text_eq_iff,
  text_instance, ◌==◌, any, if◌then◌else◌, Bool-cases, arith, nat_eq,
}
use jbalance.Config.{
  Problem, System, report, problem_if, only_if, check_positive, check_non_negative, check_one_of,
  check_listen_addr, listen_problems, port_problems, check_dial_addr, dial_problems,
  dial_port_problems, check_file_exists, stat_problems,
}

-- All of the conditions.
abbrev pub Holds : List (Type 0) → Type 0
Holds [] = Unit
Holds (P ∷ Ps) = P × Holds Ps

append-nil_split : (ps qs : List Problem) → ps ++ qs ≡ [] → (ps ≡ []) × (qs ≡ [])
append-nil_split [] qs h = (refl, h)
append-nil_split (x ∷ ps) qs h = cc h

-- Each check finds nothing exactly under its condition.
infixr 5 ◌&◌
pub data Finds : List (List Problem) → List (Type 0) → Type 1 where
  done : Finds [] []
  ◌&◌ :
      {P : Type 0} {Ps : List (Type 0)} {ps : List Problem} {rest : List (List Problem)}
      → ((ps ≡ []) ↔ P)
      → Finds rest Ps
      → Finds (ps ∷ rest) (P ∷ Ps)

pub report_iff :
    (checks : List (List Problem)) (Ps : List (Type 0))
    → Finds checks Ps
    → (report checks ≡ []) ↔ Holds Ps
unfolding report
report_iff _ _ done = (λ h. tt, λ h. refl)
report_iff (ps ∷ rest) (P ∷ Ps) (f & g) =
    let below = report_iff rest Ps g in
    (
      λ h. let (a, b) = append-nil_split ps (report rest) h in (f.0 a, below.0 b),
      λ (a, b). rw (f.1 a) (below.1 b),
    )

pub problem_if_iff : (b : Bool) (q : Problem) → (problem_if b q ≡ []) ↔ (b ≡ false)
problem_if_iff true q = (λ h. cc h, λ h. cc h)
problem_if_iff false q = (λ h. refl, λ h. refl)

pub only_if_iff :
    {P : Type 0} (b : Bool) (ps : List Problem)
    → ((ps ≡ []) ↔ P)
    → (only_if b ps ≡ []) ↔ (b ≡ true → P)
only_if_iff true ps f = (λ h e. f.0 h, λ h. f.1 (h refl))
only_if_iff false ps f = (λ h e. cc e, λ h. refl)

pub check_positive_iff : (name : Text) (d : ℤ) → (check_positive name d ≡ []) ↔ (pos 0 <ℤ d)
unfolding check_positive
check_positive_iff name d =
    let plain = problem_if_iff (leb_ℤ d (pos 0)) (Problem.must_be_positive name) in
    (λ h. let n = plain.0 h in ground arith, λ h. plain.1 (ground arith))

pub check_non_negative_iff : (name : Text) (d : ℤ) → (check_non_negative name d ≡ []) ↔ (pos 0 ≤ℤ d)
unfolding check_non_negative
check_non_negative_iff name d =
    let plain = problem_if_iff (ltb_ℤ d (pos 0)) (Problem.must_not_be_negative name) in
    (λ h. let n = plain.0 h in ground arith, λ h. plain.1 (ground arith))

any-Mem :
    (value : Text) (allowed : List Text) → any (λ a. value == a) allowed ≡ true → Memᴰ value allowed
unfolding any
any-Mem value [] h = cc h
any-Mem value (a ∷ as') h = elim (Bool-cases (text_eq value a)) [
  | inl q ↦ Memᴰ.head ((text_eq_iff value a).0 q)
  | inr q ↦ Memᴰ.tail (any-Mem value as' (sym (ap (λ b. b || any (λ x. value == x) as') q) ∙ h))
]

Mem-any :
    (value : Text) (allowed : List Text) → Memᴰ value allowed → any (λ a. value == a) allowed ≡ true
unfolding any
Mem-any value [] m = elim m [ ]
Mem-any value (a ∷ as') (Memᴰ.head e) = rw ((text_eq_iff value a).1 e) refl
Mem-any value (a ∷ as') (Memᴰ.tail m) = let rest = Mem-any value as' m in ground arith

pub check_one_of_iff :
    (name value : Text) (allowed : List Text)
    → (check_one_of name value allowed ≡ []) ↔ Memᴰ value allowed
unfolding check_one_of
check_one_of_iff name value allowed =
    let plain = problem_if_iff (not (any (λ a. value == a) allowed)) (Problem.not_one_of name) in
    (
      λ h. let n = plain.0 h in any-Mem value allowed (ground arith),
      λ m. let found = Mem-any value allowed m in plain.1 (rw found refl),
    )

module _ (sys : System) where
  -- A host and a port that can be looked up and is not 0.
  abbrev pub Listens : Option (Text × Text) → Type 0
  Listens addr =
      (host : Text) × (port : Text) × (n : ℕ) × (addr ≡ some (host, port))
      × (is_empty port ≡ false)
      × (sys.lookup_port port ≡ some n)
      × (nat_eq.same n 0 ≡ false)

  port_problems_iff :
      (name port : Text) (o : Option ℕ)
      → (port_problems sys name o ≡ []) ↔ ((n : ℕ) × (o ≡ some n) × (nat_eq.same n 0 ≡ false))
  port_problems_iff name port none = (λ h. cc h, λ (n, e, z). cc e)
  port_problems_iff name port (some n) =
      let plain = problem_if_iff (nat_eq.same n 0) (Problem.port_zero name) in
      (λ h. (n, refl, plain.0 h), λ (k, e, z). let same : n ≡ k = cc e in plain.1 (rw same z))

  listen_problems_iff :
      (name : Text) (o : Option (Text × Text)) → (listen_problems sys name o ≡ []) ↔ Listens o
  listen_problems_iff name none = (λ h. cc h, λ (host, port, n, e, f, l, z). cc e)
  listen_problems_iff name (some (host, port)) =
      let looked = port_problems_iff name port (sys.lookup_port port) in
      elim (Bool-cases (is_empty port)) [
        | inl q ↦ rw q (
          λ h. cc h,
          λ (a, b, n, e, f, l, z).
              let same : port ≡ b = cc e in let bad = sym q ∙ ap is_empty same ∙ f in cc bad,
        )
        | inr q ↦ rw q (
          λ h. let (n, l, z) = looked.0 h in (host, port, n, refl, q, l, z),
          λ (a, b, n, e, f, l, z).
              let same : port ≡ b = cc e in looked.1 (n, ap sys.lookup_port same ∙ l, z),
        )
      ]

  pub check_listen_addr_iff :
      (name addr : Text) (allow_empty : Bool)
      → (check_listen_addr sys name addr allow_empty ≡ [])
        ↔ (if is_empty addr then allow_empty ≡ true else Listens (sys.split_host_port addr))
  unfolding check_listen_addr
  check_listen_addr_iff name [] allow_empty =
      let plain = problem_if_iff (not allow_empty) (Problem.must_not_be_empty name) in
      (λ h. let n = plain.0 h in ground arith, λ h. plain.1 (rw h refl))
  check_listen_addr_iff name (x ∷ xs) allow_empty =
      listen_problems_iff name (sys.split_host_port (x ∷ xs))

  -- A host that is not empty and a port that can be looked up.
  abbrev pub Dials : Option (Text × Text) → Type 0
  Dials addr =
      (host : Text) × (port : Text) × (n : ℕ) × (addr ≡ some (host, port))
      × (is_empty host ≡ false)
      × (is_empty port ≡ false)
      × (sys.lookup_port port ≡ some n)

  dial_cases :
      (name : Text) (a b : Bool) (o : Option ℕ)
      → ((problem_if a (Problem.missing_host name)
            ++ (if b then Problem.missing_port name ∷ [] else dial_port_problems sys name o))
          ≡ [])
        ↔ ((n : ℕ) × (a ≡ false) × (b ≡ false) × (o ≡ some n))
  dial_cases name true b o = (λ h. cc h, λ (n, e, f, l). cc e)
  dial_cases name false true o = (λ h. cc h, λ (n, e, f, l). cc f)
  dial_cases name false false none = (λ h. cc h, λ (n, e, f, l). cc l)
  dial_cases name false false (some n) = (λ h. (n, refl, refl, refl), λ h. refl)

  dial_problems_iff :
      (name : Text) (o : Option (Text × Text)) → (dial_problems sys name o ≡ []) ↔ Dials o
  dial_problems_iff name none = (λ h. cc h, λ (host, port, n, e, f, g, l). cc e)
  dial_problems_iff name (some (host, port)) =
      let cases = dial_cases name (is_empty host) (is_empty port) (sys.lookup_port port) in
      (
        λ h. let (n, a, b, l) = cases.0 h in (host, port, n, refl, a, b, l),
        λ (x, y, n, e, a, b, l).
            let hosts : host ≡ x = cc e in
            let ports : port ≡ y = cc e in
            cases.1 (n, ap is_empty hosts ∙ a, ap is_empty ports ∙ b, ap sys.lookup_port ports ∙ l),
      )

  pub check_dial_addr_iff :
      (name addr : Text)
      → (check_dial_addr sys name addr ≡ [])
        ↔ (if is_empty addr then true ≡ false else Dials (sys.split_host_port addr))
  unfolding check_dial_addr
  check_dial_addr_iff name [] = (λ h. cc h, λ h. cc h)
  check_dial_addr_iff name (x ∷ xs) = dial_problems_iff name (sys.split_host_port (x ∷ xs))

  pub check_file_exists_iff :
      (name path : Text)
      → (check_file_exists sys name path ≡ [])
        ↔ (if is_empty path then Unit {0} else sys.stat path ≡ some false)
  unfolding check_file_exists
  check_file_exists_iff name [] = (λ h. tt, λ h. refl)
  check_file_exists_iff name (x ∷ xs) = go (sys.stat (x ∷ xs))
    where
      go : (o : Option Bool) → (stat_problems sys name o ≡ []) ↔ (o ≡ some false)
      go none = (λ h. cc h, λ h. cc h)
      go (some true) = (λ h. cc h, λ h. cc h)
      go (some false) = (λ h. refl, λ h. refl)
