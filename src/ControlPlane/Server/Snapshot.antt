-- ===== src/ControlPlane/Server/Snapshot.antt =====
-- What becomes of a provider's backends on the way to the data planes.
use jbalance.Common.{
  ◌≡◌, refl, ap, ◌∙◌, Bool, true, false, Option, none, some, List, [], ◌∷◌, ℤ, Text, text_instance,
  Bool-cases, Option-cases, inl, inr, Map, lookup, text_eq, text_eq_iff, if◌then◌else◌,
}
use jbalance.Proto.{Backend}
use jbalance.ControlPlane.Stores.{Override}
use jbalance.ControlPlane.Server.{attach, overridden, sent_backends}
use jbalance.Dataplane.Backends.Updates.{find_backend}

-- Whether the operator has drained the address.
abbrev pub drained : Option Override → Bool
drained none = false
drained (some ov) = ov.drained

-- The weight the operator wants, or the provider's.
abbrev pub wanted : Option Override → ℤ → ℤ
wanted none w = w
wanted (some ov) w = elim ov.weight [ none ↦ w | some v ↦ v ]

-- The backend of an address that data planes get for the provider's.
abbrev pub sent : Option Override → Option Backend → Option Backend
sent ov none = none
sent ov (some b) = if drained ov then none else some (record b { weight = wanted ov b.weight })

overridden-sent : (ov : Option Override) (b : Backend) → overridden ov b ≡ sent ov (some b)
unfolding overridden
overridden-sent none b = refl
overridden-sent (some ov) b = elim (Bool-cases ov.drained) [
  | inl h ↦ rw h refl
  | inr h ↦ elim (Option-cases ov.weight) [ inl q ↦ rw (h, q) refl | inr (w, q) ↦ rw (h, q) refl ]
]

attach-same :
    (ov : Option Override) (a : Text) (b : Backend) (bs rest : List Backend)
    → text_eq b.address a ≡ true
    → find_backend a rest ≡ sent ov (find_backend a bs)
    → find_backend a (attach (sent ov (some b)) rest) ≡ sent ov (some b)
attach-same none a b bs rest h r = rw h refl
attach-same (some ov) a b bs rest h r = elim (Bool-cases ov.drained) [
  | inl d ↦ simp d (r ∙ gone d (find_backend a bs))
  | inr d ↦ simp (d, h) refl
]
  where
    gone : ov.drained ≡ true → (o : Option Backend) → sent (some ov) o ≡ none
    gone d none = refl
    gone d (some c) = rw d refl

attach-other :
    (ov : Option Override) (a : Text) (b : Backend) (rest : List Backend)
    → text_eq b.address a ≡ false
    → find_backend a (attach (sent ov (some b)) rest) ≡ find_backend a rest
attach-other none a b rest h = rw h refl
attach-other (some ov) a b rest h = elim (Bool-cases ov.drained) [
  | inl d ↦ simp d refl
  | inr d ↦ simp (d, h) refl
]

-- For every address the set that is sent has the provider's backend with the operator's weight,
-- or none if the operator has drained it.
pub find-sent_backends :
    (ovs : Map Text Override) (bs : List Backend) (a : Text)
    → find_backend a (sent_backends ovs bs) ≡ sent (lookup a ovs) (find_backend a bs)
unfolding sent_backends
find-sent_backends ovs [] a = refl
find-sent_backends ovs (b ∷ bs) a =
    let rest = find-sent_backends ovs bs a in
    ap (λ o. find_backend a (attach o (sent_backends ovs bs)))
      (overridden-sent (lookup b.address ovs) b)
    ∙ elim (Bool-cases (text_eq b.address a)) [
      | inl h ↦
          let q : b.address ≡ a = (text_eq_iff b.address a).0 h in
          let same = ap (λ x. lookup x ovs) q in
          rw (same, h) (attach-same (lookup a ovs) a b bs (sent_backends ovs bs) h rest)
      | inr h ↦ attach-other (lookup b.address ovs) a b (sent_backends ovs bs) h ∙ rw h rest
    ]
