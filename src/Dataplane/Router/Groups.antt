-- ===== src/Dataplane/Router/Groups.antt =====
-- TargetGroups, and the groups that requests go to.
use mathlib.Core.List.{Memᴰ}
use jbalance.Common.{
  ℕ, ◌≡◌, refl, sym, ◌∙◌, subst, true, ◌||◌, List, [], ◌∷◌, ◌++◌, arith, Text, is_empty, Bool-cases,
  inl, inr, ◌⊎◌, any, text_instance, ◌==◌, pos, pos_part, ltb_ℤ, leb_ℤ, ◌-ℤ◌, ℤ, Option, none, some,
}
use jbalance.Platform.{Platform}
use jbalance.Http.{Request}
use jbalance.Proto.{RouteRewrite, RouteAuth}
use jbalance.Dataplane.Router.{
  Route, RouteTable, RouteTarget, target_groups, add_group, add_split, add_routes, resolve,
  resolve_match, first_match, destination, pick_split, pick_from, last_group, total_weight,
  zero_rewrite, zero_auth, matches,
}

-- The group is named, or it is the empty name.
abbrev pub Named : Text → List Text → Type 0
Named g out = (is_empty g ≡ true) ⊎ Memᴰ g out

append-left : (x : Text) (xs ys : List Text) → Memᴰ x xs → Memᴰ x (xs ++ ys)
append-left x [] ys m = elim m [ ]
append-left x (y ∷ xs) ys (Memᴰ.head e) = Memᴰ.head e
append-left x (y ∷ xs) ys (Memᴰ.tail m) = Memᴰ.tail (append-left x xs ys m)

append-right : (x : Text) (xs ys : List Text) → Memᴰ x ys → Memᴰ x (xs ++ ys)
append-right x [] ys m = m
append-right x (y ∷ xs) ys m = Memᴰ.tail (append-right x xs ys m)

any-Mem : (g : Text) (out : List Text) → any (λ h. h == g) out ≡ true → Memᴰ g out
unfolding any
any-Mem g [] h = cc
any-Mem g (x ∷ xs) h = elim (Bool-cases (x == g)) [
  | inl e ↦ Memᴰ.head (sym ((text_instance.same_iff x g).0 e))
  | inr e ↦ Memᴰ.tail (any-Mem g xs (ground (arith, h, e)))
]

add_group-grows : (g x : Text) (out : List Text) → Named x out → Named x (add_group g out)
unfolding add_group
add_group-grows g x out (inl h) = inl h
add_group-grows g x out (inr m) = elim (Bool-cases (is_empty g || any (λ h. h == g) out)) [
  | inl h ↦ rw h (inr m)
  | inr h ↦ rw h (inr (append-left x out (g ∷ []) m))
]

add_group-has : (g : Text) (out : List Text) → Named g (add_group g out)
unfolding add_group
add_group-has g out = elim (Bool-cases (is_empty g)) [
  | inl h ↦ inl h
  | inr h ↦ elim (Bool-cases (any (λ x. x == g) out)) [
    | inl k ↦ simp (h, k) (inr (any-Mem g out k))
    | inr k ↦ simp (h, k) (inr (append-right g out (g ∷ []) (Memᴰ.head refl)))
  ]
]

add_split-grows :
    (x : Text) (ss : List RouteTarget) (out : List Text) → Named x out → Named x (add_split ss out)
unfolding add_split
add_split-grows x [] out h = h
add_split-grows x (s ∷ ss) out h =
    add_split-grows x ss (add_group s.group out) (add_group-grows s.group x out h)

add_split-has :
    (t : RouteTarget) (ss : List RouteTarget) (out : List Text)
    → Memᴰ t ss
    → Named t.group (add_split ss out)
unfolding add_split
add_split-has t [] out m = elim m [ ]
add_split-has t (s ∷ ss) out (Memᴰ.head e) =
    add_split-grows t.group ss (add_group s.group out) (rw e (add_group-has s.group out))
add_split-has t (s ∷ ss) out (Memᴰ.tail m) = add_split-has t ss (add_group s.group out) m

last_group-chosen :
    (s : RouteTarget) (ss : List RouteTarget)
    → (t : RouteTarget) × Memᴰ t (s ∷ ss) × (last_group s ss ≡ t.group)
unfolding last_group
last_group-chosen s [] = (s, Memᴰ.head refl, refl)
last_group-chosen s (t ∷ ts) = let (u, m, e) = last_group-chosen t ts in (u, Memᴰ.tail m, e)

pick_from-chosen :
    (n : ℤ) (ss : List RouteTarget) (last : Text)
    → (pick_from n ss last ≡ last)
      ⊎ ((t : RouteTarget) × Memᴰ t ss × (pick_from n ss last ≡ t.group))
unfolding pick_from
pick_from-chosen n [] last = inl refl
pick_from-chosen n (s ∷ ss) last = elim (Bool-cases (ltb_ℤ n s.weight)) [
  | inl h ↦ inr (s, Memᴰ.head refl, rw h refl)
  | inr h ↦ elim (pick_from-chosen (n -ℤ s.weight) ss last) [
    | inl e ↦ inl (rw h e)
    | inr (t, m, e) ↦ inr (t, Memᴰ.tail m, rw h e)
  ]
]

pick_split-chosen :
    (intn : ℕ → ℕ) (s : RouteTarget) (ss : List RouteTarget)
    → (t : RouteTarget) × Memᴰ t (s ∷ ss) × (pick_split intn s ss ≡ t.group)
unfolding pick_split
pick_split-chosen intn s [] = (s, Memᴰ.head refl, refl)
pick_split-chosen intn s (u ∷ us) =
    let total = total_weight (pos 0) (s ∷ u ∷ us) in
    elim (Bool-cases (leb_ℤ total (pos 0))) [
      | inl h ↦ (s, Memᴰ.head refl, rw h refl)
      | inr h ↦
          elim (pick_from-chosen (pos (intn (pos_part total))) (s ∷ u ∷ us)
            (last_group s (u ∷ us))) [
              | inl e ↦ let (t, m, k) = last_group-chosen s (u ∷ us) in (t, m, rw h (e ∙ k))
              | inr (t, m, e) ↦ (t, m, rw h e)
            ]
    ]

module _ ⦃p : Platform⦄ where
  add_routes-grows :
      (x : Text) (rs : List Route) (out : List Text) → Named x out → Named x (add_routes rs out)
  unfolding add_routes
  add_routes-grows x [] out h = h
  add_routes-grows x (r ∷ rs) out h =
      add_routes-grows x rs (add_split r.split (add_group r.target_group out)) (
        add_split-grows x r.split (add_group r.target_group out)
          (add_group-grows r.target_group x out h))

  destination-Named :
      (intn : ℕ → ℕ) (r : Route) (out : List Text)
      → Named (destination intn r) (add_split r.split (add_group r.target_group out))
  unfolding destination
  destination-Named intn r out = chosen r.split
    where
      chosen :
          (ss : List RouteTarget)
          → Named
              (elim ss [ [] ↦ r.target_group | s ∷ ss' ↦ pick_split intn s ss' ])
              (add_split ss (add_group r.target_group out))
      chosen [] = add_split-grows r.target_group [] _ (add_group-has r.target_group out)
      chosen (s ∷ ss) =
          let (t, m, e) = pick_split-chosen intn s ss in
          subst (λ g. Named g (add_split (s ∷ ss) (add_group r.target_group out))) (sym e)
            (add_split-has t (s ∷ ss) (add_group r.target_group out) m)

  first_match-Named :
      (intn : ℕ → ℕ) (q : Request) (rs : List Route) (out : List Text) (r : Route)
      → first_match q rs ≡ some r
      → Named (destination intn r) (add_routes rs out)
  unfolding first_match add_routes
  first_match-Named intn q [] out r h = cc
  first_match-Named intn q (s ∷ rs) out r h = elim (Bool-cases (matches s q)) [
    | inl e ↦
        let found : s ≡ r = ground (arith, h, e) in
        rw (sym found) (
          add_routes-grows (destination intn s) rs
            (add_split s.split (add_group s.target_group out)) (destination-Named intn s out))
    | inr e ↦
        first_match-Named intn q rs (add_split s.split (add_group s.target_group out)) r
          (ground (arith, h, e))
  ]

  -- Whatever is drawn, the group that a request resolves to is one that TargetGroups names, or it
  -- is the empty name.
  pub resolve-Named :
      (intn : ℕ → ℕ) (q : Request) (t : RouteTable) → Named (resolve intn q t) (target_groups t)
  unfolding resolve resolve_match target_groups
  resolve-Named intn q t =
      subst (λ g. Named g (target_groups t)) (sym (served_by (first_match q t.routes)))
        (in_table (first_match q t.routes) refl)
    where
      target : Option Route → Text
      target none = t.default_group
      target (some r) = destination intn r

      served_by :
          (o : Option Route)
          → (elim o as (λ _. Text × RouteRewrite × RouteAuth) [
            | none ↦ (t.default_group, zero_rewrite, zero_auth)
            | some r ↦ (destination intn r, r.rewrite, r.auth)
          ]).0
            ≡ target o
      served_by none = refl
      served_by (some r) = refl

      in_table :
          (o : Option Route) → first_match q t.routes ≡ o → Named (target o) (target_groups t)
      in_table none e =
          add_routes-grows t.default_group t.routes (t.default_group ∷ []) (inr (Memᴰ.head refl))
      in_table (some r) e = first_match-Named intn q t.routes (t.default_group ∷ []) r e
