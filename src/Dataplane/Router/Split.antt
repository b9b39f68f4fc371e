-- ===== src/Dataplane/Router/Split.antt =====
-- pickSplit, and the intervals of the weights of a split.
use jbalance.Common.{
  ℕ, ◌+◌, ◌-◌, ◌<◌, ◌≤◌, ◌≡◌, subst, refl, ap, sym, ◌∙◌, true, false, List, [], ◌∷◌, ◌++◌, arith, ℤ,
  pos, pos_part, negsuc, ◌+ℤ◌, ◌-ℤ◌, leb_ℤ, ltb_ℤ, All, is_empty, ◌<ℤ◌, Bool-cases, inl, inr,
  if◌then◌else◌, Text,
}
use jbalance.Proto
use jbalance.Dataplane.Router.{
  RouteTarget, total_weight, pick_from, last_group, pick_split, destination, split_from_proto,
  route_from_proto,
}

-- The weights of received targets, which are positive.
abbrev pub IsWeighted : List RouteTarget → Type 0
IsWeighted = All (λ (t : RouteTarget). pos 0 <ℤ t.weight)

abbrev pub share : RouteTarget → ℕ
share t = pos_part t.weight

abbrev pub shares : List RouteTarget → ℕ
shares [] = 0
shares (t ∷ ts) = share t + shares ts

pub split_from_proto-IsWeighted : (ts : List Proto.RouteTarget) → IsWeighted (split_from_proto ts)
unfolding split_from_proto
split_from_proto-IsWeighted [] = tt
split_from_proto-IsWeighted (t ∷ ts) =
    let rest = split_from_proto-IsWeighted ts in
    elim (Bool-cases (is_empty t.group)) [
      | inl h ↦ rw h rest
      | inr h ↦ simp h (positive t.weight, rest)
    ]
  where
    positive : (w : ℤ) → pos 0 <ℤ (if leb_ℤ w (pos 0) then pos 1 else w)
    positive w = ground arith

shares-append : (ts us : List RouteTarget) → shares (ts ++ us) ≡ shares ts + shares us
shares-append [] us = omega arith
shares-append (t ∷ ts) us = ground (arith, shares-append ts us)

total_weight-shares :
    (n : ℕ) (ts : List RouteTarget) → IsWeighted ts → total_weight (pos n) ts ≡ pos (n + shares ts)
unfolding total_weight ◌+ℤ◌
total_weight-shares n [] h = ap pos (omega arith)
total_weight-shares n (t ∷ ts) h =
    let weight : pos n +ℤ t.weight ≡ pos (n + share t) = add_weight n t.weight h.0 in
    rw weight (total_weight-shares (n + share t) ts h.1 ∙ ap pos (omega arith))
  where
    add_weight : (n : ℕ) (w : ℤ) → pos 0 <ℤ w → pos n +ℤ w ≡ pos (n + pos_part w)
    add_weight n (pos w) h = ground arith
    add_weight n (negsuc w) h = ground arith

pick_from-share :
    (n : ℕ) (before : List RouteTarget) (t : RouteTarget) (after : List RouteTarget) (last : Text)
    → IsWeighted (before ++ t ∷ after)
    → shares before ≤ n
    → n < shares before + share t
    → pick_from (pos n) (before ++ t ∷ after) last ≡ t.group
unfolding pick_from ◌-ℤ◌
pick_from-share n [] t after last w lo hi = rw (below n t.weight w.0 (omega (arith, hi))) refl
  where
    below : (n : ℕ) (v : ℤ) → pos 0 <ℤ v → n < pos_part v → ltb_ℤ (pos n) v ≡ true
    below n v p l = ground arith
pick_from-share n (s ∷ before) t after last w lo hi =
    let lo' : share s ≤ n = omega (arith, lo) in
    simp (above n s.weight w.0 lo', skip n s.weight w.0 lo')
      (pick_from-share (n - share s) before t after last w.1 (omega (arith, lo))
        (omega (arith, lo, hi)))
  where
    above : (n : ℕ) (v : ℤ) → pos 0 <ℤ v → pos_part v ≤ n → ltb_ℤ (pos n) v ≡ false
    above n v p l = ground arith

    skip : (n : ℕ) (v : ℤ) → pos 0 <ℤ v → pos_part v ≤ n → pos n -ℤ v ≡ pos (n - pos_part v)
    skip n (pos v) p l = ground arith
    skip n (negsuc v) p l = ground arith

-- A split of one target takes it without a draw; one of more takes the target in whose interval
-- of the weights the draw falls.
pick_split-share :
    (intn : ℕ → ℕ) (s : RouteTarget) (ss before : List RouteTarget) (t : RouteTarget)
    (after : List RouteTarget)
    → IsWeighted (before ++ t ∷ after)
    → s ∷ ss ≡ before ++ t ∷ after
    → shares before ≤ intn (shares (before ++ t ∷ after))
    → intn (shares (before ++ t ∷ after)) < shares before + share t
    → pick_split intn s ss ≡ t.group
unfolding pick_split
pick_split-share intn s [] [] t [] w e lo hi = ap group_of e
  where
    group_of : List RouteTarget → Text
    group_of [] = []
    group_of (u ∷ us) = u.group
pick_split-share intn s [] [] t (u ∷ us) w e lo hi = cc
pick_split-share intn s [] (b ∷ []) t after w e lo hi = cc
pick_split-share intn s [] (b ∷ c ∷ bs) t after w e lo hi = cc
pick_split-share intn s (u ∷ us) before t after w e lo hi =
    let all = before ++ t ∷ after in
    let total : total_weight (pos 0) (s ∷ u ∷ us) ≡ pos (shares all) =
      ap (total_weight (pos 0)) e ∙ total_weight-shares 0 all w ∙ ap pos (omega arith) in
    let some_weight : leb_ℤ (pos (shares all)) (pos 0) ≡ false =
      ground (arith, shares-append before (t ∷ after)) in
    let picked : pick_from (pos (intn (shares all))) (s ∷ u ∷ us) (last_group u us) ≡ t.group =
      ap (λ ts. pick_from (pos (intn (shares all))) ts (last_group u us)) e
      ∙ pick_from-share (intn (shares all)) before t after (last_group u us) w lo hi in
    simp (total, some_weight) picked

-- The weight of a target of the published split: none without a name, and at least 1.
abbrev pub sent_share : Proto.RouteTarget → ℕ
sent_share t =
    if is_empty t.group then 0 else if leb_ℤ t.weight (pos 0) then 1 else pos_part t.weight

abbrev pub sent_shares : List Proto.RouteTarget → ℕ
sent_shares [] = 0
sent_shares (t ∷ ts) = sent_share t + sent_shares ts

shares-split_from_proto :
    (ts : List Proto.RouteTarget) → shares (split_from_proto ts) ≡ sent_shares ts
unfolding split_from_proto
shares-split_from_proto [] = refl
shares-split_from_proto (t ∷ ts) = ground (arith, shares-split_from_proto ts)

split_from_proto-append :
    (ts us : List Proto.RouteTarget)
    → split_from_proto (ts ++ us) ≡ split_from_proto ts ++ split_from_proto us
unfolding split_from_proto
split_from_proto-append [] us = refl
split_from_proto-append (t ∷ ts) us = elim (Bool-cases (is_empty t.group)) [
  | inl h ↦ rw h (split_from_proto-append ts us)
  | inr h ↦ rw h (rw (split_from_proto-append ts us) refl)
]

split_from_proto-named :
    (t : Proto.RouteTarget) (ts : List Proto.RouteTarget)
    → is_empty t.group ≡ false
    → (u : RouteTarget) × (split_from_proto (t ∷ ts) ≡ u ∷ split_from_proto ts)
      × (u.group ≡ t.group)
      × (share u ≡ sent_share t)
unfolding split_from_proto
split_from_proto-named t ts h = rw h (_, refl, refl, ground arith)

-- Where the draw falls in the interval of weights of a named target of a rule's published split,
-- the request goes to that target's group; a target without a name has no interval, and a weight
-- that is not positive counts as 1.
pub destination-share :
    (intn : ℕ → ℕ) (r : Proto.Route) (before : List Proto.RouteTarget) (t : Proto.RouteTarget)
    (after : List Proto.RouteTarget)
    → r.split ≡ before ++ t ∷ after
    → is_empty t.group ≡ false
    → sent_shares before ≤ intn (sent_shares r.split)
    → intn (sent_shares r.split) < sent_shares before + sent_share t
    → destination intn (route_from_proto r) ≡ t.group
unfolding destination route_from_proto
destination-share intn r before t after e named lo hi =
    let (u, f, same, weight) = split_from_proto-named t after named in
    let parts : split_from_proto r.split ≡ split_from_proto before ++ u ∷ split_from_proto after =
      ap split_from_proto e
      ∙ split_from_proto-append before (t ∷ after)
      ∙ ap (λ us. split_from_proto before ++ us) f in
    let all : shares (split_from_proto before ++ u ∷ split_from_proto after) ≡ sent_shares r.split =
      ap shares (sym parts) ∙ shares-split_from_proto r.split in
    let weighted = subst IsWeighted parts (split_from_proto-IsWeighted r.split) in
    let b = shares-split_from_proto before in
    chosen u (split_from_proto after) (split_from_proto r.split) (split_from_proto before) weighted
      parts (rw (all, b) lo) (rw (all, b, weight) hi)
    ∙ same
  where
    chosen :
        (t : RouteTarget) (after ts before : List RouteTarget)
        → IsWeighted (before ++ t ∷ after)
        → ts ≡ before ++ t ∷ after
        → shares before ≤ intn (shares (before ++ t ∷ after))
        → intn (shares (before ++ t ∷ after)) < shares before + share t
        → elim ts [ [] ↦ r.target_group | s ∷ ss ↦ pick_split intn s ss ] ≡ t.group
    chosen t after [] [] w e lo hi = cc
    chosen t after [] (b ∷ bs) w e lo hi = cc
    chosen t after (s ∷ ss) before w e lo hi = pick_split-share intn s ss before t after w e lo hi
