-- ===== src/ControlPlane/Streams/Versions.antt =====
-- The versions that wait in the channels and that the streams send.
use mathlib.Core.Option
use jbalance.Common.{
  ℕ, ◌+◌, ◌≤◌, ◌<◌, ◌^◌, ◌≡◌, sym, ap, ◌∙◌, Bool, Option, none, some, List, [], ◌∷◌, ◌++◌, ℤ, pos,
  ◌≤ℤ◌, ◌<ℤ◌, int64_next, ◌+ℤ◌, int_laws, All, All-append, All-weaken, Text, text_eq, text_eq_iff,
  text_instance, nat_eq, Map, lookup, insert, delete, lookup-insert, lookup-delete, length,
  length-append, Bool-cases, Option-cases, inl, inr, ltb, if◌then◌else◌, arith, subst,
}
use jbalance.Platform.{Platform}
use jbalance.Proto.{BackendSet}
use jbalance.ControlPlane.Server.{
  Server, new_server, subscribe, unsubscribe, group_subs, publish, next_set, next_version, offer,
  force_republish, publish_if_changed, channels,
}
use jbalance.ControlPlane.Server.Publishing.{publish-last, publish-offers, publish-other, numbered}
use jbalance.ControlPlane.Streams.{
  World, open_stream, take_update, take_first, close_stream, Step, Steps,
}

module _ ⦃p : Platform⦄ where
  abbrev pub version_of : Option (BackendSet p) → ℤ
  version_of none = pos 0
  version_of (some set) = set.version

  abbrev Rises : List (BackendSet p) → Type 0
  Rises [] = Unit
  Rises (x ∷ xs) = All (λ (y : BackendSet p). x.version <ℤ y.version) xs × Rises xs

  -- What may wait where `v` is the last version of the group.
  abbrev pub IsQueue : ℤ → List (BackendSet p) → Type 0
  IsQueue v xs =
      (length xs ≤ 4)
      × Rises xs
      × All (λ (x : BackendSet p). (pos 1 ≤ℤ x.version) × (x.version ≤ℤ v)) xs

  abbrev pub InRange : ℕ → ℤ → Type 0
  InRange n v = (pos 0 ≤ℤ v) × (v ≤ℤ pos n)

  pub record IsOrdered (n : ℕ) (s : Server p) : Type 0 where
    pub range : (group : Text) → InRange n (version_of (lookup group s.last))
    pub queues :
        (group : Text) (ch : ℕ) (waiting : List (BackendSet p))
        → lookup ch (group_subs group s) ≡ some waiting
        → IsQueue (version_of (lookup group s.last)) waiting

  next_version-next :
      (n : ℕ) (o : Option (BackendSet p))
      → n + 1 < 2 ^ 63
      → InRange n (version_of o)
      → next_version o ≡ version_of o +ℤ pos 1
  unfolding next_version
  next_version-next n none h r = omega int_laws
  next_version-next n (some prev) h r = int64_next prev.version n r.0 r.1 h

  Rises-append :
      (xs : List (BackendSet p)) (y : BackendSet p)
      → Rises xs
      → All (λ (x : BackendSet p). x.version <ℤ y.version) xs
      → Rises (xs ++ y ∷ [])
  Rises-append [] y r h = (tt, tt)
  Rises-append (x ∷ xs) y r h = (
    All-append (λ (z : BackendSet p). x.version <ℤ z.version) xs (y ∷ []) r.0 (h.0, tt),
    Rises-append xs y r.1 h.1,
  )

  offer-IsQueue :
      (v : ℤ) (set : BackendSet p) (waiting : List (BackendSet p))
      → pos 0 ≤ℤ v
      → v <ℤ set.version
      → IsQueue v waiting
      → IsQueue set.version (offer set waiting)
  unfolding offer
  offer-IsQueue v set waiting r h q =
      let kept : All (λ (x : BackendSet p). (pos 1 ≤ℤ x.version) × (x.version ≤ℤ set.version))
          waiting =
        All-weaken waiting (λ x k. (k.0, omega (arith, k.1, h))) q.2 in
      elim (Bool-cases (ltb (length waiting) 4)) [
        | inl l ↦ rw l (
          ground (arith, length-append waiting (set ∷ [])),
          Rises-append waiting set q.1 (All-weaken waiting (λ x k. omega (arith, k.1, h)) q.2),
          All-append (λ (x : BackendSet p). (pos 1 ≤ℤ x.version) × (x.version ≤ℤ set.version))
              waiting (set ∷ []) kept ((omega (arith, r, h), omega arith), tt),
        )
        | inr l ↦ rw l (q.0, q.1, kept)
      ]

  pub next_version-grows :
      (n : ℕ) (o : Option (BackendSet p))
      → n + 1 < 2 ^ 63
      → InRange n (version_of o)
      → (version_of o <ℤ next_version o) × (next_version o ≤ℤ pos (n + 1))
  next_version-grows n o h r =
      rw (next_version-next n o h r) (omega (int_laws, r), omega (int_laws, r))

  -- The state of one group.
  abbrev GroupIsOrdered : ℕ → Server p → Text → Type 0
  GroupIsOrdered n s group =
      InRange n (version_of (lookup group s.last))
      × ((ch : ℕ) (waiting : List (BackendSet p))
          → lookup ch (group_subs group s) ≡ some waiting
          → IsQueue (version_of (lookup group s.last)) waiting)

  publish-GroupIsOrdered :
      (n : ℕ) (group : Text) (next : BackendSet p) (s : Server p)
      → n + 1 < 2 ^ 63
      → IsOrdered n s
      → GroupIsOrdered (n + 1) (publish group next s) group
  publish-GroupIsOrdered n group next s h o =
      let (grows, bound) = next_version-grows n (lookup group s.last) h (o.range group) in
      let low = (o.range group).0 in
      rw (publish-last group next s) (
        (omega (arith, low, grows), bound),
        λ ch waiting l. elim (Option-cases (lookup ch (group_subs group s))) [
          | inl e ↦
              let gone : none ≡ some waiting =
                sym (
                  publish-offers group next s ch
                  ∙ ap (Option.map (offer (numbered group next s))) e)
                ∙ l in
              cc gone
          | inr (was, e) ↦
              let offered : some (offer (numbered group next s) was) ≡ some waiting =
                sym (
                  publish-offers group next s ch
                  ∙ ap (Option.map (offer (numbered group next s))) e)
                ∙ l in
              let same : offer (numbered group next s) was ≡ waiting = cc offered in
              subst (IsQueue (numbered group next s).version) same (
                offer-IsQueue (version_of (lookup group s.last)) (numbered group next s) was low
                  grows (o.queues group ch was e))
        ],
      )

  -- What a publication makes of the versions.
  publish-IsOrdered :
      (n : ℕ) (group : Text) (next : BackendSet p) (s : Server p)
      → n + 1 < 2 ^ 63
      → IsOrdered n s
      → IsOrdered (n + 1) (publish group next s)
  publish-IsOrdered n group next s h o = record {
    range = λ other. (each other).0;
    queues = λ other. (each other).1;
  }
    where
      each : (other : Text) → GroupIsOrdered (n + 1) (publish group next s) other
      each other = elim (Bool-cases (text_eq group other)) [
        | inl q ↦
            subst (GroupIsOrdered (n + 1) (publish group next s)) ((text_eq_iff group other).0 q)
              (publish-GroupIsOrdered n group next s h o)
        | inr q ↦
            let (last, subs) = publish-other group other next s q in
            rw (last, subs)
              ((omega (arith, o.range other), omega (arith, o.range other)), o.queues other)
      ]

  replace-IsOrdered :
      (n : ℕ) (group : Text) (chans : Map ℕ (List (BackendSet p))) (s : Server p)
      → ((ch : ℕ) (waiting : List (BackendSet p))
          → lookup ch chans ≡ some waiting
          → IsQueue (version_of (lookup group s.last)) waiting)
      → IsOrdered n s
      → IsOrdered n (record s { subs = insert group chans s.subs })
  unfolding group_subs
  replace-IsOrdered n group chans s h o = record { range = o.range; queues = each }
    where
      each :
          (other : Text) (ch : ℕ) (waiting : List (BackendSet p))
          → lookup ch (channels (lookup other (insert group chans s.subs))) ≡ some waiting
          → IsQueue (version_of (lookup other s.last)) waiting
      each other ch waiting l = elim (Bool-cases (text_eq group other)) [
        | inl q ↦
            let here =
              ap (λ c. lookup ch (channels c))
                (lookup-insert group other chans s.subs
                  ∙ ap (λ (b : Bool). if b then some chans else lookup other s.subs) q) in
            subst (λ g. IsQueue (version_of (lookup g s.last)) waiting)
              ((text_eq_iff group other).0 q) (h ch waiting (sym here ∙ l))
        | inr q ↦
            let there =
              ap (λ c. lookup ch (channels c))
                (lookup-insert group other chans s.subs
                  ∙ ap (λ (b : Bool). if b then some chans else lookup other s.subs) q) in
            o.queues other ch waiting (sym there ∙ l)
      ]

  -- A channel with a new content among the others of its group.
  insert-queues :
      (v : ℤ) (ch : ℕ) (new : List (BackendSet p)) (chans : Map ℕ (List (BackendSet p)))
      → IsQueue v new
      → ((k : ℕ) (waiting : List (BackendSet p))
          → lookup k chans ≡ some waiting
          → IsQueue v waiting)
      → (k : ℕ) (waiting : List (BackendSet p)) → lookup k (insert ch new chans) ≡ some waiting
      → IsQueue v waiting
  insert-queues v ch new chans q h k waiting l = elim (Bool-cases (nat_eq.same ch k)) [
    | inl e ↦
        let got : some new ≡ some waiting =
          sym (lookup-insert ch k new chans ∙ ap (λ b. if b then some new else lookup k chans) e)
          ∙ l in
        let same : new ≡ waiting = cc got in subst (IsQueue v) same q
    | inr e ↦ h k waiting (
        sym (lookup-insert ch k new chans ∙ ap (λ b. if b then some new else lookup k chans) e) ∙ l)
  ]

  subscribe-IsOrdered :
      (n : ℕ) (group : Text) (ch : ℕ) (s : Server p)
      → IsOrdered n s
      → IsOrdered n (subscribe group ch s)
  unfolding subscribe
  subscribe-IsOrdered n group ch s o =
      replace-IsOrdered n group (insert ch [] (group_subs group s)) s
        (insert-queues (version_of (lookup group s.last)) ch [] (group_subs group s)
          (omega arith, tt, tt) (o.queues group))
        o

  unsubscribe-IsOrdered :
      (n : ℕ) (group : Text) (ch : ℕ) (s : Server p)
      → IsOrdered n s
      → IsOrdered n (unsubscribe group ch s)
  unfolding unsubscribe group_subs
  unsubscribe-IsOrdered n group ch s o = elim (Option-cases (lookup group s.subs)) [
    | inl q ↦ rw q o
    | inr (chans, q) ↦ rw q (
        replace-IsOrdered n group (delete ch chans) s
          (λ k waiting l. elim (Bool-cases (nat_eq.same ch k)) [
            | inl e ↦
                let gone : none ≡ some waiting =
                  sym (lookup-delete ch k chans ∙ ap (λ b. if b then none else lookup k chans) e)
                  ∙ l in
                cc gone
            | inr e ↦
                let there =
                  sym (lookup-delete ch k chans ∙ ap (λ b. if b then none else lookup k chans) e)
                  ∙ l in
                o.queues group k waiting (ap (λ c. lookup k (channels c)) q ∙ there)
          ])
          o)
  ]

  take_update-cases :
      (ch : ℕ) (group : Text) (s t : Server p) (set : BackendSet p)
      → take_update ch group s ≡ some (t, set)
      → (rest : List (BackendSet p)) × (lookup ch (group_subs group s) ≡ some (set ∷ rest))
        × (t ≡ record s { subs = insert group (insert ch rest (group_subs group s)) s.subs })
  unfolding take_update
  take_update-cases ch group s t set e = go (lookup ch (group_subs group s)) e
    where
      go :
          (o : Option (List (BackendSet p)))
          → take_first ch group s o ≡ some (t, set)
          → (rest : List (BackendSet p)) × (o ≡ some (set ∷ rest))
            × (t ≡ record s { subs = insert group (insert ch rest (group_subs group s)) s.subs })
      go none q = cc q
      go (some []) q = cc q
      go (some (x ∷ rest)) q =
          let got : ◌≡◌ {A = Server p × BackendSet p}
              (record s { subs = insert group (insert ch rest (group_subs group s)) s.subs }, x)
              (t, set) =
            cc q in
          (rest, ap (λ y. some (y ∷ rest)) (ap (λ z. z.1) got), sym (ap (λ z. z.0) got))

  take_update-IsOrdered :
      (n : ℕ) (ch : ℕ) (group : Text) (s t : Server p) (set : BackendSet p)
      → take_update ch group s ≡ some (t, set)
      → IsOrdered n s
      → IsOrdered n t
  take_update-IsOrdered n ch group s t set e o =
      let (rest, held, left) = take_update-cases ch group s t set e in
      let (size, rises, all) = o.queues group ch (set ∷ rest) held in
      subst (IsOrdered n) (sym left) (
        replace-IsOrdered n group (insert ch rest (group_subs group s)) s
          (insert-queues (version_of (lookup group s.last)) ch rest (group_subs group s)
            (omega (arith, size), rises.1, all.1) (o.queues group))
          o)

  Step-IsOrdered :
      (n m : ℕ) (w v : World p)
      → Step n w m v
      → m < 2 ^ 63
      → IsOrdered n w.server
      → IsOrdered m v.server
  unfolding open_stream close_stream force_republish publish_if_changed group_subs
  Step-IsOrdered n m w v (Step.opens now ch group id fresh) h o =
      subscribe-IsOrdered n group ch w.server o
  Step-IsOrdered n m w v (Step.greets ch st q) h o = o
  Step-IsOrdered n m w v (Step.takes ch st s set q e) h o =
      take_update-IsOrdered n ch st.group w.server s set e o
  Step-IsOrdered n m w v (Step.closes ch st q) h o = unsubscribe-IsOrdered n st.group ch w.server o
  Step-IsOrdered n m w v (Step.configures _ _ _ _) h o = record {
    range = o.range;
    queues = o.queues;
  }
  Step-IsOrdered n m w v (Step.cannot_list group) h o = o
  Step-IsOrdered n m w v (Step.republishes group snap) h o =
      publish-IsOrdered n group (next_set group snap w.server) w.server h o
  Step-IsOrdered n m w v (Step.finds_changed group snap q) h o =
      rw q (publish-IsOrdered n group (next_set group snap w.server) w.server h o)
  Step-IsOrdered n m w v (Step.finds_same group snap q) h o = rw q o

  Step-le : (n m : ℕ) (w v : World p) → Step n w m v → n ≤ m
  Step-le n m w v (Step.opens now ch group id fresh) = omega arith
  Step-le n m w v (Step.greets ch st q) = omega arith
  Step-le n m w v (Step.takes ch st s set q e) = omega arith
  Step-le n m w v (Step.closes ch st q) = omega arith
  Step-le n m w v (Step.configures _ _ _ _) = omega arith
  Step-le n m w v (Step.republishes group snap) = omega arith
  Step-le n m w v (Step.cannot_list group) = omega arith
  Step-le n m w v (Step.finds_changed group snap q) = omega arith
  Step-le n m w v (Step.finds_same group snap q) = omega arith

  -- After fewer than 2^63 sets were published and any steps of streams, setters and checks between
  -- them, every channel holds at most four sets, of rising versions, none above the last version of
  -- its group, and that is at most the number of sets that were published.
  pub Steps-IsOrdered : (n : ℕ) (w : World p) → Steps n w → n < 2 ^ 63 → IsOrdered n w.server
  unfolding new_server group_subs lookup
  Steps-IsOrdered n w Steps.starts h = record {
    range = λ group. (omega arith, omega arith);
    queues = λ group ch waiting l. cc l;
  }
  Steps-IsOrdered n w (Steps.steps k _ u _ before step) h =
      Step-IsOrdered k n u w step h
        (Steps-IsOrdered k u before (omega (arith, h, Step-le k n u w step)))
