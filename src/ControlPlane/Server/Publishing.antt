-- ===== src/ControlPlane/Server/Publishing.antt =====
-- What publishing a group changes, and what a data plane makes of the set that it gets.
use mathlib.Core.Option
use jbalance.ControlPlane.Server.Equality.{IsDistinct, SameWeights, backend_sets_equal_iff}
use jbalance.Common.{
  ℕ, ◌≡◌, refl, ap, ◌∙◌, true, false, Option, none, some, List, [], ◌∷◌, Text, text_instance,
  nat_eq, Bool-cases, Option-cases, inl, inr, ◌⊎◌, Map, lookup, text_eq, text_eq_refl,
  lookup-insert, ◌<ℤ◌, ◌<◌, ◌≤◌, ◌++◌, ◌+ℤ◌, ◌↔◌, ℤ, pos, int64, wrap64, length, ltb, ltb→lt, subst,
  sym, arith,
}
use jbalance.Platform.{Platform}
use jbalance.Proto.{BackendSet}
use jbalance.Dataplane.Entry.{find_first}
use jbalance.Dataplane.Backends.{BackendList, update}
use jbalance.Dataplane.Backends.Updates.{Unique, find_backend, carry, update-carries}
use jbalance.ControlPlane.Stores.{group_overrides}
use jbalance.ControlPlane.Server.{
  Server, Snapshot, publish, publish_if_changed, backend_sets_equal, force_republish, next_set,
  next_version, offer, offer_all, offer_group, channels, group_subs, snapshot_to_backend_set,
}
use jbalance.ControlPlane.Server.Snapshot.{sent, find-sent_backends}

module _ ⦃p : Platform⦄ where
  -- The set that is published: the next one under the group's next version.
  abbrev pub numbered : Text → BackendSet p → Server p → BackendSet p
  numbered group next s = record next { version = next_version (lookup group s.last) }

  lookup-offer_all :
      (set : BackendSet p) (ch : ℕ) (chans : Map ℕ (List (BackendSet p)))
      → lookup ch (offer_all set chans) ≡ Option.map (offer set) (lookup ch chans)
  unfolding offer_all lookup
  lookup-offer_all set ch [] = refl
  lookup-offer_all set ch ((k, w) ∷ rest) = elim (Bool-cases (nat_eq.same k ch)) [
    | inl h ↦ rw h refl
    | inr h ↦ rw h (lookup-offer_all set ch rest)
  ]

  lookup-offer_group :
      (set : BackendSet p) (group : Text) (subs : Map Text (Map ℕ (List (BackendSet p))))
      → lookup group (offer_group set group subs) ≡ Option.map (offer_all set) (lookup group subs)
  unfolding offer_group
  lookup-offer_group set group subs = elim (Option-cases (lookup group subs)) [
    | inl q ↦ rw (q, offer_group) q
    | inr (chans, q) ↦
        rw (q, offer_group)
          (lookup-insert group group (offer_all set chans) subs ∙ rw (text_eq_refl group) refl)
  ]

  lookup-offer_group_other :
      (set : BackendSet p) (group other : Text) (subs : Map Text (Map ℕ (List (BackendSet p))))
      → text_eq group other ≡ false
      → lookup other (offer_group set group subs) ≡ lookup other subs
  unfolding offer_group
  lookup-offer_group_other set group other subs h = elim (Option-cases (lookup group subs)) [
    | inl q ↦ rw (q, offer_group) refl
    | inr (chans, q) ↦
        rw (q, offer_group) (lookup-insert group other (offer_all set chans) subs ∙ rw h refl)
  ]

  pub publish-offers :
      (group : Text) (next : BackendSet p) (s : Server p) (ch : ℕ)
      → lookup ch (group_subs group (publish group next s))
        ≡ Option.map (offer (numbered group next s)) (lookup ch (group_subs group s))
  unfolding group_subs publish
  publish-offers group next s ch =
      ap (λ o. lookup ch (channels o)) (lookup-offer_group (numbered group next s) group s.subs)
      ∙ offered (lookup group s.subs)
    where
      offered :
          (o : Option (Map ℕ (List (BackendSet p))))
          → lookup ch (channels (Option.map (offer_all (numbered group next s)) o))
            ≡ Option.map (offer (numbered group next s)) (lookup ch (channels o))
      offered none = lookup-offer_all (numbered group next s) ch []
      offered (some chans) = lookup-offer_all (numbered group next s) ch chans

  pub publish-other :
      (group other : Text) (next : BackendSet p) (s : Server p)
      → text_eq group other ≡ false
      → (lookup other (publish group next s).last ≡ lookup other s.last)
        × (group_subs other (publish group next s) ≡ group_subs other s)
  unfolding group_subs publish
  publish-other group other next s h = (
    lookup-insert group other (numbered group next s) s.last ∙ rw h refl,
    ap channels (lookup-offer_group_other (numbered group next s) group other s.subs h),
  )

  pub publish-last :
      (group : Text) (next : BackendSet p) (s : Server p)
      → lookup group (publish group next s).last ≡ some (numbered group next s)
  unfolding publish
  publish-last group next s =
      lookup-insert group group (numbered group next s) s.last ∙ rw (text_eq_refl group) refl

  abbrev last_version : Option (BackendSet p) → ℤ
  last_version none = pos 0
  last_version (some set) = set.version

  -- A channel with less than four sets gets one more at its end, a full one keeps what it has, and
  -- none is made.
  abbrev pub Delivered :
      BackendSet p → Option (List (BackendSet p)) → Option (List (BackendSet p)) → Type 0
  Delivered set none o = o ≡ none
  Delivered set (some was) o =
      ((length was < 4) × (o ≡ some (was ++ set ∷ []))) ⊎ ((4 ≤ length was) × (o ≡ some was))

  -- What publishing `next` does, for one channel of the group and another group.
  abbrev pub Published : Text → Text → ℕ → BackendSet p → Server p → Server p → Type 0
  Published group other ch next s t =
      (v : ℤ) × (v ≡ int64 (last_version (lookup group s.last) +ℤ pos 1))
      × (lookup group t.last ≡ some (record next { version = v }))
      × Delivered (record next { version = v }) (lookup ch (group_subs group s))
          (lookup ch (group_subs group t))
      × (lookup other t.last ≡ lookup other s.last)
      × (group_subs other t ≡ group_subs other s)

  next_version-successor :
      (o : Option (BackendSet p)) → next_version o ≡ int64 (last_version o +ℤ pos 1)
  unfolding next_version int64 wrap64 ◌+ℤ◌
  next_version-successor none = refl
  next_version-successor (some set) = refl

  offer-Delivered :
      (set : BackendSet p) (was : Option (List (BackendSet p)))
      → Delivered set was (Option.map (offer set) was)
  unfolding offer
  offer-Delivered set none = refl
  offer-Delivered set (some was) = elim (Bool-cases (ltb (length was) 4)) [
    | inl h ↦ inl (ltb→lt (length was) 4 h, rw h refl)
    | inr h ↦ inr (ground (arith, h), rw h refl)
  ]

  publish-Published :
      (group other : Text) (ch : ℕ) (next : BackendSet p) (s : Server p)
      → text_eq group other ≡ false
      → Published group other ch next s (publish group next s)
  publish-Published group other ch next s h =
      let rest = publish-other group other next s h in
      (
        next_version (lookup group s.last),
        next_version-successor (lookup group s.last),
        publish-last group next s,
        subst (Delivered (numbered group next s) (lookup ch (group_subs group s)))
            (sym (publish-offers group next s ch))
            (offer-Delivered (numbered group next s) (lookup ch (group_subs group s))),
        rest.0,
        rest.1,
      )

  -- As many backends, and every address with the same weight.
  abbrev pub SameBackends : BackendSet p → BackendSet p → Type 0
  SameBackends x y = (length x.backends ≡ length y.backends) × SameWeights x.backends y.backends

  -- Whether the last set has the backends of the next one.
  abbrev pub IsUnchanged : Option (BackendSet p) → BackendSet p → Type 0
  IsUnchanged none next = true ≡ false
  IsUnchanged (some last) next = SameBackends last next

  abbrev pub HasDistinct : Option (BackendSet p) → Type 0
  HasDistinct none = true ≡ true
  HasDistinct (some last) = IsDistinct last.backends

  backend_sets_equal-IsUnchanged :
      (o : Option (BackendSet p)) (next : BackendSet p)
      → HasDistinct o
      → IsDistinct next.backends
      → (backend_sets_equal o (some next) ≡ true) ↔ IsUnchanged o next
  backend_sets_equal-IsUnchanged none next d e = (λ h. unfold backend_sets_equal in cc h, λ h. cc h)
  backend_sets_equal-IsUnchanged (some last) next d e = backend_sets_equal_iff last next d e

  -- Where neither the last set of a group nor its next one has an address twice: a reconciled group
  -- with as many backends and the same weights as in its last set changes nothing; else the next
  -- set becomes the last one, one version higher in int64, and goes to the end of each channel of
  -- the group that has less than four sets, while a full channel and another group keep what they
  -- have. A republication does so always.
  pub publish_if_changed-Published :
      (group other : Text) (ch : ℕ) (snap : Snapshot) (s : Server p)
      → text_eq group other ≡ false
      → HasDistinct (lookup group s.last)
      → IsDistinct (next_set group snap s).backends
      → ((IsUnchanged (lookup group s.last) (next_set group snap s)
            × (publish_if_changed group snap s ≡ s))
          ⊎ ((¬ IsUnchanged (lookup group s.last) (next_set group snap s))
              × Published group other ch
                  (next_set group snap s)
                  s
                  (publish_if_changed group snap s)))
        × Published group other ch (next_set group snap s) s (force_republish group (some snap) s)
  unfolding publish_if_changed force_republish
  publish_if_changed-Published group other ch snap s h d e =
      let next = next_set group snap s in
      let done = publish-Published group other ch next s h in
      let unchanged = backend_sets_equal-IsUnchanged (lookup group s.last) next d e in
      (
        elim (Bool-cases (backend_sets_equal (lookup group s.last) (some next))) [
          | inl q ↦ inl (unchanged.0 q, rw q refl)
          | inr q ↦ inr (λ u. let t = unchanged.1 u in cc (t, q), rw q done)
        ],
        done,
      )

  -- A data plane with unique addresses that gets the set just published, which is newer than what
  -- it holds, has for every address the provider's backend with the operator's weight, none if the
  -- operator has drained it, and keeps the health and the count of requests it had.
  pub force_republish-update :
      (now : ℕ) (group a : Text) (snap : Snapshot) (s : Server p) (b : BackendList p)
      (set : BackendSet p)
      → lookup group (force_republish group (some snap) s).last ≡ some set
      → Unique b.entries
      → b.version <ℤ set.version
      → find_first a (update now set b).entries
        ≡ Option.map
            (carry (find_first a b.entries))
            (sent (lookup a (group_overrides group s.overrides)) (find_backend a snap))
  unfolding force_republish next_set snapshot_to_backend_set
  force_republish-update now group a snap s b set q u h =
      let published = publish-last group (next_set group snap s) s in
      let same : set ≡ numbered group (next_set group snap s) s = cc (q, published) in
      update-carries now set b a u h
      ∙ ap
          (λ (x : BackendSet p).
            Option.map (carry (find_first a b.entries)) (find_backend a x.backends))
          same
      ∙ ap (Option.map (carry (find_first a b.entries)))
          (find-sent_backends (group_overrides group s.overrides) snap a)
