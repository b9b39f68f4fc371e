-- ===== src/ControlPlane/Streams/Delivery.antt =====
-- What a stream hands on of a publication, and what its data plane makes of that.
use mathlib.Core.Option
use jbalance.Common.{
  ℕ, zero, suc, ◌+◌, ◌≤◌, ◌<◌, ◌^◌, ◌≡◌, refl, sym, ap, ◌∙◌, Bool, some, List, [], ◌∷◌, ◌++◌, ℤ,
  pos, ◌≤ℤ◌, ◌<ℤ◌, All, Text, text_eq_refl, text_instance, nat_eq, beq_refl, lookup, insert,
  lookup-insert, length, length-append, Bool-cases, inl, inr, leb_ℤ, eqb_ℤ, not, ◌&&◌, subst,
  if◌then◌else◌, arith, lt→ltb,
}
use jbalance.Platform.{Platform}
use jbalance.Proto.{BackendSet}
use jbalance.Dataplane.Backends.{BackendList, update, replaced, rebuild_slots_locked}
use jbalance.Dataplane.Backends.Updates.{
  deliver, received, Reflects, update-newer, rebuilt-Reflects,
}
use jbalance.ControlPlane.Server.{Server, group_subs, publish, offer, channels}
use jbalance.ControlPlane.Server.Publishing.{publish-last, publish-offers, numbered}
use jbalance.ControlPlane.Streams.{take_update, take_all}
use jbalance.ControlPlane.Streams.Versions.{IsOrdered, version_of, next_version-grows}

module _ ⦃p : Platform⦄ where
  emptied :
      (ch : ℕ) (group : Text) (rest : List (BackendSet p)) (s : Server p)
      → lookup ch (
          group_subs group
            (record s { subs = insert group (insert ch rest (group_subs group s)) s.subs }))
        ≡ some rest
  unfolding group_subs
  emptied ch group rest s =
      ap (λ c. lookup ch (channels c))
        (lookup-insert group group (insert ch rest (channels (lookup group s.subs))) s.subs
          ∙ ap
              (λ (b : Bool).
                if b
                then some (insert ch rest (channels (lookup group s.subs)))
                else lookup group s.subs)
              (text_eq_refl group))
      ∙ lookup-insert ch ch rest (channels (lookup group s.subs))
      ∙ ap (λ (b : Bool). if b then some rest else lookup ch (channels (lookup group s.subs)))
          (beq_refl ch)

  take_all-waiting :
      (fuel ch : ℕ) (group : Text) (waiting : List (BackendSet p)) (s : Server p)
      → lookup ch (group_subs group s) ≡ some waiting
      → length waiting ≤ fuel
      → let (updates, t) = take_all fuel ch group s in
        (updates ≡ waiting) × (lookup ch (group_subs group t) ≡ some [])
  unfolding take_all take_update
  take_all-waiting zero ch group [] s l h = (refl, l)
  take_all-waiting zero ch group (x ∷ xs) s l h = elim (h) [ ]
  take_all-waiting (suc fuel) ch group [] s l h = rw (l, take_all) (refl, l)
  take_all-waiting (suc fuel) ch group (x ∷ xs) s l h =
      let next : Server p = record s {
        subs = insert group (insert ch xs (group_subs group s)) s.subs;
      } in
      let (same, done) =
        take_all-waiting fuel ch group xs next (emptied ch group xs s) (omega (arith, h)) in
      rw (l, take_all) (ap (λ us. x ∷ us) same, done)

  update-bound :
      (t : ℕ) (set : BackendSet p) (b : BackendList p) (v : ℤ)
      → set.version ≤ℤ v
      → b.version ≤ℤ v
      → (update t set b).version ≤ℤ v
  unfolding update replaced rebuild_slots_locked
  update-bound t set b v h k =
      elim (Bool-cases (leb_ℤ set.version b.version && not (eqb_ℤ b.version (pos 0)))) [
        | inl q ↦ rw q k
        | inr q ↦ rw q h
      ]

  -- Sets that end with a newer one.
  deliver-Reflects :
      (rs : List (ℕ × BackendSet p)) (waiting : List (BackendSet p)) (set : BackendSet p) (v : ℤ)
      (b : BackendList p)
      → received rs ≡ waiting ++ set ∷ []
      → All (λ (x : BackendSet p). (pos 1 ≤ℤ x.version) × (x.version ≤ℤ v)) waiting
      → b.version ≤ℤ v
      → v <ℤ set.version
      → Reflects set (deliver rs b)
  unfolding deliver
  deliver-Reflects [] [] set v b e h k l = cc e
  deliver-Reflects [] (w ∷ ws) set v b e h k l = cc e
  deliver-Reflects ((t, x) ∷ []) [] set v b e h k l =
      let same : x ≡ set = cc e in
      rw same (
        subst (Reflects set) (sym (update-newer t set b (omega (arith, k, l))))
          (rebuilt-Reflects t set b))
  deliver-Reflects ((t, x) ∷ (u, y) ∷ rs) [] set v b e h k l = cc e
  deliver-Reflects ((t, x) ∷ rs) (w ∷ ws) set v b e h k l =
      let same : x ≡ w = cc e in
      let rest : received rs ≡ ws ++ set ∷ [] = cc e in
      let low : x.version ≤ℤ v = rw same h.0.1 in
      deliver-Reflects rs ws set v (update t x b) rest h.1 (update-bound t x b v low k) l

  -- Where fewer than four sets wait in a channel of the group after fewer than 2^63 - 1 ordered
  -- publications, four rounds of the stream after a publication empty the channel, and a data plane
  -- that is not ahead of the group and applies what they sent, whenever it gets each set, holds the
  -- set just published.
  pub publish-take_all :
      (n ch : ℕ) (group : Text) (next : BackendSet p) (waiting : List (BackendSet p)) (s : Server p)
      (rs : List (ℕ × BackendSet p)) (b : BackendList p)
      → n + 1 < 2 ^ 63
      → IsOrdered n s
      → lookup ch (group_subs group s) ≡ some waiting
      → length waiting < 4
      → received rs ≡ (take_all 4 ch group (publish group next s)).0
      → b.version ≤ℤ version_of (lookup group s.last)
      → (lookup ch (group_subs group (take_all 4 ch group (publish group next s)).1) ≡ some [])
        × (lookup group (publish group next s).last ≡ some (numbered group next s))
        × Reflects (numbered group next s) (deliver rs b)
  unfolding offer
  publish-take_all n ch group next waiting s rs b h o l room e k =
      let offered : lookup ch (group_subs group (publish group next s))
          ≡ some (waiting ++ numbered group next s ∷ []) =
        publish-offers group next s ch
        ∙ ap (Option.map (offer (numbered group next s))) l
        ∙ ap (λ (c : Bool). some (if c then waiting ++ numbered group next s ∷ [] else waiting))
            (lt→ltb (length waiting) 4 room) in
      let (same, done) =
        take_all-waiting 4 ch group (waiting ++ numbered group next s ∷ []) (publish group next s)
          offered (omega (arith, room, length-append waiting (numbered group next s ∷ []))) in
      (
        done,
        publish-last group next s,
        deliver-Reflects rs waiting (numbered group next s) (version_of (lookup group s.last)) b
            (e ∙ same) (o.queues group ch waiting l).2 k
            (next_version-grows n (lookup group s.last) h (o.range group)).0,
      )
