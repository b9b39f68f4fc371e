-- ===== src/Dataplane/Serving/Actives.antt =====
-- The counts of outstanding requests, apart from the rest of the entries.
use jbalance.Common.{
  ℕ, ◌+◌, ◌≡◌, refl, sym, ap, ◌∙◌, Bool, false, none, some, List, [], ◌∷◌, map, ℤ, pos, ◌-ℤ◌, leb_ℤ,
  ltb_ℤ, Text, text_eq, text_instance, if◌then◌else◌, Bool-cases, Option-cases, inl, inr,
}
use jbalance.Platform.{Platform}
use jbalance.Dataplane.Entry.{
  BackendEntry, update_first, find_first, release_entry, ejected, eject, over_share,
}
use jbalance.Dataplane.Backends.{
  BackendList, record_result, record_error, release, rebuild_slots_locked,
}
use jbalance.Dataplane.Backends.Updates.{Unique}

abbrev pub active : BackendEntry → Text × ℤ
active e = (e.address, e.active_conns)

-- The address and the count of every entry.
abbrev pub actives : List BackendEntry → List (Text × ℤ)
actives es = map active es

update_first-actives :
    (a : Text) (f : BackendEntry → BackendEntry) (es : List BackendEntry)
    → ((e : BackendEntry) → active (f e) ≡ active e)
    → actives (update_first a f es) ≡ actives es
unfolding update_first
update_first-actives a f [] h = refl
update_first-actives a f (e ∷ es) h = elim (Bool-cases (text_eq e.address a)) [
  | inl q ↦ rw q (ap (λ x. x ∷ actives es) (h e))
  | inr q ↦ rw q (ap (λ xs. active e ∷ xs) (update_first-actives a f es h))
]

replace_first-actives :
    (a : Text) (x e : BackendEntry) (es : List BackendEntry)
    → find_first a es ≡ some e
    → active x ≡ active e
    → actives (update_first a (λ _. x) es) ≡ actives es
unfolding update_first find_first
replace_first-actives a x e [] l h = refl
replace_first-actives a x e (f ∷ es) l h = elim (Bool-cases (text_eq f.address a)) [
  | inl q ↦
      let found : some f ≡ some e =
        ap (λ (b : Bool). if b then some f else find_first a es) (sym q) ∙ l in
      let same : e ≡ f = cc found in rw q (ap (λ y. y ∷ actives es) (h ∙ ap active same))
  | inr q ↦
      let below : find_first a es ≡ some e =
        ap (λ (b : Bool). if b then some f else find_first a es) (sym q) ∙ l in
      rw q (ap (λ xs. active f ∷ xs) (replace_first-actives a x e es below h))
]

abbrev release_count : Text × ℤ → Text × ℤ
release_count (a, n) = if leb_ℤ n (pos 0) then (a, n) else (a, n -ℤ pos 1)

abbrev release_first : Text → List (Text × ℤ) → List (Text × ℤ)
release_first a [] = []
release_first a ((k, n) ∷ xs) =
    if text_eq k a then release_count (k, n) ∷ xs else (k, n) ∷ release_first a xs

release_first-actives :
    (a : Text) (es : List BackendEntry)
    → actives (update_first a release_entry es) ≡ release_first a (actives es)
unfolding update_first release_entry
release_first-actives a [] = refl
release_first-actives a (e ∷ es) = elim (Bool-cases (text_eq e.address a)) [
  | inl q ↦ elim (Bool-cases (leb_ℤ e.active_conns (pos 0))) [
    | inl k ↦ rw (q, k) refl
    | inr k ↦ rw (q, k) refl
  ]
  | inr q ↦ rw q (ap (λ xs. active e ∷ xs) (release_first-actives a es))
]

find_first-none :
    (a : Text) (es fs : List BackendEntry)
    → actives es ≡ actives fs
    → find_first a es ≡ none
    → find_first a fs ≡ none
unfolding find_first
find_first-none a [] [] h l = refl
find_first-none a [] (f ∷ fs) h l = cc
find_first-none a (e ∷ es) [] h l = cc
find_first-none a (e ∷ es) (f ∷ fs) h l =
    let head : active e ≡ active f = cc h in
    let rest : actives es ≡ actives fs = cc in
    let same : e.address ≡ f.address = ap (λ x. x.0) head in
    elim (Bool-cases (text_eq e.address a)) [
      | inl q ↦
          let bad : some e ≡ none =
            ap (λ (b : Bool). if b then some e else find_first a es) (sym q) ∙ l in
          cc bad
      | inr q ↦
          let below : find_first a es ≡ none =
            ap (λ (b : Bool). if b then some e else find_first a es) (sym q) ∙ l in
          let other : text_eq f.address a ≡ false = ap (λ k. text_eq k a) (sym same) ∙ q in
          rw other (find_first-none a es fs rest below)
    ]

-- Whether addresses are unique can be seen from the counts.
pub Unique-actives : (es fs : List BackendEntry) → actives es ≡ actives fs → Unique es → Unique fs
Unique-actives [] [] h u = tt
Unique-actives [] (f ∷ fs) h u = cc
Unique-actives (e ∷ es) [] h u = cc
Unique-actives (e ∷ es) (f ∷ fs) h u =
    let head : active e ≡ active f = cc h in
    let rest : actives es ≡ actives fs = cc in
    let same : e.address ≡ f.address = ap (λ x. x.0) head in
    (rw (sym same) (find_first-none e.address es fs rest u.0), Unique-actives es fs rest u.1)

module _ ⦃p : Platform⦄ where
  record_error-actives :
      (now : ℕ) (a : Text) (e : BackendEntry) (b : BackendList p)
      → find_first a b.entries ≡ some e
      → actives (record_error now a e b).entries ≡ actives b.entries
  unfolding record_error rebuild_slots_locked eject
  record_error-actives now a e b l =
      let bumped : BackendEntry = record e { consec_errors = e.consec_errors + 1 } in
      let counted = replace_first-actives a bumped e b.entries l refl in
      let out = replace_first-actives a (eject now b.outlier bumped) e b.entries l refl in
      elim (Bool-cases (ltb_ℤ (pos (e.consec_errors + 1)) b.outlier.consecutive_errors)) [
        | inl q ↦ rw q counted
        | inr q ↦ elim (Bool-cases (ejected now e)) [
          | inl r ↦ rw (q, r) counted
          | inr r ↦ elim (Bool-cases (over_share now b.outlier b.entries)) [
            | inl t ↦ rw (q, r, t) counted
            | inr t ↦ rw (q, r, t) out
          ]
        ]
      ]

  pub record_result-actives :
      (now : ℕ) (a : Text) (ok : Bool) (b : BackendList p)
      → actives (record_result now a ok b).entries ≡ actives b.entries
  unfolding record_result record_error rebuild_slots_locked eject
  record_result-actives now a ok b = elim (Bool-cases b.outlier.enabled) [
    | inr q ↦ rw q refl
    | inl q ↦ elim (Option-cases (find_first a b.entries)) [
      | inl l ↦ rw (q, l) refl
      | inr (e, l) ↦ elim (Bool-cases ok) [
        | inl k ↦
            rw (q, l, k)
              (update_first-actives a (λ e. record e { consec_errors = 0 }) b.entries (λ e. refl))
        | inr k ↦ rw (q, l, k) (record_error-actives now a e b l)
      ]
    ]
  ]

  -- A release acts on the counts alone.
  pub release-actives :
      (a : Text) (b c : BackendList p)
      → actives b.entries ≡ actives c.entries
      → actives (release a b).entries ≡ actives (release a c).entries
  unfolding release
  release-actives a b c h =
      release_first-actives a b.entries
      ∙ ap (release_first a) h
      ∙ sym (release_first-actives a c.entries)
