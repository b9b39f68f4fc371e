-- ===== src/Dataplane/Router/Paths.antt =====
-- applyRequest and applyResponse: the path and the headers after a rewrite.
use jbalance.Common.{
  ◌≡◌, refl, ap, ◌∙◌, Bool, true, false, not, List, [], ◌∷◌, ◌++◌, arith, Text, is_empty,
  has_prefix, drop, length, ◌&&◌, ◌⊎◌, Bool-cases, inl, inr, if◌then◌else◌, nat_eq, text_instance,
  lookup-delete, lookup-insert, Map, ◌==◌, Option, none, some, lookup,
}
use jbalance.Platform.{Platform}
use jbalance.Proto.{RouteRewrite}
use jbalance.Http.{Values, header_values, header_del, header_set}
use jbalance.Dataplane.Router.{
  rooted, strip_path, rewrite_path, is_zero, apply_request, apply_response, set_all, del_all,
}

-- The path begins with a slash.
unfoldable pub IsRooted : Text → Type 0
IsRooted path = (rest : Text) × (path ≡ b'/' ∷ rest)

rooted-IsRooted : (path : Text) → IsRooted (rooted path)
unfolding rooted IsRooted
rooted-IsRooted [] = ([], refl)
rooted-IsRooted (c ∷ path) = elim (Bool-cases (nat_eq.same c b'/')) [
  | inl h ↦ let slash : c ≡ b'/' = ground arith in (path, rw h (ap (λ d. d ∷ path) slash))
  | inr h ↦ (c ∷ path, rw h refl)
]

strip_path-IsRooted : (prefix path : Text) → IsRooted path → IsRooted (strip_path prefix path)
unfolding strip_path
strip_path-IsRooted prefix path h =
    elim (Bool-cases (not (is_empty prefix) && has_prefix path prefix)) [
      | inl e ↦ rw e (rooted-IsRooted (drop (length prefix) path))
      | inr e ↦ rw e h
    ]

rewrite_path-IsRooted :
    (r : RouteRewrite) (path : Text)
    → IsRooted path
    → (is_empty r.add_path_prefix ≡ true) ⊎ IsRooted r.add_path_prefix
    → IsRooted (rewrite_path r path)
unfolding rewrite_path IsRooted
rewrite_path-IsRooted r path h (inl e) = rw e (strip_path-IsRooted r.strip_path_prefix path h)
rewrite_path-IsRooted r path h (inr (rest, e)) =
    let stripped = strip_path r.strip_path_prefix path in (rest ++ stripped, simp e refl)

module _ ⦃p : Platform⦄ where
  -- A request with an absolute path is proxied with an absolute path, where the prefix that the
  -- rule adds is empty or absolute too.
  pub apply_request-IsRooted :
      (r : RouteRewrite) (path : Text) (h : Values)
      → IsRooted path
      → (is_empty r.add_path_prefix ≡ true) ⊎ IsRooted r.add_path_prefix
      → IsRooted (apply_request r (path, h)).0
  unfolding apply_request
  apply_request-IsRooted r path h k add = elim (Bool-cases (is_zero r)) [
    | inl e ↦ rw e k
    | inr e ↦ rw e (rewrite_path-IsRooted r path k add)
  ]

  -- What a header is set to last, after `old`.
  abbrev pub set_to : Map Text Text → Text → List Text → List Text
  set_to [] name old = old
  set_to ((other, value) ∷ m) name old =
      set_to m name (if p.canonical_key other == p.canonical_key name then value ∷ [] else old)

  -- Whether a header is one of these, however its name is written.
  abbrev pub is_one_of : Text → List Text → Bool
  is_one_of name [] = false
  is_one_of name (other ∷ names) =
      if p.canonical_key other == p.canonical_key name then true else is_one_of name names

  -- The values of a header after a rewrite.
  abbrev pub rewritten : Map Text Text → List Text → Text → List Text → List Text
  rewritten sets removes name old = if is_one_of name removes then [] else set_to sets name old

  abbrev listed : Option (List Text) → List Text
  listed none = []
  listed (some vs) = vs

  header_set-header_values :
      (other value name : Text) (h : Values)
      → header_values (header_set other value h) name ≡ (
          if p.canonical_key other == p.canonical_key name
          then value ∷ []
          else header_values h name)
  unfolding header_set header_values
  header_set-header_values other value name h =
      ap listed (lookup-insert (p.canonical_key other) (p.canonical_key name) (value ∷ []) h)
      ∙ chosen (p.canonical_key other == p.canonical_key name) (lookup (p.canonical_key name) h)
    where
      chosen :
          (b : Bool) (o : Option (List Text))
          → listed (if b then some (value ∷ []) else o) ≡ (if b then value ∷ [] else listed o)
      chosen true o = refl
      chosen false o = refl

  header_del-header_values :
      (other name : Text) (h : Values)
      → header_values (header_del other h) name
        ≡ (if p.canonical_key other == p.canonical_key name then [] else header_values h name)
  unfolding header_del header_values
  header_del-header_values other name h =
      ap listed (lookup-delete (p.canonical_key other) (p.canonical_key name) h)
      ∙ chosen (p.canonical_key other == p.canonical_key name) (lookup (p.canonical_key name) h)
    where
      chosen :
          (b : Bool) (o : Option (List Text))
          → listed (if b then none else o) ≡ (if b then [] else listed o)
      chosen true o = refl
      chosen false o = refl

  set_all-header_values :
      (m : Map Text Text) (name : Text) (h : Values)
      → header_values (set_all m h) name ≡ set_to m name (header_values h name)
  unfolding set_all
  set_all-header_values [] name h = refl
  set_all-header_values ((other, value) ∷ m) name h =
      set_all-header_values m name (header_set other value h)
      ∙ ap (set_to m name) (header_set-header_values other value name h)

  del_all-header_values :
      (names : List Text) (name : Text) (h : Values)
      → header_values (del_all names h) name
        ≡ (if is_one_of name names then [] else header_values h name)
  unfolding del_all
  del_all-header_values [] name h = refl
  del_all-header_values (n ∷ ns) name h =
      del_all-header_values ns name (header_del n h)
      ∙ ap (λ vs. if is_one_of name ns then [] else vs) (header_del-header_values n name h)
      ∙ either (p.canonical_key n == p.canonical_key name) (is_one_of name ns)
    where
      either :
          (b c : Bool)
          → (if c then [] else if b then [] else header_values h name)
            ≡ (if if b then true else c then [] else header_values h name)
      either true true = refl
      either true false = refl
      either false true = refl
      either false false = refl

  zero-rewritten :
      (r : RouteRewrite) (name : Text) (old : List Text)
      → is_zero r ≡ true
      → old ≡ rewritten r.set_request_headers r.remove_request_headers name old
  unfolding is_zero
  zero-rewritten r name old z =
      none_of r.set_request_headers r.remove_request_headers (ground (arith, z)) (ground (arith, z))
    where
      none_of :
          (sets : Map Text Text) (removes : List Text)
          → nat_eq.same (length sets) 0 ≡ true
          → nat_eq.same (length removes) 0 ≡ true
          → old ≡ rewritten sets removes name old
      none_of [] [] a b = refl
      none_of [] (x ∷ xs) a b = ground arith
      none_of (x ∷ xs) removes a b = ground arith

  rewritten-header_values :
      (sets : Map Text Text) (removes : List Text) (name : Text) (h : Values)
      → header_values (del_all removes (set_all sets h)) name
        ≡ rewritten sets removes name (header_values h name)
  rewritten-header_values sets removes name h =
      del_all-header_values removes name (set_all sets h)
      ∙ ap (λ vs. if is_one_of name removes then [] else vs) (set_all-header_values sets name h)

  -- After a rewrite of a request or of a response a header, however its name is written, has no
  -- value if the rule removes it there, else the value that the rule sets it to last, and else what
  -- it had.
  pub apply-rewritten :
      (r : RouteRewrite) (path name : Text) (h : Values)
      → (header_values (apply_request r (path, h)).1 name
          ≡ rewritten r.set_request_headers r.remove_request_headers name (header_values h name))
        × (header_values (apply_response r h) name
            ≡ rewritten r.set_response_headers r.remove_response_headers name
                (header_values h name))
  unfolding apply_request apply_response
  apply-rewritten r path name h = (
    elim (Bool-cases (is_zero r)) [
      | inl z ↦ rw z (zero-rewritten r name (header_values h name) z)
      | inr z ↦ rw z (rewritten-header_values r.set_request_headers r.remove_request_headers name h)
    ],
    rewritten-header_values r.set_response_headers r.remove_response_headers name h,
  )
