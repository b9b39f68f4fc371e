-- ===== src/CertPairs.antt =====
-- internal/tlsutil/certreloader.go: the list of certificate and key files.
use jbalance.Common.{
  ℕ, Option, none, some, List, [], ◌∷◌, Text, is_empty, nat_eq, split_on, if◌then◌else◌, ◌||◌,
}
use jbalance.Platform.{Platform}

pub record CertPair : Type 0 where
  pub cert_file : Text
  pub key_file : Text

-- What stands before and after the first byte `c`.
unfoldable pub cut : ℕ → Text → Option (Text × Text)
cut c [] = none
cut c (x ∷ xs) =
    if nat_eq.same x c
    then some ([], xs)
    else elim (cut c xs) [ none ↦ none | some (before, after) ↦ some (x ∷ before, after) ]

-- A pair before the others, unless their list is malformed.
abbrev pub cons_pair : CertPair → Option (List CertPair) → Option (List CertPair)
cons_pair pair none = none
cons_pair pair (some pairs) = some (pair ∷ pairs)

module _ ⦃p : Platform⦄ where
  -- An entry that is not empty: none where it is malformed.
  unfoldable pub parse_entry : Text → Option CertPair
  unfolding cut
  parse_entry entry = elim (cut 58 entry) [
    | none ↦ none
    | some (cert, key) ↦
        if is_empty (p.trim_space cert) || is_empty (p.trim_space key)
        then none
        else some (record { cert_file = p.trim_space cert; key_file = p.trim_space key })
  ]

  unfoldable pub parse_entries : List Text → Option (List CertPair)
  unfolding parse_entry
  parse_entries [] = some []
  parse_entries (entry ∷ rest) =
      let others = parse_entries rest in
      if is_empty (p.trim_space entry) then others else elim (parse_entry (p.trim_space entry)) [
        | none ↦ none
        | some pair ↦ cons_pair pair others
      ]

  unfoldable pub parse_cert_pairs : Text → Option (List CertPair)
  unfolding parse_entries split_on
  parse_cert_pairs spec =
      if is_empty (p.trim_space spec)
      then some []
      else parse_entries (split_on 44 (p.trim_space spec))
