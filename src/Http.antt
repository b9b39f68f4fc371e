-- ===== src/Http.antt =====
-- The types of net/http and net/url that the planes match on: a nil map is `none`.
use jbalance.Common.{
  Option, none, some, List, [], Text, Map, lookup, insert, delete, text_instance, ◌∷◌,
}
use jbalance.Platform.{Platform}

abbrev pub Values : Type 0
Values = Map Text (List Text)

pub record Request : Type 0 where
  pub host : Text
  pub path : Text
  pub method : Text
  pub header : Option Values
  pub query : Option Values

module _ ⦃p : Platform⦄ where
  -- header.Values(name)
  unfoldable pub header_values : Values → Text → List Text
  header_values h name = elim (lookup (p.canonical_key name) h) [ none ↦ [] | some vs ↦ vs ]

  -- h.Set(name, value)
  unfoldable pub header_set : Text → Text → Values → Values
  header_set name value h = insert (p.canonical_key name) (value ∷ []) h

  -- h.Del(name)
  unfoldable pub header_del : Text → Values → Values
  header_del name h = delete (p.canonical_key name) h
