-- ===== src/Dataplane/Router/Agreement.antt =====
-- The matching of the data plane, against that of the control plane.
use mathlib.Core.Option
use jbalance.Common.{Option, none, some, List, [], ◌∷◌, text_instance, if◌then◌else◌}
use jbalance.Platform.{Platform}
use jbalance.Proto
use jbalance.Http.{Request}
use jbalance.ControlPlane.Routes as Rules
use jbalance.ControlPlane.Routes.{
  named_headers, named_queries, matches_request, header_matches, query_matches,
}

-- A rule without the conditions that have no name.
unfoldable pub named : Proto.Route → Proto.Route
named r = record r {
  header_matches = named_headers r.header_matches;
  query_matches = named_queries r.query_matches;
}

module _ ⦃p : Platform⦄ where
  -- The rule that serves a request, looked for as the control plane matches.
  unfoldable pub first_rule : Request → List Proto.Route → Option Proto.Route
  first_rule q [] = none
  first_rule q (r ∷ rs) = if matches_request (named r) q then some r else first_rule q rs
