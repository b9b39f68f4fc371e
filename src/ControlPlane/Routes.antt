-- ===== src/ControlPlane/Routes.antt =====
-- internal/controlplane/routes.go, and publishRoutes of server.go: the rules that the admin sets,
-- how they match, and the table that is sent. controlplane.Route mirrors proto.Route field by
-- field, so one record stands for both.
use jbalance.Common.{
  Bool, true, false, not, ◌&&◌, Option, none, some, List, [], ◌∷◌, map, ℤ, pos, ◌+ℤ◌, int64, ltb,
  length, Text, bytes, is_empty, has_prefix, any, all, text_instance, ◌==◌, lookup, if◌then◌else◌,
}
use jbalance.Platform.{Platform}
use jbalance.Proto.{HeaderMatch, QueryMatch, RouteTarget, RouteAuth, Route, RouteTable}
use jbalance.Http.{Values, Request, header_values}

unfoldable pub query_matches : Option Values → Text → Text → Bool
query_matches none name want = false
query_matches (some q) name want = elim (lookup name q) [
  | none ↦ false
  | some vals ↦ if is_empty want then true else any (λ v. v == want) vals
]

module _ ⦃p : Platform⦄ where
  unfoldable pub matches : Route → Text → Text → Text → Bool
  matches r host path method =
      if not (is_empty r.host) && not (r.host == bytes "*") && not (p.equal_fold r.host host)
      then false
      else if not (is_empty r.path_prefix)
          && not (r.path_prefix == bytes "/")
          && not (has_prefix path r.path_prefix)
      then false
      else if ltb 0 (length r.methods) && not (any (λ m. p.equal_fold m method) r.methods)
      then false
      else true

  unfoldable pub header_matches : Option Values → Text → Text → Bool
  header_matches none name want = false
  header_matches (some h) name want =
      if is_empty want
      then ltb 0 (length (header_values h name))
      else any (λ v. v == want) (header_values h name)

  unfoldable pub matches_request : Route → Request → Bool
  unfolding matches header_matches query_matches
  matches_request r q =
      if not (matches r q.host q.path q.method)
      then false
      else if not (all (λ hm. header_matches q.header hm.name hm.value) r.header_matches)
      then false
      else all (λ qm. query_matches q.query qm.name qm.value) r.query_matches

-- RouteStore without its file: the rules in evaluation order and their version.
pub record RouteStore : Type 0 where
  pub routes : List Route
  pub version : ℤ  -- int64

-- The state change of RouteStore.Set.
unfoldable pub set_routes : List Route → RouteStore → RouteStore
set_routes routes s = record { routes = routes; version = int64 (s.version +ℤ pos 1) }

-- The loops of publishRoutes drop what has no name.
unfoldable pub named_targets : List RouteTarget → List RouteTarget
named_targets [] = []
named_targets (t ∷ ts) = let rest = named_targets ts in if is_empty t.group then rest else t ∷ rest

unfoldable pub named_headers : List HeaderMatch → List HeaderMatch
named_headers [] = []
named_headers (m ∷ ms) = let rest = named_headers ms in if is_empty m.name then rest else m ∷ rest

unfoldable pub named_queries : List QueryMatch → List QueryMatch
named_queries [] = []
named_queries (m ∷ ms) = let rest = named_queries ms in if is_empty m.name then rest else m ∷ rest

unfoldable pub published_auth : Option RouteAuth → Option RouteAuth
published_auth none = none
published_auth (some a) =
    if not (is_empty a.mode) && not (a.mode == bytes "none") then some a else none

unfoldable pub published_route : Route → Route
unfolding named_targets named_headers named_queries published_auth
published_route r = record r {
  split = named_targets r.split;
  auth = published_auth r.auth;
  header_matches = named_headers r.header_matches;
  query_matches = named_queries r.query_matches;
}

-- The table that publishRoutes builds and stores in lastRoutes.
unfoldable pub published_table : RouteStore → RouteTable
unfolding published_route
published_table s = record { routes = map published_route s.routes; version = s.version }
