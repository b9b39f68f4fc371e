-- ===== src/Examples/Routing.antt =====
-- Runs of the route table.
use mathlib.Core.Option
use jbalance.Common.{◌≡◌, refl, some, none, [], ◌∷◌, pos, bytes, inl, arith}
use jbalance.Samples.{milli}
use jbalance.Proto
use jbalance.Http.{Request, header_values}
use jbalance.Dataplane.Router.{
  route_from_proto, destination, resolve, target_groups, apply_request, apply_response,
  new_route_table, update,
}
use jbalance.Dataplane.Router.Split.{destination-share}
use jbalance.Dataplane.Router.Groups.{Named, resolve-Named}
use jbalance.Dataplane.Router.Paths.{IsRooted, apply_request-IsRooted, rewritten, apply-rewritten}

abbrev canary : Proto.Route
canary = record {
  host = [];
  path_prefix = bytes "/api";
  methods = [];
  target_group = bytes "web";
  name = bytes "canary";
  split =
      record { group = bytes "web"; weight = pos 9 }
      ∷ record { group = bytes "next"; weight = pos 1 }
      ∷ [];
  rewrite = none;
  auth = none;
  header_matches =
      record { name = bytes "X-Beta"; value = bytes "1" } ∷ record { name = []; value = [] } ∷ [];
  query_matches = [];
}

abbrev beta : Request
beta = record {
  host = bytes "example.org";
  path = bytes "/api/users";
  method = bytes "GET";
  header = some ((bytes "X-Beta", bytes "1" ∷ []) ∷ []);
  query = none;
}

abbrev trimmed : Proto.RouteRewrite
trimmed = record {
  set_request_headers = (bytes "X-Env", bytes "beta") ∷ [];
  remove_request_headers = bytes "X-Beta" ∷ [];
  set_response_headers = [];
  remove_response_headers = bytes "Server" ∷ [];
  strip_path_prefix = bytes "/api";
  add_path_prefix = [];
}

-- The tenth draw goes to the group of weight 1.
destination-share_example : destination (λ n. 9) (route_from_proto canary) ≡ bytes "next"
destination-share_example =
    destination-share (λ n. 9) canary (record { group = bytes "web"; weight = pos 9 } ∷ [])
      (record { group = bytes "next"; weight = pos 1 }) [] refl refl (omega arith) (omega arith)

resolve-Named_example :
    Named
      (resolve
        (λ n. 9)
        beta
        (update (record { routes = canary ∷ []; version = pos 1 }) (new_route_table (bytes "web"))))
      (target_groups
        (update (record { routes = canary ∷ []; version = pos 1 }) (new_route_table (bytes "web"))))
resolve-Named_example =
    resolve-Named (λ n. 9) beta
      (update (record { routes = canary ∷ []; version = pos 1 }) (new_route_table (bytes "web")))

apply_request-IsRooted_example : IsRooted (apply_request trimmed (bytes "/api/users", [])).0
unfolding IsRooted
apply_request-IsRooted_example =
    apply_request-IsRooted trimmed (bytes "/api/users") [] (bytes "api/users", refl) (inl refl)

apply-rewritten_example :
    (header_values
        (apply_request trimmed (bytes "/api", (bytes "X-Beta", bytes "1" ∷ []) ∷ [])).1
        (bytes "X-Beta")
      ≡ rewritten ⦃p = milli⦄ trimmed.set_request_headers trimmed.remove_request_headers
          (bytes "X-Beta")
          (header_values ((bytes "X-Beta", bytes "1" ∷ []) ∷ []) (bytes "X-Beta")))
    × (header_values
          (apply_response trimmed ((bytes "X-Beta", bytes "1" ∷ []) ∷ []))
          (bytes "X-Beta")
        ≡ rewritten ⦃p = milli⦄ trimmed.set_response_headers trimmed.remove_response_headers
            (bytes "X-Beta")
            (header_values ((bytes "X-Beta", bytes "1" ∷ []) ∷ []) (bytes "X-Beta")))
apply-rewritten_example =
    apply-rewritten trimmed (bytes "/api") (bytes "X-Beta") ((bytes "X-Beta", bytes "1" ∷ []) ∷ [])
