-- ===== src/Dataplane/Router.antt =====
-- internal/dataplane/router.go: the route table of the data plane, and the rewrites of a rule.
pub mod Agreement
pub mod Split
pub mod Groups
pub mod Paths
use jbalance.Common.{
  ℕ, ◌+◌, ◌-◌, ◌<◌, Bool, true, false, not, ◌&&◌, ◌||◌, Option, none, some, List, [], ◌∷◌, ◌++◌,
  map, ℤ, pos, ◌+ℤ◌, ◌-ℤ◌, ltb_ℤ, pos_part, leb_ℤ, eqb_ℤ, ltb, leb, length, drop, Text, bytes,
  is_empty, has_prefix, any, all, text_instance, ◌==◌, Map, lookup, if◌then◌else◌, nat_eq,
}
use jbalance.Platform.{Platform}
use jbalance.Proto
use jbalance.Proto.{HeaderMatch, QueryMatch, RouteRewrite, RouteAuth}
use jbalance.Http.{Values, Request, header_values, header_set, header_del}

-- A header or query condition.
pub record KvMatch : Type 0 where
  pub name : Text
  pub value : Text

pub record RouteTarget : Type 0 where
  pub group : Text
  pub weight : ℤ  -- int32

-- routeRewrite and routeAuth have the fields of their messages; their zero values stand for none.
pub record Route : Type 0 where
  pub host : Text
  pub path_prefix : Text
  pub methods : List Text
  pub target_group : Text
  pub split : List RouteTarget
  pub rewrite : RouteRewrite
  pub auth : RouteAuth
  pub header_matches : List KvMatch
  pub query_matches : List KvMatch

pub record RouteTable : Type 0 where
  pub routes : List Route
  pub version : ℤ  -- int64
  pub default_group : Text

abbrev pub zero_rewrite : RouteRewrite
zero_rewrite = record {
  set_request_headers = [];
  remove_request_headers = [];
  set_response_headers = [];
  remove_response_headers = [];
  strip_path_prefix = [];
  add_path_prefix = [];
}

abbrev pub zero_auth : RouteAuth
zero_auth = record {
  mode = [];
  api_keys = [];
  api_key_header = [];
  hmac_secret = [];
  rsa_public_key_pem = [];
  expected_issuer = [];
  expected_audience = [];
}

unfoldable pub new_route_table : Text → RouteTable
new_route_table group = record { routes = []; version = pos 0; default_group = group }

unfoldable pub is_zero : RouteRewrite → Bool
is_zero rw' =
    nat_eq.same (length rw'.set_request_headers) 0
    && nat_eq.same (length rw'.remove_request_headers) 0
    && nat_eq.same (length rw'.set_response_headers) 0
    && nat_eq.same (length rw'.remove_response_headers) 0
    && is_empty rw'.strip_path_prefix
    && is_empty rw'.add_path_prefix

unfoldable pub query_condition_met : Option Values → KvMatch → Bool
query_condition_met none qm = false
query_condition_met (some q) qm = elim (lookup qm.name q) [
  | none ↦ false
  | some vals ↦ if is_empty qm.value then true else any (λ v. v == qm.value) vals
]

-- The conversions of a received table.
unfoldable pub kv_matches_from_proto : List HeaderMatch → List KvMatch
kv_matches_from_proto [] = []
kv_matches_from_proto (m ∷ ms) =
    let rest = kv_matches_from_proto ms in
    if is_empty m.name then rest else record { name = m.name; value = m.value } ∷ rest

unfoldable pub query_matches_from_proto : List QueryMatch → List KvMatch
query_matches_from_proto [] = []
query_matches_from_proto (m ∷ ms) =
    let rest = query_matches_from_proto ms in
    if is_empty m.name then rest else record { name = m.name; value = m.value } ∷ rest

unfoldable pub split_from_proto : List Proto.RouteTarget → List RouteTarget
split_from_proto [] = []
split_from_proto (t ∷ ts) =
    let rest = split_from_proto ts in
    if is_empty t.group
    then rest
    else record { group = t.group; weight = if leb_ℤ t.weight (pos 0) then pos 1 else t.weight }
      ∷ rest

unfoldable pub rewrite_from_proto : Option RouteRewrite → RouteRewrite
rewrite_from_proto none = zero_rewrite
rewrite_from_proto (some r) = r

unfoldable pub auth_from_proto : Option RouteAuth → RouteAuth
auth_from_proto none = zero_auth
auth_from_proto (some a) = a

unfoldable pub route_from_proto : Proto.Route → Route
unfolding split_from_proto rewrite_from_proto auth_from_proto kv_matches_from_proto
    query_matches_from_proto
route_from_proto r = record {
  host = r.host;
  path_prefix = r.path_prefix;
  methods = r.methods;
  target_group = r.target_group;
  split = split_from_proto r.split;
  rewrite = rewrite_from_proto r.rewrite;
  auth = auth_from_proto r.auth;
  header_matches = kv_matches_from_proto r.header_matches;
  query_matches = query_matches_from_proto r.query_matches;
}

unfoldable pub update : Proto.RouteTable → RouteTable → RouteTable
unfolding route_from_proto
update table t =
    if leb_ℤ table.version t.version && not (eqb_ℤ t.version (pos 0))
    then t
    else record t { routes = map route_from_proto table.routes; version = table.version }

-- The weights are int32, and their sum is taken in int.
unfoldable pub total_weight : ℤ → List RouteTarget → ℤ
total_weight total [] = total
total_weight total (s ∷ ss) = total_weight (total +ℤ s.weight) ss

unfoldable pub pick_from : ℤ → List RouteTarget → Text → Text
pick_from n [] last = last
pick_from n (s ∷ ss) last =
    let rest = pick_from (n -ℤ s.weight) ss last in if ltb_ℤ n s.weight then s.group else rest

unfoldable pub last_group : RouteTarget → List RouteTarget → Text
last_group s [] = s.group
last_group s (t ∷ ts) = last_group t ts

-- pickSplit of the targets `s`, then `ss`; `intn n` is the value of rng.Intn(n).
unfoldable pub pick_split : (ℕ → ℕ) → RouteTarget → List RouteTarget → Text
unfolding total_weight pick_from last_group
pick_split intn s [] = s.group
pick_split intn s (t ∷ ts) =
    let total = total_weight (pos 0) (s ∷ t ∷ ts) in
    if leb_ℤ total (pos 0)
    then s.group
    else pick_from (pos (intn (pos_part total))) (s ∷ t ∷ ts) (last_group s (t ∷ ts))

-- The group of a matched rule.
unfoldable pub destination : (ℕ → ℕ) → Route → Text
unfolding pick_split
destination intn r = elim r.split [ [] ↦ r.target_group | s ∷ ss ↦ pick_split intn s ss ]

-- `add` of TargetGroups; `seen` holds what `out` does.
unfoldable pub add_group : Text → List Text → List Text
add_group g out = if is_empty g || any (λ h. h == g) out then out else out ++ g ∷ []

unfoldable pub add_split : List RouteTarget → List Text → List Text
unfolding add_group
add_split [] out = out
add_split (s ∷ ss) out = add_split ss (add_group s.group out)

unfoldable pub add_routes : List Route → List Text → List Text
unfolding add_split
add_routes [] out = out
add_routes (r ∷ rs) out = add_routes rs (add_split r.split (add_group r.target_group out))

unfoldable pub target_groups : RouteTable → List Text
unfolding add_routes
target_groups t = add_routes t.routes (t.default_group ∷ [])

-- `if path == "" || path[0] != '/' { path = "/" + path }`
unfoldable pub rooted : Text → Text
rooted [] = bytes "/"
rooted (c ∷ path) = if nat_eq.same c b'/' then c ∷ path else b'/' ∷ c ∷ path

-- The path of applyRequest.
unfoldable pub strip_path : Text → Text → Text
unfolding rooted
strip_path prefix path =
    if not (is_empty prefix) && has_prefix path prefix
    then rooted (drop (length prefix) path)
    else path

unfoldable pub rewrite_path : RouteRewrite → Text → Text
unfolding strip_path
rewrite_path r path =
    let stripped = strip_path r.strip_path_prefix path in
    if is_empty r.add_path_prefix then stripped else r.add_path_prefix ++ stripped

module _ ⦃p : Platform⦄ where
  unfoldable pub header_condition_met : Option Values → KvMatch → Bool
  header_condition_met none hm = false
  header_condition_met (some h) hm =
      if is_empty hm.value
      then ltb 0 (length (header_values h hm.name))
      else any (λ v. v == hm.value) (header_values h hm.name)

  unfoldable pub matches : Route → Request → Bool
  unfolding header_condition_met query_condition_met
  matches r q =
      if not (is_empty r.host) && not (r.host == bytes "*") && not (p.equal_fold r.host q.host)
      then false
      else if not (is_empty r.path_prefix)
          && not (r.path_prefix == bytes "/")
          && not (has_prefix q.path r.path_prefix)
      then false
      else if ltb 0 (length r.methods) && not (any (λ m. p.equal_fold m q.method) r.methods)
      then false
      else if not (all (header_condition_met q.header) r.header_matches)
      then false
      else all (query_condition_met q.query) r.query_matches

  unfoldable pub first_match : Request → List Route → Option Route
  unfolding matches
  first_match q [] = none
  first_match q (r ∷ rs) = if matches r q then some r else first_match q rs

  unfoldable pub resolve_match : (ℕ → ℕ) → Request → RouteTable → Text × RouteRewrite × RouteAuth
  unfolding first_match destination
  resolve_match intn q t = elim (first_match q t.routes) [
    | none ↦ (t.default_group, zero_rewrite, zero_auth)
    | some r ↦ (destination intn r, r.rewrite, r.auth)
  ]

  unfoldable pub resolve : (ℕ → ℕ) → Request → RouteTable → Text
  unfolding resolve_match
  resolve intn q t = (resolve_match intn q t).0

  -- The loops of applyRequest and applyResponse over the headers.
  unfoldable pub set_all : Map Text Text → Values → Values
  unfolding header_set
  set_all [] h = h
  set_all ((name, value) ∷ m) h = set_all m (header_set name value h)

  unfoldable pub del_all : List Text → Values → Values
  unfolding header_del
  del_all [] h = h
  del_all (name ∷ ns) h = del_all ns (header_del name h)

  unfoldable pub apply_request : RouteRewrite → Text × Values → Text × Values
  unfolding is_zero rewrite_path set_all del_all
  apply_request r (path, h) =
      if is_zero r
      then (path, h)
      else (rewrite_path r path, del_all r.remove_request_headers (set_all r.set_request_headers h))

  unfoldable pub apply_response : RouteRewrite → Values → Values
  unfolding set_all del_all
  apply_response r h = del_all r.remove_response_headers (set_all r.set_response_headers h)
