-- ===== src/Proto.antt =====
-- The messages of proto/controlplane.proto that the two planes exchange.
use jbalance.Common.{ℤ, Bool, List, Option, Text, Map}
use jbalance.Platform.{Platform}

pub record Backend : Type 0 where
  pub address : Text
  pub weight : ℤ  -- int32

pub record BackendSet (p : Platform) : Type 0 where
  pub group : Text
  pub backends : List Backend
  pub version : ℤ  -- int64
  pub algorithm : Text
  pub sticky : Bool
  pub sticky_cookie_name : Text
  pub sticky_ttl_seconds : ℤ  -- int64
  pub rate_limit_rps : p.Float
  pub rate_limit_burst : ℤ  -- int32

pub record HeaderMatch : Type 0 where
  pub name : Text
  pub value : Text

pub record QueryMatch : Type 0 where
  pub name : Text
  pub value : Text

pub record RouteTarget : Type 0 where
  pub group : Text
  pub weight : ℤ  -- int32

pub record RouteRewrite : Type 0 where
  pub set_request_headers : Map Text Text
  pub remove_request_headers : List Text
  pub set_response_headers : Map Text Text
  pub remove_response_headers : List Text
  pub strip_path_prefix : Text
  pub add_path_prefix : Text

pub record RouteAuth : Type 0 where
  pub mode : Text
  pub api_keys : List Text
  pub api_key_header : Text
  pub hmac_secret : Text
  pub rsa_public_key_pem : Text
  pub expected_issuer : Text
  pub expected_audience : Text

-- A nil pointer is `none`.
pub record Route : Type 0 where
  pub host : Text
  pub path_prefix : Text
  pub methods : List Text
  pub target_group : Text
  pub name : Text
  pub split : List RouteTarget
  pub rewrite : Option RouteRewrite
  pub auth : Option RouteAuth
  pub header_matches : List HeaderMatch
  pub query_matches : List QueryMatch

pub record RouteTable : Type 0 where
  pub routes : List Route
  pub version : ℤ  -- int64

pub record BackendHealth : Type 0 where
  pub address : Text
  pub healthy : Bool

pub record HealthReport : Type 0 where
  pub instance_id : Text
  pub group : Text
  pub backends : List BackendHealth

pub record GroupMetrics (p : Platform) : Type 0 where
  pub group : Text
  pub requests_total : ℤ  -- int64
  pub errors_5xx_total : ℤ  -- int64
  pub active_connections : ℤ  -- int64
  pub avg_duration_ms : p.Float

pub record MetricsReport (p : Platform) : Type 0 where
  pub instance_id : Text
  pub groups : List (GroupMetrics p)
