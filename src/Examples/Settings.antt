-- ===== src/Examples/Settings.antt =====
-- Start-up settings of both planes.
use jbalance.Common.{true, false, some, none, [], pos, bytes}
use jbalance.Samples.{milli}
use jbalance.Config.{System, ControlPlaneConfig}
use jbalance.Config.DataPlane.{DataPlaneConfig}

-- Every address has a port, and no file is there.
abbrev bare : System
bare = record {
  split_host_port = λ addr. some (addr, bytes "80");
  lookup_port = λ port. some 80;
  stat = λ path. none;
  loads_client = λ cert key ca. false;
  loads_server = λ cert key ca. false;
  loads_pairs = λ pairs. false;
}

-- Nothing but a group: every other setting is empty or 0.
abbrev unset : DataPlaneConfig milli
unset = record {
  protocol = bytes "http";
  listen_addr = [];
  control_plane_addr = bytes "cp:80";
  group = bytes "web";
  metrics_addr = [];
  metrics_enabled = false;
  metrics_disable = true;
  ops_addr = [];
  health_check_mode = bytes "tcp";
  health_check_scheme = [];
  health_check_interval = pos 0;
  health_check_timeout = pos 0;
  health_check_expect_status = pos 0;
  unhealthy_threshold = pos 0;
  healthy_threshold = pos 0;
  backend_protocol = [];
  access_log = false;
  access_log_format = [];
  tracing_enabled = false;
  tracing_protocol = [];
  tracing_sample_ratio = 0;
  proxy_connect_timeout = pos 0;
  proxy_response_timeout = pos 0;
  proxy_max_retries = pos 0;
  proxy_retry_backoff = pos 0;
  tcp_dial_timeout = pos 0;
  shutdown_grace = pos 0;
  max_conns = pos 0;
  max_header_bytes = pos 0;
  max_body_bytes = pos 0;
  read_header_timeout = pos 0;
  outlier_detection = true;
  outlier_consecutive_error = pos 0;
  outlier_eject_duration = pos 0;
  outlier_max_eject_duration = pos 0;
  outlier_max_eject_percent = pos 0;
  cp_tls_enable = false;
  cp_tls_ca_cert = [];
  cp_tls_client_cert = [];
  cp_tls_client_key = [];
  http_tls_cert = [];
  http_tls_key = [];
  http_tls_certs = [];
  http_tls_client_ca = [];
  http_tls_reload_interval = pos 0;
  log_level = bytes "info";
  log_format = bytes "json";
}

abbrev fake_pool : ControlPlaneConfig
fake_pool = record {
  grpc_addr = bytes ":9000";
  admin_addr = [];
  admin_disable = true;
  reconcile_interval = pos 1000;
  tls_cert = [];
  tls_key = [];
  tls_client_ca = [];
  provider = bytes "fake";
  fake_base_port = pos 9000;
  scaling_interval = pos 0;
  simulate_scaling = false;
  azure_subscription_id = [];
  azure_resource_group = [];
  azure_vmss_groups = [];
  k8s_groups = [];
  k8s_kubeconfig = [];
  file_provider_path = [];
  store_backend = [];
  store_dsn = [];
  admin_tls_cert = [];
  admin_tls_key = [];
  log_level = bytes "info";
  log_format = bytes "json";
}
