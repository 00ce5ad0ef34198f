-- ===== src/Endpoint/HttpServer.antt =====
-- The settings that `HTTPServer::operator()` passes to restinio. Durations are in nanoseconds.
use tentris.Base.{ℕ, ◌-◌, ◌*◌, ◌/◌, ◌^◌, none, some, ltb, if◌then◌else◌}
use tentris.Sparql.Syntax.{Text}
use tentris.Sparql.Terms.{bytes}
use tentris.Endpoint.Requests.{EndpointCfg}

pub record ServerSettings : Type 0 where
  pub max_parallel_connections : ℕ
  pub handle_request_timeout : ℕ
  pub read_next_http_message_timelimit : ℕ
  pub write_http_response_timelimit : ℕ
  pub max_pipelined_requests : ℕ
  pub address : Text
  pub port : ℕ

-- `steady_clock::duration::max()`
abbrev pub max_duration : ℕ
max_duration = 2 ^ 63 - 1

-- The product with 0.95 is rounded towards zero.
unfoldable pub time_limit : EndpointCfg → ℕ
time_limit cfg = elim cfg.opt_timeout_duration [
  | none ↦ max_duration
  | some duration ↦ duration * 95 / 100
]

unfoldable pub pool_size : EndpointCfg → ℕ
pool_size cfg = if ltb 4 (cfg.threads / 4) then cfg.threads / 4 else 4

unfoldable pub server_settings : EndpointCfg → ServerSettings
server_settings cfg = record {
  max_parallel_connections = cfg.threads;
  handle_request_timeout = time_limit cfg;
  read_next_http_message_timelimit = 1000000000;
  write_http_response_timelimit = time_limit cfg;
  max_pipelined_requests = 1;
  address = bytes "0.0.0.0";
  port = cfg.port;
}
