-- ===== src/Startup.antt =====
-- pkg/server/server.go: `New`, which opens the program's connections in a row. What it hands to
-- libraries is left out; whether each of them succeeds is chosen outside.
pub mod Connect
pub mod Run
mod Tests
use admin_api.Base.{
  ℕ, zero, suc, not, ◌&&◌, ◌+◌, List, [], ◌∷◌, ◌++◌, Option, some, none, Bool, true, false, ◌==◌,
  ltb, if◌then◌else◌,
}
use admin_api.Base.Int.{ℤ, pos, negsuc}

-- The functions that `New` registers to be run at the end.
pub data Cleanup : Type 0 where
  close_redis shutdown_tracer_provider shutdown_meter_provider close_pool : Cleanup

pub data NewError : Type 0 where
  redis_error telemetry_error dsn_error pool_error not_connected stats_error server_error : NewError

-- Whether the calls of the libraries succeed; `pings` by the number of the attempt.
pub record Outside : Type 0 where
  pub redis_ping : Bool
  pub resource : Bool
  pub trace_exporter : Bool
  pub meter_exporter : Bool
  pub parse_config : Bool
  pub new_pool : Bool
  pub pings : ℕ → Bool
  pub record_stats : Bool
  pub new_server : Bool

-- The fields of the configuration that decide something; a duration in nanoseconds.
pub record Settings : Type 0 where
  pub session_ttl : ℤ
  pub telemetry_enabled : Bool
  pub initial_conn_retry : ℤ

-- `opened` are the cleanups that were registered when `New` returned, in order; `cleanups` those that
-- the server that it returns has.
pub record Outcome : Type 0 where
  pub error : Option NewError
  pub opened : List Cleanup
  pub cleanups : List Cleanup
  pub session_ttl : ℤ

abbrev pub day : ℤ
day = pos 86400000000000

-- A `time.Duration` has a sign; 0 alone is replaced.
abbrev pub ttl_or_day : ℤ → ℤ
ttl_or_day (pos n) = if n == 0 then day else pos n
ttl_or_day (negsuc n) = negsuc n

unfoldable pub retry_count : ℤ → ℕ
retry_count (pos n) = if ltb 1 n then n else 1
retry_count (negsuc n) = 1

-- The loop of the first connection: whether it connected, and how often it asked.
pub record Attempts : Type 0 where
  pub connected : Bool
  pub asked : ℕ

-- Attempt `i`, with `left` attempts to go.
unfoldable pub connect : (ℕ → Bool) → ℕ → ℕ → Attempts
connect pings zero i = record { connected = false; asked = i }
connect pings (suc left) i =
    let rest = connect pings left (i + 1) in
    if pings i then record { connected = true; asked = i + 1 } else rest

module _ (o : Outside) (cfg : Settings) where
  abbrev pub stopped : NewError → List Cleanup → Outcome
  stopped e opened = record {
    error = some e;
    opened = opened;
    cleanups = [];
    session_ttl = ttl_or_day cfg.session_ttl;
  }

  abbrev pub running : List Cleanup → Outcome
  running opened = record {
    error = none;
    opened = opened;
    cleanups = opened;
    session_ttl = ttl_or_day cfg.session_ttl;
  }

  -- From the first ping of the database on.
  unfoldable pub connect_and_serve : List Cleanup → Outcome
  unfolding connect retry_count
  connect_and_serve opened =
      if (connect o.pings (retry_count cfg.initial_conn_retry) 0).connected
      then if cfg.telemetry_enabled && not o.record_stats
        then stopped stats_error opened
        else if o.new_server
        then running opened
        else stopped server_error opened
      else stopped not_connected opened

  unfoldable pub open_pool : List Cleanup → Outcome
  unfolding connect_and_serve
  open_pool opened =
      if not o.parse_config
      then stopped dsn_error opened
      else if not o.new_pool
      then stopped pool_error opened
      else connect_and_serve (opened ++ close_pool ∷ [])

  -- `initAdminServerConfig`: the cleanups that were registered, and whether it failed. On a failure
  -- it returns none of them.
  unfoldable pub init_admin_server_config : Bool × List Cleanup
  init_admin_server_config =
      if not cfg.telemetry_enabled
      then (true, [])
      else if not o.resource
      then (false, [])
      else if not o.trace_exporter
      then (false, [])
      else if not o.meter_exporter
      then (false, shutdown_tracer_provider ∷ [])
      else (true, shutdown_tracer_provider ∷ shutdown_meter_provider ∷ [])

  unfoldable pub new : Outcome
  unfolding open_pool init_admin_server_config
  new =
      if not o.redis_ping
      then stopped redis_error []
      else let (done, registered) = init_admin_server_config in
        if done
        then open_pool (close_redis ∷ registered)
        else stopped telemetry_error (close_redis ∷ registered)
