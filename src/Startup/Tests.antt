-- ===== src/Startup/Tests.antt =====
-- Starts and stops of the server, and the theorems at them.
use admin_api.Base.{[], ◌∷◌, true, false, ◌≡◌, ◌≢◌, refl, ◌==◌}
use admin_api.Base.Int.{pos, negsuc}
use admin_api.Startup.{Outside, Settings, close_redis, close_pool, new}
use admin_api.Startup.Connect.{NewFacts, new_sound}
use admin_api.Startup.Run.{
  State, Setting, Step, shutdown, started, joining, returned, listening, ended, cancelled,
  shut_down, server_closed, joined, cleaned, finished, Reach, here, then,
}
use admin_api.Startup.Run.Ends.{start_runs_cleanups, start_hangs_with_tls, start_returns}

-- The database answers at the third attempt.
abbrev slow_database : Outside
slow_database = record {
  redis_ping = true;
  resource = true;
  trace_exporter = true;
  meter_exporter = true;
  parse_config = true;
  new_pool = true;
  pings = λ i. i == 2;
  record_stats = true;
  new_server = true;
}

abbrev five_attempts : Settings
five_attempts = record {
  session_ttl = negsuc 9;
  telemetry_enabled = false;
  initial_conn_retry = pos 5;
}

new_sound_example : NewFacts slow_database five_attempts (new slow_database five_attempts)
new_sound_example = new_sound slow_database five_attempts

abbrev plain : Setting
plain = record { tls = false; may_fail = true; cleanups = close_redis ∷ close_pool ∷ [] }

abbrev with_tls : Setting
with_tls = record { tls = true; may_fail = false; cleanups = close_redis ∷ close_pool ∷ [] }

abbrev stopping : State
stopping = record { main = joining; listener = listening; closed = shutdown []; done = [] }

stopped_by_signal : (cfg : Setting) → Reach cfg started stopping
stopped_by_signal cfg = then (then here (cancelled _ refl)) (shut_down _ refl)

abbrev over : State
over = record {
  main = returned false;
  listener = ended;
  closed = shutdown [];
  done = close_redis ∷ close_pool ∷ [];
}

all_the_way : Reach plain started over
all_the_way =
    then
      (then
        (then
          (then (then (stopped_by_signal plain) (server_closed _ refl refl)) (joined _ refl refl))
          (cleaned _ close_redis (close_pool ∷ []) refl))
        (cleaned _ close_pool [] refl))
      (finished _ refl)

start_runs_cleanups_example :
    (over.main ≡ returned false → (over.done ≡ plain.cleanups) × (over.listener ≡ ended))
    × (over.main ≡ returned true → over.done ≡ [])
start_runs_cleanups_example = start_runs_cleanups plain over all_the_way

start_hangs_with_tls_example :
    (stopping.listener ≡ listening)
    × (stopping.done ≡ [])
    × (stopping.main ≢ returned false)
    × (stopping.main ≡ joining → (t : State) → ¬ Step with_tls stopping t)
start_hangs_with_tls_example =
    start_hangs_with_tls with_tls stopping refl refl (stopped_by_signal with_tls)

start_returns_example :
    (t : State) × Reach plain stopping t × (t.main ≡ returned false) × (t.done ≡ plain.cleanups)
start_returns_example = start_returns plain stopping refl (stopped_by_signal plain) (λ e. cc)
