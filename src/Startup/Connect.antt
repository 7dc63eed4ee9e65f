-- ===== src/Startup/Connect.antt =====
-- What `New` promises: the connection to the database, and what becomes of what it opened.
use admin_api.Base.{
  ◌==◌, ℕ, zero, suc, ◌==◌, ◌+◌, ◌≤◌, ◌<◌, List, [], some, none, Bool, true, false, ◌≡◌, ◌≢◌, inl,
  inr, refl, ap, ◌∙◌, arith, Bool-cases, if_cases, not, ◌&&◌,
}
use admin_api.Base.Int.{ℤ, pos, negsuc}
use admin_api.Startup.{
  Outside, Settings, Outcome, Attempts, Cleanup, stopped, running, NewError, redis_error,
  telemetry_error, dsn_error, pool_error, stats_error, server_error, not_connected, retry_count,
  connect, connect_and_serve, open_pool, init_admin_server_config, new, ttl_or_day,
}

-- The attempts are those from the first on, up to the first that succeeds, and no more than allowed.
record Ran (pings : ℕ → Bool) (start last : ℕ) (a : Attempts) : Type 0 where
  bound : a.asked ≤ last
  success : a.connected ≡ true → (k : ℕ) × (start ≤ k) × (a.asked ≡ k + 1) × (pings k ≡ true)
  failure : a.connected ≡ false → (k : ℕ) → start ≤ k → k < last → pings k ≡ false

connect-Ran : (pings : ℕ → Bool) (left i : ℕ) → Ran pings i (i + left) (connect pings left i)
unfolding connect
connect-Ran pings zero i = record {
  bound = omega arith;
  success = λ e. cc;
  failure = λ e k low high. absurd (omega arith);
}
connect-Ran pings (suc left) i =
    let rest = connect-Ran pings left (i + 1) in
    if_cases (Ran pings i (i + suc left)) (pings i)
      (λ up. record {
        bound = omega arith;
        success = λ e. (i, omega arith, refl, up);
        failure = λ e. cc;
      })
      λ down. record {
        bound = let b = rest.bound in omega arith;
        success = λ e. let (k, low, asked, up) = rest.success e in (k, omega arith, asked, up);
        failure = λ e k low high. elim (Bool-cases (k == i)) [
          | inl same ↦ let here : k ≡ i = ground arith in ap pings here ∙ down
          | inr other ↦ rest.failure e k (ground arith) (omega arith)
        ];
      }

-- What an outcome of `New` says.
pub record NewFacts (o : Outside) (cfg : Settings) (out : Outcome) : Type 0 where
  pub served : out.error ≡ none → out.cleanups ≡ out.opened
  pub connected :
      out.error ≡ none → (k : ℕ) × (k < retry_count cfg.initial_conn_retry) × (o.pings k ≡ true)
  pub refused : out.error ≢ none → out.cleanups ≡ []
  pub patient :
      (k : ℕ)
      → k < retry_count cfg.initial_conn_retry
      → o.pings k ≡ true
      → out.error ≢ some not_connected
  pub ttl : out.session_ttl ≢ pos 0
  pub configured : cfg.session_ttl ≢ pos 0 → out.session_ttl ≡ cfg.session_ttl

ttl_or_day-ne-zero : (ttl : ℤ) → ttl_or_day ttl ≢ pos 0
ttl_or_day-ne-zero (pos n) h = ground arith
ttl_or_day-ne-zero (negsuc n) h = cc

ttl_or_day_same : (ttl : ℤ) → ttl ≢ pos 0 → ttl_or_day ttl ≡ ttl
ttl_or_day_same (pos n) h = ground arith
ttl_or_day_same (negsuc n) h = refl

module _ (o : Outside) (cfg : Settings) where
  stopped-NewFacts :
      (e : NewError) (opened : List Cleanup)
      → e ≢ not_connected
      → NewFacts o cfg (stopped o cfg e opened)
  stopped-NewFacts e opened other = record {
    served = λ k. cc;
    connected = λ k. cc;
    refused = λ k. refl;
    patient = λ k low up f. let same : e ≡ not_connected = cc in other same;
    ttl = ttl_or_day-ne-zero cfg.session_ttl;
    configured = ttl_or_day_same cfg.session_ttl;
  }

  -- Without a connection every attempt has failed.
  not_connected-NewFacts :
      (opened : List Cleanup)
      → (connect o.pings (retry_count cfg.initial_conn_retry) 0).connected ≡ false
      → NewFacts o cfg (stopped o cfg not_connected opened)
  not_connected-NewFacts opened down = record {
    served = λ k. cc;
    connected = λ k. cc;
    refused = λ k. refl;
    patient = λ k low up f.
        let ran = connect-Ran o.pings (retry_count cfg.initial_conn_retry) 0 in
        let failed : o.pings k ≡ false = ran.failure down k (omega arith) (omega arith) in cc;
    ttl = ttl_or_day-ne-zero cfg.session_ttl;
    configured = ttl_or_day_same cfg.session_ttl;
  }

  running-NewFacts :
      (opened : List Cleanup)
      → (connect o.pings (retry_count cfg.initial_conn_retry) 0).connected ≡ true
      → NewFacts o cfg (running o cfg opened)
  running-NewFacts opened up = record {
    served = λ k. refl;
    connected = λ _.
        let ran = connect-Ran o.pings (retry_count cfg.initial_conn_retry) 0 in
        let (k, _, asked, answered) = ran.success up in
        let b = ran.bound in (k, omega arith, answered);
    refused = λ k. absurd (k refl);
    patient = λ k low answered f. cc;
    ttl = ttl_or_day-ne-zero cfg.session_ttl;
    configured = ttl_or_day_same cfg.session_ttl;
  }

  connect_and_serve-NewFacts :
      (opened : List Cleanup) → NewFacts o cfg (connect_and_serve o cfg opened)
  unfolding connect_and_serve
  connect_and_serve-NewFacts opened =
      if_cases (NewFacts o cfg) ((connect o.pings (retry_count cfg.initial_conn_retry) 0).connected)
        (λ up.
          if_cases (NewFacts o cfg) (cfg.telemetry_enabled && not o.record_stats)
            (λ _. stopped-NewFacts stats_error opened (λ e. cc))
            λ _.
              if_cases (NewFacts o cfg) o.new_server (λ _. running-NewFacts opened up)
                λ _. stopped-NewFacts server_error opened (λ e. cc))
        λ down. not_connected-NewFacts opened down

  open_pool-NewFacts : (opened : List Cleanup) → NewFacts o cfg (open_pool o cfg opened)
  unfolding open_pool
  open_pool-NewFacts opened =
      if_cases (NewFacts o cfg) (not o.parse_config)
        (λ _. stopped-NewFacts dsn_error opened (λ e. cc))
        λ _.
          if_cases (NewFacts o cfg) (not o.new_pool)
            (λ _. stopped-NewFacts pool_error opened (λ e. cc)) λ _. connect_and_serve-NewFacts _

  -- A server that `New` makes has connected to the database at one of the attempts that the
  -- configuration allows, at least one, and keeps every cleanup that was registered; after an error it
  -- keeps none. `New` does not give up the database if one of these attempts would succeed. The
  -- lifetime of sessions is never zero, and is the configured one, a negative one too, where that is
  -- not zero.
  pub new_sound : NewFacts o cfg (new o cfg)
  unfolding new
  new_sound =
      if_cases (NewFacts o cfg) (not o.redis_ping) (λ _. stopped-NewFacts redis_error [] (λ e. cc))
        λ _.
          if_cases (NewFacts o cfg) (init_admin_server_config o cfg).0 (λ _. open_pool-NewFacts _)
            λ _. stopped-NewFacts telemetry_error _ (λ e. cc)
