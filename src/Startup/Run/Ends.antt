-- ===== src/Startup/Run/Ends.antt =====
-- How `Start` ends.
use admin_api.Base.{arith, List, [], ◌∷◌, ◌++◌, true, false, ◌≡◌, ◌≢◌, refl, sym, ap, subst, ◌∙◌}
use admin_api.Startup.{Cleanup}
use admin_api.Startup.Run.{
  Main, is_among, echo_server, own_server, waiting, shutting_down, joining, cleaning, returned,
  Listener, listening, ended, State, Setting, started, Step, cancelled, shut_down, shutdown_failed,
  server_closed, listener_failed, joined, cleaned, finished, Reach, here, then,
}

-- The cleanups that are done, and those to come, by where `Start` is.
abbrev Accounts : Setting → Main → State → Type 0
Accounts cfg waiting s = s.done ≡ []
Accounts cfg shutting_down s = s.done ≡ []
Accounts cfg joining s = (s.done ≡ []) × (is_among echo_server s.closed ≡ true)
Accounts cfg (cleaning cs) s = (s.done ++ cs ≡ cfg.cleanups) × (s.listener ≡ ended)
Accounts cfg (returned true) s = s.done ≡ []
Accounts cfg (returned false) s = (s.done ≡ cfg.cleanups) × (s.listener ≡ ended)

record Inv (cfg : Setting) (s : State) : Type 0 where
  accounts : Accounts cfg s.main s

append_nothing : (xs : List Cleanup) → xs ++ [] ≡ xs
append_nothing [] = refl
append_nothing (x ∷ xs) = ap (λ ys. x ∷ ys) (append_nothing xs)

append_next :
    (xs : List Cleanup) (c : Cleanup) (cs : List Cleanup) → (xs ++ c ∷ []) ++ cs ≡ xs ++ c ∷ cs
append_next [] c cs = refl
append_next (x ∷ xs) c cs = ap (λ ys. x ∷ ys) (append_next xs c cs)

module _ (cfg : Setting) where
  end_listener :
      (m : Main) (s : State) → Accounts cfg m s → Accounts cfg m (record s { listener = ended })
  end_listener waiting s a = a
  end_listener shutting_down s a = a
  end_listener joining s a = a
  end_listener (cleaning cs) s a = (a.0, refl)
  end_listener (returned true) s a = a
  end_listener (returned false) s a = (a.0, refl)

  at_main : {s : State} {m : Main} → s.main ≡ m → Inv cfg s → Accounts cfg m s
  at_main {s} e inv = subst (λ m. Accounts cfg m s) e inv.accounts

  step-Inv : {s t : State} → Step cfg s t → Inv cfg s → Inv cfg t
  step-Inv (cancelled s m) inv = record { accounts = at_main m inv }
  step-Inv (shut_down s m) inv = record { accounts = (at_main m inv, refl) }
  step-Inv (shutdown_failed s m) inv = record { accounts = at_main m inv }
  step-Inv (server_closed s down l) inv = record { accounts = end_listener s.main s inv.accounts }
  step-Inv (listener_failed s may l) inv = record { accounts = end_listener s.main s inv.accounts }
  step-Inv (joined s m l) inv = record {
    accounts = (ap (λ xs. xs ++ cfg.cleanups) (at_main m inv).0, l);
  }
  step-Inv (cleaned s c cs m) inv = record {
    accounts = (append_next s.done c cs ∙ (at_main m inv).0, (at_main m inv).1);
  }
  step-Inv (finished s m) inv = record {
    accounts = (sym (append_nothing s.done) ∙ (at_main m inv).0, (at_main m inv).1);
  }

  reach-Inv : {s : State} → Reach cfg started s → Inv cfg s
  reach-Inv here = record { accounts = refl }
  reach-Inv (then r st) = step-Inv st (reach-Inv r)

  -- In every order of the steps: when `Start` has returned without an error, the listener has ended
  -- and every cleanup has run once, in the order in which they were registered; when it has returned
  -- with the error of the shutdown, none has run.
  pub start_runs_cleanups :
      (s : State)
      → Reach cfg started s
      → (s.main ≡ returned false → (s.done ≡ cfg.cleanups) × (s.listener ≡ ended))
        × (s.main ≡ returned true → s.done ≡ [])
  start_runs_cleanups s r = ((λ m. at_main m (reach-Inv r)), (λ m. at_main m (reach-Inv r)))

  -- `Shutdown` of echo never closes the server that is not its own.
  step_own_server :
      {s t : State}
      → Step cfg s t
      → is_among own_server s.closed ≡ false
      → is_among own_server t.closed ≡ false
  step_own_server (cancelled s m) o = o
  step_own_server (shut_down s m) o = o
  step_own_server (shutdown_failed s m) o = o
  step_own_server (server_closed s down l) o = o
  step_own_server (listener_failed s may l) o = o
  step_own_server (joined s m l) o = o
  step_own_server (cleaned s c cs m) o = o
  step_own_server (finished s m) o = o

  reach_own_server : {s : State} → Reach cfg started s → is_among own_server s.closed ≡ false
  reach_own_server here = refl
  reach_own_server (then r st) = step_own_server st (reach_own_server r)

  -- So with TLS the goroutine goes on while its listener does not fail.
  step_listening :
      cfg.tls ≡ true
      → cfg.may_fail ≡ false
      → {s t : State} → Step cfg s t
      → is_among own_server s.closed ≡ false
      → s.listener ≡ listening
      → t.listener ≡ listening
  step_listening tls sound (cancelled s m) o l = l
  step_listening tls sound (shut_down s m) o l = l
  step_listening tls sound (shutdown_failed s m) o l = l
  step_listening tls sound (server_closed s down _) o l = ground arith
  step_listening tls sound (listener_failed s may _) o l = cc
  step_listening tls sound (joined s m _) o l = l
  step_listening tls sound (cleaned s c cs m) o l = l
  step_listening tls sound (finished s m) o l = l

  reach_listening :
      cfg.tls ≡ true
      → cfg.may_fail ≡ false
      → {s : State} → Reach cfg started s
      → s.listener ≡ listening
  reach_listening tls sound here = refl
  reach_listening tls sound (then r st) =
      step_listening tls sound st (reach_own_server r) (reach_listening tls sound r)

  -- With TLS nothing is left to happen where `Start` waits for the goroutine.
  stuck :
      cfg.tls ≡ true
      → cfg.may_fail ≡ false
      → {s t : State} → Step cfg s t
      → is_among own_server s.closed ≡ false
      → s.listener ≡ listening
      → s.main ≢ joining
  stuck tls sound (cancelled s m) o l j = cc
  stuck tls sound (shut_down s m) o l j = cc
  stuck tls sound (shutdown_failed s m) o l j = cc
  stuck tls sound (server_closed s down _) o l j = ground arith
  stuck tls sound (listener_failed s may _) o l j = cc
  stuck tls sound (joined s m e) o l j = cc
  stuck tls sound (cleaned s c cs m) o l j = cc
  stuck tls sound (finished s m) o l j = cc

  -- No cleanup has run where the listener goes on.
  nothing_done : (m : Main) (s : State) → Accounts cfg m s → s.listener ≡ listening → s.done ≡ []
  nothing_done waiting s a l = a
  nothing_done shutting_down s a l = a
  nothing_done joining s a l = a.0
  nothing_done (cleaning cs) s a l = let ended' = a.1 in cc
  nothing_done (returned true) s a l = a
  nothing_done (returned false) s a l = let ended' = a.1 in cc

  -- With TLS, and a listener that does not fail by itself, in every order of the steps: the listener
  -- goes on, no cleanup is ever run, `Start` does not return without an error, and once it waits for
  -- the goroutine, no step at all is left.
  pub start_hangs_with_tls :
      (s : State)
      → cfg.tls ≡ true
      → cfg.may_fail ≡ false
      → Reach cfg started s
      → (s.listener ≡ listening)
        × (s.done ≡ [])
        × (s.main ≢ returned false)
        × (s.main ≡ joining → (t : State) → ¬ Step cfg s t)
  start_hangs_with_tls s tls sound r =
      let l = reach_listening tls sound r in
      (
        l,
        nothing_done s.main s (reach-Inv r).accounts l,
        (λ m. let ended' = (at_main m (reach-Inv r)).1 in cc),
        λ j t st. stuck tls sound st (reach_own_server r) l j,
      )

  follow : {s t u : State} → Reach cfg s t → Reach cfg t u → Reach cfg s u
  follow r here = r
  follow r (then q st) = then (follow r q) st

  -- A run that goes on to a return without an error.
  record Returning (s : State) : Type 0 where
    final : State
    run : Reach cfg s final
    back : final.main ≡ returned false

  first : {s t : State} → Step cfg s t → Returning t → Returning s
  first st q = record { final = q.final; run = follow (then here st) q.run; back = q.back }

  from_cleaning : (cs : List Cleanup) (s : State) → s.main ≡ cleaning cs → Returning s
  from_cleaning [] s m = first (finished s m) (record { final = _; run = here; back = refl })
  from_cleaning (c ∷ cs) s m = first (cleaned s c cs m) (from_cleaning cs _ refl)

  from_ended : (s : State) → s.main ≡ joining → s.listener ≡ ended → Returning s
  from_ended s m l = first (joined s m l) (from_cleaning cfg.cleanups _ refl)

  from_joining :
      cfg.tls ≡ false
      → (l : Listener) (s : State) → s.listener ≡ l
      → s.main ≡ joining
      → is_among echo_server s.closed ≡ true
      → Returning s
  from_joining plain ended s l m down = from_ended s m l
  from_joining plain listening s l m down =
      first (server_closed s (ground arith) l) (from_ended _ m refl)

  from_shutting : cfg.tls ≡ false → (s : State) → s.main ≡ shutting_down → Returning s
  from_shutting plain s m = first (shut_down s m) (from_joining plain s.listener _ refl refl refl)

  from_main :
      cfg.tls ≡ false
      → (m : Main) (s : State) → s.main ≡ m
      → Accounts cfg m s
      → m ≢ returned true
      → Returning s
  from_main plain waiting s m a fine = first (cancelled s m) (from_shutting plain _ refl)
  from_main plain shutting_down s m a fine = from_shutting plain s m
  from_main plain joining s m a fine = from_joining plain s.listener s refl m a.1
  from_main plain (cleaning cs) s m a fine = from_cleaning cs s m
  from_main plain (returned true) s m a fine = absurd (fine refl)
  from_main plain (returned false) s m a fine = record { final = s; run = here; back = m }

  -- Without TLS, wherever a run has got to short of an error of the shutdown, and whether the listener
  -- may fail or not, it can go on so that `Start` returns without an error, and then every cleanup has
  -- run once, in order.
  pub start_returns :
      (s : State)
      → cfg.tls ≡ false
      → Reach cfg started s
      → s.main ≢ returned true
      → (t : State) × Reach cfg s t × (t.main ≡ returned false) × (t.done ≡ cfg.cleanups)
  start_returns s plain r fine =
      let q = from_main plain s.main s refl (reach-Inv r).accounts fine in
      (q.final, q.run, q.back, (at_main q.back (reach-Inv (follow r q.run))).0)
