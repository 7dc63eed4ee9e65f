-- ===== src/Startup/Run.antt =====
-- pkg/server/server.go: `Start` and the goroutine `startAPIServer`, as steps of the two in any order.
pub mod Ends
use admin_api.Base.{List, [], ◌∷◌, ◌++◌, Option, some, none, Bool, true, false, ◌≡◌, if◌then◌else◌}
use admin_api.Startup.{Cleanup}

-- Where `Start` is: at `<-ctx.Done()`, before `Shutdown`, at `wg.Wait()`, in the loop over the cleanups
-- that are left, or back, with `true` for an error.
pub data Main : Type 0 where
  waiting shutting_down joining : Main
  cleaning : List Cleanup → Main
  returned : Bool → Main

-- `ended` after `wg.Done()`.
pub data Listener : Type 0 where
  listening ended : Listener

-- The servers of the process: echo's own, which `e.Start` runs, and the `http.Server` that
-- `startAPIServer` makes for TLS.
pub data HttpServer : Type 0 where
  echo_server own_server : HttpServer

abbrev pub is_among : HttpServer → List HttpServer → Bool
is_among s [] = false
is_among echo_server (echo_server ∷ ss) = true
is_among own_server (own_server ∷ ss) = true
is_among echo_server (own_server ∷ ss) = is_among echo_server ss
is_among own_server (echo_server ∷ ss) = is_among own_server ss

-- What `s.e.Shutdown` closes.
abbrev pub shutdown : List HttpServer → List HttpServer
shutdown closed = echo_server ∷ closed

-- `closed` are the servers that have been shut down.
pub record State : Type 0 where
  pub main : Main
  pub listener : Listener
  pub closed : List HttpServer
  pub done : List Cleanup

-- What stays. `may_fail` says whether a listener may end by an error of its own.
pub record Setting : Type 0 where
  pub tls : Bool
  pub may_fail : Bool
  pub cleanups : List Cleanup

-- The server that the goroutine runs.
abbrev pub served_by : Setting → HttpServer
served_by cfg = if cfg.tls then own_server else echo_server

abbrev pub started : State
started = record { main = waiting; listener = listening; closed = []; done = [] }

pub data Step (cfg : Setting) : State → State → Type 0 where
  cancelled : (s : State) → s.main ≡ waiting → Step cfg s (record s { main = shutting_down })
  shut_down :
      (s : State)
      → s.main ≡ shutting_down
      → Step cfg s (record s { main = joining; closed = shutdown s.closed })
  shutdown_failed :
      (s : State)
      → s.main ≡ shutting_down
      → Step cfg s (record s { main = returned true; closed = shutdown s.closed })
  server_closed :
      (s : State)
      → is_among (served_by cfg) s.closed ≡ true
      → s.listener ≡ listening
      → Step cfg s (record s { listener = ended })
  listener_failed :
      (s : State)
      → cfg.may_fail ≡ true
      → s.listener ≡ listening
      → Step cfg s (record s { listener = ended })
  joined :
      (s : State)
      → s.main ≡ joining
      → s.listener ≡ ended
      → Step cfg s (record s { main = cleaning cfg.cleanups })
  cleaned :
      (s : State) (c : Cleanup) (cs : List Cleanup)
      → s.main ≡ cleaning (c ∷ cs)
      → Step cfg s (record s { main = cleaning cs; done = s.done ++ c ∷ [] })
  finished : (s : State) → s.main ≡ cleaning [] → Step cfg s (record s { main = returned false })

pub data Reach (cfg : Setting) (s : State) : State → Type 0 where
  here : Reach cfg s s
  then : {t u : State} → Reach cfg s t → Step cfg t u → Reach cfg s u
