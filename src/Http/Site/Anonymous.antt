-- ===== src/Http/Site/Anonymous.antt =====
-- What somebody without a session can do to the server: nothing.
use admin_api.Base.{ℕ, String, Option, none, true, ◌≡◌, refl, Bool-cases, false, if_cases, inl, inr}
use admin_api.Session.{Session}
use admin_api.Session.Store.{Store}
use admin_api.Session.Store.Laws.{IsSessionStore}
use admin_api.Admindb.Queries
use admin_api.Admindb.World.{World}
use admin_api.Service.Monad.{Pgtype}
use admin_api.Service.Monad.Keeps.{seq-Keeps, query-Keeps, pure-Keeps}
use admin_api.Service.Projects.{get_readiness_check, get_liveness_check}
use admin_api.Middleware.{Verdict, next, http_error, extract_session_id, session_middleware}
use admin_api.Router.{
  Endpoint, handle_oauth_callback, initiate_login, get_liveness_check as liveness,
  get_readiness_check as readiness, Routed, dispatch, not_allowed, not_found, serve_http,
}
use admin_api.Router.Gate.{is_open, endpoint_has_session}
use admin_api.Http.{HttpRequest, Ogen, call}
use admin_api.Http.Handlers.Serve.{
  Backend, as_checked, run_endpoint, run_routed, after_middleware, serve,
}
use admin_api.Http.Handlers
use admin_api.Http.Site.{Visit, Reply, visit, is_login, is_callback}
use admin_api.Oauth.{GithubClient}

-- The tables and the sessions are as they were; a moment of the database may have gone by.
pub record IsUntouched {S : Type 0} (b b' : Backend S) : Type 0 where
  pub tables : b'.world.db ≡ b.world.db
  pub sessions : b'.sessions ≡ b.sessions

untouched : {S : Type 0} (b : Backend S) → IsUntouched b b
untouched b = record { tables = refl; sessions = refl }

readiness_reads : (w : World) → (Handlers.handle_get_readiness_check w).0.db ≡ w.db
unfolding Handlers.handle_get_readiness_check call get_readiness_check
readiness_reads w =
    (seq-Keeps (λ db. db ≡ w.db)
        (query-Keeps _ "failed to check DB connection" Queries.check_db_connection)
        (pure-Keeps (λ db. db ≡ w.db))).tables
      w refl

module _ {S : Type 0} (store : Store S) (parse : String → Option String) (session_ttl : ℕ)
    (o : Ogen) (u : Pgtype) where
  open_endpoint-IsUntouched :
      (now : ℕ) (sess : Option Session) (req : HttpRequest) (e : Endpoint) (b : Backend S)
      → is_open e ≡ true
      → IsUntouched b (run_endpoint store parse session_ttl o u now sess req e b).0
  unfolding run_endpoint Handlers.handle_get_liveness_check call get_liveness_check
  open_endpoint-IsUntouched now sess req handle_oauth_callback b h = untouched b
  open_endpoint-IsUntouched now sess req initiate_login b h = untouched b
  open_endpoint-IsUntouched now sess req liveness b h = record { tables = refl; sessions = refl }
  open_endpoint-IsUntouched now sess req readiness b h = record {
    tables = readiness_reads b.world;
    sessions = refl;
  }
  open_endpoint-IsUntouched now sess req _ b h = cc

  module _ (laws : IsSessionStore store) (now : ℕ) (method path : String) (req : HttpRequest)
      (b : Backend S)
      (nothing : laws.held now (extract_session_id (as_checked path req)) b.sessions ≡ none) where
    routed-IsUntouched :
        (sess : Option Session)
        → session_middleware store now (as_checked path req) b.sessions ≡ next sess
        → (r : Routed) → serve_http method path ≡ r
        → IsUntouched b (run_routed store parse session_ttl o u now sess req r b).0
    unfolding run_routed
    routed-IsUntouched sess passed (not_allowed allow) routed = untouched b
    routed-IsUntouched sess passed not_found routed = untouched b
    routed-IsUntouched sess passed (dispatch e) routed = elim (Bool-cases (is_open e)) [
      | inl anybody ↦ open_endpoint-IsUntouched now sess req e b anybody
      | inr closed ↦
          let (_, _, held, _) =
            endpoint_has_session laws now (as_checked path req) b.sessions sess method e closed
              passed routed in
          cc
    ]

    verdict-IsUntouched :
        (v : Verdict)
        → session_middleware store now (as_checked path req) b.sessions ≡ v
        → IsUntouched b (after_middleware store parse session_ttl o u now method path req v b).0
    unfolding after_middleware
    verdict-IsUntouched (next sess) passed = routed-IsUntouched sess passed _ refl
    verdict-IsUntouched (http_error status message) passed = untouched b

    pub serve-IsUntouched :
        IsUntouched b (serve store parse session_ttl o u now method path req b).0
    unfolding serve
    serve-IsUntouched = verdict-IsUntouched _ refl

module _ {S : Type 0} {session_store : Store S} (laws : IsSessionStore session_store)
    (state_store : Store S) (c : GithubClient) (frontend_url : String)
    (parse : String → Option String) (session_ttl : ℕ) (o : Ogen) (u : Pgtype) (v : Visit)
    (b : Backend S) where
  -- The OAuth endpoints work on the sessions alone.
  record Harmless (p : Backend S × Reply) : Type 0 where
    tables : p.0.world.db ≡ b.world.db
    sessions : is_login v ≡ false → is_callback v ≡ false → p.0.sessions ≡ b.sessions

  harmless : {p : Backend S × Reply} → IsUntouched b p.0 → Harmless p
  harmless h = record { tables = h.tables; sessions = λ _ _. h.sessions }

  -- A request to the site that carries no id of a session that the store holds, whatever its method,
  -- path, parameters and body, leaves the tables of the database as they were, and the sessions too
  -- unless it is a GET of the login or of the callback.
  pub visit_anonymous :
      laws.held v.now (extract_session_id (as_checked v.path v.request)) b.sessions ≡ none
      → ((visit session_store state_store c frontend_url parse session_ttl o u v b).0.world.db
          ≡ b.world.db)
        × (is_login v ≡ false
            → is_callback v ≡ false
            → (visit session_store state_store c frontend_url parse session_ttl o u v b).0.sessions
              ≡ b.sessions)
  unfolding visit
  visit_anonymous nothing =
      let h =
        if_cases Harmless (is_login v) (λ e. record { tables = refl; sessions = λ n _. cc })
          λ _.
            if_cases Harmless (is_callback v) (λ e. record { tables = refl; sessions = λ _ n. cc })
              λ _. harmless (
                serve-IsUntouched session_store parse session_ttl o u laws v.now v.method v.path
                  v.request b nothing) in
      (h.tables, h.sessions)
