-- ===== src/Http/Handlers/Serve.antt =====
-- The whole of a request's way through the server: the session middleware of
-- pkg/middleware/session.go, the router of
-- pkg/apis/v1alpha1/generated/oas_router_gen.go, and the handler that it calls.
use admin_api.Base.{ℕ, String, List, [], ◌∷◌, Option, Result, ok, err}
use admin_api.Session.{Session}
use admin_api.Session.Store.{Store}
use admin_api.Admindb.World.{World}
use admin_api.Service.Monad.{Pgtype}
use admin_api.Service.Types.{Project, Role, User, UserGroup}
use admin_api.Service.Auth.{AuthReply}
use admin_api.Middleware.{Verdict, next, http_error, session_middleware}
use admin_api.Middleware
use admin_api.Router.{
  Endpoint, handle_oauth_callback, initiate_login, logout, get_current_user, refresh_token,
  get_liveness_check, get_readiness_check, list_projects, create_project, list_users, create_user,
  get_project, update_project, list_roles, create_role, list_user_groups, create_user_group,
  get_role, update_role, get_user_group, update_user_group, Routed, dispatch, not_allowed,
  not_found, serve_http,
}
use admin_api.Http.{HttpRequest, Ogen, HttpError, Stage}
use admin_api.Http.Handlers

-- What the server keeps: the database, and the store of the sessions.
pub record Backend (S : Type 0) : Type 0 where
  pub world : World
  pub sessions : S

-- `found` is the 302 without a location of the two stubs for the OAuth endpoints.
pub data Response : Type 0 where
  project : Project → Response
  projects : List Project → Response
  role : Role → Response
  roles : List Role → Response
  user : User → Response
  users : List User → Response
  user_group : UserGroup → Response
  user_groups : List UserGroup → Response
  health : String → Response
  auth : AuthReply → Response
  found : Response

pub data Answer : Type 0 where
  replied : Response → Answer
  failed : HttpError → Answer
  refused : ℕ → String → Answer
  no_method : String → Answer
  no_route : Answer

abbrev pub answer : {A : Type 0} → (A → Response) → Result HttpError A → Answer
answer wrap_reply (ok a) = replied (wrap_reply a)
answer wrap_reply (err e) = failed e

abbrev pub on_world :
    {S A : Type 0} → (A → Response) → Stage World A → Backend S → Backend S × Answer
on_world wrap_reply m b = (record b { world = (m b.world).0 }, answer wrap_reply (m b.world).1)

abbrev pub on_sessions :
    {S A : Type 0} → (A → Response) → Stage S A → Backend S → Backend S × Answer
on_sessions wrap_reply m b =
    (record b { sessions = (m b.sessions).0 }, answer wrap_reply (m b.sessions).1)

-- `Header.Get`
abbrev pub first_header : List String → String
first_header [] = ""
first_header (v ∷ vs) = v

-- What the middleware reads of the same request: the first `Authorization` header.
abbrev pub as_checked : String → HttpRequest → Middleware.Request
as_checked path req = record {
  path = path;
  authorization = first_header req.authorization;
  cookie = req.cookie;
}

module _ {S : Type 0} (store : Store S) (parse : String → Option String) (session_ttl : ℕ)
    (o : Ogen) (u : Pgtype) where
  unfoldable pub run_endpoint :
      ℕ → Option Session → HttpRequest → Endpoint → Backend S → Backend S × Answer
  run_endpoint now sess req handle_oauth_callback b = (b, replied found)
  run_endpoint now sess req initiate_login b = (b, replied found)
  run_endpoint now sess req logout b =
      on_sessions auth (Handlers.handle_logout store parse session_ttl now sess req) b
  run_endpoint now sess req get_current_user b =
      on_sessions auth (Handlers.handle_get_current_user store parse session_ttl now sess req) b
  run_endpoint now sess req refresh_token b =
      on_sessions auth (Handlers.handle_refresh_token store parse session_ttl now sess req) b
  run_endpoint now sess req get_liveness_check b =
      on_world health Handlers.handle_get_liveness_check b
  run_endpoint now sess req get_readiness_check b =
      on_world health Handlers.handle_get_readiness_check b
  run_endpoint now sess req list_projects b =
      on_world projects (Handlers.handle_list_projects o u sess req) b
  run_endpoint now sess req create_project b =
      on_world project (Handlers.handle_create_project o u sess req) b
  run_endpoint now sess req list_users b =
      on_world users (Handlers.handle_list_users o u sess req) b
  run_endpoint now sess req create_user b =
      on_world user (Handlers.handle_create_user o u sess req) b
  run_endpoint now sess req (get_project a) b =
      on_world project (Handlers.handle_get_project o u sess req a) b
  run_endpoint now sess req (update_project a) b =
      on_world project (Handlers.handle_update_project o u sess req a) b
  run_endpoint now sess req (list_roles a) b =
      on_world roles (Handlers.handle_list_roles o u sess req a) b
  run_endpoint now sess req (create_role a) b =
      on_world role (Handlers.handle_create_role o u sess req a) b
  run_endpoint now sess req (list_user_groups a) b =
      on_world user_groups (Handlers.handle_list_user_groups o u sess req a) b
  run_endpoint now sess req (create_user_group a) b =
      on_world user_group (Handlers.handle_create_user_group o u sess req a) b
  run_endpoint now sess req (get_role a c) b =
      on_world role (Handlers.handle_get_role o u sess req a c) b
  run_endpoint now sess req (update_role a c) b =
      on_world role (Handlers.handle_update_role o u sess req a c) b
  run_endpoint now sess req (get_user_group a c) b =
      on_world user_group (Handlers.handle_get_user_group o u sess req a c) b
  run_endpoint now sess req (update_user_group a c) b =
      on_world user_group (Handlers.handle_update_user_group o u sess req a c) b

  unfoldable pub run_routed :
      ℕ → Option Session → HttpRequest → Routed → Backend S → Backend S × Answer
  unfolding run_endpoint
  run_routed now sess req (dispatch e) b = run_endpoint now sess req e b
  run_routed now sess req (not_allowed allow) b = (b, no_method allow)
  run_routed now sess req not_found b = (b, no_route)

  unfoldable pub after_middleware :
      ℕ → String → String → HttpRequest → Verdict → Backend S → Backend S × Answer
  after_middleware now method path req (next sess) b =
      run_routed now sess req (serve_http method path) b
  after_middleware now method path req (http_error status message) b = (b, refused status message)

  -- The OAuth endpoints that echo serves itself are not under this function.
  unfoldable pub serve : ℕ → String → String → HttpRequest → Backend S → Backend S × Answer
  unfolding after_middleware run_routed
  serve now method path req b =
      after_middleware now method path req
        (session_middleware store now (as_checked path req) b.sessions) b
