-- ===== src/Http/Handlers/Asked.antt =====
-- The call of the service that a request asks for, and that the generated server makes it.
use admin_api.Base.{
  ℕ, String, Option, none, some, Bool, true, false, ◌||◌, if◌then◌else◌, ◌≡◌, ◌≢◌, refl, ◌∙◌, arith,
  Result, ok, err, Bool-cases, inl, inr,
}
use admin_api.Session.{Session}
use admin_api.Session.Store.{Store}
use admin_api.Admindb.World.{World}
use admin_api.Service.Monad.{Pgtype}
use admin_api.Service.Calls.{Call, after}
use admin_api.Service.Calls
use admin_api.Service.Projects
use admin_api.Middleware.{Verdict, next, http_error, session_middleware}
use admin_api.Router.{
  Endpoint, handle_oauth_callback, initiate_login, logout, get_current_user, refresh_token,
  get_liveness_check, get_readiness_check, list_projects, create_project, list_users, create_user,
  get_project, update_project, list_roles, create_role, list_user_groups, create_user_group,
  get_role, update_role, get_user_group, update_user_group, Routed, dispatch, not_allowed,
  not_found, serve_http,
}
use admin_api.Http.{HttpRequest, HttpError, Ogen, Stage, checked, then_run, call}
use admin_api.Http.Stages.{checked_cases}
use admin_api.Http.Security.{find_authorization, secure, security_bearer_auth, security_cookie_auth}
use admin_api.Http.Params.{
  magnitude, decode_create_role_params, decode_create_user_group_params, decode_get_project_params,
  decode_get_role_params, decode_get_user_group_params, decode_list_projects_params,
  decode_list_roles_params, decode_list_user_groups_params, decode_list_users_params,
  decode_update_project_params, decode_update_role_params, decode_update_user_group_params,
}
use admin_api.Http.Body.{
  decode_create_project_request, decode_create_role_request, decode_create_user_group_request,
  decode_create_user_request, decode_update_project_request, decode_update_role_request,
  decode_update_user_group_request,
}
use admin_api.Http.Handlers.Serve.{
  Backend, as_checked, run_endpoint, run_routed, after_middleware, serve,
}
use admin_api.Http.Handlers

abbrev is_some : {A : Type 0} → Option A → Bool
is_some (some a) = true
is_some none = false

-- A bearer token in one of the headers, or the session cookie.
abbrev pub has_credential : HttpRequest → Bool
has_credential req = is_some (find_authorization req.authorization "Bearer") || is_some req.cookie

abbrev pub when_signed_in : Option Session → HttpRequest → Option Call → Option Call
when_signed_in none req c = none
when_signed_in (some sess) req c = if has_credential req then c else none

abbrev pub decoded : {A : Type 0} → Result HttpError A → (A → Option Call) → Option Call
decoded (ok a) call_of = call_of a
decoded (err e) call_of = none

-- What the API says of each operation: the call that it is, with the parameters and the body of the
-- request; the operations on projects and users are for callers who are signed in.
module _ (o : Ogen) (found : Option Session) (req : HttpRequest) where
  unfoldable pub asked : Endpoint → Option Call
  asked list_projects = when_signed_in found req (
      decoded (decode_list_projects_params o req)
        (λ page. some (Calls.list_projects (magnitude page.limit) (magnitude page.offset))))
  asked create_project =
      when_signed_in found req (
        decoded (decode_create_project_request req)
          (λ request. some (Calls.create_project request)))
  asked list_users = when_signed_in found req (
      decoded (decode_list_users_params o req)
        (λ page. some (Calls.list_users (magnitude page.limit) (magnitude page.offset))))
  asked create_user =
      when_signed_in found req
        (decoded (decode_create_user_request o req) (λ email. some (Calls.create_user email)))
  asked (get_project p) = when_signed_in found req (
      decoded (decode_get_project_params o p req)
        (λ project_id. some (Calls.get_project project_id)))
  asked (update_project p) = when_signed_in found req (
      decoded (decode_update_project_params o p req) (λ project_id.
        decoded (decode_update_project_request req)
          (λ request. some (Calls.update_project request project_id))))
  asked (list_roles p) = decoded (decode_list_roles_params o p req) (λ (project_id, page).
      some (Calls.list_roles project_id (magnitude page.limit) (magnitude page.offset)))
  asked (create_role p) = decoded (decode_create_role_params o p req) (λ project_id.
      decoded (decode_create_role_request req)
        (λ request. some (Calls.create_role request project_id)))
  asked (list_user_groups p) =
      decoded (decode_list_user_groups_params o p req) (λ (project_id, page).
        some (Calls.list_user_groups project_id (magnitude page.limit) (magnitude page.offset)))
  asked (create_user_group p) = decoded (decode_create_user_group_params o p req) (λ project_id.
      decoded (decode_create_user_group_request req)
        (λ request. some (Calls.create_user_group request project_id)))
  asked (get_role p r) =
      decoded (decode_get_role_params o p r req)
        (λ (project_id, role_id). some (Calls.get_role project_id role_id))
  asked (update_role p r) = decoded (decode_update_role_params o p r req) (λ (project_id, role_id).
      decoded (decode_update_role_request req)
        (λ request. some (Calls.update_role request project_id role_id)))
  asked (get_user_group p g) =
      decoded (decode_get_user_group_params o p g req)
        (λ (project_id, group_id). some (Calls.get_user_group project_id group_id))
  asked (update_user_group p g) =
      decoded (decode_update_user_group_params o p g req) (λ (project_id, group_id).
        decoded (decode_update_user_group_request req)
          (λ request. some (Calls.update_user_group request project_id group_id)))
  asked get_readiness_check = some Calls.get_readiness_check
  asked _ = none

-- A request that the middleware stops, or that no operation has, asks for nothing.
abbrev pub requested : Ogen → HttpRequest → Verdict → Routed → Option Call
requested o req (http_error status message) r = none
requested o req (next found) (dispatch e) = asked o found req e
requested o req (next found) (not_allowed allow) = none
requested o req (next found) not_found = none

abbrev pub perform : Pgtype → Option Call → World → World
perform u none w = w
perform u (some c) w = after u c w

refused_none : (req : HttpRequest) (sess : Option Session) → secure none req ≢ ok sess
unfolding secure security_bearer_auth security_cookie_auth
refused_none req sess h = ground arith

admitted :
    (s : Session) (req : HttpRequest) (e : HttpError)
    → has_credential req ≡ true
    → secure (some s) req ≢ err e
unfolding secure security_bearer_auth security_cookie_auth
admitted s req e given h = ground arith

refused :
    (s : Session) (req : HttpRequest) (sess : Option Session)
    → has_credential req ≡ false
    → secure (some s) req ≢ ok sess
unfolding secure security_bearer_auth security_cookie_auth
refused s req sess missing h = ground arith

module _ (o : Ogen) (u : Pgtype) where
  secured_performs :
      {A : Type 0} (found : Option Session) (req : HttpRequest) (k : Option Session → Stage World A)
      (c : Option Call) (w : World)
      → ((sess : Option Session) → (k sess w).0 ≡ perform u c w)
      → (checked (secure found req) k w).0 ≡ perform u (when_signed_in found req c) w
  secured_performs none req k c w goes =
      checked_cases (λ p. p.0 ≡ w) (secure none req) k w (λ e _. refl)
        λ sess h. absurd (refused_none req sess h)
  secured_performs (some s) req k c w goes = elim (Bool-cases (has_credential req)) [
    | inl given ↦
        checked_cases (λ p. p.0 ≡ perform u (when_signed_in (some s) req c) w) (secure (some s) req)
          k w (λ e h. absurd (admitted s req e given h)) λ sess h. goes sess ∙ rw given refl
    | inr missing ↦
        checked_cases (λ p. p.0 ≡ perform u (when_signed_in (some s) req c) w) (secure (some s) req)
          k w (λ e h. rw missing refl) λ sess h. absurd (refused s req sess missing h)
  ]

  decoded_performs :
      {A B : Type 0} (r : Result HttpError A) (k : A → Stage World B) (f : A → Option Call)
      (w : World)
      → ((a : A) → (k a w).0 ≡ perform u (f a) w)
      → (checked r k w).0 ≡ perform u (decoded r f) w
  unfolding checked then_run
  decoded_performs (ok a) k f w goes = goes a
  decoded_performs (err e) k f w goes = refl

  module _ {S : Type 0} (store : Store S) (parse : String → Option String) (session_ttl : ℕ) where
    endpoint_performs :
        (now : ℕ) (found : Option Session) (req : HttpRequest) (e : Endpoint) (b : Backend S)
        → (run_endpoint store parse session_ttl o u now found req e b).0.world
          ≡ perform u (asked o found req e) b.world
    unfolding run_endpoint asked call Handlers.handle_get_liveness_check
        Handlers.handle_get_readiness_check Projects.get_liveness_check
        Handlers.handle_list_projects Handlers.handle_create_project Handlers.handle_list_users
        Handlers.handle_create_user Handlers.handle_get_project Handlers.handle_update_project
        Handlers.handle_list_roles Handlers.handle_create_role Handlers.handle_list_user_groups
        Handlers.handle_create_user_group Handlers.handle_get_role Handlers.handle_update_role
        Handlers.handle_get_user_group Handlers.handle_update_user_group
    endpoint_performs now found req handle_oauth_callback b = refl
    endpoint_performs now found req initiate_login b = refl
    endpoint_performs now found req logout b = refl
    endpoint_performs now found req get_current_user b = refl
    endpoint_performs now found req refresh_token b = refl
    endpoint_performs now found req get_liveness_check b = refl
    endpoint_performs now found req get_readiness_check b = refl
    endpoint_performs now found req list_projects b =
        let w = b.world in
        secured_performs found req _ _ w
          λ _. decoded_performs (decode_list_projects_params o req) _ _ w λ _. refl
    endpoint_performs now found req create_project b =
        let w = b.world in
        secured_performs found req _ _ w
          λ _. decoded_performs (decode_create_project_request req) _ _ w λ _. refl
    endpoint_performs now found req list_users b =
        let w = b.world in
        secured_performs found req _ _ w
          λ _. decoded_performs (decode_list_users_params o req) _ _ w λ _. refl
    endpoint_performs now found req create_user b =
        let w = b.world in
        secured_performs found req _ _ w
          λ _. decoded_performs (decode_create_user_request o req) _ _ w λ _. refl
    endpoint_performs now found req (get_project p) b =
        let w = b.world in
        secured_performs found req _ _ w
          λ _. decoded_performs (decode_get_project_params o p req) _ _ w λ _. refl
    endpoint_performs now found req (update_project p) b =
        let w = b.world in
        secured_performs found req _ _ w λ _.
          decoded_performs (decode_update_project_params o p req) _ _ w
            λ _. decoded_performs (decode_update_project_request req) _ _ w λ _. refl
    endpoint_performs now found req (list_roles p) b =
        let w = b.world in decoded_performs (decode_list_roles_params o p req) _ _ w λ _. refl
    endpoint_performs now found req (create_role p) b =
        let w = b.world in
        decoded_performs (decode_create_role_params o p req) _ _ w
          λ _. decoded_performs (decode_create_role_request req) _ _ w λ _. refl
    endpoint_performs now found req (list_user_groups p) b =
        let w = b.world in decoded_performs (decode_list_user_groups_params o p req) _ _ w λ _. refl
    endpoint_performs now found req (create_user_group p) b =
        let w = b.world in
        decoded_performs (decode_create_user_group_params o p req) _ _ w
          λ _. decoded_performs (decode_create_user_group_request req) _ _ w λ _. refl
    endpoint_performs now found req (get_role p r) b =
        let w = b.world in decoded_performs (decode_get_role_params o p r req) _ _ w λ _. refl
    endpoint_performs now found req (update_role p r) b =
        let w = b.world in
        decoded_performs (decode_update_role_params o p r req) _ _ w
          λ _. decoded_performs (decode_update_role_request req) _ _ w λ _. refl
    endpoint_performs now found req (get_user_group p g) b =
        let w = b.world in decoded_performs (decode_get_user_group_params o p g req) _ _ w λ _. refl
    endpoint_performs now found req (update_user_group p g) b =
        let w = b.world in
        decoded_performs (decode_update_user_group_params o p g req) _ _ w
          λ _. decoded_performs (decode_update_user_group_request req) _ _ w λ _. refl

    routed_performs :
        (now : ℕ) (found : Option Session) (req : HttpRequest) (r : Routed) (b : Backend S)
        → (run_routed store parse session_ttl o u now found req r b).0.world
          ≡ perform u (requested o req (next found) r) b.world
    unfolding run_routed
    routed_performs now found req (dispatch e) b = endpoint_performs now found req e b
    routed_performs now found req (not_allowed allow) b = refl
    routed_performs now found req not_found b = refl

    verdict_performs :
        (now : ℕ) (method path : String) (req : HttpRequest) (v : Verdict) (b : Backend S)
        → (after_middleware store parse session_ttl o u now method path req v b).0.world
          ≡ perform u (requested o req v (serve_http method path)) b.world
    unfolding after_middleware
    verdict_performs now method path req (next found) b =
        routed_performs now found req (serve_http method path) b
    verdict_performs now method path req (http_error status message) b = refl

    -- Whatever is asked of the server, in any state and whatever the database does: the request does
    -- to the database exactly what the one call of the service does that it asks for, with the
    -- parameters and the body that it is decoded to; nothing at all if the middleware stops it, if no
    -- operation has its method and path, if a parameter or the body is refused, or if the operation
    -- asks for a caller who is signed in and there is no session or no credential.
    pub world-serve :
        (now : ℕ) (method path : String) (req : HttpRequest) (b : Backend S)
        → (serve store parse session_ttl o u now method path req b).0.world
          ≡ perform u
              (requested o req
                (session_middleware store now (as_checked path req) b.sessions)
                (serve_http method path))
              b.world
    unfolding serve
    world-serve now method path req b = verdict_performs now method path req _ b
