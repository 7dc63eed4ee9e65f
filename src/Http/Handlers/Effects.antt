-- ===== src/Http/Handlers/Effects.antt =====
-- What a request does to the tables: nothing, or what one call of a handler of the service does.
use admin_api.Base.{
  ℕ, String, Option, none, some, true, arith, Result, ok, err, ◌≡◌, sym, subst, refl, if_cases,
}
use admin_api.Session.{Session}
use admin_api.Session.Store.{Store}
use admin_api.Admindb.World.{World}
use admin_api.Service.Monad.{Pgtype}
use admin_api.Service.Calls.{Call, AdmitsCall, after}
use admin_api.Service.Types.{CreateProjectRequest}
use admin_api.Middleware.{Verdict, next, http_error, session_middleware}
use admin_api.Router.{
  Endpoint, get_readiness_check, list_projects, create_project, list_users, create_user,
  get_project, update_project, list_roles, create_role, list_user_groups, create_user_group,
  get_role, update_role, get_user_group, update_user_group, Routed, dispatch, not_allowed,
  not_found, serve_http,
}
use admin_api.Http.{HttpRequest, HttpError, Ogen}
use admin_api.Http.Params.{
  decode_create_role_params, decode_create_user_group_params, decode_get_project_params,
  decode_get_role_params, decode_get_user_group_params, decode_list_projects_params,
  decode_list_roles_params, decode_list_user_groups_params, decode_list_users_params,
  decode_update_project_params, decode_update_role_params, decode_update_user_group_params,
}
use admin_api.Http.Body.{
  decode_request, decode_json, validate_kind, decode_create_project_request,
  decode_create_role_request, decode_create_user_group_request, decode_create_user_request,
  decode_update_project_request, decode_update_role_request, decode_update_user_group_request,
}
use admin_api.Http.Handlers.Serve.{Backend, as_checked, serve}
use admin_api.Http.Handlers.Asked.{
  has_credential, when_signed_in, decoded, asked, requested, perform, world-serve,
}

-- A kind that the schema admits.
abbrev pub IsKind : String → Type 0
IsKind kind = validate_kind kind ≡ true

-- The step from one world to another that a request may be.
pub data Effect (u : Pgtype) (w : World) : World → Type 0 where
  untouched : Effect u w w
  called : (c : Call) → AdmitsCall IsKind c → Effect u w (after u c w)

-- A request that `decodeCreateProjectRequest` lets through has such a kind.
decode_create_project_request-IsKind :
    (req : HttpRequest) (request : CreateProjectRequest)
    → decode_create_project_request req ≡ ok request
    → IsKind request.kind
unfolding decode_create_project_request decode_request decode_json
decode_create_project_request-IsKind req request h = ground arith

-- A project that is asked for has such a kind.
abbrev IsAdmitted : Option Call → Type 0
IsAdmitted none = Unit
IsAdmitted (some c) = AdmitsCall IsKind c

decoded-IsAdmitted :
    {A : Type 0} (r : Result HttpError A) (f : A → Option Call)
    → ((a : A) → r ≡ ok a → IsAdmitted (f a))
    → IsAdmitted (decoded r f)
decoded-IsAdmitted (ok a) f goes = goes a refl
decoded-IsAdmitted (err e) f goes = tt

signed_in-IsAdmitted :
    (found : Option Session) (req : HttpRequest) (c : Option Call)
    → IsAdmitted c
    → IsAdmitted (when_signed_in found req c)
signed_in-IsAdmitted none req c a = tt
signed_in-IsAdmitted (some s) req c a = if_cases IsAdmitted (has_credential req) (λ _. a) λ _. tt

module _ (o : Ogen) (found : Option Session) (req : HttpRequest) where
  asked-IsAdmitted : (e : Endpoint) → IsAdmitted (asked o found req e)
  unfolding asked
  asked-IsAdmitted list_projects =
      signed_in-IsAdmitted found req _
        (decoded-IsAdmitted (decode_list_projects_params o req) _ λ request h. tt)
  asked-IsAdmitted create_project = signed_in-IsAdmitted found req _ (
      decoded-IsAdmitted (decode_create_project_request req) _
        λ request h. decode_create_project_request-IsKind req request h)
  asked-IsAdmitted list_users =
      signed_in-IsAdmitted found req _
        (decoded-IsAdmitted (decode_list_users_params o req) _ λ request h. tt)
  asked-IsAdmitted create_user =
      signed_in-IsAdmitted found req _
        (decoded-IsAdmitted (decode_create_user_request o req) _ λ request h. tt)
  asked-IsAdmitted (get_project p) =
      signed_in-IsAdmitted found req _
        (decoded-IsAdmitted (decode_get_project_params o p req) _ λ request h. tt)
  asked-IsAdmitted (update_project p) = signed_in-IsAdmitted found req _ (
      decoded-IsAdmitted (decode_update_project_params o p req) _
        λ request h. decoded-IsAdmitted (decode_update_project_request req) _ λ request h. tt)
  asked-IsAdmitted (list_roles p) =
      decoded-IsAdmitted (decode_list_roles_params o p req) _ λ request h. tt
  asked-IsAdmitted (create_role p) =
      decoded-IsAdmitted (decode_create_role_params o p req) _
        λ request h. decoded-IsAdmitted (decode_create_role_request req) _ λ request h. tt
  asked-IsAdmitted (list_user_groups p) =
      decoded-IsAdmitted (decode_list_user_groups_params o p req) _ λ request h. tt
  asked-IsAdmitted (create_user_group p) =
      decoded-IsAdmitted (decode_create_user_group_params o p req) _
        λ request h. decoded-IsAdmitted (decode_create_user_group_request req) _ λ request h. tt
  asked-IsAdmitted (get_role p r) =
      decoded-IsAdmitted (decode_get_role_params o p r req) _ λ request h. tt
  asked-IsAdmitted (update_role p r) =
      decoded-IsAdmitted (decode_update_role_params o p r req) _
        λ request h. decoded-IsAdmitted (decode_update_role_request req) _ λ request h. tt
  asked-IsAdmitted (get_user_group p g) =
      decoded-IsAdmitted (decode_get_user_group_params o p g req) _ λ request h. tt
  asked-IsAdmitted (update_user_group p g) =
      decoded-IsAdmitted (decode_update_user_group_params o p g req) _
        λ request h. decoded-IsAdmitted (decode_update_user_group_request req) _ λ request h. tt
  asked-IsAdmitted get_readiness_check = tt
  asked-IsAdmitted _ = tt

requested-IsAdmitted :
    (o : Ogen) (req : HttpRequest) (v : Verdict) (r : Routed) → IsAdmitted (requested o req v r)
requested-IsAdmitted o req (next found) (dispatch e) = asked-IsAdmitted o found req e
requested-IsAdmitted o req (next found) (not_allowed allow) = tt
requested-IsAdmitted o req (next found) not_found = tt
requested-IsAdmitted o req (http_error status message) r = tt

perform-Effect :
    (u : Pgtype) (c : Option Call) (w : World) → IsAdmitted c → Effect u w (perform u c w)
perform-Effect u none w a = untouched
perform-Effect u (some c) w a = called c a

module _ (o : Ogen) (u : Pgtype) {S : Type 0} (store : Store S) (parse : String → Option String)
    (session_ttl : ℕ) where
  -- A request does to the tables nothing at all, or what one call of the service does, and a project
  -- that this call creates has the kind "personal" or "shared".
  pub serve-Effect :
      (now : ℕ) (method path : String) (req : HttpRequest) (b : Backend S)
      → Effect u b.world (serve store parse session_ttl o u now method path req b).0.world
  serve-Effect now method path req b =
      let c =
        requested o req (session_middleware store now (as_checked path req) b.sessions)
          (serve_http method path) in
      subst (Effect u b.world) (sym (world-serve o u store parse session_ttl now method path req b))
        (perform-Effect u c b.world (requested-IsAdmitted o req _ _))
