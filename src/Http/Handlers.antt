-- ===== src/Http/Handlers.antt =====
-- pkg/apis/v1alpha1/generated/oas_handlers_gen.go: the handlers of the generated server, from their
-- security check to the reply that they encode. Spans and metrics are left out, and so is the hook
-- of `s.cfg.Middleware`, which the program leaves nil.
pub mod Serve
pub mod Asked
pub mod Effects
use admin_api.Base.{ℕ, String, List, Option, Result, ok}
use admin_api.Session.{Session}
use admin_api.Session.Store.{Store}
use admin_api.Admindb.World.{World}
use admin_api.Service.Monad.{Pgtype}
use admin_api.Service.Types.{Project, Role, User, UserGroup}
use admin_api.Service.Projects
use admin_api.Service.Scopes
use admin_api.Service.Auth.{AuthReply}
use admin_api.Service.Auth
use admin_api.Http.{HttpRequest, Ogen, Stage, checked, call}
use admin_api.Http.Security.{secure}
use admin_api.Http.Params.{
  magnitude, decode_create_role_params, decode_create_user_group_params, decode_get_project_params,
  decode_get_role_params, decode_get_user_group_params, decode_list_projects_params,
  decode_list_roles_params, decode_list_user_groups_params, decode_list_users_params,
  decode_update_project_params, decode_update_role_params, decode_update_user_group_params,
}
use admin_api.Http.Body.{
  decode_create_project_request, decode_create_role_request, decode_create_user_request,
  decode_create_user_group_request, decode_update_project_request, decode_update_role_request,
  decode_update_user_group_request,
}

-- The session in the request's context is what the session middleware found.
module _ (o : Ogen) (u : Pgtype) (found : Option Session) (req : HttpRequest) where
  unfoldable pub handle_create_project : Stage World Project
  handle_create_project = checked (secure found req) λ _.
      checked (decode_create_project_request req)
        λ request. call (Projects.create_project u request)

  unfoldable pub handle_create_role : String → Stage World Role
  handle_create_role arg = checked (decode_create_role_params o arg req) λ project_id.
      checked (decode_create_role_request req)
        λ request. call (Scopes.create_role u request project_id)

  unfoldable pub handle_create_user : Stage World User
  handle_create_user =
      checked (secure found req)
        λ _. checked (decode_create_user_request o req) λ email. call (Projects.create_user u email)

  unfoldable pub handle_create_user_group : String → Stage World UserGroup
  handle_create_user_group arg = checked (decode_create_user_group_params o arg req) λ project_id.
      checked (decode_create_user_group_request req)
        λ request. call (Scopes.create_user_group u request project_id)

  unfoldable pub handle_get_project : String → Stage World Project
  handle_get_project arg = checked (secure found req) λ _.
      checked (decode_get_project_params o arg req)
        λ project_id. call (Projects.get_project u project_id)

  unfoldable pub handle_get_role : String → String → Stage World Role
  handle_get_role arg arg' =
      checked (decode_get_role_params o arg arg' req)
        λ params. call (Scopes.get_role u params.0 params.1)

  unfoldable pub handle_get_user_group : String → String → Stage World UserGroup
  handle_get_user_group arg arg' =
      checked (decode_get_user_group_params o arg arg' req)
        λ params. call (Scopes.get_user_group u params.0 params.1)

  unfoldable pub handle_list_projects : Stage World (List Project)
  handle_list_projects = checked (secure found req) λ _.
      checked (decode_list_projects_params o req)
        λ params. call (Projects.list_projects u (magnitude params.limit) (magnitude params.offset))

  unfoldable pub handle_list_roles : String → Stage World (List Role)
  handle_list_roles arg = checked (decode_list_roles_params o arg req) λ params.
      call (Scopes.list_roles u params.0 (magnitude params.1.limit) (magnitude params.1.offset))

  unfoldable pub handle_list_user_groups : String → Stage World (List UserGroup)
  handle_list_user_groups arg = checked (decode_list_user_groups_params o arg req) λ params.
      call
        (Scopes.list_user_groups u params.0 (magnitude params.1.limit) (magnitude params.1.offset))

  unfoldable pub handle_list_users : Stage World (List User)
  handle_list_users = checked (secure found req) λ _.
      checked (decode_list_users_params o req)
        λ params. call (Projects.list_users u (magnitude params.limit) (magnitude params.offset))

  unfoldable pub handle_update_project : String → Stage World Project
  handle_update_project arg = checked (secure found req) λ _.
      checked (decode_update_project_params o arg req) λ project_id.
        checked (decode_update_project_request req)
          λ request. call (Projects.update_project u request project_id)

  unfoldable pub handle_update_role : String → String → Stage World Role
  handle_update_role arg arg' = checked (decode_update_role_params o arg arg' req) λ params.
      checked (decode_update_role_request req)
        λ request. call (Scopes.update_role u request params.0 params.1)

  unfoldable pub handle_update_user_group : String → String → Stage World UserGroup
  handle_update_user_group arg arg' =
      checked (decode_update_user_group_params o arg arg' req) λ params.
        checked (decode_update_user_group_request req)
          λ request. call (Scopes.update_user_group u request params.0 params.1)

unfoldable pub handle_get_liveness_check : Stage World String
handle_get_liveness_check = call Projects.get_liveness_check

unfoldable pub handle_get_readiness_check : Stage World String
handle_get_readiness_check = call Projects.get_readiness_check

-- The operations on the session work on the session store.
module _ {S : Type 0} (store : Store S) (parse : String → Option String) (session_ttl now : ℕ)
    (found : Option Session) (req : HttpRequest) where
  unfoldable pub handle_get_current_user : Stage S AuthReply
  handle_get_current_user =
      checked (secure found req) λ sess. λ s. (s, ok (Auth.get_current_user parse sess))

  unfoldable pub handle_logout : Stage S AuthReply
  handle_logout =
      checked (secure found req)
        λ sess. λ s. let (s', reply) = Auth.logout store sess s in (s', ok reply)

  unfoldable pub handle_refresh_token : Stage S AuthReply
  handle_refresh_token = checked (secure found req) λ sess.
      λ s. let (s', reply) = Auth.refresh_token store parse session_ttl now sess s in (s', ok reply)
