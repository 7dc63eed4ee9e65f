-- ===== src/Http/Replies/Answers.antt =====
-- The calls of the encoders in the handlers of pkg/apis/v1alpha1/generated/oas_handlers_gen.go.
use admin_api.Base.{ℕ, String, Option, none, some}
use admin_api.Service.Auth.{
  AuthenticatedUser, AuthReply, authenticated, no_content, error_response, panicked,
}
use admin_api.Router.{
  Endpoint, handle_oauth_callback, initiate_login, logout, get_current_user, refresh_token,
  get_liveness_check, get_readiness_check, list_projects, create_project, list_users, create_user,
  get_project, update_project, list_roles, create_role, list_user_groups, create_user_group,
  get_role, update_role, get_user_group, update_user_group, Routed, dispatch, not_allowed,
  not_found,
}
use admin_api.Http.{HttpError}
use admin_api.Http.Body.{◌>>=◌}
use admin_api.Http.Handlers.Serve.{
  Response, project, projects, role, roles, user, users, user_group, user_groups, health, auth,
  found, Answer, replied, failed, refused, no_method, no_route,
}
use admin_api.Http.Replies.{DateTime, Res, success}
use admin_api.Http.Replies
use admin_api.Http.Replies.Encoders.{Written}
use admin_api.Http.Replies.Encoders

-- What the libraries write: `DefaultErrorHandler` of ogen for an error of a handler, echo for an
-- `HTTPError` of the middleware, ogen for a method or a path that no operation has.
pub record Library : Type 0 where
  pub date_time : DateTime
  pub error_handler : HttpError → Written
  pub http_error : ℕ → String → Written
  pub method_not_allowed : String → Written
  pub route_not_found : Written

-- The handlers on the session answer with a user, with nothing or with an `ErrorResponse`.
abbrev pub user_res : AuthReply → Option (Res AuthenticatedUser)
user_res (authenticated a) = some (success a)
user_res (error_response error) = some (Replies.error_response error)
user_res no_content = none
user_res panicked = none

abbrev pub unit_res : AuthReply → Option (Res (Unit {0}))
unit_res no_content = some (success tt)
unit_res (error_response error) = some (Replies.error_response error)
unit_res (authenticated a) = none
unit_res panicked = none

module _ (l : Library) where
  -- `none`: the answer is of no type of the operation, or the handler has panicked.
  unfoldable pub encode_response : Endpoint → Response → Option Written
  unfolding Encoders.encode_handle_oauth_callback_response Encoders.encode_initiate_login_response
      Encoders.encode_logout_response Encoders.encode_get_current_user_response
      Encoders.encode_refresh_token_response Encoders.encode_get_liveness_check_response
      Encoders.encode_get_readiness_check_response Encoders.encode_list_projects_response
      Encoders.encode_create_project_response Encoders.encode_list_users_response
      Encoders.encode_create_user_response Encoders.encode_get_project_response
      Encoders.encode_update_project_response Encoders.encode_list_roles_response
      Encoders.encode_create_role_response Encoders.encode_list_user_groups_response
      Encoders.encode_create_user_group_response Encoders.encode_get_role_response
      Encoders.encode_update_role_response Encoders.encode_get_user_group_response
      Encoders.encode_update_user_group_response
  encode_response handle_oauth_callback found =
      Encoders.encode_handle_oauth_callback_response (success tt)
  encode_response initiate_login found = Encoders.encode_initiate_login_response (success tt)
  encode_response logout (auth a) = unit_res a >>= Encoders.encode_logout_response
  encode_response get_current_user (auth a) =
      user_res a >>= Encoders.encode_get_current_user_response
  encode_response refresh_token (auth a) = user_res a >>= Encoders.encode_refresh_token_response
  encode_response get_liveness_check (health status) =
      some (Encoders.encode_get_liveness_check_response status)
  encode_response get_readiness_check (health status) =
      some (Encoders.encode_get_readiness_check_response status)
  encode_response list_projects (projects a) =
      Encoders.encode_list_projects_response l.date_time (success a)
  encode_response create_project (project a) =
      Encoders.encode_create_project_response l.date_time (success a)
  encode_response list_users (users a) = Encoders.encode_list_users_response l.date_time (success a)
  encode_response create_user (user a) =
      Encoders.encode_create_user_response l.date_time (success a)
  encode_response (get_project p) (project a) =
      Encoders.encode_get_project_response l.date_time (success a)
  encode_response (update_project p) (project a) =
      Encoders.encode_update_project_response l.date_time (success a)
  encode_response (list_roles p) (roles a) =
      Encoders.encode_list_roles_response l.date_time (success a)
  encode_response (create_role p) (role a) =
      Encoders.encode_create_role_response l.date_time (success a)
  encode_response (list_user_groups p) (user_groups a) =
      Encoders.encode_list_user_groups_response l.date_time (success a)
  encode_response (create_user_group p) (user_group a) =
      Encoders.encode_create_user_group_response l.date_time (success a)
  encode_response (get_role p r) (role a) =
      Encoders.encode_get_role_response l.date_time (success a)
  encode_response (update_role p r) (role a) =
      Encoders.encode_update_role_response l.date_time (success a)
  encode_response (get_user_group p g) (user_group a) =
      Encoders.encode_get_user_group_response l.date_time (success a)
  encode_response (update_user_group p g) (user_group a) =
      Encoders.encode_update_user_group_response l.date_time (success a)
  encode_response _ _ = none

  -- What goes out for an answer to a request that is routed so.
  unfoldable pub write : Routed → Answer → Option Written
  unfolding encode_response
  write (dispatch e) (replied response) = encode_response e response
  write (not_allowed allow) (replied response) = none
  write not_found (replied response) = none
  write r (failed e) = some (l.error_handler e)
  write r (refused status message) = some (l.http_error status message)
  write r (no_method allow) = some (l.method_not_allowed allow)
  write r no_route = some l.route_not_found
