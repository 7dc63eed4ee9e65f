-- ===== src/Http/Replies/Encoders.antt =====
-- pkg/apis/v1alpha1/generated/oas_response_encoders_gen.go: the status and the document of what an
-- operation answers with. `none` is the error "unexpected response type".
use admin_api.Base.{ℕ, String, List, Option, none, some}
use admin_api.Session.Json.{Json, arr}
use admin_api.Service.Types.{Project, Role, User, UserGroup}
use admin_api.Service.Auth.{AuthenticatedUser}
use admin_api.Http.Replies.{
  DateTime, Res, success, bad_request, unauthorized, not_found, internal_server_error,
  error_response, encode_error_response, encode_health_response, encode_elems, encode_project,
  encode_role, encode_user, encode_user_group, encode_list_projects, encode_authenticated_user,
}

-- What goes out: without a document, there is no `Content-Type` either.
pub record Written : Type 0 where
  pub status : ℕ
  pub document : Option Json

abbrev pub bare : ℕ → Written
bare status = record { status = status; document = none }

abbrev pub with_json : ℕ → Json → Written
with_json status body = record { status = status; document = some body }

abbrev with_error : ℕ → String → Option Written
unfolding encode_error_response
with_error status error = some (with_json status (encode_error_response error))

unfoldable pub encode_get_current_user_response : Res AuthenticatedUser → Option Written
unfolding encode_authenticated_user encode_error_response
encode_get_current_user_response (success a) = some (with_json 200 (encode_authenticated_user a))
encode_get_current_user_response (error_response error) = with_error 401 error
encode_get_current_user_response _ = none

unfoldable pub encode_get_liveness_check_response : String → Written
unfolding encode_health_response
encode_get_liveness_check_response status = with_json 200 (encode_health_response status)

unfoldable pub encode_get_readiness_check_response : String → Written
unfolding encode_health_response
encode_get_readiness_check_response status = with_json 200 (encode_health_response status)

unfoldable pub encode_handle_oauth_callback_response : Res (Unit {0}) → Option Written
unfolding encode_error_response
encode_handle_oauth_callback_response (success _) = some (bare 302)
encode_handle_oauth_callback_response (bad_request error) = with_error 400 error
encode_handle_oauth_callback_response (unauthorized error) = with_error 401 error
encode_handle_oauth_callback_response _ = none

unfoldable pub encode_initiate_login_response : Res (Unit {0}) → Option Written
unfolding encode_error_response
encode_initiate_login_response (success _) = some (bare 302)
encode_initiate_login_response (error_response error) = with_error 400 error
encode_initiate_login_response _ = none

unfoldable pub encode_logout_response : Res (Unit {0}) → Option Written
unfolding encode_error_response
encode_logout_response (success _) = some (bare 204)
encode_logout_response (error_response error) = with_error 401 error
encode_logout_response _ = none

unfoldable pub encode_refresh_token_response : Res AuthenticatedUser → Option Written
unfolding encode_authenticated_user encode_error_response
encode_refresh_token_response (success a) = some (with_json 200 (encode_authenticated_user a))
encode_refresh_token_response (error_response error) = with_error 401 error
encode_refresh_token_response _ = none

module _ (t : DateTime) where
  unfoldable pub encode_create_project_response : Res Project → Option Written
  unfolding encode_project encode_error_response
  encode_create_project_response (success a) = some (with_json 201 (encode_project t a))
  encode_create_project_response (bad_request error) = with_error 400 error
  encode_create_project_response (internal_server_error error) = with_error 500 error
  encode_create_project_response _ = none

  unfoldable pub encode_create_role_response : Res Role → Option Written
  unfolding encode_role encode_error_response
  encode_create_role_response (success a) = some (with_json 201 (encode_role t a))
  encode_create_role_response (bad_request error) = with_error 400 error
  encode_create_role_response (not_found error) = with_error 404 error
  encode_create_role_response (internal_server_error error) = with_error 500 error
  encode_create_role_response _ = none

  unfoldable pub encode_create_user_response : Res User → Option Written
  unfolding encode_user encode_error_response
  encode_create_user_response (success a) = some (with_json 201 (encode_user t a))
  encode_create_user_response (bad_request error) = with_error 400 error
  encode_create_user_response (internal_server_error error) = with_error 500 error
  encode_create_user_response _ = none

  unfoldable pub encode_create_user_group_response : Res UserGroup → Option Written
  unfolding encode_user_group encode_error_response
  encode_create_user_group_response (success a) = some (with_json 201 (encode_user_group t a))
  encode_create_user_group_response (bad_request error) = with_error 400 error
  encode_create_user_group_response (not_found error) = with_error 404 error
  encode_create_user_group_response (internal_server_error error) = with_error 500 error
  encode_create_user_group_response _ = none

  unfoldable pub encode_get_project_response : Res Project → Option Written
  unfolding encode_project encode_error_response
  encode_get_project_response (success a) = some (with_json 200 (encode_project t a))
  encode_get_project_response (not_found error) = with_error 404 error
  encode_get_project_response (internal_server_error error) = with_error 500 error
  encode_get_project_response _ = none

  unfoldable pub encode_get_role_response : Res Role → Option Written
  unfolding encode_role encode_error_response
  encode_get_role_response (success a) = some (with_json 200 (encode_role t a))
  encode_get_role_response (not_found error) = with_error 404 error
  encode_get_role_response (internal_server_error error) = with_error 500 error
  encode_get_role_response _ = none

  unfoldable pub encode_get_user_group_response : Res UserGroup → Option Written
  unfolding encode_user_group encode_error_response
  encode_get_user_group_response (success a) = some (with_json 200 (encode_user_group t a))
  encode_get_user_group_response (not_found error) = with_error 404 error
  encode_get_user_group_response (internal_server_error error) = with_error 500 error
  encode_get_user_group_response _ = none

  unfoldable pub encode_list_projects_response : Res (List Project) → Option Written
  unfolding encode_list_projects encode_error_response
  encode_list_projects_response (success a) = some (with_json 200 (encode_list_projects t a))
  encode_list_projects_response (error_response error) = with_error 500 error
  encode_list_projects_response _ = none

  unfoldable pub encode_list_roles_response : Res (List Role) → Option Written
  unfolding encode_role encode_error_response
  encode_list_roles_response (success a) =
      some (with_json 200 (arr (encode_elems (encode_role t) a)))
  encode_list_roles_response (not_found error) = with_error 404 error
  encode_list_roles_response (internal_server_error error) = with_error 500 error
  encode_list_roles_response _ = none

  unfoldable pub encode_list_user_groups_response : Res (List UserGroup) → Option Written
  unfolding encode_user_group encode_error_response
  encode_list_user_groups_response (success a) =
      some (with_json 200 (arr (encode_elems (encode_user_group t) a)))
  encode_list_user_groups_response (not_found error) = with_error 404 error
  encode_list_user_groups_response (internal_server_error error) = with_error 500 error
  encode_list_user_groups_response _ = none

  unfoldable pub encode_list_users_response : Res (List User) → Option Written
  unfolding encode_user encode_error_response
  encode_list_users_response (success a) =
      some (with_json 200 (arr (encode_elems (encode_user t) a)))
  encode_list_users_response (error_response error) = with_error 500 error
  encode_list_users_response _ = none

  unfoldable pub encode_update_project_response : Res Project → Option Written
  unfolding encode_project encode_error_response
  encode_update_project_response (success a) = some (with_json 200 (encode_project t a))
  encode_update_project_response (bad_request error) = with_error 400 error
  encode_update_project_response (not_found error) = with_error 404 error
  encode_update_project_response (internal_server_error error) = with_error 500 error
  encode_update_project_response _ = none

  unfoldable pub encode_update_role_response : Res Role → Option Written
  unfolding encode_role encode_error_response
  encode_update_role_response (success a) = some (with_json 200 (encode_role t a))
  encode_update_role_response (bad_request error) = with_error 400 error
  encode_update_role_response (not_found error) = with_error 404 error
  encode_update_role_response (internal_server_error error) = with_error 500 error
  encode_update_role_response _ = none

  unfoldable pub encode_update_user_group_response : Res UserGroup → Option Written
  unfolding encode_user_group encode_error_response
  encode_update_user_group_response (success a) = some (with_json 200 (encode_user_group t a))
  encode_update_user_group_response (bad_request error) = with_error 400 error
  encode_update_user_group_response (not_found error) = with_error 404 error
  encode_update_user_group_response (internal_server_error error) = with_error 500 error
  encode_update_user_group_response _ = none
