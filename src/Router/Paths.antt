-- ===== src/Router/Paths.antt =====
-- The API's paths as openapi gives them: what a request for an operation looks like.
use Prim.Native.Char.{code}
use Prim.Native.String
use admin_api.Base.{String, Bool, false, ◌==◌, ◌||◌, ◌≡◌}
use admin_api.Router.{
  Endpoint, handle_oauth_callback, initiate_login, logout, get_current_user, refresh_token,
  get_liveness_check, get_readiness_check, list_projects, create_project, list_users, create_user,
  get_project, update_project, list_roles, create_role, list_user_groups, create_user_group,
  get_role, update_role, get_user_group, update_user_group,
}

abbrev pub method_of : Endpoint → String
method_of handle_oauth_callback = "GET"
method_of initiate_login = "GET"
method_of logout = "POST"
method_of get_current_user = "GET"
method_of refresh_token = "POST"
method_of get_liveness_check = "GET"
method_of get_readiness_check = "GET"
method_of list_projects = "GET"
method_of create_project = "POST"
method_of list_users = "GET"
method_of create_user = "POST"
method_of (get_project p) = "GET"
method_of (update_project p) = "PUT"
method_of (list_roles p) = "GET"
method_of (create_role p) = "POST"
method_of (list_user_groups p) = "GET"
method_of (create_user_group p) = "POST"
method_of (get_role p r) = "GET"
method_of (update_role p r) = "PUT"
method_of (get_user_group p g) = "GET"
method_of (update_user_group p g) = "PUT"

infixr 30 ◌/◌
-- Texts one behind the other.
abbrev ◌/◌ : String → String → String
a / b = String.◌++◌ a b

abbrev pub project_path : String → String → String
project_path p rest = "/v1alpha1/" / "projects" / "/" / p / rest

-- A role or user group of a project.
abbrev pub scoped_path : String → String → String
scoped_path kind id = "/" / kind / "/" / id

abbrev pub path_of : Endpoint → String
path_of handle_oauth_callback = "/v1alpha1/auth/callback"
path_of initiate_login = "/v1alpha1/auth/login"
path_of logout = "/v1alpha1/auth/logout"
path_of get_current_user = "/v1alpha1/auth/me"
path_of refresh_token = "/v1alpha1/auth/refresh"
path_of get_liveness_check = "/v1alpha1/health/liveness"
path_of get_readiness_check = "/v1alpha1/health/readiness"
path_of list_projects = "/v1alpha1/projects"
path_of create_project = "/v1alpha1/projects"
path_of list_users = "/v1alpha1/users"
path_of create_user = "/v1alpha1/users"
path_of (get_project p) = project_path p ""
path_of (update_project p) = project_path p ""
path_of (list_roles p) = project_path p "/roles"
path_of (create_role p) = project_path p "/roles"
path_of (list_user_groups p) = project_path p "/usergroups"
path_of (create_user_group p) = project_path p "/usergroups"
path_of (get_role p r) = project_path p (scoped_path "roles" r)
path_of (update_role p r) = project_path p (scoped_path "roles" r)
path_of (get_user_group p g) = project_path p (scoped_path "usergroups" g)
path_of (update_user_group p g) = project_path p (scoped_path "usergroups" g)

abbrev pub has_slash : String → Bool
has_slash String.[] = false
has_slash (String.◌∷◌ c s) = code c == 47 || has_slash s

-- The arguments of a path hold no '/'.
abbrev pub HasSegments : Endpoint → Type 0
HasSegments (get_project p) = has_slash p ≡ false
HasSegments (update_project p) = has_slash p ≡ false
HasSegments (list_roles p) = has_slash p ≡ false
HasSegments (create_role p) = has_slash p ≡ false
HasSegments (list_user_groups p) = has_slash p ≡ false
HasSegments (create_user_group p) = has_slash p ≡ false
HasSegments (get_role p r) = (has_slash p ≡ false) × (has_slash r ≡ false)
HasSegments (update_role p r) = (has_slash p ≡ false) × (has_slash r ≡ false)
HasSegments (get_user_group p g) = (has_slash p ≡ false) × (has_slash g ≡ false)
HasSegments (update_user_group p g) = (has_slash p ≡ false) × (has_slash g ≡ false)
HasSegments _ = Unit
