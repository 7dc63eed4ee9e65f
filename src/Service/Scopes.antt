-- ===== src/Service/Scopes.antt =====
-- pkg/apis/v1alpha1/server.go: the roles and the user groups of a project.
pub mod Lists
pub mod Isolation
pub mod Creation
pub mod Update
use admin_api.Base.{ℕ, String, List, [], map}
use admin_api.Base.Int.{to_int32}
use admin_api.Admindb
use admin_api.Admindb.Queries
use admin_api.Admindb.World.{exec, query}
use admin_api.Service.Monad.{Handler, Pgtype, pure, wrap, scan_id, ◌>>=◌, ◌>>◌}
use admin_api.Service.Types.{
  Project, Role, User, UserGroup, RoleRequest, UserGroupRequest, zero_project,
}
use admin_api.Service.Projects.{to_project, to_user}

module _ (u : Pgtype) where
  -- The first two steps of most handlers: the project of the path.
  unfoldable pub find_project : String → Handler Admindb.Project
  find_project project_id = do
    display_id ← scan_id u "failed to scan project id" project_id
    wrap "failed to get project by display id"
        (query (Queries.get_project_by_display_id display_id))

  abbrev pub to_role : Project → Admindb.Scoped → Role
  to_role project role = record {
    id = u.show role.display_id;
    name = role.name;
    description = role.description;
    project = project;
    created_at = role.created_at;
    updated_at = role.updated_at;
  }

  abbrev pub to_user_group : Project → List User → Admindb.Scoped → UserGroup
  to_user_group project members group = record {
    id = u.show group.display_id;
    name = group.name;
    description = group.description;
    project = project;
    members = members;
    created_at = group.created_at;
    updated_at = group.updated_at;
  }

  -- The reply has neither the id nor the times of the new role.
  unfoldable pub create_role : RoleRequest → String → Handler Role
  create_role req project_id = do
    proj ← find_project project_id
    wrap "failed to create role"
        (exec (λ now uuid db. Queries.create_role now uuid proj.id req.name req.description db))
    pure (record {
      id = "";
      name = req.name;
      description = req.description;
      project = to_project u proj;
      created_at = 0;
      updated_at = 0;
    })

  unfoldable pub create_user_group : UserGroupRequest → String → Handler UserGroup
  create_user_group req project_id = do
    proj ← find_project project_id
    wrap "failed to create user group" (
        exec
          (λ now uuid db. Queries.create_user_group now uuid proj.id req.name req.description db))
    pure (record {
      id = "";
      name = req.name;
      description = req.description;
      project = to_project u proj;
      members = [];
      created_at = 0;
      updated_at = 0;
    })

  unfoldable pub get_role : String → String → Handler Role
  get_role project_id role_id = do
    proj ← find_project project_id
    display_id ← scan_id u "failed to scan role id" role_id
    role ←
        wrap "failed to get role by display id"
          (query (Queries.get_role_by_display_id proj.id display_id))
    pure (to_role (to_project u proj) role)

  unfoldable pub get_user_group : String → String → Handler UserGroup
  get_user_group project_id group_id = do
    proj ← find_project project_id
    display_id ← scan_id u "failed to scan group id" group_id
    group ←
        wrap "failed to get user group by display id"
          (query (Queries.get_user_group_by_display_id proj.id display_id))
    records ←
        wrap "failed to list user group members" (query (Queries.list_user_group_members group.id))
    pure (to_user_group (to_project u proj) (map (to_user u) records) group)

  unfoldable pub update_role : RoleRequest → String → String → Handler Role
  update_role req project_id role_id = do
    proj ← find_project project_id
    display_id ← scan_id u "failed to scan role id" role_id
    wrap "failed to update role" (
        exec
          (λ now uuid db. Queries.update_role now proj.id display_id req.name req.description db))
    role ←
        wrap "failed to get role by display id"
          (query (Queries.get_role_by_display_id proj.id display_id))
    pure (to_role (to_project u proj) role)

  unfoldable pub update_user_group : UserGroupRequest → String → String → Handler UserGroup
  update_user_group req project_id group_id = do
    proj ← find_project project_id
    display_id ← scan_id u "failed to scan group id" group_id
    wrap "failed to update user group" (
        exec (λ now uuid db.
          Queries.update_user_group now proj.id display_id req.name req.description db))
    group ←
        wrap "failed to get user group by display id"
          (query (Queries.get_user_group_by_display_id proj.id display_id))
    pure (to_user_group (to_project u proj) [] group)

  -- `ListRolesWithPaginationParams{Limit, Offset}`: the field `ProjectID` is left at 0, and the
  -- project of the path is not looked at.
  unfoldable pub list_roles : String → ℕ → ℕ → Handler (List Role)
  list_roles project_id limit offset = do
    records ←
        wrap "failed to list roles with pagination"
          (query (Queries.list_roles_with_pagination 0 (to_int32 limit) (to_int32 offset)))
    pure (map (to_role zero_project) records)

  unfoldable pub list_user_groups : String → ℕ → ℕ → Handler (List UserGroup)
  list_user_groups project_id limit offset = do
    records ←
        wrap "failed to list user groups with pagination"
          (query (Queries.list_user_groups_with_pagination 0 (to_int32 limit) (to_int32 offset)))
    pure (map (to_user_group zero_project []) records)
