-- ===== src/Service/Projects.antt =====
-- pkg/apis/v1alpha1/server.go: projects, users and the health checks.
pub mod Create
pub mod Update
pub mod Listing
pub mod Retry
use admin_api.Base.{ℕ, String, List, [], map}
use admin_api.Base.Int.{to_int32}
use admin_api.Admindb
use admin_api.Admindb.Queries
use admin_api.Admindb.World.{exec, query}
use admin_api.Service.Monad.{Handler, Pgtype, pure, wrap, scan_id, ◌>>=◌, ◌>>◌}
use admin_api.Service.Types.{Project, User, CreateProjectRequest, UpdateProjectRequest}

module _ (u : Pgtype) where
  -- The literal `adminv1alpha1.Project{…}` of a row.
  abbrev pub to_project : Admindb.Project → Project
  to_project proj = record {
    id = u.show proj.display_id;
    name = proj.name;
    description = proj.description;
    kind = proj.kind;
    created_at = proj.created_at;
    updated_at = proj.updated_at;
  }

  -- The literal `adminv1alpha1.User{…}` of a row.
  abbrev pub to_user : Admindb.User → User
  to_user user = record {
    id = u.show user.display_id;
    email = user.email;
    roles = [];
    created_at = user.created_at;
    updated_at = user.updated_at;
  }

  unfoldable pub create_project : CreateProjectRequest → Handler Project
  create_project req = do
    wrap "failed to create project"
        (exec (λ now uuid db. Queries.create_project now uuid req.name req.description req.kind db))
    proj ← wrap "failed to get project by name" (query (Queries.get_project_by_name req.name))
    pure (to_project proj)

  unfoldable pub get_project : String → Handler Project
  get_project project_id = do
    display_id ← scan_id u "failed to scan project id" project_id
    proj ←
        wrap "failed to get project by display id"
          (query (Queries.get_project_by_display_id display_id))
    pure (to_project proj)

  unfoldable pub update_project : UpdateProjectRequest → String → Handler Project
  update_project req project_id = do
    display_id ← scan_id u "failed to scan project id" project_id
    wrap "failed to update project"
        (exec (λ now uuid db. Queries.update_project now display_id req.name req.description db))
    proj ←
        wrap "failed to get project by display id"
          (query (Queries.get_project_by_display_id display_id))
    pure (to_project proj)

  unfoldable pub list_projects : ℕ → ℕ → Handler (List Project)
  list_projects limit offset = do
    records ←
        wrap "failed to list projects with pagination"
          (query (Queries.list_projects_with_pagination (to_int32 limit) (to_int32 offset)))
    pure (map to_project records)

  unfoldable pub create_user : String → Handler User
  create_user email = do
    wrap "failed to create user" (exec (λ now uuid db. Queries.create_user now uuid email db))
    user ← wrap "failed to get user by email" (query (Queries.get_user_by_email email))
    pure (to_user user)

  unfoldable pub list_users : ℕ → ℕ → Handler (List User)
  list_users limit offset = do
    records ←
        wrap "failed to list users with pagination"
          (query (Queries.list_users_with_pagination (to_int32 limit) (to_int32 offset)))
    pure (map to_user records)

-- "ok", or the error that makes the reply a failure.
unfoldable pub get_readiness_check : Handler String
get_readiness_check = do
  wrap "failed to check DB connection" (query Queries.check_db_connection)
  pure "ok"

unfoldable pub get_liveness_check : Handler String
get_liveness_check = pure "ok"
