-- ===== src/Service/Tests/Updates.antt =====
-- Requests that change a role or a user group, and the theorems at them.
use admin_api.Base.{ℕ, [], ◌∷◌, some, ◌≡◌, refl, ok}
use admin_api.Admindb
use admin_api.Admindb.{Db, Scoped}
use admin_api.Admindb.Queries
use admin_api.Admindb.Queries.{get_scoped, update_scoped, update_rows}
use admin_api.Admindb.World.{World, exec, query}
use admin_api.Service.Monad.{scan_id, wrap, ◌>>=◌, ◌>>◌}
use admin_api.Service.Types.{RoleRequest, UserGroupRequest}
use admin_api.Service.Projects.{to_project}
use admin_api.Service.Scopes.{find_project, update_role, to_role}
use admin_api.Service.Scopes.Isolation.{NamesProject}
use admin_api.Service.Scopes.Update.{renamed, KeepsOthers, update_role_sound}
use admin_api.Service.Tests.{ids, at}
use admin_api.Service.Tests.Scopes.{the_shop, role_row, with_role}

abbrev clerk : RoleRequest
clerk = record { name = "clerk"; description = "some rights"; attribute_ids = [] }

abbrev team : UserGroupRequest
team = record { name = "team"; description = "the team"; member_ids = [] }

abbrev with_clerk : Db
with_clerk = record with_role {
  roles = record with_role.roles { rows = renamed 9 "clerk" "some rights" role_row ∷ [] };
}

abbrev starting : Db → World
starting db = record { db = db; moments = at 8 0 ∷ at 9 0 ∷ at 10 0 ∷ [] }

update_role_sound_example :
    (p : Admindb.Project) × (uuid now : ℕ) × (old : Scoped) × NamesProject ids with_role "1001" p
    × (ids.scan "1002" ≡ some uuid)
    × (get_scoped p.id uuid with_role.roles ≡ ok old)
    × (to_role ids (to_project ids the_shop) (renamed 9 "clerk" "some rights" role_row)
        ≡ to_role ids (to_project ids p) (renamed now "clerk" "some rights" old))
    × KeepsOthers p.id uuid with_role.roles with_clerk.roles
unfolding update_role find_project scan_id wrap ◌>>=◌ ◌>>◌ exec query Queries.update_role
    update_scoped update_rows Queries.get_role_by_display_id get_scoped
    Queries.get_project_by_display_id
update_role_sound_example =
    update_role_sound ids "1001" (starting with_role) clerk "1002"
      {w' = record { db = with_clerk; moments = [] }} refl
