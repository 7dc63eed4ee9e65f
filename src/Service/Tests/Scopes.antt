-- ===== src/Service/Tests/Scopes.antt =====
-- Requests on roles, user groups and sessions, and the theorems at them.
use admin_api.Base.{ℕ, List, [], ◌∷◌, false, ◌≡◌, refl, arith}
use admin_api.Base.Int.{to_int32}
use admin_api.Admindb
use admin_api.Admindb.{Db, Table, empty_db, Scoped}
use admin_api.Admindb.Consistency.{IsConsistent}
use admin_api.Admindb.Sql.{order_desc, limit_offset}
use admin_api.Admindb.Queries
use admin_api.Admindb.Queries.{append_row}
use admin_api.Admindb.World.{World, exec, query}
use admin_api.Service.Monad.{scan_id, wrap, ◌>>=◌, ◌>>◌}
use admin_api.Service.Types
use admin_api.Service.Types.{RoleRequest, UserGroupRequest}
use admin_api.Service.Projects.{to_project}
use admin_api.Service.Projects.Create
use admin_api.Service.Scopes.{find_project, create_role, get_role, list_roles, to_role}
use admin_api.Service.Scopes.Creation.{new_row, name_taken, create_role_sound}
use admin_api.Service.Scopes.Isolation.{NamesProject, NamesRow, get_role_sound}
use admin_api.Service.Scopes.Lists.{list_roles_empty}
use admin_api.Service.Tests.{ids, at, opened, shop}

abbrev pub the_shop : Admindb.Project
the_shop = Create.new_row shop (at 5 1001) empty_db

abbrev pub admin : RoleRequest
admin = record { name = "admin"; description = "all rights"; attribute_ids = [] }

abbrev crew : UserGroupRequest
crew = record { name = "crew"; description = "the crew"; member_ids = "1001" ∷ [] }

abbrev pub role_row : Scoped
role_row = new_row opened.roles 8 1002 the_shop "admin" "all rights"

abbrev pub group_row : Scoped
group_row = new_row opened.usergroups 8 1002 the_shop "crew" "the crew"

abbrev pub with_role : Db
with_role = record opened { roles = append_row opened.roles role_row }

abbrev pub with_group : Db
with_group = record opened { usergroups = append_row opened.usergroups group_row }

abbrev starting : Db → World
starting db = record { db = db; moments = at 7 0 ∷ at 8 1002 ∷ at 9 0 ∷ [] }

abbrev admin_reply : Admindb.Project → Types.Role
admin_reply p = record {
  id = "";
  name = "admin";
  description = "all rights";
  project = to_project ids p;
  created_at = 0;
  updated_at = 0;
}

create_role_sound_example :
    (p : Admindb.Project) × (now uuid : ℕ) × NamesProject ids opened "1001" p
    × (name_taken opened.roles p "admin" ≡ false)
    × (with_role ≡ record opened {
      roles = append_row opened.roles (new_row opened.roles now uuid p "admin" "all rights");
    })
    × (admin_reply the_shop ≡ admin_reply p)
unfolding create_role find_project scan_id wrap ◌>>=◌ ◌>>◌ exec query Queries.create_role
    Queries.create_scoped Queries.get_project_by_display_id
create_role_sound_example =
    create_role_sound ids "1001" (starting opened) admin
      {w' = record { db = with_role; moments = at 9 0 ∷ [] }} refl

get_role_sound_example :
    (p : Admindb.Project) × (r : Scoped) × NamesProject ids with_role "1001" p
    × NamesRow ids p with_role.roles "1002" r
    × (to_role ids (to_project ids the_shop) role_row ≡ to_role ids (to_project ids p) r)
    × (with_role ≡ with_role)
unfolding get_role find_project scan_id wrap ◌>>=◌ query Queries.get_role_by_display_id
    Queries.get_scoped Queries.get_project_by_display_id
get_role_sound_example =
    get_role_sound ids "1001" (starting with_role) "1002"
      {w' = record { db = with_role; moments = at 9 0 ∷ [] }} refl

with_role-IsConsistent : IsConsistent with_role
with_role-IsConsistent = record {
  sequence = omega arith;
  ids = omega arith;
  distinct = (tt, tt);
  roles = (refl, tt);
  usergroups = tt;
}

-- The project has a role, and the list of its roles is empty.
abbrev no_roles : List Types.Role
no_roles = []

list_roles_empty_example : no_roles ≡ []
unfolding list_roles wrap ◌>>=◌ query Queries.list_roles_with_pagination Queries.list_scoped
    Queries.filter_rows limit_offset order_desc to_int32
list_roles_empty_example =
    list_roles_empty ids "1001" 10 0 (starting with_role) with_role-IsConsistent
      {w' = record { db = with_role; moments = at 8 1002 ∷ at 9 0 ∷ [] }} {roles = no_roles} refl
