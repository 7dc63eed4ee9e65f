-- ===== src/Service/Tests.antt =====
-- Requests to the handlers over small tables, and the theorems at them.
mod Scopes
mod Runs
mod Updates
use mathlib.Core.List.{Permᴰ, Memᴰ}
use admin_api.Base.{
  ℕ, ◌+◌, ◌<◌, ◌≤◌, ◌^◌, ◌==◌, ◌&&◌, ◌||◌, String, List, [], ◌∷◌, ◌++◌, Option, some, none, Bool,
  true, false, ◌≡◌, ◌≢◌, refl, arith, eq_iff, str_eq, if◌then◌else◌, map, take, drop, Result, ok,
  err, not,
}
use admin_api.Base.Int.{to_int32}
use admin_api.Admindb
use admin_api.Admindb.{Db, Table, empty_db}
use admin_api.Admindb.Consistency.{IsConsistent, IsConsistent-empty_db}
use admin_api.Admindb.Sql.{
  unavailable, value_too_long, unique_violation, order_desc, limit_offset, insert_desc,
}
use admin_api.Admindb.Sql.Order.{IsLatestFirst}
use admin_api.Admindb.Queries
use admin_api.Admindb.World.{World, Moment, served, refused, lost, exec, query}
use admin_api.Service.Monad.{Pgtype, scan_id, wrap, ◌>>=◌, ◌>>◌}
use admin_api.Service.Types
use admin_api.Service.Types.{
  CreateProjectRequest, UpdateProjectRequest, RoleRequest, UserGroupRequest,
}
use admin_api.Service.Projects.{
  create_project, get_project, update_project, list_projects, to_project,
}
use admin_api.Service.Projects.Create.{
  new_row, fits_columns, create_project_outcome, get_project-create_project,
}
use admin_api.Service.Projects.Update.{update_project_sound}
use admin_api.Service.Projects.Retry.{create_project_retry}
use admin_api.Service.Projects.Listing.{list_projects_offset_wraps}

-- Display ids as decimal texts, of which two are enough here.
abbrev ids : Pgtype
ids = record {
  scan = λ text.
      if str_eq text "1001" then some 1001 else if str_eq text "1002" then some 1002 else none;
  show = λ id. if id == 1001 then "1001" else "1002";
}

abbrev at : ℕ → ℕ → Moment
at now uuid = record { now = now; uuid = uuid; fate = served }

abbrev shop : CreateProjectRequest
shop = record {
  name = "shop";
  description = "a shop";
  kind = "personal";
  owner_ids = [];
  owner_group_ids = [];
}

abbrev blank : List Moment → World
blank ms = record { db = empty_db; moments = ms }

-- The tables after the creation of the project, at time 5.
abbrev opened : Db
opened = record empty_db {
  projects = record { rows = new_row shop (at 5 1001) empty_db ∷ []; next_id = 2 };
}

create_project_outcome_example : create_project ids shop (blank (at 5 1001 ∷ at 6 0 ∷ [])) ≡ (
  record { db = opened; moments = [] },
  ok (to_project ids (new_row shop (at 5 1001) empty_db)),
)
create_project_outcome_example =
    create_project_outcome ids shop (blank (at 5 1001 ∷ at 6 0 ∷ [])) (at 5 1001) (at 6 0) [] refl
      refl refl

abbrev renamed : UpdateProjectRequest
renamed = record { name = "store"; description = "a store"; owner_ids = []; owner_group_ids = [] }

abbrev update_world : World
update_world = record { db = opened; moments = at 8 0 ∷ at 9 0 ∷ [] }

abbrev store_reply : Types.Project
store_reply = record {
  id = "1001";
  name = "store";
  description = "a store";
  kind = "personal";
  created_at = 5;
  updated_at = 8;
}

abbrev stored : Db
stored = record opened {
  projects = record {
    rows =
        record (new_row shop (at 5 1001) empty_db) {
          name = "store";
          description = "a store";
          updated_at = 8;
        }
        ∷ [];
    next_id = 2;
  };
}

update_project_sound_example :
    (uuid : ℕ) × (now : ℕ) × (old : Admindb.Project) × (ids.scan "1001" ≡ some uuid)
    × (Queries.get_project_by_display_id uuid opened ≡ ok old)
    × (store_reply
        ≡ to_project ids (record old { name = "store"; description = "a store"; updated_at = now }))
    × (((other : ℕ)
        → other ≢ uuid
        → Queries.get_project_by_display_id other stored
          ≡ Queries.get_project_by_display_id other opened))
unfolding update_project scan_id wrap ◌>>=◌ ◌>>◌ exec query Queries.update_project
    Queries.update_rows Queries.get_project_by_display_id
update_project_sound_example =
    update_project_sound ids renamed "1001" update_world {w' = record { db = stored; moments = [] }}
      {reply = store_reply} refl

abbrev shop_reply : List Types.Project
shop_reply = to_project ids (new_row shop (at 5 1001) empty_db) ∷ []

abbrev listing : World
listing = record { db = opened; moments = at 8 0 ∷ at 9 0 ∷ [] }

list_projects_offset_wraps_example : list_projects ids 10 (2 ^ 31) listing ≢ (listing, ok [])
list_projects_offset_wraps_example =
    list_projects_offset_wraps ids 10 (2 ^ 31) listing (omega arith) (omega arith)

abbrev lost_at : ℕ → ℕ → Moment
lost_at now uuid = record { now = now; uuid = uuid; fate = lost }

-- The reply to the insertion is lost, and the caller tries again.
abbrev flaky : World
flaky = blank (lost_at 5 1001 ∷ at 6 1002 ∷ at 7 0 ∷ [])

create_project_retry_example :
    ((create_project ids shop flaky).1
      ≡ err (record { message = "failed to create project"; cause = unavailable }))
    × ((create_project ids shop flaky).0.db ≡ opened)
    × ((create_project ids shop (create_project ids shop flaky).0).1
        ≡ err (record { message = "failed to create project"; cause = unique_violation }))
create_project_retry_example =
    create_project_retry ids shop flaky (lost_at 5 1001) (at 6 1002) (at 7 0) [] refl refl refl refl
      refl refl
