-- ===== src/Admindb/Queries.antt =====
-- pkg/db/admindb/query.sql.go: each query as what its SQL does to the tables. A statement that
-- writes takes `NOW()` and the value of `uuidv7()`.
pub mod Rows
use admin_api.Base.{
  ℕ, suc, String, Bool, true, not, ◌&&◌, ◌||◌, Option, none, some, List, [], ◌∷◌, ◌++◌, map, str_eq,
  ◌==◌, if◌then◌else◌, any, find?, Result, ok, err,
}
use admin_api.Base.Int.{ℤ, to_int32}
use admin_api.Admindb.{Project, User, Scoped, UserUsergroupsRelation, Table, Db}
use admin_api.Admindb.Sql.{
  Cause, no_rows, unique_violation, foreign_key_violation, value_too_long, fits, order_desc,
  limit_offset,
}
use mathlib.Core.List

-- A write: the tables afterwards, and whether it succeeded.
abbrev pub Write : Type 0
Write = Db × Result Cause (Unit {0})

-- `nextval` is not taken back when the insertion fails.
abbrev pub burn_id : {A : Type 0} → Table A → Table A
burn_id t = record t { next_id = suc t.next_id }

abbrev pub append_row : {A : Type 0} → Table A → A → Table A
append_row t row = record { rows = t.rows ++ row ∷ []; next_id = suc t.next_id }

abbrev pub one : {A : Type 0} → Option A → Result Cause A
one none = err no_rows
one (some row) = ok row

-- Rows that pass the test are kept.
unfoldable pub filter_rows : {A : Type 0} → (A → Bool) → List A → List A
filter_rows p [] = []
filter_rows p (x ∷ xs) = let rest = filter_rows p xs in if p x then x ∷ rest else rest

-- UPDATE … WHERE: every row that passes the test is changed.
unfoldable pub update_rows : {A : Type 0} → (A → Bool) → (A → A) → List A → List A
update_rows p f [] = []
update_rows p f (x ∷ xs) = (if p x then f x else x) ∷ update_rows p f xs

unfoldable pub check_db_connection : Db → Result Cause ℕ
check_db_connection db = ok 1

-- The row clashes with one of UNIQUE (display_id) and UNIQUE (name).
abbrev pub project_clash : ℕ → String → List Project → Bool
project_clash uuid name rows =
    any (λ (p : Project). p.display_id == uuid || str_eq p.name name) rows

unfoldable pub create_project : ℕ → ℕ → String → String → String → Db → Write
create_project now uuid name description kind db =
    let failed = record db { projects = burn_id db.projects } in
    let row : Project = record {
      id = db.projects.next_id;
      display_id = uuid;
      name = name;
      description = description;
      kind = kind;
      created_at = now;
      updated_at = now;
    } in
    if not (fits 64 name && fits 256 description && fits 32 kind)
    then (failed, err value_too_long)
    else if project_clash uuid name db.projects.rows
    then (failed, err unique_violation)
    else (record db { projects = append_row db.projects row }, ok tt)

unfoldable pub get_project_by_display_id : ℕ → Db → Result Cause Project
get_project_by_display_id uuid db =
    one (find? (λ (p : Project). p.display_id == uuid) db.projects.rows)

unfoldable pub get_project_by_name : String → Db → Result Cause Project
get_project_by_name name db = one (find? (λ (p : Project). str_eq p.name name) db.projects.rows)

-- The new name clashes with the name of another row.
unfoldable pub update_project : ℕ → ℕ → String → String → Db → Write
unfolding update_rows
update_project now uuid name description db =
    let hit = λ (p : Project). p.display_id == uuid in
    if not (any hit db.projects.rows)
    then (db, ok tt)
    else if not (fits 64 name && fits 256 description)
    then (db, err value_too_long)
    else if any (λ (p : Project). not (hit p) && str_eq p.name name) db.projects.rows
    then (db, err unique_violation)
    else (
      record db {
        projects = record db.projects {
          rows =
              update_rows hit
                (λ p. record p { name = name; description = description; updated_at = now })
                db.projects.rows;
        };
      },
      ok tt,
    )

unfoldable pub list_projects_with_pagination : ℤ → ℤ → Db → Result Cause (List Project)
list_projects_with_pagination limit offset db =
    limit_offset limit offset (order_desc (λ (p : Project). p.created_at) db.projects.rows)

unfoldable pub create_user : ℕ → ℕ → String → Db → Write
create_user now uuid email db =
    let failed = record db { users = burn_id db.users } in
    let row : User = record {
      id = db.users.next_id;
      display_id = uuid;
      email = email;
      created_at = now;
      updated_at = now;
    } in
    if not (fits 256 email)
    then (failed, err value_too_long)
    else if any (λ (u : User). u.display_id == uuid || str_eq u.email email) db.users.rows
    then (failed, err unique_violation)
    else (record db { users = append_row db.users row }, ok tt)

unfoldable pub get_user_by_email : String → Db → Result Cause User
get_user_by_email email db = one (find? (λ (u : User). str_eq u.email email) db.users.rows)

unfoldable pub list_users_with_pagination : ℤ → ℤ → Db → Result Cause (List User)
list_users_with_pagination limit offset db =
    limit_offset limit offset (order_desc (λ (u : User). u.created_at) db.users.rows)

-- No handler calls this query.
unfoldable pub update_user : ℕ → ℕ → String → Db → Write
unfolding update_rows
update_user now uuid email db =
    let hit = λ (u : User). u.display_id == uuid in
    if not (any hit db.users.rows)
    then (db, ok tt)
    else if not (fits 256 email)
    then (db, err value_too_long)
    else if any (λ (u : User). not (hit u) && str_eq u.email email) db.users.rows
    then (db, err unique_violation)
    else (
      record db {
        users = record db.users {
          rows = update_rows hit (λ u. record u { email = email; updated_at = now }) db.users.rows;
        };
      },
      ok tt,
    )

-- The statements on `roles` and on `usergroups`, which differ in the table and in the width of the
-- name only.
module _ (name_width : ℕ) where
  unfoldable pub create_scoped :
      ℕ
      → ℕ
      → ℕ
      → String
      → String
      → List Project
      → Table Scoped
      → Table Scoped × Result Cause (Unit {0})
  create_scoped now uuid project_id name description projects t =
      let row : Scoped = record {
        id = t.next_id;
        display_id = uuid;
        project_id = project_id;
        name = name;
        description = description;
        created_at = now;
        updated_at = now;
      } in
      if not (fits name_width name && fits 256 description)
      then (burn_id t, err value_too_long)
      else if any
          (λ (r : Scoped).
            r.project_id == project_id && (r.display_id == uuid || str_eq r.name name))
          t.rows
      then (burn_id t, err unique_violation)
      else if not (any (λ (p : Project). p.id == project_id) projects)
      then (burn_id t, err foreign_key_violation)
      else (append_row t row, ok tt)

  unfoldable pub update_scoped :
      ℕ → ℕ → ℕ → String → String → Table Scoped → Table Scoped × Result Cause (Unit {0})
  unfolding update_rows
  update_scoped now project_id uuid name description t =
      let hit = λ (r : Scoped). r.project_id == project_id && r.display_id == uuid in
      if not (any hit t.rows)
      then (t, ok tt)
      else if not (fits name_width name && fits 256 description)
      then (t, err value_too_long)
      else if any
          (λ (r : Scoped). not (hit r) && (r.project_id == project_id && str_eq r.name name)) t.rows
      then (t, err unique_violation)
      else (
        record t {
          rows =
              update_rows hit
                (λ r. record r { name = name; description = description; updated_at = now }) t.rows;
        },
        ok tt,
      )

unfoldable pub get_scoped : ℕ → ℕ → Table Scoped → Result Cause Scoped
get_scoped project_id uuid t =
    one (find? (λ (r : Scoped). r.project_id == project_id && r.display_id == uuid) t.rows)

unfoldable pub list_scoped : ℕ → ℤ → ℤ → Table Scoped → Result Cause (List Scoped)
unfolding filter_rows
list_scoped project_id limit offset t = limit_offset limit offset (
    order_desc (λ (r : Scoped). r.created_at)
      (filter_rows (λ (r : Scoped). r.project_id == project_id) t.rows))

unfoldable pub create_role : ℕ → ℕ → ℕ → String → String → Db → Write
unfolding create_scoped
create_role now uuid project_id name description db =
    let (t, done) =
      create_scoped 32 now uuid project_id name description db.projects.rows db.roles in
    (record db { roles = t }, done)

unfoldable pub get_role_by_display_id : ℕ → ℕ → Db → Result Cause Scoped
unfolding get_scoped
get_role_by_display_id project_id uuid db = get_scoped project_id uuid db.roles

unfoldable pub list_roles_with_pagination : ℕ → ℤ → ℤ → Db → Result Cause (List Scoped)
list_roles_with_pagination project_id limit offset db = list_scoped project_id limit offset db.roles

unfoldable pub update_role : ℕ → ℕ → ℕ → String → String → Db → Write
unfolding update_scoped
update_role now project_id uuid name description db =
    let (t, done) = update_scoped 32 now project_id uuid name description db.roles in
    (record db { roles = t }, done)

unfoldable pub create_user_group : ℕ → ℕ → ℕ → String → String → Db → Write
unfolding create_scoped
create_user_group now uuid project_id name description db =
    let (t, done) =
      create_scoped 64 now uuid project_id name description db.projects.rows db.usergroups in
    (record db { usergroups = t }, done)

unfoldable pub get_user_group_by_display_id : ℕ → ℕ → Db → Result Cause Scoped
unfolding get_scoped
get_user_group_by_display_id project_id uuid db = get_scoped project_id uuid db.usergroups

unfoldable pub list_user_groups_with_pagination : ℕ → ℤ → ℤ → Db → Result Cause (List Scoped)
list_user_groups_with_pagination project_id limit offset db =
    list_scoped project_id limit offset db.usergroups

unfoldable pub update_user_group : ℕ → ℕ → ℕ → String → String → Db → Write
unfolding update_scoped
update_user_group now project_id uuid name description db =
    let (t, done) = update_scoped 64 now project_id uuid name description db.usergroups in
    (record db { usergroups = t }, done)

-- The inner join: a user once for each of its relations to the group.
unfoldable pub list_user_group_members : ℕ → Db → Result Cause (List User)
unfolding filter_rows
list_user_group_members usergroup_id db = ok (
    order_desc (λ (u : User). u.created_at)
      (List.flat_map
        (λ (u : User).
          map (λ (_ : UserUsergroupsRelation). u)
            (filter_rows
              (λ (uur : UserUsergroupsRelation).
                uur.user_id == u.id && uur.usergroup_id == usergroup_id)
              db.user_usergroups))
        db.users.rows))
