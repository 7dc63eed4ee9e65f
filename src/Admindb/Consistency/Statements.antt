-- ===== src/Admindb/Consistency/Statements.antt =====
-- Every statement of the queries keeps the tables consistent.
use admin_api.Base.{ℕ, String, not, ◌&&◌, ◌||◌, any, str_eq, ◌==◌, if_cases}
use admin_api.Admindb.{User, Table, Db}
use admin_api.Admindb.Sql.{fits}
use admin_api.Admindb.Queries.{
  Write, create_project, update_project, create_user, update_user, create_role, update_role,
  create_user_group, update_user_group,
}
use admin_api.Admindb.Consistency.{IsConsistent}
use admin_api.Admindb.Consistency.Projects.{
  create_project-IsConsistent, update_project-IsConsistent,
}
use admin_api.Admindb.Consistency.OfProject.{create_scoped-HasProject, update_scoped-HasProject}

-- Each of the program's statements, with its arguments.
pub data Statement : Type 0 where
  insert_project : (name description kind : String) → Statement
  change_project : (uuid : ℕ) (name description : String) → Statement
  insert_user : (email : String) → Statement
  change_user : (uuid : ℕ) (email : String) → Statement
  insert_role insert_group : (project_id : ℕ) (name description : String) → Statement
  change_role change_group : (project_id uuid : ℕ) (name description : String) → Statement

-- A statement at the values of `NOW()` and `uuidv7()`.
abbrev pub run_statement : Statement → ℕ → ℕ → Db → Write
run_statement (insert_project name description kind) now uuid db =
    create_project now uuid name description kind db
run_statement (change_project id name description) now uuid db =
    update_project now id name description db
run_statement (insert_user email) now uuid db = create_user now uuid email db
run_statement (change_user id email) now uuid db = update_user now id email db
run_statement (insert_role project_id name description) now uuid db =
    create_role now uuid project_id name description db
run_statement (insert_group project_id name description) now uuid db =
    create_user_group now uuid project_id name description db
run_statement (change_role project_id id name description) now uuid db =
    update_role now project_id id name description db
run_statement (change_group project_id id name description) now uuid db =
    update_user_group now project_id id name description db

-- The users and the relations are no part of the condition.
users-IsConsistent :
    {db : Db} (users : Table User) → IsConsistent db → IsConsistent (record db { users = users })
users-IsConsistent users c = record {
  sequence = c.sequence;
  ids = c.ids;
  distinct = c.distinct;
  roles = c.roles;
  usergroups = c.usergroups;
}

record Sound (p : Write) : Type 0 where
  tables : IsConsistent p.0

module _ (now uuid : ℕ) (email : String) {db : Db} (c : IsConsistent db) where
  create_user-Kept : Sound (create_user now uuid email db)
  unfolding create_user
  create_user-Kept =
      if_cases Sound (not (fits 256 email)) (λ _. record { tables = users-IsConsistent _ c })
        λ _.
          if_cases Sound
            (any (λ (u : User). u.display_id == uuid || str_eq u.email email) db.users.rows)
            (λ _. record { tables = users-IsConsistent _ c })
            λ _. record { tables = users-IsConsistent _ c }

  update_user-Kept : Sound (update_user now uuid email db)
  unfolding update_user
  update_user-Kept =
      if_cases Sound (not (any (λ (u : User). u.display_id == uuid) db.users.rows))
        (λ _. record { tables = c })
        λ _.
          if_cases Sound (not (fits 256 email)) (λ _. record { tables = c })
            λ _.
              if_cases Sound
                (any (λ (u : User). not (u.display_id == uuid) && str_eq u.email email)
                  db.users.rows)
                (λ _. record { tables = c }) λ _. record { tables = users-IsConsistent _ c }

-- Every statement, whether it succeeds or violates a constraint, keeps the tables consistent:
-- project ids are positive and below the next one, no two projects share a name or a display id,
-- and each role and user group belongs to a project.
pub statement-IsConsistent :
    (s : Statement) (now uuid : ℕ) {db : Db}
    → IsConsistent db
    → IsConsistent (run_statement s now uuid db).0
unfolding create_role update_role create_user_group update_user_group
statement-IsConsistent (insert_project name description kind) now uuid c =
    create_project-IsConsistent now uuid name description kind c
statement-IsConsistent (change_project id name description) now uuid c =
    update_project-IsConsistent now id name description c
statement-IsConsistent (insert_user email) now uuid c = (create_user-Kept now uuid email c).tables
statement-IsConsistent (change_user id email) now uuid c = (update_user-Kept now id email c).tables
statement-IsConsistent (insert_role project_id name description) now uuid {db} c = record {
  sequence = c.sequence;
  ids = c.ids;
  distinct = c.distinct;
  roles =
      (create_scoped-HasProject 32 now db.projects.rows db.roles c.roles uuid project_id name
        description).rows;
  usergroups = c.usergroups;
}
statement-IsConsistent (insert_group project_id name description) now uuid {db} c = record {
  sequence = c.sequence;
  ids = c.ids;
  distinct = c.distinct;
  roles = c.roles;
  usergroups =
      (create_scoped-HasProject 64 now db.projects.rows db.usergroups c.usergroups uuid project_id
        name description).rows;
}
statement-IsConsistent (change_role project_id id name description) now uuid {db} c = record {
  sequence = c.sequence;
  ids = c.ids;
  distinct = c.distinct;
  roles =
      (update_scoped-HasProject 32 now db.projects.rows db.roles c.roles project_id id name
        description).rows;
  usergroups = c.usergroups;
}
statement-IsConsistent (change_group project_id id name description) now uuid {db} c = record {
  sequence = c.sequence;
  ids = c.ids;
  distinct = c.distinct;
  roles = c.roles;
  usergroups =
      (update_scoped-HasProject 64 now db.projects.rows db.usergroups c.usergroups project_id id
        name description).rows;
}
