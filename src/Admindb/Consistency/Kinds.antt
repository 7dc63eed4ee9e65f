-- ===== src/Admindb/Consistency/Kinds.antt =====
-- The kinds of the projects: what INSERT was given, and what no other statement changes.
use admin_api.Base.{
  ℕ, String, Bool, List, [], ◌∷◌, ◌≡◌, All, All-append, not, ◌&&◌, any, str_eq, ◌==◌, if_cases,
  refl, sym, subst, arith,
}
use admin_api.Admindb.{Project, Table, Db}
use admin_api.Admindb.Sql.{fits}
use admin_api.Admindb.Queries.{
  Write, project_clash, update_rows, create_project, update_project, create_user, update_user,
  create_role, update_role, create_user_group, update_user_group,
}
use admin_api.Service.Calls.{Admits}
use admin_api.Admindb.Consistency.Statements.{
  Statement, run_statement, insert_project, change_project, insert_user, change_user, insert_role,
  insert_group, change_role, change_group,
}

module _ (Kind : String → Type 0) where
  -- Every project has an admitted kind.
  pub record HasKinds (db : Db) : Type 0 where
    pub kinds : All (λ (p : Project). Kind p.kind) db.projects.rows

  record Kept (p : Write) : Type 0 where
    tables : HasKinds p.0

  create_project-HasKinds :
      (now uuid : ℕ) (name description kind : String) (db : Db)
      → Kind kind
      → HasKinds db
      → Kept (create_project now uuid name description kind db)
  unfolding create_project
  create_project-HasKinds now uuid name description kind db k h =
      if_cases Kept (not (fits 64 name && fits 256 description && fits 32 kind))
        (λ _. record { tables = record { kinds = h.kinds } })
        λ _.
          if_cases Kept (project_clash uuid name db.projects.rows)
            (λ _. record { tables = record { kinds = h.kinds } })
            λ _. record {
              tables = record { kinds = All-append _ db.projects.rows _ h.kinds (k, tt) };
            }

  update_rows-kinds :
      (hit : Project → Bool) (changed : Project → Project)
      → ((p : Project) → (changed p).kind ≡ p.kind)
      → (ps : List Project) → All (λ (p : Project). Kind p.kind) ps
      → All (λ (p : Project). Kind p.kind) (update_rows hit changed ps)
  unfolding update_rows
  update_rows-kinds hit changed same [] h = tt
  update_rows-kinds hit changed same (p ∷ ps) h = (
    if_cases (λ (q : Project). Kind q.kind) (hit p) (λ _. subst Kind (sym (same p)) h.0) (λ _. h.0),
    update_rows-kinds hit changed same ps h.1,
  )

  update_project-HasKinds :
      (now uuid : ℕ) (name description : String) (db : Db)
      → HasKinds db
      → Kept (update_project now uuid name description db)
  unfolding update_project
  update_project-HasKinds now uuid name description db h =
      if_cases Kept (not (any (λ (p : Project). p.display_id == uuid) db.projects.rows))
        (λ _. record { tables = h })
        λ _.
          if_cases Kept (not (fits 64 name && fits 256 description)) (λ _. record { tables = h })
            λ _.
              if_cases Kept
                (any (λ (p : Project). not (p.display_id == uuid) && str_eq p.name name)
                  db.projects.rows)
                (λ _. record { tables = h })
                λ _. record {
                  tables = record {
                    kinds =
                        update_rows-kinds (λ p. p.display_id == uuid)
                          (λ p. record p {
                            name = name;
                            description = description;
                            updated_at = now;
                          })
                          (λ p. refl) db.projects.rows h.kinds;
                  };
                }

-- The statements on other tables.
create_user_frame :
    (now uuid : ℕ) (email : String) (db : Db)
    → (create_user now uuid email db).0.projects ≡ db.projects
unfolding create_user
create_user_frame now uuid email db = ground arith

update_user_frame :
    (now uuid : ℕ) (email : String) (db : Db)
    → (update_user now uuid email db).0.projects ≡ db.projects
unfolding update_user
update_user_frame now uuid email db = ground arith

module _ (Kind : String → Type 0) where
  other_tables : {db db' : Db} → db'.projects ≡ db.projects → HasKinds Kind db → HasKinds Kind db'
  other_tables e h = record {
    kinds =
        subst (λ (t : Table Project). All (λ (p : Project). Kind p.kind) t.rows) (sym e) h.kinds;
  }

  pub statement-HasKinds :
      (s : Statement)
      → Admits Kind s
      → (now uuid : ℕ) (db : Db) → HasKinds Kind db
      → HasKinds Kind (run_statement s now uuid db).0
  unfolding create_role update_role create_user_group update_user_group
  statement-HasKinds (insert_project name description kind) k now uuid db h =
      (create_project-HasKinds Kind now uuid name description kind db k h).tables
  statement-HasKinds (change_project id name description) k now uuid db h =
      (update_project-HasKinds Kind now id name description db h).tables
  statement-HasKinds (insert_user email) k now uuid db h =
      other_tables (create_user_frame now uuid email db) h
  statement-HasKinds (change_user id email) k now uuid db h =
      other_tables (update_user_frame now id email db) h
  statement-HasKinds (insert_role project_id name description) k now uuid db h = record {
    kinds = h.kinds;
  }
  statement-HasKinds (insert_group project_id name description) k now uuid db h = record {
    kinds = h.kinds;
  }
  statement-HasKinds (change_role project_id id name description) k now uuid db h = record {
    kinds = h.kinds;
  }
  statement-HasKinds (change_group project_id id name description) k now uuid db h = record {
    kinds = h.kinds;
  }
