-- ===== src/Admindb/Consistency/Projects.antt =====
-- The statements on projects keep the tables consistent.
use admin_api.Base.{
  ℕ, String, false, not, ◌&&◌, [], ◌∷◌, ◌≡◌, arith, any, str_eq, ◌==◌, All-append, Bool-cases, inl,
  inr,
}
use admin_api.Admindb.{Project, Db}
use admin_api.Admindb.Sql.{fits}
use admin_api.Admindb.Queries.{
  project_clash, burn_id, append_row, update_rows, create_project, update_project,
}
use admin_api.Admindb.Consistency.{
  IsConsistent, no_clash-Apart, Distinct-append, ids_below_more, HasProject-append, Distinct-update,
  ids_update, HasProject-update,
}

module _ (now uuid : ℕ) (name description kind : String) {db : Db} (c : IsConsistent db) where
  abbrev row : Project
  row = record {
    id = db.projects.next_id;
    display_id = uuid;
    name = name;
    description = description;
    kind = kind;
    created_at = now;
    updated_at = now;
  }

  burned-IsConsistent : IsConsistent (record db { projects = burn_id db.projects })
  burned-IsConsistent = record {
    sequence = omega arith;
    ids = ids_below_more db.projects.next_id db.projects.rows c.ids;
    distinct = c.distinct;
    roles = c.roles;
    usergroups = c.usergroups;
  }

  appended-IsConsistent :
      project_clash uuid name db.projects.rows ≡ false
      → IsConsistent (record db { projects = append_row db.projects row })
  appended-IsConsistent free = record {
    sequence = omega arith;
    ids =
        All-append _ db.projects.rows (row ∷ [])
          (ids_below_more db.projects.next_id db.projects.rows c.ids)
          ((c.sequence, omega arith), tt);
    distinct =
        Distinct-append db.projects.rows row c.distinct (no_clash-Apart row db.projects.rows free);
    roles = HasProject-append db.projects.rows (row ∷ []) db.roles.rows c.roles;
    usergroups = HasProject-append db.projects.rows (row ∷ []) db.usergroups.rows c.usergroups;
  }

  pub create_project-IsConsistent :
      IsConsistent (create_project now uuid name description kind db).0
  unfolding create_project
  create_project-IsConsistent =
      elim (Bool-cases (fits 64 name && fits 256 description && fits 32 kind)) [
        | inr long ↦ rw long burned-IsConsistent
        | inl short ↦ elim (Bool-cases (project_clash uuid name db.projects.rows)) [
          | inl taken ↦ rw (short, taken) burned-IsConsistent
          | inr free ↦ rw (short, free) (appended-IsConsistent free)
        ]
      ]

module _ (now uuid : ℕ) (name description : String) {db : Db} (c : IsConsistent db) where
  updated-IsConsistent :
      any (λ (p : Project). not (p.display_id == uuid) && str_eq p.name name) db.projects.rows
        ≡ false
      → IsConsistent (record db {
        projects = record db.projects {
          rows =
              update_rows
                (λ (p : Project). p.display_id == uuid)
                (λ p. record p { name = name; description = description; updated_at = now })
                db.projects.rows;
        };
      })
  updated-IsConsistent free = record {
    sequence = c.sequence;
    ids = ids_update now uuid name description db.projects.next_id db.projects.rows c.ids;
    distinct = Distinct-update now uuid name description db.projects.rows c.distinct free;
    roles = HasProject-update now uuid name description db.projects.rows db.roles.rows c.roles;
    usergroups =
        HasProject-update now uuid name description db.projects.rows db.usergroups.rows
          c.usergroups;
  }

  pub update_project-IsConsistent : IsConsistent (update_project now uuid name description db).0
  unfolding update_project
  update_project-IsConsistent =
      elim (Bool-cases (any (λ (p : Project). p.display_id == uuid) db.projects.rows)) [
        | inr absent ↦ rw absent c
        | inl present ↦ elim (Bool-cases (fits 64 name && fits 256 description)) [
          | inr long ↦ rw (present, long) c
          | inl short ↦
              elim (Bool-cases (
                any (λ (p : Project). not (p.display_id == uuid) && str_eq p.name name)
                  db.projects.rows)) [
                    | inl taken ↦ rw (present, short, taken) c
                    | inr free ↦ rw (present, short, free) (updated-IsConsistent free)
                  ]
        ]
      ]
