-- ===== src/Service/Projects/Create.antt =====
-- What `CreateProject` does, on every branch.
use admin_api.Base.{
  Bool, true, false, not, ◌&&◌, List, [], ◌∷◌, ◌++◌, ◌≡◌, refl, ap, arith, any, find?, str_eq,
  eq_refl, ◌==◌, if◌then◌else◌, Result, ok, err, Bool-cases, inl, inr, some,
}
use admin_api.Admindb.{Project, Db}
use admin_api.Admindb.Sql.{Cause, unique_violation, value_too_long, fits}
use admin_api.Admindb.Queries
use admin_api.Admindb.Queries.{project_clash, append_row, burn_id, one}
use admin_api.Admindb.Queries.Rows.{find?-append_last}
use admin_api.Admindb.World.{World, Moment, served, exec_runs, query_runs}
use admin_api.Service.Monad.{scan_ok, Pgtype, Failure, wrap_ok, wrap_err, bind_ok, seq_ok, seq_err}
use admin_api.Service.Types.{CreateProjectRequest}
use admin_api.Service.Projects.{create_project, get_project, to_project}
use admin_api.Service.Types

-- The row that an insertion at a moment makes.
abbrev pub new_row : CreateProjectRequest → Moment → Db → Project
new_row req m db = record {
  id = db.projects.next_id;
  display_id = m.uuid;
  name = req.name;
  description = req.description;
  kind = req.kind;
  created_at = m.now;
  updated_at = m.now;
}

abbrev pub fits_columns : CreateProjectRequest → Bool
fits_columns req = fits 64 req.name && fits 256 req.description && fits 32 req.kind

abbrev burned : Db → Db
burned db = record db { projects = burn_id db.projects }

-- No row with the name before the insertion: the name finds the new row.
by_name_finds_new :
    (req : CreateProjectRequest) (m : Moment) (rows : List Project) (db : Db)
    → project_clash m.uuid req.name rows ≡ false
    → find? (λ (p : Project). str_eq p.name req.name) (rows ++ new_row req m db ∷ [])
      ≡ some (new_row req m db)
by_name_finds_new req m rows db free =
    find?-append_last _ rows (new_row req m db) (no_name rows free) (eq_refl req.name)
  where
    no_name :
        (rows : List Project)
        → project_clash m.uuid req.name rows ≡ false
        → any (λ (p : Project). str_eq p.name req.name) rows ≡ false
    no_name [] h = refl
    no_name (p ∷ ps) h = ground (arith, no_name ps)

-- The three ways in which the insertion ends.
module _ (req : CreateProjectRequest) (m : Moment) (db : Db) where
  abbrev insert : Db → Db × Result Cause (Unit {0})
  insert db = Queries.create_project m.now m.uuid req.name req.description req.kind db

  insert_long : fits_columns req ≡ false → insert db ≡ (burned db, err value_too_long)
  unfolding Queries.create_project
  insert_long long = rw long refl

  insert_taken :
      fits_columns req ≡ true
      → project_clash m.uuid req.name db.projects.rows ≡ true
      → insert db ≡ (burned db, err unique_violation)
  unfolding Queries.create_project
  insert_taken short taken = rw (short, taken) refl

  pub insert_free :
      fits_columns req ≡ true
      → project_clash m.uuid req.name db.projects.rows ≡ false
      → insert db ≡ (record db { projects = append_row db.projects (new_row req m db) }, ok tt)
  unfolding Queries.create_project
  insert_free short free = rw (short, free) refl

abbrev pub created : CreateProjectRequest → Moment → Db → Db
created req m db = record db { projects = append_row db.projects (new_row req m db) }

get_by_name_new :
    (req : CreateProjectRequest) (m : Moment) (db : Db)
    → project_clash m.uuid req.name db.projects.rows ≡ false
    → Queries.get_project_by_name req.name (created req m db) ≡ ok (new_row req m db)
unfolding Queries.get_project_by_name
get_by_name_new req m db free = ap one (by_name_finds_new req m db.projects.rows db free)

-- No row with the id before the insertion: the id finds the new row.
get_by_id_new :
    (req : CreateProjectRequest) (m : Moment) (db : Db)
    → project_clash m.uuid req.name db.projects.rows ≡ false
    → Queries.get_project_by_display_id m.uuid (created req m db) ≡ ok (new_row req m db)
unfolding Queries.get_project_by_display_id
get_by_id_new req m db free = ap one (
    find?-append_last _ db.projects.rows (new_row req m db) (no_id db.projects.rows free)
      (ground arith))
  where
    no_id :
        (rows : List Project)
        → project_clash m.uuid req.name rows ≡ false
        → any (λ (p : Project). p.display_id == m.uuid) rows ≡ false
    no_id [] h = refl
    no_id (p ∷ ps) h = ground (arith, no_id ps)

module _ (u : Pgtype) (req : CreateProjectRequest) (w : World) (m₁ m₂ : Moment) (ms : List Moment)
    (moments : w.moments ≡ m₁ ∷ m₂ ∷ ms) (served₁ : m₁.fate ≡ served)
    (served₂ : m₂.fate ≡ served) where
  -- With a database that answers, a project is created exactly if its texts fit their columns and
  -- neither its name nor its new id is taken. The reply is then the new row, and the row is the
  -- only change but for the id that every attempt uses up; otherwise the reply is the violated
  -- constraint.
  pub create_project_outcome : create_project u req w ≡ (
      if not (fits_columns req)
      then (
        record { db = burned w.db; moments = m₂ ∷ ms },
        err (record { message = "failed to create project"; cause = value_too_long }),
      )
      else if project_clash m₁.uuid req.name w.db.projects.rows
      then (
        record { db = burned w.db; moments = m₂ ∷ ms },
        err (record { message = "failed to create project"; cause = unique_violation }),
      )
      else (
        record {
          db = record w.db { projects = append_row w.db.projects (new_row req m₁ w.db) };
          moments = ms;
        },
        ok (to_project u (new_row req m₁ w.db)),
      ))
  unfolding create_project
  create_project_outcome = elim (Bool-cases (fits_columns req)) [
    | inr long ↦
        rw long (
          seq_err _ _ (wrap_err _ _ (exec_runs _ w moments served₁ (insert_long req m₁ w.db long))))
    | inl short ↦ elim (Bool-cases (project_clash m₁.uuid req.name w.db.projects.rows)) [
      | inl taken ↦
          rw (short, taken)
            (seq_err _ _
              (wrap_err _ _ (exec_runs _ w moments served₁ (insert_taken req m₁ w.db short taken))))
      | inr free ↦
          rw (short, free)
            (seq_ok _ _
              (wrap_ok _ _ (exec_runs _ w moments served₁ (insert_free req m₁ w.db short free)))
              (bind_ok _ _
                (wrap_ok _ _ (query_runs _ _ refl served₂ (get_by_name_new req m₁ w.db free)))
                refl))
    ]
  ]

  -- A project that has been created is found again under the id of the reply, provided that
  -- `pgtype.UUID` reads back the text that it wrote.
  pub get_project-create_project :
      (m₃ : Moment) (rest : List Moment)
      → ms ≡ m₃ ∷ rest
      → m₃.fate ≡ served
      → fits_columns req ≡ true
      → project_clash m₁.uuid req.name w.db.projects.rows ≡ false
      → u.scan (u.show m₁.uuid) ≡ some m₁.uuid
      → (get_project u (u.show m₁.uuid) (create_project u req w).0).1 ≡ (create_project u req w).1
  unfolding get_project
  get_project-create_project m₃ rest more served₃ short free reads =
      let outcome = create_project_outcome in
      let final : create_project u req w ≡ (
        record { db = created req m₁ w.db; moments = ms },
        ok (to_project u (new_row req m₁ w.db)),
      ) =
        rw (short, free) at outcome in
      rw final (
        ap (λ (p : World × Result Failure Types.Project). p.1)
          (bind_ok _ _ (scan_ok u _ _ _ reads) (
            bind_ok _ _ (wrap_ok _ _ (query_runs _ _ more served₃ (get_by_id_new req m₁ w.db free)))
              refl)))
