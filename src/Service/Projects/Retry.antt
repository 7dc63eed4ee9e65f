-- ===== src/Service/Projects/Retry.antt =====
-- A creation whose reply is lost, and the caller's second attempt.
use admin_api.Base.{
  ℕ, String, true, false, List, [], ◌∷◌, ◌++◌, ◌≡◌, refl, ap, ◌∙◌, arith, str_eq, eq_refl, Result,
  err,
}
use admin_api.Admindb.{Project}
use admin_api.Admindb.Sql.{unavailable, unique_violation}
use admin_api.Admindb.Queries.{project_clash}
use admin_api.Admindb.World.{World, Moment, served, lost, exec_lost}
use admin_api.Service.Monad.{Pgtype, Failure, wrap_err, seq_err}
use admin_api.Service.Types.{CreateProjectRequest}
use admin_api.Service.Types
use admin_api.Service.Projects.{create_project}
use admin_api.Service.Projects.Create.{
  new_row, fits_columns, created, insert_free, create_project_outcome,
}

clash_with_last :
    (uuid : ℕ) (name : String) (rows : List Project) (row : Project)
    → str_eq row.name name ≡ true
    → project_clash uuid name (rows ++ row ∷ []) ≡ true
clash_with_last uuid name [] row h = ground arith
clash_with_last uuid name (p ∷ ps) row h = ground (arith, clash_with_last uuid name ps row)

module _ (u : Pgtype) (req : CreateProjectRequest) (w : World) (m₁ m₂ m₃ : Moment)
    (ms : List Moment) (moments : w.moments ≡ m₁ ∷ m₂ ∷ m₃ ∷ ms) (lost₁ : m₁.fate ≡ lost)
    (served₂ : m₂.fate ≡ served) (served₃ : m₃.fate ≡ served) (short : fits_columns req ≡ true)
    (free : project_clash m₁.uuid req.name w.db.projects.rows ≡ false) where
  lost_creation : create_project u req w ≡ (
    record { db = created req m₁ w.db; moments = m₂ ∷ m₃ ∷ ms },
    err (record { message = "failed to create project"; cause = unavailable }),
  )
  unfolding create_project
  lost_creation =
      seq_err _ _ (wrap_err _ _ (exec_lost _ w moments lost₁ (insert_free req m₁ w.db short free)))

  -- Where the connection is lost after a project was inserted, the caller is told that the creation
  -- has failed, the project is there all the same, and a second attempt with the same request is
  -- refused for a name that is taken.
  pub create_project_retry :
      ((create_project u req w).1
        ≡ err (record { message = "failed to create project"; cause = unavailable }))
      × ((create_project u req w).0.db ≡ created req m₁ w.db)
      × ((create_project u req (create_project u req w).0).1
          ≡ err (record { message = "failed to create project"; cause = unique_violation }))
  create_project_retry =
      let again =
        create_project_outcome u req (record { db = created req m₁ w.db; moments = m₂ ∷ m₃ ∷ ms })
          m₂ m₃ ms refl served₂ served₃ in
      let taken =
        clash_with_last m₂.uuid req.name w.db.projects.rows (new_row req m₁ w.db)
          (eq_refl req.name) in
      (
        ap (λ (p : World × Result Failure Types.Project). p.1) lost_creation,
        ap (λ (p : World × Result Failure Types.Project). p.0.db) lost_creation,
        rw lost_creation
            (ap (λ (p : World × Result Failure Types.Project). p.1) again ∙ rw (short, taken) refl),
      )
