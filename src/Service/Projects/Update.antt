-- ===== src/Service/Projects/Update.antt =====
-- What an acknowledged `UpdateProject` has done.
use admin_api.Base.{
  ℕ, String, Bool, not, ◌&&◌, ◌≡◌, ◌≢◌, refl, sym, ap, ◌∙◌, arith, any, find?, str_eq, ◌==◌, ok,
  Option, some, none, if_cases,
}
use mathlib.Core.Option
use admin_api.Admindb.{Project, Db}
use admin_api.Admindb.Sql.{fits}
use admin_api.Admindb.Queries
use admin_api.Admindb.Queries.{one, update_rows}
use admin_api.Admindb.Queries.Rows.{
  one_inv, update_rows-none, find?-update_rows_self, find?-update_rows_other,
}
use admin_api.Admindb.World.{World, exec_inv, query_inv}
use admin_api.Service.Monad.{Pgtype, bind_inv, seq_inv, wrap_inv, scan_inv, pure_inv}
use admin_api.Service.Types.{UpdateProjectRequest}
use admin_api.Service.Types
use admin_api.Service.Projects.{update_project, to_project}

module _ (now uuid : ℕ) (name description : String) where
  abbrev hit : Project → Bool
  hit p = p.display_id == uuid

  abbrev changed : Project → Project
  changed p = record p { name = name; description = description; updated_at = now }

  -- A statement that succeeds has changed the rows of the id, and no others.
  record IsChange (db : Db) (q : Queries.Write) : Type 0 where
    rows : q.1 ≡ ok tt → q.0.projects.rows ≡ update_rows hit changed db.projects.rows

  update_project-IsChange :
      (db : Db) → IsChange db (Queries.update_project now uuid name description db)
  unfolding Queries.update_project
  update_project-IsChange db =
      if_cases (IsChange db) (not (any hit db.projects.rows))
        (λ absent. record {
          rows = λ _. sym (update_rows-none hit changed db.projects.rows (ground arith));
        })
        λ _.
          if_cases (IsChange db) (not (fits 64 name && fits 256 description))
            (λ _. record { rows = λ failed. cc })
            λ _.
              if_cases (IsChange db)
                (any (λ (p : Project). not (hit p) && str_eq p.name name) db.projects.rows)
                (λ _. record { rows = λ failed. cc }) λ _. record { rows = λ _. refl }

  updated_rows :
      (db : Db) {db' : Db}
      → Queries.update_project now uuid name description db ≡ (db', ok tt)
      → db'.projects.rows ≡ update_rows hit changed db.projects.rows
  updated_rows db h =
      ap (λ (q : Queries.Write). q.0.projects.rows) (sym h)
      ∙ (update_project-IsChange db).rows (ap (λ (q : Queries.Write). q.1) h)

  found_changed :
      (db db' : Db) {p : Project}
      → db'.projects.rows ≡ update_rows hit changed db.projects.rows
      → Queries.get_project_by_display_id uuid db' ≡ ok p
      → (old : Project) × (Queries.get_project_by_display_id uuid db ≡ ok old) × (p ≡ changed old)
  unfolding Queries.get_project_by_display_id
  found_changed db db' {p} rows h =
      let same : find? hit db'.projects.rows ≡ Option.map changed (find? hit db.projects.rows) =
        ap (find? hit) rows ∙ find?-update_rows_self hit changed (λ x k. k) db.projects.rows in
      let (old, e, q) = map_inv (find? hit db.projects.rows) (sym same ∙ one_inv _ h) in
      (old, ap one e, q)
    where
      map_inv :
          (o : Option Project)
          → Option.map changed o ≡ some p
          → (old : Project) × (o ≡ some old) × (p ≡ changed old)
      map_inv (some old) k = (old, refl, cc)
      map_inv none k = cc

  others_unchanged :
      (other : ℕ) (db db' : Db)
      → db'.projects.rows ≡ update_rows hit changed db.projects.rows
      → other ≢ uuid
      → Queries.get_project_by_display_id other db' ≡ Queries.get_project_by_display_id other db
  unfolding Queries.get_project_by_display_id
  others_unchanged other db db' rows apart =
      ap (λ xs. one (find? (λ (p : Project). p.display_id == other) xs)) rows
      ∙ ap one (
          find?-update_rows_other hit (λ (p : Project). p.display_id == other) changed
            (λ x k. ground arith) db.projects.rows)

module _ (u : Pgtype) (req : UpdateProjectRequest) (project_id : String) (w : World) where
  -- Whatever the database does: if `UpdateProject` answers, the project of the path had been there,
  -- the reply is that project with the request's name and description and a new time of update,
  -- and the project of any other id is found as before.
  pub update_project_sound :
      {w' : World} {reply : Types.Project}
      → update_project u req project_id w ≡ (w', ok reply)
      → (uuid : ℕ) × (now : ℕ) × (old : Project) × (u.scan project_id ≡ some uuid)
        × (Queries.get_project_by_display_id uuid w.db ≡ ok old)
        × (reply
            ≡ to_project u
                (record old { name = req.name; description = req.description; updated_at = now }))
        × (((other : ℕ)
            → other ≢ uuid
            → Queries.get_project_by_display_id other w'.db
              ≡ Queries.get_project_by_display_id other w.db))
  unfolding update_project
  update_project_sound h =
      let (uuid, w₁, scanned, h₁) = bind_inv _ _ h in
      let (_, w₂, done, h₂) = seq_inv _ _ h₁ in
      let (p, w₃, asked, replied) = bind_inv _ _ h₂ in
      let (reads, same) = scan_inv u _ _ w scanned in
      let (now, uuid', changed) = exec_inv _ w₁ (wrap_inv _ _ done) in
      let (found, kept) = query_inv _ w₂ (wrap_inv _ _ asked) in
      let (reply, last) = pure_inv _ w₃ replied in
      let rows = updated_rows now uuid req.name req.description w₁.db changed in
      let (old, was, new) =
        found_changed now uuid req.name req.description w₁.db w₂.db rows found in
      (
        uuid,
        now,
        old,
        reads,
        ap (λ (x : World). Queries.get_project_by_display_id uuid x.db) (sym same) ∙ was,
        reply ∙ ap (to_project u) new,
        λ other apart.
            ap (λ (x : World). Queries.get_project_by_display_id other x.db) last
            ∙ ap (Queries.get_project_by_display_id other) kept
            ∙ others_unchanged now uuid req.name req.description other w₁.db w₂.db rows apart
            ∙ ap (λ (x : World). Queries.get_project_by_display_id other x.db) same,
      )
