-- ===== src/Service/Scopes/Isolation.antt =====
-- A project's path reaches the roles and user groups of that project only.
use mathlib.Core.List.{Memᴰ}
use admin_api.Base.{ℕ, String, List, ◌≡◌, sym, ap, ◌∙◌, arith, map, ok, some}
use admin_api.Admindb.{Project, User, Scoped, Table, Db}
use admin_api.Admindb.Queries
use admin_api.Admindb.Queries.Rows.{find?-Mem, one_inv}
use admin_api.Admindb.World.{World, query, query_inv}
use admin_api.Service.Monad.{Pgtype, scan_id, pure_inv, bind_inv, wrap_inv, scan_inv}
use admin_api.Service.Types
use admin_api.Service.Projects.{to_project, to_user}
use admin_api.Service.Scopes.{find_project, get_role, get_user_group, to_role, to_user_group}

-- The project of a path, and the row of one of its tables that an id of the path names.
abbrev pub NamesProject : Pgtype → Db → String → Project → Type 0
NamesProject u db project_id p = Memᴰ p db.projects.rows × (u.scan project_id ≡ some p.display_id)

abbrev pub NamesRow : Pgtype → Project → Table Scoped → String → Scoped → Type 0
NamesRow u p t id r = Memᴰ r t.rows × (r.project_id ≡ p.id) × (u.scan id ≡ some r.display_id)

found_project :
    (uuid : ℕ) (db : Db) {p : Project}
    → Queries.get_project_by_display_id uuid db ≡ ok p
    → Memᴰ p db.projects.rows × (p.display_id ≡ uuid)
unfolding Queries.get_project_by_display_id
found_project uuid db h =
    let (m, q) = find?-Mem _ db.projects.rows (one_inv _ h) in (m, ground arith)

found_row :
    (project_id uuid : ℕ) (t : Table Scoped) {r : Scoped}
    → Queries.get_scoped project_id uuid t ≡ ok r
    → Memᴰ r t.rows × (r.project_id ≡ project_id) × (r.display_id ≡ uuid)
unfolding Queries.get_scoped
found_row project_id uuid t h =
    let (m, q) = find?-Mem _ t.rows (one_inv _ h) in (m, ground arith, ground arith)

module _ (u : Pgtype) (project_id : String) (w : World) where
  pub find_project_sound :
      {w' : World} {p : Project}
      → find_project u project_id w ≡ (w', ok p)
      → NamesProject u w.db project_id p × (w'.db ≡ w.db)
  unfolding find_project
  find_project_sound h =
      let (uuid, w₁, scanned, rest) = bind_inv _ _ h in
      let (reads, same) = scan_inv u _ _ w scanned in
      let (found, kept) = query_inv _ w₁ (wrap_inv _ _ rest) in
      let (m, named) = found_project uuid w.db (rw same at found) in
      ((m, reads ∙ ap some (sym named)), kept ∙ ap (λ (x : World). x.db) same)

  -- The row that an id of the path names in a table, after the project has been found.
  module _ (id_text what : String) (p : Project) (t : Db → Table Scoped) where
    row_sound :
        (w₁ : World) {w₂ w₃ : World} {uuid : ℕ} {r : Scoped}
        → w₁.db ≡ w.db
        → scan_id u what id_text w₁ ≡ (w₂, ok uuid)
        → query (λ db. Queries.get_scoped p.id uuid (t db)) w₂ ≡ (w₃, ok r)
        → NamesRow u p (t w.db) id_text r × (w₃.db ≡ w.db)
    row_sound w₁ {w₂} {w₃} {uuid} {r} kept scanned asked =
        let (reads, same) = scan_inv u _ _ w₁ scanned in
        let (found, kept₂) = query_inv _ w₂ asked in
        let unchanged : w₂.db ≡ w.db = ap (λ (x : World). x.db) same ∙ kept in
        let (m, owner, named) = found_row p.id uuid (t w.db) (rw unchanged at found) in
        ((m, owner, reads ∙ ap some (sym named)), kept₂ ∙ unchanged)

  -- Whatever the database does: a role that `GetRole` answers with is a row of the table `roles`
  -- that has the id of the path and belongs to the project of the path, and nothing is changed.
  pub get_role_sound :
      (role_id : String) {w' : World} {role : Types.Role}
      → get_role u project_id role_id w ≡ (w', ok role)
      → (p : Project) × (r : Scoped) × NamesProject u w.db project_id p
        × NamesRow u p w.db.roles role_id r
        × (role ≡ to_role u (to_project u p) r)
        × (w'.db ≡ w.db)
  unfolding get_role Queries.get_role_by_display_id
  get_role_sound role_id h =
      let (p, w₁, found, h₁) = bind_inv _ _ h in
      let (uuid, w₂, scanned, h₂) = bind_inv _ _ h₁ in
      let (r, w₃, asked, done) = bind_inv _ _ h₂ in
      let (names, kept) = find_project_sound found in
      let (row, unchanged) =
        row_sound role_id _ p (λ db. db.roles) w₁ kept scanned (wrap_inv _ _ asked) in
      let (reply, last) = pure_inv _ w₃ done in
      (p, r, names, row, reply, ap (λ (x : World). x.db) last ∙ unchanged)

  -- Whatever the database does: a user group that `GetUserGroup` answers with is a row of the table
  -- `usergroups` that has the id of the path and belongs to the project of the path, its members
  -- are the users that the relations give, and nothing is changed.
  pub get_user_group_sound :
      (group_id : String) {w' : World} {group : Types.UserGroup}
      → get_user_group u project_id group_id w ≡ (w', ok group)
      → (p : Project) × (r : Scoped) × (members : List User) × NamesProject u w.db project_id p
        × NamesRow u p w.db.usergroups group_id r
        × (Queries.list_user_group_members r.id w.db ≡ ok members)
        × (group ≡ to_user_group u (to_project u p) (map (to_user u) members) r)
        × (w'.db ≡ w.db)
  unfolding get_user_group Queries.get_user_group_by_display_id
  get_user_group_sound group_id h =
      let (p, w₁, found, h₁) = bind_inv _ _ h in
      let (uuid, w₂, scanned, h₂) = bind_inv _ _ h₁ in
      let (r, w₃, asked, h₃) = bind_inv _ _ h₂ in
      let (members, w₄, listed, done) = bind_inv _ _ h₃ in
      let (names, kept) = find_project_sound found in
      let (row, unchanged) =
        row_sound group_id _ p (λ db. db.usergroups) w₁ kept scanned (wrap_inv _ _ asked) in
      let (joined, kept₄) = query_inv _ w₃ (wrap_inv _ _ listed) in
      let (reply, last) = pure_inv _ w₄ done in
      (
        p,
        r,
        members,
        names,
        row,
        rw unchanged at joined,
        reply,
        ap (λ (x : World). x.db) last ∙ kept₄ ∙ unchanged,
      )
