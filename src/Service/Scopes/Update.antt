-- ===== src/Service/Scopes/Update.antt =====
-- What an acknowledged `UpdateRole` or `UpdateUserGroup` has done.
use admin_api.Base.{
  ℕ, String, Bool, false, not, ◌&&◌, [], ◌≡◌, refl, sym, ap, ◌∙◌, arith, any, find?, str_eq, ◌==◌,
  if_cases, Result, ok, Option, some, none,
}
use mathlib.Core.Option
use admin_api.Admindb.{Project, Scoped, Table, Db}
use admin_api.Admindb.Sql.{Cause, fits}
use admin_api.Admindb.Queries
use admin_api.Admindb.Queries.{one, update_rows, update_scoped, get_scoped}
use admin_api.Admindb.Queries.Rows.{
  one_inv, update_rows-none, find?-update_rows_self, find?-update_rows_other,
}
use admin_api.Admindb.World.{World, exec_inv, query_inv}
use admin_api.Service.Monad.{Pgtype, bind_inv, seq_inv, wrap_inv, scan_inv, pure_inv}
use admin_api.Service.Types.{RoleRequest, UserGroupRequest}
use admin_api.Service.Types
use admin_api.Service.Projects.{to_project}
use admin_api.Service.Scopes.{update_role, update_user_group, to_role, to_user_group}
use admin_api.Service.Scopes.Isolation.{NamesProject, find_project_sound}

-- The change of a row, and that no row of another key is found otherwise.
abbrev pub renamed : ℕ → String → String → Scoped → Scoped
renamed now name description r = record r {
  name = name;
  description = description;
  updated_at = now;
}

abbrev pub KeepsOthers : ℕ → ℕ → Table Scoped → Table Scoped → Type 0
KeepsOthers project_id uuid t t' =
    (q id : ℕ) → (q == project_id && id == uuid) ≡ false → get_scoped q id t' ≡ get_scoped q id t

module _ (width now project_id uuid : ℕ) (name description : String) where
  abbrev hit : Scoped → Bool
  hit r = r.project_id == project_id && r.display_id == uuid

  record IsChange (t : Table Scoped) (q : Table Scoped × Result Cause (Unit {0})) : Type 0 where
    rows : q.1 ≡ ok tt → q.0.rows ≡ update_rows hit (renamed now name description) t.rows

  update_scoped-IsChange :
      (t : Table Scoped) → IsChange t (update_scoped width now project_id uuid name description t)
  unfolding update_scoped
  update_scoped-IsChange t =
      if_cases (IsChange t) (not (any hit t.rows))
        (λ absent. record { rows = λ _. sym (update_rows-none hit _ t.rows (ground arith)) })
        λ _.
          if_cases (IsChange t) (not (fits width name && fits 256 description))
            (λ _. record { rows = λ failed. cc })
            λ _.
              if_cases (IsChange t)
                (any
                  (λ (r : Scoped).
                    not (hit r) && (r.project_id == project_id && str_eq r.name name))
                  t.rows)
                (λ _. record { rows = λ failed. cc }) λ _. record { rows = λ _. refl }

  found_renamed :
      (t t' : Table Scoped) {r : Scoped}
      → t'.rows ≡ update_rows hit (renamed now name description) t.rows
      → get_scoped project_id uuid t' ≡ ok r
      → (old : Scoped) × (get_scoped project_id uuid t ≡ ok old)
        × (r ≡ renamed now name description old)
  unfolding get_scoped
  found_renamed t t' {r} rows h =
      let same =
        ap (find? hit) rows
        ∙ find?-update_rows_self hit (renamed now name description) (λ x k. k) t.rows in
      let (old, e, q) = map_inv (find? hit t.rows) (sym same ∙ one_inv _ h) in (old, ap one e, q)
    where
      map_inv :
          (o : Option Scoped)
          → Option.map (renamed now name description) o ≡ some r
          → (old : Scoped) × (o ≡ some old) × (r ≡ renamed now name description old)
      map_inv (some old) k = (old, refl, cc)
      map_inv none k = cc

  others_kept :
      (t t' : Table Scoped)
      → t'.rows ≡ update_rows hit (renamed now name description) t.rows
      → KeepsOthers project_id uuid t t'
  unfolding get_scoped
  others_kept t t' rows q id apart =
      ap (λ xs. one (find? (λ (r : Scoped). r.project_id == q && r.display_id == id) xs)) rows
      ∙ ap one (
          find?-update_rows_other hit (λ (r : Scoped). r.project_id == q && r.display_id == id)
            (renamed now name description) (λ x k. ground arith) t.rows)

module _ (now project_id uuid : ℕ) (name description : String) (db : Db) {db' : Db} where
  changed_roles :
      Queries.update_role now project_id uuid name description db ≡ (db', ok tt)
      → db'.roles.rows
        ≡ update_rows
            (hit 32 now project_id uuid name description)
            (renamed now name description)
            db.roles.rows
  unfolding Queries.update_role
  changed_roles h =
      ap (λ (q : Queries.Write). q.0.roles.rows) (sym h)
      ∙ (update_scoped-IsChange 32 now project_id uuid name description db.roles).rows
          (ap (λ (q : Queries.Write). q.1) h)

  changed_user_groups :
      Queries.update_user_group now project_id uuid name description db ≡ (db', ok tt)
      → db'.usergroups.rows
        ≡ update_rows
            (hit 64 now project_id uuid name description)
            (renamed now name description)
            db.usergroups.rows
  unfolding Queries.update_user_group
  changed_user_groups h =
      ap (λ (q : Queries.Write). q.0.usergroups.rows) (sym h)
      ∙ (update_scoped-IsChange 64 now project_id uuid name description db.usergroups).rows
          (ap (λ (q : Queries.Write). q.1) h)

module _ (u : Pgtype) (project_id : String) (w : World) where
  -- Whatever the database does: if `UpdateRole` answers, the role of the path had been there in the
  -- project of the path, the reply is that role with the request's name and description and a new
  -- time of update, and every role of another id or of another project is found as before.
  pub update_role_sound :
      (req : RoleRequest) (role_id : String) {w' : World} {reply : Types.Role}
      → update_role u req project_id role_id w ≡ (w', ok reply)
      → (p : Project) × (uuid now : ℕ) × (old : Scoped) × NamesProject u w.db project_id p
        × (u.scan role_id ≡ some uuid)
        × (get_scoped p.id uuid w.db.roles ≡ ok old)
        × (reply ≡ to_role u (to_project u p) (renamed now req.name req.description old))
        × KeepsOthers p.id uuid w.db.roles w'.db.roles
  unfolding update_role Queries.get_role_by_display_id
  update_role_sound req role_id h =
      let (p, w₁, found, h₁) = bind_inv _ _ h in
      let (uuid, w₂, scanned, h₂) = bind_inv _ _ h₁ in
      let (_, w₃, done, h₃) = seq_inv _ _ h₂ in
      let (r, w₄, asked, replied) = bind_inv _ _ h₃ in
      let (names, kept) = find_project_sound u project_id w found in
      let (reads, same) = scan_inv u _ _ w₁ scanned in
      let (now, _, ran) = exec_inv _ w₂ (wrap_inv _ _ done) in
      let (answer, kept₄) = query_inv _ w₃ (wrap_inv _ _ asked) in
      let (reply, last) = pure_inv _ w₄ replied in
      let before : w₂.db ≡ w.db = ap (λ (x : World). x.db) same ∙ kept in
      let after = ap (λ (x : World). x.db) last ∙ kept₄ in
      let rows = changed_roles now p.id uuid req.name req.description w₂.db ran in
      let (old, was, new) =
        found_renamed 32 now p.id uuid req.name req.description w₂.db.roles w₃.db.roles rows
          answer in
      (
        p,
        uuid,
        now,
        old,
        names,
        reads,
        ap (λ (db : Db). get_scoped p.id uuid db.roles) (sym before) ∙ was,
        reply ∙ ap (to_role u (to_project u p)) new,
        λ q id apart.
            ap (λ (db : Db). get_scoped q id db.roles) after
            ∙ others_kept 32 now p.id uuid req.name req.description w₂.db.roles w₃.db.roles rows q
                id apart
            ∙ ap (λ (db : Db). get_scoped q id db.roles) before,
      )

  -- Whatever the database does: if `UpdateUserGroup` answers, the user group of the path had been
  -- there in the project of the path, the reply is that group with the request's name and
  -- description, a new time of update and no members, and every user group of another id or of
  -- another project is found as before.
  pub update_user_group_sound :
      (req : UserGroupRequest) (group_id : String) {w' : World} {reply : Types.UserGroup}
      → update_user_group u req project_id group_id w ≡ (w', ok reply)
      → (p : Project) × (uuid now : ℕ) × (old : Scoped) × NamesProject u w.db project_id p
        × (u.scan group_id ≡ some uuid)
        × (get_scoped p.id uuid w.db.usergroups ≡ ok old)
        × (reply ≡ to_user_group u (to_project u p) [] (renamed now req.name req.description old))
        × KeepsOthers p.id uuid w.db.usergroups w'.db.usergroups
  unfolding update_user_group Queries.get_user_group_by_display_id
  update_user_group_sound req group_id h =
      let (p, w₁, found, h₁) = bind_inv _ _ h in
      let (uuid, w₂, scanned, h₂) = bind_inv _ _ h₁ in
      let (_, w₃, done, h₃) = seq_inv _ _ h₂ in
      let (r, w₄, asked, replied) = bind_inv _ _ h₃ in
      let (names, kept) = find_project_sound u project_id w found in
      let (reads, same) = scan_inv u _ _ w₁ scanned in
      let (now, _, ran) = exec_inv _ w₂ (wrap_inv _ _ done) in
      let (answer, kept₄) = query_inv _ w₃ (wrap_inv _ _ asked) in
      let (reply, last) = pure_inv _ w₄ replied in
      let before : w₂.db ≡ w.db = ap (λ (x : World). x.db) same ∙ kept in
      let after = ap (λ (x : World). x.db) last ∙ kept₄ in
      let rows = changed_user_groups now p.id uuid req.name req.description w₂.db ran in
      let (old, was, new) =
        found_renamed 64 now p.id uuid req.name req.description w₂.db.usergroups w₃.db.usergroups
          rows answer in
      (
        p,
        uuid,
        now,
        old,
        names,
        reads,
        ap (λ (db : Db). get_scoped p.id uuid db.usergroups) (sym before) ∙ was,
        reply ∙ ap (to_user_group u (to_project u p) []) new,
        λ q id apart.
            ap (λ (db : Db). get_scoped q id db.usergroups) after
            ∙ others_kept 64 now p.id uuid req.name req.description w₂.db.usergroups
                w₃.db.usergroups rows q id apart
            ∙ ap (λ (db : Db). get_scoped q id db.usergroups) before,
      )
