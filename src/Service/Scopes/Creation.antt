-- ===== src/Service/Scopes/Creation.antt =====
-- What an acknowledged `CreateRole` or `CreateUserGroup` has done.
use admin_api.Base.{
  ℕ, String, Bool, false, not, ◌&&◌, ◌||◌, List, [], ◌∷◌, ◌≡◌, refl, sym, ap, ◌∙◌, arith, any,
  str_eq, ◌==◌, if_cases, Result, ok,
}
use admin_api.Admindb.{Project, Scoped, Table, Db}
use admin_api.Admindb.Queries
use admin_api.Admindb.Queries.{append_row, burn_id, create_scoped}
use admin_api.Admindb.Sql.{Cause, fits}
use admin_api.Admindb.World.{World, exec_inv}
use admin_api.Service.Monad.{Pgtype, bind_inv, seq_inv, wrap_inv, pure_inv}
use admin_api.Service.Types.{RoleRequest, UserGroupRequest}
use admin_api.Service.Types
use admin_api.Service.Projects.{to_project}
use admin_api.Service.Scopes.{create_role, create_user_group}
use admin_api.Service.Scopes.Isolation.{NamesProject, find_project_sound}

abbrev pub new_row : Table Scoped → ℕ → ℕ → Project → String → String → Scoped
new_row t now uuid p name description = record {
  id = t.next_id;
  display_id = uuid;
  project_id = p.id;
  name = name;
  description = description;
  created_at = now;
  updated_at = now;
}

-- An insertion that succeeds appends the row, whose name no row of the project had.
abbrev pub name_taken : Table Scoped → Project → String → Bool
name_taken t p name = any (λ (r : Scoped). r.project_id == p.id && str_eq r.name name) t.rows

module _ (width now uuid : ℕ) (p : Project) (name description : String) (projects : List Project)
    (t : Table Scoped) where
  record IsInsertion (q : Table Scoped × Result Cause (Unit {0})) : Type 0 where
    table : q.1 ≡ ok tt → q.0 ≡ append_row t (new_row t now uuid p name description)
    fresh : q.1 ≡ ok tt → name_taken t p name ≡ false

  clash_of_name :
      (rs : List Scoped)
      → any
          (λ (r : Scoped). r.project_id == p.id && (r.display_id == uuid || str_eq r.name name))
          rs
        ≡ false
      → any (λ (r : Scoped). r.project_id == p.id && str_eq r.name name) rs ≡ false
  clash_of_name [] h = refl
  clash_of_name (r ∷ rs) h = ground (arith, clash_of_name rs)

  create_scoped-IsInsertion :
      IsInsertion (create_scoped width now uuid p.id name description projects t)
  unfolding create_scoped
  create_scoped-IsInsertion =
      if_cases IsInsertion (not (fits width name && fits 256 description))
        (λ _. record { table = λ failed. cc; fresh = λ failed. cc })
        λ _.
          if_cases IsInsertion
            (any
              (λ (r : Scoped). r.project_id == p.id && (r.display_id == uuid || str_eq r.name name))
              t.rows)
            (λ _. record { table = λ failed. cc; fresh = λ failed. cc })
            λ free.
              if_cases IsInsertion (not (any (λ (q : Project). q.id == p.id) projects))
                (λ _. record { table = λ failed. cc; fresh = λ failed. cc })
                λ _. record { table = λ _. refl; fresh = λ _. clash_of_name t.rows free }

module _ (now uuid : ℕ) (p : Project) (name description : String) (db : Db) {db' : Db} where
  inserted_role :
      Queries.create_role now uuid p.id name description db ≡ (db', ok tt)
      → (db' ≡ record db {
        roles = append_row db.roles (new_row db.roles now uuid p name description);
      })
        × (name_taken db.roles p name ≡ false)
  unfolding Queries.create_role
  inserted_role h =
      let done = ap (λ (q : Queries.Write). q.1) h in
      let i = create_scoped-IsInsertion 32 now uuid p name description db.projects.rows db.roles in
      (
        sym (ap (λ (q : Queries.Write). q.0) h)
            ∙ ap (λ (t : Table Scoped). record db { roles = t }) (i.table done),
        i.fresh done,
      )

  inserted_user_group :
      Queries.create_user_group now uuid p.id name description db ≡ (db', ok tt)
      → (db' ≡ record db {
        usergroups = append_row db.usergroups (new_row db.usergroups now uuid p name description);
      })
        × (name_taken db.usergroups p name ≡ false)
  unfolding Queries.create_user_group
  inserted_user_group h =
      let done = ap (λ (q : Queries.Write). q.1) h in
      let i =
        create_scoped-IsInsertion 64 now uuid p name description db.projects.rows db.usergroups in
      (
        sym (ap (λ (q : Queries.Write). q.0) h)
            ∙ ap (λ (t : Table Scoped). record db { usergroups = t }) (i.table done),
        i.fresh done,
      )

module _ (u : Pgtype) (project_id : String) (w : World) where
  -- Whatever the database does: if `CreateRole` answers, the project of the path is there, no role
  -- of it had the name, the row of the new role is the only change, and the reply has the texts of
  -- the request, but the empty id and the zero times.
  pub create_role_sound :
      (req : RoleRequest) {w' : World} {role : Types.Role}
      → create_role u req project_id w ≡ (w', ok role)
      → (p : Project) × (now uuid : ℕ) × NamesProject u w.db project_id p
        × (name_taken w.db.roles p req.name ≡ false)
        × (w'.db ≡ record w.db {
          roles = append_row w.db.roles (new_row w.db.roles now uuid p req.name req.description);
        })
        × (role ≡ record {
          id = "";
          name = req.name;
          description = req.description;
          project = to_project u p;
          created_at = 0;
          updated_at = 0;
        })
  unfolding create_role
  create_role_sound req {w'} h =
      let (p, w₁, found, h₁) = bind_inv _ _ h in
      let (_, w₂, done, replied) = seq_inv _ _ h₁ in
      let (names, kept) = find_project_sound u project_id w found in
      let (now, uuid, ran) = exec_inv _ w₁ (wrap_inv _ _ done) in
      let (reply, last) = pure_inv _ w₂ replied in
      let (stored, fresh) = inserted_role now uuid p req.name req.description w₁.db ran in
      (
        p,
        now,
        uuid,
        names,
        ap (λ (db : Db). name_taken db.roles p req.name) (sym kept) ∙ fresh,
        ap (λ (x : World). x.db) last
            ∙ stored
            ∙ ap
                (λ (db : Db). record db {
                  roles =
                      append_row db.roles (new_row db.roles now uuid p req.name req.description);
                })
                kept,
        reply,
      )

  -- Whatever the database does: if `CreateUserGroup` answers, the project of the path is there, no
  -- user group of it had the name, the row of the new group is the only change (the members of the
  -- request are not kept), and the reply has the empty id and the zero times.
  pub create_user_group_sound :
      (req : UserGroupRequest) {w' : World} {group : Types.UserGroup}
      → create_user_group u req project_id w ≡ (w', ok group)
      → (p : Project) × (now uuid : ℕ) × NamesProject u w.db project_id p
        × (name_taken w.db.usergroups p req.name ≡ false)
        × (w'.db ≡ record w.db {
          usergroups =
              append_row w.db.usergroups
                (new_row w.db.usergroups now uuid p req.name req.description);
        })
        × (group ≡ record {
          id = "";
          name = req.name;
          description = req.description;
          project = to_project u p;
          members = [];
          created_at = 0;
          updated_at = 0;
        })
  unfolding create_user_group
  create_user_group_sound req {w'} h =
      let (p, w₁, found, h₁) = bind_inv _ _ h in
      let (_, w₂, done, replied) = seq_inv _ _ h₁ in
      let (names, kept) = find_project_sound u project_id w found in
      let (now, uuid, ran) = exec_inv _ w₁ (wrap_inv _ _ done) in
      let (reply, last) = pure_inv _ w₂ replied in
      let (stored, fresh) = inserted_user_group now uuid p req.name req.description w₁.db ran in
      (
        p,
        now,
        uuid,
        names,
        ap (λ (db : Db). name_taken db.usergroups p req.name) (sym kept) ∙ fresh,
        ap (λ (x : World). x.db) last
            ∙ stored
            ∙ ap
                (λ (db : Db). record db {
                  usergroups =
                      append_row db.usergroups
                        (new_row db.usergroups now uuid p req.name req.description);
                })
                kept,
        reply,
      )
