-- ===== src/Service/Scopes/Lists.antt =====
-- What `ListRoles` and `ListUserGroups` answer with.
use admin_api.Base.{
  Bool-cases, inl, inr, zero, suc, ℕ, ◌≤◌, ◌<◌, String, true, false, List, [], ◌∷◌, ◌≡◌, refl, ap,
  ◌∙◌, arith, map, any, All, ◌==◌, ok,
}
use admin_api.Base.Int.{ℤ, pos, negsuc}
use admin_api.Admindb.{Project, Scoped, Table, Db}
use admin_api.Admindb.Consistency.{HasProject, IsConsistent}
use admin_api.Admindb.Sql.{order_desc, limit_offset}
use admin_api.Admindb.Queries
use admin_api.Admindb.Queries.{filter_rows}
use admin_api.Admindb.Queries.Rows.{filter_rows-none}
use admin_api.Admindb.World.{World, query_inv}
use admin_api.Service.Monad.{Pgtype, bind_inv, wrap_inv, pure_inv}
use admin_api.Service.Types
use admin_api.Service.Types.{zero_project}
use admin_api.Service.Scopes.{list_roles, list_user_groups, to_role, to_user_group}

-- No project has the id 0, so no row belongs to it.
no_project_zero :
    (n : ℕ) (ps : List Project)
    → All (λ (p : Project). (1 ≤ p.id) × (p.id < n)) ps
    → any (λ (p : Project). p.id == 0) ps ≡ false
no_project_zero n [] h = refl
no_project_zero n (p ∷ ps) (h, hs) = ground (arith, no_project_zero n ps hs)

none_of_zero :
    (ps : List Project) (rs : List Scoped)
    → any (λ (p : Project). p.id == 0) ps ≡ false
    → All (HasProject ps) rs
    → any (λ (r : Scoped). r.project_id == 0) rs ≡ false
none_of_zero ps [] h k = refl
none_of_zero ps (r ∷ rs) h (k, ks) = elim (Bool-cases (r.project_id == 0)) [
  | inl e ↦
      let z : r.project_id ≡ 0 = ground arith in
      let some_zero : any (λ (p : Project). p.id == 0) ps ≡ true = rw z at k in cc
  | inr e ↦ let rest = none_of_zero ps rs h ks in rw e rest
]

page_of_none :
    (limit offset : ℤ) {rows : List Scoped} → limit_offset limit offset [] ≡ ok rows → rows ≡ []
unfolding limit_offset
page_of_none (pos zero) (pos zero) h = cc
page_of_none (pos zero) (pos (suc m)) h = cc
page_of_none (pos (suc n)) (pos zero) h = cc
page_of_none (pos (suc n)) (pos (suc m)) h = cc
page_of_none (negsuc n) offset h = cc
page_of_none (pos n) (negsuc m) h = cc

listed_none :
    (limit offset : ℤ) (db : Db) (t : Table Scoped) {rows : List Scoped}
    → IsConsistent db
    → All (HasProject db.projects.rows) t.rows
    → Queries.list_scoped 0 limit offset t ≡ ok rows
    → rows ≡ []
unfolding Queries.list_scoped order_desc
listed_none limit offset db t c owned h =
    let none_here : filter_rows (λ (r : Scoped). r.project_id == 0) t.rows ≡ [] =
      filter_rows-none _ t.rows (
        none_of_zero db.projects.rows t.rows
          (no_project_zero db.projects.next_id db.projects.rows c.ids) owned) in
    page_of_none limit offset (rw none_here at h)

module _ (u : Pgtype) (project_id : String) (limit offset : ℕ) (w : World)
    (c : IsConsistent w.db) where
  -- In consistent tables, whatever roles the project of the path has: `ListRoles` never answers with
  -- a role, since it asks for the roles of the project 0.
  pub list_roles_empty :
      {w' : World} {roles : List Types.Role}
      → list_roles u project_id limit offset w ≡ (w', ok roles)
      → roles ≡ []
  unfolding list_roles Queries.list_roles_with_pagination
  list_roles_empty h =
      let (rows, w₁, asked, done) = bind_inv _ _ h in
      let (found, kept) = query_inv _ w (wrap_inv _ _ asked) in
      let (reply, last) = pure_inv _ w₁ done in
      reply ∙ ap (map (to_role u zero_project)) (listed_none _ _ w.db w.db.roles c c.roles found)

  -- In consistent tables, whatever user groups the project of the path has: `ListUserGroups` never
  -- answers with a group, since it asks for the groups of the project 0.
  pub list_user_groups_empty :
      {w' : World} {groups : List Types.UserGroup}
      → list_user_groups u project_id limit offset w ≡ (w', ok groups)
      → groups ≡ []
  unfolding list_user_groups Queries.list_user_groups_with_pagination
  list_user_groups_empty h =
      let (rows, w₁, asked, done) = bind_inv _ _ h in
      let (found, kept) = query_inv _ w (wrap_inv _ _ asked) in
      let (reply, last) = pure_inv _ w₁ done in
      reply
      ∙ ap (map (to_user_group u zero_project []))
          (listed_none _ _ w.db w.db.usergroups c c.usergroups found)
