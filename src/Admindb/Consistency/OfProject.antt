-- ===== src/Admindb/Consistency/OfProject.antt =====
-- The statements on roles and user groups keep each of them in a project.
use admin_api.Base.{
  ℕ, String, Bool, true, false, not, ◌&&◌, ◌||◌, List, [], ◌∷◌, ◌≡◌, arith, any, str_eq, ◌==◌, All,
  All-append, Result, if_cases,
}
use admin_api.Admindb.{Project, Scoped, Table}
use admin_api.Admindb.Sql.{Cause, fits}
use admin_api.Admindb.Queries.{update_rows, create_scoped, update_scoped}
use admin_api.Admindb.Consistency.{HasProject}

any-of_not : {A : Type 0} (p : A → Bool) (xs : List A) → not (any p xs) ≡ false → any p xs ≡ true
any-of_not p xs h = ground arith

HasProject-update_rows :
    (projects : List Project) (p : Scoped → Bool) (now : ℕ) (name description : String)
    (rs : List Scoped)
    → All (HasProject projects) rs
    → All (HasProject projects) (
        update_rows p
          (λ (r : Scoped). record r { name = name; description = description; updated_at = now })
          rs)
unfolding update_rows
HasProject-update_rows projects p now name description [] h = tt
HasProject-update_rows projects p now name description (r ∷ rs) (h, hs) = (
  if_cases (HasProject projects) (p r) (λ _. h) (λ _. h),
  HasProject-update_rows projects p now name description rs hs,
)

-- The table that a statement leaves.
pub record Kept (projects : List Project) (p : Table Scoped × Result Cause (Unit {0}))
    : Type 0 where
  pub rows : All (HasProject projects) p.0.rows

-- The statements on a table whose rows belong to projects.
module _ (width now : ℕ) (projects : List Project) (t : Table Scoped)
    (h : All (HasProject projects) t.rows) where
  pub create_scoped-HasProject :
      (uuid project_id : ℕ) (name description : String)
      → Kept projects (create_scoped width now uuid project_id name description projects t)
  unfolding create_scoped
  create_scoped-HasProject uuid project_id name description =
      if_cases (Kept projects) (not (fits width name && fits 256 description))
        (λ _. record { rows = h })
        λ _.
          if_cases (Kept projects)
            (any
              (λ (r : Scoped).
                r.project_id == project_id && (r.display_id == uuid || str_eq r.name name))
              t.rows)
            (λ _. record { rows = h })
            λ _.
              if_cases (Kept projects) (not (any (λ (p : Project). p.id == project_id) projects))
                (λ _. record { rows = h })
                λ known. record {
                  rows =
                      All-append (HasProject projects) t.rows
                        (record {
                          id = t.next_id;
                          display_id = uuid;
                          project_id = project_id;
                          name = name;
                          description = description;
                          created_at = now;
                          updated_at = now;
                        }
                          ∷ [])
                        h (any-of_not (λ (p : Project). p.id == project_id) projects known, tt);
                }

  pub update_scoped-HasProject :
      (project_id uuid : ℕ) (name description : String)
      → Kept projects (update_scoped width now project_id uuid name description t)
  unfolding update_scoped
  update_scoped-HasProject project_id uuid name description =
      if_cases (Kept projects) (not (any hit t.rows)) (λ _. record { rows = h })
        λ _.
          if_cases (Kept projects) (not (fits width name && fits 256 description))
            (λ _. record { rows = h })
            λ _.
              if_cases (Kept projects)
                (any
                  (λ (r : Scoped).
                    not (hit r) && (r.project_id == project_id && str_eq r.name name))
                  t.rows)
                (λ _. record { rows = h })
                λ _. record {
                  rows = HasProject-update_rows projects hit now name description t.rows h;
                }
    where
      hit : Scoped → Bool
      hit r = r.project_id == project_id && r.display_id == uuid
