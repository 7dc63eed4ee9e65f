-- ===== src/Admindb/Consistency.antt =====
-- What sql/schema.sql makes the tables keep: ids start at 1, names and display ids are unique, and
-- every role and user group belongs to a project.
mod Projects
mod OfProject
pub mod Statements
pub mod Kinds
use admin_api.Base.{
  ℕ, suc, ◌≤◌, ◌<◌, String, Bool, true, false, not, ◌&&◌, ◌||◌, List, [], ◌∷◌, ◌++◌, ◌≡◌, ◌≢◌, ◌∙◌,
  All-append, refl, arith, any, str_eq, eq_iff, ◌==◌, if◌then◌else◌, All, Bool-cases, inl, inr,
  Result, ok, err, Option, some, none,
}
use admin_api.Admindb.{Project, User, Scoped, Table, Db, empty_db}
use admin_api.Admindb.Sql.{Cause, fits}
use admin_api.Admindb.Queries
use admin_api.Admindb.Queries.{update_rows, project_clash}

-- The project ids are positive, and below the sequence's next value.
abbrev pub HasIds : Table Project → Type 0
HasIds t = All (λ (p : Project). (1 ≤ p.id) × (p.id < t.next_id)) t.rows

-- No two projects share a name or a display id.
abbrev pub Distinct : List Project → Type 0
Distinct [] = Unit
Distinct (p ∷ ps) =
    All (λ (q : Project). (p.name ≢ q.name) × (p.display_id ≢ q.display_id)) ps × Distinct ps

-- `REFERENCES tacokumo_admin.projects(id)`
abbrev pub HasProject : List Project → Scoped → Type 0
HasProject projects r = any (λ (p : Project). p.id == r.project_id) projects ≡ true

pub record IsConsistent (db : Db) : Type 0 where
  pub sequence : 1 ≤ db.projects.next_id
  pub ids : HasIds db.projects
  pub distinct : Distinct db.projects.rows
  pub roles : All (HasProject db.projects.rows) db.roles.rows
  pub usergroups : All (HasProject db.projects.rows) db.usergroups.rows

pub IsConsistent-empty_db : IsConsistent empty_db
IsConsistent-empty_db = omega arith

abbrev Apart : Project → Project → Type 0
Apart p q = (p.name ≢ q.name) × (p.display_id ≢ q.display_id)

-- Insertion of a project.
no_clash-Apart :
    (row : Project) (ps : List Project)
    → project_clash row.display_id row.name ps ≡ false
    → All (λ p. Apart p row) ps
no_clash-Apart row [] h = tt
no_clash-Apart row (p ∷ ps) h = ground (arith, eq_iff p.name row.name, no_clash-Apart row ps)

Distinct-append :
    (ps : List Project) (row : Project)
    → Distinct ps
    → All (λ p. Apart p row) ps
    → Distinct (ps ++ row ∷ [])
Distinct-append [] row h k = (tt, tt)
Distinct-append (p ∷ ps) row (h, hs) (k, ks) =
    (All-append (Apart p) ps (row ∷ []) h (k, tt), Distinct-append ps row hs ks)

ids_below_more :
    (n : ℕ) (ps : List Project)
    → All (λ (p : Project). (1 ≤ p.id) × (p.id < n)) ps
    → All (λ (p : Project). (1 ≤ p.id) × (p.id < suc n)) ps
ids_below_more n [] h = tt
ids_below_more n (p ∷ ps) ((a, b), hs) = ((a, omega arith), ids_below_more n ps hs)

any-append_left :
    {A : Type 0} (p : A → Bool) (xs ys : List A) → any p xs ≡ true → any p (xs ++ ys) ≡ true
any-append_left p [] ys h = cc
any-append_left p (x ∷ xs) ys h = ground (arith, any-append_left p xs ys)

HasProject-append :
    (ps qs : List Project) (rs : List Scoped)
    → All (HasProject ps) rs
    → All (HasProject (ps ++ qs)) rs
HasProject-append ps qs [] h = tt
HasProject-append ps qs (r ∷ rs) (h, hs) =
    (any-append_left _ ps qs h, HasProject-append ps qs rs hs)

-- Update of a project.
module _ (now uuid : ℕ) (name description : String) where
  abbrev hit : Project → Bool
  hit p = p.display_id == uuid

  abbrev changed : Project → Project
  changed p = record p { name = name; description = description; updated_at = now }

  abbrev OthersFree : List Project → Type 0
  OthersFree ps = any (λ (p : Project). not (hit p) && str_eq p.name name) ps ≡ false

  Apart-update :
      (p : Project) (ps : List Project)
      → All (Apart p) ps
      → OthersFree (p ∷ ps)
      → All (Apart (if hit p then changed p else p)) (update_rows hit changed ps)
  unfolding update_rows
  Apart-update p [] h free = tt
  Apart-update p (q ∷ qs) h free =
      ground (arith, eq_iff p.name name, eq_iff q.name name, Apart-update p qs)

  Distinct-update :
      (ps : List Project) → Distinct ps → OthersFree ps → Distinct (update_rows hit changed ps)
  unfolding update_rows
  Distinct-update [] h free = tt
  Distinct-update (p ∷ ps) (h, hs) free =
      (Apart-update p ps h free, Distinct-update ps hs (ground arith))

  ids_update :
      (n : ℕ) (ps : List Project)
      → All (λ (p : Project). (1 ≤ p.id) × (p.id < n)) ps
      → All (λ (p : Project). (1 ≤ p.id) × (p.id < n)) (update_rows hit changed ps)
  unfolding update_rows
  ids_update n [] h = tt
  ids_update n (p ∷ ps) (h, hs) = (ground arith, ids_update n ps hs)

  any-id-update :
      (k : ℕ) (ps : List Project)
      → any (λ (p : Project). p.id == k) (update_rows hit changed ps)
        ≡ any (λ (p : Project). p.id == k) ps
  unfolding update_rows
  any-id-update k [] = refl
  any-id-update k (p ∷ ps) = ground (arith, any-id-update k ps)

  HasProject-update :
      (ps : List Project) (rs : List Scoped)
      → All (HasProject ps) rs
      → All (HasProject (update_rows hit changed ps)) rs
  HasProject-update ps [] h = tt
  HasProject-update ps (r ∷ rs) (h, hs) =
      (any-id-update r.project_id ps ∙ h, HasProject-update ps rs hs)
