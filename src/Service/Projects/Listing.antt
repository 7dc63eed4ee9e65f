-- ===== src/Service/Projects/Listing.antt =====
-- What the listings answer with.
use mathlib.Core.List.{Permᴰ}
use admin_api.Base.{
  ℕ, ◌+◌, ◌-◌, ◌^◌, ◌%◌, ◌≤◌, ◌<◌, List, [], ◌∷◌, ◌++◌, ◌≡◌, ◌≢◌, refl, ap, ◌∙◌, arith, map, take,
  drop, ok,
}
use admin_api.Base.Int.{pos, negsuc, to_int32}
use admin_api.Admindb.{Project, Db}
use admin_api.Admindb.Sql.{order_desc, limit_offset}
use admin_api.Admindb.Sql.Order.{
  IsLatestFirst, order_desc-IsLatestFirst, order_desc-Perm, take-drop-add,
}
use admin_api.Admindb.Queries
use admin_api.Admindb.World.{World, query_inv}
use admin_api.Service.Monad.{Pgtype, bind_inv, wrap_inv, pure_inv}
use admin_api.Service.Types
use admin_api.Service.Projects.{list_projects, to_project}

pub to_int32_small : (n : ℕ) → n < 2 ^ 31 → to_int32 n ≡ pos n
unfolding to_int32
to_int32_small n h = ground arith

to_int32_large : (n : ℕ) → 2 ^ 31 ≤ n % 2 ^ 32 → to_int32 n ≡ negsuc (2 ^ 32 - n % 2 ^ 32 - 1)
unfolding to_int32
to_int32_large n low = ground arith

abbrev latest_first : List Project → List Project
latest_first rows = order_desc (λ (p : Project). p.created_at) rows

page_of :
    (limit offset : ℕ) (db : Db) {rows : List Project}
    → limit < 2 ^ 31
    → offset < 2 ^ 31
    → Queries.list_projects_with_pagination (to_int32 limit) (to_int32 offset) db ≡ ok rows
    → rows ≡ take limit (drop offset (latest_first db.projects.rows))
unfolding Queries.list_projects_with_pagination limit_offset
page_of limit offset db small small' h =
    cc (h, to_int32_small limit small, to_int32_small offset small')

module _ (u : Pgtype) where
  answer_of :
      (limit offset : ℕ) (w : World) {w' : World} {reply : List Types.Project}
      → limit < 2 ^ 31
      → offset < 2 ^ 31
      → list_projects u limit offset w ≡ (w', ok reply)
      → (reply ≡ map (to_project u) (take limit (drop offset (latest_first w.db.projects.rows))))
        × (w'.db ≡ w.db)
  unfolding list_projects
  answer_of limit offset w small small' h =
      let (rows, w₁, asked, done) = bind_inv _ _ h in
      let (found, kept) = query_inv _ w (wrap_inv _ _ asked) in
      let (reply, last) = pure_inv _ w₁ done in
      (
        reply ∙ ap (map (to_project u)) (page_of limit offset w.db small small' found),
        ap (λ (x : World). x.db) last ∙ kept,
      )

  -- Whatever the database does, for a limit and an offset below 2^31: the projects that
  -- `ListProjects` answers with are that page of all projects, the latest first, and nothing is
  -- changed.
  pub list_projects_page :
      (limit offset : ℕ) (w : World) {w' : World} {reply : List Types.Project}
      → limit < 2 ^ 31
      → offset < 2 ^ 31
      → list_projects u limit offset w ≡ (w', ok reply)
      → (rows : List Project) × Permᴰ w.db.projects.rows rows
        × IsLatestFirst (λ (p : Project). p.created_at) rows
        × (reply ≡ map (to_project u) (take limit (drop offset rows)))
        × (w'.db ≡ w.db)
  list_projects_page limit offset w small small' h =
      let (reply, kept) = answer_of limit offset w small small' h in
      (
        latest_first w.db.projects.rows,
        order_desc-Perm _ w.db.projects.rows,
        order_desc-IsLatestFirst _ w.db.projects.rows,
        reply,
        kept,
      )

  -- Two pages, the second asked for right behind the first, are together the page of both lengths:
  -- no project is passed over or repeated.
  pub list_projects_pages :
      (n k m : ℕ) (w v : World) {w₁ w₂ v' : World} {first second whole : List Types.Project}
      → m + (n + k) < 2 ^ 31
      → list_projects u n m w ≡ (w₁, ok first)
      → list_projects u k (m + n) w₁ ≡ (w₂, ok second)
      → v.db ≡ w.db
      → list_projects u (n + k) m v ≡ (v', ok whole)
      → first ++ second ≡ whole
  list_projects_pages n k m w v {w₁} small h₁ h₂ same h =
      let (first_is, kept) = answer_of n m w (omega arith) (omega arith) h₁ in
      let (second_is, _) = answer_of k (m + n) w₁ (omega arith) (omega arith) h₂ in
      let (whole_is, _) = answer_of (n + k) m v (omega arith) (omega arith) h in
      rw (first_is, second_is, whole_is, kept, same)
        (map-append (to_project u) (take n (drop m rows)) (take k (drop (m + n) rows))
          ∙ ap (map (to_project u)) (take-drop-add n k m rows))
    where
      rows : List Project
      rows = latest_first w.db.projects.rows

      map-append :
          {A B : Type 0} (f : A → B) (xs ys : List A) → map f xs ++ map f ys ≡ map f (xs ++ ys)
      map-append f [] ys = refl
      map-append f (x ∷ xs) ys = ap (λ zs. f x ∷ zs) (map-append f xs ys)

  -- Whatever the database does: an offset whose lowest 32 bits have the highest of them set, such as
  -- any from 2^31 to 2^32 - 1, is never answered with projects, for a limit below 2^31.
  pub list_projects_offset_wraps :
      (limit offset : ℕ) (w : World) {w' : World} {reply : List Types.Project}
      → limit < 2 ^ 31
      → 2 ^ 31 ≤ offset % 2 ^ 32
      → list_projects u limit offset w ≢ (w', ok reply)
  unfolding list_projects Queries.list_projects_with_pagination limit_offset
  list_projects_offset_wraps limit offset w small low h =
      let (rows, w₁, asked, done) = bind_inv _ _ h in
      let (found, kept) = query_inv _ w (wrap_inv _ _ asked) in
      cc (found, to_int32_small limit small, to_int32_large offset low)
