-- ===== src/Http/Bounds.antt =====
-- The page that a list operation is asked for.
use admin_api.Base.{
  ℕ, suc, ◌≤◌, ◌<◌, ◌^◌, String, List, [], ◌∷◌, Option, none, some, Bool, true, ◌≡◌, refl, sym, ap,
  ◌∙◌, arith, map, length, drop, Result, ok, err,
}
use admin_api.Base.Int.{ℤ, pos, negsuc, to_int32}
use admin_api.Session.{Session}
use admin_api.Admindb
use admin_api.Admindb.Sql.{limit_offset, order_desc}
use admin_api.Admindb.Sql.Order.{length-take_le}
use admin_api.Admindb.Queries
use admin_api.Admindb.World.{World, query_inv}
use admin_api.Service.Monad.{Pgtype, bind_inv, wrap_inv, pure_inv}
use admin_api.Service.Types.{Project}
use admin_api.Service.Projects.Listing.{to_int32_small}
use admin_api.Service.Projects.{list_projects, to_project}
use admin_api.Http.{HttpRequest, HttpError, Lookup, absent, unreadable_value, present, Ogen}
use admin_api.Http.Stages.{checked_inv, call_inv}
use admin_api.Http.Gate.{secure_sound}
use admin_api.Http.Params.{Page, magnitude, decode_int, decode_page, ◌>>=◌}
use admin_api.Http.Handlers.{handle_list_projects}

-- A number from `min` to `max`, if there is a `max`.
abbrev pub InRange : ℕ → Option ℕ → ℤ → Type 0
InRange min none (pos n) = min ≤ n
InRange min (some max) (pos n) = (min ≤ n) × (n ≤ max)
InRange min max (negsuc n) = ⊥

-- `validate.Int{MinSet: true, Min: min, MaxSet: …, Max: max}`, as `ogen` documents it.
pub record ValidatesInt (o : Ogen) : Type 0 where
  pub range :
      (min : ℕ) (max : Option ℕ) (n : ℤ) → o.validate_int min max n ≡ true → InRange min max n

-- A value of the query, and the number that it spells.
pub record Given (o : Ogen) (found : Lookup) (n : ℕ) : Type 0 where
  pub value : String
  pub is_present : found ≡ present value
  pub spells : o.to_int value ≡ some (pos n)

module _ (o : Ogen) where
  decode_int_inv :
      (validate : ℤ → Bool) (name : String) (found : Lookup) {n : ℤ}
      → decode_int o validate name found ≡ ok n
      → (value : String) × (found ≡ present value) × (o.to_int value ≡ some n) × (validate n ≡ true)
  unfolding decode_int
  decode_int_inv validate name absent h = cc
  decode_int_inv validate name unreadable_value h = cc
  decode_int_inv validate name (present v) h = (v, refl, ground arith, ground arith)

  page_inv :
      (r r' : Result HttpError ℤ) {page : Page}
      → (r >>= λ limit. r' >>= λ offset. ok (record { limit = limit; offset = offset })) ≡ ok page
      → (r ≡ ok page.limit) × (r' ≡ ok page.offset)
  page_inv (ok l) (ok m) h = (cc, cc)
  page_inv (ok l) (err e) h = cc
  page_inv (err e) r' h = cc

  -- The number of a parameter that is in range, and what the query says.
  given :
      (validate : ℤ → Bool) (name : String) (found : Lookup) (n : ℕ)
      → decode_int o validate name found ≡ ok (pos n)
      → Given o found n
  given validate name found n h =
      let (value, e, spells, _) = decode_int_inv validate name found h in
      record { value = value; is_present = e; spells = spells }

  limit_range : (n : ℤ) → InRange 1 (some 100) n → (k : ℕ) × (n ≡ pos k) × (1 ≤ k) × (k ≤ 100)
  limit_range (pos k) h = (k, refl, h.0, h.1)
  limit_range (negsuc k) h = absurd h

  offset_range : (n : ℤ) → InRange 0 none n → (k : ℕ) × (n ≡ pos k)
  offset_range (pos k) h = (k, refl)
  offset_range (negsuc k) h = absurd h

  module _ (v : ValidatesInt o) where
    pub decode_page-InRange :
        (req : HttpRequest) {page : Page}
        → decode_page o req ≡ ok page
        → (limit offset : ℕ) × (page.limit ≡ pos limit)
          × (page.offset ≡ pos offset)
          × Given o (req.query "limit") limit
          × Given o (req.query "offset") offset
          × (1 ≤ limit)
          × (limit ≤ 100)
    unfolding decode_page
    decode_page-InRange req {page} h =
        let (l, m) = page_inv _ _ h in
        let (_, _, _, within) = decode_int_inv _ _ _ l in
        let (_, _, _, above) = decode_int_inv _ _ _ m in
        let (limit, l', low, high) =
          limit_range page.limit (v.range 1 (some 100) page.limit within) in
        let (offset, m') = offset_range page.offset (v.range 0 none page.offset above) in
        (
          limit,
          offset,
          l',
          m',
          given _ _ _ limit (l ∙ ap ok l'),
          given _ _ _ offset (m ∙ ap ok m'),
          low,
          high,
        )

limit_offset-length :
    {A : Type 0} (n : ℕ) (m : ℤ) (xs : List A) {ys : List A}
    → limit_offset (pos n) m xs ≡ ok ys
    → length ys ≤ n
unfolding limit_offset
limit_offset-length n (pos m) xs h = let s = length-take_le n (drop m xs) in ground arith
limit_offset-length n (negsuc m) xs h = cc

length-map : {A B : Type 0} (f : A → B) (xs : List A) → length (map f xs) ≡ length xs
length-map f [] = refl
length-map f (x ∷ xs) = ap suc (length-map f xs)

list_projects-length :
    (u : Pgtype) (limit offset : ℕ) (w : World) {w' : World} {reply : List Project}
    → limit < 2 ^ 31
    → list_projects u limit offset w ≡ (w', ok reply)
    → length reply ≤ limit
unfolding list_projects Queries.list_projects_with_pagination
list_projects-length u limit offset w {reply = reply} small h =
    let (rows, w₁, asked, done) = bind_inv _ _ h in
    let (found, kept) = query_inv _ w (wrap_inv _ _ asked) in
    let (same, last) = pure_inv _ w₁ done in
    let few : length rows ≤ limit =
      limit_offset-length limit (to_int32 offset)
        (order_desc (λ (p : Admindb.Project). p.created_at) w.db.projects.rows)
        (ap
            (λ z.
              limit_offset z (to_int32 offset)
                (order_desc (λ (p : Admindb.Project). p.created_at) w.db.projects.rows))
            (sym (to_int32_small limit small))
          ∙ found) in
    let shown : length reply ≡ length rows = ap length same ∙ length-map (to_project u) rows in
    omega arith

-- If the library's range check does what it documents, then a listing of projects that succeeds was
-- asked for by somebody with a session, the query gave both a limit from 1 to 100 and an offset that
-- is not negative, and the reply has at most that many projects.
pub list_projects_bounds :
    (o : Ogen)
    → ValidatesInt o
    → (u : Pgtype) (found : Option Session) (req : HttpRequest) (w : World) {w' : World}
      {reply : List Project}
    → handle_list_projects o u found req w ≡ (w', ok reply)
    → (sess : Session) × (limit offset : ℕ) × (found ≡ some sess)
      × Given o (req.query "limit") limit
      × Given o (req.query "offset") offset
      × (1 ≤ limit)
      × (limit ≤ 100)
      × (length reply ≤ limit)
unfolding handle_list_projects
list_projects_bounds o v u found req w h =
    let (_, secured, k) = checked_inv _ _ w h in
    let (sess, held, _) = secure_sound found req secured in
    let (page, decoded, called) = checked_inv _ _ w k in
    let (limit, offset, l, m, given_limit, given_offset, low, high) =
      decode_page-InRange o v req decoded in
    (
      sess,
      limit,
      offset,
      held,
      given_limit,
      given_offset,
      low,
      high,
      list_projects-length u limit (magnitude page.offset) w (omega arith) (
          ap (λ x. list_projects u (magnitude x) (magnitude page.offset) w) (sym l)
          ∙ call_inv _ w called),
    )
