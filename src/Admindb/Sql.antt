-- ===== src/Admindb/Sql.antt =====
-- The SQL that the queries are written in: constraints of sql/schema.sql, ORDER BY, LIMIT and
-- OFFSET.
pub mod Order
use Prim.Native.String.{count}
use admin_api.Base.{
  ℕ, zero, suc, String, Bool, true, false, List, [], ◌∷◌, leb, if◌then◌else◌, take, drop, Result,
  ok, err,
}
use admin_api.Base.Int.{ℤ, pos, negsuc}

-- Why a query fails. `no_rows` is `pgx.ErrNoRows`; `unavailable` is any failure of the connection.
pub data Cause : Type 0 where
  unavailable no_rows unique_violation foreign_key_violation value_too_long : Cause
  negative_limit negative_offset invalid_uuid : Cause

-- A `VARCHAR(n)` holds the text.
abbrev pub fits : ℕ → String → Bool
fits n s = leb (count s) n

module _ {A : Type 0} (created_at : A → ℕ) where
  unfoldable pub insert_desc : A → List A → List A
  insert_desc x [] = x ∷ []
  insert_desc x (y ∷ ys) =
      let later = y ∷ insert_desc x ys in
      if leb (created_at y) (created_at x) then x ∷ y ∷ ys else later

  -- ORDER BY created_at DESC. Rows of one instant come in the order of the table; SQL leaves that
  -- order open.
  unfoldable pub order_desc : List A → List A
  unfolding insert_desc
  order_desc [] = []
  order_desc (x ∷ xs) = insert_desc x (order_desc xs)

-- LIMIT and OFFSET
unfoldable pub limit_offset : {A : Type 0} → ℤ → ℤ → List A → Result Cause (List A)
limit_offset (pos n) (pos m) rows = ok (take n (drop m rows))
limit_offset (negsuc n) m rows = err negative_limit
limit_offset (pos n) (negsuc m) rows = err negative_offset
