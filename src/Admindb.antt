-- ===== src/Admindb.antt =====
-- The admin database: the rows of pkg/db/admindb/models.go, for the tables that the queries touch,
-- as sql/schema.sql declares them.
pub mod Sql
pub mod Queries
pub mod World
pub mod Consistency
use admin_api.Base.{ℕ, String, List, []}

-- `BIGSERIAL` ids, `pgtype.UUID` display ids as 128-bit numbers, and instants. Every column is
-- NOT NULL, so `pgtype.Timestamptz` is its time.
pub record Project : Type 0 where
  pub id : ℕ
  pub display_id : ℕ
  pub name : String
  pub description : String
  pub kind : String
  pub created_at : ℕ
  pub updated_at : ℕ

pub record User : Type 0 where
  pub id : ℕ
  pub display_id : ℕ
  pub email : String
  pub created_at : ℕ
  pub updated_at : ℕ

-- `TacokumoAdminRole` and `TacokumoAdminUsergroup` have the same columns.
pub record Scoped : Type 0 where
  pub id : ℕ
  pub display_id : ℕ
  pub project_id : ℕ
  pub name : String
  pub description : String
  pub created_at : ℕ
  pub updated_at : ℕ

-- `TacokumoAdminUserUsergroupsRelation`, less its times.
pub record UserUsergroupsRelation : Type 0 where
  pub user_id : ℕ
  pub usergroup_id : ℕ

-- A table, and the next value of the sequence behind its `id`.
pub record Table (A : Type 0) : Type 0 where
  pub rows : List A
  pub next_id : ℕ

pub record Db : Type 0 where
  pub projects : Table Project
  pub users : Table User
  pub roles : Table Scoped
  pub usergroups : Table Scoped
  pub user_usergroups : List UserUsergroupsRelation

-- The schema with no rows. A sequence starts at 1.
abbrev pub empty_table : {A : Type 0} → Table A
empty_table = record { rows = []; next_id = 1 }

abbrev pub empty_db : Db
empty_db = record {
  projects = empty_table;
  users = empty_table;
  roles = empty_table;
  usergroups = empty_table;
  user_usergroups = [];
}
