-- ===== src/Service/Invariant.antt =====
-- The tables stay consistent over any sequence of requests, whatever the database does to each
-- query.
use admin_api.Base.{List, [], ◌∷◌}
use admin_api.Admindb.{empty_db}
use admin_api.Admindb.Consistency.{IsConsistent, IsConsistent-empty_db}
use admin_api.Admindb.Consistency.Statements.{statement-IsConsistent}
use admin_api.Admindb.World.{World, Moment}
use admin_api.Service.Calls.{Call, create_project, AdmitsCall, after, after_all, after_keeps}
use admin_api.Service.Monad.{Pgtype}

-- No text is refused as a kind.
any_kind : (c : Call) → AdmitsCall (λ _. Unit) c
any_kind (create_project req) = tt
any_kind _ = tt

module _ (u : Pgtype) where
  after-IsConsistent : (c : Call) (w : World) → IsConsistent w.db → IsConsistent (after u c w).db
  after-IsConsistent c w h =
      after_keeps IsConsistent (λ _. Unit)
        (λ s a now uuid db k. statement-IsConsistent s now uuid k) u c (any_kind c) w h

  all_after-IsConsistent :
      (cs : List Call) (w : World) → IsConsistent w.db → IsConsistent (after_all u cs w).db
  all_after-IsConsistent [] w h = h
  all_after-IsConsistent (c ∷ cs) w h =
      all_after-IsConsistent cs (after u c w) (after-IsConsistent c w h)

  -- Any sequence of requests to the handlers, started on the schema's empty tables, with queries
  -- that fail, time out after they took effect or are answered, leaves consistent tables: positive
  -- project ids, names and display ids of projects that are unique, and a project for every role
  -- and user group.
  pub served-IsConsistent :
      (calls : List Call) (moments : List Moment)
      → IsConsistent (after_all u calls (record { db = empty_db; moments = moments })).db
  served-IsConsistent calls moments =
      all_after-IsConsistent calls (record { db = empty_db; moments = moments })
        IsConsistent-empty_db
