-- ===== src/Http/Site/Validity.antt =====
-- What holds of the tables after any sequence of requests to the server.
use admin_api.Base.{ℕ, String, List, [], ◌∷◌, Option, if_cases}
use admin_api.Session.Store.{Store}
use admin_api.Admindb.{Db, empty_db}
use admin_api.Admindb.Consistency.{IsConsistent, IsConsistent-empty_db}
use admin_api.Admindb.Consistency.Statements.{statement-IsConsistent}
use admin_api.Admindb.Consistency.Kinds.{HasKinds, statement-HasKinds}
use admin_api.Admindb.World.{World, Moment}
use admin_api.Service.Calls.{after_keeps}
use admin_api.Service.Monad.{Pgtype}
use admin_api.Http.{Ogen}
use admin_api.Http.Handlers.Serve.{Backend}
use admin_api.Http.Site.{Visit, Reply, visit, is_login, is_callback}
use admin_api.Oauth.{GithubClient}
use admin_api.Http.Handlers.Effects.{IsKind, Effect, untouched, called, serve-Effect}

-- What `HasKinds` says of the program's two kinds, with the consistency of the tables.
pub record IsValid (db : Db) : Type 0 where
  pub consistent : IsConsistent db
  pub kinds : HasKinds IsKind db

empty_db-IsValid : IsValid empty_db
empty_db-IsValid = record { consistent = IsConsistent-empty_db; kinds = record { kinds = tt } }

Effect-IsValid : (u : Pgtype) {w w' : World} → Effect u w w' → IsValid w.db → IsValid w'.db
Effect-IsValid u untouched v = v
Effect-IsValid u {w} (called c admitted) v =
    after_keeps IsValid IsKind
      (λ s a now uuid db h. record {
        consistent = statement-IsConsistent s now uuid h.consistent;
        kinds = statement-HasKinds IsKind s a now uuid db h.kinds;
      })
      u c admitted w v

module _ {S : Type 0} (session_store state_store : Store S) (c : GithubClient)
    (frontend_url : String) (parse : String → Option String) (session_ttl : ℕ) (o : Ogen)
    (u : Pgtype) where
  record Leaves (p : Backend S × Reply) : Type 0 where
    tables : IsValid p.0.world.db

  visit-Leaves :
      (v : Visit) (b : Backend S)
      → IsValid b.world.db
      → Leaves (visit session_store state_store c frontend_url parse session_ttl o u v b)
  unfolding visit
  visit-Leaves v b h =
      if_cases Leaves (is_login v) (λ _. record { tables = h })
        λ _.
          if_cases Leaves (is_callback v) (λ _. record { tables = h })
            λ _. record {
              tables =
                  Effect-IsValid u
                    (serve-Effect o u session_store parse session_ttl v.now v.method v.path
                      v.request b)
                    h;
            }

  abbrev pub visit_all : List Visit → Backend S → Backend S
  visit_all [] b = b
  visit_all (v ∷ vs) b =
      visit_all vs (visit session_store state_store c frontend_url parse session_ttl o u v b).0

  visit_all_keeps :
      (visits : List Visit) (b : Backend S)
      → IsValid b.world.db
      → IsValid (visit_all visits b).world.db
  visit_all_keeps [] b h = h
  visit_all_keeps (v ∷ vs) b h = visit_all_keeps vs _ (visit-Leaves v b h).tables

  -- Any sequence of requests to a site whose tables were empty, whatever each request says and whatever
  -- the database does to each query, leaves tables that are consistent (ids positive, names and
  -- display ids of projects unique, a project for every role and user group) and in which every
  -- project has the kind "personal" or "shared", although no constraint of the schema asks for it.
  pub visit_all-IsValid :
      (visits : List Visit) (moments : List Moment) (sessions : S)
      → IsValid
          (visit_all visits (record {
            world = record { db = empty_db; moments = moments };
            sessions = sessions;
          })).world.db
  visit_all-IsValid visits moments sessions = visit_all_keeps visits _ empty_db-IsValid
