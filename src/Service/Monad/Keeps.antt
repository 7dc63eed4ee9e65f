-- ===== src/Service/Monad/Keeps.antt =====
-- What all statements of a handler keep, the handler keeps.
use admin_api.Base.{ℕ, String, Result, ok, err, Option, some, none, subst, sym}
use admin_api.Admindb.{Db}
use admin_api.Admindb.Queries.{Write}
use admin_api.Admindb.Sql.{Cause}
use admin_api.Admindb.World.{World, exec, exec_keeps, query, query_keeps_db}
use admin_api.Service.Monad.{
  Handler, Failure, Pgtype, pure, wrap, scan_id, scan_from, run_next, ◌>>=◌, ◌>>◌,
}

module _ (P : Db → Type 0) where
  -- Whatever becomes of its queries, the handler keeps the condition.
  pub record Keeps {A : Type 0} (h : Handler A) : Type 0 where
    pub tables : (w : World) → P w.db → P (h w).0.db

  next-Keeps :
      {A B : Type 0} (w : World) (r : Result Failure A) (f : A → Handler B)
      → ((a : A) → Keeps (f a))
      → P w.db
      → P (run_next w r f).0.db
  unfolding run_next
  next-Keeps w (ok a) f k c = (k a).tables w c
  next-Keeps w (err e) f k c = c

  pub bind-Keeps :
      {A B : Type 0} {m : Handler A} {f : A → Handler B}
      → Keeps m
      → ((a : A) → Keeps (f a))
      → Keeps (m >>= f)
  unfolding ◌>>=◌
  bind-Keeps {m = m} {f = f} h k = record {
    tables = λ w c. next-Keeps (m w).0 (m w).1 f k (h.tables w c);
  }

  pub seq-Keeps :
      {A B : Type 0} {m : Handler A} {k : Handler B} → Keeps m → Keeps k → Keeps (m >> k)
  unfolding ◌>>◌
  seq-Keeps h k = bind-Keeps h (λ _. k)

  pub pure-Keeps : {A : Type 0} {a : A} → Keeps (pure a)
  pure-Keeps = record { tables = λ w c. c }

  pub query-Keeps :
      {A : Type 0} (message : String) (question : Db → Result Cause A)
      → Keeps (wrap message (query question))
  unfolding wrap
  query-Keeps message question = record {
    tables = λ w c. subst P (sym (query_keeps_db question w)) c;
  }

  scan_from-Keeps : (o : Option ℕ) (e : Failure) (w : World) → P w.db → P (scan_from o e w).0.db
  unfolding scan_from
  scan_from-Keeps (some id) e w c = c
  scan_from-Keeps none e w c = c

  pub scan-Keeps : (u : Pgtype) (message text : String) → Keeps (scan_id u message text)
  unfolding scan_id
  scan-Keeps u message text = record { tables = λ w c. scan_from-Keeps (u.scan text) _ w c }

  pub exec-Keeps :
      (message : String) (statement : ℕ → ℕ → Db → Write)
      → ((now uuid : ℕ) (db : Db) → P db → P (statement now uuid db).0)
      → Keeps (wrap message (exec statement))
  unfolding wrap
  exec-Keeps message statement kept = record { tables = λ w c. exec_keeps P statement kept w c }
