-- ===== src/Admindb/World.antt =====
-- pkg/db/admindb/db.go: a query goes to the server, which may fail. What the surroundings choose is
-- a list of moments, one for each query: the value of `NOW()`, the value of `uuidv7()`, and the
-- fate of the query.
use admin_api.Base.{ℕ, List, [], ◌∷◌, Result, ok, err, ◌≡◌, refl, sym, ap, ◌∙◌}
use admin_api.Admindb.{Db}
use admin_api.Admindb.Sql.{Cause, unavailable}
use admin_api.Admindb.Queries.{Write}

-- `served`: the query runs and its reply arrives. `refused`: it does not run. `lost`: it runs, and
-- the reply does not arrive.
pub data Fate : Type 0 where
  served refused lost : Fate

pub record Moment : Type 0 where
  pub now : ℕ
  pub uuid : ℕ
  pub fate : Fate

pub record World : Type 0 where
  pub db : Db
  pub moments : List Moment

-- A query in a world. When the moments have run out, the server does not answer any more.
abbrev pub Query : Type 0 → Type 0
Query A = World → World × Result Cause A

write_at : (ℕ → ℕ → Db → Write) → Moment → Fate → Db → Write
write_at statement m served db = statement m.now m.uuid db
write_at statement m refused db = (db, err unavailable)
write_at statement m lost db = ((statement m.now m.uuid db).0, err unavailable)

exec_from : (ℕ → ℕ → Db → Write) → List Moment → Db → World × Result Cause (Unit {0})
unfolding write_at
exec_from statement [] db = (record { db = db; moments = [] }, err unavailable)
exec_from statement (m ∷ ms) db =
    let (db', done) = write_at statement m m.fate db in (record { db = db'; moments = ms }, done)

-- `Exec`
unfoldable pub exec : (ℕ → ℕ → Db → Write) → Query (Unit {0})
unfolding exec_from
exec statement w = exec_from statement w.moments w.db

read_at : {A : Type 0} → Result Cause A → Fate → Result Cause A
read_at answer served = answer
read_at answer refused = err unavailable
read_at answer lost = err unavailable

query_from : {A : Type 0} → (Db → Result Cause A) → List Moment → Db → World × Result Cause A
unfolding read_at
query_from question [] db = (record { db = db; moments = [] }, err unavailable)
query_from question (m ∷ ms) db = (record { db = db; moments = ms }, read_at (question db) m.fate)

-- `Query` and `QueryRow`
unfoldable pub query : {A : Type 0} → (Db → Result Cause A) → Query A
unfolding query_from
query question w = query_from question w.moments w.db

query_from_keeps_db :
    {A : Type 0} (question : Db → Result Cause A) (ms : List Moment) (db : Db)
    → (query_from question ms db).0.db ≡ db
unfolding query_from
query_from_keeps_db question [] db = refl
query_from_keeps_db question (m ∷ ms) db = refl

-- A read leaves the tables alone, whatever its fate.
pub query_keeps_db :
    {A : Type 0} (question : Db → Result Cause A) (w : World) → (query question w).0.db ≡ w.db
unfolding query
query_keeps_db question w = query_from_keeps_db question w.moments w.db

-- A served query answers, and a served statement takes effect.
pub query_served :
    {A : Type 0} (question : Db → Result Cause A) (w : World) (m : Moment) (ms : List Moment)
    → w.moments ≡ m ∷ ms
    → m.fate ≡ served
    → query question w ≡ (record { db = w.db; moments = ms }, question w.db)
unfolding query
query_served question w m ms e f = rw (e, query_from, f, read_at) refl

pub exec_served :
    (statement : ℕ → ℕ → Db → Write) (w : World) (m : Moment) (ms : List Moment)
    → w.moments ≡ m ∷ ms
    → m.fate ≡ served
    → exec statement w ≡ (
      record { db = (statement m.now m.uuid w.db).0; moments = ms },
      (statement m.now m.uuid w.db).1,
    )
unfolding exec
exec_served statement w m ms e f = rw (e, exec_from, f, write_at) refl

pub query_runs :
    {A : Type 0} (question : Db → Result Cause A) (w : World) {m : Moment} {ms : List Moment}
    {r : Result Cause A}
    → w.moments ≡ m ∷ ms
    → m.fate ≡ served
    → question w.db ≡ r
    → query question w ≡ (record { db = w.db; moments = ms }, r)
query_runs question w {m} {ms} e f h =
    query_served question w m ms e f ∙ ap (λ x. (record { db = w.db; moments = ms }, x)) h

pub exec_runs :
    (statement : ℕ → ℕ → Db → Write) (w : World) {m : Moment} {ms : List Moment} {db' : Db}
    {r : Result Cause (Unit {0})}
    → w.moments ≡ m ∷ ms
    → m.fate ≡ served
    → statement m.now m.uuid w.db ≡ (db', r)
    → exec statement w ≡ (record { db = db'; moments = ms }, r)
exec_runs statement w {m} {ms} e f h =
    exec_served statement w m ms e f
    ∙ ap (λ (x : Write). (record { db = x.0; moments = ms }, x.1)) h

-- What an answer tells about the query.
read_at_inv :
    {A : Type 0} (answer : Result Cause A) (f : Fate) {a : A}
    → read_at answer f ≡ ok a
    → answer ≡ ok a
unfolding read_at
read_at_inv answer served h = h
read_at_inv answer refused h = cc
read_at_inv answer lost h = cc

query_from_inv :
    {A : Type 0} (question : Db → Result Cause A) (ms : List Moment) (db : Db) {w' : World} {a : A}
    → query_from question ms db ≡ (w', ok a)
    → (question db ≡ ok a) × (w'.db ≡ db)
unfolding query_from
query_from_inv {A} question [] db h = cc
query_from_inv {A} question (m ∷ ms) db h = (
  read_at_inv (question db) m.fate (ap (λ (p : World × Result Cause A). p.1) h),
  ap (λ (p : World × Result Cause A). p.0.db) (sym h),
)

pub query_inv :
    {A : Type 0} (question : Db → Result Cause A) (w : World) {w' : World} {a : A}
    → query question w ≡ (w', ok a)
    → (question w.db ≡ ok a) × (w'.db ≡ w.db)
unfolding query
query_inv question w h = query_from_inv question w.moments w.db h

-- What an acknowledgement tells about the statement: it ran, and succeeded.
write_at_inv :
    (statement : ℕ → ℕ → Db → Write) (m : Moment) (f : Fate) (db : Db) {db' : Db} {a : Unit {0}}
    → write_at statement m f db ≡ (db', ok a)
    → statement m.now m.uuid db ≡ (db', ok a)
unfolding write_at
write_at_inv statement m served db h = h
write_at_inv statement m refused db h = cc
write_at_inv statement m lost db h = cc

exec_from_inv :
    (statement : ℕ → ℕ → Db → Write) (ms : List Moment) (db : Db) {w' : World} {a : Unit {0}}
    → exec_from statement ms db ≡ (w', ok a)
    → (now uuid : ℕ) × (statement now uuid db ≡ (w'.db, ok a))
unfolding exec_from
exec_from_inv statement [] db h = cc
exec_from_inv statement (m ∷ ms) db h = (
  m.now,
  m.uuid,
  write_at_inv statement m m.fate db
      (ap (λ (p : World × Result Cause (Unit {0})). (p.0.db, p.1)) h),
)

pub exec_inv :
    (statement : ℕ → ℕ → Db → Write) (w : World) {w' : World} {a : Unit {0}}
    → exec statement w ≡ (w', ok a)
    → (now uuid : ℕ) × (statement now uuid w.db ≡ (w'.db, ok a))
unfolding exec
exec_inv statement w h = exec_from_inv statement w.moments w.db h

-- What the statement keeps is kept, whatever becomes of it.
module _ (P : Db → Type 0) (statement : ℕ → ℕ → Db → Write)
    (kept : (now uuid : ℕ) (db : Db) → P db → P (statement now uuid db).0) where
  write_at_keeps : (m : Moment) (f : Fate) (db : Db) → P db → P (write_at statement m f db).0
  unfolding write_at
  write_at_keeps m served db c = kept m.now m.uuid db c
  write_at_keeps m refused db c = c
  write_at_keeps m lost db c = kept m.now m.uuid db c

  exec_from_keeps : (ms : List Moment) (db : Db) → P db → P (exec_from statement ms db).0.db
  unfolding exec_from
  exec_from_keeps [] db c = c
  exec_from_keeps (m ∷ ms) db c = write_at_keeps m m.fate db c

  pub exec_keeps : (w : World) → P w.db → P (exec statement w).0.db
  unfolding exec
  exec_keeps w c = exec_from_keeps w.moments w.db c

-- A statement whose reply is lost takes effect all the same.
pub exec_lost :
    (statement : ℕ → ℕ → Db → Write) (w : World) {m : Moment} {ms : List Moment} {db' : Db}
    {r : Result Cause (Unit {0})}
    → w.moments ≡ m ∷ ms
    → m.fate ≡ lost
    → statement m.now m.uuid w.db ≡ (db', r)
    → exec statement w ≡ (record { db = db'; moments = ms }, err unavailable)
unfolding exec
exec_lost statement w {m} {ms} e f h =
    rw (e, exec_from, f, write_at)
      (ap (λ (x : Write). (record { db = x.0; moments = ms }, err unavailable)) h)
