-- ===== src/Service/Monad.antt =====
-- A handler: queries in a row, the first error wrapped with the handler's message for it.
pub mod Keeps
use admin_api.Base.{
  ℕ, String, Option, none, some, Result, ok, err, ◌≡◌, refl, sym, ap, ◌∙◌, Option-cases, inl, inr,
}
use admin_api.Admindb.Sql.{Cause, invalid_uuid}
use admin_api.Admindb.World.{World, Query}

-- `errors.Wrapf(err, message)`
pub record Failure : Type 0 where
  pub message : String
  pub cause : Cause

abbrev pub Handler : Type 0 → Type 0
Handler A = World → World × Result Failure A

abbrev pub pure : {A : Type 0} → A → Handler A
pure a w = (w, ok a)

infixl 5 ◌>>=◌ ◌>>◌
-- A success goes on in the world that it left; a failure ends the handler.
run_next : {A B : Type 0} → World → Result Failure A → (A → Handler B) → World × Result Failure B
run_next w (ok a) f = f a w
run_next w (err e) f = (w, err e)

unfoldable pub ◌>>=◌ : {A B : Type 0} → Handler A → (A → Handler B) → Handler B
unfolding run_next
◌>>=◌ m f w = run_next (m w).0 (m w).1 f

unfoldable pub ◌>>◌ : {A B : Type 0} → Handler A → Handler B → Handler B
unfolding ◌>>=◌
◌>>◌ m k = ◌>>=◌ m (λ _. k)

wrap_result : {A : Type 0} → String → Result Cause A → Result Failure A
wrap_result message (ok a) = ok a
wrap_result message (err e) = err (record { message = message; cause = e })

unfoldable pub wrap : {A : Type 0} → String → Query A → Handler A
unfolding wrap_result
wrap message q w = ((q w).0, wrap_result message (q w).1)

-- `pgtype.UUID`, which the repository takes from `pgx`: `Scan` of a text, and `String`.
pub record Pgtype : Type 0 where
  pub scan : String → Option ℕ
  pub show : ℕ → String

scan_from : Option ℕ → Failure → World → World × Result Failure ℕ
scan_from (some id) e w = (w, ok id)
scan_from none e w = (w, err e)

-- `if err := id.Scan(text); err != nil`
unfoldable pub scan_id : Pgtype → String → String → Handler ℕ
unfolding scan_from
scan_id u message text w =
    scan_from (u.scan text) (record { message = message; cause = invalid_uuid }) w

-- How a handler runs, step by step.
module _ {A B : Type 0} (m : Handler A) {w w' : World} where
  pub bind_ok :
      (f : A → Handler B) {a : A} {r : World × Result Failure B}
      → m w ≡ (w', ok a)
      → f a w' ≡ r
      → (m >>= f) w ≡ r
  unfolding ◌>>=◌
  bind_ok f {a} h k = ap (λ (p : World × Result Failure A). run_next p.0 p.1 f) h ∙ k

  pub bind_err : (f : A → Handler B) {e : Failure} → m w ≡ (w', err e) → (m >>= f) w ≡ (w', err e)
  unfolding ◌>>=◌
  bind_err f h = ap (λ (p : World × Result Failure A). run_next p.0 p.1 f) h

  pub seq_ok :
      (k : Handler B) {a : A} {r : World × Result Failure B}
      → m w ≡ (w', ok a)
      → k w' ≡ r
      → (m >> k) w ≡ r
  unfolding ◌>>◌
  seq_ok k h = bind_ok (λ _. k) h

  pub seq_err : (k : Handler B) {e : Failure} → m w ≡ (w', err e) → (m >> k) w ≡ (w', err e)
  unfolding ◌>>◌
  seq_err k h = bind_err (λ _. k) h

module _ {A : Type 0} (message : String) (q : Query A) {w w' : World} where
  pub wrap_ok : {a : A} → q w ≡ (w', ok a) → wrap message q w ≡ (w', ok a)
  unfolding wrap
  wrap_ok h = ap (λ (p : World × Result Cause A). (p.0, wrap_result message p.1)) h

  pub wrap_err :
      {e : Cause}
      → q w ≡ (w', err e)
      → wrap message q w ≡ (w', err (record { message = message; cause = e }))
  unfolding wrap
  wrap_err h = ap (λ (p : World × Result Cause A). (p.0, wrap_result message p.1)) h

module _ (u : Pgtype) (message text : String) (w : World) where
  pub scan_ok : {id : ℕ} → u.scan text ≡ some id → scan_id u message text w ≡ (w, ok id)
  unfolding scan_id
  scan_ok h = rw (h, scan_id, scan_from) refl

  pub scan_err :
      u.scan text ≡ none
      → scan_id u message text w ≡ (w, err (record { message = message; cause = invalid_uuid }))
  unfolding scan_id
  scan_err h = rw (h, scan_id, scan_from) refl

-- What a success tells about the steps.
run_next_inv :
    {A B : Type 0} (w' : World) (r : Result Failure A) (f : A → Handler B) {w'' : World} {b : B}
    → run_next w' r f ≡ (w'', ok b)
    → (a : A) × (r ≡ ok a) × (f a w' ≡ (w'', ok b))
unfolding run_next
run_next_inv w' (ok a) f h = (a, refl, h)
run_next_inv w' (err e) f h = cc

wrap_result_inv :
    {A : Type 0} (message : String) (r : Result Cause A) {a : A}
    → wrap_result message r ≡ ok a
    → r ≡ ok a
unfolding wrap_result
wrap_result_inv message (ok a) h = cc
wrap_result_inv message (err e) h = cc

pub bind_inv :
    {A B : Type 0} (m : Handler A) (f : A → Handler B) {w w'' : World} {b : B}
    → (m >>= f) w ≡ (w'', ok b)
    → (a : A) × (w' : World) × (m w ≡ (w', ok a)) × (f a w' ≡ (w'', ok b))
unfolding ◌>>=◌
bind_inv m f {w} h =
    let (a, e, k) = run_next_inv (m w).0 (m w).1 f h in (a, (m w).0, pair_path (m w) e, k)
  where
    pair_path : {A : Type 0} (p : World × Result Failure A) {a : A} → p.1 ≡ ok a → p ≡ (p.0, ok a)
    pair_path p e = ap (λ x. (p.0, x)) e

pub seq_inv :
    {A B : Type 0} (m : Handler A) (k : Handler B) {w w'' : World} {b : B}
    → (m >> k) w ≡ (w'', ok b)
    → (a : A) × (w' : World) × (m w ≡ (w', ok a)) × (k w' ≡ (w'', ok b))
unfolding ◌>>◌
seq_inv m k h = bind_inv m (λ _. k) h

pub wrap_inv :
    {A : Type 0} (message : String) (q : Query A) {w w' : World} {a : A}
    → wrap message q w ≡ (w', ok a)
    → q w ≡ (w', ok a)
unfolding wrap
wrap_inv message q {w} {w'} {a} h =
    let left : (q w).0 ≡ w' = ap (λ (p : World × Result Failure _). p.0) h in
    let right : (q w).1 ≡ ok a =
      wrap_result_inv message (q w).1 (ap (λ (p : World × Result Failure _). p.1) h) in
    rw (sym left, sym right) refl

scan_from_inv :
    (o : Option ℕ) (e : Failure) (w : World) {w' : World} {id : ℕ}
    → scan_from o e w ≡ (w', ok id)
    → (o ≡ some id) × (w' ≡ w)
unfolding scan_from
scan_from_inv (some id) e w h = (cc, cc)
scan_from_inv none e w h = cc

pub scan_inv :
    (u : Pgtype) (message text : String) (w : World) {w' : World} {id : ℕ}
    → scan_id u message text w ≡ (w', ok id)
    → (u.scan text ≡ some id) × (w' ≡ w)
unfolding scan_id
scan_inv u message text w h = scan_from_inv (u.scan text) _ w h

pub pure_inv :
    {A : Type 0} (a : A) (w : World) {w' : World} {b : A}
    → pure a w ≡ (w', ok b)
    → (b ≡ a) × (w' ≡ w)
pure_inv a w h = (cc, cc)
