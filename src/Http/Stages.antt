-- ===== src/Http/Stages.antt =====
-- How the stages of a generated handler end: the reasoning on `ErrorHandler` and `return`.
use admin_api.Base.{Result, ok, err, ◌≡◌, refl}
use admin_api.Admindb.World.{World}
use admin_api.Service.Monad.{Handler, Failure}
use admin_api.Http.{HttpError, Stage, then_run, checked, as_internal, call}

then_run_cases :
    {S A B : Type 0} (P : S × Result HttpError B → Type 0) (r : Result HttpError A)
    (k : A → Stage S B) (s : S)
    → ((e : HttpError) → r ≡ err e → P (s, err e))
    → ((a : A) → r ≡ ok a → P (k a s))
    → P (then_run r k s)
unfolding then_run
then_run_cases P (ok a) k s stopped went = went a refl
then_run_cases P (err e) k s stopped went = stopped e refl

-- A handler stops at a stage that fails, with the state as it was, or goes on.
pub checked_cases :
    {S A B : Type 0} (P : S × Result HttpError B → Type 0) (r : Result HttpError A)
    (k : A → Stage S B) (s : S)
    → ((e : HttpError) → r ≡ err e → P (s, err e))
    → ((a : A) → r ≡ ok a → P (k a s))
    → P (checked r k s)
unfolding checked
checked_cases P r k s stopped went = then_run_cases P r k s stopped went

pub checked_ok :
    {S A B : Type 0} (r : Result HttpError A) (k : A → Stage S B) (s : S) {a : A}
    → r ≡ ok a
    → checked r k s ≡ k a s
unfolding checked then_run
checked_ok r k s h = rw (h, then_run) refl

then_run_inv :
    {S A B : Type 0} (r : Result HttpError A) (k : A → Stage S B) (s : S) {s' : S} {b : B}
    → then_run r k s ≡ (s', ok b)
    → (a : A) × (r ≡ ok a) × (k a s ≡ (s', ok b))
unfolding then_run
then_run_inv (ok a) k s h = (a, refl, h)
then_run_inv (err e) k s h = cc

pub checked_inv :
    {S A B : Type 0} (r : Result HttpError A) (k : A → Stage S B) (s : S) {s' : S} {b : B}
    → checked r k s ≡ (s', ok b)
    → (a : A) × (r ≡ ok a) × (k a s ≡ (s', ok b))
unfolding checked
checked_inv r k s h = then_run_inv r k s h

as_internal_inv :
    {A : Type 0} (w w' : World) (r : Result Failure A) {a : A}
    → ◌≡◌ {A = World × Result HttpError A} (w, as_internal r) (w', ok a)
    → ◌≡◌ {A = World × Result Failure A} (w, r) (w', ok a)
unfolding as_internal
as_internal_inv w w' (ok a) h = cc
as_internal_inv w w' (err e) h = cc

-- A call that succeeds is a success of the operation.
pub call_inv :
    {A : Type 0} (m : Handler A) (w : World) {w' : World} {a : A}
    → call m w ≡ (w', ok a)
    → m w ≡ (w', ok a)
unfolding call
call_inv m w {w'} h = as_internal_inv (m w).0 w' (m w).1 h
