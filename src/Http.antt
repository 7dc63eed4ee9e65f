-- ===== src/Http.antt =====
-- pkg/apis/v1alpha1/generated: what the generated server does between the router and the handlers.
-- This file has what it reads of a request, its errors and the order of its stages.
pub mod Security
pub mod Params
pub mod Body
pub mod Handlers
pub mod Stages
pub mod Replies
pub mod Site
pub mod Gate
pub mod Bounds
mod Tests
use admin_api.Base.{ℕ, String, List, Option, Bool, Result, ok, err}
use admin_api.Base.Int.{ℤ}
use admin_api.Admindb.World.{World}
use admin_api.Service.Monad.{Failure, Handler}

-- A value of a JSON object. An element that is not a text is `none`.
pub data Value : Type 0 where
  text : String → Value
  array : List (Option String) → Value
  other : Value

-- What `io.ReadAll` and `jx` make of a body: an object keeps its fields in order, doubled ones too.
-- `malformed` is a text that is no document, or that goes on after it.
pub data Payload : Type 0 where
  empty unreadable malformed not_object : Payload
  object : List (String × Value) → Payload

-- What the query decoder of `ogen` answers for a name.
pub data Lookup : Type 0 where
  absent unreadable_value : Lookup
  present : String → Lookup

-- `content_type` is `none` where `mime.ParseMediaType` fails.
pub record HttpRequest : Type 0 where
  pub authorization : List String
  pub cookie : Option String
  pub escaped : Bool
  pub query : String → Lookup
  pub content_type : Option String
  pub body : Payload

-- The functions of `net/url` and `ogen` that the decoders call.
pub record Ogen : Type 0 where
  pub path_unescape : String → Option String
  pub path_value : String → Option String
  pub to_int : String → Option ℤ
  pub validate_int : ℕ → Option ℕ → ℤ → Bool
  pub is_email : String → Bool

pub data RequestError : Type 0 where
  media_type body_required read_failed decode_body validate_failed : RequestError
  invalid_content_type : String → RequestError

-- The error that `ErrorHandler` gets.
pub data HttpError : Type 0 where
  security : String → String → HttpError
  security_not_satisfied : HttpError
  decode_params : String → HttpError
  decode_request : RequestError → HttpError
  internal : Failure → HttpError

-- A stage of a generated handler over a state.
abbrev pub Stage : Type 0 → Type 0 → Type 0
Stage S A = S → S × Result HttpError A

then_run : {S A B : Type 0} → Result HttpError A → (A → Stage S B) → Stage S B
then_run (ok a) k s = k a s
then_run (err e) k s = (s, err e)

-- `if err != nil { …; s.cfg.ErrorHandler(ctx, w, r, err); return }`
unfoldable pub checked : {S A B : Type 0} → Result HttpError A → (A → Stage S B) → Stage S B
unfolding then_run
checked r k = then_run r k

as_internal : {A : Type 0} → Result Failure A → Result HttpError A
as_internal (ok a) = ok a
as_internal (err e) = err (internal e)

-- The call of the operation, whose error is an internal one.
unfoldable pub call : {A : Type 0} → Handler A → Stage World A
unfolding as_internal
call m w = ((m w).0, as_internal (m w).1)
