-- ===== src/Middleware.antt =====
-- pkg/middleware/session.go: the check of a request's session before its handler runs.
pub mod Gate
mod Tests
use admin_api.Base.{
  ℕ, String, List, [], ◌∷◌, Option, none, some, Bool, true, false, str_eq, ltb, any, if◌then◌else◌,
  Result, ok, err,
}
use admin_api.Base.Text.{cut_prefix}
use admin_api.Session.{Session}
use admin_api.Session.Store.{Store, StoreError, not_found}

-- What the middleware reads of a request: the path, the `Authorization` header ("" if there is
-- none) and the cookie `session_id`.
pub record Request : Type 0 where
  pub path : String
  pub authorization : String
  pub cookie : Option String

-- The next handler runs, with the session in its context or with none; or an `echo.HTTPError`.
pub data Verdict : Type 0 where
  next : Option Session → Verdict
  http_error : ℕ → String → Verdict

abbrev pub public_paths : List String
public_paths =
    "/v1alpha1/health/liveness" ∷ "/v1alpha1/health/readiness" ∷ "/v1alpha1/auth/login"
    ∷ "/v1alpha1/auth/callback" ∷ []

unfoldable pub is_public_path : String → Bool
is_public_path path = any (λ p. str_eq path p) public_paths

abbrev pub bearer_prefix : String
bearer_prefix = "Bearer "

-- "" stands for no session id, as in the source.
unfoldable pub extract_session_id : Request → String
unfolding cut_prefix
extract_session_id req = elim (cut_prefix bearer_prefix req.authorization) [
  | some token ↦ token
  | none ↦ elim req.cookie [ some value ↦ value | none ↦ "" ]
]

-- What the middleware answers to a store's result, at an instant.
unfoldable pub admit : ℕ → Result StoreError Session → Verdict
admit now (err not_found) = http_error 401 "invalid session"
admit now (err _) = http_error 500 "internal error"
admit now (ok sess) =
    if ltb sess.expires_at now then http_error 401 "session expired" else next (some sess)

module _ {S : Type 0} (store : Store S) where
  unfoldable pub session_middleware : ℕ → Request → S → Verdict
  session_middleware now req s =
      if is_public_path req.path
      then next none
      else let session_id = extract_session_id req in
        if str_eq session_id ""
        then http_error 401 "missing authentication"
        else admit now (store.get now session_id s)

-- `GetCurrentSession` reads what the middleware put into the context.
abbrev pub current_session : Verdict → Option Session
current_session (next found) = found
current_session (http_error status message) = none
