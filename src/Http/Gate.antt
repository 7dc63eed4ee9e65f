-- ===== src/Http/Gate.antt =====
-- The security check of the generated handlers, and the session middleware in front of it.
use Prim.Native.String
use text.Mathlib.TextLemmas.{nil-append, cons-append}
use admin_api.Base.{
  ℕ, String, List, [], ◌∷◌, Option, none, some, false, ◌≡◌, ◌≢◌, refl, sym, ap, ◌∙◌, arith,
  Option-cases, inl, inr, ok,
}
use admin_api.Base.Text.{cut_prefix, cut_prefix_sound}
use admin_api.Session.{Session}
use admin_api.Session.Store.{Store}
use admin_api.Session.Store.Laws.{IsSessionStore}
use admin_api.Middleware.{
  next, is_public_path, extract_session_id, session_middleware, bearer_prefix,
}
use admin_api.Middleware.Gate.{next_has_session}
use admin_api.Http.{HttpRequest}
use admin_api.Http.Security.{
  cut, equal_fold, find_authorization, security_bearer_auth, security_cookie_auth, secure,
}
use admin_api.Http.Handlers.Serve.{first_header, as_checked}

unsecured : (req : HttpRequest) (sess : Option Session) → secure none req ≢ ok sess
unfolding secure security_bearer_auth security_cookie_auth
unsecured req sess h = ground arith

secured_same :
    (s : Session) (req : HttpRequest) (sess : Option Session)
    → secure (some s) req ≡ ok sess
    → sess ≡ some s
unfolding secure security_bearer_auth security_cookie_auth
secured_same s req sess h = ground arith

-- The check passes with a session alone, and hands it on.
pub secure_sound :
    (found : Option Session) (req : HttpRequest) {sess : Option Session}
    → secure found req ≡ ok sess
    → (s : Session) × (found ≡ some s) × (sess ≡ some s)
secure_sound (some s) req {sess} h = (s, refl, secured_same s req sess h)
secure_sound none req {sess} h = absurd (unsecured req sess h)

-- A header that the middleware reads a token from is one of the scheme `Bearer`.
find_authorization_bearer :
    (v : String) (vs : List String) {token : String}
    → cut_prefix bearer_prefix v ≡ some token
    → find_authorization (v ∷ vs) "Bearer" ≡ some token
unfolding find_authorization cut equal_fold
find_authorization_bearer v vs {token} h =
    let e : v ≡ String.◌++◌ "Bearer " token = cut_prefix_sound bearer_prefix v token h in
    rw
      (
        e, cons-append, cons-append, cons-append, cons-append, cons-append, cons-append,
        cons-append, nil-append,
      )
      refl

find_authorization-first_header :
    (vs : List String) {token : String}
    → cut_prefix bearer_prefix (first_header vs) ≡ some token
    → find_authorization vs "Bearer" ≡ some token
unfolding cut_prefix
find_authorization-first_header [] h = cc
find_authorization-first_header (v ∷ vs) h = find_authorization_bearer v vs h

-- With a session, one credential is enough.
secure_bearer :
    (s : Session) (req : HttpRequest) {token : String}
    → find_authorization req.authorization "Bearer" ≡ some token
    → secure (some s) req ≡ ok (some s)
unfolding secure security_bearer_auth security_cookie_auth
secure_bearer s req a = ground arith

secure_cookie :
    (s : Session) (req : HttpRequest) {value : String}
    → req.cookie ≡ some value
    → secure (some s) req ≡ ok (some s)
unfolding secure security_bearer_auth security_cookie_auth
secure_cookie s req c = ground arith

pub credential_secure :
    (path : String) (s : Session) (req : HttpRequest)
    → extract_session_id (as_checked path req) ≢ ""
    → secure (some s) req ≡ ok (some s)
unfolding extract_session_id
credential_secure path s req given =
    elim (Option-cases (cut_prefix bearer_prefix (first_header req.authorization))) [
      | inr (token, e) ↦ secure_bearer s req (find_authorization-first_header _ e)
      | inl e ↦ elim (Option-cases req.cookie) [
        | inr (value, c) ↦ secure_cookie s req c
        | inl c ↦ absurd (given (ground arith))
      ]
    ]

module _ {S : Type 0} {store : Store S} (laws : IsSessionStore store) where
  -- The session that the middleware admits on a path that is not public satisfies the security
  -- check of the generated handlers for the same request, and is handed on to the operation.
  pub secure-session_middleware :
      (now : ℕ) (path : String) (req : HttpRequest) (s : S) (found : Option Session)
      → is_public_path path ≡ false
      → session_middleware store now (as_checked path req) s ≡ next found
      → secure found req ≡ ok found
  secure-session_middleware now path req s found closed passed =
      let (sess, same, given, _, _) =
        next_has_session laws now (as_checked path req) s found closed passed in
      ap (λ x. secure x req) same ∙ credential_secure path sess req given ∙ ap ok (sym same)
