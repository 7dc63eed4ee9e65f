-- ===== src/Http/Security.antt =====
-- pkg/apis/v1alpha1/generated/oas_security_gen.go, and the check of the security requirements that
-- stands in each handler of an operation that has some.
use Prim.Native.Char.{code}
use admin_api.Base.{
  ℕ, ◌+◌, String, List, [], ◌∷◌, Option, none, some, Bool, true, false, not, ◌&&◌, ◌||◌, leb, ◌==◌,
  any, if◌then◌else◌, Result, ok, err,
}
use admin_api.Session.{Session}
use admin_api.Service.Auth.{handle_auth}
use admin_api.Http.{HttpRequest, HttpError, security, security_not_satisfied}

-- `strings.Cut(s, " ")`, `none` for no blank.
unfoldable pub cut : String → Option (String × String)
cut String.[] = none
cut (String.◌∷◌ c s) =
    let rest = cut s in
    if code c == 32
    then some ("", s)
    else elim rest [ some (before, after) ↦ some (String.◌∷◌ c before, after) | none ↦ none ]

-- A letter of A to Z goes to its small one.
abbrev pub lower : ℕ → ℕ
lower n = if leb 65 n && leb n 90 then n + 32 else n

-- `strings.EqualFold`, for a text whose letters have no other folds than the two ASCII ones.
unfoldable pub equal_fold : String → String → Bool
equal_fold String.[] String.[] = true
equal_fold String.[] (String.◌∷◌ d t) = false
equal_fold (String.◌∷◌ c s) String.[] = false
equal_fold (String.◌∷◌ c s) (String.◌∷◌ d t) =
    if lower (code c) == lower (code d) then equal_fold s t else false

-- The headers are tried in order.
unfoldable pub find_authorization : List String → String → Option String
unfolding cut equal_fold
find_authorization [] prefix = none
find_authorization (vv ∷ v) prefix =
    let rest = find_authorization v prefix in
    elim (cut vv) [
      | none ↦ rest
      | some (scheme, value) ↦ if not (equal_fold scheme prefix) then rest else some value
    ]

-- Whether the scheme is satisfied. The service never answers `ErrSkipServerSecurity`.
unfoldable pub security_bearer_auth : Option Session → HttpRequest → Result String Bool
security_bearer_auth found req = elim (find_authorization req.authorization "Bearer") [
  | none ↦ ok false
  | some token ↦ elim (handle_auth found) [ none ↦ ok true | some e ↦ err e ]
]

-- `req.Cookie` has no other error than `ErrNoCookie`.
unfoldable pub security_cookie_auth : Option Session → HttpRequest → Result String Bool
security_cookie_auth found req = elim req.cookie [
  | none ↦ ok false
  | some value ↦ elim (handle_auth found) [ none ↦ ok true | some e ↦ err e ]
]

-- The two bits of `satisfied`, and of a requirement.
abbrev pub requirements : List (Bool × Bool)
requirements = (true, false) ∷ (false, true) ∷ []

-- `satisfied[i]&mask != mask` of no byte
abbrev pub covers : Bool × Bool → Bool × Bool → Bool
covers (b, c) (p, q) = (not p || b) && (not q || c)

-- The context's session goes on to the operation.
unfoldable pub secure : Option Session → HttpRequest → Result HttpError (Option Session)
secure found req = elim (security_bearer_auth found req) [
  | err e ↦ err (security "BearerAuth" e)
  | ok bearer ↦ elim (security_cookie_auth found req) [
    | err e ↦ err (security "CookieAuth" e)
    | ok cookie ↦
        if any (covers (bearer, cookie)) requirements then ok found else err security_not_satisfied
  ]
]
