-- ===== src/Router/Gate.antt =====
-- The middleware in front of the router: which operations need a session. The router sees the path
-- that the middleware saw, which is so for a path without escapes.
use Prim.Native.String
use text.Mathlib.TextLemmas.{append_cancel_left}
use admin_api.Base.{
  ℕ, ◌≤◌, String, Bool, true, false, Option, some, ◌≡◌, refl, ap, ◌∙◌, str_eq, eq_iff, Bool-cases,
  inl, inr,
}
use admin_api.Base.Text.{cut_prefix, cut_prefix-append}
use admin_api.Session.{Session}
use admin_api.Session.Store.{Store}
use admin_api.Session.Store.Laws.{IsSessionStore}
use admin_api.Middleware.{Request, next, is_public_path, extract_session_id, session_middleware}
use admin_api.Middleware.Gate.{next_has_session}
use admin_api.Router.{
  Endpoint, handle_oauth_callback, initiate_login, get_liveness_check, get_readiness_check,
  get_project, update_project, list_roles, create_role, list_user_groups, create_user_group,
  get_role, update_role, get_user_group, update_user_group, dispatch, serve_http,
}
use admin_api.Router.Paths.{path_of, project_path, scoped_path}
use admin_api.Router.Laws.Dispatch.{serve_http_sound}
use admin_api.Router.Complete.{clash, cut_prefix-clash}

-- The operations that anybody may call.
abbrev pub is_open : Endpoint → Bool
is_open handle_oauth_callback = true
is_open initiate_login = true
is_open get_liveness_check = true
is_open get_readiness_check = true
is_open _ = false

differs :
    (p t s x : String)
    → clash p s ≡ true
    → str_eq
        (String.◌++◌ "/v1alpha1/" (String.◌++◌ s x))
        (String.◌++◌ "/v1alpha1/" (String.◌++◌ p t))
      ≡ false
differs p t s x h =
    elim (Bool-cases (
      str_eq (String.◌++◌ "/v1alpha1/" (String.◌++◌ s x))
        (String.◌++◌ "/v1alpha1/" (String.◌++◌ p t)))) [
          | inr other ↦ other
          | inl same ↦
              let e : String.◌++◌ s x ≡ String.◌++◌ p t =
                append_cancel_left "/v1alpha1/" (String.◌++◌ s x) (String.◌++◌ p t)
                  ((eq_iff _ _).0 same) in
              absurd (cc (cut_prefix-clash p s x h, ap (cut_prefix p) e, cut_prefix-append p t))
        ]

projects_not_public :
    (x : String) → is_public_path (String.◌++◌ "/v1alpha1/" (String.◌++◌ "projects" x)) ≡ false
unfolding is_public_path
projects_not_public x =
    let a = differs "health/" "liveness" "projects" x refl in
    let b = differs "health/" "readiness" "projects" x refl in
    let c = differs "auth/" "login" "projects" x refl in
    let d = differs "auth/" "callback" "projects" x refl in rw (a, b, c, d) refl

project_not_public : (p rest : String) → is_public_path (project_path p rest) ≡ false
project_not_public p rest = projects_not_public (String.◌++◌ "/" (String.◌++◌ p rest))

path_of_not_public : (e : Endpoint) → is_open e ≡ false → is_public_path (path_of e) ≡ false
unfolding is_public_path
path_of_not_public (get_project p) h = project_not_public p ""
path_of_not_public (update_project p) h = project_not_public p ""
path_of_not_public (list_roles p) h = project_not_public p "/roles"
path_of_not_public (create_role p) h = project_not_public p "/roles"
path_of_not_public (list_user_groups p) h = project_not_public p "/usergroups"
path_of_not_public (create_user_group p) h = project_not_public p "/usergroups"
path_of_not_public (get_role p r) h = project_not_public p (scoped_path "roles" r)
path_of_not_public (update_role p r) h = project_not_public p (scoped_path "roles" r)
path_of_not_public (get_user_group p r) h = project_not_public p (scoped_path "usergroups" r)
path_of_not_public (update_user_group p r) h = project_not_public p (scoped_path "usergroups" r)
path_of_not_public handle_oauth_callback h = cc
path_of_not_public initiate_login h = cc
path_of_not_public get_liveness_check h = cc
path_of_not_public get_readiness_check h = cc
path_of_not_public _ h = refl

module _ {S : Type 0} {store : Store S} (laws : IsSessionStore store) where
  -- A request that passes the middleware and that the router dispatches to an operation other than
  -- the login, the callback and the health checks carries the id of a session that the store holds
  -- and that has not expired, and that session is in the context of the operation.
  pub endpoint_has_session :
      (now : ℕ) (req : Request) (s : S) (found : Option Session) (method : String) (e : Endpoint)
      → is_open e ≡ false
      → session_middleware store now req s ≡ next found
      → serve_http method req.path ≡ dispatch e
      → (sess : Session) × (found ≡ some sess)
        × (laws.held now (extract_session_id req) s ≡ some sess)
        × (now ≤ sess.expires_at)
  endpoint_has_session now req s found method e closed passed routed =
      let request = serve_http_sound method req.path e routed in
      let (sess, same, given, held, fresh) =
        next_has_session laws now req s found
          (ap is_public_path request.at_path ∙ path_of_not_public e closed) passed in
      (sess, same, held, fresh)
