-- ===== src/Router/Complete.antt =====
-- Every request for an operation is dispatched to it.
use Prim.Native.Char.{code}
use Prim.Native.String
use text.Mathlib.TextLemmas.{append-nil, nil-append, cons-append, cons-ne-nil}
use admin_api.Base.{
  String, Bool, true, false, ◌==◌, none, Bool-cases, inl, inr, ◌≡◌, refl, sym, ap, ◌∙◌, arith,
  str_eq, eq_iff, if◌then◌else◌,
}
use admin_api.Base.Text.{cut_prefix, cut_prefix-append}
use admin_api.Router.{
  Endpoint, handle_oauth_callback, initiate_login, logout, get_current_user, refresh_token,
  get_liveness_check, get_readiness_check, list_projects, create_project, list_users, create_user,
  get_project, update_project, list_roles, create_role, list_user_groups, create_user_group,
  get_role, update_role, get_user_group, update_user_group, Routed, dispatch, at_prefix, at_end,
  on_method, get_put, cut_segment, route_auth, route_health, last_argument, route_roles,
  route_user_groups, route_project, route_projects, serve_http,
}
use admin_api.Router.Paths.{method_of, path_of, has_slash, HasSegments}

-- The texts differ at a place that both have.
abbrev pub clash : String → String → Bool
clash String.[] s = false
clash (String.◌∷◌ c p) String.[] = false
clash (String.◌∷◌ c p) (String.◌∷◌ d s) = if code c == code d then clash p s else true

pub cut_prefix-clash : (p s x : String) → clash p s ≡ true → cut_prefix p (String.◌++◌ s x) ≡ none
unfolding cut_prefix
cut_prefix-clash String.[] s x h = cc
cut_prefix-clash (String.◌∷◌ c p) String.[] x h = cc
cut_prefix-clash (String.◌∷◌ c p) (String.◌∷◌ d s) x h =
    rw cons-append (ground (arith, cut_prefix-clash p s x))

at_prefix_hit :
    (p s : String) (f : String → Routed) (g : Routed) → at_prefix p (String.◌++◌ p s) f g ≡ f s
unfolding at_prefix
at_prefix_hit p s f g = rw (cut_prefix-append p s, at_prefix) refl

at_prefix_miss :
    (p s x : String) (f : String → Routed) (g : Routed)
    → clash p s ≡ true
    → at_prefix p (String.◌++◌ s x) f g ≡ g
unfolding at_prefix
at_prefix_miss p s x f g h = rw (cut_prefix-clash p s x h, at_prefix) refl

slash_cons : (x : String) → String.◌++◌ "/" x ≡ String.◌∷◌ "/" x
slash_cons x = cons-append "/" "" x ∙ ap (String.◌∷◌ "/") (nil-append x)

slash_not_empty : (x : String) → str_eq (String.◌++◌ "/" x) "" ≡ false
slash_not_empty x = elim (Bool-cases (str_eq (String.◌++◌ "/" x) "")) [
  | inr more ↦ more
  | inl empty ↦
      absurd (cons-ne-nil "/" x (sym (slash_cons x) ∙ (eq_iff (String.◌++◌ "/" x) "").0 empty))
]

at_end_slash :
    (x : String) (here otherwise : Routed) → at_end (String.◌++◌ "/" x) here otherwise ≡ otherwise
unfolding at_end
at_end_slash x here otherwise = rw (slash_not_empty x, at_end) refl

-- Where a segment ends: at the end of the path, or at a "/".
cut_segment_all : (s : String) → has_slash s ≡ false → cut_segment s ≡ (s, "")
unfolding cut_segment
cut_segment_all String.[] h = refl
cut_segment_all (String.◌∷◌ c s) h = ground (arith, cut_segment_all s)

cut_segment_front :
    (s x : String)
    → has_slash s ≡ false
    → cut_segment (String.◌++◌ s (String.◌++◌ "/" x)) ≡ (s, String.◌++◌ "/" x)
unfolding cut_segment
cut_segment_front String.[] x h = rw (nil-append, slash_cons x, cut_segment) refl
cut_segment_front (String.◌∷◌ c s) x h = rw cons-append (ground (arith, cut_segment_front s x))

infixr 30 ◌/◌
abbrev ◌/◌ : String → String → String
a / b = String.◌++◌ a b

module _ (method : String) where
  to_projects :
      (rest : String)
      → serve_http method ("/v1alpha1/" / "projects" / rest) ≡ route_projects method rest
  unfolding serve_http
  to_projects rest =
      at_prefix_hit "/v1alpha1/" _ _ _
      ∙ at_prefix_miss "auth/" "projects" rest _ _ refl
      ∙ at_prefix_miss "health/" "projects" rest _ _ refl
      ∙ at_prefix_hit "projects" rest _ _

  to_project :
      (p rest : String)
      → cut_segment (p / rest) ≡ (p, rest)
      → serve_http method ("/v1alpha1/" / "projects" / "/" / p / rest) ≡ route_project method p rest
  unfolding route_projects
  to_project p rest cut =
      to_projects ("/" / p / rest)
      ∙ at_end_slash (p / rest) _ _
      ∙ at_prefix_hit "/" (p / rest) _ _
      ∙ ap (λ (c : String × String). route_project method c.0 c.1) cut

  module _ (p : String) (one : has_slash p ≡ false) where
    -- The project itself.
    at_project :
        serve_http method ("/v1alpha1/" / "projects" / "/" / p / "")
        ≡ get_put (get_project p) (update_project p) method
    unfolding route_project at_end
    at_project = to_project p "" (ap cut_segment (append-nil p) ∙ cut_segment_all p one)

    to_roles :
        (rest : String)
        → serve_http method ("/v1alpha1/" / "projects" / "/" / p / "/" / "roles" / rest)
          ≡ route_roles method p rest
    unfolding route_project
    to_roles rest =
        to_project p ("/" / "roles" / rest) (cut_segment_front p ("roles" / rest) one)
        ∙ at_end_slash ("roles" / rest) _ _
        ∙ at_prefix_hit "/" ("roles" / rest) _ _
        ∙ at_prefix_hit "roles" rest _ _

    to_user_groups :
        (rest : String)
        → serve_http method ("/v1alpha1/" / "projects" / "/" / p / "/" / "usergroups" / rest)
          ≡ route_user_groups method p rest
    unfolding route_project
    to_user_groups rest =
        to_project p ("/" / "usergroups" / rest) (cut_segment_front p ("usergroups" / rest) one)
        ∙ at_end_slash ("usergroups" / rest) _ _
        ∙ at_prefix_hit "/" ("usergroups" / rest) _ _
        ∙ at_prefix_miss "roles" "usergroups" rest _ _ refl
        ∙ at_prefix_hit "usergroups" rest _ _

    module _ (r : String) (last : has_slash r ≡ false) where
      last_argument_all : (here : String → Routed) → last_argument r here ≡ here r
      unfolding last_argument
      last_argument_all here = rw (cut_segment_all r last) refl

      at_role :
          serve_http method ("/v1alpha1/" / "projects" / "/" / p / "/" / "roles" / "/" / r)
          ≡ get_put (get_role p r) (update_role p r) method
      unfolding route_roles
      at_role =
          to_roles ("/" / r) ∙ at_end_slash r _ _ ∙ at_prefix_hit "/" r _ _ ∙ last_argument_all _

      at_user_group :
          serve_http method ("/v1alpha1/" / "projects" / "/" / p / "/" / "usergroups" / "/" / r)
          ≡ get_put (get_user_group p r) (update_user_group p r) method
      unfolding route_user_groups
      at_user_group =
          to_user_groups ("/" / r)
          ∙ at_end_slash r _ _
          ∙ at_prefix_hit "/" r _ _
          ∙ last_argument_all _

-- A request with the method and the path of an operation, whose arguments hold no slash, is
-- dispatched to that operation with those arguments.
pub serve_http_complete :
    (e : Endpoint) → HasSegments e → serve_http (method_of e) (path_of e) ≡ dispatch e
unfolding serve_http route_auth route_health route_projects route_roles route_user_groups at_prefix
    at_end on_method cut_prefix
serve_http_complete handle_oauth_callback h = refl
serve_http_complete initiate_login h = refl
serve_http_complete logout h = refl
serve_http_complete get_current_user h = refl
serve_http_complete refresh_token h = refl
serve_http_complete get_liveness_check h = refl
serve_http_complete get_readiness_check h = refl
serve_http_complete list_projects h = refl
serve_http_complete create_project h = refl
serve_http_complete list_users h = refl
serve_http_complete create_user h = refl
serve_http_complete (get_project p) h = at_project "GET" p h
serve_http_complete (update_project p) h = at_project "PUT" p h
serve_http_complete (list_roles p) h = to_roles "GET" p h ""
serve_http_complete (create_role p) h = to_roles "POST" p h ""
serve_http_complete (list_user_groups p) h = to_user_groups "GET" p h ""
serve_http_complete (create_user_group p) h = to_user_groups "POST" p h ""
serve_http_complete (get_role p r) (h, k) = at_role "GET" p h r k
serve_http_complete (update_role p r) (h, k) = at_role "PUT" p h r k
serve_http_complete (get_user_group p g) (h, k) = at_user_group "GET" p h g k
serve_http_complete (update_user_group p g) (h, k) = at_user_group "PUT" p h g k
