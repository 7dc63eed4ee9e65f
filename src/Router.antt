-- ===== src/Router.antt =====
-- pkg/apis/v1alpha1/generated/oas_router_gen.go: `ServeHTTP`, which finds the operation of a request.
-- The path is the one that `uri.NormalizeEscapedPath` left; the server's own prefix is "".
pub mod Paths
pub mod Laws
pub mod Complete
pub mod Gate
mod Tests
use Prim.Native.Char.{code}
use Prim.Native.String
use admin_api.Base.{ℕ, String, List, [], ◌∷◌, Option, none, some, str_eq, ◌==◌, if◌then◌else◌}
use admin_api.Base.Text.{cut_prefix}

-- The operations, with the arguments that the router takes from the path.
pub data Endpoint : Type 0 where
  handle_oauth_callback initiate_login logout get_current_user refresh_token : Endpoint
  get_liveness_check get_readiness_check : Endpoint
  list_projects create_project list_users create_user : Endpoint
  get_project update_project list_roles create_role list_user_groups create_user_group :
      String → Endpoint
  get_role update_role get_user_group update_user_group : String → String → Endpoint

-- `not_allowed` has the value of the header `Allow`.
pub data Routed : Type 0 where
  dispatch : Endpoint → Routed
  not_allowed : String → Routed
  not_found : Routed

-- A case of a switch on the first character. No two prefixes of a switch start with the same one, so
-- that to try them in order is to switch; a prefix that is not there ends in `notFound`.
unfoldable pub at_prefix : String → String → (String → Routed) → Routed → Routed
at_prefix p elem inside otherwise = elim (cut_prefix p elem) [
  | some rest ↦ inside rest
  | none ↦ otherwise
]

-- `if len(elem) == 0`
unfoldable pub at_end : String → Routed → Routed → Routed
at_end elem here otherwise = if str_eq elem "" then here else otherwise

-- `switch r.Method`
unfoldable pub on_method : String → List (String × Endpoint) → String → Routed
on_method method [] allow = not_allowed allow
on_method method ((m, e) ∷ es) allow =
    let others = on_method method es allow in if str_eq method m then dispatch e else others

-- The text up to the first '/', and the rest from it: `strings.IndexByte(elem, '/')`.
unfoldable pub cut_segment : String → String × String
cut_segment String.[] = ("", "")
cut_segment (String.◌∷◌ c s) =
    let (segment, rest) = cut_segment s in
    if code c == 47 then ("", String.◌∷◌ c s) else (String.◌∷◌ c segment, rest)

abbrev pub get : Endpoint → String → Routed
get e method = on_method method (("GET", e) ∷ []) "GET"

abbrev pub post : Endpoint → String → Routed
post e method = on_method method (("POST", e) ∷ []) "POST"

abbrev pub get_post : Endpoint → Endpoint → String → Routed
get_post e f method = on_method method (("GET", e) ∷ ("POST", f) ∷ []) "GET,POST"

abbrev pub get_put : Endpoint → Endpoint → String → Routed
get_put e f method = on_method method (("GET", e) ∷ ("PUT", f) ∷ []) "GET,PUT"

abbrev pub leaf : String → Routed → Routed
leaf elem here = at_end elem here not_found

unfoldable pub route_auth : String → String → Routed
route_auth method elem =
    at_prefix "callback" elem (λ r. leaf r (get handle_oauth_callback method))
      (at_prefix "log" elem
        (λ r.
          at_prefix "in" r (λ s. leaf s (get initiate_login method))
            (at_prefix "out" r (λ s. leaf s (post logout method)) not_found))
        (at_prefix "me" elem (λ r. leaf r (get get_current_user method))
          (at_prefix "refresh" elem (λ r. leaf r (post refresh_token method)) not_found)))

unfoldable pub route_health : String → String → Routed
route_health method elem =
    at_prefix "liveness" elem (λ r. leaf r (get get_liveness_check method))
      (at_prefix "readiness" elem (λ r. leaf r (get get_readiness_check method)) not_found)

-- A last argument may hold no '/'.
unfoldable pub last_argument : String → (String → Routed) → Routed
unfolding cut_segment
last_argument elem here =
    let (segment, rest) = cut_segment elem in if str_eq rest "" then here segment else not_found

unfoldable pub route_roles : String → String → String → Routed
route_roles method project elem =
    at_end elem (get_post (list_roles project) (create_role project) method) (
      at_prefix "/" elem
        (λ r.
          last_argument r
            (λ role. get_put (get_role project role) (update_role project role) method))
        not_found)

unfoldable pub route_user_groups : String → String → String → Routed
route_user_groups method project elem =
    at_end elem (get_post (list_user_groups project) (create_user_group project) method) (
      at_prefix "/" elem
        (λ r. last_argument r (λ group.
          get_put (get_user_group project group) (update_user_group project group) method))
        not_found)

unfoldable pub route_project : String → String → String → Routed
route_project method project elem =
    at_end elem (get_put (get_project project) (update_project project) method) (
      at_prefix "/" elem
        (λ r.
          at_prefix "roles" r (route_roles method project)
            (at_prefix "usergroups" r (route_user_groups method project) not_found))
        not_found)

unfoldable pub route_projects : String → String → Routed
unfolding cut_segment
route_projects method elem = at_end elem (get_post list_projects create_project method) (
    at_prefix "/" elem
      (λ r. let (project, rest) = cut_segment r in route_project method project rest) not_found)

unfoldable pub serve_http : String → String → Routed
serve_http method path =
    at_prefix "/v1alpha1/" path
      (λ elem. at_prefix "auth/" elem (route_auth method) (
        at_prefix "health/" elem (route_health method) (
          at_prefix "projects" elem (route_projects method) (
            at_prefix "users" elem (λ r. leaf r (get_post list_users create_user method))
              not_found))))
      not_found
