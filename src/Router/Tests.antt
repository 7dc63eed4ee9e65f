-- ===== src/Router/Tests.antt =====
-- Requests for a role, and the theorems at them.

use admin_api.Base.{◌≡◌, refl}
use admin_api.Base.Text.{cut_prefix}
use admin_api.Session.{Session}
use admin_api.Session.Json.{zero_session}
use admin_api.Router.{
  get_role, dispatch, serve_http, at_prefix, at_end, on_method, cut_segment, route_projects,
  route_project, route_roles, last_argument,
}
use admin_api.Router.Laws.{IsRequest}
use admin_api.Router.Laws.Dispatch.{serve_http_sound}
use admin_api.Router.Complete.{serve_http_complete}

serve_http_sound_example :
    IsRequest "GET" "/v1alpha1/projects/1001/roles/1002" (get_role "1001" "1002")
unfolding serve_http at_prefix cut_prefix route_projects at_end cut_segment route_project
    route_roles last_argument on_method
serve_http_sound_example =
    serve_http_sound "GET" "/v1alpha1/projects/1001/roles/1002" (get_role "1001" "1002") refl

serve_http_complete_example :
    serve_http "GET" "/v1alpha1/projects/1001/roles/1002" ≡ dispatch (get_role "1001" "1002")
serve_http_complete_example = serve_http_complete (get_role "1001" "1002") (refl, refl)

abbrev octocat : Session
octocat = record zero_session { id = "0709"; github_username = "octocat"; expires_at = 100 }
