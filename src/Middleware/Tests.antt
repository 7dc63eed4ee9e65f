-- ===== src/Middleware/Tests.antt =====
-- Requests at an in-memory store, and the theorems at them.
use admin_api.Base.{◌≤◌, String, [], ◌∷◌, some, true, ◌≡◌, ◌≢◌, refl}
use admin_api.Session.{Session}
use admin_api.Session.Json.{zero_session, encode_session, unmarshal}
use admin_api.Session.Redis.Memory.{Server, memory, get_key}
use admin_api.Session.Store.{get}
use admin_api.Session.Store.Laws.{redis_contract}
use admin_api.Middleware.{Request, is_public_path, extract_session_id, session_middleware, admit}
use admin_api.Middleware.Gate.{next_has_session}

abbrev octocat : Session
octocat = record zero_session { id = "0709"; github_username = "octocat"; expires_at = 100 }

abbrev server : Server
server = record {
  up = true;
  keys = ("session:0709", record { doc = encode_session octocat; deadline = some 100 }) ∷ [];
}

abbrev with_cookie : String → Request
with_cookie id = record { path = "/v1alpha1/projects"; authorization = "Basic x"; cookie = some id }

next_has_session_example :
    (sess : Session) × (some octocat ≡ some sess)
    × (extract_session_id (with_cookie "0709") ≢ "")
    × ((redis_contract memory 5).held 7 (extract_session_id (with_cookie "0709")) server
        ≡ some sess)
    × (7 ≤ sess.expires_at)
unfolding session_middleware is_public_path extract_session_id get get_key unmarshal encode_session
    admit
next_has_session_example =
    next_has_session (redis_contract memory 5) 7 (with_cookie "0709") server (some octocat) refl
      refl
