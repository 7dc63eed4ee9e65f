-- ===== src/Service/Tests/Runs.antt =====
-- Sequences of requests and the sessions' handlers, and the theorems at them.
use admin_api.Base.{
  ℕ, String, [], ◌∷◌, Option, some, none, true, false, ◌≡◌, ◌≢◌, refl, arith, if◌then◌else◌, ltb,
}
use admin_api.Session.{Session}
use admin_api.Session.Json.{zero_session, encode_session, marshal, unmarshal}
use admin_api.Session.Redis.Memory.{Server, memory, get_key, set_keys, del_key}
use admin_api.Session.Store.{redis_store, get, create, delete, refresh, ttl_for}
use admin_api.Session.Store.Laws.{redis_contract}
use admin_api.Middleware.{Request, next, is_public_path, extract_session_id, session_middleware}
use admin_api.Service.Auth.{AuthenticatedUser, logout, refresh_token, describe}
use admin_api.Service.Auth.Lifetime.{logout_revokes, refresh_token_extends}

abbrev octocat : Session
octocat = record zero_session { id = "0709"; github_username = "octocat"; expires_at = 100 }

abbrev server : Server
server = record {
  up = true;
  keys = ("session:0709", record { doc = encode_session octocat; deadline = some 100 }) ∷ [];
}

logout_revokes_example :
    ((now : ℕ) (req : Request) (found : Option Session)
      → extract_session_id req ≡ "0709"
      → is_public_path req.path ≡ false
      → session_middleware
          (redis_store memory 5)
          now
          req
          (logout (redis_store memory 5) (some octocat) server).0
        ≢ next found)
    × ((now : ℕ) (other : String)
        → other ≢ "0709"
        → (redis_contract memory 5).held now other
            (logout (redis_store memory 5) (some octocat) server).0
          ≡ (redis_contract memory 5).held now other server)
unfolding delete del_key
logout_revokes_example = logout_revokes (redis_contract memory 5) octocat server refl

abbrev answer : AuthenticatedUser
answer = record {
  user = record {
    id = "";
    github_id = octocat.github_user_id;
    username = "octocat";
    email = "";
    name = "";
    avatar_url = "";
  };
  bearer_token = "0709";
  team_memberships = [];
}

named_octocat :
    (kept : Session)
    → (redis_contract memory 5).held 7 octocat.id server ≡ some kept
    → kept.id ≡ octocat.id
unfolding redis_contract unmarshal encode_session
named_octocat kept h = let e : some octocat ≡ some kept = h in cc

refresh_token_extends_example :
    (kept : Session) × ((redis_contract memory 5).held 7 "0709" server ≡ some kept)
    × ((t : ℕ)
        → (redis_contract memory 5).held t "0709"
            (refresh_token (redis_store memory 5) some 50 7 (some octocat) server).0
          ≡ (if ltb t 57 then some (record kept { expires_at = 57 }) else none))
unfolding refresh_token describe refresh create get get_key set_keys ttl_for marshal encode_session
    unmarshal
refresh_token_extends_example =
    refresh_token_extends (redis_contract memory 5) some 50 7 octocat server answer (omega arith)
      named_octocat refl
