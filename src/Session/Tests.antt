-- ===== src/Session/Tests.antt =====
-- A session that goes to the store and back, and the theorems at it.
use admin_api.Base.{[], ◌∷◌, some, ◌≡◌, refl}
use admin_api.Base.Int.{pos}
use admin_api.Session.{Session}
use admin_api.Session.Json.{encode_session, marshal, unmarshal}
use admin_api.Session.Json.Roundtrip.{unmarshal-marshal}
use admin_api.Session.Redis.Memory.{memory}
use admin_api.Session.Store.{redis_store}
use admin_api.Session.Store.Laws.{IsSessionStore, redis_store-IsSessionStore}

abbrev octocat : Session
octocat = record {
  id = "0709";
  user_id = "583231";
  github_user_id = pos 583231;
  github_username = "octocat";
  email = "octocat@github.com";
  name = "The Octocat";
  avatar_url = "https://avatars.example/1";
  access_token = "gho_1";
  refresh_token = "";
  team_memberships = record { org_name = "tacokumo"; team_name = "core"; role = "member" } ∷ [];
  expires_at = 86400000000005;
  created_at = 5;
}

unmarshal-marshal_example : unmarshal (encode_session octocat) ≡ some octocat
unfolding marshal encode_session
unmarshal-marshal_example = unmarshal-marshal octocat refl

redis_store-IsSessionStore_example : IsSessionStore (redis_store memory 86400000000000)
redis_store-IsSessionStore_example = redis_store-IsSessionStore memory 86400000000000
