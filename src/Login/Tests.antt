-- ===== src/Login/Tests.antt =====
-- Runs of the OAuth endpoints over an in-memory server, and the theorems at them.
use Prim.Native.String
use admin_api.Base.{
  ℕ, String, List, [], ◌∷◌, some, none, true, ◌≡◌, refl, arith, ok-ne-err, eq_iff, if◌then◌else◌,
  str_eq,
}
use admin_api.Base.Int.{pos}
use admin_api.Oauth.{
  GithubUser, Github, GithubClient, reply, no_reply, read_reply, exchange_code, get_user,
  get_user_orgs, validate_org_membership, fill_email,
}
use admin_api.Session.Id.{generate_session_id, encode_to_string}
use admin_api.Session.Json.{marshal, unmarshal, encode_session}
use admin_api.Session.Redis.Memory.{Server, memory, set_keys, get_key, del_key}
use admin_api.Session.Store.{redis_store, create, get, delete, ttl_for, get_failed}
use admin_api.Middleware.{next, is_public_path, session_middleware}
use admin_api.Middleware.Gate.{with_bearer}
use admin_api.Login.{
  failure, login_handler, state_session, state_lifetime, identify, open_session, callback_handler,
  frontend_redirect,
}
use admin_api.Login.Callback.{IsLogin, callback_redirect_sound}
use admin_api.Login.Replay.{callback, callback_once, unauthorized_opens_nothing}
use admin_api.Login.Roundtrip.{login_callback_location}
use admin_api.Login.Confusion.{redis-Shared, state_passes_as_session}

abbrev octocat : GithubUser
octocat = record {
  id = pos 583231;
  login = "octocat";
  email = "octocat@github.com";
  name = "The Octocat";
  avatar_url = "https://avatars.example/1";
}

abbrev service : Github
service = record {
  auth_code_url = λ state. String.◌++◌ "https://github.com/login/oauth/authorize?state=" state;
  exchange = λ code. some (record { access_token = code; refresh_token = "" });
  user = λ token. reply 200 (some octocat);
  emails = λ token. no_reply;
  orgs = λ token. reply 200 (some (record { login = "tacokumo" } ∷ []));
  teams = λ token. no_reply;
}

abbrev client : GithubClient
client = record { github = service; allowed_orgs = "tacokumo" ∷ [] }

abbrev empty : Server
empty = record { up = true; keys = [] }

abbrev bytes : List ℕ
bytes =
    1 ∷ 2 ∷ 3 ∷ 4 ∷ 5 ∷ 6 ∷ 7 ∷ 8 ∷ 9 ∷ 10 ∷ 11 ∷ 12 ∷ 13 ∷ 14 ∷ 15 ∷ 16 ∷ 17 ∷ 18 ∷ 19 ∷ 20 ∷ 21
    ∷ 22 ∷ 23 ∷ 24 ∷ 25 ∷ 26 ∷ 27 ∷ 28 ∷ 29 ∷ 30 ∷ 31 ∷ 255 ∷ []

abbrev day : ℕ
day = 86400000000000

state_passes_as_session_example :
    (service.auth_code_url (encode_to_string bytes)
      ≡ service.auth_code_url (encode_to_string bytes))
    × (session_middleware
          (redis_store memory day)
          5
          (with_bearer "/v1alpha1/projects" (encode_to_string bytes) none)
          (login_handler client (redis_store memory state_lifetime) 1 (some bytes) "" empty).0
        ≡ next (some (state_session 1 (encode_to_string bytes) "")))
unfolding login_handler generate_session_id create set_keys get get_key marshal encode_session
    encode_to_string unmarshal is_public_path ttl_for
state_passes_as_session_example =
    state_passes_as_session (redis-Shared memory day) client 1 bytes "" empty _ refl refl 5
      "/v1alpha1/projects" none (omega arith) refl
      (ok-ne-err (state_session 1 (encode_to_string bytes) "") get_failed refl)

abbrev more_bytes : List ℕ
more_bytes = 7 ∷ 9 ∷ []

-- A login that is under way: its state is "0102".
abbrev pending : Server
pending = record {
  up = true;
  keys =
      (
        "session:0102",
        record { doc = encode_session (state_session 1 "0102" ""); deadline = some 600000000001 },
      )
      ∷ [];
}

callback_redirect_sound_example :
    IsLogin
      (redis-Shared memory day)
      client
      day
      5
      (some more_bytes)
      "c0de"
      "0102"
      (some (record {
        name = "session_id";
        value = "0709";
        path = "/";
        http_only = true;
        secure = true;
        same_site = "Lax";
        max_age = 86400;
      }))
      pending
      (callback
        (redis-Shared memory day)
        client
        "https://app.example"
        day
        5
        (some more_bytes)
        "c0de"
        "0102"
        pending).0
unfolding callback_handler open_session generate_session_id create set_keys get get_key delete
    del_key marshal encode_session encode_to_string unmarshal ttl_for identify exchange_code
    get_user read_reply fill_email get_user_orgs validate_org_membership
callback_redirect_sound_example =
    callback_redirect_sound (redis-Shared memory day) client "https://app.example" day 5
      (some more_bytes) "c0de" "0102" pending "https://app.example?token=0709&state=0102" _
      (omega arith) refl

abbrev site : String
site = "https://app.example"

callback_once_example :
    callback
      (redis-Shared memory day)
      client
      site
      day
      9
      (some bytes)
      "again"
      "0102"
      (callback
        (redis-Shared memory day)
        client
        site
        day
        5
        (some more_bytes)
        "c0de"
        "0102"
        pending).0
    ≡ (
      (callback
          (redis-Shared memory day)
          client
          site
          day
          5
          (some more_bytes)
          "c0de"
          "0102"
          pending).0,
      failure 401 "invalid state",
    )
unfolding get get_key unmarshal encode_session delete del_key generate_session_id encode_to_string
callback_once_example =
    callback_once (redis-Shared memory day) client site day 5 (some more_bytes) "c0de" "0102"
      pending (state_session 1 "0102" "")
      (ground (arith, eq_iff "c0de" ""), ground (arith, eq_iff "0102" "")) refl refl
      (ground (arith, eq_iff "0709" "0102")) 9 (some bytes) "again"
      (ground (arith, eq_iff "again" ""))

-- A configuration whose organisation the user is not in.
abbrev strict : GithubClient
strict = record { github = service; allowed_orgs = "acme" ∷ [] }

unauthorized_opens_nothing_example :
    (redis-Shared memory day).sessions.held 6 "0709"
      (callback
        (redis-Shared memory day)
        strict
        site
        day
        5
        (some more_bytes)
        "c0de"
        "0102"
        pending).0
    ≡ (redis-Shared memory day).sessions.held 6 "0709" pending
unfolding callback_handler get get_key unmarshal encode_session identify exchange_code get_user
    read_reply fill_email get_user_orgs validate_org_membership
unauthorized_opens_nothing_example =
    unauthorized_opens_nothing (redis-Shared memory day) strict site day 5 (some more_bytes) "c0de"
      "0102" pending "not authorized: not a member of allowed organizations" refl 6 "0709"
      (ground (arith, eq_iff "0709" "0102"))

login_callback_location_example :
    (session_id : String) × (generate_session_id (some more_bytes) ≡ some session_id)
    × ("https://other.example?token=0709&state=0102"
        ≡ frontend_redirect
            (if str_eq "https://other.example" "" then site else "https://other.example")
            session_id
            (encode_to_string (1 ∷ 2 ∷ [])))
unfolding login_handler callback_handler open_session generate_session_id create set_keys get
    get_key delete del_key marshal encode_session encode_to_string unmarshal ttl_for identify
    exchange_code get_user read_reply fill_email get_user_orgs validate_org_membership
login_callback_location_example =
    login_callback_location (redis-Shared memory day) client site day 1 5 (1 ∷ 2 ∷ [])
      "https://other.example" empty _ (some more_bytes) "c0de"
      "https://other.example?token=0709&state=0102" _ refl (omega arith) refl
