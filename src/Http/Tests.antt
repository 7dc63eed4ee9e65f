-- ===== src/Http/Tests.antt =====
-- Requests at a whole server over small tables and an in-memory store, and the theorems at them.
mod Delivered
use admin_api.Base.{
  eq_iff, ap, ◌≢◌, ℕ, ◌≤◌, String, List, [], ◌∷◌, Option, some, none, Bool, true, false, ◌≡◌, refl,
  arith, str_eq, if◌then◌else◌, leb, ◌==◌, ◌&&◌, ok, length,
}
use admin_api.Base.Int.{ℤ, pos, negsuc, to_int32}
use admin_api.Session.{Session}
use admin_api.Session.Json.{zero_session, encode_session, unmarshal}
use admin_api.Session.Redis.Memory.{Server, memory, get_key}
use admin_api.Session.Store.{redis_store, get}
use admin_api.Session.Store.Laws.{redis_contract}
use admin_api.Admindb
use admin_api.Admindb.{empty_db}
use admin_api.Admindb.Sql.{order_desc, insert_desc, limit_offset}
use admin_api.Admindb.Queries.{list_projects_with_pagination}
use admin_api.Admindb.World.{World, Moment, served, query}
use admin_api.Service.Monad.{Pgtype, wrap, ◌>>=◌}
use admin_api.Service.Projects.{list_projects, to_project}
use admin_api.Service.Types.{CreateProjectRequest}
use admin_api.Middleware.{is_public_path, extract_session_id, session_middleware, admit}
use admin_api.Http.{HttpRequest, Ogen, present, absent, empty, object, checked, call}
use admin_api.Http.Security.{
  secure, security_bearer_auth, security_cookie_auth, find_authorization, cut, equal_fold,
}
use admin_api.Http.Params.{decode_page, decode_int}
use admin_api.Http.Gate.{secure-session_middleware}
use admin_api.Http.Bounds.{InRange, ValidatesInt, Given, list_projects_bounds}
use admin_api.Http.Body.{decode_create_project, validate_kind}
use admin_api.Http.Body.Roundtrip.{
  encode_create_project, decode_create_project-encode_create_project,
}
use admin_api.Http.Handlers.{handle_list_projects}
use admin_api.Http.Handlers.Serve.{Backend, serve}
use admin_api.Http.Handlers.Asked.{asked, perform, world-serve}
use admin_api.Service.Calls
use admin_api.Router.{serve_http, route_projects, at_prefix, at_end, on_method}
use admin_api.Base.Text.{cut_prefix}
use admin_api.Http.Body.{
  decode_create_project_request, decode_request, decode_json, decode_create_project, decode_fields,
  create_project_field,
}
use admin_api.Http.Site.{Visit, visit, is_login, is_callback, on_api}
use admin_api.Http.Site.Frame.{visit_frame}
use admin_api.Http.Site.Delivery.{arrive, on_project, create_request_served}
use admin_api.Client.Requests.{create_request}
use admin_api.Service.Projects
use admin_api.Login.Confusion.{redis-Shared}
use admin_api.Login.{state_lifetime}
use admin_api.Session.Id.{generate_session_id, encode_to_string}
use admin_api.Http.Site.Anonymous.{visit_anonymous}
use admin_api.Oauth.{Github, GithubClient, no_reply}
use Prim.Native.String
use admin_api.Http.Site.Validity.{IsValid, visit_all, visit_all-IsValid}

abbrev ids : Pgtype
ids = record {
  scan = λ text. if str_eq text "1001" then some 1001 else none;
  show = λ id. if id == 1001 then "1001" else "";
}

abbrev in_range : ℕ → Option ℕ → ℤ → Bool
in_range min none (pos n) = leb min n
in_range min (some max) (pos n) = leb min n && leb n max
in_range min max (negsuc n) = false

-- The range check does what is asked of it.
in_range-InRange :
    (min : ℕ) (max : Option ℕ) (n : ℤ) → in_range min max n ≡ true → InRange min max n
in_range-InRange min none (pos n) h = ground arith
in_range-InRange min (some max) (pos n) h = ground arith
in_range-InRange min none (negsuc n) h = cc
in_range-InRange min (some max) (negsuc n) h = cc

abbrev ogen : Ogen
ogen = record {
  path_unescape = λ s. some s;
  path_value = λ s. some s;
  to_int = λ s.
      if str_eq s "10"
      then some (pos 10)
      else if str_eq s "100"
      then some (pos 100)
      else if str_eq s "0"
      then some (pos 0)
      else none;
  validate_int = in_range;
  is_email = λ s. true;
}

abbrev ogen-ValidatesInt : ValidatesInt ogen
ogen-ValidatesInt = record { range = in_range-InRange }

abbrev octocat : Session
octocat = record zero_session { id = "0709"; github_username = "octocat"; expires_at = 100 }

abbrev server : Server
server = record {
  up = true;
  keys = ("session:0709", record { doc = encode_session octocat; deadline = some 100 }) ∷ [];
}

abbrev shop : CreateProjectRequest
shop = record {
  name = "shop";
  description = "a shop";
  kind = "shared";
  owner_ids = "1" ∷ "2" ∷ [];
  owner_group_ids = [];
}

-- GET with a page, and POST with a body; the session's id is in the header or in the cookie.
abbrev listing : HttpRequest
listing = record {
  authorization = "Bearer 0709" ∷ [];
  cookie = none;
  escaped = false;
  query = λ name.
      if str_eq name "limit"
      then present "10"
      else if str_eq name "offset"
      then present "0"
      else absent;
  content_type = none;
  body = empty;
}

abbrev creating : HttpRequest
creating = record listing {
  authorization = [];
  cookie = some "0709";
  content_type = some "application/json";
  body = object (encode_create_project shop);
}

abbrev moments : List Moment
moments =
    record { now = 5; uuid = 1001; fate = served }
    ∷ record { now = 6; uuid = 0; fate = served }
    ∷ []

abbrev fresh : Backend Server
fresh = record { world = record { db = empty_db; moments = moments }; sessions = server }

abbrev plain : String → Option String
plain s = some s

world-serve_example :
    (serve
      (redis_store memory 5)
      plain
      5
      ogen
      ids
      7
      "POST"
      "/v1alpha1/projects"
      creating
      fresh).0.world
    ≡ perform ids (some (Calls.create_project shop)) fresh.world
unfolding session_middleware is_public_path extract_session_id get get_key unmarshal encode_session
    admit asked serve_http route_projects at_prefix at_end on_method cut_prefix cut equal_fold
    decode_create_project_request decode_request decode_json decode_create_project decode_fields
    create_project_field encode_create_project find_authorization
world-serve_example =
    world-serve ogen ids (redis_store memory 5) plain 5 7 "POST" "/v1alpha1/projects" creating fresh

abbrev github : Github
github = record {
  auth_code_url = λ state. String.◌++◌ "https://github.com/login/oauth/authorize?state=" state;
  exchange = λ code. none;
  user = λ token. no_reply;
  emails = λ token. no_reply;
  orgs = λ token. no_reply;
  teams = λ token. no_reply;
}

abbrev client : GithubClient
client = record { github = github; allowed_orgs = [] }

abbrev creation : Visit
creation = record {
  now = 7;
  method = "POST";
  path = "/v1alpha1/projects";
  request = creating;
  param = λ name. "";
  entropy = none;
}

abbrev unknown : Visit
unknown = record creation { request = record creating { cookie = some "0304" } }

visit_anonymous_example :
    ((visit
        (redis_store memory 5)
        (redis_store memory 6)
        client
        "https://app.example"
        plain
        5
        ogen
        ids
        unknown
        fresh).0.world.db
      ≡ empty_db)
    × (is_login unknown ≡ false
        → is_callback unknown ≡ false
        → (visit
            (redis_store memory 5)
            (redis_store memory 6)
            client
            "https://app.example"
            plain
            5
            ogen
            ids
            unknown
            fresh).0.sessions
          ≡ server)
unfolding redis_contract extract_session_id
visit_anonymous_example =
    visit_anonymous (redis_contract memory 5) (redis_store memory 6) client "https://app.example"
      plain 5 ogen ids unknown fresh refl

abbrev visits : List Visit
visits =
    creation
    ∷ record creation { method = "GET"; request = listing }
    ∷ unknown
    ∷ record creation { method = "GET"; path = "/v1alpha1/auth/login"; entropy = some (1 ∷ 2 ∷ []) }
    ∷ []

visit_all-IsValid_example :
    IsValid
      (visit_all
        (redis_store memory 5)
        (redis_store memory 6)
        client
        "https://app.example"
        plain
        5
        ogen
        ids
        visits
        fresh).world.db
visit_all-IsValid_example =
    visit_all-IsValid (redis_store memory 5) (redis_store memory 6) client "https://app.example"
      plain 5 ogen ids visits moments server

-- A row of the table, and what the server shows of it.
abbrev row : Admindb.Project
row = record {
  id = 1;
  display_id = 1001;
  name = "shop";
  description = "a shop";
  kind = "shared";
  created_at = 5;
  updated_at = 5;
}

abbrev stocked : World
stocked = record {
  db = record empty_db { projects = record { rows = row ∷ []; next_id = 2 } };
  moments = record { now = 6; uuid = 0; fate = served } ∷ [];
}

list_projects_bounds_example :
    (sess : Session) × (limit offset : ℕ) × (some octocat ≡ some sess)
    × Given ogen (present "10") limit
    × Given ogen (present "0") offset
    × (1 ≤ limit)
    × (limit ≤ 100)
    × (length (to_project ids row ∷ []) ≤ limit)
unfolding handle_list_projects checked secure security_bearer_auth security_cookie_auth
    find_authorization cut equal_fold decode_page decode_int call list_projects ◌>>=◌ wrap query
    list_projects_with_pagination limit_offset order_desc insert_desc to_int32
list_projects_bounds_example =
    list_projects_bounds ogen ogen-ValidatesInt ids (some octocat) listing stocked
      {w' = record stocked { moments = [] }} {reply = to_project ids row ∷ []} refl

-- A login at an empty store, and an id that it does not draw.
abbrev no_sessions : Backend Server
no_sessions = record fresh { sessions = record { up = true; keys = [] } }

abbrev login : Visit
login = record creation {
  method = "GET";
  path = "/v1alpha1/auth/login";
  entropy = some (1 ∷ 2 ∷ []);
}

abbrev or_empty : Option String → String
or_empty (some s) = s
or_empty none = ""

drawn : generate_session_id login.entropy ≢ some "0304"
unfolding generate_session_id encode_to_string
drawn e =
    let same : ◌≡◌ {A = String} "0102" "0304" = ap or_empty e in cc ((eq_iff "0102" "0304").1 same)

visit_frame_example :
    (redis-Shared memory 5).sessions.held 8 "0304"
      (visit
        (redis_store memory 5)
        (redis_store memory state_lifetime)
        client
        "https://app.example"
        plain
        5
        ogen
        ids
        login
        no_sessions).0.sessions
    ≡ none
unfolding redis-Shared redis_contract extract_session_id generate_session_id encode_to_string
    get_key
visit_frame_example =
    visit_frame (redis-Shared memory 5) client "https://app.example" plain 5 ogen ids login
      no_sessions 8 "0304" (λ now id sess h. cc) (λ e. cc ((eq_iff "0304" "0709").1 e)) drawn
      (λ e. cc ((eq_iff "0304" "").1 e))

create_request_served_example :
    visit
      (redis_store memory 5)
      (redis_store memory 6)
      client
      "https://app.example"
      plain
      5
      ogen
      ids
      (arrive 7 (create_request shop "0709"))
      fresh
    ≡ on_api (on_project fresh (call (Projects.create_project ids shop) fresh.world))
unfolding redis_contract get get_key unmarshal encode_session validate_kind
create_request_served_example =
    create_request_served (redis_contract memory 5) plain 5 ogen ids "0709"
      (λ e. cc ((eq_iff "0709" "").1 e)) 7 octocat fresh refl (omega arith) (λ e. cc) shop refl
      (redis_store memory 6) client "https://app.example"
