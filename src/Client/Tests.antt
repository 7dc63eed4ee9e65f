-- ===== src/Client/Tests.antt =====
-- Runs of the client against a server that knows one token, and the theorems at them.
use admin_api.Base.{
  String, List, [], ◌∷◌, Option, some, none, true, ◌≡◌, refl, str_eq, if◌then◌else◌,
}
use admin_api.Base.Int.{pos}
use admin_api.Service.Auth.{AuthenticatedUser}
use admin_api.Service.Types.{CreateProjectRequest}
use admin_api.Client.{
  no_file, file, put, answered, opened, Outside, works, DefaultClient, ApiRequest, ApiResponse,
}
use admin_api.Client.Storage.{save_token, write_file, load_token}
use admin_api.Client.Documents.{encode_stored_token}
use admin_api.Base.{ok}
use admin_api.Client.Oauth.{
  get_current_user, initiate_oauth_flow, start_flow, wait_for_callback, hand_over,
}
use admin_api.Client.Api.{
  keep, after_verify, verify, after_flow, sign_in, from_env, after_held, ensure_authenticated,
  new_default_client, receive, request_with, get, decoded, listed, list_projects,
}
use admin_api.Client.Session.{Accepted, ensure_authenticated_sound}
use admin_api.Client.Requests.{Sent, list_request, list_projects_sound}
use admin_api.Client.Restart.{new_default_client-save_token}
use admin_api.Client.Interactive.{at_end}
use admin_api.Client.Interactive.Ends.{Returns, interactive-Returns}

abbrev octocat : AuthenticatedUser
octocat = record {
  user = record {
    id = "583231";
    github_id = pos 583231;
    username = "octocat";
    email = "octocat@github.com";
    name = "The Octocat";
    avatar_url = "https://avatars.example/1";
  };
  bearer_token = "0709";
  team_memberships = [];
}

abbrev replied : ApiRequest → Option ApiResponse
replied req =
    if str_eq req.method "GET"
    then some (record { status = 200; projects = some []; closes = true })
    else some (record { status = 201; projects = none; closes = true })

-- The browser brings the token at the second request to the callback.
abbrev outside : Outside
outside = record {
  me = λ n token. if str_eq token "0709" then answered 200 (some octocat) else answered 401 none;
  disk = λ n. works;
  config_dir = "/home/octocat/.admin-api";
  env_token = "";
  flow = λ n. some (opened "" ∷ opened "0709" ∷ []);
  scanln = λ n. none;
  send = λ n req. replied req;
}

abbrev blank : DefaultClient
blank = record { bearer_token = ""; has_storage = true; disk = λ p. no_file; clock = 0 }

abbrev signed_in : DefaultClient
signed_in = record {
  bearer_token = "0709";
  has_storage = true;
  disk =
      put "/home/octocat/.admin-api/token.json"
        (file (encode_stored_token (record { bearer_token = "0709"; user = some octocat })))
        blank.disk;
  clock = 4;
}

ensure_authenticated_sound_example : Accepted outside 0 signed_in
unfolding ensure_authenticated from_env sign_in initiate_oauth_flow start_flow wait_for_callback
    hand_over get_current_user after_flow verify after_verify keep save_token write_file
ensure_authenticated_sound_example = ensure_authenticated_sound outside blank {c' = signed_in} refl

abbrev listed_once : DefaultClient
listed_once = record signed_in { clock = 6 }

list_projects_sound_example :
    (resp : ApiResponse) × Sent outside 4 list_request resp listed_once
    × (resp.status ≡ 200)
    × (resp.projects ≡ some [])
unfolding list_projects get ensure_authenticated get_current_user after_held request_with receive
    listed decoded
list_projects_sound_example =
    list_projects_sound outside signed_in {c' = listed_once} {ps = []} refl

abbrev shop : CreateProjectRequest
shop = record {
  name = "shop";
  description = "a shop";
  kind = "shared";
  owner_ids = [];
  owner_group_ids = [];
}

-- A server that refuses the check of readiness, and everything else that is asked of it.
abbrev broken_server : Outside
broken_server = record outside {
  send = λ n req. some (record { status = 500; projects = none; closes = true });
}

abbrev saved : DefaultClient
saved = record signed_in { bearer_token = ""; clock = 1 }

new_default_client-save_token_example :
    ((load_token outside (record saved { clock = 9 })).1
      ≡ ok (some (record { bearer_token = "0709"; user = some octocat })))
    × ((new_default_client outside true saved.disk 9).bearer_token ≡ "0709")
unfolding save_token write_file
new_default_client-save_token_example =
    new_default_client-save_token outside "0709" octocat blank saved 9 refl refl

abbrev session : List String
session =
    "ping" ∷ "  projects   list " ∷ "projects create" ∷ "shop" ∷ "" ∷ "" ∷ "1, 2" ∷ "" ∷ "" ∷ "what"
    ∷ "q" ∷ "never read" ∷ []

interactive-Returns_example : Returns outside at_end session signed_in
interactive-Returns_example = interactive-Returns outside at_end session signed_in
