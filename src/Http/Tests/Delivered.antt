-- ===== src/Http/Tests/Delivered.antt =====
-- Requests of the client at the server of Http/Tests, with their replies.

use admin_api.Base.{ℕ, zero, suc, String, some, none, ◌≡◌, refl, ap, arith, eq_iff, true}
use admin_api.Session.Redis.Memory.{memory, get_key}
use admin_api.Session.Json.{encode_session, unmarshal}
use admin_api.Session.Store.{redis_store, get}
use admin_api.Session.Store.Laws.{redis_contract}
use admin_api.Service.Projects
use admin_api.Client.{Outside, DefaultClient, no_answer, works, no_file}
use admin_api.Client.Api.{created, listed}
use admin_api.Client.Requests.{create_request, list_request}
use admin_api.Http.Handlers.Serve.{serve}
use admin_api.Http.Replies.{DateTime}
use admin_api.Http.Replies.Encoders.{bare}
use admin_api.Http.Replies.Answers.{Library}
use admin_api.Http.Replies.Roundtrip.{Rounds}
use admin_api.Http.Site.Delivery.{deliver}
use admin_api.Http.Site.Delivery.Me.{me_answer, me_request, me_request_accepted, me_request_sound}
use admin_api.Client.Oauth.{read_user}
use admin_api.Session.{Session}
use admin_api.Base.Int.{pos}
use admin_api.Base.{◌≤◌, [], ok}
use admin_api.Service.Auth.{AuthenticatedUser, authenticated, describe}
use admin_api.Http.Site.Delivery.Reply.{
  answer_to, created_result, listed_result, create_request_reported, list_request_shown,
}
use admin_api.Http.Tests.{shop, ogen, ids, plain, octocat, fresh}
use admin_api.Service.Projects.{to_project}

-- An instant as that many strokes.
abbrev strokes : ℕ → String
strokes zero = ""
strokes (suc n) = String.◌∷◌ "x" (strokes n)

abbrev count_strokes : String → ℕ
count_strokes String.[] = 0
count_strokes (String.◌∷◌ c s) = suc (count_strokes s)

abbrev date_time : DateTime
date_time = record { write = strokes; read = λ s. some (count_strokes s) }

counted : (n : ℕ) → count_strokes (strokes n) ≡ n
counted zero = refl
counted (suc n) = ap suc (counted n)

exact : Rounds date_time (λ i. i)
exact = record { back = λ i. ap some (counted i) }

abbrev library : Library
library = record {
  date_time = date_time;
  error_handler = λ e. bare 500;
  http_error = λ status message. bare status;
  method_not_allowed = λ allow. bare 405;
  route_not_found = bare 404;
}

abbrev outside : Outside
outside = record {
  me = λ step token. no_answer;
  disk = λ step. works;
  config_dir = "/root/.admin-api";
  env_token = "";
  flow = λ step. none;
  scanln = λ step. none;
  send = λ step r. none;
}

abbrev holder : DefaultClient
holder = record { bearer_token = "0709"; has_storage = true; disk = λ p. no_file; clock = 3 }

create_request_reported_example :
    created outside
      (answer_to library
        (create_request shop "0709")
        (serve
          (redis_store memory 5)
          plain
          5
          ogen
          ids
          7
          "POST"
          "/v1alpha1/projects"
          (deliver (create_request shop "0709"))
          fresh).1)
      holder
    ≡ (holder, created_result library (Projects.create_project ids shop fresh.world).1)
unfolding redis_contract get get_key unmarshal encode_session
create_request_reported_example =
    create_request_reported (redis_contract memory 5) plain 5 ogen ids "0709"
      (λ e. cc ((eq_iff "0709" "").1 e)) 7 octocat fresh refl (omega arith) (λ e. cc) library
      outside holder shop refl (λ e h. omega arith)

list_request_shown_example :
    listed outside
      (answer_to library
        (list_request "0709")
        (serve
          (redis_store memory 5)
          plain
          5
          ogen
          ids
          7
          "GET"
          "/v1alpha1/projects"
          (deliver (list_request "0709"))
          fresh).1)
      holder
    ≡ (holder, listed_result library (λ i. i) (Projects.list_projects ids 100 0 fresh.world).1)
unfolding redis_contract get get_key unmarshal encode_session
list_request_shown_example =
    list_request_shown (redis_contract memory 5) plain 5 ogen ids "0709"
      (λ e. cc ((eq_iff "0709" "").1 e)) 7 octocat fresh refl (omega arith) (λ e. cc) library
      outside holder
      (record { limit = refl; offset = refl; limit_valid = refl; offset_valid = refl }) exact
      (λ e h. omega arith)

abbrev octocat_user : AuthenticatedUser
octocat_user = record {
  user = record {
    id = "";
    github_id = pos 0;
    username = "octocat";
    email = "";
    name = "";
    avatar_url = "";
  };
  bearer_token = "0709";
  team_memberships = [];
}

me_request_accepted_example :
    read_user (
      me_answer library
        (serve
          (redis_store memory 5)
          plain
          5
          ogen
          ids
          7
          "GET"
          "/v1alpha1/auth/me"
          (me_request "0709")
          fresh).1)
    ≡ ok octocat_user
unfolding redis_contract get get_key unmarshal encode_session describe
me_request_accepted_example =
    me_request_accepted (redis_contract memory 5) plain 5 ogen ids "0709" 7 fresh library octocat
      (λ e. cc ((eq_iff "0709" "").1 e)) refl (omega arith) (λ e. cc) refl

me_request_sound_example :
    (sess : Session) × (some octocat ≡ some sess)
    × (7 ≤ sess.expires_at)
    × (describe plain sess ≡ authenticated octocat_user)
unfolding redis_contract get get_key unmarshal encode_session describe
me_request_sound_example =
    me_request_sound (redis_contract memory 5) plain 5 ogen ids "0709" 7 fresh library
      (λ status message. refl)
      (me_request_accepted (redis_contract memory 5) plain 5 ogen ids "0709" 7 fresh library octocat
        (λ e. cc ((eq_iff "0709" "").1 e)) refl (omega arith) (λ e. cc) refl)
