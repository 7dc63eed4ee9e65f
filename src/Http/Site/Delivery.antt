-- ===== src/Http/Site/Delivery.antt =====
-- The client's requests at the site: what pkg/client/v1alpha1/client.go sends, and what it sets off.
pub mod Reply
pub mod Me
use Prim.Native.String
use admin_api.Base.{
  ℕ, ◌≤◌, String, List, [], ◌∷◌, Option, none, some, true, false, ◌≡◌, ◌≢◌, refl, sym, ap, ◌∙◌,
  str_eq, if◌then◌else◌, Result, ok, err,
}
use admin_api.Session.{Session}
use admin_api.Session.Store.{Store, get_failed}
use admin_api.Session.Store.Laws.{IsSessionStore}
use admin_api.Oauth.{GithubClient}
use admin_api.Admindb.World.{World}
use admin_api.Service.Monad.{Pgtype}
use admin_api.Service.Types.{CreateProjectRequest, Project}
use admin_api.Service.Projects
use admin_api.Middleware.{is_public_path, extract_session_id}
use admin_api.Middleware.Gate.{extract_session_id-with_bearer, held_session_passes}
use admin_api.Router.{create_project, serve_http}
use admin_api.Router.Complete.{serve_http_complete}
use admin_api.Client.{ApiRequest}
use admin_api.Client.Requests.{create_request}
use admin_api.Http.{
  HttpRequest, HttpError, Payload, empty, object, Lookup, absent, present, Ogen, call,
}
use admin_api.Http.Stages.{checked_ok}
use admin_api.Http.Gate.{credential_secure}
use admin_api.Http.Body.{decode_create_project_request, decode_request, decode_json, validate_kind}
use admin_api.Http.Body.Roundtrip.{
  encode_create_project, decode_create_project-encode_create_project,
}
use admin_api.Http.Security.{secure}
use admin_api.Http.Handlers.{handle_create_project}
use admin_api.Http.Handlers.Serve.{
  Backend, Answer, answer, project, as_checked, run_endpoint, run_routed, after_middleware, serve,
}
use admin_api.Http.Site.{Visit, on_api, visit}

abbrev look_up : List (String × String) → String → Lookup
look_up [] name = absent
look_up ((k, v) ∷ query) name =
    let rest = look_up query name in if str_eq k name then present v else rest

abbrev payload_of : Option CreateProjectRequest → Payload
payload_of none = empty
payload_of (some req) = object (encode_create_project req)

abbrev type_of : Option CreateProjectRequest → Option String
type_of none = none
type_of (some req) = some "application/json"

-- The request as the server reads it.
abbrev pub deliver : ApiRequest → HttpRequest
deliver r = record {
  authorization = String.◌++◌ "Bearer " r.token ∷ [];
  cookie = none;
  escaped = false;
  query = look_up r.query;
  content_type = type_of r.body;
  body = payload_of r.body;
}

abbrev pub arrive : ℕ → ApiRequest → Visit
arrive now r = record {
  now = now;
  method = r.method;
  path = r.endpoint;
  request = deliver r;
  param = λ name. "";
  entropy = none;
}

-- The body that the client wrote is decoded to the request, if its kind is one of the two.
decoded_request :
    (req : CreateProjectRequest) (token : String)
    → validate_kind req.kind ≡ true
    → decode_create_project_request (deliver (create_request req token)) ≡ ok req
unfolding decode_create_project_request decode_request decode_json
decoded_request req token k =
    let e = decode_create_project-encode_create_project req in rw (e, decode_json, k) refl

abbrev pub on_project :
    {S : Type 0} → Backend S → World × Result HttpError Project → Backend S × Answer
on_project b r = (record b { world = r.0 }, answer project r.1)

-- The middleware reads the client's token.
token_read : (r : ApiRequest) → extract_session_id (as_checked r.endpoint (deliver r)) ≡ r.token
token_read r = extract_session_id-with_bearer r.endpoint r.token none

token_given :
    (r : ApiRequest) → r.token ≢ "" → extract_session_id (as_checked r.endpoint (deliver r)) ≢ ""
token_given r given e = given (sym (token_read r) ∙ e)

pub secure_delivered :
    (r : ApiRequest) (sess : Session)
    → r.token ≢ ""
    → secure (some sess) (deliver r) ≡ ok (some sess)
secure_delivered r sess given = credential_secure r.endpoint sess (deliver r) (token_given r given)

module _ {S : Type 0} {session_store : Store S} (laws : IsSessionStore session_store)
    (parse : String → Option String) (session_ttl : ℕ) (o : Ogen) (u : Pgtype) (token : String)
    (given : token ≢ "") (now : ℕ) (sess : Session) (b : Backend S)
    (held : laws.held now token b.sessions ≡ some sess) (fresh : now ≤ sess.expires_at)
    (up : session_store.get now token b.sessions ≢ err get_failed) where
  -- The middleware lets a request that carries the token pass with its session.
  pub serve_bearer :
      (method path : String) (h : HttpRequest)
      → extract_session_id (as_checked path h) ≡ token
      → is_public_path path ≡ false
      → serve session_store parse session_ttl o u now method path h b
        ≡ run_routed session_store parse session_ttl o u now
            (some sess)
            h
            (serve_http method path)
            b
  unfolding serve after_middleware
  serve_bearer method path h id closed =
      ap (λ v. after_middleware session_store parse session_ttl o u now method path h v b)
        (held_session_passes laws now (as_checked path h) b.sessions sess closed
          (λ e. given (sym id ∙ e)) (ap (λ i. laws.held now i b.sessions) id ∙ held) fresh
          (λ e. up (sym (ap (λ i. session_store.get now i b.sessions) id) ∙ e)))

  pub serve_delivered :
      (r : ApiRequest)
      → r.token ≡ token
      → is_public_path r.endpoint ≡ false
      → serve session_store parse session_ttl o u now r.method r.endpoint (deliver r) b
        ≡ run_routed session_store parse session_ttl o u now
            (some sess)
            (deliver r)
            (serve_http r.method r.endpoint)
            b
  serve_delivered r same closed =
      serve_bearer r.method r.endpoint (deliver r) (token_read r ∙ same) closed

  module _ (req : CreateProjectRequest) (k : validate_kind req.kind ≡ true) where
    handled :
        (w : World)
        → handle_create_project o u (some sess) (deliver (create_request req token)) w
          ≡ call (Projects.create_project u req) w
    unfolding handle_create_project
    handled w =
        checked_ok _ _ w (secure_delivered (create_request req token) sess given)
        ∙ checked_ok _ _ w (decoded_request req token k)

    pub create_request-serve :
        serve session_store parse session_ttl o u now "POST" "/v1alpha1/projects"
          (deliver (create_request req token))
          b
        ≡ on_project b (call (Projects.create_project u req) b.world)
    unfolding run_routed run_endpoint is_public_path
    create_request-serve =
        serve_delivered (create_request req token) refl refl
        ∙ ap
            (λ r.
              run_routed session_store parse session_ttl o u now (some sess)
                (deliver (create_request req token)) r b)
            (serve_http_complete create_project tt)
        ∙ ap (on_project b) (handled b.world)

    -- A client's request to create a project, with the id of a held session that has not expired as
    -- its token, at a store that answers, and with a kind that is one of the two, does to the server,
    -- and is answered with, what `CreateProject` of the service does with that very request.
    pub create_request_served :
        (state_store : Store S) (c : GithubClient) (frontend_url : String)
        → visit session_store state_store c frontend_url parse session_ttl o u
            (arrive now (create_request req token))
            b
          ≡ on_api (on_project b (call (Projects.create_project u req) b.world))
    unfolding visit
    create_request_served state_store c frontend_url = ap on_api create_request-serve
