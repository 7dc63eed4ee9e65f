-- ===== src/Client/Api.antt =====
-- pkg/client/v1alpha1: the client of the API, client.go and project.go.
use admin_api.Base.{
  ℕ, String, List, [], ◌∷◌, Option, some, none, Bool, str_eq, ◌==◌, if◌then◌else◌, Result, ok, err,
}
use admin_api.Service.Auth.{AuthenticatedUser}
use admin_api.Service.Types.{CreateProjectRequest, Project}
use admin_api.Client.{
  StoredToken, Disk, Outside, DefaultClient, ApiRequest, ApiResponse, ClientError, no_reply,
  close_failed, bad_body, unexpected_status, no_input, invalid_token, authentication_failed, tick,
  Step, then_do,
}
use admin_api.Client.Storage.{save_token, load_token, remove_token}
use admin_api.Client.Oauth.{get_current_user, initiate_oauth_flow}

module _ (o : Outside) where
  -- A failure to save or to remove is only logged.
  unfoldable pub keep : String → AuthenticatedUser → DefaultClient → DefaultClient
  keep token user c = if c.has_storage then (save_token o token user c).0 else c

  unfoldable pub forget : DefaultClient → DefaultClient
  forget c = if c.has_storage then (remove_token o c).0 else c

  unfoldable pub after_verify : String → Result ClientError AuthenticatedUser → Step (Unit {0})
  after_verify token (ok user) c = (keep token user (record c { bearer_token = token }), ok tt)
  after_verify token (err e) c = (c, err invalid_token)

  unfoldable pub verify : String → Step (Unit {0})
  unfolding after_verify
  verify token c = then_do (after_verify token) (get_current_user o token c)

  unfoldable pub after_scan : Option String → Step (Unit {0})
  after_scan (some token) c = verify token c
  after_scan none c = (c, err no_input)

  -- When the flow fails, the token is read from the terminal.
  unfoldable pub after_flow : Result ClientError String → Step (Unit {0})
  unfolding after_scan
  after_flow (ok token) c = verify token c
  after_flow (err e) c = after_scan (o.scanln c.clock) (tick c)

  unfoldable pub sign_in : Step (Unit {0})
  unfolding after_flow
  sign_in c = then_do after_flow (initiate_oauth_flow o c)

  unfoldable pub after_env : Result ClientError AuthenticatedUser → Step (Unit {0})
  after_env (ok user) c = (keep c.bearer_token user c, ok tt)
  after_env (err e) c = sign_in c

  unfoldable pub from_env : Step (Unit {0})
  unfolding after_env
  from_env c =
      if str_eq o.env_token ""
      then sign_in c
      else then_do after_env
          (get_current_user o o.env_token (record c { bearer_token = o.env_token }))

  unfoldable pub after_held : Result ClientError AuthenticatedUser → Step (Unit {0})
  after_held (ok user) c = (c, ok tt)
  after_held (err e) c = from_env (record (forget c) { bearer_token = "" })

  unfoldable pub ensure_authenticated : Step (Unit {0})
  unfolding after_held
  ensure_authenticated c =
      if str_eq c.bearer_token ""
      then from_env c
      else then_do after_held (get_current_user o c.bearer_token c)

  abbrev pub authenticate : Step (Unit {0})
  authenticate c = ensure_authenticated (record c { bearer_token = "" })

  abbrev pub set_bearer_token : String → DefaultClient → DefaultClient
  set_bearer_token token c = record c { bearer_token = token }

  unfoldable pub logout : Step (Unit {0})
  logout c =
      let c' = record c { bearer_token = "" } in
      if c.has_storage then remove_token o c' else (c', ok tt)

  unfoldable pub receive : Option ApiResponse → Step ApiResponse
  receive (some resp) c = (c, ok resp)
  receive none c = (c, err no_reply)

  unfoldable pub request_with :
      (String → ApiRequest) → Result ClientError (Unit {0}) → Step ApiResponse
  unfolding receive
  request_with make (ok _) c = receive (o.send c.clock (make c.bearer_token)) (tick c)
  request_with make (err e) c = (c, err (authentication_failed e))

  -- Both send the token that the check before left in the client.
  unfoldable pub get : String → List (String × String) → Step ApiResponse
  unfolding request_with
  get endpoint query c =
      then_do
        (request_with λ token. record {
          method = "GET";
          endpoint = endpoint;
          token = token;
          query = query;
          body = none;
        })
        (ensure_authenticated c)

  unfoldable pub post : String → CreateProjectRequest → Step ApiResponse
  unfolding request_with
  post endpoint body c =
      then_do
        (request_with λ token. record {
          method = "POST";
          endpoint = endpoint;
          token = token;
          query = [];
          body = some body;
        })
        (ensure_authenticated c)

  unfoldable pub dropped : Result ClientError ApiResponse → Step (Unit {0})
  dropped (ok resp) c = (c, ok tt)
  dropped (err e) c = (c, err e)

  -- The response is dropped, its status too.
  unfoldable pub liveness_check : Step (Unit {0})
  unfolding dropped
  liveness_check c = then_do dropped (get "/v1alpha1/health/liveness" [] c)

  unfoldable pub readiness_check : Step (Unit {0})
  unfolding dropped
  readiness_check c = then_do dropped (get "/v1alpha1/health/readiness" [] c)

  -- The deferred `Close`, whose error is the result where there is no other.
  abbrev pub closed : {A : Type 0} → Bool → Result ClientError A → Result ClientError A
  closed closes (ok a) = if closes then ok a else err close_failed
  closed closes (err e) = err e

  unfoldable pub created : Result ClientError ApiResponse → Step (Unit {0})
  created (ok resp) c =
      if resp.status == 201
      then (c, closed resp.closes (ok tt))
      else (c, err (unexpected_status resp.status))
  created (err e) c = (c, err e)

  unfoldable pub create_project : CreateProjectRequest → Step (Unit {0})
  unfolding created
  create_project req c = then_do created (post "/v1alpha1/projects" req c)

  unfoldable pub decoded : Option (List Project) → Result ClientError (List Project)
  decoded (some ps) = ok ps
  decoded none = err bad_body

  unfoldable pub listed : Result ClientError ApiResponse → Step (List Project)
  unfolding decoded
  listed (ok resp) c =
      if resp.status == 200
      then (c, closed resp.closes (decoded resp.projects))
      else (c, err (unexpected_status resp.status))
  listed (err e) c = (c, err e)

  unfoldable pub list_projects : Step (List Project)
  unfolding listed
  list_projects c =
      then_do listed (get "/v1alpha1/projects" (("limit", "100") ∷ ("offset", "0") ∷ []) c)

  unfoldable pub loaded : Result ClientError (Option StoredToken) → DefaultClient → DefaultClient
  loaded (ok (some stored)) c = record c { bearer_token = stored.bearer_token }
  loaded (ok none) c = c
  loaded (err e) c = c

  -- A new client, on the disk that an earlier one left.
  unfoldable pub new_default_client : Bool → Disk → ℕ → DefaultClient
  unfolding loaded
  new_default_client has_storage disk clock =
      let c : DefaultClient = record {
        bearer_token = "";
        has_storage = has_storage;
        disk = disk;
        clock = clock;
      } in
      if has_storage then loaded (load_token o c).1 (load_token o c).0 else c
