-- ===== src/Client/Requests.antt =====
-- What the client's calls of the API say when they succeed.
use admin_api.Base.{
  ℕ, String, List, [], ◌∷◌, Option, some, none, ◌≡◌, refl, sym, ap, subst, ◌∙◌, arith, Result, ok,
  err,
}
use admin_api.Service.Types.{CreateProjectRequest, Project}
use admin_api.Client.{Outside, DefaultClient, ClientError, ApiRequest, ApiResponse, tick, then_do}
use admin_api.Client.Api.{
  ensure_authenticated, receive, request_with, get, post, dropped, created, decoded, listed,
  readiness_check, create_project, list_projects,
}
use admin_api.Client.Session.{Accepted, ensure_authenticated_sound}

-- A request that the client sent and that was answered, with the token that the client holds, which
-- the server had accepted in the same call.
pub record Sent (o : Outside) (start : ℕ) (make : String → ApiRequest) (resp : ApiResponse)
    (c : DefaultClient) : Type 0 where
  pub step : ℕ
  pub answer : o.send step (make c.bearer_token) ≡ some resp
  pub accepted : Accepted o start c

abbrev pub list_request : String → ApiRequest
list_request token = record {
  method = "GET";
  endpoint = "/v1alpha1/projects";
  token = token;
  query = ("limit", "100") ∷ ("offset", "0") ∷ [];
  body = none;
}

abbrev pub create_request : CreateProjectRequest → String → ApiRequest
create_request req token = record {
  method = "POST";
  endpoint = "/v1alpha1/projects";
  token = token;
  query = [];
  body = some req;
}

abbrev pub readiness_request : String → ApiRequest
readiness_request token = record {
  method = "GET";
  endpoint = "/v1alpha1/health/readiness";
  token = token;
  query = [];
  body = none;
}

module _ (o : Outside) where
  later : {start : ℕ} (c : DefaultClient) → Accepted o start c → Accepted o start (tick c)
  later c a = record {
    step = a.step;
    user = a.user;
    since = a.since;
    before = let b = a.before in omega arith;
    answer = a.answer;
  }

  receive_inv :
      (answer : Option ApiResponse) (c : DefaultClient) {c' : DefaultClient} {resp : ApiResponse}
      → receive o answer c ≡ (c', ok resp)
      → (answer ≡ some resp) × (c' ≡ c)
  unfolding receive
  receive_inv (some r) c h = (cc, cc)
  receive_inv none c h = cc

  request_with_inv :
      (make : String → ApiRequest) (start : ℕ) (r : Result ClientError (Unit {0}))
      (c : DefaultClient) {c' : DefaultClient} {resp : ApiResponse}
      → (r ≡ ok tt → Accepted o start c)
      → request_with o make r c ≡ (c', ok resp)
      → Sent o start make resp c'
  unfolding request_with
  request_with_inv make start (ok _) c accepted h =
      let (answered, same) = receive_inv (o.send c.clock (make c.bearer_token)) (tick c) h in
      record {
        step = c.clock;
        answer = ap (λ (x : DefaultClient). o.send c.clock (make x.bearer_token)) same ∙ answered;
        accepted = subst (λ x. Accepted o start x) (sym same) (later c (accepted refl));
      }
  request_with_inv make start (err e) c accepted h = cc

  ensured :
      (c : DefaultClient)
      → (ensure_authenticated o c).1 ≡ ok tt
      → Accepted o c.clock (ensure_authenticated o c).0
  ensured c h =
      let whole : ensure_authenticated o c ≡ ((ensure_authenticated o c).0, ok tt) =
        ap (λ r. ((ensure_authenticated o c).0, r)) h in
      ensure_authenticated_sound o c whole

  decoded_inv :
      (ps : Option (List Project)) {qs : List Project} → decoded o ps ≡ ok qs → ps ≡ some qs
  unfolding decoded
  decoded_inv (some ps) h = cc
  decoded_inv none h = cc

  listed_inv :
      (r : Result ClientError ApiResponse) (c : DefaultClient) {c' : DefaultClient}
      {ps : List Project}
      → listed o r c ≡ (c', ok ps)
      → (resp : ApiResponse) × (r ≡ ok resp)
        × (c' ≡ c)
        × (resp.status ≡ 200)
        × (resp.projects ≡ some ps)
  unfolding listed decoded
  listed_inv (ok resp) c h =
      (resp, refl, ground arith, ground arith, ground (arith, decoded_inv resp.projects))
  listed_inv (err e) c h = cc

  created_inv :
      (r : Result ClientError ApiResponse) (c : DefaultClient) {c' : DefaultClient}
      → created o r c ≡ (c', ok tt)
      → (resp : ApiResponse) × (r ≡ ok resp) × (c' ≡ c) × (resp.status ≡ 201)
  unfolding created
  created_inv (ok resp) c h = (resp, refl, ground arith, ground arith)
  created_inv (err e) c h = cc

  pair_of :
      (p : DefaultClient × Result ClientError ApiResponse) (c' : DefaultClient) (resp : ApiResponse)
      → c' ≡ p.0
      → p.1 ≡ ok resp
      → p ≡ (c', ok resp)
  pair_of p c' resp e r = ap (λ x. (p.0, x)) r ∙ ap (λ x. (x, ok resp)) (sym e)

  -- A listing that succeeds is the body of a reply with status 200 to a GET of the projects with limit
  -- 100 and offset 0, sent with a token that the server had accepted in the same call.
  pub list_projects_sound :
      (c : DefaultClient) {c' : DefaultClient} {ps : List Project}
      → list_projects o c ≡ (c', ok ps)
      → (resp : ApiResponse) × Sent o c.clock list_request resp c'
        × (resp.status ≡ 200)
        × (resp.projects ≡ some ps)
  unfolding list_projects get
  list_projects_sound c {c'} h =
      let asked = get o "/v1alpha1/projects" (("limit", "100") ∷ ("offset", "0") ∷ []) c in
      let (resp, r, same, status, body) = listed_inv asked.1 asked.0 h in
      (
        resp,
        request_with_inv list_request c.clock (ensure_authenticated o c).1
            (ensure_authenticated o c).0 (ensured c) (pair_of asked c' resp same r),
        status,
        body,
      )

  -- A creation that succeeds was answered with status 201 to a POST of the request, sent with a token
  -- that the server had accepted in the same call.
  pub create_project-Sent :
      (req : CreateProjectRequest) (c : DefaultClient) {c' : DefaultClient}
      → create_project o req c ≡ (c', ok tt)
      → (resp : ApiResponse) × Sent o c.clock (create_request req) resp c' × (resp.status ≡ 201)
  unfolding create_project post
  create_project-Sent req c {c'} h =
      let asked = post o "/v1alpha1/projects" req c in
      let (resp, r, same, status) = created_inv asked.1 asked.0 h in
      (
        resp,
        request_with_inv (create_request req) c.clock (ensure_authenticated o c).1
            (ensure_authenticated o c).0 (ensured c) (pair_of asked c' resp same r),
        status,
      )

  -- When the client has authenticated, any answer at all makes the check of readiness a success,
  -- whatever its status.
  pub readiness_check_any_status :
      (c c' : DefaultClient) (resp : ApiResponse)
      → ensure_authenticated o c ≡ (c', ok tt)
      → o.send c'.clock (readiness_request c'.bearer_token) ≡ some resp
      → readiness_check o c ≡ (tick c', ok tt)
  unfolding readiness_check get request_with receive dropped
  readiness_check_any_status c c' resp signed answer =
      ap (λ p. then_do (dropped o) (then_do (request_with o readiness_request) p)) signed
      ∙ ap (λ r. then_do (dropped o) (receive o r (tick c'))) answer
