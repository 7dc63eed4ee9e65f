-- ===== src/Http/Site/Delivery/Reply.antt =====
-- The reply to a request of the client, as pkg/client/v1alpha1/project.go reads it.
use admin_api.Base.{
  ℕ, ◌≤◌, String, List, Option, none, some, true, ◌≡◌, ◌≢◌, refl, ap, ◌∙◌, arith, map, Result, ok,
  err,
}
use admin_api.Base.Int.{pos}
use admin_api.Session.{Session}
use admin_api.Session.Store.{Store, get_failed}
use admin_api.Session.Store.Laws.{IsSessionStore}
use admin_api.Admindb.World.{World}
use admin_api.Service.Monad.{Pgtype, Failure}
use admin_api.Service.Types.{CreateProjectRequest, Project}
use admin_api.Service.Projects
use admin_api.Router
use admin_api.Router.{dispatch, serve_http}
use admin_api.Router.Complete.{serve_http_complete}
use admin_api.Client.{
  Outside, ApiRequest, ApiResponse, DefaultClient, ClientError, unexpected_status, no_reply,
}
use admin_api.Client.Api.{created, listed, decoded}
use admin_api.Client.Requests.{create_request, list_request}
use admin_api.Middleware.{is_public_path}
use admin_api.Http.{as_internal, HttpError, internal, Ogen, call}
use admin_api.Http.Body.{validate_kind}
use admin_api.Http.Stages.{checked_ok}
use admin_api.Http.Params.{decode_page, decode_int}
use admin_api.Http.Handlers.{handle_list_projects}
use admin_api.Http.Handlers.Serve.{
  Backend, Answer, answer, project, projects, serve, run_endpoint, run_routed,
}
use admin_api.Http.Replies.Encoders.{
  Written, encode_create_project_response, encode_list_projects_response,
}
use admin_api.Http.Replies.Answers.{Library, encode_response, write}
use admin_api.Http.Replies.Roundtrip.{
  Rounds, rounded, decode_list_projects, decode_list_projects-encode_list_projects,
}
use admin_api.Http.Site.Delivery.{deliver, serve_delivered, secure_delivered, create_request-serve}

module _ (l : Library) where
  -- The body as a list of projects, if it is one. It comes whole, and its `Close` succeeds.
  abbrev pub received : Written → ApiResponse
  received w = record {
    status = w.status;
    projects = elim w.document [ none ↦ none | some d ↦ decode_list_projects l.date_time d ];
    closes = true;
  }

  -- What `c.c.Do` gives the client for an answer of the server.
  abbrev pub do_result : Option Written → Result ClientError ApiResponse
  do_result (some w) = ok (received w)
  do_result none = err no_reply

  abbrev pub answer_to : ApiRequest → Answer → Result ClientError ApiResponse
  answer_to r a = do_result (write l (serve_http r.method r.endpoint) a)

  -- What the client makes of a call of the service.
  abbrev pub created_result : Result Failure Project → Result ClientError (Unit {0})
  created_result (ok p) = ok tt
  created_result (err e) = err (unexpected_status (l.error_handler (internal e)).status)

  abbrev pub listed_result :
      (ℕ → ℕ) → Result Failure (List Project) → Result ClientError (List Project)
  listed_result round (ok ps) = ok (map (rounded round) ps)
  listed_result round (err e) = err (unexpected_status (l.error_handler (internal e)).status)

  module _ (distinct : (e : Failure) → (l.error_handler (internal e)).status ≢ 201)
      (outside : Outside) (c : DefaultClient) where
    reported :
        (r : Result Failure Project)
        → created outside
            (do_result (write l (dispatch Router.create_project) (answer project (as_internal r))))
            c
          ≡ (c, created_result r)
    unfolding created write encode_response encode_create_project_response as_internal
    reported (ok p) = refl
    reported (err e) = let d = distinct e in ground arith

  module _ (distinct : (e : Failure) → (l.error_handler (internal e)).status ≢ 200) {round : ℕ → ℕ}
      (rounds : Rounds l.date_time round) (outside : Outside) (c : DefaultClient) where
    shown :
        (r : Result Failure (List Project))
        → listed outside
            (do_result (write l (dispatch Router.list_projects) (answer projects (as_internal r))))
            c
          ≡ (c, listed_result round r)
    unfolding listed decoded write encode_response encode_list_projects_response as_internal
    shown (ok ps) = rw (decode_list_projects-encode_list_projects rounds ps, decoded) refl
    shown (err e) = let d = distinct e in ground arith

-- The texts "100" and "0" are numbers in range, as the library ogen reads and checks them.
pub record ReadsPage (o : Ogen) : Type 0 where
  pub limit : o.to_int "100" ≡ some (pos 100)
  pub offset : o.to_int "0" ≡ some (pos 0)
  pub limit_valid : o.validate_int 1 (some 100) (pos 100) ≡ true
  pub offset_valid : o.validate_int 0 none (pos 0) ≡ true

page_read :
    (o : Ogen) (token : String)
    → ReadsPage o
    → decode_page o (deliver (list_request token)) ≡ ok (record { limit = pos 100; offset = pos 0 })
unfolding decode_page decode_int
page_read o token p =
    let a = p.limit in
    let b = p.offset in let c = p.limit_valid in let d = p.offset_valid in rw (a, b, c, d) refl

module _ {S : Type 0} {session_store : Store S} (laws : IsSessionStore session_store)
    (parse : String → Option String) (session_ttl : ℕ) (o : Ogen) (u : Pgtype) (token : String)
    (given : token ≢ "") (now : ℕ) (sess : Session) (b : Backend S)
    (held : laws.held now token b.sessions ≡ some sess) (fresh : now ≤ sess.expires_at)
    (up : session_store.get now token b.sessions ≢ err get_failed) (l : Library) (outside : Outside)
    (c : DefaultClient) where
  -- To a client's request to create a project, with the id of a held session that has not expired as
  -- its token, at a store that answers, and with a kind that is one of the two, the server replies so
  -- that the client reports a success if `CreateProject` of the service gives a project, and
  -- otherwise the status that the error handler gives to the failure, which must not be 201.
  pub create_request_reported :
      (req : CreateProjectRequest)
      → validate_kind req.kind ≡ true
      → ((e : Failure) → (l.error_handler (internal e)).status ≢ 201)
      → created outside
          (answer_to l
            (create_request req token)
            (serve session_store parse session_ttl o u now "POST" "/v1alpha1/projects"
              (deliver (create_request req token))
              b).1)
          c
        ≡ (c, created_result l (Projects.create_project u req b.world).1)
  unfolding call
  create_request_reported req k distinct =
      ap
        (λ (a : Backend S × Answer). created outside (answer_to l (create_request req token) a.1) c)
        (create_request-serve laws parse session_ttl o u token given now sess b held fresh up req k)
      ∙ ap
          (λ r.
            created outside
              (do_result l (
                write l r (answer project (as_internal (Projects.create_project u req b.world).1))))
              c)
          (serve_http_complete Router.create_project tt)
      ∙ reported l distinct outside c _

  list_handled :
      ReadsPage o
      → (w : World)
      → handle_list_projects o u (some sess) (deliver (list_request token)) w
        ≡ call (Projects.list_projects u 100 0) w
  unfolding handle_list_projects
  list_handled p w =
      checked_ok _ _ w (secure_delivered (list_request token) sess given)
      ∙ checked_ok _ _ w (page_read o token p)

  -- To a client's request for a listing, with the id of a held session that has not expired as its
  -- token and at a store that answers, the server replies so that the client has the very projects
  -- that `ListProjects` of the service gives for limit 100 and offset 0, their instants rounded as
  -- the text of an instant rounds them, or the status that the error handler gives to a failure. The
  -- library must read "100" and "0" as numbers in range, and the status must not be 200.
  pub list_request_shown :
      {round : ℕ → ℕ}
      → ReadsPage o
      → Rounds l.date_time round
      → ((e : Failure) → (l.error_handler (internal e)).status ≢ 200)
      → listed outside
          (answer_to l
            (list_request token)
            (serve session_store parse session_ttl o u now "GET" "/v1alpha1/projects"
              (deliver (list_request token))
              b).1)
          c
        ≡ (c, listed_result l round (Projects.list_projects u 100 0 b.world).1)
  unfolding call run_routed run_endpoint is_public_path
  list_request_shown {round} p rounds distinct =
      let see = λ (a : Answer). listed outside (answer_to l (list_request token) a) c in
      ap (λ (a : Backend S × Answer). see a.1)
        (serve_delivered laws parse session_ttl o u token given now sess b held fresh up
          (list_request token) refl refl)
      ∙ ap
          (λ r.
            see
              (run_routed session_store parse session_ttl o u now (some sess)
                (deliver (list_request token)) r b).1)
          (serve_http_complete Router.list_projects tt)
      ∙ ap (λ (a : World × Result HttpError (List Project)). see (answer projects a.1))
          (list_handled p b.world)
      ∙ ap
          (λ r.
            listed outside
              (do_result l (
                write l r
                  (answer projects (as_internal (Projects.list_projects u 100 0 b.world).1))))
              c)
          (serve_http_complete Router.list_projects tt)
      ∙ shown l distinct rounds outside c _
