-- ===== src/Http/Site/Delivery/Me.antt =====
-- The check of a token, `GetCurrentUser` of pkg/client/auth/token.go, at the server.
use Prim.Native.String
use mathlib.Core.Option
use admin_api.Base.{
  ℕ, ◌≤◌, String, List, [], ◌∷◌, Option, none, some, false, ◌≡◌, ◌≢◌, refl, sym, ap, ◌∙◌, arith,
  Result, ok, err,
}
use admin_api.Session.{Session}
use admin_api.Session.Json.{as_text, as_int}
use admin_api.Session.Store.{Store, get_failed, StoreError, not_found}
use admin_api.Session.Store.Laws.{IsSessionStore}
use admin_api.Service.Monad.{Pgtype}
use admin_api.Service.Auth.{
  AuthReply, authenticated, no_content, error_response, panicked, describe, TeamMembership,
  AuthenticatedUser,
}
use admin_api.Service.Auth
use admin_api.Middleware.{
  Verdict, Request, admit, next, http_error, session_middleware, is_public_path, extract_session_id,
}
use admin_api.Middleware.Gate.{next_has_session, extract_session_id-with_bearer}
use admin_api.Router.{get_current_user, dispatch, serve_http}
use admin_api.Router.Complete.{serve_http_complete}
use admin_api.Client.{MeReply, no_answer, answered}
use admin_api.Client.Oauth.{read_user}
use admin_api.Client.Documents.{
  decode_user, decode_struct, decode_fields, set_user, as_github_user, set_github_user, as_teams,
  decode_teams, set_team,
}
use admin_api.Http.{HttpRequest, HttpError, absent, empty, Ogen}
use admin_api.Http.Stages.{checked_ok}
use admin_api.Http.Gate.{credential_secure}
use admin_api.Http.Handlers.{handle_get_current_user}
use admin_api.Http.Handlers.Serve.{
  Backend, Answer, answer, replied, refused, auth, as_checked, serve, after_middleware, run_routed,
  run_endpoint,
}
use admin_api.Http.Replies.{
  encode_elems, encode_authenticated_user, encode_github_user, encode_team_membership,
}
use admin_api.Http.Replies.Encoders.{Written, encode_get_current_user_response}
use admin_api.Http.Replies.Answers.{Library, encode_response, write}
use admin_api.Http.Site.Delivery.{serve_bearer}

-- The request, as the server reads it.
abbrev pub me_request : String → HttpRequest
me_request token = record {
  authorization = String.◌++◌ "Bearer " token ∷ [];
  cookie = none;
  escaped = false;
  query = λ name. absent;
  content_type = some "application/json";
  body = empty;
}

-- What the client meets of the reply.
abbrev pub me_reply : Option Written → MeReply
me_reply none = no_answer
me_reply (some w) = answered w.status (elim w.document [ none ↦ none | some d ↦ decode_user d ])

teams_read :
    (tms : List TeamMembership) → decode_teams (encode_elems encode_team_membership tms) ≡ some tms
unfolding decode_teams encode_team_membership decode_struct decode_fields set_team as_text
    Option.bind
teams_read [] = refl
teams_read (tm ∷ tms) = rw (teams_read tms) refl

-- The client reads the user that the server writes.
decode_user-encode_authenticated_user :
    (a : AuthenticatedUser) → decode_user (encode_authenticated_user a) ≡ some a
unfolding decode_user encode_authenticated_user encode_github_user decode_struct decode_fields
    set_user as_github_user set_github_user as_teams as_text as_int Option.bind
decode_user-encode_authenticated_user a = rw (teams_read a.team_memberships) refl

refused_read :
    (status : ℕ) (d : Option AuthenticatedUser) {user : AuthenticatedUser}
    → status ≢ 200
    → read_user (answered status d) ≢ ok user
refused_read status (some a) other h = ground arith
refused_read status none other h = ground arith

module _ (l : Library) where
  abbrev pub me_answer : Answer → MeReply
  me_answer a = me_reply (write l (serve_http "GET" "/v1alpha1/auth/me") a)

  shown :
      (a : AuthenticatedUser)
      → read_user
          (me_reply (write l (dispatch get_current_user) (replied (auth (authenticated a)))))
        ≡ ok a
  unfolding write encode_response encode_get_current_user_response
  shown a = rw (decode_user-encode_authenticated_user a) refl

  -- A user that the client reads is the one of the reply.
  read :
      (reply : AuthReply) {user : AuthenticatedUser}
      → read_user (me_reply (write l (dispatch get_current_user) (replied (auth reply)))) ≡ ok user
      → reply ≡ authenticated user
  unfolding write encode_response encode_get_current_user_response
  read (authenticated a) h = cc (shown a, h)
  read no_content h = cc
  read (error_response error) h = absurd (refused_read 401 _ (λ e. omega arith) h)
  read panicked h = cc

-- The status of an error of the middleware, and one that is none where there is no error.
abbrev status_of : Verdict → ℕ
status_of (next found) = 0
status_of (http_error status message) = status

status_of-admit :
    (now : ℕ) (answer : Result StoreError Session) → status_of (admit now answer) ≢ 200
unfolding admit
status_of-admit now (err not_found) e = omega arith
status_of-admit now (err _) e = omega arith
status_of-admit now (ok sess) e = ground arith

status_of-session_middleware :
    {S : Type 0} (store : Store S) (now : ℕ) (req : Request) (s : S)
    → status_of (session_middleware store now req s) ≢ 200
unfolding session_middleware
status_of-session_middleware store now req s e =
    let k = status_of-admit now (store.get now (extract_session_id req) s) in ground arith

module _ {S : Type 0} {session_store : Store S} (laws : IsSessionStore session_store)
    (parse : String → Option String) (session_ttl : ℕ) (o : Ogen) (u : Pgtype) (token : String)
    (now : ℕ) (b : Backend S) (l : Library) where
  -- With a session in the context, the handler describes it.
  routed :
      (sess : Session)
      → extract_session_id (as_checked "/v1alpha1/auth/me" (me_request token)) ≢ ""
      → read_user (
          me_answer l
            (run_routed session_store parse session_ttl o u now
              (some sess)
              (me_request token)
              (serve_http "GET" "/v1alpha1/auth/me")
              b).1)
        ≡ read_user
            (me_reply (write l (dispatch get_current_user) (replied (auth (describe parse sess)))))
  unfolding run_routed run_endpoint handle_get_current_user Auth.get_current_user
  routed sess given =
      let see = λ (a : Answer). read_user (me_answer l a) in
      ap
        (λ r.
          see
            (run_routed session_store parse session_ttl o u now (some sess) (me_request token) r
              b).1)
        (serve_http_complete get_current_user tt)
      ∙ ap (λ (a : S × Result HttpError AuthReply). see (answer auth a.1))
          (checked_ok _ _ b.sessions
            (credential_secure "/v1alpha1/auth/me" sess (me_request token) given))
      ∙ ap (λ r. read_user (me_reply (write l r (replied (auth (describe parse sess))))))
          (serve_http_complete get_current_user tt)

  -- A client that asks the server who the holder of its token is, at a store that answers, accepts
  -- the token if it is the id of a held session that has not expired, and reads the user that
  -- `GetCurrentUser` describes of that session, provided that the session's avatar is a URL.
  pub me_request_accepted :
      (sess : Session) {user : AuthenticatedUser}
      → token ≢ ""
      → laws.held now token b.sessions ≡ some sess
      → now ≤ sess.expires_at
      → session_store.get now token b.sessions ≢ err get_failed
      → describe parse sess ≡ authenticated user
      → read_user (
          me_answer l
            (serve session_store parse session_ttl o u now "GET" "/v1alpha1/auth/me"
              (me_request token)
              b).1)
        ≡ ok user
  unfolding is_public_path
  me_request_accepted sess {user} given held fresh up described =
      let id = extract_session_id-with_bearer "/v1alpha1/auth/me" token none in
      ap (λ (a : Backend S × Answer). read_user (me_answer l a.1))
        (serve_bearer laws parse session_ttl o u token given now sess b held fresh up "GET"
          "/v1alpha1/auth/me" (me_request token) id refl)
      ∙ routed sess (λ e. given (sym id ∙ e))
      ∙ ap
          (λ reply.
            read_user (me_reply (write l (dispatch get_current_user) (replied (auth reply)))))
          described
      ∙ shown l user

  module _
      (refused_status : (status : ℕ) (message : String)
        → (l.http_error status message).status ≡ status)
      {user : AuthenticatedUser} where
    passed :
        (found : Option Session)
        → session_middleware session_store now
            (as_checked "/v1alpha1/auth/me" (me_request token))
            b.sessions
          ≡ next found
        → read_user (
            me_answer l
              (run_routed session_store parse session_ttl o u now found
                (me_request token)
                (serve_http "GET" "/v1alpha1/auth/me")
                b).1)
          ≡ ok user
        → (sess : Session) × (laws.held now token b.sessions ≡ some sess)
          × (now ≤ sess.expires_at)
          × (describe parse sess ≡ authenticated user)
    unfolding is_public_path
    passed found h accepted =
        let id = extract_session_id-with_bearer "/v1alpha1/auth/me" token none in
        let (sess, same, given, held, fresh) =
          next_has_session laws now _ b.sessions found refl h in
        (
          sess,
          sym (ap (λ i. laws.held now i b.sessions) id) ∙ held,
          fresh,
          read l (describe parse sess) (
              sym (routed sess given)
              ∙ ap
                  (λ f. read_user (
                    me_answer l
                      (run_routed session_store parse session_ttl o u now f (me_request token)
                        (serve_http "GET" "/v1alpha1/auth/me") b).1))
                  (sym same)
              ∙ accepted),
        )

    through :
        (v : Verdict)
        → session_middleware session_store now
            (as_checked "/v1alpha1/auth/me" (me_request token))
            b.sessions
          ≡ v
        → read_user (
            me_answer l
              (after_middleware session_store parse session_ttl o u now "GET" "/v1alpha1/auth/me"
                (me_request token)
                v
                b).1)
          ≡ ok user
        → (sess : Session) × (laws.held now token b.sessions ≡ some sess)
          × (now ≤ sess.expires_at)
          × (describe parse sess ≡ authenticated user)
    unfolding after_middleware write
    through (next found) h accepted = passed found h accepted
    through (http_error status message) h accepted = absurd (
        refused_read _ _
          (λ e.
            status_of-session_middleware session_store now _ b.sessions
              (ap status_of h ∙ sym (refused_status status message) ∙ e))
          (ap (λ r. read_user (me_reply (write l r (refused status message))))
              (sym (serve_http_complete get_current_user tt))
            ∙ accepted))

    -- A client that asks the server so accepts a token only if it is the id of a held session that
    -- has not expired, and the user that it reads is the one that `GetCurrentUser` describes of that
    -- session, provided that echo keeps the status of an error.
    pub me_request_sound :
        read_user (
            me_answer l
              (serve session_store parse session_ttl o u now "GET" "/v1alpha1/auth/me"
                (me_request token)
                b).1)
          ≡ ok user
        → (sess : Session) × (laws.held now token b.sessions ≡ some sess)
          × (now ≤ sess.expires_at)
          × (describe parse sess ≡ authenticated user)
    unfolding serve
    me_request_sound accepted = through _ refl accepted
