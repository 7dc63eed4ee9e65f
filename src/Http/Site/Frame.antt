-- ===== src/Http/Site/Frame.antt =====
-- Which sessions a request can change.
use admin_api.Base.{
  arith, ℕ, ◌+◌, String, List, Option, some, ◌≡◌, ◌≢◌, refl, sym, ap, subst, ◌∙◌, if_cases,
  Result-cases, Option-cases, Bool-cases, inl, inr,
}
use admin_api.Session.{Session}
use admin_api.Session.Id.{generate_session_id}
use admin_api.Session.Store.{Store}
use admin_api.Session.Store.Laws.{IsSessionStore}
use admin_api.Oauth.{GithubClient}
use admin_api.Login.{login_handler, state_session}
use admin_api.Login.Callback.{Shared}
use admin_api.Login.Replay.{callback_frame}
use admin_api.Service.Monad.{Pgtype}
use admin_api.Service.Auth.{logout, refresh_token}
use admin_api.Middleware.{
  Verdict, next, http_error, is_public_path, extract_session_id, session_middleware,
}
use admin_api.Middleware.Gate.{next_has_session}
use admin_api.Router.{
  handle_oauth_callback, initiate_login, get_liveness_check, get_readiness_check, list_projects,
  create_project, list_users, create_user, get_project, update_project, list_roles, create_role,
  list_user_groups, create_user_group, get_role, update_role, get_user_group, update_user_group,
  Endpoint, logout as to_logout, get_current_user as to_current_user, refresh_token as to_refresh,
  Routed, dispatch, not_allowed, not_found, serve_http,
}
use admin_api.Http.{HttpRequest, Ogen}
use admin_api.Http.Gate.{secure_sound}
use admin_api.Http.Security.{secure}
use admin_api.Http.Stages.{checked_cases}
use admin_api.Http.Handlers.{handle_logout, handle_refresh_token, handle_get_current_user}
use admin_api.Http.Handlers.Serve.{
  Backend, as_checked, run_endpoint, run_routed, after_middleware, serve,
}
use admin_api.Http.Site.{Visit, Reply, visit, is_login, is_callback}

module _ {S : Type 0} {store : Store S} (laws : IsSessionStore store) where
  -- Every session is held under its own id.
  abbrev pub IsKeyed : S → Type 0
  IsKeyed s =
      (now : ℕ) (id : String) (sess : Session) → laws.held now id s ≡ some sess → sess.id ≡ id

  -- The session that the store gives a request, if any.
  passed_session :
      (now : ℕ) (path : String) (req : HttpRequest) (s : S) (sess : Session)
      → session_middleware store now (as_checked path req) s ≡ next (some sess)
      → laws.held now (extract_session_id (as_checked path req)) s ≡ some sess
  unfolding session_middleware
  passed_session now path req s sess h = elim (Bool-cases (is_public_path path)) [
    | inl open_path ↦ ground arith
    | inr closed ↦
        let (sess', same, _, held, _) =
          next_has_session laws now (as_checked path req) s (some sess) closed h in
        held ∙ sym same
  ]

  -- A session under another id is held as before.
  record Kept (t : ℕ) (j : String) (s s' : S) : Type 0 where
    held : laws.held t j s' ≡ laws.held t j s

  logout-Kept :
      (sess : Session) (s : S) (t : ℕ) (j : String)
      → j ≢ sess.id
      → Kept t j s (logout store (some sess) s).0
  unfolding logout
  logout-Kept sess s t j other = record { held = laws.delete_others sess.id s t j other }

  refresh-Kept :
      (parse : String → Option String) (session_ttl now : ℕ) (sess : Session) (s : S) (t : ℕ)
      (j : String)
      → IsKeyed s
      → j ≢ sess.id
      → Kept t j s (refresh_token store parse session_ttl now (some sess) s).0
  unfolding refresh_token
  refresh-Kept parse session_ttl now sess s t j keyed other =
      elim (Result-cases (store.get now sess.id s)) [
        | inr (e, failed) ↦ record {
          held =
              ap (λ (p : S × _). laws.held t j p.0)
                (laws.refresh_error now sess.id (now + session_ttl) s e failed);
        }
        | inl (found, got) ↦ record {
          held =
              ap (λ (p : S × _). laws.held t j p.0)
                (laws.refresh_create now sess.id (now + session_ttl) s found got)
              ∙ laws.create_others now (record found { expires_at = now + session_ttl }) s t j
                  (λ e.
                    other (e ∙ keyed now sess.id found (laws.get_sound now sess.id s found got)));
        }
      ]

  unkept : (t : ℕ) (j : String) (s : S) → Kept t j s s
  unkept t j s = record { held = refl }

  module _ (parse : String → Option String) (session_ttl : ℕ) (o : Ogen) (u : Pgtype) (t : ℕ)
      (j : String) (now : ℕ) (req : HttpRequest) (found : Option Session)
      (own : (sess : Session) → found ≡ some sess → j ≢ sess.id) where
    handle_logout-Kept :
        (s : S) → Kept t j s (handle_logout store parse session_ttl now found req s).0
    unfolding handle_logout
    handle_logout-Kept s =
        checked_cases (λ p. Kept t j s p.0) (secure found req) _ s (λ e _. unkept t j s)
          λ a h.
            let (sess, f, g) = secure_sound found req h in
            subst (λ a. Kept t j s (logout store a s).0) (sym g)
              (logout-Kept sess s t j (own sess f))

    handle_refresh_token-Kept :
        (s : S)
        → IsKeyed s
        → Kept t j s (handle_refresh_token store parse session_ttl now found req s).0
    unfolding handle_refresh_token
    handle_refresh_token-Kept s keyed =
        checked_cases (λ p. Kept t j s p.0) (secure found req) _ s (λ e _. unkept t j s)
          λ a h.
            let (sess, f, g) = secure_sound found req h in
            subst (λ a. Kept t j s (refresh_token store parse session_ttl now a s).0) (sym g)
              (refresh-Kept parse session_ttl now sess s t j keyed (own sess f))

    handle_get_current_user-Kept :
        (s : S) → Kept t j s (handle_get_current_user store parse session_ttl now found req s).0
    unfolding handle_get_current_user
    handle_get_current_user-Kept s =
        checked_cases (λ p. Kept t j s p.0) (secure found req) _ s (λ e _. unkept t j s)
          λ a h. unkept t j s

    endpoint-Kept :
        (e : Endpoint) (b : Backend S)
        → IsKeyed b.sessions
        → Kept t j b.sessions
            (run_endpoint store parse session_ttl o u now found req e b).0.sessions
    unfolding run_endpoint
    endpoint-Kept to_logout b keyed = handle_logout-Kept b.sessions
    endpoint-Kept to_current_user b keyed = handle_get_current_user-Kept b.sessions
    endpoint-Kept to_refresh b keyed = handle_refresh_token-Kept b.sessions keyed
    endpoint-Kept handle_oauth_callback b keyed = unkept t j b.sessions
    endpoint-Kept initiate_login b keyed = unkept t j b.sessions
    endpoint-Kept get_liveness_check b keyed = unkept t j b.sessions
    endpoint-Kept get_readiness_check b keyed = unkept t j b.sessions
    endpoint-Kept list_projects b keyed = unkept t j b.sessions
    endpoint-Kept create_project b keyed = unkept t j b.sessions
    endpoint-Kept list_users b keyed = unkept t j b.sessions
    endpoint-Kept create_user b keyed = unkept t j b.sessions
    endpoint-Kept (get_project p) b keyed = unkept t j b.sessions
    endpoint-Kept (update_project p) b keyed = unkept t j b.sessions
    endpoint-Kept (list_roles p) b keyed = unkept t j b.sessions
    endpoint-Kept (create_role p) b keyed = unkept t j b.sessions
    endpoint-Kept (list_user_groups p) b keyed = unkept t j b.sessions
    endpoint-Kept (create_user_group p) b keyed = unkept t j b.sessions
    endpoint-Kept (get_role p r) b keyed = unkept t j b.sessions
    endpoint-Kept (update_role p r) b keyed = unkept t j b.sessions
    endpoint-Kept (get_user_group p r) b keyed = unkept t j b.sessions
    endpoint-Kept (update_user_group p r) b keyed = unkept t j b.sessions

    routed-Kept :
        (r : Routed) (b : Backend S)
        → IsKeyed b.sessions
        → Kept t j b.sessions (run_routed store parse session_ttl o u now found req r b).0.sessions
    unfolding run_routed
    routed-Kept (dispatch e) b keyed = endpoint-Kept e b keyed
    routed-Kept (not_allowed allow) b keyed = unkept t j b.sessions
    routed-Kept not_found b keyed = unkept t j b.sessions

  module _ (parse : String → Option String) (session_ttl : ℕ) (o : Ogen) (u : Pgtype) (t : ℕ)
      (j : String) (now : ℕ) (method path : String) (req : HttpRequest) (b : Backend S)
      (keyed : IsKeyed b.sessions) (other : j ≢ extract_session_id (as_checked path req)) where
    verdict-Kept :
        (v : Verdict)
        → session_middleware store now (as_checked path req) b.sessions ≡ v
        → Kept t j b.sessions
            (after_middleware store parse session_ttl o u now method path req v b).0.sessions
    unfolding after_middleware
    verdict-Kept (next found) passed =
        routed-Kept parse session_ttl o u t j now req found
          (λ sess f e. other (
            e
            ∙ keyed now _ sess (passed_session now path req b.sessions sess (passed ∙ ap next f))))
          (serve_http method path) b keyed
    verdict-Kept (http_error status message) passed = unkept t j b.sessions

    serve-Kept :
        Kept t j b.sessions (serve store parse session_ttl o u now method path req b).0.sessions
    unfolding serve
    serve-Kept = verdict-Kept _ refl

module _ {S : Type 0} {session_store state_store : Store S}
    (shared : Shared session_store state_store) (c : GithubClient) where
  login_handler-held :
      (now : ℕ) (entropy : Option (List ℕ)) (redirect_uri : String) (s : S) (t : ℕ) (j : String)
      → generate_session_id entropy ≢ some j
      → shared.states.held t j (login_handler c state_store now entropy redirect_uri s).0
        ≡ shared.states.held t j s
  unfolding login_handler
  login_handler-held now entropy redirect_uri s t j fresh =
      elim (Option-cases (generate_session_id entropy)) [
        | inl no_bytes ↦ rw (no_bytes, login_handler) refl
        | inr (state, drawn) ↦
            rw (drawn, login_handler)
              (shared.states.create_others now (state_session now state redirect_uri) s t j
                (λ e. fresh (drawn ∙ ap some (sym e))))
      ]

  -- A request to the site, whatever it is and whatever becomes of it, changes no session but the one
  -- whose id it carries, the one whose id it draws, and the state that it names; every other id holds
  -- at any time what it held before, provided that the sessions are held under their own ids.
  pub visit_frame :
      (frontend_url : String) (parse : String → Option String) (session_ttl : ℕ) (o : Ogen)
      (u : Pgtype) (v : Visit) (b : Backend S) (t : ℕ) (j : String)
      → IsKeyed shared.sessions b.sessions
      → j ≢ extract_session_id (as_checked v.path v.request)
      → generate_session_id v.entropy ≢ some j
      → j ≢ v.param "state"
      → shared.sessions.held t j
          (visit session_store state_store c frontend_url parse session_ttl o u v b).0.sessions
        ≡ shared.sessions.held t j b.sessions
  unfolding visit
  visit_frame frontend_url parse session_ttl o u v b t j keyed other fresh unnamed =
      (if_cases Untouched (is_login v)
        (λ _. record {
          held =
              sym (shared.same t j _)
              ∙ login_handler-held v.now v.entropy (v.param "redirect_uri") b.sessions t j fresh
              ∙ shared.same t j b.sessions;
        })
        λ _.
          if_cases Untouched (is_callback v)
            (λ _. record {
              held =
                  callback_frame shared c frontend_url session_ttl v.now v.entropy (v.param "code")
                    (v.param "state") b.sessions t j unnamed fresh;
            })
            λ _.
              serve-Kept shared.sessions parse session_ttl o u t j v.now v.method v.path v.request b
                keyed other).held
    where
      Untouched : Backend S × Reply → Type 0
      Untouched p = Kept shared.sessions t j b.sessions p.0.sessions
