-- ===== src/Login/Confusion.antt =====
-- The state of a login that nobody has completed is a session to the middleware: pkg/server/
-- server.go keeps both in one Redis database, and pkg/auth/session/redis_store.go gives both the
-- prefix "session:".
use admin_api.Base.{
  ℕ, ◌+◌, ◌<◌, String, List, Option, some, none, false, ◌≡◌, ◌≢◌, refl, ap, sym, ◌∙◌, arith, ok,
  err, length,
}
use admin_api.Oauth.{GithubClient}
use admin_api.Session.Id.{generate_session_id, encode_to_string}
use admin_api.Session.Id.Laws.{count-encode_to_string}
use admin_api.Session.Redis.{Redis}
use admin_api.Session.Store.{Store, get_failed, redis_store}
use admin_api.Session.Store.Laws.{redis_contract}
use admin_api.Middleware.{next, is_public_path, session_middleware}
use admin_api.Middleware.Gate.{with_bearer, extract_session_id-with_bearer, held_session_passes}
use admin_api.Login.{redirect, login_handler, state_session, state_lifetime}
use admin_api.Login.Callback.{Shared}
use Prim.Native.String.{count}

-- The two stores that `New` makes over one Redis client share their sessions.
unfoldable pub redis-Shared :
    (r : Redis) (session_ttl : ℕ)
    → Shared (redis_store r session_ttl) (redis_store r state_lifetime)
unfolding redis_contract
redis-Shared r session_ttl = record {
  sessions = redis_contract r session_ttl;
  states = redis_contract r state_lifetime;
  same = λ now id s. refl;
}

-- The id of 32 bytes is not empty.
encode_to_string-ne-empty : (bytes : List ℕ) → length bytes ≡ 32 → encode_to_string bytes ≢ ""
encode_to_string-ne-empty bytes full e =
    omega (arith, count-encode_to_string bytes, ap count e, full)

module _ {S : Type 0} {session_store state_store : Store S}
    (shared : Shared session_store state_store) (c : GithubClient) where
  pub login_stores_state :
      (now : ℕ) (bytes : List ℕ) (redirect_uri : String) (s : S) (location : String)
      → (login_handler c state_store now (some bytes) redirect_uri s).1 ≡ redirect location none
      → (location ≡ c.github.auth_code_url (encode_to_string bytes))
        × ((state_store.create now (state_session now (encode_to_string bytes) redirect_uri) s).1
            ≡ ok tt)
        × ((login_handler c state_store now (some bytes) redirect_uri s).0
            ≡ (state_store.create now
                (state_session now (encode_to_string bytes) redirect_uri)
                s).0)
  unfolding login_handler generate_session_id
  login_stores_state now bytes redirect_uri s location h =
      (ground arith, ground arith, ground arith)

  -- Whoever starts a login is sent to a location that shows a fresh state. For the ten minutes that
  -- the state lives, that state, sent as a bearer token, passes the session middleware on every
  -- path that is not public, with a session of no user in the context. Neither GitHub nor the list
  -- of organisations has been asked. The lookup of the session must not fail.
  pub state_passes_as_session :
      (now : ℕ) (bytes : List ℕ) (redirect_uri : String) (s : S) (location : String)
      → length bytes ≡ 32
      → (login_handler c state_store now (some bytes) redirect_uri s).1 ≡ redirect location none
      → (t : ℕ) (path : String) (cookie : Option String) → t < now + state_lifetime
      → is_public_path path ≡ false
      → session_store.get t
          (encode_to_string bytes)
          (login_handler c state_store now (some bytes) redirect_uri s).0
        ≢ err get_failed
      → (location ≡ c.github.auth_code_url (encode_to_string bytes))
        × (session_middleware session_store t
              (with_bearer path (encode_to_string bytes) cookie)
              (login_handler c state_store now (some bytes) redirect_uri s).0
            ≡ next (some (state_session now (encode_to_string bytes) redirect_uri)))
  state_passes_as_session now bytes redirect_uri s location full h t path cookie early closed up =
      let (shown, created, final) = login_stores_state now bytes redirect_uri s location h in
      let held : shared.sessions.held t (encode_to_string bytes)
            (login_handler c state_store now (some bytes) redirect_uri s).0
          ≡ some (state_session now (encode_to_string bytes) redirect_uri) =
        rw final (
          sym (shared.same t _ _)
          ∙ shared.states.create_held now (state_session now (encode_to_string bytes) redirect_uri)
              s created (omega arith) t
          ∙ ground arith) in
      let id = extract_session_id-with_bearer path (encode_to_string bytes) cookie in
      (
        shown,
        held_session_passes shared.sessions t (with_bearer path (encode_to_string bytes) cookie) _ _
            closed (rw id (encode_to_string-ne-empty bytes full)) (rw id held) (omega arith)
            (rw id up),
      )
