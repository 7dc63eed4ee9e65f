-- ===== src/Service/Auth/Lifetime.antt =====
-- How long a session lasts: logout ends it, a refresh extends it.
use admin_api.Base.{
  ℕ, ◌+◌, ◌<◌, String, Option, none, some, ◌≡◌, ◌≢◌, refl, sym, arith, false, ltb, if◌then◌else◌,
  ok, Result-cases, inl, inr,
}
use admin_api.Session.{Session}
use admin_api.Session.Store.{Store}
use admin_api.Session.Store.Laws.{IsSessionStore}
use admin_api.Middleware.{next, is_public_path, session_middleware, extract_session_id, Request}
use admin_api.Middleware.Gate.{no_session_no_entry}
use admin_api.Service.Auth.{AuthenticatedUser, authenticated, logout, refresh_token}

module _ {S : Type 0} {store : Store S} (laws : IsSessionStore store) where
  -- After a logout whose deletion the store acknowledged, no request with the id of the session
  -- passes the session middleware on a path that is not public, at any time, and every other
  -- session is held as before.
  pub logout_revokes :
      (sess : Session) (s : S)
      → (store.delete sess.id s).1 ≡ ok tt
      → ((now : ℕ) (req : Request) (found : Option Session)
          → extract_session_id req ≡ sess.id
          → is_public_path req.path ≡ false
          → session_middleware store now req (logout store (some sess) s).0 ≢ next found)
        × ((now : ℕ) (other : String)
            → other ≢ sess.id
            → laws.held now other (logout store (some sess) s).0 ≡ laws.held now other s)
  unfolding logout
  logout_revokes sess s done = (
    λ now req found same closed.
        no_session_no_entry laws now req _ found closed
          (rw same (laws.delete_held sess.id s done now)),
    λ now other apart. laws.delete_others sess.id s now other apart,
  )

  refresh_steps :
      (parse : String → Option String) (session_ttl now : ℕ) (sess : Session) (s : S)
      (who : AuthenticatedUser)
      → (refresh_token store parse session_ttl now (some sess) s).1 ≡ authenticated who
      → ((store.refresh now sess.id (now + session_ttl) s).1 ≡ ok tt)
        × ((refresh_token store parse session_ttl now (some sess) s).0
            ≡ (store.refresh now sess.id (now + session_ttl) s).0)
  unfolding refresh_token
  refresh_steps parse session_ttl now sess s who h =
      elim (Result-cases (store.refresh now sess.id (now + session_ttl) s).1) [
        | inl (_, e) ↦ (e, refl)
        | inr (x, e) ↦ absurd (ground arith)
      ]

  -- For a lifetime of sessions that is not zero, and a store in which whatever is held under the id of
  -- the request's session has that very id as its own: a refresh that answers with the user has
  -- stored the session that the store holds under that id with the new expiry, and it is held from
  -- then exactly until the lifetime has passed.
  pub refresh_token_extends :
      (parse : String → Option String) (session_ttl now : ℕ) (sess : Session) (s : S)
      (who : AuthenticatedUser)
      → 0 < session_ttl
      → ((kept : Session) → laws.held now sess.id s ≡ some kept → kept.id ≡ sess.id)
      → (refresh_token store parse session_ttl now (some sess) s).1 ≡ authenticated who
      → (kept : Session) × (laws.held now sess.id s ≡ some kept)
        × ((t : ℕ)
            → laws.held t sess.id (refresh_token store parse session_ttl now (some sess) s).0 ≡ (
                if ltb t (now + session_ttl)
                then some (record kept { expires_at = now + session_ttl })
                else none))
  refresh_token_extends parse session_ttl now sess s who lasting named h =
      let (done, final) = refresh_steps parse session_ttl now sess s who h in
      elim (Result-cases (store.get now sess.id s)) [
        | inr (x, e) ↦ absurd (cc (laws.refresh_error now sess.id (now + session_ttl) s x e, done))
        | inl (kept, e) ↦
            let stored = laws.refresh_create now sess.id (now + session_ttl) s kept e in
            let held = laws.get_sound now sess.id s kept e in
            let same = named kept held in
            (
              kept,
              held,
              λ t.
                  rw (final, stored, sym same)
                    (laws.create_held now (record kept { expires_at = now + session_ttl }) s
                      (rw stored at done) (omega arith) t),
            )
      ]
