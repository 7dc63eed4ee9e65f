-- ===== src/Login/Roundtrip.antt =====
-- A login and its callback: where the user ends up.
use admin_api.Base.{
  ℕ, ◌+◌, ◌<◌, String, List, Option, some, none, Bool, true, ◌≡◌, ap, sym, ◌∙◌, arith, Option-cases,
  inl, inr, lt→ltb, str_eq, if◌then◌else◌,
}
use admin_api.Oauth.{GithubClient}
use admin_api.Session.{Session}
use admin_api.Session.Id.{generate_session_id, encode_to_string}
use admin_api.Session.Store.{Store}
use admin_api.Login.{
  redirect, Cookie, Identity, login_handler, state_session, state_lifetime, open_session,
  frontend_redirect,
}
use admin_api.Login.Callback.{Shared, run, callback_handler_stated, callback_redirect_steps}
use admin_api.Login.Confusion.{login_stores_state}

open_session_location :
    {S : Type 0} (session_store : Store S) (frontend_url : String) (session_ttl now : ℕ)
    (entropy : Option (List ℕ)) (state : String) (stated : Session) (who : Identity) (s : S)
    (location : String) (cookie : Option Cookie)
    → (open_session session_store frontend_url session_ttl now entropy state stated who s).1
      ≡ redirect location cookie
    → (session_id : String) × (generate_session_id entropy ≡ some session_id)
      × (location
          ≡ frontend_redirect
              (if str_eq stated.name "" then frontend_url else stated.name)
              session_id
              state)
unfolding open_session
open_session_location session_store frontend_url session_ttl now entropy state stated who s location
      cookie h =
    elim (Option-cases (generate_session_id entropy)) [
      | inl refused ↦ absurd (ground arith)
      | inr (session_id, e) ↦ (session_id, e, ground arith)
    ]

-- What a session held until its expiry is, before that.
some_eq :
    {b : Bool} {stated kept : Session}
    → some stated ≡ (if b then some kept else none)
    → b ≡ true
    → stated ≡ kept
some_eq h k = cc

module _ {S : Type 0} {session_store state_store : Store S}
    (shared : Shared session_store state_store) (c : GithubClient) (frontend_url : String)
    (session_ttl : ℕ) where
  -- The redirect URI that a login was started with, where one was given, is where a callback with
  -- its state sends the user, whatever it is: the location is that URI, or else the configured
  -- frontend, with the token of the new session. Nothing else may have happened to the store in
  -- between.
  pub login_callback_location :
      (now t : ℕ) (bytes : List ℕ) (redirect_uri : String) (s : S) (shown : String)
      (entropy : Option (List ℕ)) (code location : String) (cookie : Option Cookie)
      → (login_handler c state_store now (some bytes) redirect_uri s).1 ≡ redirect shown none
      → t < now + state_lifetime
      → (run shared c frontend_url session_ttl t entropy code
          (encode_to_string bytes)
          (login_handler c state_store now (some bytes) redirect_uri s).0).1
        ≡ redirect location cookie
      → (session_id : String) × (generate_session_id entropy ≡ some session_id)
        × (location
            ≡ frontend_redirect
                (if str_eq redirect_uri "" then frontend_url else redirect_uri)
                session_id
                (encode_to_string bytes))
  login_callback_location now t bytes redirect_uri s shown entropy code location cookie started
        early h =
      let state = encode_to_string bytes in
      let (_, created, final) =
        login_stores_state shared c now bytes redirect_uri s shown started in
      let (stated, who, given, got, known) =
        callback_redirect_steps shared c frontend_url session_ttl t entropy code state _ location
          cookie h in
      let held = shared.states.get_sound t state _ stated got in
      let stored =
        shared.states.create_held now (state_session now state redirect_uri) s created (omega arith)
          t in
      let same : stated ≡ state_session now state redirect_uri =
        some_eq (sym held ∙ ap (shared.states.held t state) final ∙ stored)
          (lt→ltb t (now + state_lifetime) early) in
      let steps =
        callback_handler_stated shared c frontend_url session_ttl t entropy code state _ stated who
          given got known in
      let (session_id, generated, sent) =
        open_session_location session_store frontend_url session_ttl t entropy state stated who _
          location cookie (rw steps at h) in
      (session_id, generated, rw same at sent)
