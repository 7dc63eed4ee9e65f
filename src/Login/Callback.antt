-- ===== src/Login/Callback.antt =====
-- What a completed callback has checked and stored.

use admin_api.Base.{
  ℕ, ◌+◌, ◌<◌, String, List, Option, none, some, true, ◌≡◌, ◌≢◌, inl, inr, refl, ap, sym, ◌∙◌,
  arith, eq_iff, ltb, if◌then◌else◌, ok, Result-cases, Option-cases,
}
use admin_api.Oauth.{
  GithubOrg, GithubClient, exchange_code, get_user, get_user_orgs, validate_org_membership,
}
use admin_api.Session.{Session}
use admin_api.Session.Id.{generate_session_id}
use admin_api.Session.Store.{Store}
use admin_api.Session.Store.Laws.{IsSessionStore}
use admin_api.Login.{
  Response, redirect, Cookie, Identity, identify, new_session, open_session, callback_handler,
  session_cookie,
}

-- GitHub accepted the code, named the user, and the organisations of the user pass the check.
pub record IsVouched (c : GithubClient) (code : String) (who : Identity) : Type 0 where
  pub exchanged : exchange_code c code ≡ ok who.token
  pub named : get_user c who.token ≡ ok who.user
  pub orgs : List GithubOrg
  pub listed : get_user_orgs c who.token ≡ ok orgs
  pub member : validate_org_membership c orgs ≡ true

identify-IsVouched :
    (c : GithubClient) (code : String) (who : Identity)
    → identify c code ≡ ok who
    → IsVouched c code who
unfolding identify
identify-IsVouched c code who h = elim (Result-cases (exchange_code c code)) [
  | inr (x, e) ↦ absurd (ground arith)
  | inl (token, e₁) ↦ elim (Result-cases (get_user c token)) [
    | inr (x, e) ↦ absurd (ground arith)
    | inl (user, e₂) ↦ elim (Result-cases (get_user_orgs c token)) [
      | inr (x, e) ↦ absurd (ground arith)
      | inl (orgs, e₃) ↦ record {
        exchanged = ground arith;
        named = ground arith;
        orgs = orgs;
        listed = ground arith;
        member = ground arith;
      }
    ]
  ]
]

-- The sessions of users hold the OAuth state and the sessions: both stores keep the same contract
-- over one shared state, and see the same sessions in it.
pub record Shared {S : Type 0} (session_store state_store : Store S) : Type 0 where
  pub sessions : IsSessionStore session_store
  pub states : IsSessionStore state_store
  pub same : (now : ℕ) (id : String) (s : S) → states.held now id s ≡ sessions.held now id s

module _ {S : Type 0} {session_store : Store S} (laws : IsSessionStore session_store) where
  -- `open_session` answers with a redirect only if the new session has been stored.
  open_session_sound :
      (frontend_url : String) (session_ttl now : ℕ) (entropy : Option (List ℕ)) (state : String)
      (stated : Session) (who : Identity) (s : S) (location : String) (cookie : Option Cookie)
      → (open_session session_store frontend_url session_ttl now entropy state stated who s).1
        ≡ redirect location cookie
      → (session_id : String) × (generate_session_id entropy ≡ some session_id)
        × (cookie ≡ some (session_cookie session_id session_ttl))
        × ((session_store.create now (new_session now session_ttl session_id who) s).1 ≡ ok tt)
        × ((open_session session_store frontend_url session_ttl now entropy state stated who s).0
            ≡ (session_store.create now (new_session now session_ttl session_id who) s).0)
  unfolding open_session
  open_session_sound frontend_url session_ttl now entropy state stated who s location cookie h =
      elim (Option-cases (generate_session_id entropy)) [
        | inl refused ↦ absurd (ground arith)
        | inr (session_id, e) ↦ (session_id, e, ground arith, ground arith, ground arith)
      ]

-- What the end of the callback leaves alone: every session but the one that it opens.
pub open_session_others :
    {S : Type 0} {session_store : Store S} (laws : IsSessionStore session_store)
    (frontend_url : String) (session_ttl now : ℕ) (entropy : Option (List ℕ)) (state : String)
    (stated : Session) (who : Identity) (s : S) (t : ℕ) (j : String)
    → generate_session_id entropy ≢ some j
    → laws.held t j
        (open_session session_store frontend_url session_ttl now entropy state stated who s).0
      ≡ laws.held t j s
unfolding open_session
open_session_others laws frontend_url session_ttl now entropy state stated who s t j other =
    elim (Option-cases (generate_session_id entropy)) [
      | inl refused ↦ rw (refused, open_session) refl
      | inr (session_id, e) ↦
          rw (e, open_session)
            (laws.create_others now (new_session now session_ttl session_id who) s t j
              (λ same. other (e ∙ ap some (sym same))))
    ]

-- A login that has come to its end: the state was held, GitHub vouches for the user, and the new
-- session is held from then until its expiry.
pub record IsLogin {S : Type 0} {session_store state_store : Store S}
    (shared : Shared session_store state_store) (c : GithubClient) (session_ttl now : ℕ)
    (entropy : Option (List ℕ)) (code state : String) (cookie : Option Cookie) (s s' : S)
    : Type 0 where
  pub stated : Session
  pub who : Identity
  pub session_id : String
  pub state_held : shared.states.held now state s ≡ some stated
  pub vouched : IsVouched c code who
  pub generated : generate_session_id entropy ≡ some session_id
  pub cookie_set : cookie ≡ some (session_cookie session_id session_ttl)
  pub session_held :
      (t : ℕ)
      → shared.sessions.held t session_id s' ≡ (
          if ltb t (now + session_ttl)
          then some (new_session now session_ttl session_id who)
          else none)

module _ {S : Type 0} {session_store state_store : Store S}
    (shared : Shared session_store state_store) (c : GithubClient) (frontend_url : String)
    (session_ttl now : ℕ) (entropy : Option (List ℕ)) (code state : String) (s : S) where
  -- The callback of these stores and settings, run on this request.
  abbrev pub run : S × Response
  run =
      callback_handler session_store frontend_url session_ttl c state_store now entropy code state s

  -- A callback with a code and a held state runs to what GitHub and the store make of it.
  pub callback_handler_stated :
      (stated : Session) (who : Identity)
      → (code ≢ "") × (state ≢ "")
      → state_store.get now state s ≡ ok stated
      → identify c code ≡ ok who
      → run
        ≡ open_session session_store frontend_url session_ttl now entropy state stated who
            (state_store.delete state s).0
  unfolding callback_handler
  callback_handler_stated stated who given got known =
      ground (arith, eq_iff code "", eq_iff state "")

  pub callback_redirect_steps :
      (location : String) (cookie : Option Cookie)
      → run.1 ≡ redirect location cookie
      → (stated : Session) × (who : Identity) × ((code ≢ "") × (state ≢ ""))
        × (state_store.get now state s ≡ ok stated)
        × (identify c code ≡ ok who)
  unfolding callback_handler
  callback_redirect_steps location cookie h = elim (Result-cases (state_store.get now state s)) [
    | inr (x, e) ↦ absurd (ground arith)
    | inl (stated, got) ↦ elim (Result-cases (identify c code)) [
      | inr (x, e) ↦ absurd (ground arith)
      | inl (who, known) ↦ (
        stated,
        who,
        (
          ground (arith, eq_iff code "", eq_iff state ""),
          ground (arith, eq_iff code "", eq_iff state ""),
        ),
        got,
        known,
      )
    ]
  ]

  -- A callback that answers with a redirect, where sessions last, is a login that has come to its
  -- end: the state was held, GitHub vouches for the user, the cookie carries the id that was
  -- generated, and the user's session is held under that id from then exactly until its expiry.
  pub callback_redirect_sound :
      (location : String) (cookie : Option Cookie)
      → 0 < session_ttl
      → run.1 ≡ redirect location cookie
      → IsLogin shared c session_ttl now entropy code state cookie s run.0
  callback_redirect_sound location cookie lasting h =
      let (stated, who, given, got, known) = callback_redirect_steps location cookie h in
      let steps = callback_handler_stated stated who given got known in
      let (session_id, generated, set, created, final) =
        open_session_sound shared.sessions frontend_url session_ttl now entropy state stated who _
          location cookie (rw steps at h) in
      record {
        stated = stated;
        who = who;
        session_id = session_id;
        state_held = shared.states.get_sound now state s stated got;
        vouched = identify-IsVouched c code who known;
        generated = generated;
        cookie_set = set;
        session_held = λ t.
            rw (steps, final)
              (unfold new_session in
                shared.sessions.create_held now (new_session now session_ttl session_id who) _
                  created (omega arith) t);
      }
