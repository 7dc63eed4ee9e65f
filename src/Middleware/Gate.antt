-- ===== src/Middleware/Gate.antt =====
-- Which requests pass the session middleware.
use Prim.Native.String
use admin_api.Base.{
  ℕ, ◌≤◌, String, Option, none, some, false, ◌≡◌, ◌≢◌, refl, ap, sym, ◌∙◌, arith, str_eq, eq_iff,
  Result, ok, err, Bool-cases, inl, inr,
}
use admin_api.Base.Text.{cut_prefix-append}
use admin_api.Session.{Session}
use admin_api.Session.Store.{Store, StoreError, not_found, get_failed}
use admin_api.Session.Store.Laws.{IsSessionStore}
use admin_api.Middleware.{
  Request, next, http_error, is_public_path, bearer_prefix, extract_session_id, admit,
  session_middleware,
}

-- A request with the header `Authorization: Bearer <token>`, whatever its cookie.
abbrev pub with_bearer : String → String → Option String → Request
with_bearer path token cookie = record {
  path = path;
  authorization = String.◌++◌ bearer_prefix token;
  cookie = cookie;
}

-- The bearer token is the session id, and it comes before the cookie.
pub extract_session_id-with_bearer :
    (path token : String) (cookie : Option String)
    → extract_session_id (with_bearer path token cookie) ≡ token
unfolding extract_session_id
extract_session_id-with_bearer path token cookie =
    rw (cut_prefix-append bearer_prefix token, extract_session_id) refl

admit-eq-next :
    (now : ℕ) (answer : Result StoreError Session) {found : Option Session}
    → admit now answer ≡ next found
    → (sess : Session) × (answer ≡ ok sess) × (found ≡ some sess) × (now ≤ sess.expires_at)
unfolding admit
admit-eq-next now (err not_found) h = cc
admit-eq-next now (err _) h = cc
admit-eq-next now (ok sess) h = (sess, refl, ground arith, ground arith)

admit_fresh :
    (now : ℕ) (sess : Session) → now ≤ sess.expires_at → admit now (ok sess) ≡ next (some sess)
unfolding admit
admit_fresh now sess h = ground arith

module _ {S : Type 0} (store : Store S) where
  -- On a path that is not public and a request that carries an id, the store decides.
  pub session_middleware_protected :
      (now : ℕ) (req : Request) (s : S)
      → is_public_path req.path ≡ false
      → extract_session_id req ≢ ""
      → session_middleware store now req s ≡ admit now (store.get now (extract_session_id req) s)
  unfolding session_middleware
  session_middleware_protected now req s closed given =
      ground (arith, eq_iff (extract_session_id req) "")

  -- Without credentials no protected path is reached.
  pub session_middleware_anonymous :
      (now : ℕ) (req : Request) (s : S)
      → is_public_path req.path ≡ false
      → extract_session_id req ≡ ""
      → session_middleware store now req s ≡ http_error 401 "missing authentication"
  unfolding session_middleware
  session_middleware_anonymous now req s closed e =
      ground (arith, eq_iff (extract_session_id req) "")

module _ {S : Type 0} {store : Store S} (laws : IsSessionStore store) where
  -- A handler behind a path that is not public runs only with a session in its context that the
  -- store holds at that time under the id that the request carries, that id not being empty, and
  -- that has not expired.
  pub next_has_session :
      (now : ℕ) (req : Request) (s : S) (found : Option Session)
      → is_public_path req.path ≡ false
      → session_middleware store now req s ≡ next found
      → (sess : Session) × (found ≡ some sess)
        × (extract_session_id req ≢ "")
        × (laws.held now (extract_session_id req) s ≡ some sess)
        × (now ≤ sess.expires_at)
  next_has_session now req s found closed h =
      elim (Bool-cases (str_eq (extract_session_id req) "")) [
        | inl empty ↦ cc (
            session_middleware_anonymous store now req s closed
              ((eq_iff (extract_session_id req) "").0 empty))
        | inr full ↦
            let given : extract_session_id req ≢ "" =
              λ e. cc ((eq_iff (extract_session_id req) "").1 e) in
            let decided = session_middleware_protected store now req s closed given in
            let (sess, answered, same, fresh) = admit-eq-next now _ (sym decided ∙ h) in
            (sess, same, given, laws.get_sound now _ s sess answered, fresh)
      ]

  -- A request that carries the id of a session that the store holds, not expired, passes with that
  -- session, provided that the lookup does not fail.
  pub held_session_passes :
      (now : ℕ) (req : Request) (s : S) (sess : Session)
      → is_public_path req.path ≡ false
      → extract_session_id req ≢ ""
      → laws.held now (extract_session_id req) s ≡ some sess
      → now ≤ sess.expires_at
      → store.get now (extract_session_id req) s ≢ err get_failed
      → session_middleware store now req s ≡ next (some sess)
  held_session_passes now req s sess closed given held fresh up =
      session_middleware_protected store now req s closed given
      ∙ ap (admit now) (laws.get_complete now _ s sess held up)
      ∙ admit_fresh now sess fresh

  -- An id under which the store holds nothing is refused: no handler of a path that is not public
  -- runs.
  pub no_session_no_entry :
      (now : ℕ) (req : Request) (s : S) (found : Option Session)
      → is_public_path req.path ≡ false
      → laws.held now (extract_session_id req) s ≡ none
      → session_middleware store now req s ≢ next found
  no_session_no_entry now req s found closed nothing h =
      let (sess, same, given, held, fresh) = next_has_session now req s found closed h in cc
