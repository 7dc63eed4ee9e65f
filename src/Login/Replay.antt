-- ===== src/Login/Replay.antt =====
-- A state serves for one callback, and a callback that is refused opens no session.
use admin_api.Base.{
  ℕ, String, List, Option, some, ◌≡◌, ◌≢◌, ◌⊎◌, inl, inr, ap, sym, ◌∙◌, arith, eq_iff, none, ok,
  err, Result-cases,
}
use admin_api.Oauth.{GithubClient}
use admin_api.Session.{Session}
use admin_api.Session.Id.{generate_session_id}
use admin_api.Session.Store.{Store, StoreError}
use admin_api.Login.{Response, failure, Identity, identify, open_session, callback_handler}
use admin_api.Login.Callback.{Shared, open_session_others, callback_handler_stated}

empty_or_given : (code state : String) → ((code ≡ "") ⊎ (state ≡ "")) ⊎ ((code ≢ "") × (state ≢ ""))
empty_or_given code state = ground (arith, eq_iff code "", eq_iff state "")

module _ {S : Type 0} {session_store state_store : Store S}
    (shared : Shared session_store state_store) (c : GithubClient) (frontend_url : String)
    (session_ttl now : ℕ) (entropy : Option (List ℕ)) (code state : String) (s : S) where
  abbrev run : S × Response
  run =
      callback_handler session_store frontend_url session_ttl c state_store now entropy code state s

  -- The lookup of a state fails the callback, whatever the error.
  callback_bad_state :
      (e : StoreError)
      → (code ≢ "") × (state ≢ "")
      → state_store.get now state s ≡ err e
      → run ≡ (s, failure 401 "invalid state")
  unfolding callback_handler
  callback_bad_state e given failed = ground (arith, eq_iff code "", eq_iff state "")

  callback_missing : (code ≡ "") ⊎ (state ≡ "") → run ≡ (s, failure 400 "missing code or state")
  unfolding callback_handler
  callback_missing empty = ground (arith, eq_iff code "", eq_iff state "")

  -- A callback that GitHub does not bear out ends after the deletion of its state.
  callback_not_vouched :
      (stated : Session) (status : ℕ) (message : String)
      → (code ≢ "") × (state ≢ "")
      → state_store.get now state s ≡ ok stated
      → identify c code ≡ err (status, message)
      → run ≡ ((state_store.delete state s).0, failure status message)
  unfolding callback_handler
  callback_not_vouched stated status message given got refused =
      ground (arith, eq_iff code "", eq_iff state "")

  -- After a callback with a held state, the sessions under all ids but the one that was generated
  -- are those that the deletion of the state left.
  callback_final :
      (stated : Session)
      → (code ≢ "") × (state ≢ "")
      → state_store.get now state s ≡ ok stated
      → (t : ℕ) (j : String) → generate_session_id entropy ≢ some j
      → shared.sessions.held t j run.0 ≡ shared.sessions.held t j (state_store.delete state s).0
  callback_final stated given got t j other = elim (Result-cases (identify c code)) [
    | inr ((status, message), refused) ↦
        ap (λ (p : S × Response). shared.sessions.held t j p.0)
          (callback_not_vouched stated status message given got refused)
    | inl (who, known) ↦
        ap (λ (p : S × Response). shared.sessions.held t j p.0)
          (callback_handler_stated shared c frontend_url session_ttl now entropy code state s stated
            who given got known)
        ∙ open_session_others shared.sessions frontend_url session_ttl now entropy state stated who
            _ t j other
  ]

open_session-ne-unauthorized :
    {S : Type 0} (session_store : Store S) (frontend_url : String) (session_ttl now : ℕ)
    (entropy : Option (List ℕ)) (state : String) (stated : Session) (who : Identity) (s : S)
    (message : String)
    → (open_session session_store frontend_url session_ttl now entropy state stated who s).1
      ≢ failure 401 message
unfolding open_session
open_session-ne-unauthorized session_store frontend_url session_ttl now entropy state stated who s
      message h =
    ground arith

module _ {S : Type 0} {session_store state_store : Store S}
    (shared : Shared session_store state_store) (c : GithubClient) (frontend_url : String)
    (session_ttl : ℕ) where
  -- The callback of these stores and settings.
  abbrev pub callback : ℕ → Option (List ℕ) → String → String → S → S × Response
  callback = callback_handler session_store frontend_url session_ttl c state_store

  -- The deletion of a held state is final: a second callback with the same state, whatever its
  -- code, is refused and changes nothing. The first one may have ended in any way after its state
  -- was found; the id that it generated must not be the state itself, and the deletion, whose
  -- failure is only logged, must have succeeded.
  pub callback_once :
      (now : ℕ) (entropy : Option (List ℕ)) (code state : String) (s : S) (stated : Session)
      → (code ≢ "") × (state ≢ "")
      → state_store.get now state s ≡ ok stated
      → (state_store.delete state s).1 ≡ ok tt
      → generate_session_id entropy ≢ some state
      → (t : ℕ) (entropy' : Option (List ℕ)) (code' : String) → code' ≢ ""
      → callback t entropy' code' state (callback now entropy code state s).0
        ≡ ((callback now entropy code state s).0, failure 401 "invalid state")
  callback_once now entropy code state s stated given got deleted other t entropy' code' given' =
      let gone : shared.states.held t state (callback now entropy code state s).0 ≡ none =
        shared.same t state _
        ∙ callback_final shared c frontend_url session_ttl now entropy code state s stated given got
            t state other
        ∙ sym (shared.same t state _)
        ∙ shared.states.delete_held state s deleted t in
      elim (Result-cases (state_store.get t state (callback now entropy code state s).0)) [
        | inl (found, e) ↦ absurd (cc (gone, shared.states.get_sound t state _ found e))
        | inr (e, failed) ↦
            callback_bad_state shared c frontend_url session_ttl t entropy' code' state _ e
              (given', given.1) failed
      ]

  -- Whatever the outcome of a callback, a session under an id other than the state and the id that
  -- was generated is held as before.
  pub callback_frame :
      (now : ℕ) (entropy : Option (List ℕ)) (code state : String) (s : S) (t : ℕ) (j : String)
      → j ≢ state
      → generate_session_id entropy ≢ some j
      → shared.sessions.held t j (callback now entropy code state s).0 ≡ shared.sessions.held t j s
  callback_frame now entropy code state s t j other fresh =
      let seen = λ (p : S × Response). shared.sessions.held t j p.0 in
      elim (empty_or_given code state) [
        | inl empty ↦
            ap seen
              (callback_missing shared c frontend_url session_ttl now entropy code state s empty)
        | inr given ↦ elim (Result-cases (state_store.get now state s)) [
          | inr (e, failed) ↦ ap seen (
              callback_bad_state shared c frontend_url session_ttl now entropy code state s e given
                failed)
          | inl (stated, got) ↦
              callback_final shared c frontend_url session_ttl now entropy code state s stated given
                got t j fresh
              ∙ sym (shared.same t j _)
              ∙ shared.states.delete_others state s t j other
              ∙ shared.same t j s
        ]
      ]

  -- A callback that answers 401 has opened no session: under every id but the state, what is held
  -- is as before.
  pub unauthorized_opens_nothing :
      (now : ℕ) (entropy : Option (List ℕ)) (code state : String) (s : S) (message : String)
      → (callback now entropy code state s).1 ≡ failure 401 message
      → (t : ℕ) (j : String) → j ≢ state
      → shared.sessions.held t j (callback now entropy code state s).0 ≡ shared.sessions.held t j s
  unauthorized_opens_nothing now entropy code state s message h t j other =
      let seen = λ (p : S × Response). shared.sessions.held t j p.0 in
      elim (empty_or_given code state) [
        | inl empty ↦
            ap seen
              (callback_missing shared c frontend_url session_ttl now entropy code state s empty)
        | inr given ↦ elim (Result-cases (state_store.get now state s)) [
          | inr (e, failed) ↦ ap seen (
              callback_bad_state shared c frontend_url session_ttl now entropy code state s e given
                failed)
          | inl (stated, got) ↦ elim (Result-cases (identify c code)) [
            | inr ((status, text), refused) ↦
                ap seen (
                  callback_not_vouched shared c frontend_url session_ttl now entropy code state s
                    stated status text given got refused)
                ∙ sym (shared.same t j _)
                ∙ shared.states.delete_others state s t j other
                ∙ shared.same t j s
            | inl (who, known) ↦ absurd (
                open_session-ne-unauthorized session_store frontend_url session_ttl now entropy
                  state stated who _ message
                  (sym (
                      ap (λ (p : S × Response). p.1)
                        (callback_handler_stated shared c frontend_url session_ttl now entropy code
                          state s stated who given got known))
                    ∙ h))
          ]
        ]
      ]
