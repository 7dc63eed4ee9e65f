-- ===== src/Session/Store/Laws.antt =====
-- What a session store promises its clients, and that the Redis store keeps the promises.
use text.Mathlib.TextLemmas.{append_cancel_left}
use admin_api.Base.{
  ℕ, ◌<◌, String, Option, none, some, ◌≡◌, ◌≢◌, refl, sym, ap, ◌∙◌, arith, ltb, if◌then◌else◌, ok,
  err, Option-cases, inl, inr,
}
use admin_api.Session.{Session}
use admin_api.Session.Json.{Json, marshal, unmarshal}
use admin_api.Session.Json.Roundtrip.{unmarshal-marshal}
use admin_api.Session.Redis.{Redis, Reply, value, missing, fault, live, deadline_after}
use admin_api.Session.Store.{
  Store, StoreError, not_found, get_failed, key_of, decode_reply, ttl_for, create, get, delete,
  refresh, redis_store,
}

-- The contract. `held now id s` is the session that the state holds under an id at an instant.
pub record IsSessionStore {S : Type 0} (st : Store S) : Type 0 where
  pub held : ℕ → String → S → Option Session
  pub get_sound :
      (now : ℕ) (id : String) (s : S) (sess : Session)
      → st.get now id s ≡ ok sess
      → held now id s ≡ some sess
  pub get_not_found :
      (now : ℕ) (id : String) (s : S) → st.get now id s ≡ err not_found → held now id s ≡ none
  pub get_complete :
      (now : ℕ) (id : String) (s : S) (sess : Session)
      → held now id s ≡ some sess
      → st.get now id s ≢ err get_failed
      → st.get now id s ≡ ok sess
  pub create_held :
      (now : ℕ) (sess : Session) (s : S)
      → (st.create now sess s).1 ≡ ok tt
      → now < sess.expires_at
      → (t : ℕ)
      → held t sess.id (st.create now sess s).0
        ≡ (if ltb t sess.expires_at then some sess else none)
  pub create_others :
      (now : ℕ) (sess : Session) (s : S) (t : ℕ) (j : String)
      → j ≢ sess.id
      → held t j (st.create now sess s).0 ≡ held t j s
  pub delete_held :
      (id : String) (s : S)
      → (st.delete id s).1 ≡ ok tt
      → (t : ℕ) → held t id (st.delete id s).0 ≡ none
  pub delete_others :
      (id : String) (s : S) (t : ℕ) (j : String) → j ≢ id → held t j (st.delete id s).0 ≡ held t j s
  pub refresh_create :
      (now : ℕ) (id : String) (new_expiry : ℕ) (s : S) (sess : Session)
      → st.get now id s ≡ ok sess
      → st.refresh now id new_expiry s ≡ st.create now (record sess { expires_at = new_expiry }) s
  pub refresh_error :
      (now : ℕ) (id : String) (new_expiry : ℕ) (s : S) (e : StoreError)
      → st.get now id s ≡ err e
      → st.refresh now id new_expiry s ≡ (s, err e)

abbrev session_of : Reply → Option Session
session_of (value doc) = unmarshal doc
session_of missing = none
session_of fault = none

key_of_ne : (j k : String) → j ≢ k → key_of j ≢ key_of k
key_of_ne j k h e = h (append_cancel_left _ _ _ e)

-- The deadline that `Create` gives a session that has not expired yet is its own expiry.
deadline-ttl_for :
    (own now expires_at : ℕ)
    → now < expires_at
    → deadline_after now (ttl_for own now expires_at) ≡ some expires_at
unfolding ttl_for
deadline-ttl_for own now expires_at h = ground arith

module _ (r : Redis) (ttl : ℕ) where
  -- The session under an id, as the server holds it.
  abbrev pub held_in : ℕ → String → r.Conn → Option Session
  held_in now id c = session_of (live now (r.entry (key_of id) c))

  decode_reply_sound :
      (p : Reply) (sess : Session) → decode_reply p ≡ ok sess → session_of p ≡ some sess
  unfolding decode_reply
  decode_reply_sound (value doc) sess h = ground arith
  decode_reply_sound missing sess h = cc
  decode_reply_sound fault sess h = cc

  decode_reply_not_found : (p : Reply) → decode_reply p ≡ err not_found → session_of p ≡ none
  unfolding decode_reply
  decode_reply_not_found (value doc) h = ground arith
  decode_reply_not_found missing h = refl
  decode_reply_not_found fault h = refl

  decode_reply_complete :
      (p : Reply) (sess : Session) → session_of p ≡ some sess → decode_reply p ≡ ok sess
  unfolding decode_reply
  decode_reply_complete (value doc) sess h = rw (h, decode_reply)
  decode_reply_complete missing sess h = cc
  decode_reply_complete fault sess h = cc

  get_answers :
      (now : ℕ) (id : String) (c : r.Conn)
      → get r ttl now id c ≢ err get_failed
      → get r ttl now id c ≡ decode_reply (live now (r.entry (key_of id) c))
  unfolding get decode_reply
  get_answers now id c h =
      ap decode_reply (r.get_live now (key_of id) c (λ e. h (ap decode_reply e)))

  get_not_failed :
      (now : ℕ) (id : String) (c : r.Conn) {sess : Session}
      → get r ttl now id c ≡ ok sess
      → get r ttl now id c ≢ err get_failed
  get_not_failed now id c h e = cc

  pub get_sound :
      (now : ℕ) (id : String) (c : r.Conn) (sess : Session)
      → get r ttl now id c ≡ ok sess
      → held_in now id c ≡ some sess
  get_sound now id c sess h =
      decode_reply_sound _ sess (sym (get_answers now id c (get_not_failed now id c h)) ∙ h)

  pub get_not_found :
      (now : ℕ) (id : String) (c : r.Conn)
      → get r ttl now id c ≡ err not_found
      → held_in now id c ≡ none
  get_not_found now id c h = decode_reply_not_found _ (sym (get_answers now id c (λ e. cc)) ∙ h)

  pub get_complete :
      (now : ℕ) (id : String) (c : r.Conn) (sess : Session)
      → held_in now id c ≡ some sess
      → get r ttl now id c ≢ err get_failed
      → get r ttl now id c ≡ ok sess
  get_complete now id c sess h up = get_answers now id c up ∙ decode_reply_complete _ sess h

  -- What a successful `Create` leaves at the session's key.
  create_entry :
      (now : ℕ) (sess : Session) (c : r.Conn)
      → (create r ttl now sess c).1 ≡ ok tt
      → (doc : Json) × (marshal sess ≡ some doc)
        × (r.entry (key_of sess.id) (create r ttl now sess c).0
            ≡ some (record {
              doc = doc;
              deadline = deadline_after now (ttl_for ttl now sess.expires_at);
            }))
  unfolding create
  create_entry now sess c h = elim (Option-cases (marshal sess)) [
    | inl refused ↦ absurd (ground arith)
    | inr (doc, written) ↦
        (doc, written, rw (written, create) (r.set_entry _ _ _ _ _ (ground arith)))
  ]

  pub create_held :
      (now : ℕ) (sess : Session) (c : r.Conn)
      → (create r ttl now sess c).1 ≡ ok tt
      → now < sess.expires_at
      → (t : ℕ)
      → held_in t sess.id (create r ttl now sess c).0
        ≡ (if ltb t sess.expires_at then some sess else none)
  create_held now sess c h before t =
      let (doc, written, stored) = create_entry now sess c h in
      rw (stored, deadline-ttl_for ttl now sess.expires_at before)
        (ground (arith, unmarshal-marshal sess written))

  pub create_others :
      (now : ℕ) (sess : Session) (c : r.Conn) (t : ℕ) (j : String)
      → j ≢ sess.id
      → held_in t j (create r ttl now sess c).0 ≡ held_in t j c
  unfolding create
  create_others now sess c t j h = elim (Option-cases (marshal sess)) [
    | inl refused ↦ rw (refused, create) refl
    | inr (doc, written) ↦
        rw (written, create)
          (ap (λ e. session_of (live t e)) (r.set_others _ _ _ _ c _ (key_of_ne j sess.id h)))
  ]

  pub delete_held :
      (id : String) (c : r.Conn)
      → (delete r ttl id c).1 ≡ ok tt
      → (t : ℕ) → held_in t id (delete r ttl id c).0 ≡ none
  unfolding delete
  delete_held id c h t = rw (r.del_entry (key_of id) c (ground arith)) refl

  pub delete_others :
      (id : String) (c : r.Conn) (t : ℕ) (j : String)
      → j ≢ id
      → held_in t j (delete r ttl id c).0 ≡ held_in t j c
  unfolding delete
  delete_others id c t j h =
      ap (λ e. session_of (live t e)) (r.del_others (key_of id) c _ (key_of_ne j id h))

  pub refresh_create :
      (now : ℕ) (id : String) (new_expiry : ℕ) (c : r.Conn) (sess : Session)
      → get r ttl now id c ≡ ok sess
      → refresh r ttl now id new_expiry c
        ≡ create r ttl now (record sess { expires_at = new_expiry }) c
  unfolding refresh
  refresh_create now id new_expiry c sess h = rw (h, refresh) refl

  pub refresh_error :
      (now : ℕ) (id : String) (new_expiry : ℕ) (c : r.Conn) (e : StoreError)
      → get r ttl now id c ≡ err e
      → refresh r ttl now id new_expiry c ≡ (c, err e)
  unfolding refresh
  refresh_error now id new_expiry c e h = rw (h, refresh) refl

  -- The contract of the Redis store, with what the server holds as the view.
  unfoldable pub redis_contract : IsSessionStore (redis_store r ttl)
  redis_contract = record {
    held = held_in;
    get_sound = get_sound;
    get_not_found = get_not_found;
    get_complete = get_complete;
    create_held = create_held;
    create_others = create_others;
    delete_held = delete_held;
    delete_others = delete_others;
    refresh_create = refresh_create;
    refresh_error = refresh_error;
  }

  -- The Redis store keeps the contract: lookups are right and find what is held, a created session
  -- is held until its expiry, a deleted one is not, and a refresh stores the session again with the
  -- new expiry; no operation touches a session under another id.
  pub redis_store-IsSessionStore : IsSessionStore (redis_store r ttl)
  redis_store-IsSessionStore = redis_contract
