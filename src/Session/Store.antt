-- ===== src/Session/Store.antt =====
-- The `Store` interface of pkg/auth/session/session.go, and its implementation over Redis,
-- pkg/auth/session/redis_store.go.
pub mod Laws
use Prim.Native.String
use admin_api.Base.{
  ℕ, ◌-◌, String, Option, none, some, ◌≡◌, ◌==◌, if◌then◌else◌, Result, ok, err, Bool,
}
use admin_api.Session.{Session}
use admin_api.Session.Json.{Json, marshal, unmarshal}
use admin_api.Session.Redis.{Redis, Reply, value, missing, fault}

-- `not_found` is `ErrSessionNotFound`; the others are the wrapped errors.
pub data StoreError : Type 0 where
  not_found : StoreError
  marshal_failed unmarshal_failed set_failed get_failed del_failed : StoreError

-- A store keeps its sessions in a state that stores may share. Each method takes the time.
pub record Store (S : Type 0) : Type 0 where
  pub create : ℕ → Session → S → S × Result StoreError (Unit {0})
  pub get : ℕ → String → S → Result StoreError Session
  pub delete : String → S → S × Result StoreError (Unit {0})
  pub refresh : ℕ → String → ℕ → S → S × Result StoreError (Unit {0})

-- `keyPrefix`
abbrev pub key_prefix : String
key_prefix = "session:"

abbrev pub key_of : String → String
key_of id = String.◌++◌ key_prefix id

abbrev report : StoreError → Bool → Result StoreError (Unit {0})
report e done = if done then ok tt else err e

-- `json.Unmarshal` of the bytes that GET returned
decode_reply : Reply → Result StoreError Session
decode_reply (value doc) = elim (unmarshal doc) [ none ↦ err unmarshal_failed | some s ↦ ok s ]
decode_reply missing = err not_found
decode_reply fault = err get_failed

-- The time to live that `Create` asks for: until the expiry, or the store's own if that has come.
unfoldable pub ttl_for : ℕ → ℕ → ℕ → ℕ
ttl_for own now expires_at = let ttl = expires_at - now in if ttl == 0 then own else ttl

module _ (r : Redis) (ttl : ℕ) where
  unfoldable pub create : ℕ → Session → r.Conn → r.Conn × Result StoreError (Unit {0})
  create now s c = elim (marshal s) [
    | none ↦ (c, err marshal_failed)
    | some doc ↦
        let (c', done) = r.set now (key_of s.id) doc (ttl_for ttl now s.expires_at) c in
        (c', report set_failed done)
  ]

  unfoldable pub get : ℕ → String → r.Conn → Result StoreError Session
  unfolding decode_reply
  get now id c = decode_reply (r.get now (key_of id) c)

  unfoldable pub delete : String → r.Conn → r.Conn × Result StoreError (Unit {0})
  delete id c = let (c', done) = r.del (key_of id) c in (c', report del_failed done)

  unfoldable pub refresh : ℕ → String → ℕ → r.Conn → r.Conn × Result StoreError (Unit {0})
  refresh now id new_expiry c = elim (get now id c) [
    | err e ↦ (c, err e)
    | ok s ↦ create now (record s { expires_at = new_expiry }) c
  ]

  -- `NewRedisStore(client, ttl)`
  abbrev pub redis_store : Store r.Conn
  redis_store = record { create = create; get = get; delete = delete; refresh = refresh }
