-- ===== src/Session/Redis.antt =====
-- The Redis client of pkg/auth/session/redis_store.go (`go-redis`), which the repository only calls:
-- an interface with the documented behaviour of SET, GET and DEL.
pub mod Memory
use admin_api.Base.{
  ℕ, ◌+◌, String, Bool, true, Option, none, some, ◌≡◌, ◌≢◌, ltb, ◌==◌, if◌then◌else◌,
}
use admin_api.Session.Json.{Json}

-- What a key holds. With no deadline it does not expire.
pub record Entry : Type 0 where
  pub doc : Json
  pub deadline : Option ℕ

pub data Reply : Type 0 where
  value : Json → Reply
  missing : Reply
  fault : Reply

abbrev pub is_live : ℕ → Option ℕ → Bool
is_live now none = true
is_live now (some deadline) = ltb now deadline

-- What GET answers at an instant, if it answers.
abbrev pub live : ℕ → Option Entry → Reply
live now none = missing
live now (some e) = if is_live now e.deadline then value e.doc else missing

-- SET with a zero expiration makes a key that does not expire.
abbrev pub deadline_after : ℕ → ℕ → Option ℕ
deadline_after now ttl = if ttl == 0 then none else some (now + ttl)

-- `set now key doc ttl` and `del key` report whether they succeeded. A failed command may have
-- taken effect or not, at its own key only.
pub record Redis : Type 1 where
  pub Conn : Type 0
  pub entry : String → Conn → Option Entry
  pub set : ℕ → String → Json → ℕ → Conn → Conn × Bool
  pub get : ℕ → String → Conn → Reply
  pub del : String → Conn → Conn × Bool
  pub set_entry :
      (now : ℕ) (k : String) (doc : Json) (ttl : ℕ) (c : Conn)
      → (set now k doc ttl c).1 ≡ true
      → entry k (set now k doc ttl c).0
        ≡ some (record { doc = doc; deadline = deadline_after now ttl })
  pub set_others :
      (now : ℕ) (k : String) (doc : Json) (ttl : ℕ) (c : Conn) (j : String)
      → j ≢ k
      → entry j (set now k doc ttl c).0 ≡ entry j c
  pub get_live :
      (now : ℕ) (k : String) (c : Conn) → get now k c ≢ fault → get now k c ≡ live now (entry k c)
  pub del_entry : (k : String) (c : Conn) → (del k c).1 ≡ true → entry k (del k c).0 ≡ none
  pub del_others : (k : String) (c : Conn) (j : String) → j ≢ k → entry j (del k c).0 ≡ entry j c
