-- ===== src/Session/Redis/Memory.antt =====
-- An in-memory server, which shows that the interface can be met. It answers while it is up.
use admin_api.Base.{
  ℕ, String, Bool, true, false, Option, none, some, List, [], ◌∷◌, ◌≡◌, ◌≢◌, refl, arith, str_eq,
  eq_iff, if◌then◌else◌,
}
use admin_api.Session.Json.{Json}
use admin_api.Session.Redis.{Entry, Reply, fault, live, deadline_after, Redis}

pub record Server : Type 0 where
  pub up : Bool
  pub keys : List (String × Entry)

abbrev pub find : String → List (String × Entry) → Option Entry
find k [] = none
find k ((j, e) ∷ m) = if str_eq j k then some e else find k m

abbrev pub remove : String → List (String × Entry) → List (String × Entry)
remove k [] = []
remove k ((j, e) ∷ m) = let rest = remove k m in if str_eq j k then rest else (j, e) ∷ rest

pub find-remove_self : (k : String) (m : List (String × Entry)) → find k (remove k m) ≡ none
find-remove_self k [] = refl
find-remove_self k ((j, e) ∷ m) = ground (arith, eq_iff j k, find-remove_self k m)

pub find-remove_ne :
    (k : String) (m : List (String × Entry)) (j : String) → j ≢ k → find j (remove k m) ≡ find j m
find-remove_ne k [] j h = refl
find-remove_ne k ((i, e) ∷ m) j h = ground (arith, eq_iff i k, eq_iff i j, find-remove_ne k m j h)

unfoldable pub set_keys : ℕ → String → Json → ℕ → Server → Server × Bool
set_keys now k doc ttl s =
    if s.up
    then (
      record s {
        keys = (k, record { doc = doc; deadline = deadline_after now ttl }) ∷ remove k s.keys;
      },
      true,
    )
    else (s, false)

unfoldable pub get_key : ℕ → String → Server → Reply
get_key now k s = if s.up then live now (find k s.keys) else fault

unfoldable pub del_key : String → Server → Server × Bool
del_key k s = if s.up then (record s { keys = remove k s.keys }, true) else (s, false)

pub set_keys_entry :
    (now : ℕ) (k : String) (doc : Json) (ttl : ℕ) (s : Server)
    → (set_keys now k doc ttl s).1 ≡ true
    → find k (set_keys now k doc ttl s).0.keys
      ≡ some (record { doc = doc; deadline = deadline_after now ttl })
unfolding set_keys
set_keys_entry now k doc ttl s h = ground (arith, eq_iff k k)

pub set_keys_others :
    (now : ℕ) (k : String) (doc : Json) (ttl : ℕ) (s : Server) (j : String)
    → j ≢ k
    → find j (set_keys now k doc ttl s).0.keys ≡ find j s.keys
unfolding set_keys
set_keys_others now k doc ttl s j h = ground (arith, eq_iff k j, find-remove_ne k s.keys j h)

pub get_key-live :
    (now : ℕ) (k : String) (s : Server)
    → get_key now k s ≢ fault
    → get_key now k s ≡ live now (find k s.keys)
unfolding get_key
get_key-live now k s h = ground arith

pub del_key_entry :
    (k : String) (s : Server) → (del_key k s).1 ≡ true → find k (del_key k s).0.keys ≡ none
unfolding del_key
del_key_entry k s h = ground (arith, find-remove_self k s.keys)

pub del_key_others :
    (k : String) (s : Server) (j : String) → j ≢ k → find j (del_key k s).0.keys ≡ find j s.keys
unfolding del_key
del_key_others k s j h = ground (arith, find-remove_ne k s.keys j h)

abbrev pub memory : Redis
memory = record {
  Conn = Server;
  entry = λ k s. find k s.keys;
  set = set_keys;
  get = get_key;
  del = del_key;
  set_entry = set_keys_entry;
  set_others = set_keys_others;
  get_live = get_key-live;
  del_entry = del_key_entry;
  del_others = del_key_others;
}
