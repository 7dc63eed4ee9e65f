-- ===== src/Client/Storage.antt =====
-- pkg/client/auth/storage.go: the token on the disk, as the document of a `StoredToken`. The text of a
-- document is left to `encoding/json`.
use Prim.Native.String
use admin_api.Base.{String, Option, some, none, Bool, true, false, Result, ok, err}
use admin_api.Session.Json.{Json}
use admin_api.Service.Auth.{AuthenticatedUser}
use admin_api.Client.{
  StoredToken, TokenFile, no_file, garbage, file, put, DiskFate, works, refused, broken, Outside,
  DefaultClient, ClientError, read_failed, unmarshal_failed, write_failed, remove_failed, tick,
  Step,
}
use admin_api.Client.Documents.{encode_stored_token, decode_stored_token}

module _ (o : Outside) where
  abbrev pub get_token_path : String
  get_token_path = String.◌++◌ o.config_dir "/token.json"

  unfoldable pub write_file : DiskFate → String → Json → Step (Unit {0})
  write_file works path doc c = (record (tick c) { disk = put path (file doc) c.disk }, ok tt)
  write_file refused path doc c = (tick c, err write_failed)
  write_file broken path doc c =
      (record (tick c) { disk = put path garbage c.disk }, err write_failed)

  unfoldable pub save_token : String → AuthenticatedUser → Step (Unit {0})
  unfolding write_file encode_stored_token
  save_token token user c =
      write_file (o.disk c.clock) get_token_path
        (encode_stored_token (record { bearer_token = token; user = some user })) c

  abbrev pub unmarshalled : Option StoredToken → Result ClientError (Option StoredToken)
  unmarshalled (some stored) = ok (some stored)
  unmarshalled none = err unmarshal_failed

  -- No file is no token, and no error.
  unfoldable pub load_file : TokenFile → Step (Option StoredToken)
  unfolding decode_stored_token
  load_file no_file c = (tick c, ok none)
  load_file garbage c = (tick c, err unmarshal_failed)
  load_file (file doc) c = (tick c, unmarshalled (decode_stored_token doc))

  unfoldable pub load_token : Step (Option StoredToken)
  unfolding load_file
  load_token c = elim (o.disk c.clock) [
    | works ↦ load_file (c.disk get_token_path) c
    | _ ↦ (tick c, err read_failed)
  ]

  unfoldable pub remove_file : TokenFile → String → Step (Unit {0})
  remove_file no_file path c = (tick c, ok tt)
  remove_file _ path c = elim (o.disk c.clock) [
    | works ↦ (record (tick c) { disk = put path no_file c.disk }, ok tt)
    | _ ↦ (tick c, err remove_failed)
  ]

  unfoldable pub remove_token : Step (Unit {0})
  unfolding remove_file
  remove_token c = remove_file (c.disk get_token_path) get_token_path c

  abbrev pub has_token : DefaultClient → Bool
  has_token c = elim (c.disk get_token_path) [ no_file ↦ false | _ ↦ true ]
