-- ===== src/Client/Restart.antt =====
-- The token on the disk, from one run of the client to the next.
use mathlib.Core.Option
use admin_api.Base.{
  ℕ, String, List, [], ◌∷◌, Option, some, none, Bool, true, ◌≡◌, refl, ap, arith, ok, eq_iff,
}
use admin_api.Session.Json.{Json, as_text}
use admin_api.Service.Auth.{AuthenticatedUser, TeamMembership}
use admin_api.Client.{
  StoredToken, TokenFile, no_file, garbage, file, put, Outside, DefaultClient, works, refused,
  broken, DiskFate,
}
use admin_api.Client.Documents.{
  decode_stored_token, decode_struct, decode_fields, decode_teams, set_team, encode_stored_token,
  encode_teams, encode_team,
}
use admin_api.Client.Storage.{
  get_token_path, save_token, write_file, load_token, load_file, remove_token, remove_file,
}
use admin_api.Client.Api.{logout, loaded, new_default_client}

teams_read : (tms : List TeamMembership) → decode_teams (encode_teams tms) ≡ some tms
unfolding decode_teams encode_teams encode_team decode_struct decode_fields set_team as_text
    Option.bind
teams_read [] = refl
teams_read (tm ∷ tms) = rw (teams_read tms) refl

-- The document of a stored token says everything of it, whether it has a user or none.
pub decode_stored_token-encode_stored_token :
    (t : StoredToken) → decode_stored_token (encode_stored_token t) ≡ some t
unfolding decode_stored_token encode_stored_token Option.bind
decode_stored_token-encode_stored_token t = read t.bearer_token t.user
  where
    read :
        (token : String) (user : Option AuthenticatedUser)
        → decode_stored_token (encode_stored_token (record { bearer_token = token; user = user }))
          ≡ some (record { bearer_token = token; user = user })
    read token none = refl
    read token (some user) = rw (teams_read user.team_memberships) refl

module _ (o : Outside) where
  put_same : (path : String) (f : TokenFile) (disk : String → TokenFile) → put path f disk path ≡ f
  put_same path f disk = ground (arith, (eq_iff path path).1 refl)

  remove_file_inv :
      (f : TokenFile) (path : String) (c : DefaultClient) {c' : DefaultClient}
      → c.disk path ≡ f
      → remove_file o f path c ≡ (c', ok tt)
      → (c'.disk path ≡ no_file) × (c'.bearer_token ≡ c.bearer_token)
  unfolding remove_file
  remove_file_inv no_file path c d h = ground arith
  remove_file_inv garbage path c d h = let same = put_same path no_file c.disk in ground arith
  remove_file_inv (file doc) path c d h = let same = put_same path no_file c.disk in ground arith

  write_file_inv :
      (fate : DiskFate) (path : String) (doc : Json) (c : DefaultClient) {c' : DefaultClient}
      → write_file o fate path doc c ≡ (c', ok tt)
      → c'.disk path ≡ file doc
  unfolding write_file
  write_file_inv works path doc c h = let same = put_same path (file doc) c.disk in ground arith
  write_file_inv refused path doc c h = cc
  write_file_inv broken path doc c h = cc

  load_token-file :
      (stored : StoredToken) (c : DefaultClient)
      → o.disk c.clock ≡ works
      → c.disk (get_token_path o) ≡ file (encode_stored_token stored)
      → (load_token o c).1 ≡ ok (some stored)
  unfolding load_token load_file
  load_token-file stored c readable there =
      let read = decode_stored_token-encode_stored_token stored in ground arith

  new_default_client-no_file :
      (has_storage : Bool) (disk : String → TokenFile) (n : ℕ)
      → disk (get_token_path o) ≡ no_file
      → (new_default_client o has_storage disk n).bearer_token ≡ ""
  unfolding new_default_client load_token load_file loaded
  new_default_client-no_file has_storage disk n gone = ground arith

  -- A token that was saved with its user is the one that is loaded later from the same disk, if the disk
  -- can be read then: `LoadToken` gives both, and the client that starts then holds the token.
  pub new_default_client-save_token :
      (token : String) (user : AuthenticatedUser) (c c' : DefaultClient) (n : ℕ)
      → save_token o token user c ≡ (c', ok tt)
      → o.disk n ≡ works
      → ((load_token o (record c' { clock = n })).1
          ≡ ok (some (record { bearer_token = token; user = some user })))
        × ((new_default_client o true c'.disk n).bearer_token ≡ token)
  unfolding save_token new_default_client loaded
  new_default_client-save_token token user c c' n h readable =
      let stored : StoredToken = record { bearer_token = token; user = some user } in
      let there = write_file_inv _ (get_token_path o) (encode_stored_token stored) c h in
      let c₁ : DefaultClient = record {
        bearer_token = "";
        has_storage = true;
        disk = c'.disk;
        clock = n;
      } in
      (
        load_token-file stored (record c' { clock = n }) readable there,
        ap (λ r. (loaded o r (load_token o c₁).0).bearer_token)
            (load_token-file stored c₁ readable there),
      )

  -- After a logout that succeeds of a client with a storage, neither the client nor any client that
  -- starts later on the same disk holds a token.
  pub logout_forgets :
      (c c' : DefaultClient) (has_storage : Bool) (n : ℕ)
      → c.has_storage ≡ true
      → logout o c ≡ (c', ok tt)
      → (c'.bearer_token ≡ "") × ((new_default_client o has_storage c'.disk n).bearer_token ≡ "")
  unfolding logout remove_token
  logout_forgets c c' has_storage n s h =
      let path = get_token_path o in
      let c₁ : DefaultClient = record c { bearer_token = "" } in
      let removed : remove_file o (c.disk path) path c₁ ≡ (c', ok tt) = ground arith in
      let (gone, same) = remove_file_inv (c.disk path) path c₁ refl removed in
      (same, new_default_client-no_file has_storage c'.disk n gone)
