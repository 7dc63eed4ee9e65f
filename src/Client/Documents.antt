-- ===== src/Client/Documents.antt =====
-- How `encoding/json` reads and writes the types of pkg/client/auth/token.go, and `StoredToken` of
-- pkg/client/auth/storage.go: a field of a document sets the field of its tag, and any other is
-- skipped.
use mathlib.Core.Option
use admin_api.Base.{String, List, [], ◌∷◌, Option, none, some, str_eq, if◌then◌else◌}
use admin_api.Base.Int.{pos}
use admin_api.Session.Json.{
  Json, null, str, num, arr, obj, Items, nil, cons, Fields, end, field, as_text, as_int,
}
use admin_api.Client.{StoredToken}
use admin_api.Service.Auth.{GithubUser, TeamMembership, AuthenticatedUser}

-- The fields of a document, one after another.
unfoldable pub decode_fields : {D : Type 0} → (String → Json → D → Option D) → Fields → D → Option D
unfolding Option.bind
decode_fields set end d = some d
decode_fields set (field key v fs) d = Option.bind (set key v d) (decode_fields set fs)

-- `null` leaves a struct as it is.
unfoldable pub decode_struct : {D : Type 0} → (String → Json → D → Option D) → Json → D → Option D
unfolding decode_fields
decode_struct set (obj fs) d = decode_fields set fs d
decode_struct set null d = some d
decode_struct set _ d = none

unfoldable pub set_team : String → Json → TeamMembership → Option TeamMembership
unfolding as_text
set_team key v old =
    if str_eq key "org_name"
    then Option.map (λ x. record old { org_name = x }) (as_text v old.org_name)
    else if str_eq key "team_name"
    then Option.map (λ x. record old { team_name = x }) (as_text v old.team_name)
    else if str_eq key "role"
    then Option.map (λ x. record old { role = x }) (as_text v old.role)
    else some old

abbrev pub zero_team : TeamMembership
zero_team = record { org_name = ""; team_name = ""; role = "" }

unfoldable pub decode_teams : Items → Option (List TeamMembership)
unfolding decode_struct set_team Option.bind
decode_teams nil = some []
decode_teams (cons v vs) =
    Option.bind (decode_struct set_team v zero_team)
      (λ tm. Option.map (λ tms. tm ∷ tms) (decode_teams vs))

-- A slice starts empty: what Go keeps of the elements of a field that comes twice is left out.
unfoldable pub as_teams : Json → List TeamMembership → Option (List TeamMembership)
unfolding decode_teams
as_teams (arr vs) old = decode_teams vs
as_teams null old = some []
as_teams _ old = none

unfoldable pub set_github_user : String → Json → GithubUser → Option GithubUser
unfolding as_text as_int
set_github_user key v old =
    if str_eq key "id"
    then Option.map (λ x. record old { id = x }) (as_text v old.id)
    else if str_eq key "github_id"
    then Option.map (λ x. record old { github_id = x }) (as_int v old.github_id)
    else if str_eq key "username"
    then Option.map (λ x. record old { username = x }) (as_text v old.username)
    else if str_eq key "email"
    then Option.map (λ x. record old { email = x }) (as_text v old.email)
    else if str_eq key "name"
    then Option.map (λ x. record old { name = x }) (as_text v old.name)
    else if str_eq key "avatar_url"
    then Option.map (λ x. record old { avatar_url = x }) (as_text v old.avatar_url)
    else some old

unfoldable pub as_github_user : Json → GithubUser → Option GithubUser
unfolding decode_struct set_github_user
as_github_user v old = decode_struct set_github_user v old

unfoldable pub set_user : String → Json → AuthenticatedUser → Option AuthenticatedUser
unfolding as_text as_teams as_github_user
set_user key v old =
    if str_eq key "user"
    then Option.map (λ x. record old { user = x }) (as_github_user v old.user)
    else if str_eq key "bearer_token"
    then Option.map (λ x. record old { bearer_token = x }) (as_text v old.bearer_token)
    else if str_eq key "team_memberships"
    then Option.map (λ x. record old { team_memberships = x }) (as_teams v old.team_memberships)
    else some old

-- `var user AuthenticatedUser`
abbrev pub zero_user : AuthenticatedUser
zero_user = record {
  user = record {
    id = "";
    github_id = pos 0;
    username = "";
    email = "";
    name = "";
    avatar_url = "";
  };
  bearer_token = "";
  team_memberships = [];
}

unfoldable pub decode_user : Json → Option AuthenticatedUser
unfolding decode_struct set_user
decode_user v = decode_struct set_user v zero_user

-- `*AuthenticatedUser`: `null` is nil, and an object is read into the struct that is there, or into a
-- new one.
unfoldable pub as_user_pointer : Json → Option AuthenticatedUser → Option (Option AuthenticatedUser)
unfolding decode_struct set_user
as_user_pointer null old = some none
as_user_pointer v none = Option.map some (decode_struct set_user v zero_user)
as_user_pointer v (some old) = Option.map some (decode_struct set_user v old)

unfoldable pub set_stored_token : String → Json → StoredToken → Option StoredToken
unfolding as_text as_user_pointer
set_stored_token key v old =
    if str_eq key "bearer_token"
    then Option.map (λ x. record old { bearer_token = x }) (as_text v old.bearer_token)
    else if str_eq key "user"
    then Option.map (λ x. record old { user = x }) (as_user_pointer v old.user)
    else some old

-- `var storedToken StoredToken`
abbrev pub zero_stored_token : StoredToken
zero_stored_token = record { bearer_token = ""; user = none }

unfoldable pub decode_stored_token : Json → Option StoredToken
unfolding decode_struct set_stored_token
decode_stored_token v = decode_struct set_stored_token v zero_stored_token

-- What `encoding/json` writes for the same types.
unfoldable pub encode_team : TeamMembership → Json
encode_team tm = obj (
    field "org_name" (str tm.org_name)
      (field "team_name" (str tm.team_name) (field "role" (str tm.role) end)))

unfoldable pub encode_teams : List TeamMembership → Items
unfolding encode_team
encode_teams [] = nil
encode_teams (tm ∷ tms) = cons (encode_team tm) (encode_teams tms)

unfoldable pub encode_github_user : GithubUser → Json
encode_github_user u = obj (
    field "id" (str u.id) (
      field "github_id" (num u.github_id) (
        field "username" (str u.username) (
          field "email" (str u.email)
            (field "name" (str u.name) (field "avatar_url" (str u.avatar_url) end))))))

unfoldable pub encode_user : AuthenticatedUser → Json
unfolding encode_github_user encode_teams
encode_user a = obj (
    field "user" (encode_github_user a.user) (
      field "bearer_token" (str a.bearer_token)
        (field "team_memberships" (arr (encode_teams a.team_memberships)) end)))

-- `omitempty` leaves a nil pointer out.
unfoldable pub user_field : Option AuthenticatedUser → Fields
unfolding encode_user
user_field none = end
user_field (some user) = field "user" (encode_user user) end

unfoldable pub encode_stored_token : StoredToken → Json
unfolding user_field
encode_stored_token t = obj (field "bearer_token" (str t.bearer_token) (user_field t.user))
