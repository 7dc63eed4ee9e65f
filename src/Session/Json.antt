-- ===== src/Session/Json.antt =====
-- The JSON document of a session: what `encoding/json` writes and reads for the field tags of
-- pkg/auth/session/session.go. A document is a tree; its text is left to `encoding/json`. The text
-- of a `time.Time` is the node `stamp`.
pub mod Roundtrip
use mathlib.Core.Option
use admin_api.Base.{ℕ, String, List, [], ◌∷◌, Option, none, some, ltb, str_eq, if◌then◌else◌, ◌&&◌}
use admin_api.Base.Int.{ℤ, pos}
use admin_api.Session.{Session, TeamMembership}

mutual
  pub data Json : Type 0 where
    null : Json
    num : ℤ → Json
    str : String → Json
    stamp : ℕ → Json
    arr : Items → Json
    obj : Fields → Json

  pub data Items : Type 0 where
    nil : Items
    cons : Json → Items → Items

  pub data Fields : Type 0 where
    end : Fields
    field : String → Json → Fields → Fields

-- The first instant of the year 10000, which RFC 3339 cannot write: `MarshalJSON` refuses it.
abbrev pub year_10000 : ℕ
year_10000 = 315537897600000000000

encode_team : TeamMembership → Json
encode_team tm = obj (
    field "org_name" (str tm.org_name)
      (field "team_name" (str tm.team_name) (field "role" (str tm.role) end)))

encode_teams : List TeamMembership → Items
unfolding encode_team
encode_teams [] = nil
encode_teams (tm ∷ tms) = cons (encode_team tm) (encode_teams tms)

unfoldable pub encode_session : Session → Json
unfolding encode_teams
encode_session s = obj (
    field "id" (str s.id) (
      field "user_id" (str s.user_id) (
        field "github_user_id" (num s.github_user_id) (
          field "github_username" (str s.github_username) (
            field "email" (str s.email) (
              field "name" (str s.name) (
                field "avatar_url" (str s.avatar_url) (
                  field "access_token" (str s.access_token) (
                    field "refresh_token" (str s.refresh_token) (
                      field "team_memberships" (arr (encode_teams s.team_memberships)) (
                        field "expires_at" (stamp s.expires_at)
                          (field "created_at" (stamp s.created_at) end))))))))))))

-- `json.Marshal(session)`
unfoldable pub marshal : Session → Option Json
marshal s =
    if ltb s.expires_at year_10000 && ltb s.created_at year_10000
    then some (encode_session s)
    else none

-- A value for a field of a Go type: `null` leaves the field as it is.
unfoldable pub as_text : Json → String → Option String
as_text (str x) old = some x
as_text null old = some old
as_text _ old = none

unfoldable pub as_int : Json → ℤ → Option ℤ
as_int (num n) old = some n
as_int null old = some old
as_int _ old = none

as_time : Json → ℕ → Option ℕ
as_time (stamp t) old = some t
as_time null old = some old
as_time _ old = none

set_team_field : String → Json → TeamMembership → Option TeamMembership
unfolding as_text
set_team_field key v tm =
    if str_eq key "org_name"
    then Option.map (λ x. record tm { org_name = x }) (as_text v tm.org_name)
    else if str_eq key "team_name"
    then Option.map (λ x. record tm { team_name = x }) (as_text v tm.team_name)
    else if str_eq key "role"
    then Option.map (λ x. record tm { role = x }) (as_text v tm.role)
    else some tm

abbrev zero_team : TeamMembership
zero_team = record { org_name = ""; team_name = ""; role = "" }

decode_team_fields : Fields → TeamMembership → Option TeamMembership
unfolding set_team_field Option.bind
decode_team_fields end tm = some tm
decode_team_fields (field key v fs) tm =
    Option.bind (set_team_field key v tm) (λ tm'. decode_team_fields fs tm')

decode_team : Json → Option TeamMembership
unfolding decode_team_fields
decode_team (obj fs) = decode_team_fields fs zero_team
decode_team null = some zero_team
decode_team _ = none

decode_teams : Items → Option (List TeamMembership)
unfolding decode_team Option.bind
decode_teams nil = some []
decode_teams (cons v vs) =
    Option.bind (decode_team v) (λ tm. Option.map (λ tms. tm ∷ tms) (decode_teams vs))

as_teams : Json → List TeamMembership → Option (List TeamMembership)
unfolding decode_teams
as_teams (arr vs) old = decode_teams vs
as_teams null old = some []
as_teams _ old = none

set_field : String → Json → Session → Option Session
unfolding as_text as_int as_time as_teams
set_field key v s =
    if str_eq key "id"
    then Option.map (λ x. record s { id = x }) (as_text v s.id)
    else if str_eq key "user_id"
    then Option.map (λ x. record s { user_id = x }) (as_text v s.user_id)
    else if str_eq key "github_user_id"
    then Option.map (λ x. record s { github_user_id = x }) (as_int v s.github_user_id)
    else if str_eq key "github_username"
    then Option.map (λ x. record s { github_username = x }) (as_text v s.github_username)
    else if str_eq key "email"
    then Option.map (λ x. record s { email = x }) (as_text v s.email)
    else if str_eq key "name"
    then Option.map (λ x. record s { name = x }) (as_text v s.name)
    else if str_eq key "avatar_url"
    then Option.map (λ x. record s { avatar_url = x }) (as_text v s.avatar_url)
    else if str_eq key "access_token"
    then Option.map (λ x. record s { access_token = x }) (as_text v s.access_token)
    else if str_eq key "refresh_token"
    then Option.map (λ x. record s { refresh_token = x }) (as_text v s.refresh_token)
    else if str_eq key "team_memberships"
    then Option.map (λ x. record s { team_memberships = x }) (as_teams v s.team_memberships)
    else if str_eq key "expires_at"
    then Option.map (λ x. record s { expires_at = x }) (as_time v s.expires_at)
    else if str_eq key "created_at"
    then Option.map (λ x. record s { created_at = x }) (as_time v s.created_at)
    else some s

decode_fields : Fields → Session → Option Session
unfolding set_field Option.bind
decode_fields end s = some s
decode_fields (field key v fs) s = Option.bind (set_field key v s) (λ s'. decode_fields fs s')

-- `var session Session`
abbrev pub zero_session : Session
zero_session = record {
  id = "";
  user_id = "";
  github_user_id = pos 0;
  github_username = "";
  email = "";
  name = "";
  avatar_url = "";
  access_token = "";
  refresh_token = "";
  team_memberships = [];
  expires_at = 0;
  created_at = 0;
}

-- `json.Unmarshal(data, &session)`
unfoldable pub unmarshal : Json → Option Session
unfolding decode_fields
unmarshal (obj fs) = decode_fields fs zero_session
unmarshal null = some zero_session
unmarshal _ = none
