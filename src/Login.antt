-- ===== src/Login.antt =====
-- The OAuth endpoints of pkg/server/server.go: `createLoginHandler` and `createCallbackHandler`.
-- A handler takes the time, the bytes that `rand.Read` gives it and the query parameters.
pub mod Callback
pub mod Replay
pub mod Confusion
pub mod Roundtrip
mod Tests
use Prim.Native.String
use admin_api.Base.{
  ℕ, ◌+◌, ◌*◌, ◌/◌, String, List, [], map, Option, none, some, Bool, true, ◌||◌, str_eq,
  if◌then◌else◌, Result, ok, err, ◌>>=◌, ◌>>◌,
}
use admin_api.Base.Int.{format_int}
use admin_api.Oauth
use admin_api.Oauth.{
  Token, GithubUser, GithubClient, OauthError, get_auth_url, exchange_code, get_user, get_user_orgs,
  validate_org_membership, get_team_memberships,
}
use admin_api.Session
use admin_api.Session.{Session}
use admin_api.Session.Id.{generate_session_id}
use admin_api.Session.Json.{zero_session}
use admin_api.Session.Store.{Store}

pub record Cookie : Type 0 where
  pub name : String
  pub value : String
  pub path : String
  pub http_only : Bool
  pub secure : Bool
  pub same_site : String
  pub max_age : ℕ

-- `c.JSON(status, {"error": message})`, or `c.Redirect(302, location)` with the cookie set.
pub data Response : Type 0 where
  failure : ℕ → String → Response
  redirect : String → Option Cookie → Response

-- `time.Second`, in nanoseconds.
abbrev pub second : ℕ
second = 1000000000

-- `10*time.Minute`
abbrev pub state_lifetime : ℕ
state_lifetime = 600 * second

-- The error replies of the callback are pairs of a status and a message.
abbrev pub Failing : Type 0 → Type 0
Failing A = Result (ℕ × String) A

abbrev pub unauthorized : {A : Type 0} → String → Failing A
unauthorized message = err (401, message)

-- `if err != nil { return c.JSON(http.StatusUnauthorized, message) }`
abbrev pub or_unauthorized : {A : Type 0} → String → Result OauthError A → Failing A
or_unauthorized message (ok a) = ok a
or_unauthorized message (err e) = unauthorized message

-- Who GitHub says that the caller is.
pub record Identity : Type 0 where
  pub token : Token
  pub user : GithubUser
  pub teams : List Oauth.TeamMembership

-- `teams = []oauth.TeamMembership{}` on an error.
abbrev pub or_none : {A : Type 0} → Result OauthError (List A) → List A
or_none (ok teams) = teams
or_none (err e) = []

-- The part of the callback that asks GitHub.
unfoldable pub identify : GithubClient → String → Failing Identity
identify c code = do
  token ← or_unauthorized "authentication failed" (exchange_code c code)
  user ← or_unauthorized "failed to get user info" (get_user c token)
  orgs ← or_unauthorized "failed to get user orgs" (get_user_orgs c token)
  if validate_org_membership c orgs
      then ok
          (record { token = token; user = user; teams = or_none (get_team_memberships c token) })
      else unauthorized "not authorized: not a member of allowed organizations"

abbrev pub to_session_team : Oauth.TeamMembership → Session.TeamMembership
to_session_team tm = record { org_name = tm.org_name; team_name = tm.team_name; role = tm.role }

-- The session of a user who has logged in.
unfoldable pub new_session : ℕ → ℕ → String → Identity → Session
new_session now session_ttl session_id who = record {
  id = session_id;
  user_id = format_int who.user.id;
  github_user_id = who.user.id;
  github_username = who.user.login;
  email = who.user.email;
  name = who.user.name;
  avatar_url = who.user.avatar_url;
  access_token = who.token.access_token;
  refresh_token = who.token.refresh_token;
  team_memberships = map to_session_team who.teams;
  expires_at = now + session_ttl;
  created_at = now;
}

abbrev pub session_cookie : String → ℕ → Cookie
session_cookie session_id session_ttl = record {
  name = "session_id";
  value = session_id;
  path = "/";
  http_only = true;
  secure = true;
  same_site = "Lax";
  max_age = session_ttl / second;
}

-- `fmt.Sprintf("%s?token=%s&state=%s", …)`
abbrev pub frontend_redirect : String → String → String → String
frontend_redirect url session_id state =
    String.◌++◌ url (String.◌++◌ "?token=" (String.◌++◌ session_id (String.◌++◌ "&state=" state)))

-- The session that keeps a login's state; its `Name` is the redirect URI, if one is given.
abbrev pub state_session : ℕ → String → String → Session
state_session now state redirect_uri = record zero_session {
  id = state;
  name = redirect_uri;
  expires_at = now + state_lifetime;
  created_at = now;
}

module _ {S : Type 0} (c : GithubClient) (state_store : Store S) where
  -- `createLoginHandler`
  unfoldable pub login_handler : ℕ → Option (List ℕ) → String → S → S × Response
  login_handler now entropy redirect_uri s = elim (generate_session_id entropy) [
    | none ↦ (s, failure 500 "internal error")
    | some state ↦
        let (s', stored) = state_store.create now (state_session now state redirect_uri) s in
        (
          s',
          elim stored [
            | ok _ ↦ redirect (get_auth_url c state) none
            | err e ↦ failure 500 "internal error"
          ],
        )
  ]

module _ {S : Type 0} (session_store : Store S) (frontend_url : String) (session_ttl : ℕ) where
  -- The end of the callback: the session is made and stored, and the user sent on with it.
  unfoldable pub open_session : ℕ → Option (List ℕ) → String → Session → Identity → S → S × Response
  unfolding new_session
  open_session now entropy state stated who s = elim (generate_session_id entropy) [
    | none ↦ (s, failure 500 "internal error")
    | some session_id ↦
        let (s', stored) =
          session_store.create now (new_session now session_ttl session_id who) s in
        let url = if str_eq stated.name "" then frontend_url else stated.name in
        (
          s',
          elim stored [
            | err e ↦ failure 500 "internal error"
            | ok _ ↦
                redirect (frontend_redirect url session_id state)
                  (some (session_cookie session_id session_ttl))
          ],
        )
  ]

  module _ (c : GithubClient) (state_store : Store S) where
    -- `createCallbackHandler`. A failure to delete the state is only logged.
    unfoldable pub callback_handler : ℕ → Option (List ℕ) → String → String → S → S × Response
    callback_handler now entropy code state s =
        if str_eq code "" || str_eq state ""
        then (s, failure 400 "missing code or state")
        else elim (state_store.get now state s) [
          | err e ↦ (s, failure 401 "invalid state")
          | ok stated ↦
              let s₁ = (state_store.delete state s).0 in
              elim (identify c code) [
                | err (status, message) ↦ (s₁, failure status message)
                | ok who ↦ open_session now entropy state stated who s₁
              ]
        ]
