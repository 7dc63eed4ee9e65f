-- ===== src/Oauth.antt =====
-- pkg/auth/oauth/github.go: the GitHub client.
pub mod Laws
mod Tests
use admin_api.Base.{
  ℕ, String, List, [], ◌∷◌, map, Option, none, some, Bool, true, false, ◌&&◌, ◌==◌, str_eq, any,
  if◌then◌else◌, Result, ok, err, ◌>>=◌,
}
use admin_api.Base.Int.{ℤ}

-- The fields that the program reads of an `oauth2.Token`.
pub record Token : Type 0 where
  pub access_token : String
  pub refresh_token : String

pub record GithubUser : Type 0 where
  pub id : ℤ
  pub login : String
  pub email : String
  pub name : String
  pub avatar_url : String

pub record GithubOrg : Type 0 where
  pub login : String

pub record GithubTeam : Type 0 where
  pub name : String
  pub slug : String
  pub organization : GithubOrg

pub record TeamMembership : Type 0 where
  pub org_name : String
  pub team_name : String
  pub role : String

-- An element of the reply of `/user/emails`.
pub record EmailAddress : Type 0 where
  pub email : String
  pub primary : Bool
  pub verified : Bool

-- What an HTTP GET yields: an error of the transport, or a status and a body, `none` if the body is
-- not the JSON that is expected.
pub data HttpReply (A : Type 0) : Type 0 where
  no_reply : HttpReply A
  reply : ℕ → Option A → HttpReply A

pub data OauthError : Type 0 where
  exchange_failed request_failed decode_failed no_primary_email : OauthError
  bad_status : ℕ → OauthError

-- GitHub's side, which is not in the repository: the code exchange, and the replies of the four
-- endpoints to a token.
pub record Github : Type 0 where
  pub auth_code_url : String → String
  pub exchange : String → Option Token
  pub user : Token → HttpReply GithubUser
  pub emails : Token → HttpReply (List EmailAddress)
  pub orgs : Token → HttpReply (List GithubOrg)
  pub teams : Token → HttpReply (List GithubTeam)

-- `GitHubClient`: what it is configured with, and the service that it talks to.
pub record GithubClient : Type 0 where
  pub github : Github
  pub allowed_orgs : List String

-- The steps that every call makes on its reply.
unfoldable pub read_reply : {A : Type 0} → HttpReply A → Result OauthError A
read_reply no_reply = err request_failed
read_reply (reply status body) =
    if status == 200
    then elim body [ none ↦ err decode_failed | some a ↦ ok a ]
    else err (bad_status status)

abbrev pub get_auth_url : GithubClient → String → String
get_auth_url c state = c.github.auth_code_url state

unfoldable pub exchange_code : GithubClient → String → Result OauthError Token
exchange_code c code = elim (c.github.exchange code) [
  | none ↦ err exchange_failed
  | some token ↦ ok token
]

-- The loop of `getPrimaryEmail`.
unfoldable pub first_primary : List EmailAddress → Result OauthError String
first_primary [] = err no_primary_email
first_primary (e ∷ es) = if e.primary && e.verified then ok e.email else first_primary es

unfoldable pub get_primary_email : GithubClient → Token → Result OauthError String
unfolding read_reply first_primary
get_primary_email c token = do emails ← read_reply (c.github.emails token); first_primary emails

-- The end of `GetUser`: a profile without an email gets the primary one.
unfoldable pub fill_email : GithubClient → Token → GithubUser → Result OauthError GithubUser
fill_email c token user =
    let filled = get_primary_email c token >>= λ email. ok (record user { email = email }) in
    if str_eq user.email "" then filled else ok user

unfoldable pub get_user : GithubClient → Token → Result OauthError GithubUser
get_user c token = do user ← read_reply (c.github.user token); fill_email c token user

unfoldable pub get_user_orgs : GithubClient → Token → Result OauthError (List GithubOrg)
unfolding read_reply
get_user_orgs c token = read_reply (c.github.orgs token)

-- `lo.Contains`
abbrev pub contains : List String → String → Bool
contains names name = any (λ n. str_eq n name) names

unfoldable pub validate_org_membership : GithubClient → List GithubOrg → Bool
validate_org_membership c orgs = elim c.allowed_orgs [
  | [] ↦ true
  | _ ∷ _ ↦ any (λ (org : GithubOrg). contains c.allowed_orgs org.login) orgs
]

-- A role is always "member".
unfoldable pub get_team_memberships : GithubClient → Token → Result OauthError (List TeamMembership)
unfolding read_reply
get_team_memberships c token = do
  teams ← read_reply (c.github.teams token)
  ok (
      map
        (λ (team : GithubTeam). record {
          org_name = team.organization.login;
          team_name = team.slug;
          role = "member";
        })
        teams)
