-- ===== src/Service/Auth.antt =====
-- pkg/apis/v1alpha1/server.go: the handlers on the session of the request, and the security
-- handlers.
pub mod Lifetime
use admin_api.Base.{ℕ, ◌+◌, String, Option, none, some, List, map, Result, ok, err}
use admin_api.Base.Int.{ℤ}
use admin_api.Session
use admin_api.Session.{Session}
use admin_api.Session.Store.{Store}

pub record GithubUser : Type 0 where
  pub id : String
  pub github_id : ℤ
  pub username : String
  pub email : String
  pub name : String
  pub avatar_url : String

pub record TeamMembership : Type 0 where
  pub org_name : String
  pub team_name : String
  pub role : String

pub record AuthenticatedUser : Type 0 where
  pub user : GithubUser
  pub bearer_token : String
  pub team_memberships : List TeamMembership

-- `panicked` is the runtime error of a nil pointer that is read.
pub data AuthReply : Type 0 where
  authenticated : AuthenticatedUser → AuthReply
  no_content : AuthReply
  error_response : String → AuthReply
  panicked : AuthReply

abbrev pub to_team : Session.TeamMembership → TeamMembership
to_team tm = record { org_name = tm.org_name; team_name = tm.team_name; role = tm.role }

-- The literal `AuthenticatedUser{…}` of a session. `url.Parse` is of the standard library: `none`
-- is its nil, which the literal dereferences.
unfoldable pub describe : (String → Option String) → Session → AuthReply
describe parse sess = elim (parse sess.avatar_url) [
  | none ↦ panicked
  | some avatar_url ↦ authenticated (record {
    user = record {
      id = sess.user_id;
      github_id = sess.github_user_id;
      username = sess.github_username;
      email = sess.email;
      name = sess.name;
      avatar_url = avatar_url;
    };
    bearer_token = sess.id;
    team_memberships = map to_team sess.team_memberships;
  })
]

-- `HandleBearerAuth` and `HandleCookieAuth`: `none` for no error.
abbrev pub handle_auth : Option Session → Option String
handle_auth (some sess) = none
handle_auth none = some "not authenticated"

unfoldable pub get_current_user : (String → Option String) → Option Session → AuthReply
unfolding describe
get_current_user parse none = error_response "not authenticated"
get_current_user parse (some sess) = describe parse sess

module _ {S : Type 0} (session_store : Store S) where
  -- A failure to delete the session is only logged.
  unfoldable pub logout : Option Session → S → S × AuthReply
  logout none s = (s, error_response "not authenticated")
  logout (some sess) s = ((session_store.delete sess.id s).0, no_content)

  unfoldable pub refresh_token :
      (String → Option String) → ℕ → ℕ → Option Session → S → S × AuthReply
  unfolding describe
  refresh_token parse session_ttl now none s = (s, error_response "not authenticated")
  refresh_token parse session_ttl now (some sess) s =
      let (s', refreshed) = session_store.refresh now sess.id (now + session_ttl) s in
      (
        s',
        elim refreshed [
          | err e ↦ error_response "failed to refresh session"
          | ok _ ↦ describe parse (record sess { expires_at = now + session_ttl })
        ],
      )
