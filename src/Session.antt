-- ===== src/Session.antt =====
-- pkg/auth/session/session.go
pub mod Id
pub mod Json
pub mod Redis
pub mod Store
mod Tests
use admin_api.Base.{ℕ, String, List}
use admin_api.Base.Int.{ℤ}

pub record TeamMembership : Type 0 where
  pub org_name : String
  pub team_name : String
  pub role : String

-- Times are nanoseconds since the zero value of `time.Time`.
pub record Session : Type 0 where
  pub id : String
  pub user_id : String
  pub github_user_id : ℤ
  pub github_username : String
  pub email : String
  pub name : String
  pub avatar_url : String
  pub access_token : String
  pub refresh_token : String
  pub team_memberships : List TeamMembership
  pub expires_at : ℕ
  pub created_at : ℕ
