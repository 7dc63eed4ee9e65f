-- ===== src/Service/Types.antt =====
-- The API's types of pkg/apis/v1alpha1/generated/oas_schemas_gen.go that the handlers build.
use admin_api.Base.{ℕ, String, List}

-- Times are nanoseconds since the zero value of `time.Time`.
pub record Project : Type 0 where
  pub id : String
  pub name : String
  pub description : String
  pub kind : String
  pub created_at : ℕ
  pub updated_at : ℕ

abbrev pub zero_project : Project
zero_project = record {
  id = "";
  name = "";
  description = "";
  kind = "";
  created_at = 0;
  updated_at = 0;
}

-- `Attributes` is never set by the handlers, and `Roles` of a user is always empty.
pub record Role : Type 0 where
  pub id : String
  pub name : String
  pub description : String
  pub project : Project
  pub created_at : ℕ
  pub updated_at : ℕ

pub record User : Type 0 where
  pub id : String
  pub email : String
  pub roles : List Role
  pub created_at : ℕ
  pub updated_at : ℕ

pub record UserGroup : Type 0 where
  pub id : String
  pub name : String
  pub description : String
  pub project : Project
  pub members : List User
  pub created_at : ℕ
  pub updated_at : ℕ

pub record CreateProjectRequest : Type 0 where
  pub name : String
  pub description : String
  pub kind : String
  pub owner_ids : List String
  pub owner_group_ids : List String

pub record UpdateProjectRequest : Type 0 where
  pub name : String
  pub description : String
  pub owner_ids : List String
  pub owner_group_ids : List String

-- `CreateRoleRequest` and `UpdateRoleRequest`
pub record RoleRequest : Type 0 where
  pub name : String
  pub description : String
  pub attribute_ids : List String

-- `CreateUserGroupRequest` and `UpdateUserGroupRequest`
pub record UserGroupRequest : Type 0 where
  pub name : String
  pub description : String
  pub member_ids : List String
