-- ===== src/Http/Replies.antt =====
-- The replies of the generated server: the `Encode` of the types of a reply in
-- pkg/apis/v1alpha1/generated/oas_json_gen.go, and the types of oas_schemas_gen.go that an operation
-- may answer with. A document is a tree, as in Session/Json.
pub mod Encoders
pub mod Answers
pub mod Roundtrip
use admin_api.Base.{ℕ, String, List, [], ◌∷◌, Option}
use admin_api.Session.Json.{Json, str, num, arr, obj, Items, nil, cons, end, field}
use admin_api.Service.Types.{Project, Role, User, UserGroup}
use admin_api.Service.Auth.{GithubUser, TeamMembership, AuthenticatedUser}

-- `EncodeDateTime` and `DecodeDateTime` of the library ogen.
pub record DateTime : Type 0 where
  pub write : ℕ → String
  pub read : String → Option ℕ

-- What an operation may answer with: its result, or one of the types that hold an `ErrorResponse`.
-- `error_response` is that type itself. Each operation has some of these.
pub data Res (A : Type 0) : Type 0 where
  success : A → Res A
  bad_request unauthorized not_found internal_server_error error_response : String → Res A

unfoldable pub encode_error_response : String → Json
encode_error_response error = obj (field "error" (str error) end)

unfoldable pub encode_health_response : String → Json
encode_health_response status = obj (field "status" (str status) end)

-- `for _, elem := range …`
abbrev pub encode_elems : {A : Type 0} → (A → Json) → List A → Items
encode_elems encode [] = nil
encode_elems encode (a ∷ as') = cons (encode a) (encode_elems encode as')

unfoldable pub encode_team_membership : TeamMembership → Json
encode_team_membership tm = obj (
    field "org_name" (str tm.org_name)
      (field "team_name" (str tm.team_name) (field "role" (str tm.role) end)))

-- `CreatedAt` and `UpdatedAt` are never set.
unfoldable pub encode_github_user : GithubUser → Json
encode_github_user u = obj (
    field "id" (str u.id) (
      field "github_id" (num u.github_id) (
        field "username" (str u.username) (
          field "email" (str u.email)
            (field "name" (str u.name) (field "avatar_url" (str u.avatar_url) end))))))

unfoldable pub encode_authenticated_user : AuthenticatedUser → Json
unfolding encode_github_user encode_team_membership
encode_authenticated_user a = obj (
    field "user" (encode_github_user a.user) (
      field "bearer_token" (str a.bearer_token) (
        field "team_memberships" (arr (encode_elems encode_team_membership a.team_memberships))
          end)))

module _ (t : DateTime) where
  unfoldable pub encode_project : Project → Json
  encode_project p = obj (
      field "id" (str p.id) (
        field "name" (str p.name) (
          field "description" (str p.description) (
            field "kind" (str p.kind) (
              field "createdAt" (str (t.write p.created_at))
                (field "updatedAt" (str (t.write p.updated_at)) end))))))

  -- The attributes are never set.
  unfoldable pub encode_role : Role → Json
  unfolding encode_project
  encode_role r = obj (
      field "id" (str r.id) (
        field "name" (str r.name) (
          field "description" (str r.description) (
            field "project" (encode_project r.project) (
              field "attributes" (arr nil) (
                field "createdAt" (str (t.write r.created_at))
                  (field "updatedAt" (str (t.write r.updated_at)) end)))))))

  unfoldable pub encode_user : User → Json
  unfolding encode_role
  encode_user u = obj (
      field "id" (str u.id) (
        field "email" (str u.email) (
          field "roles" (arr (encode_elems encode_role u.roles)) (
            field "createdAt" (str (t.write u.created_at))
              (field "updatedAt" (str (t.write u.updated_at)) end)))))

  unfoldable pub encode_user_group : UserGroup → Json
  unfolding encode_project encode_user
  encode_user_group g = obj (
      field "id" (str g.id) (
        field "name" (str g.name) (
          field "description" (str g.description) (
            field "project" (encode_project g.project) (
              field "members" (arr (encode_elems encode_user g.members)) (
                field "createdAt" (str (t.write g.created_at))
                  (field "updatedAt" (str (t.write g.updated_at)) end)))))))

  unfoldable pub encode_list_projects : List Project → Json
  unfolding encode_project
  encode_list_projects ps = arr (encode_elems encode_project ps)
