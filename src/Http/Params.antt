-- ===== src/Http/Params.antt =====
-- pkg/apis/v1alpha1/generated/oas_parameters_gen.go: the parameters of the operations.
use admin_api.Base.{ℕ, String, none, some, Bool, str_eq, if◌then◌else◌, Result, ok, err}
use admin_api.Base.Int.{ℤ, pos, negsuc}
use admin_api.Http.{
  HttpRequest, Lookup, absent, unreadable_value, present, Ogen, HttpError, decode_params,
}

-- `Limit` and `Offset` of the four list operations.
pub record Page : Type 0 where
  pub limit : ℤ
  pub offset : ℤ

-- `int32(params.Limit)` is taken of numbers that are not negative.
abbrev pub magnitude : ℤ → ℕ
magnitude (pos n) = n
magnitude (negsuc n) = 0

infixl 5 ◌>>=◌
-- `if err := func() error { … }(); err != nil { return params, … }`
abbrev pub ◌>>=◌ :
    {A B : Type 0} → Result HttpError A → (A → Result HttpError B) → Result HttpError B
ok a >>= f = f a
err e >>= f = err e

module _ (o : Ogen) where
  -- An argument that the router took from the path.
  unfoldable pub decode_path : HttpRequest → String → String → Result HttpError String
  decode_path req name arg = elim (if req.escaped then o.path_unescape arg else some arg) [
    | none ↦ err (decode_params name)
    | some param ↦
        if str_eq param ""
        then err (decode_params name)
        else elim (o.path_value param) [ none ↦ err (decode_params name) | some val ↦ ok val ]
  ]

  -- A parameter of the query that is required, whatever default was set before.
  unfoldable pub decode_int : (ℤ → Bool) → String → Lookup → Result HttpError ℤ
  decode_int validate name absent = err (decode_params name)
  decode_int validate name unreadable_value = err (decode_params name)
  decode_int validate name (present val) = elim (o.to_int val) [
    | none ↦ err (decode_params name)
    | some c ↦ if validate c then ok c else err (decode_params name)
  ]

  unfoldable pub decode_page : HttpRequest → Result HttpError Page
  unfolding decode_int
  decode_page req = do
    limit ← decode_int (o.validate_int 1 (some 100)) "limit" (req.query "limit")
    offset ← decode_int (o.validate_int 0 none) "offset" (req.query "offset")
    ok (record { limit = limit; offset = offset })

  abbrev pub decode_list_projects_params : HttpRequest → Result HttpError Page
  decode_list_projects_params = decode_page

  abbrev pub decode_list_users_params : HttpRequest → Result HttpError Page
  decode_list_users_params = decode_page

  unfoldable pub decode_list_roles_params : String → HttpRequest → Result HttpError (String × Page)
  decode_list_roles_params arg req = do
    project_id ← decode_path req "projectId" arg
    page ← decode_page req
    ok (project_id, page)

  unfoldable pub decode_list_user_groups_params :
      String → HttpRequest → Result HttpError (String × Page)
  decode_list_user_groups_params arg req = do
    project_id ← decode_path req "projectId" arg
    page ← decode_page req
    ok (project_id, page)

  abbrev pub decode_create_role_params : String → HttpRequest → Result HttpError String
  decode_create_role_params arg req = decode_path req "projectId" arg

  abbrev pub decode_create_user_group_params : String → HttpRequest → Result HttpError String
  decode_create_user_group_params arg req = decode_path req "projectId" arg

  abbrev pub decode_get_project_params : String → HttpRequest → Result HttpError String
  decode_get_project_params arg req = decode_path req "projectId" arg

  abbrev pub decode_update_project_params : String → HttpRequest → Result HttpError String
  decode_update_project_params arg req = decode_path req "projectId" arg

  unfoldable pub decode_get_role_params :
      String → String → HttpRequest → Result HttpError (String × String)
  decode_get_role_params arg arg' req = do
    project_id ← decode_path req "projectId" arg
    role_id ← decode_path req "roleId" arg'
    ok (project_id, role_id)

  unfoldable pub decode_get_user_group_params :
      String → String → HttpRequest → Result HttpError (String × String)
  decode_get_user_group_params arg arg' req = do
    project_id ← decode_path req "projectId" arg
    group_id ← decode_path req "groupId" arg'
    ok (project_id, group_id)

  unfoldable pub decode_update_role_params :
      String → String → HttpRequest → Result HttpError (String × String)
  decode_update_role_params arg arg' req = do
    project_id ← decode_path req "projectId" arg
    role_id ← decode_path req "roleId" arg'
    ok (project_id, role_id)

  unfoldable pub decode_update_user_group_params :
      String → String → HttpRequest → Result HttpError (String × String)
  decode_update_user_group_params arg arg' req = do
    project_id ← decode_path req "projectId" arg
    group_id ← decode_path req "groupId" arg'
    ok (project_id, group_id)
