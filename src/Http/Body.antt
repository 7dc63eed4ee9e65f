-- ===== src/Http/Body.antt =====
-- The bodies of requests: oas_request_decoders_gen.go, the `Decode` of the request types in
-- oas_json_gen.go and their `Validate` in oas_validators_gen.go, all of
-- pkg/apis/v1alpha1/generated. A slice that `Decode` has made is never nil.
pub mod Roundtrip
use admin_api.Base.{
  String, List, [], ◌∷◌, Option, none, some, Bool, true, ◌||◌, str_eq, if◌then◌else◌, Result, ok,
  err,
}
use admin_api.Service.Types.{
  CreateProjectRequest, UpdateProjectRequest, RoleRequest, UserGroupRequest,
}
use admin_api.Http.{
  Value, text, array, other, Payload, empty, unreadable, malformed, not_object, object, HttpRequest,
  Ogen, RequestError, media_type, body_required, read_failed, decode_body, validate_failed,
  invalid_content_type, HttpError, decode_request as decode_request_error,
}

infixl 5 ◌>>=◌
abbrev pub ◌>>=◌ : {A B : Type 0} → Option A → (A → Option B) → Option B
some a >>= f = f a
none >>= f = none

-- `d.ObjBytes`: each field in turn changes the request read so far.
unfoldable pub decode_fields :
    {D : Type 0} → (String → Value → D → Option D) → List (String × Value) → D → Option D
decode_fields step [] d = some d
decode_fields step ((k, v) ∷ fs) d = do d' ← step k v d; decode_fields step fs d'

-- `d.Str`
abbrev pub decode_str : Value → Option String
decode_str (text s) = some s
decode_str (array xs) = none
decode_str other = none

abbrev pub all_texts : List (Option String) → Option (List String)
all_texts [] = some []
all_texts (none ∷ xs) = none
all_texts (some s ∷ xs) = do rest ← all_texts xs; some (s ∷ rest)

-- `d.Arr` of texts
abbrev pub decode_strings : Value → Option (List String)
decode_strings (array xs) = all_texts xs
decode_strings (text s) = none
decode_strings other = none

-- A request being read. `none` is a field whose bit in `requiredBitSet` is not set.
pub record ProjectDraft : Type 0 where
  pub name : Option String
  pub description : Option String
  pub kind : Option String
  pub owner_ids : Option (List String)
  pub owner_group_ids : Option (List String)

-- Of a role, the list is `attributeIds`; of a user group, `memberIds`.
pub record ScopedDraft : Type 0 where
  pub name : Option String
  pub description : Option String
  pub ids : Option (List String)

abbrev pub no_project : ProjectDraft
no_project = record {
  name = none;
  description = none;
  kind = none;
  owner_ids = none;
  owner_group_ids = none;
}

abbrev pub no_scoped : ScopedDraft
no_scoped = record { name = none; description = none; ids = none }

unfoldable pub create_project_field : String → Value → ProjectDraft → Option ProjectDraft
create_project_field k v d =
    if str_eq k "name"
    then (decode_str v >>= λ s. some (record d { name = some s }))
    else if str_eq k "description"
    then (decode_str v >>= λ s. some (record d { description = some s }))
    else if str_eq k "kind"
    then (decode_str v >>= λ s. some (record d { kind = some s }))
    else if str_eq k "ownerIds"
    then (decode_strings v >>= λ ids. some (record d { owner_ids = some ids }))
    else if str_eq k "ownerGroupIds"
    then (decode_strings v >>= λ ids. some (record d { owner_group_ids = some ids }))
    else some d

unfoldable pub update_project_field : String → Value → ProjectDraft → Option ProjectDraft
update_project_field k v d =
    if str_eq k "name"
    then (decode_str v >>= λ s. some (record d { name = some s }))
    else if str_eq k "description"
    then (decode_str v >>= λ s. some (record d { description = some s }))
    else if str_eq k "ownerIds"
    then (decode_strings v >>= λ ids. some (record d { owner_ids = some ids }))
    else if str_eq k "ownerGroupIds"
    then (decode_strings v >>= λ ids. some (record d { owner_group_ids = some ids }))
    else some d

-- The field of the list is "attributeIds" or "memberIds".
unfoldable pub scoped_field : String → String → Value → ScopedDraft → Option ScopedDraft
scoped_field ids_field k v d =
    if str_eq k "name"
    then (decode_str v >>= λ s. some (record d { name = some s }))
    else if str_eq k "description"
    then (decode_str v >>= λ s. some (record d { description = some s }))
    else if str_eq k ids_field
    then (decode_strings v >>= λ ids. some (record d { ids = some ids }))
    else some d

-- The decoders: all fields, then the check that none of the required ones is missed.
unfoldable pub decode_create_project : List (String × Value) → Option CreateProjectRequest
decode_create_project fs = do
  d ← decode_fields create_project_field fs no_project
  name ← d.name
  description ← d.description
  kind ← d.kind
  owner_ids ← d.owner_ids
  owner_group_ids ← d.owner_group_ids
  some (record {
    name = name;
    description = description;
    kind = kind;
    owner_ids = owner_ids;
    owner_group_ids = owner_group_ids;
  })

unfoldable pub decode_update_project : List (String × Value) → Option UpdateProjectRequest
decode_update_project fs = do
  d ← decode_fields update_project_field fs no_project
  name ← d.name
  description ← d.description
  owner_ids ← d.owner_ids
  owner_group_ids ← d.owner_group_ids
  some (record {
    name = name;
    description = description;
    owner_ids = owner_ids;
    owner_group_ids = owner_group_ids;
  })

unfoldable pub decode_role : List (String × Value) → Option RoleRequest
decode_role fs = do
  d ← decode_fields (scoped_field "attributeIds") fs no_scoped
  name ← d.name
  description ← d.description
  ids ← d.ids
  some (record { name = name; description = description; attribute_ids = ids })

unfoldable pub decode_user_group : List (String × Value) → Option UserGroupRequest
decode_user_group fs = do
  d ← decode_fields (scoped_field "memberIds") fs no_scoped
  name ← d.name
  description ← d.description
  ids ← d.ids
  some (record { name = name; description = description; member_ids = ids })

-- A user's only field, its email.
abbrev pub create_user_field : String → Value → Option String → Option (Option String)
create_user_field k v d = if str_eq k "email" then (decode_str v >>= λ s. some (some s)) else some d

unfoldable pub decode_create_user : List (String × Value) → Option String
decode_create_user fs = do d ← decode_fields create_user_field fs none; d

-- `CreateProjectRequestKind.Validate`
abbrev pub validate_kind : String → Bool
validate_kind kind = str_eq kind "personal" || str_eq kind "shared"

abbrev pub validate_create_project : CreateProjectRequest → Bool
validate_create_project req = validate_kind req.kind

module _ {A : Type 0} (decode : List (String × Value) → Option A) (validate : A → Bool) where
  -- A decoded object that is complete and valid.
  unfoldable pub decode_json : Payload → Result RequestError A
  decode_json empty = err body_required
  decode_json unreadable = err read_failed
  decode_json malformed = err decode_body
  decode_json not_object = err decode_body
  decode_json (object fs) = elim (decode fs) [
    | none ↦ err decode_body
    | some request ↦ if validate request then ok request else err validate_failed
  ]

  abbrev pub as_decode_request : Result RequestError A → Result HttpError A
  as_decode_request (ok request) = ok request
  as_decode_request (err e) = err (decode_request_error e)

  unfoldable pub decode_request : HttpRequest → Result HttpError A
  decode_request req = elim req.content_type [
    | none ↦ err (decode_request_error media_type)
    | some ct ↦
        if str_eq ct "application/json"
        then as_decode_request (decode_json req.body)
        else err (decode_request_error (invalid_content_type ct))
  ]

unfoldable pub decode_create_project_request : HttpRequest → Result HttpError CreateProjectRequest
decode_create_project_request = decode_request decode_create_project validate_create_project

unfoldable pub decode_create_role_request : HttpRequest → Result HttpError RoleRequest
decode_create_role_request = decode_request decode_role (λ _. true)

unfoldable pub decode_create_user_request : Ogen → HttpRequest → Result HttpError String
decode_create_user_request o = decode_request decode_create_user o.is_email

unfoldable pub decode_create_user_group_request : HttpRequest → Result HttpError UserGroupRequest
decode_create_user_group_request = decode_request decode_user_group (λ _. true)

unfoldable pub decode_update_project_request : HttpRequest → Result HttpError UpdateProjectRequest
decode_update_project_request = decode_request decode_update_project (λ _. true)

unfoldable pub decode_update_role_request : HttpRequest → Result HttpError RoleRequest
decode_update_role_request = decode_request decode_role (λ _. true)

unfoldable pub decode_update_user_group_request : HttpRequest → Result HttpError UserGroupRequest
decode_update_user_group_request = decode_request decode_user_group (λ _. true)
