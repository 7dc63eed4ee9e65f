-- ===== src/Http/Replies/Roundtrip.antt =====
-- `Decode` of `Project` and of `ListProjectsOKApplicationJSON` in
-- pkg/apis/v1alpha1/generated/oas_json_gen.go, with which the program's client reads a listing.
use admin_api.Base.{
  ℕ, String, List, [], ◌∷◌, Option, none, some, ◌≡◌, refl, str_eq, if◌then◌else◌, map,
}
use admin_api.Session.Json.{Json, str, arr, obj, Items, nil, cons, Fields, end, field}
use admin_api.Service.Types.{Project}
use admin_api.Http.Body.{◌>>=◌}
use admin_api.Http.Replies.{DateTime, encode_elems, encode_project, encode_list_projects}

-- A project being read. `none` is a field whose bit in `requiredBitSet` is not set.
pub record ProjectReply : Type 0 where
  pub id : Option String
  pub name : Option String
  pub description : Option String
  pub kind : Option String
  pub created_at : Option ℕ
  pub updated_at : Option ℕ

abbrev pub no_reply : ProjectReply
no_reply = record {
  id = none;
  name = none;
  description = none;
  kind = none;
  created_at = none;
  updated_at = none;
}

-- `d.Str`
abbrev pub read_str : Json → Option String
read_str (str s) = some s
read_str _ = none

module _ (t : DateTime) where
  abbrev pub read_date_time : Json → Option ℕ
  read_date_time v = read_str v >>= t.read

  -- A kind that is not one of the constants is kept as it is.
  unfoldable pub project_field : String → Json → ProjectReply → Option ProjectReply
  project_field k v d =
      if str_eq k "id"
      then (read_str v >>= λ s. some (record d { id = some s }))
      else if str_eq k "name"
      then (read_str v >>= λ s. some (record d { name = some s }))
      else if str_eq k "description"
      then (read_str v >>= λ s. some (record d { description = some s }))
      else if str_eq k "kind"
      then (read_str v >>= λ s. some (record d { kind = some s }))
      else if str_eq k "createdAt"
      then (read_date_time v >>= λ i. some (record d { created_at = some i }))
      else if str_eq k "updatedAt"
      then (read_date_time v >>= λ i. some (record d { updated_at = some i }))
      else some d

  unfoldable pub project_fields : Fields → ProjectReply → Option ProjectReply
  unfolding project_field
  project_fields end d = some d
  project_fields (field k v fs) d = do d' ← project_field k v d; project_fields fs d'

  unfoldable pub decode_project : Json → Option Project
  unfolding project_fields
  decode_project (obj fs) = do
    d ← project_fields fs no_reply
    id ← d.id
    name ← d.name
    description ← d.description
    kind ← d.kind
    created_at ← d.created_at
    updated_at ← d.updated_at
    some (record {
      id = id;
      name = name;
      description = description;
      kind = kind;
      created_at = created_at;
      updated_at = updated_at;
    })
  decode_project _ = none

  unfoldable pub decode_projects : Items → Option (List Project)
  unfolding decode_project
  decode_projects nil = some []
  decode_projects (cons v vs) = do p ← decode_project v; ps ← decode_projects vs; some (p ∷ ps)

  unfoldable pub decode_list_projects : Json → Option (List Project)
  unfolding decode_projects
  decode_list_projects (arr vs) = decode_projects vs
  decode_list_projects _ = none

-- The text of an instant keeps it to a precision.
pub record Rounds (t : DateTime) (round : ℕ → ℕ) : Type 0 where
  pub back : (i : ℕ) → t.read (t.write i) ≡ some (round i)

abbrev pub rounded : (ℕ → ℕ) → Project → Project
rounded round p = record p { created_at = round p.created_at; updated_at = round p.updated_at }

module _ {t : DateTime} {round : ℕ → ℕ} (r : Rounds t round) where
  decode_project-encode_project :
      (p : Project) → decode_project t (encode_project t p) ≡ some (rounded round p)
  unfolding decode_project project_fields project_field encode_project
  decode_project-encode_project p = rw (r.back p.created_at, r.back p.updated_at) refl

  elems :
      (ps : List Project)
      → decode_projects t (encode_elems (encode_project t) ps) ≡ some (map (rounded round) ps)
  unfolding decode_projects
  elems [] = refl
  elems (p ∷ ps) = rw (decode_project-encode_project p, elems ps) refl

  -- The client reads from the document that the server writes of a listing the same projects, their
  -- instants rounded as the text of an instant rounds them.
  pub decode_list_projects-encode_list_projects :
      (ps : List Project)
      → decode_list_projects t (encode_list_projects t ps) ≡ some (map (rounded round) ps)
  unfolding decode_list_projects encode_list_projects
  decode_list_projects-encode_list_projects ps = elems ps
