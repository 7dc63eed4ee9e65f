-- ===== src/Http/Body/Roundtrip.antt =====
-- `Encode` of the requests in pkg/apis/v1alpha1/generated/oas_json_gen.go, which the program's own
-- client sends, and the decoder that the server reads them with.
use admin_api.Base.{String, List, [], ◌∷◌, some, ◌≡◌, refl, map}
use admin_api.Service.Types.{CreateProjectRequest}
use admin_api.Http.{Value, text, array}
use admin_api.Http.Body.{decode_fields, all_texts, create_project_field, decode_create_project}

unfoldable pub encode_create_project : CreateProjectRequest → List (String × Value)
encode_create_project req =
    ("name", text req.name)
    ∷ ("description", text req.description)
    ∷ ("kind", text req.kind)
    ∷ ("ownerIds", array (map some req.owner_ids))
    ∷ ("ownerGroupIds", array (map some req.owner_group_ids))
    ∷ []

all_texts-map : (xs : List String) → all_texts (map some xs) ≡ some xs
all_texts-map [] = refl
all_texts-map (x ∷ xs) = rw (all_texts-map xs) refl

-- The server reads from the document that the client writes of a request that very request,
-- whatever its fields.
pub decode_create_project-encode_create_project :
    (req : CreateProjectRequest) → decode_create_project (encode_create_project req) ≡ some req
unfolding decode_create_project decode_fields create_project_field encode_create_project
decode_create_project-encode_create_project req =
    rw (all_texts-map req.owner_ids, all_texts-map req.owner_group_ids) refl
