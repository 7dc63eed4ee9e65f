-- ===== src/Envconfig/Tests.antt =====
-- An environment, and the theorems at it.
use admin_api.Base.{List, [], none, true, ◌≡◌, refl, str_eq, if◌then◌else◌}
use admin_api.Base.Int.{pos}
use admin_api.Oauth.{Github, GithubOrg, no_reply, validate_org_membership}
use admin_api.Envconfig.{
  int, texts, Fields, end, field, Environment, from_variable, load_fields, set_field,
}
use admin_api.Envconfig.Schema.{zero_config, load_from_env, allowed_orgs}
use admin_api.Envconfig.Laws.{load_from_env_admits_all}

abbrev env : Environment
env = record {
  getenv = λ name.
      if str_eq name "GITHUB_ALLOWED_ORGS"
      then "acme"
      else if str_eq name "REDIS_PORT"
      then "6379"
      else if str_eq name "TLS_ENABLED"
      then "true"
      else "";
  parse_duration = λ s. none;
}

abbrev silent : Github
silent = record {
  auth_code_url = λ state. state;
  exchange = λ code. none;
  user = λ token. no_reply;
  emails = λ token. no_reply;
  orgs = λ token. no_reply;
  teams = λ token. no_reply;
}

abbrev small : Fields
small =
    field "Port" "REDIS_PORT" (int 64 (pos 0)) (field "Orgs" "GITHUB_ALLOWED_ORGS" (texts []) end)

abbrev small_loaded : Fields
small_loaded =
    field "Port" "REDIS_PORT" (int 64 (pos 6379))
      (field "Orgs" "GITHUB_ALLOWED_ORGS" (texts []) end)

abbrev nobody : List GithubOrg
nobody = []

-- The variable is set, and the configuration is still the zero value.
abbrev orgs_env : Environment
orgs_env = record {
  getenv = λ name. if str_eq name "GITHUB_ALLOWED_ORGS" then "acme" else "";
  parse_duration = λ s. none;
}

load_from_env_admits_all_example :
    validate_org_membership
      (record { github = silent; allowed_orgs = allowed_orgs zero_config })
      nobody
    ≡ true
unfolding load_from_env load_fields set_field from_variable
load_from_env_admits_all_example =
    load_from_env_admits_all orgs_env {cfg = zero_config} silent nobody refl
