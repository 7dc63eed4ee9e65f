-- ===== src/Envconfig/Schema.antt =====
-- pkg/config/config.go: the configuration as `LoadFromEnv` starts on it, and its allowed
-- organisations.
use admin_api.Base.{String, false, List, [], str_eq, if◌then◌else◌, Result}
use admin_api.Base.Int.{pos}
use admin_api.Envconfig.{
  Value, text, int, boolean, duration, texts, struct, Fields, end, field, Environment, LoadError,
  load_fields,
}

abbrev pub admin_db_config : Fields
admin_db_config = field "Host" "ADMIN_DB_HOST" (text "") (
    field "Port" "ADMIN_DB_PORT" (int 64 (pos 0)) (
      field "User" "ADMIN_DB_USER" (text "") (
        field "Password" "ADMIN_DB_PASSWORD" (text "") (
          field "DBName" "ADMIN_DB_NAME" (text "")
            (field "InitialConnRetry" "ADMIN_DB_INITIAL_CONN_RETRY" (int 64 (pos 0)) end)))))

abbrev pub auth_config : Fields
auth_config = field "GitHubClientID" "GITHUB_CLIENT_ID" (text "") (
    field "GitHubClientSecret" "GITHUB_CLIENT_SECRET" (text "") (
      field "CallbackURL" "GITHUB_CALLBACK_URL" (text "") (
        field "FrontendURL" "FRONTEND_URL" (text "") (
          field "AllowedOrgs" "GITHUB_ALLOWED_ORGS" (texts [])
            (field "SessionTTL" "SESSION_TTL" (duration (pos 0)) end)))))

abbrev pub redis_config : Fields
redis_config = field "Host" "REDIS_HOST" (text "") (
    field "Port" "REDIS_PORT" (int 64 (pos 0))
      (field "Password" "REDIS_PASSWORD" (text "") (field "DB" "REDIS_DB" (int 64 (pos 0)) end)))

abbrev pub cors_config : Fields
cors_config = field "AllowOrigins" "CORS_ALLOW_ORIGINS" (text "") (
    field "AllowMethods" "CORS_ALLOW_METHODS" (text "") (
      field "AllowHeaders" "CORS_ALLOW_HEADERS" (text "") (
        field "ExposeHeaders" "CORS_EXPOSE_HEADERS" (text "") (
          field "AllowCredentials" "CORS_ALLOW_CREDENTIALS" (boolean false)
            (field "MaxAge" "CORS_MAX_AGE" (int 64 (pos 0)) end)))))

abbrev pub tls_config : Fields
tls_config =
    field "Enabled" "TLS_ENABLED" (boolean false)
      (field "CertFile" "TLS_CERT_FILE" (text "") (field "KeyFile" "TLS_KEY_FILE" (text "") end))

abbrev pub telemetry_config : Fields
telemetry_config = field "Enabled" "TELEMETRY_ENABLED" (boolean false) (
    field "OTLPEndpoint" "OTLP_ENDPOINT" (text "")
      (field "Timeout" "TELEMETRY_TIMEOUT" (duration (pos 0)) end))

-- The zero value of `Config`.
abbrev pub zero_config : Fields
zero_config = field "Addr" "ADDR" (text "") (
    field "Port" "PORT" (text "") (
      field "AdminDBConfig" "" (struct admin_db_config) (
        field "Auth" "" (struct auth_config) (
          field "Redis" "" (struct redis_config) (
            field "CORS" "" (struct cors_config) (
              field "TLS" "" (struct tls_config)
                (field "Telemetry" "" (struct telemetry_config) end)))))))

-- `LoadFromEnv` of pkg/config/config.go
unfoldable pub load_from_env : Environment → Result LoadError Fields
load_from_env env = load_fields env zero_config

-- `OverrideFromEnv`, on a configuration that the YAML file gave.
unfoldable pub override_from_env : Environment → Fields → Result LoadError Fields
override_from_env env cfg = load_fields env cfg

-- The slice in the field of a name, of a struct and of a struct in it.
abbrev pub slice : Value → List String
slice (texts xs) = xs
slice _ = []

abbrev pub slice_at : String → Fields → List String
slice_at name end = []
slice_at name (field n tag v fs) = if str_eq n name then slice v else slice_at name fs

abbrev pub slice_in : String → Value → List String
slice_in name (struct fs) = slice_at name fs
slice_in name _ = []

abbrev pub nested_slice_at : String → String → Fields → List String
nested_slice_at outer name end = []
nested_slice_at outer name (field n tag v fs) =
    if str_eq n outer then slice_in name v else nested_slice_at outer name fs

-- `cfg.Auth.AllowedOrgs`
abbrev pub allowed_orgs : Fields → List String
allowed_orgs cfg = nested_slice_at "Auth" "AllowedOrgs" cfg
