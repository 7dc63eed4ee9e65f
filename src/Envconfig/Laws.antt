-- ===== src/Envconfig/Laws.antt =====
-- What loading the environment does, and that it never sets the allowed organisations.
use admin_api.Base.{
  ℕ, String, Bool, true, List, [], ◌≡◌, refl, sym, ap, ◌∙◌, arith, str_eq, if◌then◌else◌, Result,
  ok, Result-cases, inl, inr, Option, some, none,
}
use admin_api.Base.Int.{ℤ}
use admin_api.Oauth.Laws.{validate_org_membership_iff}
use admin_api.Oauth.{Github, GithubOrg, validate_org_membership}
use admin_api.Envconfig.{
  Value, text, int, boolean, duration, texts, struct, Fields, end, field, Environment, LoadError,
  from_variable, load_fields, load_value, parsed, set_field,
}
use admin_api.Envconfig.Schema.{
  slice, slice_at, slice_in, nested_slice_at, allowed_orgs, zero_config, load_from_env,
  override_from_env,
}

-- The steps of a field.
pub load_field_inv :
    (env : Environment) (name tag : String) (v : Value) (fs : Fields) {cfg : Fields}
    → load_fields env (field name tag v fs) ≡ ok cfg
    → (v' : Value) × (fs' : Fields) × (load_value env name tag v ≡ ok v')
      × (load_fields env fs ≡ ok fs')
      × (cfg ≡ field name tag v' fs')
unfolding load_fields
load_field_inv env name tag v fs h = elim (Result-cases (load_value env name tag v)) [
  | inr (x, e) ↦ absurd (cc (h, e))
  | inl (v', e) ↦ elim (Result-cases (load_fields env fs)) [
    | inr (x, k) ↦ absurd (cc (h, e, k))
    | inl (fs', k) ↦ (v', fs', e, k, cc (h, e, k))
  ]
]

pub load_struct_inv :
    (env : Environment) (name tag : String) (fs : Fields) {v : Value}
    → load_value env name tag (struct fs) ≡ ok v
    → (fs' : Fields) × (load_fields env fs ≡ ok fs') × (v ≡ struct fs')
unfolding load_value
load_struct_inv env name tag fs h = elim (Result-cases (load_fields env fs)) [
  | inr (x, e) ↦ absurd (cc (h, e))
  | inl (fs', e) ↦ (fs', e, cc (h, e))
]

ok_inj : {v v' : Value} → ◌≡◌ {A = Result LoadError Value} (ok v) (ok v') → v' ≡ v
ok_inj p = cc

pub end_inj : (env : Environment) {fs : Fields} → load_fields env end ≡ ok fs → fs ≡ end
unfolding load_fields
end_inj env h = cc

-- A view that tells nothing of the kinds that the switch names.
record IsPlain (view : Value → List String) : Type 0 where
  of_text : (x : String) → view (text x) ≡ []
  of_int : (bits : ℕ) (n : ℤ) → view (int bits n) ≡ []
  of_boolean : (b : Bool) → view (boolean b) ≡ []
  of_duration : (n : ℤ) → view (duration n) ≡ []

module _ {view : Value → List String} (plain : IsPlain view) where
  parsed_view :
      {A : Type 0} (e : LoadError) (make : A → Value) (o : Option A) {v : Value}
      → ((a : A) → view (make a) ≡ [])
      → parsed e make o ≡ ok v
      → view v ≡ []
  parsed_view e make none k h = cc
  parsed_view e make (some a) k h = ap view (ok_inj h) ∙ k a

  view-from_variable :
      (env : Environment) (name tag : String) (v : Value) {v' : Value}
      → ((w : Value) → set_field env name (env.getenv tag) v ≡ ok w → view w ≡ view v)
      → from_variable env name tag v ≡ ok v'
      → view v' ≡ view v
  unfolding from_variable
  view-from_variable env name tag v {v'} k h = ground (arith, k v')

  -- No variable changes what the view shows of a value, unless it does so in a struct.
  view-load_value :
      (env : Environment) (name tag : String) (v : Value) {v' : Value}
      → ((fs fs' : Fields) → load_fields env fs ≡ ok fs' → view (struct fs') ≡ view (struct fs))
      → load_value env name tag v ≡ ok v'
      → view v' ≡ view v
  unfolding load_value set_field
  view-load_value env name tag (struct fs) within h =
      let (fs', loaded, same) = load_struct_inv env name tag fs h in
      ap view same ∙ within fs fs' loaded
  view-load_value env name tag (text x) within h =
      view-from_variable env name tag (text x)
        (λ w k. ap view (ok_inj k) ∙ plain.of_text _ ∙ sym (plain.of_text x)) h
  view-load_value env name tag (int bits n) within h =
      view-from_variable env name tag (int bits n)
        (λ w k. parsed_view _ _ _ (plain.of_int bits) k ∙ sym (plain.of_int bits n)) h
  view-load_value env name tag (boolean b) within h =
      view-from_variable env name tag (boolean b)
        (λ w k. parsed_view _ _ _ plain.of_boolean k ∙ sym (plain.of_boolean b)) h
  view-load_value env name tag (duration n) within h =
      view-from_variable env name tag (duration n)
        (λ w k. parsed_view _ _ _ plain.of_duration k ∙ sym (plain.of_duration n)) h
  view-load_value env name tag (texts xs) within h =
      view-from_variable env name tag (texts xs) (λ w k. ap view (ok_inj k)) h

-- The same of the fields of a struct.
slice_at-load_fields :
    (env : Environment) (name : String) (fs : Fields) {fs' : Fields}
    → load_fields env fs ≡ ok fs'
    → slice_at name fs' ≡ slice_at name fs
slice_at-load_fields env name end h = ap (slice_at name) (end_inj env h)
slice_at-load_fields env name (field n tag v fs) h =
    let (v', rest, e, k, same) = load_field_inv env n tag v fs h in
    let plain : IsPlain slice = record {
      of_text = λ x. refl;
      of_int = λ b n. refl;
      of_boolean = λ b. refl;
      of_duration = λ n. refl;
    } in
    ap (slice_at name) same
    ∙ ap (λ xs. if str_eq n name then xs else slice_at name rest)
        (view-load_value plain env n tag v (λ fs fs' l. refl) e)
    ∙ ap (λ xs. if str_eq n name then slice v else xs) (slice_at-load_fields env name fs k)

nested_slice_at-load_fields :
    (env : Environment) (outer name : String) (fs : Fields) {fs' : Fields}
    → load_fields env fs ≡ ok fs'
    → nested_slice_at outer name fs' ≡ nested_slice_at outer name fs
nested_slice_at-load_fields env outer name end h = ap (nested_slice_at outer name) (end_inj env h)
nested_slice_at-load_fields env outer name (field n tag v fs) h =
    let (v', rest, e, k, same) = load_field_inv env n tag v fs h in
    let plain : IsPlain (slice_in name) = record {
      of_text = λ x. refl;
      of_int = λ b n. refl;
      of_boolean = λ b. refl;
      of_duration = λ n. refl;
    } in
    ap (nested_slice_at outer name) same
    ∙ ap (λ xs. if str_eq n outer then xs else nested_slice_at outer name rest)
        (view-load_value plain env n tag v (λ fs fs' l. slice_at-load_fields env name fs l) e)
    ∙ ap (λ xs. if str_eq n outer then slice_in name v else xs)
        (nested_slice_at-load_fields env outer name fs k)

-- Overriding a configuration from the environment never changes its allowed organisations, whatever
-- `GITHUB_ALLOWED_ORGS` says.
pub allowed_orgs-override_from_env :
    (env : Environment) (cfg : Fields) {cfg' : Fields}
    → override_from_env env cfg ≡ ok cfg'
    → allowed_orgs cfg' ≡ allowed_orgs cfg
unfolding override_from_env
allowed_orgs-override_from_env env cfg h =
    nested_slice_at-load_fields env "Auth" "AllowedOrgs" cfg h

-- A configuration that comes from the environment, whatever `GITHUB_ALLOWED_ORGS` says, lets every
-- user of GitHub pass the membership check.
pub load_from_env_admits_all :
    (env : Environment) {cfg : Fields} (github : Github) (orgs : List GithubOrg)
    → load_from_env env ≡ ok cfg
    → validate_org_membership (record { github = github; allowed_orgs = allowed_orgs cfg }) orgs
      ≡ true
unfolding load_from_env override_from_env
load_from_env_admits_all env {cfg} github orgs h =
    (validate_org_membership_iff (record { github = github; allowed_orgs = allowed_orgs cfg })
        orgs).1
      (inl (allowed_orgs-override_from_env env zero_config h))
