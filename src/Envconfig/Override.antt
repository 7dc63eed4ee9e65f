-- ===== src/Envconfig/Override.antt =====
-- Loading the environment over a configuration that has values already.
use admin_api.Base.{String, Bool, true, ◌≡◌, refl, sym, ◌∙◌, arith, eq_iff, ok, false}
use admin_api.Envconfig.{
  Value, text, int, boolean, duration, texts, struct, Fields, end, field, Environment,
  from_variable, load_fields, load_value, set_field,
}
use admin_api.Envconfig.Schema.{override_from_env}
use admin_api.Envconfig.Laws.{end_inj, load_field_inv, load_struct_inv}

module _ (env : Environment) where
  -- A variable that is not set leaves its field.
  from_variable_unset :
      (name tag : String) (v : Value) → env.getenv tag ≡ "" → from_variable env name tag v ≡ ok v
  unfolding from_variable
  from_variable_unset name tag v h = ground (arith, eq_iff (env.getenv tag) "")

  -- What a variable has set, it sets again to the same.
  from_variable_again :
      (name tag : String) (v : Value) {v' : Value}
      → from_variable env name tag v ≡ ok v'
      → from_variable env name tag v' ≡ ok v'
  unfolding from_variable set_field
  from_variable_again name tag (text x) h = ground arith
  from_variable_again name tag (texts x) h = ground arith
  from_variable_again name tag (int b n) h = ground arith
  from_variable_again name tag (boolean n) h = ground arith
  from_variable_again name tag (duration n) h = ground arith
  from_variable_again name tag (struct n) h = ground arith

  abbrev is_struct : Value → Bool
  is_struct (struct fs) = true
  is_struct _ = false

  is_struct-from_variable :
      (name tag : String) (v : Value) {v' : Value}
      → is_struct v ≡ false
      → from_variable env name tag v ≡ ok v'
      → is_struct v' ≡ false
  unfolding from_variable set_field
  is_struct-from_variable name tag (text x) k h = ground arith
  is_struct-from_variable name tag (texts x) k h = ground arith
  is_struct-from_variable name tag (int b n) k h = ground arith
  is_struct-from_variable name tag (boolean n) k h = ground arith
  is_struct-from_variable name tag (duration n) k h = ground arith
  is_struct-from_variable name tag (struct n) k h = cc

  load_value-eq :
      (name tag : String) (v : Value)
      → is_struct v ≡ false
      → load_value env name tag v ≡ from_variable env name tag v
  unfolding load_value
  load_value-eq name tag (struct n) k = cc
  load_value-eq name tag (text x) k = refl
  load_value-eq name tag (texts x) k = refl
  load_value-eq name tag (int b n) k = refl
  load_value-eq name tag (boolean n) k = refl
  load_value-eq name tag (duration n) k = refl

  leaf_again :
      (name tag : String) (v : Value) {v' : Value}
      → is_struct v ≡ false
      → load_value env name tag v ≡ ok v'
      → load_value env name tag v' ≡ ok v'
  leaf_again name tag v {v'} k h =
      let read = sym (load_value-eq name tag v k) ∙ h in
      load_value-eq name tag v' (is_struct-from_variable name tag v k read)
      ∙ from_variable_again name tag v read

  leaf_unset :
      (name tag : String) (v : Value)
      → is_struct v ≡ false
      → env.getenv tag ≡ ""
      → load_value env name tag v ≡ ok v
  leaf_unset name tag v k h = load_value-eq name tag v k ∙ from_variable_unset name tag v h

  mutual
    unfolding load_fields

    fields_again :
        (fs : Fields) {fs' : Fields} → load_fields env fs ≡ ok fs' → load_fields env fs' ≡ ok fs'
    fields_again end h = let same = end_inj env h in rw same refl
    fields_again (field name tag v fs) h =
        let (v', fs', e, k, same) = load_field_inv env name tag v fs h in
        let first = value_again name tag v e in
        let others = fields_again fs k in rw same (rw (first, others) refl)

    value_again :
        (name tag : String) (v : Value) {v' : Value}
        → load_value env name tag v ≡ ok v'
        → load_value env name tag v' ≡ ok v'
    value_again name tag (struct fs) h =
        let (fs', loaded, same) = load_struct_inv env name tag fs h in
        let again = fields_again fs loaded in rw same (rw again refl)
    value_again name tag (text x) h = leaf_again name tag (text x) refl h
    value_again name tag (texts x) h = leaf_again name tag (texts x) refl h
    value_again name tag (int b n) h = leaf_again name tag (int b n) refl h
    value_again name tag (boolean n) h = leaf_again name tag (boolean n) refl h
    value_again name tag (duration n) h = leaf_again name tag (duration n) refl h

  mutual
    unfolding load_fields

    fields_unset :
        (fs : Fields) → ((tag : String) → env.getenv tag ≡ "") → load_fields env fs ≡ ok fs
    fields_unset end h = refl
    fields_unset (field name tag v fs) h =
        let first = value_unset name tag v h in
        let others = fields_unset fs h in rw (first, others) refl

    value_unset :
        (name tag : String) (v : Value)
        → ((t : String) → env.getenv t ≡ "")
        → load_value env name tag v ≡ ok v
    value_unset name tag (struct fs) h = let inner = fields_unset fs h in rw inner refl
    value_unset name tag (text x) h = leaf_unset name tag (text x) refl (h tag)
    value_unset name tag (texts x) h = leaf_unset name tag (texts x) refl (h tag)
    value_unset name tag (int b n) h = leaf_unset name tag (int b n) refl (h tag)
    value_unset name tag (boolean n) h = leaf_unset name tag (boolean n) refl (h tag)
    value_unset name tag (duration n) h = leaf_unset name tag (duration n) refl (h tag)

  -- Overriding a configuration by the same environment once more changes nothing.
  pub override_from_env_again :
      (cfg : Fields) {cfg' : Fields}
      → override_from_env env cfg ≡ ok cfg'
      → override_from_env env cfg' ≡ ok cfg'
  unfolding override_from_env
  override_from_env_again cfg h = fields_again cfg h

  -- In an environment that sets no variable, a configuration is kept as it is, with no error.
  pub override_from_env_unset :
      (cfg : Fields) → ((tag : String) → env.getenv tag ≡ "") → override_from_env env cfg ≡ ok cfg
  unfolding override_from_env
  override_from_env_unset cfg h = fields_unset cfg h
