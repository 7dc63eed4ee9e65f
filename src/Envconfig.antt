-- ===== src/Envconfig.antt =====
-- pkg/envconfig/envconfig.go: a struct filled from environment variables. Reflection sees a struct as
-- its fields, each with a name, its `env` tag ("" for none) and a value. All fields can be set.
pub mod Parse
pub mod Schema
pub mod Laws
pub mod Override
mod Tests
use admin_api.Base.{
  ℕ, String, Bool, List, Option, none, some, str_eq, if◌then◌else◌, Result, ok, err, ◌>>=◌,
}
use admin_api.Base.Int.{ℤ}
use admin_api.Envconfig.Parse.{parse_int, parse_bool}

-- The kinds that the fields of the configuration have. The width of an `int` is its bits.
mutual
  pub data Value : Type 0 where
    text : String → Value
    int : ℕ → ℤ → Value
    boolean : Bool → Value
    duration : ℤ → Value
    texts : List String → Value
    struct : Fields → Value

  pub data Fields : Type 0 where
    end : Fields
    field : (name tag : String) → Value → Fields → Fields

-- Which parse failed, for the field of that name.
pub data LoadError : Type 0 where
  bad_duration bad_int bad_bool : String → LoadError

abbrev parsed : {A : Type 0} → LoadError → (A → Value) → Option A → Result LoadError Value
parsed e make none = err e
parsed e make (some a) = ok (make a)

-- `os.Getenv`, "" for a variable that is not set, and `time.ParseDuration`.
pub record Environment : Type 0 where
  pub getenv : String → String
  pub parse_duration : String → Option ℤ

-- The switch on the kind of the field: a kind that it does not name is left as it is.
unfoldable pub set_field : Environment → String → String → Value → Result LoadError Value
set_field env name env_value (duration old) =
    parsed (bad_duration name) duration (env.parse_duration env_value)
set_field env name env_value (text old) = ok (text env_value)
set_field env name env_value (int bits old) =
    parsed (bad_int name) (int bits) (parse_int bits env_value)
set_field env name env_value (boolean old) = parsed (bad_bool name) boolean (parse_bool env_value)
set_field env name env_value (texts old) = ok (texts old)
set_field env name env_value (struct old) = ok (struct old)

unfoldable pub from_variable : Environment → String → String → Value → Result LoadError Value
unfolding set_field
from_variable env name tag v =
    if str_eq tag ""
    then ok v
    else if str_eq (env.getenv tag) ""
    then ok v
    else set_field env name (env.getenv tag) v

-- `loadFromEnvRecursive`. A struct is of none of the switch's kinds, so its own tag does nothing.
unfoldable mutual
  unfolding from_variable

  pub load_fields : Environment → Fields → Result LoadError Fields
  load_fields env end = ok end
  load_fields env (field name tag v fs) = do
    v' ← load_value env name tag v
    fs' ← load_fields env fs
    ok (field name tag v' fs')

  pub load_value : Environment → String → String → Value → Result LoadError Value
  load_value env name tag (struct fs) = do fs' ← load_fields env fs; ok (struct fs')
  load_value env name tag (text x) = from_variable env name tag (text x)
  load_value env name tag (int bits n) = from_variable env name tag (int bits n)
  load_value env name tag (boolean b) = from_variable env name tag (boolean b)
  load_value env name tag (duration n) = from_variable env name tag (duration n)
  load_value env name tag (texts xs) = from_variable env name tag (texts xs)
