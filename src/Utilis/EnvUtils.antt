-- ===== src/Utilis/EnvUtils.antt =====
-- `EnvUtils` of src/utilis/env.h, over the environment as a function.
use wsgateway.Prelude.{Bytes, Option, none, some, empty, if◌then◌else◌}
use wsgateway.Std.Number.{ℤ, Result, ok, err, stoi}

-- `std::getenv`
abbrev pub Env : Type 0
Env = Bytes → Option Bytes

-- The value of a variable, `none` where it is missing or empty.
abbrev pub set_value : Option Bytes → Option Bytes
set_value none = none
set_value (some v) = if empty v then none else some v

abbrev pub text_or : Bytes → Option Bytes → Bytes
text_or default none = default
text_or default (some v) = v

unfoldable pub get_env_string : Env → Bytes → Bytes → Bytes
get_env_string env name default = text_or default (set_value (env name))

-- `std::stoi` and `std::stof` throw `invalid_argument` or `out_of_range`; both are caught.
abbrev pub or_default {ℓ} : {A : Type ℓ} → A → Result A → A
or_default default (ok a) = a
or_default default (err e) = default

abbrev pub int_or : ℤ → Option Bytes → ℤ
int_or default none = default
int_or default (some v) = or_default default (stoi v)

unfoldable pub get_env_int : Env → Bytes → ℤ → ℤ
get_env_int env name default = int_or default (set_value (env name))

-- `getEnvFloat`, over the type of floats and `std::stof`.
module _ {F : Type 0} (stof : Bytes → Result F) where
  unfoldable pub get_env_float : Env → Bytes → F → F
  get_env_float env name default = elim (set_value (env name)) [
    | none ↦ default
    | some v ↦ or_default default (stof v)
  ]
