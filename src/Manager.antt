-- ===== src/Manager.antt =====
-- The environment that cmd/manager/main.go reads for the tasks.
pub mod Environ
use terraform_operator.Prelude.{
  ℕ, String, code, Bool, List, [], ◌∷◌, ◌==◌, if◌then◌else◌, Option, none, some, nat_beq, insert,
  split,
}
use terraform_operator.Api.Spec.{StringMap}
use terraform_operator.Controller.Addresses.{break_on}
use terraform_operator.Controller.Run.{GlobalEnv}

-- `strings.Split(env, "=")[0]`
unfoldable pub key_of : String → String
key_of env = elim (split env b'=') [ [] ↦ "" | key ∷ parts ↦ key ]

-- `os.Getenv`: the first entry of the name counts.
unfoldable pub get_env : (key : String) → (environ : List String) → String
unfolding break_on
get_env key [] = ""
get_env key (env ∷ environ) =
    let later = get_env key environ in
    elim (break_on b'=' env) [
      | none ↦ later
      | some (name, value) ↦ if name == key then value else later
    ]

-- What `strings.TrimPrefix` leaves where `strings.HasPrefix` holds.
unfoldable pub strip_prefix : (prefix s : String) → Option String
strip_prefix String.[] s = some s
strip_prefix (String.◌∷◌ c prefix) String.[] = none
strip_prefix (String.◌∷◌ c prefix) (String.◌∷◌ d s) =
    let rest = strip_prefix prefix s in if nat_beq (code c) (code d) then rest else none

abbrev pub add_named : Option String → (value : String) → StringMap → StringMap
add_named none value entries = entries
add_named (some name) value entries = insert name value entries

-- The loop over `os.Environ()`.
unfoldable pub read_entries : (environ entries : List String) → GlobalEnv → GlobalEnv
unfolding key_of get_env strip_prefix
read_entries environ [] g = g
read_entries environ (env ∷ entries) g =
    let key = key_of env in
    let value = get_env key environ in
    read_entries environ entries (record g {
      from_configmap_data = add_named (strip_prefix "TFO_VAR_" key) value g.from_configmap_data;
      from_secret_data = add_named (strip_prefix "TFO_SECRET_" key) value g.from_secret_data;
    })

unfoldable pub global_env_of : (environ : List String) → GlobalEnv
unfolding read_entries
global_env_of environ =
    read_entries environ environ
      (record { from_configmap_data = []; from_secret_data = []; suffix = "global-envs" })
