-- ===== src/Tests/Managers.antt =====
-- The environment of the manager, and the name of a new resource.
use terraform_operator.Prelude.{String, List, [], ◌∷◌, ◌≡◌, ◌≢◌, ◌≤◌, some, lookup, text_length}
use terraform_operator.Api.Stage.{initializing}
use terraform_operator.Utils.Random.{Rand, alpha_num, string_with_charset}
use terraform_operator.Controller.Reconcile.{initialize}
use terraform_operator.Controller.Reconcile.Naming.{initialize-length}
use terraform_operator.Manager.{global_env_of}
use terraform_operator.Manager.Environ.{value_of, global_env_of-lookup}
use terraform_operator.Tests.Fixtures.{site, stage_of}

abbrev environ : List String
environ = "PATH=/bin" ∷ "TFO_VAR_REGION=eu=1" ∷ "TFO_SECRET_TOKEN=s" ∷ []

environ_example :
    (lookup "REGION" (global_env_of environ).from_configmap_data
      ≡ value_of environ "TFO_VAR_REGION")
    × (lookup "REGION" (global_env_of environ).from_secret_data
        ≡ value_of environ "TFO_SECRET_REGION")
environ_example = global_env_of-lookup environ "REGION"

-- Draws always the first character.
abbrev first_char : Rand
first_char = record { World = Unit {0}; intn = λ n w. (0, w); below = λ n w h. h }

name_example :
    (suffix : String) × (w' : first_char.World) × (string_with_charset first_char 8 alpha_num tt
      ≡ (some suffix, w'))
    × (text_length (initialize suffix (site initializing (stage_of 0 "" ""))).status.pod_name_prefix
        ≤ 63)
    × ((initialize suffix (site initializing (stage_of 0 "" ""))).status.pod_name_prefix ≢ "")
name_example = initialize-length first_char (site initializing (stage_of 0 "" "")) tt
