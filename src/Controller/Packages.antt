-- ===== src/Controller/Packages.antt =====
-- What the controller of pkg/controllers/terraform_controller.go is started with, and the packages
-- that it calls.
use terraform_operator.Prelude.{String, List}
use terraform_operator.Api.Spec.{ConfigMapSelector}
use terraform_operator.Cluster.Effects.{Result}
use terraform_operator.Cluster.Client.{ControllerUtil}
use terraform_operator.Controller.Options.{ParsedAddress}
use terraform_operator.Controller.Addresses.{NetUrl, Getter}
use terraform_operator.Controller.Run.{GlobalEnv}

-- `md5` is the digest as a text, `askpass` the script that answers with a token, and the last two
-- are `json.Marshal`. The default scripts are the files of pkg/controllers/scripts.
pub record Packages : Type 0 where
  pub md5 : String → String
  pub askpass : String → String
  pub finalizers : ControllerUtil
  pub net : NetUrl
  pub getter : Getter
  pub selector_json : ConfigMapSelector → Result String
  pub addresses_json : List ParsedAddress → Result String
  pub terraform_script : String
  pub setup_script : String
  pub noop_script : String
  pub global_env : GlobalEnv
  pub require_approval_image : String
