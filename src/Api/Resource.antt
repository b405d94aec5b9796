-- ===== src/Api/Resource.antt =====
-- The Terraform resource: its metadata, spec and status.
use terraform_operator.Prelude.{ℕ, String, List, Option}
use terraform_operator.Api.Task.{TaskName}
use terraform_operator.Api.Stage.{StatusPhase, Stage, Time}
use terraform_operator.Api.Spec.{StringMap, TerraformSpec}

pub record TerraformStatus : Type 0 where
  pub pod_name_prefix : String
  pub phase : StatusPhase
  pub last_completed_generation : ℕ
  pub outputs : StringMap
  pub stage : Stage
  pub plugins_started : List TaskName
  pub retry_event_reason : Option String
  pub retry_timestamp : Option Time

-- Of `ObjectMeta`, the fields that the controller reads; a missing map has no entries. The API
-- server counts the generation from 1.
pub record Terraform : Type 0 where
  pub name : String
  pub namespace : String
  pub uid : String
  pub generation : ℕ
  pub labels : StringMap
  pub finalizers : List String
  pub deletion_timestamp : Option Time
  pub spec : TerraformSpec
  pub status : TerraformStatus
