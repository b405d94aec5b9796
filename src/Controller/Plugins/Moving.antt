-- ===== src/Controller/Plugins/Moving.antt =====
-- What creating the job of a plugin does to the world at most.
use terraform_operator.Prelude.{String, List}
use terraform_operator.Api.Task.{TaskName}
use terraform_operator.Api.Spec.{EnvFromSource, Plugin}
use terraform_operator.Api.Resource.{Terraform}
use terraform_operator.Cluster.Effects.{pure, attempt}
use terraform_operator.Cluster.Client.{Client}
use terraform_operator.Cluster.Moving.{Moves, Allows, Moves-then, Moves-ignored}
use terraform_operator.Controller.Options.{Inherited}
use terraform_operator.Controller.Ensure.{create_job}
use terraform_operator.Controller.Ensure.Moving.{create_job-Moves}
use terraform_operator.Controller.Status.Moving.{update_status_with_retry-Moves}
use terraform_operator.Controller.Plugins.{get_plugin_run_opts, create_plugin_job}

pub create_plugin_job-Moves :
    (c : Client) {R : c.World → c.World → Type 0} (a : Allows c R) (md5 : String → String)
    (tf : Terraform) (name : TaskName) (plugin : Plugin) (env : List EnvFromSource)
    (inherited : Inherited) (approval : String)
    → Moves R (create_plugin_job c md5 tf name plugin env inherited approval)
unfolding create_plugin_job
create_plugin_job-Moves c a md5 tf name plugin env inherited approval =
    let r = (get_plugin_run_opts md5 tf name plugin env inherited approval).1 in
    Moves-then c a (attempt (create_job c r) (λ e. pure tt) (λ _. pure tt)) _
      (Moves-ignored c a (create_job c r) (create_job-Moves c a r))
      (update_status_with_retry-Moves c a _ _)
