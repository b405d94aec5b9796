-- ===== src/Controller/GitAccess/Namespaces.antt =====
-- In which namespace the secret of a token is looked for.
use terraform_operator.Prelude.{String, ◌≡◌, refl}
use terraform_operator.Api.Spec.{SecretRef}
use terraform_operator.Api.Resource.{Terraform}
use terraform_operator.Cluster.{secret}
use terraform_operator.Cluster.Effects.{ApiError, api, err}
use terraform_operator.Cluster.Client.{Client, failed}
use terraform_operator.Controller.Finalizers.{git_secret, load_secret}
use terraform_operator.Controller.GitAccess.{create_git_askpass}

module _ (c : Client) (tf : Terraform) where
  open c use {World}

  -- A token whose reference names no namespace is looked for in the namespace `default`: if it is
  -- not there, `createGitAskpass` fails, although the secret that is locked against deletion for
  -- the same reference is the one in the namespace of the resource.
  pub create_git_askpass-default :
      (script : String → String) (ref : SecretRef) (e : ApiError) (w v : World)
      → ref.namespace ≡ ""
      → c.get secret "default" ref.name w ≡ (failed e, v)
      → (create_git_askpass c script ref w ≡ (err (api e), v))
        × ((git_secret tf ref).namespace ≡ tf.namespace)
  unfolding create_git_askpass load_secret git_secret
  create_git_askpass-default script ref e w v n h = (rw (n, h) refl, rw n refl)
