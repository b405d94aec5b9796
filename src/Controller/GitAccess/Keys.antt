-- ===== src/Controller/GitAccess/Keys.antt =====
-- Which keys the SSH configuration of a task holds.
use terraform_operator.Prelude.{
  String, Bool, true, List, [], ◌∷◌, ◌++◌, ◌≡◌, Option, none, some, false, ◌==◌, ◌&&◌, ◌||◌,
}
use terraform_operator.Api.Spec.{ScmAuthMethod, GitScm, GitSsh}
use terraform_operator.Api.Resource.{Terraform}
use terraform_operator.Cluster.Effects.{ok}
use terraform_operator.Cluster.Client.{Client}
use terraform_operator.Controller.GitAccess.{load_key}

abbrev needs_key : Option GitSsh → Bool
needs_key none = false
needs_key (some ssh) = true

abbrev uses_ssh : ScmAuthMethod → Bool
uses_ssh m = elim m.git [ none ↦ false | some git ↦ needs_key git.ssh ]

-- One of the methods reaches the host by SSH.
abbrev pub is_reached : (host : String) → List ScmAuthMethod → Bool
is_reached host [] = false
is_reached host (m ∷ methods) = uses_ssh m && m.host == host || is_reached host methods

-- The key is that of the last of the methods that reach the host by SSH.
pub record LastKey (c : Client) (tf : Terraform) (host : String) (methods : List ScmAuthMethod)
    (key : String) : Type 0 where
  pub before : List ScmAuthMethod
  pub method : ScmAuthMethod
  pub after : List ScmAuthMethod
  pub split : methods ≡ before ++ method ∷ after
  pub of_host : method.host ≡ host
  pub git : GitScm
  pub ssh : GitSsh
  pub by_git : method.git ≡ some git
  pub by_ssh : git.ssh ≡ some ssh
  pub is_last : is_reached host after ≡ false
  pub old : c.World
  pub new : c.World
  pub loaded : load_key c tf ssh.ssh_key_secret_ref old ≡ (ok key, new)
