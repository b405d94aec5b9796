-- ===== src/Controller/Finalizers/Secrets.antt =====
-- The git secrets of a resource, and when they are locked.
use terraform_operator.Prelude.{
  Option-cases, Bool, true, false, List, [], ◌∷◌, ◌++◌, ◌≡◌, arith, some, none, inl, inr, All,
}
use terraform_operator.Api.Spec.{ScmAuthMethod}
use terraform_operator.Api.Resource.{Terraform}
use terraform_operator.Controller.Finalizers.{
  GitSecret, get_git_secrets, secrets_from, method_secrets,
}

-- Some method has no git section.
abbrev pub lacks_git : List ScmAuthMethod → Bool
lacks_git [] = false
lacks_git (m ∷ methods) = elim m.git [ none ↦ true | some _ ↦ lacks_git methods ]

secrets_from-none :
    (tf : Terraform) (secrets : List GitSecret) (methods : List ScmAuthMethod)
    → lacks_git methods ≡ true
    → secrets_from tf secrets methods ≡ none
unfolding secrets_from
secrets_from-none tf secrets [] h = cc
secrets_from-none tf secrets (m ∷ methods) h = elim (Option-cases m.git) [
  | inl e ↦ ground arith
  | inr (git, e) ↦ ground (arith, secrets_from-none tf (secrets ++ method_secrets tf git) methods)
]

-- No secret of the list is to be locked.
abbrev pub Unlocked : List GitSecret → Type 0
Unlocked secrets = All (λ s. s.should_be_locked ≡ false) secrets

-- `getGitSecrets` panics if some method has no git section.
pub get_git_secrets_panic :
    (tf : Terraform) → lacks_git tf.spec.scm_auth_methods ≡ true → get_git_secrets tf ≡ none
unfolding get_git_secrets
get_git_secrets_panic tf h = secrets_from-none tf [] tf.spec.scm_auth_methods h
