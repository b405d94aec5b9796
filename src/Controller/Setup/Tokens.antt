-- ===== src/Controller/Setup/Tokens.antt =====
-- The token for git over HTTPS in setupAndRun of pkg/controllers/terraform_controller.go.
use terraform_operator.Prelude.{
  String, List, [], ◌∷◌, ◌++◌, Option, none, some, ◌≡◌, refl, ap, ◌∙◌, sym, arith, All, lookup,
  insert, lookup-insert, eq_refl, Option-cases, inl, inr,
}
use terraform_operator.Api.Spec.{StringMap, ScmAuthMethod, GitScm, GitHttps}
use terraform_operator.Cluster.Effects.{Result, ok, panic, pure, ◌>>=◌, go_on-eq-ok, world_of}
use terraform_operator.Cluster.Client.{Client}
use terraform_operator.Cluster.Posts.{value_or}
use terraform_operator.Controller.GitAccess.{create_git_askpass}
use terraform_operator.Controller.Packages.{Packages}
use terraform_operator.Controller.Setup.{add_askpass, add_https, add_token, token_ref}

value_eq : {W A : Type 0} {a b : A} {w w' : W} → ◌≡◌ {A = Result A × W} (ok a, w) (ok b, w') → a ≡ b
value_eq {a} e = ap (λ x. value_or a x.0) e

lookup-insert_self :
    (key text : String) (entries : StringMap) → lookup key (insert key text entries) ≡ some text
lookup-insert_self key text entries =
    ground (arith, lookup-insert key key text entries, eq_refl key)

-- A method of git with no HTTPS.
abbrev pub LacksHttps : ScmAuthMethod → Type 0
LacksHttps m = (git : GitScm) × (m.git ≡ some git) × (git.https ≡ none)

module _ (c : Client) (p : Packages) where
  open c use {World}

  -- One round of the loop.
  add_askpass-cons :
      (m : ScmAuthMethod) (methods : List ScmAuthMethod) (git : GitScm) (secrets : StringMap)
      → m.git ≡ some git
      → add_askpass c p (m ∷ methods) secrets
        ≡ (add_https c p git.https secrets >>= λ secrets'. add_askpass c p methods secrets')
  unfolding add_askpass
  add_askpass-cons m methods git secrets e = rw e refl

  add_askpass-skip :
      (pre methods : List ScmAuthMethod) (secrets : StringMap)
      → All LacksHttps pre
      → add_askpass c p (pre ++ methods) secrets ≡ add_askpass c p methods secrets
  add_askpass-skip [] methods secrets h = refl
  add_askpass-skip (m ∷ pre) methods secrets ((git, e, n), h) =
      add_askpass-cons m (pre ++ methods) git secrets e
      ∙ ap (λ o. add_https c p o secrets >>= λ secrets'. add_askpass c p (pre ++ methods) secrets')
          n
      ∙ add_askpass-skip pre methods secrets h

  add_askpass-panic :
      (m : ScmAuthMethod) (methods : List ScmAuthMethod) (secrets : StringMap) (w : World)
      → m.git ≡ none
      → add_askpass c p (m ∷ methods) secrets w ≡ (panic, w)
  unfolding add_askpass
  add_askpass-panic m methods secrets w e = rw e refl

  panic_only :
      {secrets : StringMap} {w w' : World}
      → ◌≡◌ {A = Result StringMap × World} (panic, w) (ok secrets, w')
      → ⊥
  panic_only e = ground arith

  add_https-found :
      (https : Option GitHttps) (secrets : StringMap) (script : String)
      → lookup "gitAskpass" secrets ≡ some script
      → add_https c p https secrets ≡ pure secrets
  add_https-found none secrets script l = refl
  add_https-found (some https) secrets script l =
      ap (λ o. add_token c p o https.token_secret_ref secrets) l

  -- A token that is there stays, and no other secret is read.
  add_askpass-found :
      (methods : List ScmAuthMethod) (secrets secrets' : StringMap) (script : String) (w w' : World)
      → lookup "gitAskpass" secrets ≡ some script
      → add_askpass c p methods secrets w ≡ (ok secrets', w')
      → ◌≡◌ {A = Result StringMap × World} (ok secrets, w) (ok secrets', w')
  unfolding add_askpass
  add_askpass-found [] secrets secrets' script w w' l e = e
  add_askpass-found (m ∷ methods) secrets secrets' script w w' l e = elim (Option-cases m.git) [
    | inl g ↦ absurd (panic_only (sym (add_askpass-panic m methods secrets w g) ∙ e))
    | inr (git, g) ↦ add_askpass-found methods secrets secrets' script w w' l (
        ap (λ f. f w)
          (sym (
            add_askpass-cons m methods git secrets g
            ∙ ap (λ f. f >>= λ secrets'. add_askpass c p methods secrets')
                (add_https-found git.https secrets script l)))
        ∙ e)
  ]

  -- Of several methods with an HTTPS token, the first one's is used and the others' secrets are not
  -- read: if the loop succeeds, it made the script of the first token, whose entry is called
  -- `token` where the reference does not say, and left the cluster as that read left it.
  pub add_askpass-first :
      (pre methods : List ScmAuthMethod) (m : ScmAuthMethod) (git : GitScm) (https : GitHttps)
      (secrets secrets' : StringMap) (w w' : World)
      → All LacksHttps pre
      → m.git ≡ some git
      → git.https ≡ some https
      → lookup "gitAskpass" secrets ≡ none
      → add_askpass c p (pre ++ m ∷ methods) secrets w ≡ (ok secrets', w')
      → (script : String) × (create_git_askpass c p.askpass (token_ref https.token_secret_ref) w
          ≡ (ok script, w'))
        × (secrets' ≡ insert "gitAskpass" script secrets)
  add_askpass-first pre methods m git https secrets secrets' w w' a g h l e =
      let start =
        add_askpass-skip pre (m ∷ methods) secrets a
        ∙ add_askpass-cons m methods git secrets g
        ∙ ap (λ o. add_https c p o secrets >>= λ next. add_askpass c p methods next) h
        ∙ ap
            (λ o. add_token c p o https.token_secret_ref secrets >>= λ next.
              add_askpass c p methods next)
            l in
      let (next, v, first, rest) =
        go_on-eq-ok (add_token c p none https.token_secret_ref secrets w)
          (λ next. add_askpass c p methods next) (sym (ap (λ f. f w) start) ∙ e) in
      let (script, u, made, last) =
        go_on-eq-ok (create_git_askpass c p.askpass (token_ref https.token_secret_ref) w) _ first in
      let same = value_eq last in
      let found : lookup "gitAskpass" next ≡ some script =
        ap (lookup "gitAskpass") (sym same) ∙ lookup-insert_self "gitAskpass" script secrets in
      let stays = add_askpass-found methods next secrets' script v w' found rest in
      (
        script,
        made ∙ ap (λ x. (ok script, x)) (world_of last ∙ world_of stays),
        sym (value_eq stays) ∙ sym same,
      )
