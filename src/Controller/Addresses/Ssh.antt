-- ===== src/Controller/Addresses/Ssh.antt =====
-- The detector of SSH addresses of pkg/controllers/terraform_controller.go.
use Prim.Native.String
use terraform_operator.Prelude.{
  ℕ, String, true, false, code, nat_beq, ◌≡◌, refl, ap, ◌∙◌, arith, none, some, not, is_empty,
}
use terraform_operator.Cluster.Effects.{ok}
use terraform_operator.Controller.Addresses.{
  Bool, break_on, has_no, is_line, path_after, host_from, host_and_path, user_from, find_ssh,
  ssh_url, detect_match, detect, NetUrl,
}
use terraform_operator.Controller.Addresses.Patterns.{break_on-append}

break_on-none : (k : ℕ) (s : String) → has_no k s ≡ true → break_on k s ≡ none
unfolding break_on
break_on-none k String.[] h = refl
break_on-none k (String.◌∷◌ c s) h = ground (arith, break_on-none k s)

-- The path starts with no slash.
abbrev pub is_relative : String → Bool
is_relative String.[] = true
is_relative (String.◌∷◌ c s) = not (nat_beq (code c) b'/')

path_after-relative :
    (path : String) → is_relative path ≡ true → is_line path ≡ true → path_after path ≡ some path
path_after-relative String.[] r l = absurd (ground arith)
path_after-relative (String.◌∷◌ c s) r l = ground arith

abbrev pub address : (user host path : String) → String
address user host path = String.◌++◌ user (String.◌∷◌ "@" (String.◌++◌ host (String.◌∷◌ ":" path)))

module _ (net : NetUrl) (user host path : String) (named : is_empty user ≡ false)
    (no_at : has_no b'@' user ≡ true) (located : is_empty host ≡ false)
    (no_colon : has_no b':' host ≡ true) (relative : is_relative path ≡ true)
    (line : is_line path ≡ true) where
  host_and_path-print : host_and_path (String.◌++◌ host (String.◌∷◌ ":" path)) ≡ some (host, path)
  unfolding host_and_path
  host_and_path-print =
      ap host_from (break_on-append b':' host ":" path no_colon refl)
      ∙ ground (arith, path_after-relative path relative line)

  find_ssh-print : find_ssh (address user host path) ≡ some (user, host, path)
  unfolding find_ssh user_from
  find_ssh-print = ground (
    arith,
    break_on-append b'@' user "@" (String.◌++◌ host (String.◌∷◌ ":" path)) no_at refl,
    host_and_path-print,
  )

  -- An address `user@host:path` as git writes it, with no slash in front of the path and no query,
  -- becomes the URL of the scheme ssh with the same user, host and path.
  pub detect-print :
      has_no b'?' path ≡ true
      → detect net (address user host path) ≡ ok (some (net.text (ssh_url user host path)))
  unfolding detect detect_match
  detect-print q = ap (detect_match net) find_ssh-print ∙ ground (arith, break_on-none b'?' path q)
