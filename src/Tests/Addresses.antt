-- ===== src/Tests/Addresses.antt =====
-- Addresses and inherited constraints at concrete inputs.
use terraform_operator.Prelude.{
  ◌⊎◌, All, ℕ, true, false, [], ◌∷◌, ◌≡◌, ◌≢◌, ◌↔◌, refl, none, some, join, split, lookup, ◌==◌,
  if◌then◌else◌,
}
use terraform_operator.Cluster.Effects.{ok}
use terraform_operator.Cluster.Client.{got}
use terraform_operator.Controller.Options.{ParsedAddress, Inherited}
use terraform_operator.Controller.Addresses.{
  get_value, Values, Url, NetUrl, Getter, ssh_url, detect, get_forced_getter, get_parsed_address,
}
use terraform_operator.Controller.Addresses.Patterns.{IsForced, get_forced_getter_iff}
use terraform_operator.Controller.Addresses.Ssh.{address, detect-print}
use terraform_operator.Controller.Addresses.Splits.{IsSingle}
use terraform_operator.Controller.Addresses.Schemes.{
  get_parsed_address-forced, get_parsed_address-files,
}
use terraform_operator.Controller.NodeSelectors.{
  Cache, Settings, Workloads, only_owner, cache_node_selectors, get_node_selectors_from_cache,
  allowed, cache_node_selectors-allowed,
}

forced_getter_example :
    (get_forced_getter "git::https://host/a" ≡ ("git", "https://host/a"))
    ↔ IsForced "git::https://host/a" "git" "https://host/a"
forced_getter_example = get_forced_getter_iff "git::https://host/a" "git" "https://host/a" refl

abbrev pub host_url : Url
host_url = record {
  scheme = "https";
  user = none;
  host = "github.com";
  path = "/team/a";
  raw_query = "";
}

-- URLs of one host.
abbrev pub one_host : NetUrl
one_host = record {
  parse = λ s. ok host_url;
  parse_query = λ s. ok [];
  encode = λ q. "";
  text = λ u. u.path;
  port = λ u. "";
  request_uri = λ u. u.path;
}

abbrev pub plain_getter : Getter
plain_getter = record {
  detect = λ d s pwd. ok "hg::https://github.com/team/a";
  source_dir_subdir = λ s. (s, "");
}

ssh_example :
    detect one_host (address "git" "github.com" "team/a.git")
    ≡ ok (some (one_host.text (ssh_url "git" "github.com" "team/a.git")))
ssh_example =
    detect-print one_host "git" "github.com" "team/a.git" refl refl refl refl refl refl refl

abbrev parsed : ParsedAddress
parsed = record {
  detected_scheme = "hg";
  path = "modules";
  use_as_var = true;
  url = "/team/a";
  files = "." ∷ [];
  hash = "master";
  url_scheme = "https";
  uri = "/team/a";
  host = "github.com";
  port = "443";
  user = "";
  repo = "/team/a";
}

parsed_ok :
    get_parsed_address one_host plain_getter "github.com/team/a" "modules" true
      (("github.com", "git") ∷ [])
    ≡ ok parsed
unfolding get_parsed_address split lookup
parsed_ok = refl

abbrev hg_forced : IsForced "hg::https://github.com/team/a" "hg" "https://github.com/team/a"
hg_forced = record { named = refl; alnum = refl; line = refl; whole = refl }

forced_scheme_example :
    (url : Url) × (query : Values) × (parsed.detected_scheme ≡ "hg")
    × (one_host.parse (plain_getter.source_dir_subdir "https://github.com/team/a").0 ≡ ok url)
    × (one_host.parse_query url.raw_query ≡ ok query)
    × (((get_value query "ref" ≡ "") × (parsed.hash ≡ "master"))
        ⊎ ((get_value query "ref" ≢ "") × (parsed.hash ≡ get_value query "ref")))
forced_scheme_example =
    get_parsed_address-forced one_host plain_getter "github.com/team/a" "modules" true
      (("github.com", "git") ∷ []) parsed parsed_ok "hg" "https://github.com/team/a"
      "hg::https://github.com/team/a" refl hg_forced

abbrev nested_getter : Getter
nested_getter = record {
  detect = λ d s pwd. ok "hg::https://github.com/team/a";
  source_dir_subdir = λ s. (s, "net//vpc");
}

abbrev nested : ParsedAddress
nested = record parsed { files = "net" ∷ "vpc" ∷ [] }

nested_ok :
    get_parsed_address one_host nested_getter "github.com/team/a" "modules" true
      (("github.com", "git") ∷ [])
    ≡ ok nested
unfolding get_parsed_address lookup split
nested_ok = refl

files_example :
    let rest =
      (nested_getter.source_dir_subdir (get_forced_getter "hg::https://github.com/team/a").1).1 in
    (join nested.files "//" ≡ (if rest == "" then "." else rest)) × All (IsSingle 47) nested.files
files_example =
    get_parsed_address-files one_host nested_getter "github.com/team/a" "modules" true
      (("github.com", "git") ∷ []) nested nested_ok "hg::https://github.com/team/a" refl

abbrev pub with_tolerations : Settings
with_tolerations = record {
  inherit_affinity = false;
  inherit_node_selector = false;
  inherit_tolerations = true;
  pod_namespace = "tf-system";
  pod_name = "terraform-operator-7d";
}

abbrev pub template : Inherited
template = record { affinity = some "zone"; node_selector = []; tolerations = "spot" ∷ [] }

abbrev pub deployed : Workloads ℕ
deployed = record {
  pod_owners = λ ns n w. (got (record { kind = "ReplicaSet"; name = "rs" } ∷ []), w);
  replica_set_owners = λ ns n w. (got (record { kind = "Deployment"; name = "tfo" } ∷ []), w);
  deployment = λ ns n w. (got template, w);
}

abbrev empty_cache : Cache
empty_cache = record { affinity = none; node_selector = none; tolerations = none; locks = [] }

inherited_example :
    get_node_selectors_from_cache with_tolerations
      (cache_node_selectors with_tolerations deployed empty_cache 0).0
    ≡ allowed with_tolerations template
unfolding only_owner
inherited_example =
    cache_node_selectors-allowed with_tolerations deployed empty_cache 0 0 0 0
      (record { kind = "ReplicaSet"; name = "rs" } ∷ [])
      (record { kind = "Deployment"; name = "tfo" } ∷ []) "rs" "tfo" template refl refl (refl, refl)
      refl refl refl refl refl
