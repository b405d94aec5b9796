-- ===== src/Controller/Addresses.antt =====
-- Addresses of modules and downloads: getForcedGetter, sshDetector.Detect and getParsedAddress of
-- pkg/controllers/terraform_controller.go. The detectors of go-getter and the URLs of net/url are
-- parameters; the two regular expressions are matched here.
pub mod Patterns
pub mod Ssh
pub mod Splits
pub mod Schemes
use terraform_operator.Prelude.{
  ℕ, String, Char, code, Bool, true, List, [], ◌∷◌, ◌==◌, if◌then◌else◌, Option, none, some, ◌&&◌,
  ◌||◌, not, nat_beq, leb, lookup, map, split, put_char, is_empty,
}
use terraform_operator.Utils.{list_contains_str}
use terraform_operator.Api.Spec.{StringMap}
use terraform_operator.Cluster.Effects.{Result, ok, err, panic}
use terraform_operator.Controller.Options.{ParsedAddress}
use terraform_operator.Controller.Status.{wrapped}

-- The parts of `url.URL` that the operator sets or reads; `none` is a nil `User`.
pub record Url : Type 0 where
  pub scheme : String
  pub user : Option String
  pub host : String
  pub path : String
  pub raw_query : String

-- `url.Values`
abbrev pub Values : Type 0
Values = List (String × List String)

-- The package net/url.
pub record NetUrl : Type 0 where
  pub parse : String → Result Url
  pub parse_query : String → Result Values
  pub encode : Values → String
  pub text : Url → String
  pub port : Url → String
  pub request_uri : Url → String

-- The package go-getter: `Detect` tries the given detector before its own.
pub record Getter : Type 0 where
  pub detect : (String → Result (Option String)) → (src pwd : String) → Result String
  pub source_dir_subdir : String → String × String

abbrev pub and_then : {A B : Type 0} → Result A → (A → Result B) → Result B
and_then (ok a) f = f a
and_then (err e) f = err e
and_then panic f = panic

-- What stands before and after the first character with the code.
unfoldable pub break_on : ℕ → String → Option (String × String)
break_on k String.[] = none
break_on k (String.◌∷◌ c s) =
    let rest = break_on k s in
    if nat_beq (code c) k
    then some ("", s)
    else elim rest [ none ↦ none | some (before, after) ↦ some (String.◌∷◌ c before, after) ]

abbrev pub is_alnum : Char → Bool
is_alnum c =
    leb b'A' (code c) && leb (code c) b'Z'
    || leb b'a' (code c) && leb (code c) b'z'
    || leb b'0' (code c) && leb (code c) b'9'

abbrev pub all_alnum : String → Bool
all_alnum String.[] = true
all_alnum (String.◌∷◌ c s) = is_alnum c && all_alnum s

abbrev pub has_no : ℕ → String → Bool
has_no k String.[] = true
has_no k (String.◌∷◌ c s) = not (nat_beq (code c) k) && has_no k s

-- `.+`, which stands for one character or more, none of them a newline.
abbrev pub is_line : String → Bool
is_line s = not (is_empty s) && has_no 10 s

abbrev forced_after : String → String → Option (String × String)
forced_after scheme String.[] = none
forced_after scheme (String.◌∷◌ c rest) =
    if nat_beq (code c) b':' && not (is_empty scheme) && all_alnum scheme && is_line rest
    then some (scheme, rest)
    else none

abbrev forced_from : Option (String × String) → Option (String × String)
forced_from none = none
forced_from (some (scheme, rest)) = forced_after scheme rest

-- `forcedRegexp`, `^([A-Za-z0-9]+)::(.+)$`: the scheme ends at the first colon.
unfoldable pub find_forced : String → Option (String × String)
unfolding break_on
find_forced src = forced_from (break_on b':' src)

-- The forced getter, if there is one, and the address without it.
abbrev or_whole : String → Option (String × String) → String × String
or_whole src none = ("", src)
or_whole src (some found) = found

unfoldable pub get_forced_getter : String → String × String
unfolding find_forced
get_forced_getter src = or_whole src (find_forced src)

-- `/?(.+)$`
abbrev path_after : String → Option String
path_after String.[] = none
path_after (String.◌∷◌ c s) =
    if nat_beq (code c) b'/' && is_line s
    then some s
    else if is_line (String.◌∷◌ c s)
    then some (String.◌∷◌ c s)
    else none

abbrev host_from : Option (String × String) → Option (String × String)
host_from none = none
host_from (some (host, rest)) =
    if is_empty host
    then none
    else elim (path_after rest) [ none ↦ none | some path ↦ some (host, path) ]

-- `([^:]+):/?(.+)$`
host_and_path : String → Option (String × String)
unfolding break_on
host_and_path s = host_from (break_on b':' s)

-- `([^@]+)@` before the rest.
user_from : Option (String × String) → Option (String × String × String)
unfolding host_and_path
user_from none = none
user_from (some (user, rest)) =
    if is_empty user
    then none
    else elim (host_and_path rest) [ none ↦ none | some (host, path) ↦ some (user, host, path) ]

-- `sshPattern`, `^(?:([^@]+)@)?([^:]+):/?(.+)$`: user, host and path.
unfoldable pub find_ssh : String → Option (String × String × String)
unfolding user_from host_and_path break_on
find_ssh src = elim (user_from (break_on b'@' src)) [
  | some found ↦ some found
  | none ↦ elim (host_and_path src) [ none ↦ none | some (host, path) ↦ some ("", host, path) ]
]

-- The URL without a query.
abbrev pub ssh_url : (user host path : String) → Url
ssh_url user host path = record {
  scheme = "ssh";
  user = some user;
  host = host;
  path = path;
  raw_query = "";
}

detect_query : NetUrl → Url → String → Result (Option String)
detect_query net url query = elim (net.parse_query query) [
  | ok q ↦ ok (some (net.text (record url { raw_query = net.encode q })))
  | err e ↦ err (wrapped "error parsing GitHub SSH URL: " e)
  | panic ↦ panic
]

detect_match : NetUrl → Option (String × String × String) → Result (Option String)
unfolding break_on detect_query
detect_match net none = ok none
detect_match net (some (user, host, path)) = elim (break_on b'?' path) [
  | none ↦ ok (some (net.text (ssh_url user host path)))
  | some (before, query) ↦ detect_query net (ssh_url user host before) query
]

-- `sshDetector.Detect`
unfoldable pub detect : NetUrl → String → Result (Option String)
unfolding find_ssh detect_match
detect net src = detect_match net (find_ssh src)

-- `strings.Split(s, "//")`, with the separator twice the character `k`.
unfoldable pub split_double : String → ℕ → List String
unfolding put_char
split_double String.[] k = "" ∷ []
split_double (String.◌∷◌ c String.[]) k = String.◌∷◌ c String.[] ∷ []
split_double (String.◌∷◌ c (String.◌∷◌ d s)) k =
    let apart = split_double s k in
    let later = put_char c (split_double (String.◌∷◌ d s) k) in
    if nat_beq (code c) k && nat_beq (code d) k then "" ∷ apart else later

-- The directories behind the address; none at all is the directory itself.
unfoldable pub files_of : String → List String
unfolding split_double
files_of source = elim (split_double source b'/') [
  | [] ↦ []
  | file ∷ [] ↦ if file == "" then "." ∷ [] else file ∷ []
  | file ∷ other ∷ files ↦ file ∷ other ∷ files
]

abbrev get_first : Option (List String) → String
get_first none = ""
get_first (some []) = ""
get_first (some (x ∷ xs)) = x

-- `values.Get(key)`
abbrev pub get_value : Values → String → String
get_value values key = get_first (lookup key values)

abbrev text_or_empty : Option String → String
text_or_empty none = ""
text_or_empty (some text) = text

-- `strings.Split(s, "?")[0]`
abbrev without_query : String → String
without_query s = elim (split s b'?') [ [] ↦ "" | part ∷ parts ↦ part ]

-- The hosts of `scmMap` are visited in any order; each has its scheme.
unfoldable pub scheme_of : (forced : String) → StringMap → Url → String
scheme_of forced scm_map url =
    let known = if list_contains_str ("github.com" ∷ []) url.host then "git" else url.scheme in
    let configured =
      if list_contains_str (map (λ (e : String × String). e.0) scm_map) url.host
      then text_or_empty (lookup url.host scm_map)
      else known in
    if forced == "" then configured else forced

unfoldable pub port_of : NetUrl → Url → String
port_of net url =
    let port = net.port url in
    if port == ""
    then (if url.scheme == "ssh" then "22" else if url.scheme == "https" then "443" else "")
    else port

-- The address once all of it is parsed.
unfoldable pub address_from :
    NetUrl
    → (path : String) → (use_as_var : Bool) → (scm_map : StringMap) → (forced files_source : String)
    → Url
    → Values
    → ParsedAddress
unfolding files_of scheme_of port_of
address_from net path use_as_var scm_map forced files_source url query =
    let hash = get_value query "ref" in
    record {
      detected_scheme = scheme_of forced scm_map url;
      path = path;
      use_as_var = use_as_var;
      url = net.text url;
      files = files_of files_source;
      hash = if hash == "" then "master" else hash;
      url_scheme = url.scheme;
      uri = without_query (net.request_uri url);
      host = url.host;
      port = port_of net url;
      user = text_or_empty url.user;
      repo = without_query (net.text url);
    }

unfoldable pub get_parsed_address :
    NetUrl
    → Getter
    → (address path : String) → (use_as_var : Bool) → (scm_map : StringMap) → Result ParsedAddress
unfolding detect get_forced_getter address_from
get_parsed_address net getter address path use_as_var scm_map =
    and_then (getter.detect (detect net) address "moduleDir") λ output.
      let (forced, result) = get_forced_getter output in
      let (url_source, files_source) = getter.source_dir_subdir result in
      and_then (net.parse url_source) λ url.
        and_then (net.parse_query url.raw_query)
          λ query. ok (address_from net path use_as_var scm_map forced files_source url query)
