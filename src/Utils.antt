-- ===== src/Utils.antt =====
-- pkg/utils/utils.go: the string lists and the resource names. A Go string is read as its
-- characters, which are its bytes for the ASCII names of the cluster's objects.
pub mod Strings
pub mod Twice
pub mod Names
pub mod Random
use Prim.Native.String
use terraform_operator.Prelude.{
  ℕ, zero, suc, ◌+◌, ◌-◌, String, Char, Bool, true, false, List, [], ◌∷◌, ◌++◌, ◌==◌, if◌then◌else◌,
  Option, none, some, ltb, leb, take, drop, get_elem?, length, text_length, text_take, trim_right,
}

unfoldable pub list_contains_str : List String → String → Bool
list_contains_str [] e = false
list_contains_str (a ∷ s) e = if a == e then true else list_contains_str s e

-- `append(list[:i], list[i+1:]...)` where `list` is the first `len` elements of the array: the
-- tail is copied over the array in place. `none` is the panic of a slice out of range.
pub cut_at : ℕ → List String → ℕ → Option (List String × ℕ)
cut_at i arr len =
    if leb (i + 1) len
    then some (take i arr ++ drop (i + 1) (take len arr) ++ drop (len - 1) arr, len - 1)
    else none

-- The loop `for i, v := range list` of `ListRemoveStr`. It visits the positions of the list that
-- it was given (`rounds` of them are left), and reads each from the array that the cuts change.
pub remove_loop : ℕ → ℕ → List String → ℕ → String → Option (List String)
unfolding cut_at
remove_loop zero i arr len s = some (take len arr)
remove_loop (suc rounds) i arr len s = elim (get_elem? arr i) [
  | none ↦ none
  | some v ↦ elim (v == s) [
    | true ↦ elim (cut_at i arr len) [
      | none ↦ none
      | some (arr', len') ↦ remove_loop rounds (i + 1) arr' len' s
    ]
    | false ↦ remove_loop rounds (i + 1) arr len s
  ]
]

unfoldable pub list_remove_str : List String → String → Option (List String)
unfolding remove_loop
list_remove_str list s = remove_loop (length list) 0 list (length list) s

unfoldable pub truncate_resource_name : String → ℕ → String
truncate_resource_name s i =
    if ltb i (text_length s)
    then (let name = trim_right (text_take i s) b'-' in trim_right name b'.')
    else s

-- `md5` is `hex.EncodeToString(md5.Sum(...))` of the standard library.
unfoldable pub auto_hash_labeler : (String → String) → String → String
auto_hash_labeler md5 s = if ltb 63 (text_length s) then md5 s else s
