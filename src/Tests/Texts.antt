-- ===== src/Tests/Texts.antt =====
-- The lists of texts, the names and the comparisons at concrete inputs.
use Prim.Native.String
use terraform_operator.Controller.Options.{terraform_image}
use terraform_operator.Controller.Options.ImageNames.{terraform_image_retag}
use terraform_operator.Prelude.{
  String, [], ◌∷◌, ◌≡◌, refl, arith, eq_iff, none, text_length, text_take,
}
use terraform_operator.Utils.{list_remove_str, truncate_resource_name}
use terraform_operator.Utils.Twice.{list_remove_str_twice}
use terraform_operator.Utils.Names.{truncate_resource_name-dash}

list_remove_str_twice_example : list_remove_str ("b" ∷ "a" ∷ "c" ∷ "a" ∷ []) "a" ≡ none
list_remove_str_twice_example =
    list_remove_str_twice ("b" ∷ []) ("c" ∷ []) "a" (λ e. ground (arith, eq_iff "b" "a"), tt)
      (λ e. ground (arith, eq_iff "c" "a"), tt)

truncate_dash_example : truncate_resource_name "site-.plan" 6 ≡ "site-"
unfolding text_length text_take
truncate_dash_example = truncate_resource_name-dash "site-.plan" "site" 6 (omega arith) refl

image_retag_example :
    terraform_image (String.◌++◌ "registry" (String.◌∷◌ ":" "5000/team/terraform")) "1.5.0"
    ≡ String.◌++◌ "registry" (String.◌++◌ ":" "1.5.0")
image_retag_example = terraform_image_retag "registry" "5000/team/terraform" "1.5.0" refl
