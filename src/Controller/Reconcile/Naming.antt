-- ===== src/Controller/Reconcile/Naming.antt =====
-- The name that Reconcile of pkg/controllers/terraform_controller.go gives to all that belongs to a
-- resource.
use Prim.Native.String
use text.Mathlib.TextLemmas.{nil-append, cons-append}
use terraform_operator.Prelude.{suc, ◌+◌, ◌≤◌, String, ◌≡◌, ◌≢◌, ap, ◌∙◌, arith, some, text_length}
use terraform_operator.Api.Resource.{Terraform}
use terraform_operator.Utils.{truncate_resource_name}
use terraform_operator.Utils.Names.{truncate_resource_name-length}
use terraform_operator.Utils.Random.{
  Rand, alpha_num, string_with_charset, string_with_charset-Drawn,
}
use terraform_operator.Controller.Reconcile.Start.{initialize}

text_length-append : (s t : String) → text_length (String.◌++◌ s t) ≡ text_length s + text_length t
unfolding text_length
text_length-append String.[] t =
    let e : text_length (String.◌++◌ "" t) ≡ text_length t = ap text_length (nil-append t) in
    omega arith
text_length-append (String.◌∷◌ c s) t =
    let e : text_length (String.◌++◌ (String.◌∷◌ c s) t) ≡ suc (text_length (String.◌++◌ s t)) =
      ap text_length (cons-append c s t) in
    let rest = text_length-append s t in omega arith

named_length :
    (tf : Terraform) (suffix : String)
    → text_length (initialize suffix tf).status.pod_name_prefix
      ≡ text_length (truncate_resource_name tf.name 54) + (1 + text_length suffix)
unfolding initialize text_length
named_length tf suffix =
    text_length-append (truncate_resource_name tf.name 54) (String.◌++◌ "-" suffix)
    ∙ ap (λ n. text_length (truncate_resource_name tf.name 54) + n) (text_length-append "-" suffix)

-- A resource that was initialized has a name, whatever the suffix is.
pub initialize-named :
    (tf : Terraform) (suffix : String) → (initialize suffix tf).status.pod_name_prefix ≢ ""
unfolding text_length
initialize-named tf suffix e =
    let whole = named_length tf suffix in
    let none_left : text_length (initialize suffix tf).status.pod_name_prefix ≡ 0 =
      ap text_length e in
    absurd (omega (arith, whole, none_left))

-- A resource is named once and for all, within the length of a label: `StringWithCharset` draws a
-- suffix of eight characters without a panic, and the name that `Reconcile` makes of it, the
-- truncated name of the resource, a dash and the suffix, has 63 characters at most, and is not the
-- empty text that would have it named again.
pub initialize-length :
    (r : Rand) (tf : Terraform) (w : r.World)
    → (suffix : String) × (w' : r.World) × (string_with_charset r 8 alpha_num w ≡ (some suffix, w'))
      × (text_length (initialize suffix tf).status.pod_name_prefix ≤ 63)
      × ((initialize suffix tf).status.pod_name_prefix ≢ "")
unfolding text_length
initialize-length r tf w =
    let (suffix, w', drawn, d) = string_with_charset-Drawn r 8 alpha_num w (omega arith) in
    let whole = named_length tf suffix in
    let short = truncate_resource_name-length tf.name 54 in
    let drawn_length = d.sized in
    (suffix, w', drawn, omega (arith, whole, short, drawn_length), initialize-named tf suffix)
