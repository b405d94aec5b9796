-- ===== src/Controller/Options/ImageNames.antt =====
-- What newTaskOptions makes of the image of the spec.
use Prim.Native.String
use text.Mathlib.TextLemmas.{nil-append, cons-append}
use terraform_operator.Prelude.{
  String, Char, true, false, [], ◌∷◌, ◌++◌, ◌==◌, ◌≡◌, ◌≢◌, refl, ap, ◌∙◌, sym, arith, eq_iff, inl,
  inr, text_cases, length, length-append, split, ltb,
}
use terraform_operator.Prelude.Splitting.{
  is_free, split-free, split-append, split_nonempty, join-split, take-drop_last,
}
use terraform_operator.Controller.Options.ImageChoice.{terraform_image}

append-ne-empty :
    (s : String) (c : Char) (t : String) → (String.◌++◌ s (String.◌∷◌ c t) == "") ≡ false
append-ne-empty s c t = elim (text_cases (String.◌++◌ s (String.◌∷◌ c t)) "") [
  | inl (e, _) ↦ absurd (never s e)
  | inr (_, e) ↦ e
]
  where
    never : (s : String) → String.◌++◌ s (String.◌∷◌ c t) ≢ ""
    never String.[] e = cc (sym (nil-append (String.◌∷◌ c t)) ∙ e)
    never (String.◌∷◌ d s) e = cc (sym (cons-append d s (String.◌∷◌ c t)) ∙ e)

tagged_parts :
    (repo tag : String)
    → is_free b':' tag ≡ true
    → split (String.◌++◌ repo (String.◌∷◌ ":" tag)) b':' ≡ split repo b':' ++ tag ∷ []
tagged_parts repo tag f =
    split-append repo tag ":" b':' refl ∙ ap (λ l. split repo b':' ++ l) (split-free tag b':' f)

several_parts : (repo tag : String) → ltb 1 (length (split repo b':' ++ tag ∷ [])) ≡ true
several_parts repo tag =
    let (part, parts, e) = split_nonempty repo b':' in
    rw e (ground (arith, length-append parts (tag ∷ [])))

-- What stands behind the last colon of the image gives way to the version, which is right for a
-- tag. For a registry with a port and no tag it is the port and the whole path of the image.
pub terraform_image_retag :
    (repo tag version : String)
    → is_free b':' tag ≡ true
    → terraform_image (String.◌++◌ repo (String.◌∷◌ ":" tag)) version
      ≡ String.◌++◌ repo (String.◌++◌ ":" version)
unfolding terraform_image
terraform_image_retag repo tag version f = rw (
  append-ne-empty repo ":" tag,
  tagged_parts repo tag f,
  several_parts repo tag,
  take-drop_last (split repo b':') tag,
  join-split repo ":",
)

-- An image with no colon keeps its name, and gets the version for a tag.
pub terraform_image_untagged :
    (image version : String)
    → image ≢ ""
    → is_free b':' image ≡ true
    → terraform_image image version ≡ String.◌++◌ image (String.◌++◌ ":" version)
unfolding terraform_image
terraform_image_untagged image version n f =
    ground (arith, eq_iff image "", split-free image b':' f)
