-- ===== src/Controller/Finalizers/Resource.antt =====
-- When the resource has the operator's finalizer.
use terraform_operator.Prelude.{
  Bool-cases, String, true, false, List, [], ◌∷◌, ◌++◌, ◌≡◌, ◌≢◌, refl, ap, ◌∙◌, arith, some, inl,
  inr, ◌⊎◌, not,
}
use terraform_operator.Prelude.Orders.{Memᴰ-middle}
use terraform_operator.Utils.{list_contains_str, list_remove_str}
use terraform_operator.Utils.Strings.{list_contains_str_iff, Lacks, list_remove_str_once}
use terraform_operator.Api.Stage.{deleted}
use terraform_operator.Api.Resource.{Terraform}
use terraform_operator.Controller.Finalizers.{terraform_finalizer, update_finalizer, is_empty_list}

pub contains-middle :
    (pre post : List String) (x : String) → list_contains_str (pre ++ x ∷ post) x ≡ true
contains-middle pre post x = (list_contains_str_iff (pre ++ x ∷ post) x).1 (Memᴰ-middle pre post x)

is_empty_list-middle :
    (pre post : List String) (x : String) → is_empty_list (pre ++ x ∷ post) ≡ false
is_empty_list-middle [] post x = refl
is_empty_list-middle (y ∷ pre) post x = refl

module _ (tf : Terraform) where
  abbrev pub added : Terraform
  added = record tf { finalizers = tf.finalizers ++ terraform_finalizer ∷ [] }

  -- A resource that is not to be ignored on deletion, and is not deleted yet, has the finalizer
  -- after `updateFinalizer`, which says whether it was missing, and a second call changes nothing.
  pub update_finalizer-present :
      tf.status.phase ≢ deleted
      → tf.spec.ignore_delete ≡ false
      → (tf' : Terraform) × (update_finalizer tf
          ≡ some (tf', not (list_contains_str tf.finalizers terraform_finalizer)))
        × (list_contains_str tf'.finalizers terraform_finalizer ≡ true)
        × (update_finalizer tf' ≡ some (tf', false))
  unfolding update_finalizer
  update_finalizer-present p i =
      elim (Bool-cases (list_contains_str tf.finalizers terraform_finalizer)) [
        | inl h ↦ (tf, ground arith, h, ground arith)
        | inr h ↦
            let there = contains-middle tf.finalizers [] terraform_finalizer in
            (added, ground arith, there, ground arith)
      ]

  -- A resource that is deleted, or is to be ignored on deletion, loses the finalizer, and keeps
  -- the others in order.
  pub update_finalizer-released :
      (pre post : List String)
      → tf.finalizers ≡ pre ++ terraform_finalizer ∷ post
      → Lacks terraform_finalizer pre
      → Lacks terraform_finalizer post
      → (tf.status.phase ≡ deleted) ⊎ (tf.spec.ignore_delete ≡ true)
      → update_finalizer tf ≡ some (record tf { finalizers = pre ++ post }, true)
  unfolding update_finalizer
  update_finalizer-released pre post e hpre hpost w = ground (
    arith,
    ap (λ l. list_contains_str l terraform_finalizer) e
        ∙ contains-middle pre post terraform_finalizer,
    ap (λ l. list_remove_str l terraform_finalizer) e
        ∙ list_remove_str_once pre post terraform_finalizer hpre hpost,
    ap is_empty_list e ∙ is_empty_list-middle pre post terraform_finalizer,
  )
