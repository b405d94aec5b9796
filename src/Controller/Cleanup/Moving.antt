-- ===== src/Controller/Cleanup/Moving.antt =====
-- What the cleanups do to the world at most.
use terraform_operator.Prelude.{ℕ, zero, suc, String, List, [], ◌∷◌, ◌++◌}
use terraform_operator.Api.Resource.{Terraform}
use terraform_operator.Cluster.{
  Kind, config_map, secret, service_account, role, role_binding, pod, job, Pod,
}
use terraform_operator.Cluster.Effects.{Error, M}
use terraform_operator.Cluster.Client.{Client, Got, got, failed, Condition}
use terraform_operator.Cluster.Moving.{
  Moves, Allows, Moves-pure, Moves-bind, Moves-then, Moves-attempt, Moves-list, api_result-moves,
}
use terraform_operator.Controller.Status.{get_terraform_resource}
use terraform_operator.Controller.Status.Moving.{get_terraform_resource-Moves}
use terraform_operator.Controller.Cleanup.{
  Reaped, reaped, gave_up, stopped, delete_all, listed, list_all, remove_old_plan, reap_rest, stop,
  reap_attempt, background_reap, background_reap_old_generation_pods, logged, reap_plugins_attempt,
  reap_plugins_loop, reap_plugins, old_generation_selector, old_plugin_selector, not_running,
}

module _ (md5 : String → String) (c : Client) {R : c.World → c.World → Type 0}
    (a : Allows c R) where
  open c use {World}

  delete_all-Moves :
      (kind : Kind) (namespace : String) (selector : List Condition)
      → Moves R (delete_all md5 c kind namespace selector)
  delete_all-Moves kind namespace selector = record {
    at = λ w.
        api_result-moves c a w (c.delete_all_of kind namespace selector w)
          (a.delete_all_of kind namespace selector w);
  }

  listed-moves : (w : World) (x : Got (List Pod) × World) → R w x.1 → R w (listed md5 c x).1
  listed-moves w (got pods, v) h = h
  listed-moves w (failed e, v) h = h

  list_all-Moves :
      (namespace : String) (selector : List Condition) → Moves R (list_all md5 c namespace selector)
  list_all-Moves namespace selector = record {
    at = λ w. listed-moves w (c.list_pods namespace selector w) (a.list_pods namespace selector w);
  }

  pub remove_old_plan-Moves :
      (namespace name reason : String) (generation : ℕ)
      → Moves R (remove_old_plan md5 c namespace name reason generation)
  unfolding remove_old_plan
  remove_old_plan-Moves namespace name reason generation = delete_all-Moves pod namespace _

  reap_rest-Moves :
      (namespace : String) (selector : List Condition)
      → Moves R (reap_rest md5 c namespace selector)
  unfolding reap_rest
  reap_rest-Moves namespace selector =
      let all = λ (kind : Kind). delete_all-Moves kind namespace selector in
      Moves-then c a (delete_all md5 c config_map namespace selector) _ (all config_map) (
        Moves-then c a (delete_all md5 c secret namespace selector) _ (all secret) (
          Moves-then c a (delete_all md5 c role namespace selector) _ (all role) (
            Moves-then c a (delete_all md5 c role_binding namespace selector) _ (all role_binding)
              (all service_account))))

  stop-Moves : (e : Error) → Moves R (stop md5 c e)
  stop-Moves e = Moves-pure c a stopped

  reap_attempt-Moves :
      (next : M World Reaped) (tf : Terraform) → Moves R next → Moves R (reap_attempt md5 c next tf)
  unfolding reap_attempt
  reap_attempt-Moves next tf h =
      let selector = old_generation_selector md5 tf in
      Moves-attempt c a (delete_all md5 c pod tf.namespace (selector ++ not_running ∷ [])) _ _
        (delete_all-Moves pod tf.namespace (selector ++ not_running ∷ [])) stop-Moves
        (λ _.
          Moves-attempt c a (list_all md5 c tf.namespace selector) _ _
            (list_all-Moves tf.namespace selector) stop-Moves
            (λ pods.
              Moves-list c a pods _ next
                (Moves-attempt c a (reap_rest md5 c tf.namespace selector) _ _
                  (reap_rest-Moves tf.namespace selector) stop-Moves (λ _. Moves-pure c a reaped))
                h))

  background_reap-Moves :
      (attempts : ℕ) (namespace name : String)
      → Moves R (background_reap md5 c attempts namespace name)
  unfolding background_reap
  background_reap-Moves zero namespace name = Moves-pure c a gave_up
  background_reap-Moves (suc attempts) namespace name =
      Moves-attempt c a (get_terraform_resource c namespace name 3) _ _
        (get_terraform_resource-Moves c a namespace name 3) stop-Moves
        (λ tf. reap_attempt-Moves _ tf (background_reap-Moves attempts namespace name))

  pub background_reap_old_generation_pods-Moves :
      (tf : Terraform) → Moves R (background_reap_old_generation_pods md5 c tf)
  unfolding background_reap_old_generation_pods
  background_reap_old_generation_pods-Moves tf = background_reap-Moves 21 tf.namespace tf.name

  logged-Moves :
      {A : Type 0} (default : A) (m : M World A) → Moves R m → Moves R (logged md5 c default m)
  logged-Moves default m h =
      Moves-attempt c a m _ _ h (λ e. Moves-pure c a default) (λ x. Moves-pure c a x)

  reap_plugins_attempt-Moves :
      (next : M World Reaped) (tf : Terraform)
      → Moves R next
      → Moves R (reap_plugins_attempt md5 c next tf)
  unfolding reap_plugins_attempt
  reap_plugins_attempt-Moves next tf h =
      let selector = old_plugin_selector md5 tf in
      Moves-then c a (logged md5 c tt (delete_all md5 c job tf.namespace selector)) _
        (logged-Moves tt _ (delete_all-Moves job tf.namespace selector))
        (Moves-then c a (logged md5 c tt (delete_all md5 c pod tf.namespace selector)) _
          (logged-Moves tt _ (delete_all-Moves pod tf.namespace selector))
          (Moves-bind c a (logged md5 c [] (list_all md5 c tf.namespace selector)) _
            (logged-Moves [] _ (list_all-Moves tf.namespace selector))
            (λ pods. Moves-list c a pods _ next (Moves-pure c a reaped) h)))

  reap_plugins_loop-Moves :
      (attempts : ℕ) (namespace name : String)
      → Moves R (reap_plugins_loop md5 c attempts namespace name)
  unfolding reap_plugins_loop
  reap_plugins_loop-Moves zero namespace name = Moves-pure c a gave_up
  reap_plugins_loop-Moves (suc attempts) namespace name =
      Moves-attempt c a (get_terraform_resource c namespace name 3) _ _
        (get_terraform_resource-Moves c a namespace name 3) stop-Moves
        (λ tf. reap_plugins_attempt-Moves _ tf (reap_plugins_loop-Moves attempts namespace name))

  pub reap_plugins-Moves : (tf : Terraform) → Moves R (reap_plugins md5 c tf)
  unfolding reap_plugins
  reap_plugins-Moves tf = reap_plugins_loop-Moves 21 tf.namespace tf.name
