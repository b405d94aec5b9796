-- ===== src/Controller/Reconcile/Locked.antt =====
-- The reconcile lock of pkg/controllers/terraform_controller.go.
use terraform_operator.Prelude.{
  ℕ, String, Option, none, some, ◌≡◌, refl, ap, ◌∙◌, sym, lookup, insert, delete, lookup-insert,
  lookup-delete, text_cases, inl, inr, List,
}
use terraform_operator.Cluster.Effects.{ok}
use terraform_operator.Cluster.Client.{Client}
use terraform_operator.Controller.Packages.{Packages}
use terraform_operator.Controller.NodeSelectors.{
  Cache, Settings, Workloads, cache_node_selectors, cache_node_selectors-locks,
}
use terraform_operator.Controller.Reconcile.Program.{later, lock_key, holding_lock, reconcile}

-- Taking a free lock and giving it back leaves every lock as it was.
lookup-delete-insert :
    (key other id : String) (locks : List (String × String))
    → lookup key locks ≡ none
    → lookup other (delete key (insert key id locks)) ≡ lookup other locks
lookup-delete-insert key other id locks free = elim (text_cases key other) [
  | inl (e, t) ↦
      lookup-delete key other (insert key id locks)
      ∙ rw t (sym (ap (λ k. lookup k locks) (sym e) ∙ free))
  | inr (n, t) ↦
      lookup-delete key other (insert key id locks)
      ∙ rw t (lookup-insert key other id locks ∙ rw t refl)
]

module _ (c : Client) (p : Packages) (s : Settings) (o : Workloads c.World)
    (namespace name id suffix : String) (now : ℕ) (cache : Cache) (w : c.World) where
  holding_lock-locks :
      (other : String) (cache' : Cache) (w' : c.World) (owner : Option String)
      → lookup (lock_key namespace name) cache'.locks ≡ owner
      → lookup other (holding_lock c p s o namespace name id suffix now owner (cache', w')).1.locks
        ≡ lookup other cache'.locks
  holding_lock-locks other cache' w' none h =
      lookup-delete-insert (lock_key namespace name) other id cache'.locks h
  holding_lock-locks other cache' w' (some owner) h = refl

  -- Whatever comes of a reconcile, success, an error or a panic, it leaves the locks as it found
  -- them: its own lock is given back, and those of other requests are not touched.
  pub reconcile-locks :
      (other : String)
      → lookup other (reconcile c p s o namespace name id suffix now cache w).1.locks
        ≡ lookup other cache.locks
  unfolding reconcile
  reconcile-locks other =
      let (cache', w') = cache_node_selectors s o cache w in
      holding_lock-locks other cache' w' (lookup (lock_key namespace name) cache'.locks) refl
      ∙ ap (lookup other) (cache_node_selectors-locks s o cache w)

  -- A request that is locked is put off: the reconcile does nothing but look for the constraints to
  -- inherit, and asks to be called again later.
  pub reconcile-locked :
      (owner : String)
      → lookup (lock_key namespace name) cache.locks ≡ some owner
      → let (cache', w') = cache_node_selectors s o cache w in
        reconcile c p s o namespace name id suffix now cache w ≡ ((ok later, w'), cache')
  unfolding reconcile
  reconcile-locked owner h =
      let (cache', w') = cache_node_selectors s o cache w in
      ap (λ l. holding_lock c p s o namespace name id suffix now l (cache', w'))
        (ap (lookup (lock_key namespace name)) (cache_node_selectors-locks s o cache w) ∙ h)
