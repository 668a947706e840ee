-- ===== src/Controller/Pool/Deletion.antt =====
-- When a pool loses its finalizer.
use libvirt_operator.Prelude.{◌+◌, true, [], ◌∷◌, ◌++◌, ◌≡◌, ◌≢◌, arith, length}
use libvirt_operator.Outcome.{ok, or_empty}
use libvirt_operator.Host.{Client}
use libvirt_operator.Host.Monad.{World, update}
use libvirt_operator.Api.{finalizer, pool_label}
use libvirt_operator.Api.Kinds.{Pool}
use libvirt_operator.Controller.Base.{Machinery, Casts, Server, updates}
use libvirt_operator.Controller.Probed.{Sources}
use libvirt_operator.Controller.Probed.Release.{released, release_used, release_unused}
use libvirt_operator.Controller.Pool.{PoolUsers, pool_texts, delete_pool, reconcile_pool}

module _ {S : Type 0} (c : Client S) (k : Machinery) (casts : Casts) (v : Server Pool)
    (src : Sources Pool) (users : PoolUsers) where
  -- A run for a pool that is being deleted updates the pool only if the lists of the volumes and of
  -- the cloud-inits with its label were both read and are empty.
  pub pool_update_unused :
      (p : Pool) (w : World S Pool)
      → p.meta.deleting ≡ true
      → updates (reconcile_pool c k casts v src users p w).1.log ≢ updates w.log
      → (users.volumes pool_label p.meta.name ≡ ok [])
        × (users.cloud_inits pool_label p.meta.name ≡ ok [])
  unfolding reconcile_pool delete_pool
  pool_update_unused p w d changed = ground (
    arith,
    release_used k v pool_texts
        (length (or_empty (users.volumes pool_label p.meta.name))
          + length (or_empty (users.cloud_inits pool_label p.meta.name)))
        p w,
  )

  -- A pool that is being deleted, holds the finalizer and has no volume and no cloud-init is updated
  -- once, without the finalizer, and the run makes no other change.
  pub pool_released :
      (p : Pool) (w : World S Pool)
      → p.meta.deleting ≡ true
      → k.contains_finalizer p.meta.finalizers finalizer ≡ true
      → src.requirement pool_label p.meta.name ≡ ok tt
      → users.volumes pool_label p.meta.name ≡ ok []
      → users.cloud_inits pool_label p.meta.name ≡ ok []
      → (reconcile_pool c k casts v src users p w).1.log ≡ w.log ++ update (released k p) ∷ []
  unfolding reconcile_pool delete_pool
  pool_released p w d f q vs cs = ground (arith, release_unused k v pool_texts p w)
