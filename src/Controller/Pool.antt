-- ===== src/Controller/Pool.antt =====
-- PoolReconciler of internal/controller/pool.go.
pub mod Deletion
pub mod Report
use libvirt_operator.Prelude.{ℕ, ◌+◌, String, List, Option, none, some, length, if◌then◌else◌}
use Prim.Native.String.{◌++◌}
use libvirt_operator.Outcome.{Outcome, error_text}
use libvirt_operator.Host.{Client}
use libvirt_operator.Host.Monad.{M, pure, lift, ◌>>=◌, ◌>>◌}
use libvirt_operator.Api.{finalizer, pool_label}
use libvirt_operator.Api.Kinds.{Pool, HostedSpec, PoolCapacity, pool_host_ref}
use libvirt_operator.Probe.{PoolProbe, new_pool_probe}
use libvirt_operator.Controller.Base.{Machinery, Casts, Server, Result, done, ensure_finalizer}
use libvirt_operator.Controller.Probed.{Sources, Texts, Probing, load, release, refresh_if_due}

abbrev pub pool_texts : Texts
pool_texts = record {
  in_use = "Pool in use by volume";
  not_exist = "Pool does not exist";
  active = "Pool is active";
  not_active = "Pool is not active";
}

unfoldable pub pool_capacity : Casts → PoolProbe → PoolCapacity
pool_capacity casts p = record {
  capacity = casts.to_int64 p.capacity;
  allocation = casts.to_int64 p.allocation;
  available = casts.to_int64 p.available;
}

abbrev pub pool_probing :
    {S : Type 0} → Client S → Casts → Probing S PoolProbe HostedSpec (Option PoolCapacity)
pool_probing c casts = record {
  probe = λ name s. new_pool_probe c s name;
  exists = λ p. p.exists;
  active = λ p. p.active;
  store = λ p _. some (pool_capacity casts p);
  resource_name = λ r. r.spec.name;
  host_name = λ r. r.spec.host_ref;
  failure_text = λ e. "Probe could not be completed: " ++ error_text e;
}

-- The names of the objects that a label selector lists.
pub record PoolUsers : Type 0 where
  pub volumes : String → String → Outcome (List String)
  pub cloud_inits : String → String → Outcome (List String)

module _ {S : Type 0} (c : Client S) (k : Machinery) (casts : Casts) (v : Server Pool)
    (src : Sources Pool) (users : PoolUsers) where
  unfoldable pub delete_pool : Pool → M S Pool Result
  delete_pool p =
      if k.contains_finalizer p.meta.finalizers finalizer
      then (do
        lift (src.requirement pool_label p.meta.name)
        volumes ← lift (users.volumes pool_label p.meta.name)
        cloud_inits ← lift (users.cloud_inits pool_label p.meta.name)
        release k v pool_texts (length volumes + length cloud_inits) p)
      else pure done

  unfoldable pub reconcile_pool : Pool → M S Pool Result
  reconcile_pool p =
      if p.meta.deleting
      then delete_pool p
      else ensure_finalizer k v finalizer p
        >>= (λ p'. refresh_if_due k v pool_texts src (pool_probing c casts) (pool_host_ref p') p')

  unfoldable pub reconcile : M S Pool Result
  reconcile = load src reconcile_pool
