-- ===== src/Controller/Pool/Report.antt =====
-- What PoolReconciler writes of a pool that its host knows.
use libvirt_operator.Prelude.{
  List, [], ◌∷◌, ◌++◌, ◌≡◌, ◌∙◌, some, none, true, false, String, if◌then◌else◌, ap, arith,
}
use libvirt_operator.Outcome.{ok}
use libvirt_operator.Libvirt.{StoragePool, PoolInfo}
use libvirt_operator.Host.{Client}
use libvirt_operator.Host.Monad.{World, bind_ok, M, ◌>>=◌}
use libvirt_operator.Api.{Condition, finalizer, probed, ready}
use libvirt_operator.Api.Kinds.{Host, Pool, pool_host_ref}
use libvirt_operator.Store.Host.{HostEntry, lookup_entry, session}
use libvirt_operator.Probe.{PoolProbe, is_running, new_pool_probe}
use libvirt_operator.Controller.Base.{
  Machinery, Casts, Server, Result, requeue_after, fresh_for, data_refresh_interval, status_updates,
  ensure_finalizer,
}
use libvirt_operator.Controller.Writes.{host-ensure_finalizer}
use libvirt_operator.Controller.Conditions.{
  SetsConditions, Accepts, ensure_finalizer-accepted, with_finalizer,
}
use libvirt_operator.Controller.Probed.{Sources, refresh_if_due}
use libvirt_operator.Controller.Probed.Report.{refresh_if_due-Says, status_of}
use libvirt_operator.Controller.Pool.{
  PoolUsers, pool_texts, pool_probing, pool_capacity, delete_pool, reconcile_pool,
}

-- What a probe says of a pool that the host knows.
abbrev probe_of : PoolInfo → PoolProbe
probe_of info = record {
  exists = true;
  active = is_running info.state;
  capacity = info.capacity;
  allocation = info.allocation;
  available = info.available;
}

module _ {S : Type 0} (c : Client S) where
  new_pool_probe-known :
      (pool : StoragePool) (info : PoolInfo) (name : String) (s : S)
      → c.storage_pool_lookup_by_name name s ≡ ok pool
      → c.storage_pool_get_info pool s ≡ ok info
      → new_pool_probe c s name ≡ ok (probe_of info)
  unfolding new_pool_probe
  new_pool_probe-known pool info name s known got = ground (arith, known, got)

module _ {S : Type 0} (c : Client S) (k : Machinery) (casts : Casts) (v : Server Pool)
    (src : Sources Pool) (users : PoolUsers) (l : SetsConditions k) (a : Accepts v) where
  -- If the API server accepts every update and conditions are kept as apimachinery documents: a
  -- run for a pool that is not being deleted and whose last probe is out of date, and whose host
  -- is connected and knows the pool, comes back after the interval, and the last status that it
  -- writes has the Ready condition true exactly if the pool runs, and the capacity, the allocation
  -- and the available space that the host tells, as int64.
  pub reconcile_pool-reports :
      (p : Pool) (w : World S Pool) (h : Host) (e open_ : HostEntry) (pool : StoragePool)
      (info : PoolInfo)
      → p.meta.deleting ≡ false
      → fresh_for k.now (k.find_status_condition p.conditions probed) ≡ none
      → src.get_host (pool_host_ref p) ≡ ok h
      → lookup_entry h.meta.uid src.hosts ≡ some e
      → session 0 e ≡ ok open_
      → c.storage_pool_lookup_by_name p.spec.name w.host ≡ ok pool
      → c.storage_pool_get_info pool w.host ≡ ok info
      → (o : Pool) × (front : List Pool) × ((reconcile_pool c k casts v src users p w).0
          ≡ ok (requeue_after data_refresh_interval))
        × (status_updates (reconcile_pool c k casts v src users p w).1.log ≡ front ++ o ∷ [])
        × ((found : Condition) × (k.find_status_condition o.conditions ready ≡ some found)
            × (found.status ≡ status_of (is_running info.state)))
        × (o.status
            ≡ some (record {
              capacity = casts.to_int64 info.capacity;
              allocation = casts.to_int64 info.allocation;
              available = casts.to_int64 info.available;
            }))
  unfolding reconcile_pool pool_host_ref pool_capacity
  reconcile_pool-reports p w h e open_ pool info live is_due got known connected there told =
      let p' = with_finalizer k p finalizer in
      let w1 = (ensure_finalizer k v finalizer p w).1 in
      let same = host-ensure_finalizer k v finalizer p w in
      let (o, front, done_, written, says) =
        refresh_if_due-Says k v pool_texts src (pool_probing c casts) l a (pool_host_ref p') p' w1 h
          e open_ (probe_of info) is_due got known connected
          (ap (λ s. new_pool_probe c s p.spec.name) same
            ∙ new_pool_probe-known c pool info p.spec.name w.host there told) in
      let to_refresh : Pool → M S Pool Result =
        λ q. refresh_if_due k v pool_texts src (pool_probing c casts) (pool_host_ref q) q in
      let run =
        ap
          (λ b.
            (if b
                then delete_pool c k casts v src users p
                else ensure_finalizer k v finalizer p >>= to_refresh)
              w)
          live
        ∙ bind_ok (ensure_finalizer k v finalizer p) to_refresh w p'
            (ensure_finalizer-accepted k v a finalizer p w) in
      (
        o,
        front,
        ap (λ x. x.0) run ∙ done_,
        ap (λ x. status_updates x.1.log) run ∙ written,
        says.is_ready,
        says.stores,
      )
