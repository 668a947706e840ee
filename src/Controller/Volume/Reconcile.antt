-- ===== src/Controller/Volume/Reconcile.antt =====
-- Reconcile of internal/controller/volume.go.
use libvirt_operator.Prelude.{ℕ, String, Bool, not, Option, none, some, if◌then◌else◌, str_eq}
use libvirt_operator.Outcome.{Outcome, Error, ok, err, panic, hang, message, error_text}
use libvirt_operator.Host.{Client}
use libvirt_operator.Host.Monad.{
  M, Attempt, success, failure, pure, raise, lift, query, attempt, ◌>>=◌, ◌>>◌,
}
use libvirt_operator.Api.{finalizer, ready, status_true, status_false, unmet_requirements, created}
use libvirt_operator.Api.Kinds.{Volume, Pool, Host, VolumeSize}
use libvirt_operator.Store.Host.{HostEntry, lookup_entry, session}
use libvirt_operator.Action.Volume.State.{VolumeAction, new_volume_action, state}
use libvirt_operator.Action.Volume.Resize.{resize_required, resize, live_resize}
use libvirt_operator.Controller.Base.{
  Machinery, Casts, Server, Result, done, requeue, set_status_condition, ensure_finalizer,
  drop_finalizer, condition_creation_succeeded, condition_host_client_not_ready,
  condition_pool_not_ready,
}
use libvirt_operator.Controller.Probed.{ignore_not_found}
use libvirt_operator.Controller.Volume.{
  Env, resolve_refs, is_not_backing_store, used_by_domain, delete_volume, create_volume, placed,
  err_volume_in_use, err_backing_store_not_created, err_cannot_resize_backing_store,
}

module _ {S : Type 0} (c : Client S) (k : Machinery) (casts : Casts) (v : Server Volume)
    (env : Env) where
  -- The condition that says why a volume which is not ready yet has to wait.
  unfoldable pub note_unready : Volume → String → M S Volume Volume
  note_unready r text =
      if k.is_status_condition_true r.conditions ready
      then pure r
      else set_status_condition k v r ready status_false text unmet_requirements

  -- An error with this text asks for another run.
  unfoldable pub requeue_on : String → Error → M S Volume Result
  requeue_on text e = if str_eq (error_text e) text then pure requeue else raise e

  unfoldable pub after_delete : Volume → Attempt (Unit {0}) → M S Volume Result
  unfolding requeue_on
  after_delete r (failure e) = requeue_on err_volume_in_use e
  after_delete r (success _) = drop_finalizer k v finalizer r >> pure done

  unfoldable pub delete_stage : Volume → VolumeAction → M S Volume Result
  unfolding after_delete
  delete_stage r a =
      if k.contains_finalizer r.meta.finalizers finalizer
      then if state a
        then attempt (delete_volume c k casts v env r a) >>= after_delete r
        else drop_finalizer k v finalizer r >> pure done
      else pure done

  -- One domain has the volume as a disk, or none.
  unfoldable pub resize_for : String → ℕ → VolumeAction → Option String → M S Volume Result
  resize_for unit value a (some domain) = live_resize c domain unit value a >> pure done
  resize_for unit value a none = resize c unit value a >> pure done

  unfoldable pub grow_free : Volume → String → ℕ → VolumeAction → Bool → M S Volume Result
  grow_free r unit value a free =
      if not free
      then raise (message err_cannot_resize_backing_store)
      else lift (used_by_domain env r.meta.name) >>= resize_for unit value a

  unfoldable pub resize_to : Volume → String → ℕ → VolumeAction → Bool → M S Volume Result
  resize_to r unit value a larger =
      if not larger
      then pure done
      else lift (is_not_backing_store env r.meta.name) >>= grow_free r unit value a

  unfoldable pub resize_stage : Volume → VolumeAction → Option VolumeSize → M S Volume Result
  unfolding resize_for grow_free resize_to
  resize_stage r a none = pure done
  resize_stage r a (some size) =
      let value = casts.to_uint64 size.value in
      lift (resize_required size.unit value a) >>= resize_to r size.unit value a

  unfoldable pub report_created : Volume → Pool → M S Volume Volume
  report_created r pool =
      if k.is_status_condition_true r.conditions ready
      then pure r
      else set_status_condition k v (placed r pool) ready status_true condition_creation_succeeded
          created

  unfoldable pub after_create : Attempt (Unit {0}) → M S Volume Result
  after_create (failure e) = requeue_on err_backing_store_not_created e
  after_create (success _) = pure done

  unfoldable pub live_stage : Volume → Pool → VolumeAction → M S Volume Result
  unfolding after_create requeue_on
  live_stage r pool a =
      if state a
      then report_created r pool >>= (λ r'. resize_stage r' a r'.spec.size)
      else attempt (create_volume c k casts v env r pool a) >>= after_create

  unfoldable pub act : Volume → Pool → VolumeAction → M S Volume Result
  act r pool a =
      if r.meta.deleting
      then delete_stage r a
      else ensure_finalizer k v finalizer r >>= (λ r'. live_stage r' pool a)

  unfoldable pub host_not_ready : Volume → M S Volume Result
  unfolding note_unready
  host_not_ready r = note_unready r condition_host_client_not_ready >> pure requeue

  unfoldable pub with_session : Volume → Pool → Outcome HostEntry → M S Volume Result
  unfolding host_not_ready
  with_session r pool (ok e) =
      query (λ s. new_volume_action c s r.spec.name pool.spec.name) >>= act r pool
  with_session r pool (err e) = host_not_ready r
  with_session r pool panic = lift panic
  with_session r pool hang = lift hang

  unfoldable pub with_entry : Volume → Pool → Option HostEntry → M S Volume Result
  unfolding with_session
  with_entry r pool none = host_not_ready r
  with_entry r pool (some e) = with_session r pool (session 0 e)

  unfoldable pub with_refs : Volume → Attempt (Pool × Host) → M S Volume Result
  unfolding with_entry
  with_refs r (failure e) = note_unready r (error_text e) >> raise e
  with_refs r (success (pool, host)) =
      if k.is_status_condition_true pool.conditions ready
      then with_entry r pool (lookup_entry host.meta.uid env.hosts)
      else note_unready r condition_pool_not_ready >> pure requeue

  unfoldable pub reconcile_volume : Volume → M S Volume Result
  unfolding with_refs
  reconcile_volume r = attempt (lift (resolve_refs env r)) >>= with_refs r

  unfoldable pub loaded : Attempt Volume → M S Volume Result
  loaded (success r) = reconcile_volume r
  loaded (failure e) = ignore_not_found e

  unfoldable pub reconcile : M S Volume Result
  unfolding loaded
  reconcile = attempt (lift env.get) >>= loaded
