-- ===== src/Controller/CloudInit.antt =====
-- CloudInitReconciler of internal/controller/cloudinit.go.
pub mod Image
pub mod Deletion
pub mod Creation
use libvirt_operator.Prelude.{ℕ, String, List, Option, none, some, length, ltb, if◌then◌else◌}
use libvirt_operator.Outcome
use libvirt_operator.Outcome.{Outcome, Error, ok, err, panic, hang, error_text}
use libvirt_operator.Host.{Client}
use libvirt_operator.Host.Monad.{
  M, Attempt, success, failure, pure, raise, lift, query, attempt, ◌>>=◌, ◌>>◌,
}
use libvirt_operator.Api.{
  NamespacedName, finalizer, cloud_init_label, pool_label, ready, deletion_prevented, status_true,
  status_false, in_use, unmet_requirements, error, created,
}
use libvirt_operator.Api.Kinds.{Pool, Host, pool_host_ref}
use libvirt_operator.Api.CloudInit.{CloudInit, cloud_init_pool_ref}
use libvirt_operator.Store.Host.{HostStore, HostEntry, lookup_entry, session}
use libvirt_operator.Action.Volume.State.{
  VolumeAction, new_volume_action, state, set_size, set_format, local_source, cleanup_source,
}
use libvirt_operator.Action
use libvirt_operator.Controller.Base.{
  Machinery, Casts, Server, Result, done, requeue, set_status_condition, ensure_finalizer,
  drop_finalizer, ensure_label, condition_creation_succeeded, condition_host_client_not_ready,
  condition_pool_not_ready,
}
use libvirt_operator.Controller.Probed.{ignore_not_found}
use libvirt_operator.Controller.CloudInit.Image.{
  Bytes, Yaml, Iso, Sources, source_files, image_size, create_iso,
}

-- What the API server and the store of hosts answer, the libraries that make the image, and what
-- closing and removing the image's file answer.
pub record Env (W : Type 0) : Type 0 where
  pub get : Outcome CloudInit
  pub get_pool : NamespacedName → Outcome Pool
  pub get_host : NamespacedName → Outcome Host
  pub requirement : String → String → Outcome (Unit {0})
  pub domains : String → String → Outcome (List String)
  pub hosts : HostStore
  pub yaml : Yaml
  pub iso : Iso W
  pub close_source : Outcome (Unit {0})
  pub remove_source : Outcome (Unit {0})

-- The cloud-init with the pool and the host that it is on.
abbrev pub placed : CloudInit → Pool → CloudInit
placed ci pool = record ci { status = record { pool = pool.spec.name; host = pool.spec.host_ref } }

module _ {W S : Type 0} (c : Client S) (k : Machinery) (casts : Casts) (v : Server CloudInit)
    (env : Env W) where
  unfoldable pub resolve_refs : CloudInit → Outcome (Pool × Host)
  resolve_refs ci =
      Outcome.◌>>=◌ (env.get_pool (cloud_init_pool_ref ci))
        (λ pool. Outcome.◌>>=◌ (env.get_host (pool_host_ref pool)) (λ host. ok (pool, host)))

  unfoldable pub domain_users : String → Outcome (List String)
  domain_users name =
      Outcome.◌>>◌ (env.requirement cloud_init_label name) (env.domains cloud_init_label name)

  unfoldable pub forget : CloudInit → M S CloudInit Result
  forget ci = drop_finalizer k v finalizer ci >> pure done

  unfoldable pub release_image : CloudInit → VolumeAction → List String → M S CloudInit Result
  release_image ci a domains =
      if ltb 0 (length domains)
      then set_status_condition k v ci deletion_prevented status_true
          "cloud-init is currently in use by domain" in_use
        >> pure requeue
      else Action.Volume.State.delete c a >> forget ci

  unfoldable pub delete_stage : CloudInit → VolumeAction → M S CloudInit Result
  delete_stage ci a =
      if k.contains_finalizer ci.meta.finalizers finalizer
      then if state a then lift (domain_users ci.meta.name) >>= release_image ci a else forget ci
      else pure done

  -- A failure that is written to the Ready condition before it is returned.
  unfoldable pub fail_with : CloudInit → Error → M S CloudInit Result
  fail_with ci e = set_status_condition k v ci ready status_false (error_text e) error >> raise e

  unfoldable pub report_created : CloudInit → Pool → M S CloudInit CloudInit
  report_created ci pool =
      set_status_condition k v (placed ci pool) ready status_true condition_creation_succeeded
        created

  unfoldable pub report_existing : CloudInit → Pool → M S CloudInit Result
  report_existing ci pool =
      if k.is_status_condition_true ci.conditions ready
      then pure done
      else report_created ci pool >> pure done

  -- A failure to clean up is only logged.
  unfoldable pub finish : Pool → VolumeAction → CloudInit → M S CloudInit Result
  finish pool a ci =
      report_created ci pool
      >> (attempt (lift (cleanup_source env.close_source env.remove_source a)) >> pure done)

  unfoldable pub after_create :
      CloudInit → Pool → VolumeAction → Attempt (Unit {0}) → M S CloudInit Result
  after_create ci pool a (failure e) = fail_with ci e
  after_create ci pool a (success _) =
      ensure_label k v pool_label ci.spec.pool_ref ci >>= finish pool a

  -- The action with the image and its size.
  unfoldable pub filled : ℕ → Bytes → VolumeAction → VolumeAction
  filled size image a =
      local_source image (set_format "raw" (set_size "bytes" (casts.to_uint64 size) a))

  unfoldable pub with_image :
      CloudInit → Pool → VolumeAction → ℕ → Attempt Bytes → M S CloudInit Result
  with_image ci pool a size (failure e) = fail_with ci e
  with_image ci pool a size (success image) =
      attempt (Action.Volume.State.create c (filled size image a))
      >>= after_create ci pool (filled size image a)

  unfoldable pub with_files :
      CloudInit → Pool → VolumeAction → Attempt Sources → M S CloudInit Result
  with_files ci pool a (failure e) = fail_with ci e
  with_files ci pool a (success sources) =
      attempt (lift (create_iso env.iso sources.files (image_size sources.size)))
      >>= with_image ci pool a (image_size sources.size)

  unfoldable pub create_image : CloudInit → Pool → VolumeAction → M S CloudInit Result
  create_image ci pool a = attempt (lift (source_files env.yaml ci)) >>= with_files ci pool a

  unfoldable pub live_stage : Pool → VolumeAction → CloudInit → M S CloudInit Result
  live_stage pool a ci = if state a then report_existing ci pool else create_image ci pool a

  unfoldable pub act : CloudInit → Pool → VolumeAction → M S CloudInit Result
  act ci pool a =
      if ci.meta.deleting
      then delete_stage ci a
      else ensure_finalizer k v finalizer ci >>= live_stage pool a

  -- A reason not to go on is written only where the cloud-init is not ready.
  unfoldable pub note_unready : CloudInit → String → M S CloudInit CloudInit
  note_unready ci text =
      if k.is_status_condition_true ci.conditions ready
      then pure ci
      else set_status_condition k v ci ready status_false text unmet_requirements

  unfoldable pub with_session : CloudInit → Pool → Outcome HostEntry → M S CloudInit Result
  with_session ci pool (ok e) =
      query (λ s. new_volume_action c s ci.spec.name pool.spec.name) >>= act ci pool
  with_session ci pool (err e) = note_unready ci condition_host_client_not_ready >> pure requeue
  with_session ci pool panic = lift panic
  with_session ci pool hang = lift hang

  unfoldable pub with_entry : CloudInit → Pool → Option HostEntry → M S CloudInit Result
  with_entry ci pool none = note_unready ci condition_host_client_not_ready >> pure requeue
  with_entry ci pool (some e) = with_session ci pool (session 0 e)

  unfoldable pub with_refs : CloudInit → Attempt (Pool × Host) → M S CloudInit Result
  with_refs ci (failure e) = note_unready ci (error_text e) >> raise e
  with_refs ci (success (pool, host)) =
      if k.is_status_condition_true pool.conditions ready
      then with_entry ci pool (lookup_entry host.meta.uid env.hosts)
      else note_unready ci condition_pool_not_ready >> pure requeue

  unfoldable pub reconcile_cloud_init : CloudInit → M S CloudInit Result
  reconcile_cloud_init ci = attempt (lift (resolve_refs ci)) >>= with_refs ci

  loaded : Attempt CloudInit → M S CloudInit Result
  loaded (success ci) = reconcile_cloud_init ci
  loaded (failure e) = ignore_not_found e

  unfoldable pub reconcile : M S CloudInit Result
  unfolding loaded
  reconcile = attempt (lift env.get) >>= loaded
