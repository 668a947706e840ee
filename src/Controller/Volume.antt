-- ===== src/Controller/Volume.antt =====
-- VolumeReconciler of internal/controller/volume.go: the environment, the helpers that look for users
-- of a volume, delete and create. Reconcile itself stands in Reconcile.
pub mod Reconcile
pub mod Deletion
pub mod Resizing
pub mod Creation
use libvirt_operator.Prelude.{
  ℕ, ◌+◌, String, Bool, true, false, not, List, [], ◌∷◌, Option, none, some, is_some, length, ltb,
  if◌then◌else◌, str_eq,
}
use Prim.Native.String.{◌++◌}
use libvirt_operator.Outcome
use libvirt_operator.Outcome.{Outcome, Error, ok, err, message, error_text}
use libvirt_operator.Host.{Client}
use libvirt_operator.Host.Monad.{
  M, Attempt, success, failure, pure, raise, lift, query, attempt, ◌>>=◌, ◌>>◌,
}
use libvirt_operator.Api.{
  NamespacedName, Resource, Reason, ready, deletion_prevented, status_true, status_false, in_use,
  unmet_requirements, error, created, volume_label, pool_label, disk_label_prefix,
}
use libvirt_operator.Api.Kinds.{
  Volume, Pool, Host, VolumeSize, VolumeSource, VolumeStatus, volume_pool_ref, pool_host_ref,
  volume_backing_store_ref,
}
use libvirt_operator.Store.Host.{HostStore}
use libvirt_operator.Action.Volume.State.{
  VolumeAction, set_size, set_format, backing_store, cleanup_source,
}
use libvirt_operator.Action.Volume.Source.{Remote, remote_source}
use libvirt_operator.Action
use libvirt_operator.Controller.Base.{
  Machinery, Casts, Server, Result, set_status_condition, ensure_label,
  condition_creation_succeeded,
}

abbrev pub err_volume_in_use : String
err_volume_in_use = "volume is in use by another resource"

abbrev pub err_backing_store_not_created : String
err_backing_store_not_created = "backing store volume has not yet been created"

abbrev pub err_backing_store_not_same_host : String
err_backing_store_not_same_host = "backing store does not exist on the same host"

abbrev pub err_cannot_resize_backing_store : String
err_cannot_resize_backing_store = "can not resize volume that is used as a backing store"

abbrev pub err_volume_multiple_domains : String
err_volume_multiple_domains = "volume linked to multiple domains"

-- What the API server, the store of hosts and the network answer. `volumes` gives the names of the
-- volumes with a label, `domains` the names on the host of the domains with one.
pub record Env : Type 0 where
  pub get : Outcome Volume
  pub get_pool : NamespacedName → Outcome Pool
  pub get_host : NamespacedName → Outcome Host
  pub get_volume : NamespacedName → Outcome Volume
  pub requirement : String → String → Outcome (Unit {0})
  pub volumes : String → String → Outcome (List String)
  pub domains : String → String → Outcome (List String)
  pub hosts : HostStore
  pub remote : Remote
  pub close_source : Outcome (Unit {0})
  pub remove_source : Outcome (Unit {0})

module _ (env : Env) where
  unfoldable pub resolve_refs : Volume → Outcome (Pool × Host)
  resolve_refs v =
      Outcome.◌>>=◌ (env.get_pool (volume_pool_ref v))
        (λ pool. Outcome.◌>>=◌ (env.get_host (pool_host_ref pool)) (λ host. ok (pool, host)))

  -- The names of the volumes that use a volume as their backing store, and of the domains that have it
  -- as a disk.
  unfoldable pub volume_users : String → Outcome (List String)
  volume_users name =
      Outcome.◌>>=◌ (env.requirement volume_label name) (λ _. env.volumes volume_label name)

  unfoldable pub domain_users : String → Outcome (List String)
  domain_users name =
      Outcome.◌>>=◌ (env.requirement (disk_label_prefix ++ "/" ++ name) "")
        (λ _. env.domains (disk_label_prefix ++ "/" ++ name) "")

  unfoldable pub is_not_backing_store : String → Outcome Bool
  is_not_backing_store name = Outcome.◌>>=◌ (volume_users name) (λ vs. ok (not (ltb 0 (length vs))))

  only_domain : List String → Outcome (Option String)
  only_domain [] = ok none
  only_domain (d ∷ []) = ok (some d)
  only_domain (d ∷ e ∷ ds) = err (message err_volume_multiple_domains)

  unfoldable pub used_by_domain : String → Outcome (Option String)
  unfolding only_domain
  used_by_domain name = Outcome.◌>>=◌ (domain_users name) only_domain

-- The volume with the pool and the host that it is on.
abbrev pub placed : Volume → Pool → Volume
placed r pool = record r { status = record { pool = pool.spec.name; host = pool.spec.host_ref } }

module _ {S : Type 0} (c : Client S) (k : Machinery) (casts : Casts) (v : Server Volume)
    (env : Env) where
  unfoldable pub delete_volume : Volume → VolumeAction → M S Volume (Unit {0})
  delete_volume r a = do
    volumes ← lift (volume_users env r.meta.name)
    domains ← lift (domain_users env r.meta.name)
    if ltb 0 (length volumes + length domains)
        then set_status_condition k v r deletion_prevented status_true err_volume_in_use in_use
          >> raise (message err_volume_in_use)
        else Action.Volume.State.delete c a

  -- A failure that is written to the Ready condition before it is returned.
  fail_with : {A : Type 0} → Volume → Error → Reason → M S Volume A
  fail_with r e reason =
      set_status_condition k v r ready status_false (error_text e) reason >> raise e

  or_fail : {A : Type 0} → Volume → Attempt A → Reason → M S Volume A
  unfolding fail_with
  or_fail r (success a) reason = pure a
  or_fail r (failure e) reason = fail_with r e reason

  sized : Option VolumeSize → VolumeAction → VolumeAction
  sized none a = a
  sized (some size) a = set_size size.unit (casts.to_uint64 size.value) a

  from_source : Volume → VolumeSource → VolumeAction → M S Volume (Volume × VolumeAction)
  unfolding or_fail
  from_source r source a = do
    tried ← attempt (lift (remote_source env.remote source.url source.checksum a))
    a' ← or_fail r tried error
    pure (r, a')

  from_backing_store : Volume → VolumeAction → Pool → M S Volume (Volume × VolumeAction)
  unfolding or_fail fail_with
  from_backing_store r a pool = do
    got ← attempt (lift (env.get_volume (volume_backing_store_ref r)))
    bs ← or_fail r got unmet_requirements
    if not (k.is_status_condition_true bs.conditions ready)
        then fail_with r (message err_backing_store_not_created) unmet_requirements
        else if not (str_eq bs.status.host pool.spec.host_ref)
        then fail_with r (message err_backing_store_not_same_host) unmet_requirements
        else (do
          tried ← attempt (query (λ s. backing_store c s bs.spec.name bs.status.pool a))
          a' ← or_fail r tried error
          r' ← ensure_label k v volume_label bs.meta.name r
          pure (r', a'))

  -- The `switch`: a source comes first.
  prepare :
      Volume
      → Pool
      → VolumeAction
      → Option VolumeSource
      → Option String
      → M S Volume (Volume × VolumeAction)
  unfolding from_source from_backing_store
  prepare r pool a (some source) _ = from_source r source a
  prepare r pool a none (some ref) = from_backing_store r a pool
  prepare r pool a none none = pure (r, a)

  -- A failure to clean up is only logged.
  clean_up : Option VolumeSource → VolumeAction → M S Volume (Unit {0})
  clean_up none a = pure tt
  clean_up (some source) a =
      attempt (lift (cleanup_source env.close_source env.remove_source a)) >> pure tt

  unfoldable pub create_volume : Volume → Pool → VolumeAction → M S Volume (Unit {0})
  unfolding sized prepare clean_up or_fail
  create_volume r pool a = do
    let formatted = set_format r.spec.format (sized r.spec.size a)
    (linked, filled) ← prepare r pool formatted r.spec.source r.spec.backing_store_ref
    labelled ← ensure_label k v pool_label r.spec.pool_ref linked
    tried ← attempt (Action.Volume.State.create c filled)
    or_fail labelled tried error
    clean_up r.spec.source filled
    set_status_condition k v (placed labelled pool) ready status_true condition_creation_succeeded
          created
        >> pure tt
