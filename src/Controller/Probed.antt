-- ===== src/Controller/Probed.antt =====
-- The steps that the reconcilers of pools, networks and PCI devices have in common, as pool.go writes
-- them: the guarded deletion, the refresh interval, the session with the host and the report.
pub mod Release
pub mod Report
use libvirt_operator.Prelude.{
  ℕ, String, Bool, true, false, List, Option, none, some, if◌then◌else◌, ltb, not,
}
use libvirt_operator.Outcome.{Outcome, Error, ok, err, panic, hang, error_text, not_found}
use libvirt_operator.Host.Monad.{
  M, Attempt, success, failure, pure, raise, lift, query, attempt, ◌>>=◌, ◌>>◌,
}
use libvirt_operator.Api.{
  Resource, NamespacedName, finalizer, host_label, ready, probed, deletion_prevented, status_true,
  status_false, in_use, required, unmet_requirements, error, not_exist, active, not_active,
  completed,
}
use libvirt_operator.Api.Kinds.{Host}
use libvirt_operator.Store.Host.{HostStore, HostEntry, lookup_entry, session}
use libvirt_operator.Controller.Base.{
  Machinery, Server, Result, done, requeue, requeue_after, set_status_condition, ensure_finalizer,
  drop_finalizer, ensure_label, fresh_for, data_refresh_interval, condition_host_client_not_ready,
  condition_probe_completed,
}

-- client.IgnoreNotFound
abbrev pub ignore_not_found : {S O : Type 0} → Error → M S O Result
ignore_not_found (not_found m) = pure done
ignore_not_found e = raise e

-- What Get and the store of hosts answer.
pub record Sources (O : Type 0) : Type 0 where
  pub get : Outcome O
  pub requirement : String → String → Outcome (Unit {0})
  pub get_host : NamespacedName → Outcome Host
  pub hosts : HostStore

module _ {S O : Type 0} (src : Sources O) (reconcile_object : O → M S O Result) where
  abbrev loaded : Attempt O → M S O Result
  loaded (success o) = reconcile_object o
  loaded (failure e) = ignore_not_found e

  abbrev pub load : M S O Result
  load = attempt (lift src.get) >>= loaded

-- The texts that differ between the kinds.
pub record Texts : Type 0 where
  pub in_use : String
  pub not_exist : String
  pub active : String
  pub not_active : String

module _ {S Spec St : Type 0} (k : Machinery) (v : Server (Resource Spec St)) (texts : Texts) where
  -- A resource with users is kept, with a condition that says so; another loses its finalizer.
  unfoldable pub release : ℕ → Resource Spec St → M S (Resource Spec St) Result
  release users r =
      if ltb 0 users
      then set_status_condition k v r deletion_prevented status_true texts.in_use in_use
        >> pure requeue
      else drop_finalizer k v finalizer r >> pure done

  -- The Ready condition after a probe: the object exists on the host, and is active there.
  unfoldable pub report_ready :
      Bool → Bool → Resource Spec St → M S (Resource Spec St) (Resource Spec St)
  report_ready exists is_active r =
      if not exists
      then set_status_condition k v r ready status_false texts.not_exist not_exist
      else if is_active
      then set_status_condition k v r ready status_true texts.active active
      else set_status_condition k v r ready status_false texts.not_active not_active

  not_ready : Resource Spec St → M S (Resource Spec St) Result
  not_ready r =
      set_status_condition k v r probed status_false condition_host_client_not_ready
        unmet_requirements
      >> pure requeue

-- What a kind does with the host: the probe, what it says, and the status that it gives.
pub record Probing (S P Spec St : Type 0) : Type 0 where
  pub probe : String → S → Outcome P
  pub exists : P → Bool
  pub active : P → Bool
  pub store : P → St → St
  pub resource_name : Resource Spec St → String
  pub host_name : Resource Spec St → String
  pub failure_text : Error → String

module _ {S P Spec St : Type 0} (k : Machinery) (v : Server (Resource Spec St)) (texts : Texts)
    (src : Sources (Resource Spec St)) (pr : Probing S P Spec St) where
  -- After a probe that succeeded.
  unfoldable pub report : Resource Spec St → P → M S (Resource Spec St) Result
  report r p = do
    ready_set ← report_ready k v texts (pr.exists p) (pr.active p) r
    let stored = record ready_set { status = pr.store p ready_set.status }
    probed_set ←
        set_status_condition k v stored probed status_true condition_probe_completed completed
    _ ← ensure_label k v host_label (pr.host_name probed_set) probed_set
    pure (requeue_after data_refresh_interval)

  reported : Resource Spec St → Attempt P → M S (Resource Spec St) Result
  reported r (failure e) =
      set_status_condition k v r probed status_false (pr.failure_text e) error >> raise e
  reported r (success p) = report r p

  probe_host : Resource Spec St → Outcome HostEntry → M S (Resource Spec St) Result
  unfolding reported
  probe_host r (ok e) = attempt (query (pr.probe (pr.resource_name r))) >>= reported r
  probe_host r (err e) = not_ready k v texts r
  probe_host r panic = lift panic
  probe_host r hang = lift hang

  with_entry : Resource Spec St → Option HostEntry → M S (Resource Spec St) Result
  unfolding not_ready probe_host
  with_entry r none = not_ready k v texts r
  with_entry r (some e) = probe_host r (session 0 e)

  with_host : Resource Spec St → Attempt Host → M S (Resource Spec St) Result
  unfolding with_entry
  with_host r (failure e) =
      set_status_condition k v r probed status_false (error_text e) unmet_requirements >> raise e
  with_host r (success h) = with_entry r (lookup_entry h.meta.uid src.hosts)

  refresh : NamespacedName → Resource Spec St → M S (Resource Spec St) Result
  unfolding with_host
  refresh ref r = do
    due ← set_status_condition k v r probed status_false "New probe required" required
    h ← attempt (lift (src.get_host ref))
    with_host due h

  -- The part of Reconcile for an object that is not being deleted.
  unfoldable pub refresh_if_due : NamespacedName → Resource Spec St → M S (Resource Spec St) Result
  unfolding refresh
  refresh_if_due ref r = elim (fresh_for k.now (k.find_status_condition r.conditions probed)) [
    | some left ↦ pure (requeue_after left)
    | none ↦ refresh ref r
  ]
