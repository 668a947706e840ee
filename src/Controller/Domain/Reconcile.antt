-- ===== src/Controller/Domain/Reconcile.antt =====
-- DomainReconciler.Reconcile of internal/controller/domain.go, stage by stage.
use libvirt_operator.Prelude.{ℕ, String, Bool, not, Option, none, some, is_set, if◌then◌else◌}
use libvirt_operator.Outcome
use libvirt_operator.Outcome.{Outcome, Error, ok, err, panic, hang, error_text}
use libvirt_operator.Host.{Client}
use libvirt_operator.Host.Monad.{
  M, Attempt, success, failure, pure, raise, lift, attempt, ◌>>=◌, ◌>>◌,
}
use libvirt_operator.Api.{
  finalizer, ready, status_true, status_false, unmet_requirements, created, error, host_label,
}
use libvirt_operator.Api.Kinds.{Host}
use libvirt_operator.Api.Domain.{Domain, domain_host_ref}
use libvirt_operator.Store.Host.{HostEntry, lookup_entry, session}
use libvirt_operator.Action
use libvirt_operator.Action.Domain.State.{DomainAction, new_domain_action, start}
use libvirt_operator.Action.Domain.Setup.{set_vcpu, set_memory}
use libvirt_operator.Action.Domain.Shutdown.{shutdown}
use libvirt_operator.Controller.Base.{
  Machinery, Casts, Server, Result, done, requeue, set_status_condition, ensure_finalizer,
  drop_finalizer, ensure_label, condition_creation_succeeded, condition_host_client_not_ready,
}
use libvirt_operator.Controller.Probed.{ignore_not_found}
use libvirt_operator.Controller.Domain.{
  Env, Progress, waiting, going, continue, attach_volumes, attach_networks, attach_devices,
  attach_cloud_init, configured,
}

module _ {S : Type 0} (c : Client S) (k : Machinery) (casts : Casts) (v : Server Domain) (env : Env)
    (rounds : ℕ) where
  unfoldable pub note_unready : Domain → String → M S Domain Domain
  note_unready d text =
      if k.is_status_condition_true d.conditions ready
      then pure d
      else set_status_condition k v d ready status_false text unmet_requirements

  unfoldable pub undefine : Bool → Bool → DomainAction → M S Domain (Unit {0})
  undefine exists shutoff a =
      if not exists
      then pure tt
      else if shutoff
      then Action.Domain.State.delete c a
      else shutdown c a >> Action.Domain.State.delete c a

  unfoldable pub delete_stage : Bool → Bool → Domain → DomainAction → M S Domain Result
  delete_stage exists shutoff d a =
      if k.contains_finalizer d.meta.finalizers finalizer
      then undefine exists shutoff a >> drop_finalizer k v finalizer d >> pure done
      else pure done

  -- A domain that exists is brought into the state that its spec asks for.
  unfoldable pub power : Bool → Bool → DomainAction → M S Domain (Unit {0})
  power want_off shutoff a =
      if want_off
      then if shutoff then pure tt else shutdown c a
      else if shutoff
      then start c a
      else pure tt

  unfoldable pub report_created : Domain → M S Domain Domain
  report_created d =
      if k.is_status_condition_true d.conditions ready
      then pure d
      else set_status_condition k v d ready status_true condition_creation_succeeded created

  unfoldable pub after_define : Host → Domain → Attempt DomainAction → M S Domain Result
  after_define host d (failure e) =
      set_status_condition k v d ready status_false (error_text e) error >> raise e
  after_define host d (success a) = do
    d' ← ensure_label k v host_label host.meta.name d
    if is_set d'.spec.shutoff then pure tt else start c a
    set_status_condition k v d' ready status_true condition_creation_succeeded created
    pure done

  unfoldable pub define : Host → Progress → M S Domain Result
  define host waiting = pure requeue
  define host (going d a) = attempt (Action.Domain.State.create c a) >>= after_define host d

  -- The definition is complete before the host is asked to take it.
  unfoldable pub fill : Domain → DomainAction → M S Domain Progress
  fill d a =
      attach_volumes c k casts v env rounds d.spec.disks d a
      >>= continue c k casts v env rounds (attach_networks c k casts v env rounds d.spec.interfaces)
      >>= continue c k casts v env rounds
          (attach_devices c k casts v env rounds d.spec.pci_passthrough)
      >>= continue c k casts v env rounds (configured c k casts v env rounds)
      >>= continue c k casts v env rounds
          (attach_cloud_init c k casts v env rounds d.spec.cloud_init)

  unfoldable pub sized : Domain → DomainAction → Outcome DomainAction
  sized d a =
      Outcome.◌>>=◌ (set_vcpu (casts.to_uint d.spec.vcpu_value) a)
        (set_memory (casts.to_uint d.spec.memory_value) d.spec.memory_unit)

  unfoldable pub create_stage : Host → Domain → DomainAction → M S Domain Result
  create_stage host d a = do b ← lift (sized d a); progress ← fill d b; define host progress

  unfoldable pub live_stage : Host → Bool → Bool → Domain → DomainAction → M S Domain Result
  live_stage host exists shutoff d a =
      if exists
      then report_created d >>= (λ d'. power (is_set d'.spec.shutoff) shutoff a >> pure done)
      else create_stage host d a

  unfoldable pub act : Host → Domain → DomainAction → M S Domain Result
  act host d a =
      let (exists, shutoff) = Action.Domain.State.state a in
      if d.meta.deleting
      then delete_stage exists shutoff d a
      else ensure_finalizer k v finalizer d >>= (λ d'. live_stage host exists shutoff d' a)

  unfoldable pub host_not_ready : Domain → M S Domain Result
  host_not_ready d = note_unready d condition_host_client_not_ready >> pure requeue

  unfoldable pub with_session : Host → Domain → Outcome HostEntry → M S Domain Result
  with_session host d (ok e) = new_domain_action c d.spec.name >>= act host d
  with_session host d (err e) = host_not_ready d
  with_session host d panic = lift panic
  with_session host d hang = lift hang

  unfoldable pub with_entry : Host → Domain → Option HostEntry → M S Domain Result
  with_entry host d none = host_not_ready d
  with_entry host d (some e) = with_session host d (session 0 e)

  unfoldable pub with_host : Domain → Attempt Host → M S Domain Result
  with_host d (failure e) = note_unready d (error_text e) >> raise e
  with_host d (success host) = with_entry host d (lookup_entry host.meta.uid env.hosts)

  unfoldable pub reconcile_domain : Domain → M S Domain Result
  reconcile_domain d = attempt (lift (env.get_host (domain_host_ref d))) >>= with_host d

  loaded : Attempt Domain → M S Domain Result
  loaded (success d) = reconcile_domain d
  loaded (failure e) = ignore_not_found e

  unfoldable pub reconcile : M S Domain Result
  unfolding loaded
  reconcile = attempt (lift env.get) >>= loaded
