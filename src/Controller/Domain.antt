-- ===== src/Controller/Domain.antt =====
-- DomainReconciler of internal/controller/domain.go: the environment, and how a new domain's definition
-- is filled from its spec. Reconcile stands in Reconcile.
pub mod Reconcile
pub mod Creation
pub mod Deletion
pub mod Boot
use libvirt_operator.Prelude.{
  ℕ, String, Bool, true, false, not, List, [], ◌∷◌, Option, none, some, is_set, if◌then◌else◌,
  str_eq,
}
use Prim.Native.String.{◌++◌}
use libvirt_operator.Outcome
use libvirt_operator.Outcome.{Outcome, ok, message, deref}
use libvirt_operator.Host.{Client}
use libvirt_operator.Host.Monad.{M, pure, raise, lift, query, ◌>>=◌, ◌>>◌}
use libvirt_operator.Api.{
  NamespacedName, ready, status_false, unmet_requirements, disk_label_prefix,
  interface_label_prefix, pci_passthrough_label_prefix, cloud_init_label,
}
use libvirt_operator.Api.Kinds.{Host, Volume, Network, PciDevice, PciDeviceAddress}
use libvirt_operator.Api.CloudInit.{CloudInit}
use libvirt_operator.Api.Domain.{
  Domain, DiskRef, InterfaceRef, CpuSpec, domain_volume_ref, domain_network_ref,
  domain_pci_device_ref, domain_cloud_init_ref,
}
use libvirt_operator.Store.Host.{HostStore}
use libvirt_operator.Action.Domain.State.{DomainAction}
use libvirt_operator.Action.Domain.Setup.{
  set_vcpu_placement, set_cpu_mode, set_cpu_cache_mode, set_numatune_mode, set_scsi_multiqueue,
  set_uefi, set_no_secure_boot, add_interface, add_pci_passthrough,
}
use libvirt_operator.Action.Domain.Disk.{add_disk}
use libvirt_operator.Controller.Base.{Machinery, Casts, Server, set_status_condition, ensure_label}

abbrev pub err_volume_not_same_host : String
err_volume_not_same_host = "all volumes must exist in pools on the same host as the domain"

abbrev pub err_network_not_same_host : String
err_network_not_same_host = "all networks must be on the same host as the domain"

abbrev pub err_pci_device_not_same_host : String
err_pci_device_not_same_host = "all pci devices must be on the same host as the domain"

abbrev pub err_volume_not_ready : String
err_volume_not_ready = "volume is not ready"

abbrev pub err_network_not_ready : String
err_network_not_ready = "network is not ready"

abbrev pub err_pci_device_not_ready : String
err_pci_device_not_ready = "pci device is not ready"

-- What the API server and the store of hosts answer.
pub record Env : Type 0 where
  pub get : Outcome Domain
  pub get_host : NamespacedName → Outcome Host
  pub get_volume : NamespacedName → Outcome Volume
  pub get_network : NamespacedName → Outcome Network
  pub get_pci_device : NamespacedName → Outcome PciDevice
  pub get_cloud_init : NamespacedName → Outcome CloudInit
  pub hosts : HostStore

-- A step of the creation either goes on with the object and the action, or ends the run, which asks
-- for another one.
pub data Progress : Type 0 where
  waiting : Progress
  going : Domain → DomainAction → Progress

abbrev optional : {A B : Type 0} → (A → B → Outcome B) → Option A → B → Outcome B
optional f none b = ok b
optional f (some a) b = f a b

-- A pointer to false.
abbrev pub is_unset : Option Bool → Bool
is_unset (some false) = true
is_unset _ = false

set_cpu : Option CpuSpec → DomainAction → Outcome DomainAction
set_cpu none a = ok a
set_cpu (some cpu) a =
    Outcome.◌>>=◌ (optional (λ m b. ok (set_cpu_mode m b)) cpu.mode a)
      (optional (λ m b. ok (set_cpu_cache_mode m b)) cpu.cache_mode)

-- The options that need no other object.
unfoldable pub configure : Casts → Domain → DomainAction → Outcome DomainAction
unfolding set_cpu
configure casts d a =
    Outcome.◌>>=◌ (optional (λ q. set_scsi_multiqueue (casts.to_uint q)) d.spec.scsi_queues a)
      (λ a1.
        Outcome.◌>>=◌ (optional (λ m b. ok (set_numatune_mode m b)) d.spec.numatune_mode a1) (λ a2.
          Outcome.◌>>=◌ (if is_set d.spec.uefi then set_uefi a2 else ok a2) (λ a3.
            Outcome.◌>>=◌ (if is_unset d.spec.secure_boot then set_no_secure_boot a3 else ok a3)
              (λ a4.
                Outcome.◌>>=◌ (optional set_vcpu_placement d.spec.vcpu_placement a4)
                  (set_cpu d.spec.cpu)))))

cast_queues : Casts → Option ℕ → Option ℕ
cast_queues casts none = none
cast_queues casts (some q) = some (casts.to_uint q)

module _ {S : Type 0} (c : Client S) (k : Machinery) (casts : Casts) (v : Server Domain) (env : Env)
    (rounds : ℕ) where
  unfoldable pub wait_for : String → Domain → M S Domain Progress
  wait_for text d =
      set_status_condition k v d ready status_false text unmet_requirements >> pure waiting

  unfoldable pub go_labelled : String → String → Domain → DomainAction → M S Domain Progress
  go_labelled key value d a = ensure_label k v key value d >>= (λ d'. pure (going d' a))

  unfoldable pub continue :
      (Domain → DomainAction → M S Domain Progress) → Progress → M S Domain Progress
  continue next waiting = pure waiting
  continue next (going d a) = next d a

  unfoldable pub attach_volume : Domain → DomainAction → DiskRef → Volume → M S Domain Progress
  attach_volume d a disk vol =
      if not (k.is_status_condition_true vol.conditions ready)
      then wait_for err_volume_not_ready d
      else if not (str_eq vol.status.host d.spec.host_ref)
      then raise (message err_volume_not_same_host)
      else query (λ s. add_disk c s rounds vol.spec.name vol.status.pool disk.wwn none a)
        >>= go_labelled (disk_label_prefix ++ "/" ++ vol.meta.name) "" d

  unfoldable pub attach_volumes : List DiskRef → Domain → DomainAction → M S Domain Progress
  attach_volumes [] d a = pure (going d a)
  attach_volumes (disk ∷ disks) d a =
      lift (env.get_volume (domain_volume_ref d disk))
      >>= attach_volume d a disk
      >>= continue (attach_volumes disks)

  unfoldable pub attach_network :
      Domain → DomainAction → InterfaceRef → Network → M S Domain Progress
  unfolding cast_queues
  attach_network d a i n =
      if not (str_eq n.spec.host_ref d.spec.host_ref)
      then raise (message err_network_not_same_host)
      else if not (k.is_status_condition_true n.conditions ready)
      then wait_for err_network_not_ready d
      else lift (add_interface n.spec.name (cast_queues casts i.queues) i.mac_address a)
        >>= go_labelled (interface_label_prefix ++ "/" ++ n.meta.name) "" d

  unfoldable pub attach_networks : List InterfaceRef → Domain → DomainAction → M S Domain Progress
  attach_networks [] d a = pure (going d a)
  attach_networks (i ∷ is) d a =
      lift (env.get_network (domain_network_ref d i))
      >>= attach_network d a i
      >>= continue (attach_networks is)

  add_device : PciDeviceAddress → DomainAction → Outcome DomainAction
  add_device at a =
      add_pci_passthrough (casts.to_uint at.domain) (casts.to_uint at.bus) (casts.to_uint at.slot)
        (casts.to_uint at.function) a

  unfoldable pub attach_device : Domain → DomainAction → PciDevice → M S Domain Progress
  unfolding add_device
  attach_device d a p =
      if not (str_eq p.spec.host_ref d.spec.host_ref)
      then raise (message err_pci_device_not_same_host)
      else if not (k.is_status_condition_true p.conditions ready)
      then wait_for err_pci_device_not_ready d
      else lift (Outcome.◌>>=◌ (deref p.status) (λ at. add_device at a))
        >>= go_labelled (pci_passthrough_label_prefix ++ "/" ++ p.meta.name) "" d

  unfoldable pub attach_devices : List String → Domain → DomainAction → M S Domain Progress
  attach_devices [] d a = pure (going d a)
  attach_devices (p ∷ ps) d a =
      lift (env.get_pci_device (domain_pci_device_ref d p))
      >>= attach_device d a
      >>= continue (attach_devices ps)

  unfoldable pub attach_image : Domain → DomainAction → CloudInit → M S Domain Progress
  attach_image d a ci =
      if not (k.is_status_condition_true ci.conditions ready)
      then wait_for err_volume_not_ready d
      else if not (str_eq ci.status.host d.spec.host_ref)
      then raise (message err_volume_not_same_host)
      else query (λ s. add_disk c s rounds ci.spec.name ci.status.pool none (some true) a)
        >>= go_labelled cloud_init_label ci.meta.name d

  unfoldable pub attach_cloud_init :
      Option (Option String) → Domain → DomainAction → M S Domain Progress
  attach_cloud_init none d a = pure (going d a)
  attach_cloud_init (some ref) d a =
      lift (Outcome.◌>>=◌ (domain_cloud_init_ref d ref) env.get_cloud_init) >>= attach_image d a

  unfoldable pub configured : Domain → DomainAction → M S Domain Progress
  configured d a = lift (configure casts d a) >>= (λ a'. pure (going d a'))
