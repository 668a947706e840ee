-- ===== src/Controller/PciDevice.antt =====
-- PciDeviceReconciler of internal/controller/pcidevice.go.
pub mod Deletion
use libvirt_operator.Prelude.{ℕ, String, List, Option, none, some, length, if◌then◌else◌}
use Prim.Native.String.{◌++◌}
use libvirt_operator.Outcome.{Outcome, error_text}
use libvirt_operator.Host.{Client}
use libvirt_operator.Host.Monad.{M, pure, lift, ◌>>=◌, ◌>>◌}
use libvirt_operator.Api.{finalizer, pci_passthrough_label_prefix}
use libvirt_operator.Api.Kinds.{PciDevice, HostedSpec, PciDeviceAddress, pci_device_host_ref}
use libvirt_operator.Probe.{PciDeviceProbe, new_pci_device_probe}
use libvirt_operator.Controller.Base.{Machinery, Casts, Server, Result, done, ensure_finalizer}
use libvirt_operator.Controller.Probed.{Sources, Texts, Probing, load, release, refresh_if_due}

abbrev pub pci_device_texts : Texts
pci_device_texts = record {
  in_use = "PCI device is currently in use by domain";
  not_exist = "PCI device does not exist";
  active = "PCI device is active";
  not_active = "PCI device is not active";
}

unfoldable pub pci_device_address : Casts → PciDeviceProbe → PciDeviceAddress
pci_device_address casts p = record {
  domain = casts.to_int32 p.domain;
  bus = casts.to_int32 p.bus;
  slot = casts.to_int32 p.slot;
  function = casts.to_int32 p.function;
}

abbrev pub pci_device_probing :
    {S : Type 0} → Client S → Casts → Probing S PciDeviceProbe HostedSpec (Option PciDeviceAddress)
pci_device_probing c casts = record {
  probe = λ name s. new_pci_device_probe c s name;
  exists = λ p. p.exists;
  active = λ p. p.active;
  store = λ p _. some (pci_device_address casts p);
  resource_name = λ r. r.spec.name;
  host_name = λ r. r.spec.host_ref;
  failure_text = λ e. "Probe could not be completed: " ++ error_text e;
}

-- `domains` lists the names of the domains that a label selector finds.
module _ {S : Type 0} (c : Client S) (k : Machinery) (casts : Casts) (v : Server PciDevice)
    (src : Sources PciDevice) (domains : String → String → Outcome (List String)) where
  unfoldable pub delete_pci_device : PciDevice → M S PciDevice Result
  delete_pci_device r =
      if k.contains_finalizer r.meta.finalizers finalizer
      then (do
        lift (src.requirement (pci_passthrough_label_prefix ++ "/" ++ r.meta.name) "")
        users ← lift (domains (pci_passthrough_label_prefix ++ "/" ++ r.meta.name) "")
        release k v pci_device_texts (length users) r)
      else pure done

  unfoldable pub reconcile_pci_device : PciDevice → M S PciDevice Result
  reconcile_pci_device r =
      if r.meta.deleting
      then delete_pci_device r
      else ensure_finalizer k v finalizer r >>= (λ r'.
        refresh_if_due k v pci_device_texts src (pci_device_probing c casts)
          (pci_device_host_ref r') r')

  unfoldable pub reconcile : M S PciDevice Result
  reconcile = load src reconcile_pci_device
