-- ===== src/Controller/PciDevice/Deletion.antt =====
-- When a PCI device loses its finalizer.
use libvirt_operator.Prelude.{String, true, List, [], ◌∷◌, ◌++◌, ◌≡◌, ◌≢◌, arith, length}
use Prim.Native.String.{◌++◌ as str_append}
use libvirt_operator.Outcome.{Outcome, ok, or_empty}
use libvirt_operator.Host.{Client}
use libvirt_operator.Host.Monad.{World, update}
use libvirt_operator.Api.{finalizer, pci_passthrough_label_prefix}
use libvirt_operator.Api.Kinds.{PciDevice}
use libvirt_operator.Controller.Base.{Machinery, Casts, Server, updates}
use libvirt_operator.Controller.Probed.{Sources}
use libvirt_operator.Controller.Probed.Release.{released, release_used, release_unused}
use libvirt_operator.Controller.PciDevice.{
  pci_device_texts, delete_pci_device, reconcile_pci_device,
}

module _ {S : Type 0} (c : Client S) (k : Machinery) (casts : Casts) (v : Server PciDevice)
    (src : Sources PciDevice) (domains : String → String → Outcome (List String)) where
  -- A run for a PCI device that is being deleted updates it only if the list of the domains that have its
  -- label was read and is empty.
  pub pci_device_update_unused :
      (r : PciDevice) (w : World S PciDevice)
      → r.meta.deleting ≡ true
      → updates (reconcile_pci_device c k casts v src domains r w).1.log ≢ updates w.log
      → domains (str_append pci_passthrough_label_prefix (str_append "/" r.meta.name)) "" ≡ ok []
  unfolding reconcile_pci_device delete_pci_device
  pci_device_update_unused r w d changed = ground (
    arith,
    release_used k v pci_device_texts
        (length (
          or_empty
            (domains (str_append pci_passthrough_label_prefix (str_append "/" r.meta.name)) "")))
        r w,
  )

  -- A PCI device that is being deleted, holds the finalizer and is in no domain is updated once, without the
  -- finalizer, and the run makes no other change.
  pub pci_device_released :
      (r : PciDevice) (w : World S PciDevice)
      → r.meta.deleting ≡ true
      → k.contains_finalizer r.meta.finalizers finalizer ≡ true
      → src.requirement (str_append pci_passthrough_label_prefix (str_append "/" r.meta.name)) ""
        ≡ ok tt
      → domains (str_append pci_passthrough_label_prefix (str_append "/" r.meta.name)) "" ≡ ok []
      → (reconcile_pci_device c k casts v src domains r w).1.log
        ≡ w.log ++ update (released k r) ∷ []
  unfolding reconcile_pci_device delete_pci_device
  pci_device_released r w d f q vs = ground (arith, release_unused k v pci_device_texts r w)
