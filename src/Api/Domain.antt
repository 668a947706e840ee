-- ===== src/Api/Domain.antt =====
-- Domain of api/v1alpha1/domain_types.go with its references.
use libvirt_operator.Prelude.{ℕ, String, List, Option, Bool}
use libvirt_operator.Outcome.{Outcome, ok, deref, ◌>>=◌}
use libvirt_operator.Api.{Resource, NamespacedName}
use libvirt_operator.Api.Kinds.{reference}

pub record DiskRef : Type 0 where
  pub volume_ref : String
  pub wwn : Option String

pub record InterfaceRef : Type 0 where
  pub network_ref : String
  pub queues : Option ℕ
  pub mac_address : Option String

pub record CpuSpec : Type 0 where
  pub mode : Option String
  pub cache_mode : Option String

-- A disk, a network and a PCI device by reference; a cloud-init by a pointer to one.
pub record DomainSpec : Type 0 where
  pub name : String
  pub generate_name : String
  pub host_ref : String
  pub vcpu_value : ℕ
  pub vcpu_placement : Option String
  pub cpu : Option CpuSpec
  pub memory_unit : String
  pub memory_value : ℕ
  pub scsi_queues : Option ℕ
  pub disks : List DiskRef
  pub interfaces : List InterfaceRef
  pub cloud_init : Option (Option String)
  pub numatune_mode : Option String
  pub pci_passthrough : List String
  pub uefi : Option Bool
  pub secure_boot : Option Bool
  pub shutoff : Option Bool

abbrev pub Domain : Type 0
Domain = Resource DomainSpec (Unit {0})

unfoldable pub domain_host_ref : Domain → NamespacedName
domain_host_ref d = reference d d.spec.host_ref

unfoldable pub domain_volume_ref : Domain → DiskRef → NamespacedName
domain_volume_ref d disk = reference d disk.volume_ref

unfoldable pub domain_network_ref : Domain → InterfaceRef → NamespacedName
domain_network_ref d i = reference d i.network_ref

unfoldable pub domain_pci_device_ref : Domain → String → NamespacedName
domain_pci_device_ref d name = reference d name

unfoldable pub domain_cloud_init_ref : Domain → Option String → Outcome NamespacedName
domain_cloud_init_ref d ref = do name ← deref ref; ok (reference d name)
