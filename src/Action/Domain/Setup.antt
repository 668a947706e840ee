-- ===== src/Action/Domain/Setup.antt =====
-- The setters of internal/action/domain.go. One that writes through a nil pointer panics.
use libvirt_operator.Prelude.{
  ℕ, String, ◌&&◌, [], ◌∷◌, ◌++◌, map, Option, none, some, or_else, if◌then◌else◌, str_eq,
}
use libvirt_operator.Outcome.{Outcome, ok, deref, ◌>>=◌}
use libvirt_operator.Libvirt.{
  DomainCpu, DomainController, DomainInterface, DomainHostdev, DomainDeviceList,
}
use libvirt_operator.Action.Domain.State.{DomainAction}

abbrev pub with_devices : DomainAction → DomainDeviceList → DomainAction
with_devices a ds = let d = a.def in record a { def = record d { devices = some ds } }

unfoldable pub set_vcpu : ℕ → DomainAction → Outcome DomainAction
set_vcpu value a = do
  v ← deref a.def.vcpu
  let d = a.def
  ok (record a { def = record d { vcpu = some (record v { value = value }) } })

unfoldable pub set_vcpu_placement : String → DomainAction → Outcome DomainAction
set_vcpu_placement placement a = do
  v ← deref a.def.vcpu
  let d = a.def
  ok (record a { def = record d { vcpu = some (record v { placement = placement }) } })

unfoldable pub set_memory : ℕ → String → DomainAction → Outcome DomainAction
set_memory value unit a = do
  m ← deref a.def.memory
  let d = a.def
  ok (record a { def = record d { memory = some (record m { value = value; unit = unit }) } })

abbrev new_cpu : DomainCpu
new_cpu = record { mode = ""; cache = none }

unfoldable pub set_cpu_mode : String → DomainAction → DomainAction
set_cpu_mode mode a =
    let d = a.def in
    let cpu = or_else d.cpu new_cpu in
    record a { def = record d { cpu = some (record cpu { mode = mode }) } }

unfoldable pub set_cpu_cache_mode : String → DomainAction → DomainAction
set_cpu_cache_mode mode a =
    let d = a.def in
    let cpu = or_else d.cpu new_cpu in
    record a { def = record d { cpu = some (record cpu { cache = some mode }) } }

unfoldable pub set_numatune_mode : String → DomainAction → DomainAction
set_numatune_mode mode a = let d = a.def in record a { def = record d { numatune = some mode } }

-- The loop's variable is a copy, but the queues are written through its Driver pointer.
unfoldable pub set_queues : ℕ → DomainController → DomainController
set_queues queues c =
    if str_eq c.type_ "scsi" && str_eq c.model "virtio-scsi"
    then record c { queues = some queues }
    else c

unfoldable pub set_scsi_multiqueue : ℕ → DomainAction → Outcome DomainAction
set_scsi_multiqueue queues a = do
  ds ← deref a.def.devices
  ok (with_devices a (record ds { controllers = map (set_queues queues) ds.controllers }))

unfoldable pub set_uefi : DomainAction → Outcome DomainAction
set_uefi a = do
  os ← deref a.def.os
  let d = a.def
  ok (record a { def = record d { os = some (record os { firmware = "efi" }) } })

unfoldable pub set_no_secure_boot : DomainAction → Outcome DomainAction
set_no_secure_boot a = do
  os ← deref a.def.os
  let d = a.def
  ok (record a { def = record d { os = some (record os { loader_secure = some "no" }) } })

unfoldable pub add_interface :
    String → Option ℕ → Option String → DomainAction → Outcome DomainAction
add_interface network queues mac a = do
  ds ← deref a.def.devices
  let i : DomainInterface = record {
    driver = "vhost";
    queues = or_else queues 0;
    model = "virtio";
    network = network;
    mac = mac;
  }
  ok (with_devices a (record ds { interfaces = ds.interfaces ++ i ∷ [] }))

unfoldable pub add_pci_passthrough : ℕ → ℕ → ℕ → ℕ → DomainAction → Outcome DomainAction
add_pci_passthrough domain bus slot function a = do
  ds ← deref a.def.devices
  let h : DomainHostdev = record {
    managed = "yes";
    driver = "vfio";
    domain = domain;
    bus = bus;
    slot = slot;
    function = function;
  }
  ok (with_devices a (record ds { hostdevs = ds.hostdevs ++ h ∷ [] }))
