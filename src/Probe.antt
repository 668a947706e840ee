-- ===== src/Probe.antt =====
-- internal/probe: what the operator reads of a host, a pool, a network and a PCI device. A probe only
-- reads the host, so each is a function of the host's state.
pub mod Totals
use libvirt_operator.Prelude.{
  ℕ, String, Bool, true, false, List, [], ◌∷◌, Option, none, some, or_else, ltb, ◌==◌, ◌+◌, ◌%◌,
  if◌then◌else◌,
}
use libvirt_operator.Outcome.{
  Outcome, Code, ok, err, panic, hang, message, has_code, err_no_storage_pool, err_no_network,
  err_no_node_device, ◌>>=◌,
}
use libvirt_operator.Libvirt.{
  PoolState, pool_running, PciCapability, NumaCells, stats_total, stats_free, stats_buffers,
  stats_cached, stats_other, MemoryStat,
}
use libvirt_operator.Host.{Client}
use libvirt_operator.Util.Bytes.{convert_to_bytes, u64_mod}

-- The beginning of three probes: an object that libvirt does not know gives the empty probe.
abbrev or_missing : {A B : Type 0} → Code → B → (A → Outcome B) → Outcome A → Outcome B
or_missing c missing found (ok a) = found a
or_missing c missing found (err e) = if has_code c e then ok missing else err e
or_missing c missing found panic = panic
or_missing c missing found hang = hang

pub record PoolProbe : Type 0 where
  pub exists : Bool
  pub active : Bool
  pub capacity : ℕ
  pub allocation : ℕ
  pub available : ℕ

abbrev pub no_pool : PoolProbe
no_pool = record { exists = false; active = false; capacity = 0; allocation = 0; available = 0 }

abbrev pub is_running : PoolState → Bool
is_running pool_running = true
is_running _ = false

pub record NetworkProbe : Type 0 where
  pub active : Bool
  pub exists : Bool

pub record PciDeviceProbe : Type 0 where
  pub exists : Bool
  pub active : Bool
  pub domain : ℕ
  pub bus : ℕ
  pub slot : ℕ
  pub function : ℕ

abbrev pub no_device : PciDeviceProbe
no_device = record { exists = false; active = false; domain = 0; bus = 0; slot = 0; function = 0 }

pub record HostProbe : Type 0 where
  pub arch : String
  pub cpus : ℕ
  pub memory_total : ℕ
  pub memory_free : ℕ
  pub numa : Bool

address : Bool → Option ℕ → Option ℕ → Option ℕ → Option ℕ → Outcome PciDeviceProbe
address active (some d) (some b) (some s) (some f) =
    ok (record { exists = true; active = active; domain = d; bus = b; slot = s; function = f })
address _ _ _ _ _ = err (message "address could not be read")

-- The address, where all four parts are given.
unfoldable pub pci_address : Bool → PciCapability → Outcome PciDeviceProbe
unfolding address
pci_address active pci = address active pci.domain pci.bus pci.slot pci.function

or_not_pci : Option PciCapability → Outcome PciCapability
or_not_pci none = err (message "is not a pci device")
or_not_pci (some pci) = ok pci

module _ {S : Type 0} (c : Client S) (s : S) where
  unfoldable pub new_pool_probe : String → Outcome PoolProbe
  new_pool_probe name =
      or_missing err_no_storage_pool no_pool
        (λ pool. c.storage_pool_get_info pool s >>= (λ info. ok (record {
          exists = true;
          active = is_running info.state;
          capacity = info.capacity;
          allocation = info.allocation;
          available = info.available;
        })))
        (c.storage_pool_lookup_by_name name s)

  unfoldable pub new_network_probe : String → Outcome NetworkProbe
  new_network_probe name =
      or_missing err_no_network (record { active = false; exists = false })
        (λ network.
          c.network_is_active network s
          >>= (λ active. ok (record { active = active == 1; exists = true })))
        (c.network_lookup_by_name name s)

  device_probe : String → Outcome PciDeviceProbe
  unfolding or_not_pci
  device_probe name = do
    active ← c.node_device_is_active name s
    xml ← c.node_device_get_xml_desc name s
    dev ← c.unmarshal_node_device xml
    pci ← or_not_pci dev
    pci_address (active == 1) pci

  unfoldable pub new_pci_device_probe : String → Outcome PciDeviceProbe
  unfolding device_probe
  new_pci_device_probe name =
      or_missing err_no_node_device no_device (λ _. device_probe name)
        (c.node_device_lookup_by_name name s)

abbrev pub uint : ℕ → ℕ
uint n = n % u64_mod

unfoldable pub count_cpus : ℕ → List (Option ℕ) → ℕ
count_cpus n [] = n
count_cpus n (none ∷ cells) = count_cpus n cells
count_cpus n (some cpus ∷ cells) = count_cpus (uint (n + cpus)) cells

numa_of : Option (Option NumaCells) → Bool × ℕ
numa_of (some (some cells)) = (ltb 1 cells.num, count_cpus 0 cells.cells)
numa_of _ = (false, 0)

-- One entry of the statistics: the total and the free memory are set, buffers and cache are added.
unfoldable pub add_stat : ℕ × ℕ → MemoryStat → ℕ × ℕ
add_stat (total, free) stat =
    let bytes = convert_to_bytes stat.value "KB" in
    elim stat.field [
      | stats_total ↦ (bytes, free)
      | stats_free ↦ (total, bytes)
      | stats_buffers ↦ (total, uint (free + bytes))
      | stats_cached ↦ (total, uint (free + bytes))
      | stats_other ↦ (total, free)
    ]

unfoldable pub add_stats : ℕ × ℕ → List MemoryStat → ℕ × ℕ
add_stats m [] = m
add_stats m (stat ∷ stats) = add_stats (add_stat m stat) stats

unfoldable pub new_host_probe : {S : Type 0} → Client S → S → Outcome HostProbe
unfolding numa_of
new_host_probe c s = do
  xml ← c.capabilities s
  caps ← c.unmarshal_caps xml
  stats ← c.node_get_memory_stats s
  let (numa, cpus) = numa_of caps.numa
  let (total, free) = add_stats (0, 0) stats
  ok (record {
    arch = or_else caps.arch "unknown";
    cpus = cpus;
    memory_total = total;
    memory_free = free;
    numa = numa;
  })
