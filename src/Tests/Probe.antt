-- ===== src/Tests/Probe.antt =====
-- The probe of a host with two cells that tell their CPUs and one that does not.
use libvirt_operator.Prelude.{ℕ, [], ◌∷◌, ◌≡◌, some, none, refl}
use libvirt_operator.Outcome.{ok}
use libvirt_operator.Libvirt.{
  Caps, MemoryField, MemoryStat, stats_total, stats_free, stats_buffers, stats_cached,
}
use libvirt_operator.Host.{Client}
use libvirt_operator.Util.Bytes.{convert_to_bytes, unit_bytes}
use libvirt_operator.Probe.{HostProbe, new_host_probe}
use libvirt_operator.Probe.Totals.{new_host_probe-sums}
use libvirt_operator.Tests.Fixtures.{machine}

abbrev stat : MemoryField → ℕ → MemoryStat
stat field value = record { field = field; value = value }

abbrev numa_caps : Caps
numa_caps = record {
  arch = some "x86_64";
  numa = some (some (record { num = 3; cells = some 4 ∷ none ∷ some 8 ∷ [] }));
}

abbrev numa_machine : Client ℕ
numa_machine = record machine {
  unmarshal_caps = λ xml. ok numa_caps;
  node_get_memory_stats = λ s.
      ok (
        stat stats_total 100
        ∷ stat stats_free 10
        ∷ stat stats_buffers 5
        ∷ stat stats_cached 7
        ∷ []);
}

new_host_probe-sums_example :
    (p : HostProbe) × (new_host_probe numa_machine 0 ≡ ok p)
    × (p.cpus ≡ 12)
    × (p.memory_free ≡ 22000)
unfolding convert_to_bytes unit_bytes
new_host_probe-sums_example =
    new_host_probe-sums numa_machine 0 "caps" numa_caps (stat stats_total 100 ∷ [])
      (stat stats_buffers 5 ∷ stat stats_cached 7 ∷ []) 10 refl refl refl refl
