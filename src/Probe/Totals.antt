-- ===== src/Probe/Totals.antt =====
-- The numbers of NewHostProbe, which loops add up in 64-bit arithmetic, as sums.
use libvirt_operator.Prelude.{
  ℕ, ◌+◌, ◌%◌, ◌<◌, String, Bool, true, false, List, [], ◌∷◌, ◌++◌, ◌≡◌, ◌∙◌, ap, refl, Option,
  none, some, any, arith, or_else,
}
use libvirt_operator.Outcome.{ok}
use libvirt_operator.Libvirt.{Caps, NumaCells, MemoryStat, stats_free, stats_buffers, stats_cached}
use libvirt_operator.Host.{Client}
use libvirt_operator.Util.Bytes.{u64_mod, convert_to_bytes, convert_to_bytes-lt}
use libvirt_operator.Probe.{
  HostProbe, uint, count_cpus, add_stat, add_stats, numa_of, new_host_probe,
}

-- The CPUs of all cells that tell theirs.
abbrev cpu_sum : List (Option ℕ) → ℕ
cpu_sum [] = 0
cpu_sum (none ∷ cells) = cpu_sum cells
cpu_sum (some n ∷ cells) = n + cpu_sum cells

abbrev cells_of : Option (Option NumaCells) → List (Option ℕ)
cells_of (some (some cells)) = cells.cells
cells_of _ = []

abbrev is_free : MemoryStat → Bool
is_free stat = elim stat.field [ stats_free ↦ true | _ ↦ false ]

-- What one entry adds to the free memory: buffers and cache, in bytes.
abbrev spare : MemoryStat → ℕ
spare stat = elim stat.field [
  | stats_buffers ↦ convert_to_bytes stat.value "KB"
  | stats_cached ↦ convert_to_bytes stat.value "KB"
  | _ ↦ 0
]

abbrev spare_sum : List MemoryStat → ℕ
spare_sum [] = 0
spare_sum (stat ∷ stats) = spare stat + spare_sum stats

count_cpus-cpu_sum :
    (n : ℕ) (cells : List (Option ℕ))
    → n < u64_mod
    → count_cpus n cells ≡ (n + cpu_sum cells) % u64_mod
unfolding count_cpus
count_cpus-cpu_sum n [] h = omega arith
count_cpus-cpu_sum n (none ∷ cells) h = count_cpus-cpu_sum n cells h
count_cpus-cpu_sum n (some c ∷ cells) h =
    omega (arith, count_cpus-cpu_sum (uint (n + c)) cells (omega arith))

numa_of-cpu_sum :
    (numa : Option (Option NumaCells)) → (numa_of numa).1 ≡ cpu_sum (cells_of numa) % u64_mod
unfolding numa_of
numa_of-cpu_sum none = omega arith
numa_of-cpu_sum (some none) = omega arith
numa_of-cpu_sum (some (some cells)) = omega (arith, count_cpus-cpu_sum 0 cells.cells (omega arith))

add_stat-spare :
    (total free : ℕ) (stat : MemoryStat)
    → is_free stat ≡ false
    → free < u64_mod
    → (add_stat (total, free) stat).1 ≡ (free + spare stat) % u64_mod
unfolding add_stat
add_stat-spare total free stat h small = ground (arith, convert_to_bytes-lt stat.value "KB")

add_stats-spare_sum :
    (total free : ℕ) (stats : List MemoryStat)
    → any is_free stats ≡ false
    → free < u64_mod
    → (add_stats (total, free) stats).1 ≡ (free + spare_sum stats) % u64_mod
unfolding add_stats
add_stats-spare_sum total free [] h small = omega arith
add_stats-spare_sum total free (stat ∷ stats) h small =
    let m = add_stat (total, free) stat in
    let head_ = add_stat-spare total free stat (ground (arith, h)) small in
    omega
      (arith, head_, add_stats-spare_sum m.0 m.1 stats (ground (arith, h)) (omega (arith, head_)))

free_resets :
    (m : ℕ × ℕ) (kb : ℕ)
    → add_stat m (record { field = stats_free; value = kb }) ≡ (m.0, convert_to_bytes kb "KB")
unfolding add_stat
free_resets m kb = refl

add_stats-append :
    (m : ℕ × ℕ) (xs ys : List MemoryStat) → add_stats m (xs ++ ys) ≡ add_stats (add_stats m xs) ys
unfolding add_stats
add_stats-append m [] ys = refl
add_stats-append m (x ∷ xs) ys = add_stats-append (add_stat m x) xs ys

module _ {S : Type 0} (c : Client S) (s : S) where
  -- A probe of a host whose calls all answer gives a result. Its CPUs are the sum of those of the NUMA
  -- cells, modulo 2^64. Its free memory is the free memory of the last such entry of the statistics
  -- and the buffers and caches that stand behind that entry, modulo 2^64, whatever stands before it.
  pub new_host_probe-sums :
      (xml : String) (caps : Caps) (before after : List MemoryStat) (kb : ℕ)
      → c.capabilities s ≡ ok xml
      → c.unmarshal_caps xml ≡ ok caps
      → c.node_get_memory_stats s ≡ ok (before ++ record { field = stats_free; value = kb } ∷ after)
      → any is_free after ≡ false
      → (p : HostProbe) × (new_host_probe c s ≡ ok p)
        × (p.cpus ≡ cpu_sum (cells_of caps.numa) % u64_mod)
        × (p.memory_free ≡ (convert_to_bytes kb "KB" + spare_sum after) % u64_mod)
  unfolding new_host_probe add_stats
  new_host_probe-sums xml caps before after kb got parsed stats last_ =
      let m = add_stats (0, 0) before in
      let bytes = convert_to_bytes kb "KB" in
      let all = before ++ record { field = stats_free; value = kb } ∷ after in
      let run =
        add_stats-append (0, 0) before (record { field = stats_free; value = kb } ∷ after)
        ∙ ap (λ x. add_stats x after) (free_resets m kb) in
      (
        record {
          arch = or_else caps.arch "unknown";
          cpus = (numa_of caps.numa).1;
          memory_total = (add_stats (0, 0) all).0;
          memory_free = (add_stats (0, 0) all).1;
          numa = (numa_of caps.numa).0;
        },
        ground (arith, got, parsed, stats),
        numa_of-cpu_sum caps.numa,
        ap (λ x. x.1) run ∙ add_stats-spare_sum m.0 bytes after last_ (convert_to_bytes-lt kb "KB"),
      )
