-- ===== src/Tests/Domain.antt =====
-- The theorems of Action/Domain at the host of Fixtures.
use libvirt_operator.Prelude.{
  ℕ, zero, suc, ◌<◌, String, List, [], ◌∷◌, ◌++◌, Option, some, none, false, ◌≡◌, refl, arith,
}
use libvirt_operator.Outcome.{ok}
use libvirt_operator.Libvirt.{DomainDisk, VolumeBackingStore, BackingEntry, Dev, running, shutoff}
use libvirt_operator.Host.{domain_shutdown}
use libvirt_operator.Host.Monad.{host_call}
use libvirt_operator.Action.Domain.TargetDev.{
  get_next_available_target_dev, get_next_available_target_dev_fresh, target_taken, dev_eq,
}
use libvirt_operator.Action.Domain.Disk.{
  add_disk, backing_chain, backing_entry, locate_volume, get_volume_source_description, place_disk,
  attach_disk, path_disk, set_domain_disk_source, disk_driver,
}
use libvirt_operator.Action.Domain.Disk.Chain.{Chain, backing_chain_iff}
use libvirt_operator.Action.Domain.Disk.Targets.{
  IsWired, Attaches, add_disk-Attaches, add_disk_dropped,
}
use libvirt_operator.Action.Domain.Shutdown.{shutdown, shutdown_in_time, after_sleeps, Reports}
use libvirt_operator.Tests.Fixtures.{
  machine, sda, sdb, disk_at, devices, domain_action, volume_of, vm, at,
}

abbrev one_disk : List DomainDisk
one_disk = disk_at sda "base" ∷ []

get_next_available_target_dev_fresh_example :
    (dev : Dev) × (get_next_available_target_dev one_disk ≡ ok dev)
    × (target_taken dev one_disk ≡ ok false)
get_next_available_target_dev_fresh_example =
    get_next_available_target_dev_fresh one_disk ((_, refl), tt)

one_disk-IsWired : IsWired one_disk
one_disk-IsWired = record { targets = ((_, refl), tt); distinct = (tt, tt) }

abbrev entry_of : String → BackingEntry
entry_of path = record {
  format = "qcow2";
  source = record { file = some path; block = none; volume = none };
}

abbrev mid_disk : DomainDisk
mid_disk = record {
  driver = record { name = "qemu"; type_ = "qcow2"; discard = "unmap"; detect_zeros = "unmap" };
  device = "disk";
  source = some (record { file = some "mid"; block = none; volume = none });
  target = some (record { dev = sdb; bus = "scsi" });
  readonly = false;
  backing_store = entry_of "base" ∷ [];
  wwn = "";
}

add_disk-Attaches_example :
    Attaches machine 0
      (devices one_disk)
      (domain_action one_disk)
      (domain_action (one_disk ++ mid_disk ∷ []))
unfolding add_disk locate_volume get_volume_source_description place_disk attach_disk path_disk
    backing_chain backing_entry set_domain_disk_source disk_driver get_next_available_target_dev
    target_taken libvirt_operator.Action.Domain.TargetDev.advance
add_disk-Attaches_example =
    add_disk-Attaches machine 0 2 "mid" "pool" none none (domain_action one_disk)
      (domain_action (one_disk ++ mid_disk ∷ [])) (devices one_disk) refl one_disk-IsWired refl

add_disk_dropped_example :
    add_disk machine 0 2 "net" "pool" none none (domain_action one_disk)
    ≡ ok (domain_action one_disk)
unfolding locate_volume get_volume_source_description
add_disk_dropped_example =
    add_disk_dropped machine 0 2 "net" "pool" none none (domain_action one_disk) (devices one_disk)
      (volume_of "net") (record { path = "net"; format = some "qcow2" }) "qcow2" refl
      ((_, refl), tt) refl refl refl refl refl

abbrev backed_by : String → Option VolumeBackingStore
backed_by path = some (record { path = path; format = none })

abbrev two_entries : List BackingEntry
two_entries = entry_of "mid" ∷ entry_of "base" ∷ []

backing_chain_iff_example : Chain machine 0 (backed_by "mid") two_entries
unfolding backing_chain backing_entry get_volume_source_description set_domain_disk_source
backing_chain_iff_example =
    (backing_chain_iff machine 0 5 (backed_by "mid") two_entries (omega arith)).0 refl

-- The domain is off at the third look.
pub running_before_two : (j : ℕ) → j < 2 → Reports machine vm false (after_sleeps machine j 0)
unfolding after_sleeps
running_before_two zero h = (running, refl, refl)
running_before_two (suc zero) h = (running, refl, refl)
running_before_two (suc (suc j)) h = absurd (omega arith)

shutdown_in_time_example :
    shutdown {O = Unit} machine (domain_action []) (at 0)
    ≡ (ok tt, record { host = after_sleeps machine 2 0; log = host_call (domain_shutdown vm) ∷ [] })
unfolding after_sleeps
shutdown_in_time_example =
    shutdown_in_time machine (domain_action []) vm 0 2 (at 0) refl refl (omega arith)
      running_before_two (shutoff, refl, refl)
