-- ===== src/Action/Domain/Disk.antt =====
-- DomainAction.Disk of internal/action/domain.go. It only reads the host, so it is a function of the
-- host's state. `rounds` bounds the loop over the backing chain, which the source leaves unbounded.
pub mod Chain
pub mod Targets
use libvirt_operator.Prelude.{
  ℕ, zero, suc, String, Bool, true, false, ◌||◌, List, [], ◌∷◌, ◌++◌, Option, none, some, is_set,
  or_else, if◌then◌else◌, str_eq,
}
use libvirt_operator.Outcome.{Outcome, ok, err, panic, hang, message, deref, ◌>>=◌}
use libvirt_operator.Libvirt.{
  StorageVol, StorageVolume, VolumeBackingStore, BackingEntry, DiskSource, SourceVolume, DiskDriver,
  DomainDisk, DomainDeviceList, Dev,
}
use libvirt_operator.Host.{Client}
use libvirt_operator.Action.Domain.State.{DomainAction}
use libvirt_operator.Action.Domain.Setup.{with_devices}
use libvirt_operator.Action.Domain.TargetDev.{get_next_available_target_dev}

abbrev pub err_unsupported_disk_source_type : String
err_unsupported_disk_source_type = "disk source type is not supported"

abbrev empty_source : DiskSource
empty_source = record { file = none; block = none; volume = none }

unfoldable pub set_domain_disk_source : String → String → Outcome DiskSource
set_domain_disk_source type path =
    if str_eq type "file"
    then ok (record empty_source { file = some path })
    else if str_eq type "block"
    then ok (record empty_source { block = some path })
    else err (message err_unsupported_disk_source_type)

-- The driver's type: an iso image is read as raw.
unfoldable pub driver_type : String → String
driver_type format = if str_eq format "iso" then "raw" else format

unfoldable pub disk_driver : String → Bool → DiskDriver
unfolding driver_type
disk_driver format readonly = record {
  name = "qemu";
  type_ = driver_type format;
  discard = if readonly then "" else "unmap";
  detect_zeros = if readonly then "" else "unmap";
}

module _ {S : Type 0} (c : Client S) (s : S) where
  unfoldable pub get_volume_source_description : StorageVol → Outcome StorageVolume
  get_volume_source_description v = do xml ← c.storage_vol_get_xml_desc v s; c.unmarshal_volume xml

  -- One round of the loop: the entry for the volume at a path, and what backs that volume.
  unfoldable pub backing_entry : String → Outcome (BackingEntry × Option VolumeBackingStore)
  backing_entry path = do
    v ← c.storage_vol_lookup_by_key path s
    desc ← get_volume_source_description v
    t ← deref desc.target
    format ← deref t.format
    source ← set_domain_disk_source desc.type_ t.path
    ok (record { format = format; source = source }, desc.backing_store)

  unfoldable pub backing_chain : ℕ → Option VolumeBackingStore → Outcome (List BackingEntry)
  backing_chain rounds none = ok []
  backing_chain zero (some b) = hang
  backing_chain (suc rounds) (some b) = do
    entry ← backing_entry b.path
    rest ← backing_chain rounds entry.1
    ok (entry.0 ∷ rest)

  unfoldable pub locate_volume : String → String → Outcome StorageVolume
  locate_volume volume pool = do
    p ← c.storage_pool_lookup_by_name pool s
    v ← c.storage_vol_lookup_by_name p volume s
    get_volume_source_description v

  -- The disk for a volume in a file or on a block device.
  unfoldable pub path_disk :
      ℕ → Dev → StorageVolume → Option String → Bool → String → String → Outcome DomainDisk
  path_disk rounds dev desc wwn readonly format path = do
    source ← set_domain_disk_source desc.type_ path
    chain ← backing_chain rounds desc.backing_store
    ok (record {
      driver = disk_driver format readonly;
      device = "disk";
      source = some source;
      target = some (record { dev = dev; bus = "scsi" });
      readonly = readonly;
      backing_store = chain;
      wwn = or_else wwn "";
    })

  -- A volume of another type is given to no disk: the source sets the disk's source and returns
  -- without appending the disk.
  unfoldable pub attach_disk :
      ℕ
      → Dev
      → StorageVolume
      → Option String
      → Bool
      → String
      → String
      → DomainDeviceList
      → DomainAction
      → Outcome DomainAction
  attach_disk rounds dev desc wwn readonly format path ds a =
      if str_eq desc.type_ "file" || str_eq desc.type_ "block"
      then path_disk rounds dev desc wwn readonly format path
        >>= (λ d. ok (with_devices a (record ds { disks = ds.disks ++ d ∷ [] })))
      else ok a

  unfoldable pub place_disk :
      ℕ
      → Dev
      → Option String
      → Bool
      → DomainDeviceList
      → DomainAction
      → StorageVolume
      → Outcome DomainAction
  place_disk rounds dev wwn readonly ds a desc = do
    t ← deref desc.target
    format ← deref t.format
    attach_disk rounds dev desc wwn readonly format t.path ds a

  unfoldable pub add_disk :
      ℕ → String → String → Option String → Option Bool → DomainAction → Outcome DomainAction
  add_disk rounds volume pool wwn readonly a = do
    ds ← deref a.def.devices
    dev ← get_next_available_target_dev ds.disks
    desc ← locate_volume volume pool
    place_disk rounds dev wwn (is_set readonly) ds a desc
