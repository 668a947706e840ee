-- ===== src/Libvirt.antt =====
-- The data that the operator exchanges with go-libvirt and libvirtxml: handles, states and the parts
-- of the XML descriptions that the source reads or writes. A pointer is an Option.
use libvirt_operator.Prelude.{ℕ, String, List, Option, Bool}

pub record StoragePool : Type 0 where
  pub name : String

pub record StorageVol : Type 0 where
  pub pool : String
  pub name : String
  pub key : String

pub record Network : Type 0 where
  pub name : String

pub record DomainId : Type 0 where
  pub name : String

-- The states that the source compares with; the other numbers of libvirt are one constructor.
pub data DomainState : Type 0 where
  running shutoff other_state : DomainState

pub record Size : Type 0 where
  pub unit : String
  pub value : ℕ

pub record VolumeTarget : Type 0 where
  pub path : String
  pub format : Option String

pub record VolumeBackingStore : Type 0 where
  pub path : String
  pub format : Option String

pub record StorageVolume : Type 0 where
  pub type_ : String
  pub name : String
  pub capacity : Option Size
  pub target : Option VolumeTarget
  pub backing_store : Option VolumeBackingStore

-- A name that libvirt gives to a disk in the guest, as its code points.
abbrev pub Dev : Type 0
Dev = List ℕ

pub record SourceVolume : Type 0 where
  pub pool : String
  pub volume : String

pub record DiskSource : Type 0 where
  pub file : Option String
  pub block : Option String
  pub volume : Option SourceVolume

pub record BackingEntry : Type 0 where
  pub format : String
  pub source : DiskSource

pub record DiskTarget : Type 0 where
  pub dev : Dev
  pub bus : String

pub record DiskDriver : Type 0 where
  pub name : String
  pub type_ : String
  pub discard : String
  pub detect_zeros : String

-- `backing_store` is the chain of nested BackingStore elements, outermost first.
pub record DomainDisk : Type 0 where
  pub driver : DiskDriver
  pub device : String
  pub source : Option DiskSource
  pub target : Option DiskTarget
  pub readonly : Bool
  pub backing_store : List BackingEntry
  pub wwn : String

pub record DomainController : Type 0 where
  pub type_ : String
  pub model : String
  pub queues : Option ℕ

pub record DomainInterface : Type 0 where
  pub driver : String
  pub queues : ℕ
  pub model : String
  pub network : String
  pub mac : Option String

pub record DomainHostdev : Type 0 where
  pub managed : String
  pub driver : String
  pub domain : ℕ
  pub bus : ℕ
  pub slot : ℕ
  pub function : ℕ

pub record DomainDeviceList : Type 0 where
  pub controllers : List DomainController
  pub disks : List DomainDisk
  pub interfaces : List DomainInterface
  pub hostdevs : List DomainHostdev
  pub rngs : List String
  pub consoles : List String
  pub channels : List String
  pub serials : ℕ

pub record DomainOs : Type 0 where
  pub type_ : String
  pub machine : String
  pub boot_devices : List String
  pub firmware : String
  pub loader_secure : Option String

pub record DomainVcpu : Type 0 where
  pub value : ℕ
  pub placement : String

pub record DomainMemory : Type 0 where
  pub value : ℕ
  pub unit : String

pub record DomainCpu : Type 0 where
  pub mode : String
  pub cache : Option String

pub record DomainDef : Type 0 where
  pub type_ : String
  pub name : String
  pub os : Option DomainOs
  pub acpi : Bool
  pub apic : Bool
  pub vcpu : Option DomainVcpu
  pub memory : Option DomainMemory
  pub cpu : Option DomainCpu
  pub numatune : Option String
  pub devices : Option DomainDeviceList
  pub sec_labels : List String

-- A capability of a node device: the PCI address fields, each a pointer.
pub record PciCapability : Type 0 where
  pub domain : Option ℕ
  pub bus : Option ℕ
  pub slot : Option ℕ
  pub function : Option ℕ

-- A NUMA cell; the number of its CPUs, if the element is there.
pub record NumaCells : Type 0 where
  pub num : ℕ
  pub cells : List (Option ℕ)

pub record Caps : Type 0 where
  pub arch : Option String
  pub numa : Option (Option NumaCells)

-- The fields of NodeGetMemoryStats.
pub data MemoryField : Type 0 where
  stats_total stats_free stats_buffers stats_cached stats_other : MemoryField

pub record MemoryStat : Type 0 where
  pub field : MemoryField
  pub value : ℕ

pub data PoolState : Type 0 where
  pool_running pool_other : PoolState

pub record PoolInfo : Type 0 where
  pub state : PoolState
  pub capacity : ℕ
  pub allocation : ℕ
  pub available : ℕ
