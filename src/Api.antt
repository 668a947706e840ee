-- ===== src/Api.antt =====
-- api/v1alpha1: the custom resources. The parts that all kinds share stand here, the kinds in Kinds.
pub mod Kinds
pub mod Validation
pub mod Domain
pub mod CloudInit
use libvirt_operator.Prelude.{ℕ, String, List, Option, Bool}
use libvirt_operator.Util.Labels.{LabelMap}

-- conditions.go
pub data ConditionType : Type 0 where
  ready probed deletion_prevented : ConditionType

pub data Reason : Type 0 where
  created error unmet_requirements active not_active not_exist in_use required completed : Reason

pub data Status : Type 0 where
  status_true status_false : Status

-- A condition as the controllers make it, and as the object keeps it with the time of its last
-- transition, in seconds.
pub record Condition : Type 0 where
  pub type_ : ConditionType
  pub status : Status
  pub message : String
  pub reason : Reason
  pub last_transition : ℕ

-- metav1.ObjectMeta, by the fields that the controllers read. `deleting` says that the deletion
-- timestamp is set.
pub record ObjectMeta : Type 0 where
  pub name : String
  pub namespace : String
  pub uid : String
  pub generation : ℕ
  pub deleting : Bool
  pub finalizers : List String
  pub labels : Option LabelMap

pub record Resource (Spec Status : Type 0) : Type 0 where
  pub meta : ObjectMeta
  pub spec : Spec
  pub conditions : List Condition
  pub status : Status

-- types.NamespacedName
pub record NamespacedName : Type 0 where
  pub name : String
  pub namespace : String

-- finalizer.go
abbrev pub finalizer : String
finalizer = "libvirt.karelvanhecke.com/finalizer"

-- labels.go
abbrev pub secret_label : String
secret_label = "libvirt.karelvanhecke.com/secret"

abbrev pub auth_label : String
auth_label = "libvirt.karelvanhecke.com/auth"

abbrev pub host_label : String
host_label = "libvirt.karelvanhecke.com/host"

abbrev pub pool_label : String
pool_label = "libvirt.karelvanhecke.com/pool"

abbrev pub volume_label : String
volume_label = "libvirt.karelvanhecke.com/volume"

abbrev pub cloud_init_label : String
cloud_init_label = "libvirt.karelvanhecke.com/cloudinit"

abbrev pub interface_label_prefix : String
interface_label_prefix = "interface.libvirt.karelvanhecke.com"

abbrev pub pci_passthrough_label_prefix : String
pci_passthrough_label_prefix = "pcipassthrough.libvirt.karelvanhecke.com"

abbrev pub disk_label_prefix : String
disk_label_prefix = "disk.libvirt.karelvanhecke.com"
