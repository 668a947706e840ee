-- ===== src/Api/Kinds.antt =====
-- The kinds of api/v1alpha1 with their references: spec, status and object of each.
use libvirt_operator.Prelude.{ℕ, String, List, Option, none, some, Bool}
use libvirt_operator.Api.{Resource, NamespacedName}

-- PoolSpec of pool_types.go; the specs of a network and of a PCI device have the same fields.
pub record HostedSpec : Type 0 where
  pub name : String
  pub host_ref : String

pub record PoolCapacity : Type 0 where
  pub capacity : ℕ
  pub allocation : ℕ
  pub available : ℕ

abbrev pub Pool : Type 0
Pool = Resource HostedSpec (Option PoolCapacity)

pub record PciDeviceAddress : Type 0 where
  pub domain : ℕ
  pub bus : ℕ
  pub slot : ℕ
  pub function : ℕ

abbrev pub PciDevice : Type 0
PciDevice = Resource HostedSpec (Option PciDeviceAddress)

abbrev pub Network : Type 0
Network = Resource HostedSpec (Unit {0})

-- volume_types.go
pub record VolumeSize : Type 0 where
  pub unit : String
  pub value : ℕ

pub record VolumeSource : Type 0 where
  pub url : String
  pub checksum : Option (List ℕ)

pub record VolumeSpec : Type 0 where
  pub name : String
  pub generate_name : String
  pub format : String
  pub size : Option VolumeSize
  pub pool_ref : String
  pub source : Option VolumeSource
  pub backing_store_ref : Option String

pub record VolumeStatus : Type 0 where
  pub pool : String
  pub host : String

abbrev pub Volume : Type 0
Volume = Resource VolumeSpec VolumeStatus

-- auth_types.go
pub data AuthType : Type 0 where
  tls_auth ssh_auth : AuthType
  other_auth : String → AuthType

pub record AuthSpec : Type 0 where
  pub type_ : AuthType
  pub secret_ref : String
  pub verify : Option Bool
  pub ca : Option String
  pub known_hosts : Option String
  pub username : Option String

abbrev pub Auth : Type 0
Auth = Resource AuthSpec (Unit {0})

-- host_types.go
pub record HostSpec : Type 0 where
  pub address : String
  pub auth_ref : String
  pub port : Option ℕ

pub record HostCapability : Type 0 where
  pub arch : String
  pub cpus : ℕ
  pub memory_total : ℕ
  pub memory_free : ℕ
  pub numa : Bool

abbrev pub Host : Type 0
Host = Resource HostSpec (Option HostCapability)

-- A reference to an object of the same namespace.
abbrev pub reference : {Spec Status : Type 0} → Resource Spec Status → String → NamespacedName
reference r name = record { name = name; namespace = r.meta.namespace }

unfoldable pub pool_host_ref : Pool → NamespacedName
pool_host_ref p = reference p p.spec.host_ref

unfoldable pub pci_device_host_ref : PciDevice → NamespacedName
pci_device_host_ref p = reference p p.spec.host_ref

unfoldable pub network_host_ref : Network → NamespacedName
network_host_ref n = reference n n.spec.host_ref

unfoldable pub volume_pool_ref : Volume → NamespacedName
volume_pool_ref v = reference v v.spec.pool_ref

backing_ref : Volume → Option String → NamespacedName
backing_ref v none = record { name = ""; namespace = "" }
backing_ref v (some name) = reference v name

unfoldable pub volume_backing_store_ref : Volume → NamespacedName
unfolding backing_ref
volume_backing_store_ref v = backing_ref v v.spec.backing_store_ref

unfoldable pub auth_secret_ref : Auth → NamespacedName
auth_secret_ref a = reference a a.spec.secret_ref

unfoldable pub host_auth_ref : Host → NamespacedName
host_auth_ref h = reference h h.spec.auth_ref

-- The types of a Kubernetes secret that the operator knows, and the secret.
pub data SecretType : Type 0 where
  ssh_secret tls_secret other_secret : SecretType

pub record Secret : Type 0 where
  pub name : String
  pub generation : ℕ
  pub type_ : SecretType
  pub data_ : List (String × List ℕ)
