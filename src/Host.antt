-- ===== src/Host.antt =====
-- The interface host.Client of internal/host/host.go, over the state of a host, and the calls of it
-- that change the host. The XML library is part of what a host gives: libvirtxml is not in the
-- repository, and a description is opaque text until it is unmarshalled.
pub mod Monad
pub mod Fake
pub mod Dialer
use libvirt_operator.Prelude.{ℕ, String, List, Option, Bool}
use libvirt_operator.Outcome.{Outcome}
use libvirt_operator.Libvirt.{
  StoragePool, StorageVol, Network, DomainId, DomainState, StorageVolume, DomainDef, PciCapability,
  Caps, MemoryStat, PoolInfo, Dev,
}

-- A call that changes the host, with its arguments.
pub data Call : Type 0 where
  domain_block_resize : DomainId → Dev → ℕ → Call
  domain_create : DomainId → Call
  domain_define_xml : String → Call
  domain_shutdown : DomainId → Call
  domain_undefine : DomainId → Call
  storage_vol_create_xml : StoragePool → String → Call
  storage_vol_upload : StorageVol → Call
  storage_vol_resize : StorageVol → ℕ → Call
  storage_vol_delete : StorageVol → Call

-- Queries answer from the host's state; a change gives its result and the new state. `sleep` is what
-- time and everybody else do to the host while the caller waits a second.
pub record Client (S : Type 0) : Type 0 where
  pub capabilities : S → Outcome String
  pub domain_block_resize : DomainId → Dev → ℕ → S → Outcome (Unit {0}) × S
  pub domain_create : DomainId → S → Outcome (Unit {0}) × S
  pub domain_define_xml : String → S → Outcome DomainId × S
  pub domain_get_state : DomainId → S → Outcome DomainState
  pub domain_get_xml_desc : DomainId → S → Outcome String
  pub domain_lookup_by_name : String → S → Outcome DomainId
  pub domain_shutdown : DomainId → S → Outcome (Unit {0}) × S
  pub domain_undefine_flags : DomainId → S → Outcome (Unit {0}) × S
  pub network_is_active : Network → S → Outcome ℕ
  pub network_lookup_by_name : String → S → Outcome Network
  pub node_device_get_xml_desc : String → S → Outcome String
  pub node_device_is_active : String → S → Outcome ℕ
  pub node_device_lookup_by_name : String → S → Outcome (Unit {0})
  pub node_get_memory_stats : S → Outcome (List MemoryStat)
  pub storage_pool_get_info : StoragePool → S → Outcome PoolInfo
  pub storage_pool_lookup_by_name : String → S → Outcome StoragePool
  pub storage_vol_lookup_by_key : String → S → Outcome StorageVol
  pub storage_vol_lookup_by_name : StoragePool → String → S → Outcome StorageVol
  pub storage_vol_get_xml_desc : StorageVol → S → Outcome String
  pub storage_vol_create_xml : StoragePool → String → S → Outcome StorageVol × S
  pub storage_vol_upload : StorageVol → List ℕ → S → Outcome (Unit {0}) × S
  pub storage_vol_resize : StorageVol → ℕ → S → Outcome (Unit {0}) × S
  pub storage_vol_delete : StorageVol → S → Outcome (Unit {0}) × S
  pub sleep : S → S
  pub unmarshal_volume : String → Outcome StorageVolume
  pub marshal_volume : StorageVolume → Outcome String
  pub unmarshal_domain : String → Outcome DomainDef
  pub marshal_domain : DomainDef → Outcome String
  pub unmarshal_node_device : String → Outcome (Option PciCapability)
  pub unmarshal_caps : String → Outcome Caps
