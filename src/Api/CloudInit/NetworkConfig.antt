-- ===== src/Api/CloudInit/NetworkConfig.antt =====
-- The network config of api/v1alpha1/cloudinit_types.go. An embedded struct is a field with its name.
use libvirt_operator.Prelude.{String, List, Option, Bool}
use libvirt_operator.Api.CloudInit.Config.{ℤ}

pub record CloudInitDhcpOverrides : Type 0 where
  pub use_dns : Option Bool
  pub use_ntp : Option Bool
  pub send_host_name : Option Bool
  pub use_mtu : Option Bool
  pub hostname : Option String
  pub use_routes : Option Bool
  pub route_metric : Option ℤ
  pub use_domains : Option Bool

pub record CloudInitNameservers : Type 0 where
  pub addresses : List String
  pub search_ : List String

pub record CloudInitRoute : Type 0 where
  pub to : String
  pub via : String
  pub metric : Option ℤ

pub record NetplanRaOverrides : Type 0 where
  pub use_dns : Option Bool
  pub use_domains : Option String
  pub table : Option ℤ

pub record NetplanPassthrough : Type 0 where
  pub accept_ra : Option Bool
  pub ra_overrides : Option NetplanRaOverrides

pub record CloudInitNetworkProperties : Type 0 where
  pub renderer : Option String
  pub dhcp4 : Option Bool
  pub dhcp6 : Option Bool
  pub dhcp4_overrides : Option CloudInitDhcpOverrides
  pub dhcp6_overrides : Option CloudInitDhcpOverrides
  pub addresses : List String
  pub mtu : Option ℤ
  pub optional : Option Bool
  pub nameservers : Option CloudInitNameservers
  pub routes : List CloudInitRoute
  pub netplan_passthrough : NetplanPassthrough

pub record CloudInitMatch : Type 0 where
  pub name : Option String
  pub mac_address : Option String
  pub driver : Option String

pub record CloudInitPhysicalProperties : Type 0 where
  pub match_ : Option CloudInitMatch
  pub set_name : Option String
  pub wake_on_lan : Option Bool

pub record CloudInitEthernet : Type 0 where
  pub physical_properties : CloudInitPhysicalProperties
  pub network_properties : CloudInitNetworkProperties

pub record CloudInitBondParameters : Type 0 where
  pub mode : Option String
  pub lacp_rate : Option String
  pub mii_monitor_interval : Option ℤ
  pub min_links : Option ℤ
  pub transmit_hash_policy : Option String
  pub ad_select : Option String
  pub all_slaves_active : Option Bool
  pub arp_interval : Option ℤ
  pub arp_ip_targets : List String
  pub arp_validate : Option String
  pub arp_all_targets : Option String
  pub up_delay : Option ℤ
  pub down_delay : Option ℤ
  pub fail_over_mac_policy : Option String
  pub gratuitous_arp : Option ℤ
  pub packets_per_slave : Option ℤ
  pub primary_reselect_policy : Option String
  pub learn_packet_interval : Option ℤ

pub record CloudInitBond : Type 0 where
  pub network_properties : CloudInitNetworkProperties
  pub interfaces : List String
  pub parameters : Option CloudInitBondParameters

pub record CloudInitBridgeParameters : Type 0 where
  pub ageing_time : Option ℤ
  pub priority : Option ℤ
  pub forward_delay : Option ℤ
  pub hello_time : Option ℤ
  pub max_age : Option ℤ
  pub path_cost : Option ℤ
  pub stp : Option Bool

pub record CloudInitBridge : Type 0 where
  pub network_properties : CloudInitNetworkProperties
  pub interfaces : List String
  pub parameters : Option CloudInitBridgeParameters

pub record CloudInitVlan : Type 0 where
  pub network_properties : CloudInitNetworkProperties
  pub id : ℤ
  pub link : String

pub record CloudInitNetworkConfig : Type 0 where
  pub ethernets : List (String × CloudInitEthernet)
  pub bonds : List (String × CloudInitBond)
  pub bridges : List (String × CloudInitBridge)
  pub vlans : List (String × CloudInitVlan)
