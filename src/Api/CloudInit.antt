-- ===== src/Api/CloudInit.antt =====
-- CloudInit of api/v1alpha1/cloudinit_types.go with its reference.
pub mod Config
pub mod NetworkConfig
use libvirt_operator.Prelude.{String, Option}
use libvirt_operator.Api.{Resource, NamespacedName}
use libvirt_operator.Api.Kinds.{VolumeStatus, reference}
use libvirt_operator.Api.CloudInit.Config.{CloudInitMetadata, CloudInitCloudConfig}
use libvirt_operator.Api.CloudInit.NetworkConfig.{CloudInitNetworkConfig}

pub record CloudInitSpec : Type 0 where
  pub name : String
  pub generate_name : String
  pub pool_ref : String
  pub metadata : Option CloudInitMetadata
  pub user_data : Option CloudInitCloudConfig
  pub vendor_data : Option CloudInitCloudConfig
  pub network_config : Option CloudInitNetworkConfig

-- CloudInitStatus has the fields of VolumeStatus.
abbrev pub CloudInit : Type 0
CloudInit = Resource CloudInitSpec VolumeStatus

unfoldable pub cloud_init_pool_ref : CloudInit → NamespacedName
cloud_init_pool_ref ci = reference ci ci.spec.pool_ref
