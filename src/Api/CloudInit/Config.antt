-- ===== src/Api/CloudInit/Config.antt =====
-- The cloud-config of api/v1alpha1/cloudinit_types.go: the meta-data, user data and vendor data of a
-- cloud-init. A slice that is nil and one that is empty are one list, which
-- YAML writes alike.
use libvirt_operator.Prelude.{ℕ, String, List, Option, Bool}

-- An int32.
pub data ℤ : Type 0 where
  pos : ℕ → ℤ
  negsuc : ℕ → ℤ

pub record CloudInitMetadata : Type 0 where
  pub local_hostname : String
  pub instance_id : Option String

pub record CloudInitUser : Type 0 where
  pub name : String
  pub doas : List String
  pub expire_date : Option String
  pub gecos : Option String
  pub groups : Option String
  pub home_dir : Option String
  pub intactive : Option String
  pub lock_passwd : Option Bool
  pub no_create_home : Option Bool
  pub no_log_init : Option Bool
  pub no_user_group : Option Bool
  pub passwd : Option String
  pub hashed_passwd : Option String
  pub plaintext_passwd : Option String
  pub create_groups : Option Bool
  pub primary_group : Option String
  pub se_linux_user : Option String
  pub shell : Option String
  pub snap_user : Option String
  pub ssh_authorized_keys : List String
  pub ssh_import_id : List String
  pub ssh_redirect_user : Option Bool
  pub system : Option Bool
  pub sudo : List String
  pub uid : Option ℤ

pub record CloudInitWriteFileSource : Type 0 where
  pub uri : String
  pub headers : List (String × String)

pub record CloudInitWriteFile : Type 0 where
  pub path : String
  pub content : Option String
  pub source : Option CloudInitWriteFileSource
  pub owner : Option String
  pub permissions : Option String
  pub encoding : Option String
  pub append : Option Bool
  pub defer : Option Bool

pub record CloudInitGrowpart : Type 0 where
  pub mode : Option String
  pub devices : List String
  pub ignore_growroot_disabled : Option Bool

pub record CloudInitMountSwap : Type 0 where
  pub filename : Option String
  pub size : Option String
  pub max_size : Option String

pub record CloudInitDisk : Type 0 where
  pub table_type : Option String
  pub layout : List String
  pub overwrite : Option Bool

pub record CloudInitFs : Type 0 where
  pub label : Option String
  pub filesystem : String
  pub device : String
  pub partitions : Option String
  pub overwrite : Option Bool
  pub replace_fs : Option String
  pub extra_opts : List String
  pub cmd : List String

pub record CloudInitCaCerts : Type 0 where
  pub remove_defaults : Option Bool
  pub trusted : List String

pub record CloudInitNtpConfig : Type 0 where
  pub conf_path : Option String
  pub check_exe : Option String
  pub packages : List String
  pub service_name : Option String
  pub template : Option String

pub record CloudInitNtp : Type 0 where
  pub pools : List String
  pub servers : List String
  pub peers : List String
  pub allow : List String
  pub ntp_client : Option String
  pub enabled : Option Bool
  pub config : Option CloudInitNtpConfig

pub record CloudInitKeyboard : Type 0 where
  pub layout : String
  pub model : Option String
  pub variant : Option String
  pub options : Option String

pub record CloudInitPhoneHome : Type 0 where
  pub url : String
  pub post : List String
  pub tries : Option ℤ

pub record CloudInitCloudConfig : Type 0 where
  pub boot_cmd : List (List String)
  pub groups : List (String × List String)
  pub user : Option CloudInitUser
  pub users : List CloudInitUser
  pub write_files : List CloudInitWriteFile
  pub run_cmd : List (List String)
  pub growpart : Option CloudInitGrowpart
  pub mounts : List (List String)
  pub mount_default_fields : List String
  pub swap : Option CloudInitMountSwap
  pub device_aliases : List (String × String)
  pub disk_setup : List (String × CloudInitDisk)
  pub fs_setup : List CloudInitFs
  pub ca_certs : Option CloudInitCaCerts
  pub preserve_hostname : Option Bool
  pub prefer_fqdn_over_hostname : Option Bool
  pub create_hostname_file : Option Bool
  pub fqdn : Option String
  pub hostname : Option String
  pub timezone : Option String
  pub ntp : Option CloudInitNtp
  pub locale : Option String
  pub locale_configfile : Option String
  pub keyboard : Option CloudInitKeyboard
  pub phone_home : Option CloudInitPhoneHome
