-- ===== src/Tests/CloudInitController.antt =====
-- The theorems of Controller/CloudInit at one cloud-init with user data.
use libvirt_operator.Prelude.{
  ℕ, ◌+◌, ◌≤◌, String, Bool, true, false, List, [], ◌∷◌, ◌++◌, none, some, map, length, ◌≡◌, ◌≢◌,
  ◌⊎◌, refl, inl, inr,
}
use libvirt_operator.Outcome.{ok}
use libvirt_operator.Libvirt.{StorageVol}
use libvirt_operator.Host.{Client}
use libvirt_operator.Api.CloudInit.{CloudInit}
use libvirt_operator.Api.CloudInit.Config.{CloudInitCloudConfig}
use libvirt_operator.Store.Host.{lookup_entry, session}
use libvirt_operator.Action.Volume.State.{VolumeAction}
use libvirt_operator.Controller.Base.{Machinery}
use libvirt_operator.Controller.CloudInit.Image.{
  Bytes, Yaml, Iso, Sources, source_files, image_size,
}
use libvirt_operator.Controller.CloudInit.Image.Room.{total, source_files_room}
use libvirt_operator.Controller.CloudInit.{Env, domain_users, delete_stage}
use libvirt_operator.Controller.CloudInit.Deletion.{
  reconcile_cloud_init_unused, delete_stage_forgets,
}
use libvirt_operator.Tests.Fixtures.{
  cons_not_nil, machine, kit, ready_kit, the_pool, the_host, entry, casts, accepting, at, meta_of,
  volume_action,
}

-- An encoder that writes one byte for each kind of data.
abbrev letters : Yaml
letters = record {
  encode_metadata = λ data_. ok (109 ∷ []);
  encode_cloud_config = λ data_. ok (117 ∷ []);
  encode_network_config = λ data_. ok (110 ∷ []);
  close = ok (10 ∷ []);
}

-- An image that is the contents of its files.
abbrev tape : Iso Bytes
tape = record {
  order = λ files. files;
  create_temp = ok tt;
  create = λ size. ok [];
  create_file = λ name w. ok w;
  write = λ name content w. ok (w ++ content);
  close = λ name w. ok w;
  finalize = λ w. ok w;
}

abbrev config : CloudInitCloudConfig
config = record {
  boot_cmd = [];
  groups = [];
  user = none;
  users = [];
  write_files = [];
  run_cmd = [];
  growpart = none;
  mounts = [];
  mount_default_fields = [];
  swap = none;
  device_aliases = [];
  disk_setup = [];
  fs_setup = [];
  ca_certs = none;
  preserve_hostname = none;
  prefer_fqdn_over_hostname = none;
  create_hostname_file = none;
  fqdn = none;
  hostname = none;
  timezone = none;
  ntp = none;
  locale = none;
  locale_configfile = none;
  keyboard = none;
  phone_home = none;
}

abbrev pub cloud_init : Bool → CloudInit
cloud_init deleting = record {
  meta = meta_of "seed" deleting;
  spec = record {
    name = "seed";
    generate_name = "";
    pool_ref = "pool";
    metadata = none;
    user_data = some config;
    vendor_data = none;
    network_config = none;
  };
  conditions = [];
  status = record { pool = ""; host = "" };
}

abbrev env : Env Bytes
env = record {
  get = ok (cloud_init false);
  get_pool = λ ref. ok the_pool;
  get_host = λ ref. ok the_host;
  requirement = λ key value. ok tt;
  domains = λ key value. ok [];
  hosts = ("host", entry) ∷ [];
  yaml = letters;
  iso = tape;
  close_source = ok tt;
  remove_source = ok tt;
}

-- An upload that succeeds.
abbrev uploading : Client ℕ
uploading = record machine { storage_vol_upload = λ v file s. (ok tt, s) }

abbrev missing : VolumeAction
missing = record (volume_action "seed") { id = none }

abbrev the_sources : Sources
the_sources = record {
  files =
      ("meta-data", 109 ∷ 10 ∷ [])
      ∷ (
        "user-data",
        35 ∷ 99 ∷ 108 ∷ 111 ∷ 117 ∷ 100 ∷ 45 ∷ 99 ∷ 111 ∷ 110 ∷ 102 ∷ 105 ∷ 103 ∷ 10 ∷ 117 ∷ 10
            ∷ [],
      )
      ∷ [];
  size = 18;
}

source_files_room_example :
    (map (λ f. f.0) the_sources.files ≡ "meta-data" ∷ "user-data" ∷ [])
    × (total the_sources.files ≤ image_size 18)
    × (2048 ≤ image_size 18)
unfolding source_files libvirt_operator.Controller.CloudInit.Image.marshal
    libvirt_operator.Controller.CloudInit.Image.add_optional
    libvirt_operator.Controller.CloudInit.Image.cloud_config
    libvirt_operator.Controller.CloudInit.Image.add_file
source_files_room_example = source_files_room letters (cloud_init false) the_sources refl

reconcile_cloud_init_unused_example :
    domain_users machine ready_kit casts accepting env "seed" ≡ ok []
unfolding libvirt_operator.Controller.CloudInit.reconcile_cloud_init
    libvirt_operator.Controller.CloudInit.resolve_refs
    libvirt_operator.Controller.CloudInit.with_refs libvirt_operator.Controller.CloudInit.with_entry
    lookup_entry libvirt_operator.Prelude.lookup libvirt_operator.Controller.CloudInit.with_session
    session libvirt_operator.Action.Volume.State.new_volume_action
    libvirt_operator.Controller.CloudInit.act delete_stage
    libvirt_operator.Action.Volume.State.state domain_users
    libvirt_operator.Controller.CloudInit.release_image libvirt_operator.Action.Volume.State.delete
    libvirt_operator.Controller.CloudInit.forget libvirt_operator.Controller.Base.drop_finalizer
reconcile_cloud_init_unused_example =
    reconcile_cloud_init_unused machine ready_kit casts accepting env (cloud_init true) (at 0) refl
      (cons_not_nil _ _)

delete_stage_forgets_example :
    ((volume_action "seed").id ≡ none)
    ⊎ ((id : StorageVol) × ((volume_action "seed").id ≡ some id)
        × ((machine.storage_vol_delete id 0).0 ≡ ok tt)
        × (domain_users machine kit casts accepting env "seed" ≡ ok []))
unfolding delete_stage libvirt_operator.Action.Volume.State.state domain_users
    libvirt_operator.Controller.CloudInit.release_image libvirt_operator.Action.Volume.State.delete
    libvirt_operator.Controller.CloudInit.forget libvirt_operator.Controller.Base.drop_finalizer
delete_stage_forgets_example =
    delete_stage_forgets machine kit casts accepting env (cloud_init true) (volume_action "seed")
      (at 0) (cons_not_nil _ _)
