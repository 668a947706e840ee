-- ===== src/Tests/Fixtures.antt =====
-- A host that counts seconds, with a few volumes, a domain that goes off in the third second, and an
-- API server that accepts every update.
use libvirt_operator.Prelude.{
  ℕ, suc, ltb, String, Bool, true, false, List, [], ◌∷◌, ◌≢◌, none, some, if◌then◌else◌, str_eq,
  any, delete_func,
}
use libvirt_operator.Outcome.{ok, err, libvirt, api, message, err_no_domain}
use libvirt_operator.Libvirt.{
  StorageVol, DomainId, running, shutoff, other_state, StorageVolume, DomainDisk, DomainDeviceList,
  DomainDef, pool_running,
}
use libvirt_operator.Host.{Client}
use libvirt_operator.Host.Monad.{World}
use libvirt_operator.Api.{ObjectMeta}
use libvirt_operator.Api.Kinds.{Pool, Host}
use libvirt_operator.Store.Host.{HostEntry}
use libvirt_operator.Host.Dialer.{Dialer, ssh}
use libvirt_operator.Action.Domain.State.{DomainAction}
use libvirt_operator.Action.Volume.State.{VolumeAction}
use libvirt_operator.Store.Auth.{AuthEntry, AuthState, Files}
use Prim.Native.String.{◌++◌ as str_append}
use libvirt_operator.Controller.Base.{Machinery, Casts, Server}

abbrev pub volume_of : String → StorageVolume
volume_of key = record {
  type_ = if str_eq key "net" then "network" else "file";
  name = key;
  capacity = some (record { unit = "GiB"; value = 10 });
  target = some (record { path = key; format = some "qcow2" });
  backing_store =
      if str_eq key "mid"
      then some (record { path = "base"; format = none })
      else if str_eq key "loop"
      then some (record { path = "loop"; format = none })
      else none;
}

abbrev pub disk_at : List ℕ → String → DomainDisk
disk_at dev file = record {
  driver = record { name = "qemu"; type_ = "qcow2"; discard = ""; detect_zeros = "" };
  device = "disk";
  source = some (record { file = some file; block = none; volume = none });
  target = some (record { dev = dev; bus = "scsi" });
  readonly = false;
  backing_store = [];
  wwn = "";
}

abbrev pub sda : List ℕ
sda = b's' ∷ b'd' ∷ b'a' ∷ []

abbrev pub sdb : List ℕ
sdb = b's' ∷ b'd' ∷ b'b' ∷ []

abbrev pub devices : List DomainDisk → DomainDeviceList
devices disks = record {
  controllers = [];
  disks = disks;
  interfaces = [];
  hostdevs = [];
  rngs = [];
  consoles = [];
  channels = [];
  serials = 1;
}

abbrev pub domain_with : List DomainDisk → DomainDef
domain_with disks = record {
  type_ = "kvm";
  name = "vm";
  os = none;
  acpi = true;
  apic = true;
  vcpu = none;
  memory = none;
  cpu = none;
  numatune = none;
  devices = some (devices disks);
  sec_labels = [];
}

abbrev pub vm : DomainId
vm = record { name = "vm" }

abbrev pub vol : String → StorageVol
vol key = record { pool = "pool"; name = key; key = key }

-- The upload of a volume fails.
abbrev pub machine : Client ℕ
machine = record {
  capabilities = λ s. ok "caps";
  domain_block_resize = λ id dev n s. (ok tt, s);
  domain_create = λ id s. (ok tt, s);
  domain_define_xml = λ xml s. (ok vm, s);
  domain_get_state = λ id s. ok (if ltb s 2 then running else shutoff);
  domain_get_xml_desc = λ id s. ok "vm";
  domain_lookup_by_name =
      λ name s. if str_eq name "vm" then ok vm else err (libvirt err_no_domain "no domain");
  domain_shutdown = λ id s. (ok tt, s);
  domain_undefine_flags = λ id s. (ok tt, s);
  network_is_active = λ n s. ok 1;
  network_lookup_by_name = λ name s. ok (record { name = name });
  node_device_get_xml_desc = λ name s. ok name;
  node_device_is_active = λ name s. ok 1;
  node_device_lookup_by_name = λ name s. ok tt;
  node_get_memory_stats = λ s. ok [];
  storage_pool_get_info =
      λ p s. ok (record { state = pool_running; capacity = 8; allocation = 3; available = 5 });
  storage_pool_lookup_by_name = λ name s. ok (record { name = name });
  storage_vol_lookup_by_key = λ key s. ok (vol key);
  storage_vol_lookup_by_name = λ p name s. ok (vol name);
  storage_vol_get_xml_desc = λ v s. ok v.key;
  storage_vol_create_xml = λ p xml s. (ok (vol "new"), s);
  storage_vol_upload = λ v file s. (err (api "broken pipe"), s);
  storage_vol_resize = λ v n s. (ok tt, s);
  storage_vol_delete = λ v s. (ok tt, s);
  sleep = suc;
  unmarshal_volume = λ xml. ok (volume_of xml);
  marshal_volume = λ def. ok def.name;
  unmarshal_domain = λ xml. ok (domain_with (disk_at sda "base" ∷ []));
  marshal_domain = λ def. ok def.name;
  unmarshal_node_device =
      λ xml. ok (some (record { domain = some 0; bus = some 3; slot = some 1; function = some 0 }));
  unmarshal_caps = λ xml. ok (record { arch = some "x86_64"; numa = none });
}

-- The same host with a domain that never goes off.
abbrev pub stubborn : Client ℕ
stubborn = record machine { domain_get_state = λ id s. ok running }

abbrev pub domain_action : List DomainDisk → DomainAction
domain_action disks = record {
  name = "vm";
  id = some vm;
  def = domain_with disks;
  state = other_state;
}

abbrev pub volume_action : String → VolumeAction
volume_action key = record {
  name = key;
  pool_name = "pool";
  pool = record { name = "pool" };
  id = some (vol key);
  def = volume_of key;
  source = none;
}

-- Conditions are kept newest first, and every one that is set counts as a change.
abbrev pub kit : Machinery
kit = record {
  set_status_condition = λ cs c. (c ∷ cs, true);
  find_status_condition = λ cs t. none;
  is_status_condition_true = λ cs t. false;
  add_finalizer = λ fs f. (f ∷ fs, true);
  contains_finalizer = λ fs f. any (str_eq f) fs;
  remove_finalizer = λ fs f. delete_func (str_eq f) fs;
  now = 1000;
}

abbrev pub casts : Casts
casts = record { to_int32 = λ n. n; to_int64 = λ n. n; to_uint = λ n. n; to_uint64 = λ n. n }

abbrev pub accepting : {O : Type 0} → Server O
accepting = record { update_answer = λ log o. ok tt; status_answer = λ log o. ok tt }

abbrev pub at : {O : Type 0} → ℕ → World ℕ O
at s = record { host = s; log = [] }

abbrev pub meta_of : String → Bool → ObjectMeta
meta_of name deleting = record {
  name = name;
  namespace = "default";
  uid = name;
  generation = 1;
  deleting = deleting;
  finalizers = "libvirt.karelvanhecke.com/finalizer" ∷ [];
  labels = none;
}

-- A list with an element is not empty.
pub cons_not_nil : {A : Type 0} (x : A) (xs : List A) → x ∷ xs ≢ []
cons_not_nil x xs h = cc

-- A file system whose state is the number of its calls, and one on which no file can be made.
abbrev pub disk : Files ℕ
disk = record {
  tmp_dir = "/tmp";
  join = λ a b. str_append a (str_append "/" b);
  mkdir_temp = λ name s. (ok (str_append "/tmp/" (str_append name ".1")), suc s);
  create_file = λ path data_ s. (ok tt, suc s);
  symlink = λ old new s. (ok tt, suc s);
  eval_symlinks = λ path s. ok (str_append path ".0");
  rename = λ old new s. (ok tt, suc s);
  remove = λ path s. (ok tt, suc s);
  remove_all = λ path s. (ok tt, suc s);
}

abbrev pub full_disk : Files ℕ
full_disk = record disk {
  create_file = λ path data_ s. (err (message "no space left on device"), suc s);
}

abbrev pub known_auth : AuthEntry
known_auth = record { path = "/tmp/auth"; generation = 1 }

-- An auth that is known, on a disk that was not used.
abbrev pub auth_world : {O : Type 0} → World (AuthState ℕ) O
auth_world = record {
  host = record { auths = ("auth", known_auth) ∷ []; files = 0; ops = [] };
  log = [];
}

abbrev pub the_pool : Pool
the_pool = record {
  meta = meta_of "pool" false;
  spec = record { name = "pool"; host_ref = "host" };
  conditions = [];
  status = none;
}

abbrev pub the_host : Host
the_host = record {
  meta = meta_of "host" false;
  spec = record { address = "host"; auth_ref = "auth"; port = none };
  conditions = [];
  status = none;
}

abbrev pub ssh_root : Dialer
ssh_root = ssh "host" (record {
  key_file = "/tmp/auth/privatekey";
  username = "root";
  accept_unknown = false;
  known_hosts = some "/tmp/auth/known_hosts";
  port = none;
})

abbrev pub entry : HostEntry
entry = record { generation = 1; client = ssh_root; connected = true; sessions = [] }

-- Every condition is true.
abbrev pub ready_kit : Machinery
ready_kit = record kit { is_status_condition_true = λ cs t. true }

-- Every object has the finalizer already.
abbrev pub held_kit : Machinery
held_kit = record kit { add_finalizer = λ fs f. (fs, false) }
