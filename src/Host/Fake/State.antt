-- ===== src/Host/Fake/State.antt =====
-- The state of the fake host (fake.go, with the types of pool.go, domain.go, network.go and nodedev.go),
-- the look-ups by name, and how a test sets it up.
use libvirt_operator.Prelude.{
  ℕ, String, Bool, true, false, List, [], ◌∷◌, ◌++◌, Option, none, some, if◌then◌else◌, str_eq,
  find,
}
use libvirt_operator.Outcome.{
  Outcome, ok, err, panic, hang, libvirt, message, error_text, Code, err_no_domain,
  err_no_storage_pool, err_no_storage_vol, err_no_network, err_no_node_device,
}
use libvirt_operator.Libvirt.{DomainState, StorageVolume, DomainDef, PciCapability, Caps, PoolState}

abbrev pub err_connect_failed : String
err_connect_failed = "connect to host failed"

abbrev pub err_disconnect_failed : String
err_disconnect_failed = "disconnect from host failed"

abbrev pub err_pool_not_exist : String
err_pool_not_exist = "pool does not exist"

abbrev pub err_domain_not_exist : String
err_domain_not_exist = "domain does not exist"

-- The text is that of err_domain_not_exist.
abbrev pub err_domain_already_exist : String
err_domain_already_exist = "domain does not exist"

abbrev pub err_domain_already_running : String
err_domain_already_running = "domain is already running"

abbrev pub err_domain_already_shutoff : String
err_domain_already_shutoff = "domain is already shutoff"

abbrev pub err_network_not_exist : String
err_network_not_exist = "network does not exist"

abbrev pub err_nodedev_not_exist : String
err_nodedev_not_exist = "Node device does not exist"

abbrev pub err_volume_exists : String
err_volume_exists = "volume already exists"

abbrev pub err_volume_not_exist : String
err_volume_not_exist = "volume does not exist"

-- A volume with the key of its description.
pub record KeyedVolume : Type 0 where
  pub key : String
  pub def : StorageVolume

pub record FakePool : Type 0 where
  pub name : String
  pub state : PoolState
  pub capacity : Option ℕ
  pub allocation : Option ℕ
  pub available : Option ℕ
  pub volumes : List KeyedVolume

-- The reasons that the fake gives for a state.
pub data StateReason : Type 0 where
  unknown booted was_shut_down : StateReason

pub record FakeDomain : Type 0 where
  pub state : DomainState
  pub reason : StateReason
  pub def : DomainDef

pub record FakeNetwork : Type 0 where
  pub name : String
  pub state : ℕ

pub record FakeNodedev : Type 0 where
  pub name : String
  pub state : ℕ
  pub capability : Option PciCapability

pub record Memory : Type 0 where
  pub total : ℕ
  pub free : ℕ

-- `connected` says that the channel `disconnected` is open.
pub record Fake : Type 0 where
  pub capabilities : Caps
  pub memory : Memory
  pub connect_fail : Bool
  pub disconnect_fail : Bool
  pub connected : Bool
  pub pools : List FakePool
  pub domains : List FakeDomain
  pub networks : List FakeNetwork
  pub nodedevs : List FakeNodedev

-- The XML library.
pub record Codec : Type 0 where
  pub marshal_caps : Caps → Outcome String
  pub unmarshal_caps : String → Outcome Caps
  pub marshal_volume : KeyedVolume → Outcome String
  pub unmarshal_volume : String → Outcome KeyedVolume
  pub marshal_domain : DomainDef → Outcome String
  pub unmarshal_domain : String → Outcome DomainDef
  pub marshal_nodedev : FakeNodedev → Outcome String
  pub unmarshal_nodedev : String → Outcome (Option PciCapability)

-- What slices.IndexFunc finds, or an error.
abbrev pub or_error {ℓ} : {A : Type ℓ} → Code → String → Option A → Outcome A
or_error c text none = err (libvirt c text)
or_error c text (some a) = ok a

-- A change through a pointer to the first element that passes the test.
abbrev pub update_first {ℓ} : {A : Type ℓ} → (A → Bool) → (A → A) → List A → List A
update_first p f [] = []
update_first p f (x ∷ xs) =
    let rest = update_first p f xs in elim (p x) [ true ↦ f x ∷ xs | false ↦ x ∷ rest ]

abbrev pub volume_named : String → KeyedVolume → Bool
volume_named name v = str_eq v.def.name name

abbrev pub pool_named : String → FakePool → Bool
pool_named name p = str_eq p.name name

abbrev pub domain_named : String → FakeDomain → Bool
domain_named name d = str_eq d.def.name name

unfoldable pub get_volume_by_name : String → FakePool → Outcome KeyedVolume
get_volume_by_name name p =
    or_error err_no_storage_vol err_volume_not_exist (find (volume_named name) p.volumes)

unfoldable pub get_pool_by_name : String → Fake → Outcome FakePool
get_pool_by_name name f =
    or_error err_no_storage_pool err_pool_not_exist (find (pool_named name) f.pools)

unfoldable pub get_domain_by_name : String → Fake → Outcome FakeDomain
get_domain_by_name name f =
    or_error err_no_domain err_domain_not_exist (find (domain_named name) f.domains)

unfoldable pub get_network_by_name : String → Fake → Outcome FakeNetwork
get_network_by_name name f =
    or_error err_no_network err_network_not_exist (find (λ n. str_eq n.name name) f.networks)

unfoldable pub get_node_device_by_name : String → Fake → Outcome FakeNodedev
get_node_device_by_name name f =
    or_error err_no_node_device err_nodedev_not_exist (find (λ n. str_eq n.name name) f.nodedevs)

-- A new thing goes in where the look-up says that there is none of its name.
abbrev pub unless_found {ℓ κ} :
    {A : Type ℓ} {B : Type κ} → String → String → B → Outcome A → Outcome B
unless_found exists missing b (ok a) = err (message exists)
unless_found exists missing b (err e) = if str_eq (error_text e) missing then ok b else err e
unless_found exists missing b panic = panic
unless_found exists missing b hang = hang

-- A look-up that may fail, and the change of the state after it.
abbrev pub then_change :
    {A B : Type 0} → Outcome A → (A → Outcome B × Fake) → Fake → Outcome B × Fake
then_change (ok a) g f = g a
then_change (err e) g f = (err e, f)
then_change panic g f = (panic, f)
then_change hang g f = (hang, f)

abbrev pub set_pool : String → (FakePool → FakePool) → Fake → Fake
set_pool name g f = record f { pools = update_first (pool_named name) g f.pools }

abbrev pub set_domain : String → (FakeDomain → FakeDomain) → Fake → Fake
set_domain name g f = record f { domains = update_first (domain_named name) g f.domains }

-- New
unfoldable pub new_fake : Caps → Fake
new_fake caps = record {
  capabilities = caps;
  memory = record { total = 0; free = 0 };
  connect_fail = false;
  disconnect_fail = false;
  connected = false;
  pools = [];
  domains = [];
  networks = [];
  nodedevs = [];
}

unfoldable pub with_pool : FakePool → Fake → Fake
with_pool p f = record f { pools = f.pools ++ p ∷ [] }

unfoldable pub with_domain : DomainDef → DomainState → Fake → Fake
with_domain def state f = record f {
  domains = f.domains ++ record { state = state; reason = unknown; def = def } ∷ [];
}

-- The state that is given is not used.
unfoldable pub with_network : String → ℕ → Fake → Fake
with_network name state f = record f {
  networks = f.networks ++ record { name = name; state = 1 } ∷ [];
}

unfoldable pub with_nodedev : FakeNodedev → Fake → Fake
with_nodedev n f = record f { nodedevs = f.nodedevs ++ n ∷ [] }

unfoldable pub with_connect_fail : Fake → Fake
with_connect_fail f = record f { connect_fail = true }

unfoldable pub with_disconnect_fail : Fake → Fake
with_disconnect_fail f = record f { disconnect_fail = true }

unfoldable pub with_memory_stats : Memory → Fake → Fake
with_memory_stats memory f = record f { memory = memory }

unfoldable pub with_capabilities : Caps → Fake → Fake
with_capabilities caps f = record f { capabilities = caps }

unfoldable pub is_connected : Fake → Bool
is_connected f = f.connected

unfoldable pub connect : Fake → Outcome (Unit {0}) × Fake
connect f =
    if f.connect_fail
    then (err (message err_connect_failed), f)
    else (ok tt, record f { connected = true })

-- A channel that is closed already is not closed again: Go panics.
unfoldable pub disconnect : Fake → Outcome (Unit {0}) × Fake
disconnect f =
    if f.disconnect_fail
    then (err (message err_disconnect_failed), f)
    else if f.connected
    then (ok tt, record f { connected = false })
    else (panic, f)
