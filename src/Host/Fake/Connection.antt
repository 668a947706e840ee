-- ===== src/Host/Fake/Connection.antt =====
-- The fake host as a Client: its networks, node devices and memory, and all its calls together.
use libvirt_operator.Prelude.{ℕ, String, List, [], ◌∷◌, length}
use libvirt_operator.Outcome.{Outcome, ok, ◌>>=◌}
use libvirt_operator.Libvirt.{Network, MemoryStat, stats_total, stats_free}
use libvirt_operator.Host.{Client}
use libvirt_operator.Host.Fake.State.{Fake, Codec, get_network_by_name, get_node_device_by_name}
use libvirt_operator.Host.Fake.Storage.{
  write_capacity, pool_lookup, vol_lookup, vol_lookup_by_key, pool_info, storage_vol_create_xml,
  storage_vol_delete, vol_xml,
}
use libvirt_operator.Host.Fake.Domains.{
  domain_block_resize, domain_state, domain_lookup, domain_create, domain_shutdown, domain_undefine,
  domain_define_xml, domain_xml,
}

unfoldable pub network_active : Network → Fake → Outcome ℕ
network_active n f = get_network_by_name n.name f >>= (λ found. ok found.state)

unfoldable pub network_lookup : String → Fake → Outcome Network
network_lookup name f = get_network_by_name name f >>= (λ n. ok (record { name = n.name }))

unfoldable pub node_device_active : String → Fake → Outcome ℕ
node_device_active name f = get_node_device_by_name name f >>= (λ n. ok n.state)

-- The handle is not looked at.
unfoldable pub node_device_lookup : String → Fake → Outcome (Unit {0})
node_device_lookup name f = get_node_device_by_name name f >>= (λ n. ok tt)

unfoldable pub memory_stats : Fake → Outcome (List MemoryStat)
memory_stats f = ok (
    record { field = stats_total; value = f.memory.total }
    ∷ record { field = stats_free; value = f.memory.free }
    ∷ [])

module _ (x : Codec) where
  unfoldable pub capabilities : Fake → Outcome String
  capabilities f = x.marshal_caps f.capabilities

  unfoldable pub node_device_xml : String → Fake → Outcome String
  node_device_xml name f = get_node_device_by_name name f >>= x.marshal_nodedev

  unfoldable pub fake_client : Client Fake
  fake_client = record {
    capabilities = capabilities;
    domain_block_resize = domain_block_resize;
    domain_create = domain_create;
    domain_define_xml = domain_define_xml x;
    domain_get_state = domain_state;
    domain_get_xml_desc = domain_xml x;
    domain_lookup_by_name = domain_lookup;
    domain_shutdown = domain_shutdown;
    domain_undefine_flags = domain_undefine;
    network_is_active = network_active;
    network_lookup_by_name = network_lookup;
    node_device_get_xml_desc = node_device_xml;
    node_device_is_active = node_device_active;
    node_device_lookup_by_name = node_device_lookup;
    node_get_memory_stats = memory_stats;
    storage_pool_get_info = pool_info;
    storage_pool_lookup_by_name = pool_lookup;
    storage_vol_lookup_by_key = vol_lookup_by_key;
    storage_vol_lookup_by_name = vol_lookup;
    storage_vol_get_xml_desc = vol_xml x;
    storage_vol_create_xml = storage_vol_create_xml x;
    storage_vol_upload = λ v file f. write_capacity v (length file) f;
    storage_vol_resize = write_capacity;
    storage_vol_delete = storage_vol_delete;
    sleep = λ f. f;
    unmarshal_volume = λ xml. x.unmarshal_volume xml >>= (λ v. ok v.def);
    marshal_volume = λ def. x.marshal_volume (record { key = ""; def = def });
    unmarshal_domain = x.unmarshal_domain;
    marshal_domain = x.marshal_domain;
    unmarshal_node_device = x.unmarshal_nodedev;
    unmarshal_caps = x.unmarshal_caps;
  }
