-- ===== src/Host/Fake/Storage.antt =====
-- The pools and the volumes of the fake host.
use libvirt_operator.Prelude.{
  ℕ, String, List, [], ◌∷◌, ◌++◌, Option, none, some, str_eq, find, delete_func,
}
use libvirt_operator.Outcome.{Outcome, ok, deref, err_no_storage_vol, ◌>>=◌}
use libvirt_operator.Libvirt.{StoragePool, StorageVol, PoolInfo, PoolState}
use libvirt_operator.Host.Fake.State.{
  err_volume_exists, err_volume_not_exist, KeyedVolume, FakePool, Fake, Codec, or_error,
  update_first, volume_named, get_volume_by_name, get_pool_by_name, unless_found, then_change,
  set_pool,
}

abbrev pub handle_of : String → KeyedVolume → StorageVol
handle_of pool v = record { pool = pool; name = v.def.name; key = v.key }

-- A volume is looked for by its key in one pool after the other.
unfoldable pub find_key : String → List FakePool → Option StorageVol
find_key key [] = none
find_key key (p ∷ ps) =
    let rest = find_key key ps in
    elim (find (λ v. str_eq v.key key) p.volumes) [
      | some v ↦ some (handle_of p.name v)
      | none ↦ rest
    ]

abbrev pub sized_volume : ℕ → KeyedVolume → KeyedVolume
sized_volume n v =
    let d = v.def in
    record v { def = record d { capacity = some (record { unit = "bytes"; value = n }) } }

abbrev pub set_volume : String → (KeyedVolume → KeyedVolume) → FakePool → FakePool
set_volume name g p = record p { volumes = update_first (volume_named name) g p.volumes }

unfoldable pub vol_by_name : StorageVol → Fake → Outcome KeyedVolume
vol_by_name v f = get_pool_by_name v.pool f >>= get_volume_by_name v.name

-- The capacity is written through a pointer, which may be nil.
unfoldable pub write_capacity : StorageVol → ℕ → Fake → Outcome (Unit {0}) × Fake
write_capacity v n f =
    then_change (vol_by_name v f >>= (λ found. deref found.def.capacity))
      (λ size. (ok tt, set_pool v.pool (set_volume v.name (sized_volume n)) f)) f

unfoldable pub pool_lookup : String → Fake → Outcome StoragePool
pool_lookup name f = get_pool_by_name name f >>= (λ p. ok (record { name = p.name }))

unfoldable pub vol_lookup : StoragePool → String → Fake → Outcome StorageVol
vol_lookup p name f =
    get_pool_by_name p.name f >>= get_volume_by_name name >>= (λ v. ok (handle_of p.name v))

unfoldable pub vol_lookup_by_key : String → Fake → Outcome StorageVol
vol_lookup_by_key key f = or_error err_no_storage_vol err_volume_not_exist (find_key key f.pools)

info_of : FakePool → Outcome PoolInfo
info_of p = do
  capacity ← deref p.capacity
  allocation ← deref p.allocation
  available ← deref p.available
  ok (record {
    state = p.state;
    capacity = capacity;
    allocation = allocation;
    available = available;
  })

unfoldable pub pool_info : StoragePool → Fake → Outcome PoolInfo
unfolding info_of
pool_info p f = get_pool_by_name p.name f >>= info_of

-- The state of a pool; the interface has no such call.
unfoldable pub pool_is_active : StoragePool → Fake → Outcome PoolState
pool_is_active p f = get_pool_by_name p.name f >>= (λ q. ok q.state)

unfoldable pub storage_vol_delete : StorageVol → Fake → Outcome (Unit {0}) × Fake
storage_vol_delete v f =
    then_change (vol_by_name v f)
      (λ _. (
        ok tt,
        set_pool v.pool (λ q. record q { volumes = delete_func (volume_named v.name) q.volumes }) f,
      ))
      f

module _ (x : Codec) where
  -- createVol, on the pool that was found.
  unfoldable pub create_vol : String → FakePool → Outcome KeyedVolume
  create_vol xml p = do
    vol ← x.unmarshal_volume xml
    unless_found err_volume_exists err_volume_not_exist vol (get_volume_by_name vol.def.name p)

  unfoldable pub storage_vol_create_xml : StoragePool → String → Fake → Outcome StorageVol × Fake
  storage_vol_create_xml pool xml f =
      then_change (get_pool_by_name pool.name f >>= (λ p. create_vol xml p >>= (λ v. ok (p, v))))
        (λ (p, v). (
          ok (handle_of p.name v),
          set_pool pool.name (λ q. record q { volumes = q.volumes ++ v ∷ [] }) f,
        ))
        f

  unfoldable pub vol_xml : StorageVol → Fake → Outcome String
  vol_xml v f = vol_by_name v f >>= x.marshal_volume
