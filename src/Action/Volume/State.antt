-- ===== src/Action/Volume/State.antt =====
-- VolumeAction of internal/action/volume.go: NewVolumeAction, the setters, BackingStore, Create, Delete.
use libvirt_operator.Prelude.{ℕ, String, Bool, List, Option, none, some, is_some, if◌then◌else◌}
use libvirt_operator.Outcome.{
  Outcome, Error, ok, err, panic, hang, deref, has_code, err_no_storage_vol, ◌>>=◌,
}
use libvirt_operator.Libvirt.{StoragePool, StorageVol, StorageVolume}
use libvirt_operator.Host.{Client, storage_vol_create_xml, storage_vol_upload, storage_vol_delete}
use libvirt_operator.Host.Monad.{M, pure, lift, change}
use libvirt_operator.Host.Monad

-- `source` is the content of the file to upload.
pub record VolumeAction : Type 0 where
  pub name : String
  pub pool_name : String
  pub pool : StoragePool
  pub id : Option StorageVol
  pub def : StorageVolume
  pub source : Option (List ℕ)

abbrev pub empty_volume : String → StorageVolume
empty_volume name = record {
  type_ = "";
  name = name;
  capacity = none;
  target = none;
  backing_store = none;
}

module _ {S : Type 0} (c : Client S) (s : S) where
  existing_volume : String → String → StoragePool → StorageVol → Outcome VolumeAction
  existing_volume name pool_name pool id = do
    xml ← c.storage_vol_get_xml_desc id s
    def ← c.unmarshal_volume xml
    ok (record {
      name = name;
      pool_name = pool_name;
      pool = pool;
      id = some id;
      def = def;
      source = none;
    })

  missing_volume : String → String → StoragePool → Error → Outcome VolumeAction
  missing_volume name pool_name pool e =
      if has_code err_no_storage_vol e
      then ok (record {
        name = name;
        pool_name = pool_name;
        pool = pool;
        id = none;
        def = empty_volume name;
        source = none;
      })
      else err e

  -- It only reads the host.
  unfoldable pub new_volume_action : String → String → Outcome VolumeAction
  unfolding existing_volume missing_volume
  new_volume_action name pool_name = do
    pool ← c.storage_pool_lookup_by_name pool_name s
    elim (c.storage_vol_lookup_by_name pool name s) [
      | ok id ↦ existing_volume name pool_name pool id
      | err e ↦ missing_volume name pool_name pool e
      | panic ↦ panic
      | hang ↦ hang
    ]

  -- The volume takes the path and format of its backing store, and its size where it has none.
  unfoldable pub backing_store : String → String → VolumeAction → Outcome VolumeAction
  backing_store name pool a = do
    p ← c.storage_pool_lookup_by_name pool s
    bs ← c.storage_vol_lookup_by_name p name s
    xml ← c.storage_vol_get_xml_desc bs s
    info ← c.unmarshal_volume xml
    t ← deref info.target
    let d = a.def
    let backed = record d { backing_store = some (record { path = t.path; format = t.format }) }
    if is_some d.capacity then ok (record a { def = backed }) else (do
      size ← deref info.capacity
      ok (record a { def = record backed { capacity = some size } }))

-- exists
unfoldable pub state : VolumeAction → Bool
state a = is_some a.id

unfoldable pub set_size : String → ℕ → VolumeAction → VolumeAction
set_size unit value a =
    let d = a.def in
    record a { def = record d { capacity = some (record { unit = unit; value = value }) } }

-- The target is replaced whole, so a path is lost.
unfoldable pub set_format : String → VolumeAction → VolumeAction
set_format format a =
    let d = a.def in
    record a { def = record d { target = some (record { path = ""; format = some format }) } }

unfoldable pub local_source : List ℕ → VolumeAction → VolumeAction
local_source file a = record a { source = some file }

module _ {S O : Type 0} (c : Client S) where
  upload : StorageVol → Option (List ℕ) → M S O (Unit {0})
  upload v none = pure tt
  upload v (some file) = change (storage_vol_upload v) (c.storage_vol_upload v file)

  -- The volume exists from the first call on, also where the upload fails.
  unfoldable pub create : VolumeAction → M S O (Unit {0})
  unfolding upload
  create a = Monad.◌>>=◌ (lift (c.marshal_volume a.def)) (λ xml.
      Monad.◌>>=◌ (change (storage_vol_create_xml a.pool xml) (c.storage_vol_create_xml a.pool xml))
        (λ v. upload v a.source))

  unfoldable pub delete : VolumeAction → M S O (Unit {0})
  delete a =
      Monad.◌>>=◌ (lift (deref a.id))
        (λ id. change (storage_vol_delete id) (c.storage_vol_delete id))

-- CleanupSource, given what closing and removing the file answer.
unfoldable pub cleanup_source :
    Outcome (Unit {0}) → Outcome (Unit {0}) → VolumeAction → Outcome (Unit {0})
cleanup_source close remove a = do file ← deref a.source; _ ← close; remove
