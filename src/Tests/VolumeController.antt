-- ===== src/Tests/VolumeController.antt =====
-- The theorems of Controller/Volume at the host of Fixtures.
use libvirt_operator.Prelude.{
  ℕ, String, List, [], ◌∷◌, ◌++◌, Option, none, some, true, false, ◌≡◌, ◌≢◌, refl, ltb, length,
}
use libvirt_operator.Outcome.{ok, err, api, not_found}
use libvirt_operator.Host.{storage_vol_create_xml, storage_vol_upload}
use libvirt_operator.Host.Monad.{host_call, status_update}
use libvirt_operator.Api.Kinds.{Volume, Pool}
use libvirt_operator.Action.Volume.State.{VolumeAction, new_volume_action, state}
use libvirt_operator.Action
use libvirt_operator.Action.Volume.Source.{Remote}
use libvirt_operator.Controller.Base.{Machinery, done, drop_finalizer}
use libvirt_operator.Store.Host.{lookup_entry, session}
use libvirt_operator.Controller.Volume.{
  Env, volume_users, domain_users, delete_volume, resolve_refs,
}
use libvirt_operator.Controller.Volume.Reconcile.{
  reconcile_volume, delete_stage, resize_stage, act, with_session, with_entry, with_refs,
}
use libvirt_operator.Controller.Volume.Deletion.{
  Unused, Gone, reconcile_deletes-Unused, delete_stage_update,
}
use libvirt_operator.Controller.Volume.Resizing.{GrowsOnly, resize_stage-GrowsOnly}
use libvirt_operator.Controller.Volume.Creation.{succeeded, reported, partial_upload_reported}
use libvirt_operator.Tests.Fixtures.{
  cons_not_nil, machine, kit, ready_kit, held_kit, the_pool, the_host, entry, casts, accepting, at,
  meta_of, volume_action, vol,
}

abbrev web : Remote
web = record {
  new_request = λ url. ok tt;
  fetch = λ url. err (api "offline");
  create_temp = ok tt;
  copy_body = ok tt;
  seek_start = ok tt;
  copy_to_hash = ok tt;
  hex_sum = λ h file. [];
}

abbrev the_volume : Volume
the_volume = record {
  meta = meta_of "base" true;
  spec = record {
    name = "base";
    generate_name = "";
    format = "qcow2";
    size = none;
    pool_ref = "pool";
    source = none;
    backing_store_ref = none;
  };
  conditions = [];
  status = record { pool = ""; host = "" };
}

abbrev env : Env
env = record {
  get = ok the_volume;
  get_pool = λ ref. ok the_pool;
  get_host = λ ref. ok the_host;
  get_volume = λ ref. err (not_found "no volume");
  requirement = λ key value. ok tt;
  volumes = λ key value. ok [];
  domains = λ key value. ok [];
  hosts = ("host", entry) ∷ [];
  remote = web;
  close_source = ok tt;
  remove_source = ok tt;
}

reconcile_deletes-Unused_example : Unused machine ready_kit casts accepting env the_volume
unfolding reconcile_volume resolve_refs with_refs with_entry with_session new_volume_action act
    delete_stage delete_volume volume_users domain_users state drop_finalizer lookup_entry session
    libvirt_operator.Prelude.lookup libvirt_operator.Action.Volume.State.delete
reconcile_deletes-Unused_example =
    reconcile_deletes-Unused machine ready_kit casts accepting env the_volume (at 0) refl
      (cons_not_nil _ _)

delete_stage_update_example :
    Gone machine kit casts accepting env (volume_action "base") (at 0)
    × (((volume_action "base").id ≢ none) → Unused machine kit casts accepting env the_volume)
unfolding delete_stage delete_volume volume_users domain_users state drop_finalizer
    libvirt_operator.Action.Volume.State.delete
delete_stage_update_example =
    delete_stage_update machine kit casts accepting env the_volume (volume_action "base") (at 0)
      (cons_not_nil _ _)

-- One domain has the volume as a disk.
abbrev used_env : Env
used_env = record env { domains = λ key value. ok ("vm" ∷ []) }

resize_stage-GrowsOnly_example :
    GrowsOnly machine kit casts accepting used_env the_volume (volume_action "base") (at 0) (
      resize_stage machine kit casts accepting used_env the_volume
        (volume_action "base")
        (some (record { unit = "GiB"; value = 12 }))
        (at 0))
resize_stage-GrowsOnly_example =
    resize_stage-GrowsOnly machine kit casts accepting used_env the_volume (volume_action "base")
      (some (record { unit = "GiB"; value = 12 })) (at 0)

abbrev unfinished : VolumeAction
unfinished = record (volume_action "new") { source = some (1 ∷ []) }

-- A volume that asks for no size, and is named as the one that was left on the host.
abbrev left_volume : Volume
left_volume =
    let spec = the_volume.spec in
    record the_volume { meta = meta_of "base" false; spec = record spec { name = "new" } }

-- A pool with the condition that it is ready, and conditions that are true wherever there are any.
abbrev ready_pool : Pool
ready_pool = record the_pool { conditions = succeeded machine kit casts accepting env ∷ [] }

abbrev pool_kit : Machinery
pool_kit = record held_kit { is_status_condition_true = λ cs t. ltb 0 (length cs) }

abbrev pool_env : Env
pool_env = record env { get_pool = λ ref. ok ready_pool }

partial_upload_reported_example :
    let first = Action.Volume.State.create {O = Volume} machine unfinished (at 0) in
    let next = reconcile_volume machine pool_kit casts accepting pool_env left_volume first.1 in
    (first.0 ≡ err (api "broken pipe"))
    × (next.0 ≡ ok done)
    × (next.1.log
        ≡ (([] ++ host_call (storage_vol_create_xml (record { name = "pool" }) "new") ∷ [])
            ++ host_call (storage_vol_upload (vol "new")) ∷ [])
          ++ status_update
              (reported machine pool_kit casts accepting pool_env left_volume ready_pool)
            ∷ [])
unfolding resolve_refs lookup_entry session new_volume_action libvirt_operator.Prelude.lookup
partial_upload_reported_example =
    partial_upload_reported machine pool_kit casts accepting pool_env unfinished "new" (1 ∷ [])
      (vol "new") (api "broken pipe") (at 0) 0 0 left_volume ready_pool the_host entry _ _ refl refl
      refl refl refl refl refl refl refl refl refl refl refl refl refl (λ log. refl)
