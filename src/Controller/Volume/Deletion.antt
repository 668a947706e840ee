-- ===== src/Controller/Volume/Deletion.antt =====
-- What a run does to a volume that is being deleted: only an unused volume is deleted from the host,
-- and the finalizer goes only after that.
use libvirt_operator.Prelude.{
  String, true, [], ◌∷◌, Option, none, some, ◌≡◌, ◌≢◌, refl, arith, ◌⊎◌, inl, inr, Option-cases,
}
use mathlib.Core.List.{append-nil}
use libvirt_operator.Outcome.{Outcome, ok, err, panic, hang, error_text}
use libvirt_operator.Libvirt.{StorageVol}
use libvirt_operator.Host.{Client, storage_vol_delete}
use libvirt_operator.Host.Monad.{
  World, host_call, lift_cases, attempt_cases, Attempt, success, failure,
}
use libvirt_operator.Api.{
  finalizer, deletion_prevented, ready, status_true, status_false, in_use, unmet_requirements,
}
use libvirt_operator.Api.Kinds.{Volume, Pool, Host}
use libvirt_operator.Store.Host.{HostEntry, lookup_entry, session}
use libvirt_operator.Action.Volume.State.{VolumeAction, new_volume_action, state}
use libvirt_operator.Action
use libvirt_operator.Controller.Base.{
  Machinery, Casts, Server, Result, updates, updates-append, host_calls,
  condition_host_client_not_ready, condition_pool_not_ready,
}
use libvirt_operator.Controller.Writes.{
  host_calls-set_status_condition, host_calls-drop_finalizer, updates-set_status_condition,
}
use libvirt_operator.Controller.Volume.{
  err_volume_in_use, Env, volume_users, domain_users, delete_volume, resolve_refs,
}
use libvirt_operator.Controller.Volume.Reconcile.{
  delete_stage, act, note_unready, with_session, with_entry, with_refs, reconcile_volume,
}

module _ {S : Type 0} (c : Client S) (k : Machinery) (casts : Casts) (v : Server Volume)
    (env : Env) where
  -- No volume is backed by this one, and no domain has it as a disk.
  abbrev pub Unused : Volume → Type 0
  Unused r = (volume_users env r.meta.name ≡ ok []) × (domain_users env r.meta.name ≡ ok [])

  delete_volume_calls :
      (r : Volume) (a : VolumeAction) (w : World S Volume)
      → host_calls (delete_volume c k casts v env r a w).1.log ≢ host_calls w.log
      → Unused r
  unfolding delete_volume
  delete_volume_calls r a w changed = ground (
    arith,
    host_calls-set_status_condition k v r deletion_prevented status_true err_volume_in_use in_use w,
  )

  delete_stage_calls :
      (r : Volume) (a : VolumeAction) (w : World S Volume)
      → host_calls (delete_stage c k casts v env r a w).1.log ≢ host_calls w.log
      → Unused r
  unfolding delete_stage
  delete_stage_calls r a w changed = ground (
    arith,
    delete_volume_calls r a w,
    host_calls-drop_finalizer k v finalizer r w,
    host_calls-drop_finalizer k v finalizer r (delete_volume c k casts v env r a w).1,
  )

  -- A run that begins at w and calls the host only if the volume is unused.
  abbrev CallsOnlyUnused : Volume → World S Volume → Outcome Result × World S Volume → Type 0
  CallsOnlyUnused r w p = host_calls p.1.log ≢ host_calls w.log → Unused r

  act_calls :
      (r : Volume) (pool : Pool) (a : VolumeAction) (w : World S Volume)
      → r.meta.deleting ≡ true
      → CallsOnlyUnused r w (act c k casts v env r pool a w)
  unfolding act
  act_calls r pool a w d changed = ground (arith, delete_stage_calls r a w)

  note_unready_calls :
      (r : Volume) (text : String) (w : World S Volume)
      → host_calls (note_unready c k casts v env r text w).1.log ≡ host_calls w.log
  unfolding note_unready
  note_unready_calls r text w =
      ground
        (arith, host_calls-set_status_condition k v r ready status_false text unmet_requirements w)

  with_session_calls :
      (r : Volume) (pool : Pool) (e : Outcome HostEntry) (w : World S Volume)
      → r.meta.deleting ≡ true
      → CallsOnlyUnused r w (with_session c k casts v env r pool e w)
  unfolding with_session
  with_session_calls r pool (ok e) w d changed =
      lift_cases (CallsOnlyUnused r w) (new_volume_action c w.host r.spec.name pool.spec.name)
        (act c k casts v env r pool) w (λ stop _ changed. absurd (changed refl))
        (λ a _. act_calls r pool a w d) changed
  with_session_calls r pool (err e) w d changed =
      ground (arith, note_unready_calls r condition_host_client_not_ready w)
  with_session_calls r pool panic w d changed = absurd (changed refl)
  with_session_calls r pool hang w d changed = absurd (changed refl)

  with_entry_calls :
      (r : Volume) (pool : Pool) (e : Option HostEntry) (w : World S Volume)
      → r.meta.deleting ≡ true
      → CallsOnlyUnused r w (with_entry c k casts v env r pool e w)
  unfolding with_entry
  with_entry_calls r pool none w d changed =
      ground (arith, note_unready_calls r condition_host_client_not_ready w)
  with_entry_calls r pool (some e) w d changed = with_session_calls r pool (session 0 e) w d changed

  with_refs_calls :
      (r : Volume) (refs : Attempt (Pool × Host)) (w : World S Volume)
      → r.meta.deleting ≡ true
      → CallsOnlyUnused r w (with_refs c k casts v env r refs w)
  unfolding with_refs
  with_refs_calls r (failure e) w d changed = ground (arith, note_unready_calls r (error_text e) w)
  with_refs_calls r (success (pool, host)) w d changed = ground (
    arith,
    note_unready_calls r condition_pool_not_ready w,
    with_entry_calls r pool (lookup_entry host.meta.uid env.hosts) w d,
  )

  -- A run for a volume that is being deleted calls the host, to delete the volume there, only if the
  -- lists of the volumes that it backs and of the domains that have it as a disk were both read and
  -- are empty.
  pub reconcile_deletes-Unused :
      (r : Volume) (w : World S Volume)
      → r.meta.deleting ≡ true
      → host_calls (reconcile_volume c k casts v env r w).1.log ≢ host_calls w.log
      → Unused r
  unfolding reconcile_volume
  reconcile_deletes-Unused r w d =
      attempt_cases (CallsOnlyUnused r w) (resolve_refs env r) (with_refs c k casts v env r) w
        (λ stop _ changed. absurd (changed refl)) (λ e _. with_refs_calls r (failure e) w d)
        (λ refs _. with_refs_calls r (success refs) w d)

  -- The volume is gone from the host: it never was there, or it was deleted without an error.
  abbrev pub Gone : VolumeAction → World S Volume → Type 0
  Gone a w =
      (a.id ≡ none)
      ⊎ ((id : StorageVol) × (a.id ≡ some id) × ((c.storage_vol_delete id w.host).0 ≡ ok tt))

  delete_volume_ok :
      (r : Volume) (a : VolumeAction) (id : StorageVol) (w : World S Volume)
      → a.id ≡ some id
      → (delete_volume c k casts v env r a w).0 ≡ ok tt
      → ((c.storage_vol_delete id w.host).0 ≡ ok tt) × Unused r
  unfolding delete_volume Action.Volume.State.delete
  delete_volume_ok r a id w e done = ground arith

  updates-delete_volume :
      (r : Volume) (a : VolumeAction) (id : StorageVol) (w : World S Volume)
      → a.id ≡ some id
      → updates (delete_volume c k casts v env r a w).1.log ≡ updates w.log
  unfolding delete_volume Action.Volume.State.delete
  updates-delete_volume r a id w e = ground (
    arith,
    updates-append w.log (host_call (storage_vol_delete id) ∷ []),
    append-nil (updates w.log),
    updates-set_status_condition k v r deletion_prevented status_true err_volume_in_use in_use w,
  )

  delete_existing :
      (r : Volume) (a : VolumeAction) (id : StorageVol) (w : World S Volume)
      → a.id ≡ some id
      → updates (delete_stage c k casts v env r a w).1.log ≢ updates w.log
      → (delete_volume c k casts v env r a w).0 ≡ ok tt
  unfolding delete_stage state
  delete_existing r a id w e changed = ground (arith, updates-delete_volume r a id w)

  -- A run for a volume that is being deleted updates the object, to drop the finalizer, only if the
  -- volume is gone from the host, and where it had to be deleted only if nothing used it.
  pub delete_stage_update :
      (r : Volume) (a : VolumeAction) (w : World S Volume)
      → updates (delete_stage c k casts v env r a w).1.log ≢ updates w.log
      → Gone a w × ((a.id ≢ none) → Unused r)
  delete_stage_update r a w changed = elim (Option-cases a.id) [
    | inl e ↦ (inl e, λ some_id. absurd (some_id e))
    | inr (id, e) ↦
        let (deleted, unused) = delete_volume_ok r a id w e (delete_existing r a id w e changed) in
        (inr (id, e, deleted), λ _. unused)
  ]
