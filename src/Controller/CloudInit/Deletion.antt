-- ===== src/Controller/CloudInit/Deletion.antt =====
-- What a run does to a cloud-init that is being deleted.
use libvirt_operator.Prelude.{
  String, true, [], ◌∷◌, none, some, ◌≡◌, ◌≢◌, refl, arith, ◌⊎◌, inl, inr, Option-cases,
}
use mathlib.Core.List.{append-nil}
use libvirt_operator.Outcome.{Outcome, ok, err, panic, hang, error_text}
use libvirt_operator.Libvirt.{StorageVol}
use libvirt_operator.Host.{Client, storage_vol_delete}
use libvirt_operator.Host.Monad.{
  World, host_call, lift_cases, attempt_cases, Attempt, success, failure,
}
use libvirt_operator.Api.{
  finalizer, deletion_prevented, ready, status_true, status_false, in_use, unmet_requirements,
}
use libvirt_operator.Api.Kinds.{Pool, Host}
use libvirt_operator.Api.CloudInit.{CloudInit}
use libvirt_operator.Store.Host.{HostEntry, lookup_entry, session}
use libvirt_operator.Action.Volume.State.{VolumeAction, new_volume_action, state}
use libvirt_operator.Action
use libvirt_operator.Controller.Base.{
  Machinery, Casts, Server, Result, updates, updates-append, host_calls,
  condition_host_client_not_ready, condition_pool_not_ready,
}
use libvirt_operator.Controller.Writes.{
  host_calls-set_status_condition, host_calls-drop_finalizer, updates-set_status_condition,
}
use libvirt_operator.Controller.CloudInit.{
  Env, domain_users, forget, release_image, delete_stage, act, note_unready, with_session,
  with_entry, with_refs, resolve_refs, reconcile_cloud_init,
}

module _ {W S : Type 0} (c : Client S) (k : Machinery) (casts : Casts) (v : Server CloudInit)
    (env : Env W) where
  -- A run that begins at w and calls the host only if no domain uses the cloud-init.
  abbrev CallsOnlyUnused :
      CloudInit → World S CloudInit → Outcome Result × World S CloudInit → Type 0
  CallsOnlyUnused ci w p =
      host_calls p.1.log ≢ host_calls w.log → domain_users c k casts v env ci.meta.name ≡ ok []

  delete_stage_calls :
      (ci : CloudInit) (a : VolumeAction) (w : World S CloudInit)
      → CallsOnlyUnused ci w (delete_stage c k casts v env ci a w)
  unfolding delete_stage release_image forget
  delete_stage_calls ci a w changed = ground (
    arith,
    host_calls-set_status_condition k v ci deletion_prevented status_true
        "cloud-init is currently in use by domain" in_use w,
    host_calls-drop_finalizer k v finalizer ci w,
  )

  note_unready_calls :
      (ci : CloudInit) (text : String) (w : World S CloudInit)
      → host_calls (note_unready c k casts v env ci text w).1.log ≡ host_calls w.log
  unfolding note_unready
  note_unready_calls ci text w =
      ground
        (arith, host_calls-set_status_condition k v ci ready status_false text unmet_requirements w)

  with_session_calls :
      (ci : CloudInit) (pool : Pool) (e : Outcome HostEntry) (w : World S CloudInit)
      → ci.meta.deleting ≡ true
      → CallsOnlyUnused ci w (with_session c k casts v env ci pool e w)
  unfolding with_session act
  with_session_calls ci pool (ok e) w d changed =
      lift_cases (CallsOnlyUnused ci w) (new_volume_action c w.host ci.spec.name pool.spec.name)
        (act c k casts v env ci pool) w (λ stop _ changed. absurd (changed refl))
        (λ a _ changed. ground (arith, d, delete_stage_calls ci a w)) changed
  with_session_calls ci pool (err e) w d changed =
      ground (arith, note_unready_calls ci condition_host_client_not_ready w)
  with_session_calls ci pool panic w d changed = absurd (changed refl)
  with_session_calls ci pool hang w d changed = absurd (changed refl)

  with_refs_calls :
      (ci : CloudInit) (refs : Attempt (Pool × Host)) (w : World S CloudInit)
      → ci.meta.deleting ≡ true
      → CallsOnlyUnused ci w (with_refs c k casts v env ci refs w)
  unfolding with_refs with_entry
  with_refs_calls ci (failure e) w d changed =
      ground (arith, note_unready_calls ci (error_text e) w)
  with_refs_calls ci (success (pool, host)) w d changed =
      elim (Option-cases (lookup_entry host.meta.uid env.hosts)) [
        | inl e ↦ ground (
          arith,
          e,
          note_unready_calls ci condition_pool_not_ready w,
          note_unready_calls ci condition_host_client_not_ready w,
        )
        | inr (entry, e) ↦ ground (
          arith,
          e,
          note_unready_calls ci condition_pool_not_ready w,
          with_session_calls ci pool (session 0 entry) w d,
        )
      ]

  -- A run for a cloud-init that is being deleted calls the host, to delete the image there, only if the
  -- list of the domains with its label was read and is empty.
  pub reconcile_cloud_init_unused :
      (ci : CloudInit) (w : World S CloudInit)
      → ci.meta.deleting ≡ true
      → host_calls (reconcile_cloud_init c k casts v env ci w).1.log ≢ host_calls w.log
      → domain_users c k casts v env ci.meta.name ≡ ok []
  unfolding reconcile_cloud_init
  reconcile_cloud_init_unused ci w d =
      attempt_cases (CallsOnlyUnused ci w) (resolve_refs c k casts v env ci)
        (with_refs c k casts v env ci) w (λ stop _ changed. absurd (changed refl))
        (λ e _. with_refs_calls ci (failure e) w d)
        (λ refs _. with_refs_calls ci (success refs) w d)

  delete_existing :
      (ci : CloudInit) (a : VolumeAction) (id : StorageVol) (w : World S CloudInit)
      → a.id ≡ some id
      → updates (delete_stage c k casts v env ci a w).1.log ≢ updates w.log
      → ((c.storage_vol_delete id w.host).0 ≡ ok tt)
        × (domain_users c k casts v env ci.meta.name ≡ ok [])
  unfolding delete_stage release_image state Action.Volume.State.delete
  delete_existing ci a id w e changed =
      let reported =
        updates-set_status_condition k v ci deletion_prevented status_true
          "cloud-init is currently in use by domain" in_use w in
      let called = updates-append w.log (host_call (storage_vol_delete id) ∷ []) in
      (
        ground (arith, reported, called, append-nil (updates w.log)),
        ground (arith, reported, called, append-nil (updates w.log)),
      )

  -- The last step of a deletion updates the object, to drop the finalizer, only if the image was not
  -- on the host, or no domain used it and it was deleted there without an error.
  pub delete_stage_forgets :
      (ci : CloudInit) (a : VolumeAction) (w : World S CloudInit)
      → updates (delete_stage c k casts v env ci a w).1.log ≢ updates w.log
      → (a.id ≡ none)
        ⊎ ((id : StorageVol) × (a.id ≡ some id)
            × ((c.storage_vol_delete id w.host).0 ≡ ok tt)
            × (domain_users c k casts v env ci.meta.name ≡ ok []))
  delete_stage_forgets ci a w changed = elim (Option-cases a.id) [
    | inl e ↦ inl e
    | inr (id, e) ↦
        let (deleted, unused) = delete_existing ci a id w e changed in inr (id, e, deleted, unused)
  ]
