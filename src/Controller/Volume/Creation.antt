-- ===== src/Controller/Volume/Creation.antt =====
-- What becomes of a volume whose upload fails after the volume was made on the host.
use libvirt_operator.Prelude.{ℕ, String, true, false, List, [], ◌∷◌, ◌++◌, none, some, ◌≡◌, arith}
use libvirt_operator.Outcome.{Error, ok, err}
use libvirt_operator.Libvirt.{StorageVol}
use libvirt_operator.Host.{Client, storage_vol_create_xml, storage_vol_upload}
use libvirt_operator.Host.Monad.{World, Event, host_call, status_update}
use libvirt_operator.Api.{Condition, finalizer, ready, status_true, created}
use libvirt_operator.Api.Kinds.{Volume, Pool, Host}
use libvirt_operator.Store.Host.{HostEntry, lookup_entry, session}
use libvirt_operator.Action.Volume.State.{VolumeAction, new_volume_action, state}
use libvirt_operator.Action
use libvirt_operator.Controller.Base.{
  Machinery, Casts, Server, done, write_status, write_object, set_status_condition,
  ensure_finalizer, condition_creation_succeeded,
}
use libvirt_operator.Controller.Volume.{Env, placed, resolve_refs}
use libvirt_operator.Controller.Volume.Reconcile.{
  live_stage, report_created, resize_stage, act, with_session, with_entry, with_refs,
  reconcile_volume,
}

module _ {S : Type 0} (c : Client S) (k : Machinery) (casts : Casts) (v : Server Volume)
    (env : Env) where
  abbrev pub succeeded : Condition
  succeeded = record {
    type_ = ready;
    status = status_true;
    message = condition_creation_succeeded;
    reason = created;
    last_transition = k.now;
  }

  -- The volume as the run that finds it on the host reports it.
  abbrev pub reported : Volume → Pool → Volume
  reported r pool = record (placed r pool) {
    conditions = (k.set_status_condition r.conditions succeeded).0;
  }

  finds_created :
      (r : Volume) (pool : Pool) (host : Host) (entry e : HostEntry) (a : VolumeAction)
      (id : StorageVol) (w : World S Volume)
      → resolve_refs env r ≡ ok (pool, host)
      → k.is_status_condition_true pool.conditions ready ≡ true
      → lookup_entry host.meta.uid env.hosts ≡ some entry
      → session 0 entry ≡ ok e
      → new_volume_action c w.host r.spec.name pool.spec.name ≡ ok a
      → a.id ≡ some id
      → r.meta.deleting ≡ false
      → k.add_finalizer r.meta.finalizers finalizer ≡ (r.meta.finalizers, false)
      → k.is_status_condition_true r.conditions ready ≡ false
      → (k.set_status_condition r.conditions succeeded).1 ≡ true
      → r.spec.size ≡ none
      → ((log : List (Event Volume)) → v.status_answer log (reported r pool) ≡ ok tt)
      → reconcile_volume c k casts v env r w
        ≡ (ok done, record w { log = w.log ++ status_update (reported r pool) ∷ [] })
  unfolding reconcile_volume with_refs with_entry with_session act live_stage report_created
      resize_stage state set_status_condition write_status ensure_finalizer write_object
  finds_created r pool host entry e a id w refs pool_ready found opened read exists live held
        unready changed size answer =
      ground (arith, answer w.log)

  -- Let the upload of the content fail after Create made the volume on the host. Create returns
  -- that error and leaves the volume there. Let the next run of Reconcile for the resource start
  -- from that state: its references resolve, to a pool that is ready and a host that is connected,
  -- and it finds the volume under its name in the pool; the resource is not being deleted, holds
  -- the finalizer, is not ready and has no size in its spec; the new condition is a change, and
  -- the API server takes it. Then that run ends without an error, calls the host for no change,
  -- and marks the resource ready with the message that the creation succeeded.
  pub partial_upload_reported :
      (a : VolumeAction) (xml : String) (file : List ℕ) (id : StorageVol) (e : Error)
      (w : World S Volume) (s₁ s₂ : S) (r : Volume) (pool : Pool) (host : Host)
      (entry opened : HostEntry) (a' : VolumeAction)
      → c.marshal_volume a.def ≡ ok xml
      → a.source ≡ some file
      → c.storage_vol_create_xml a.pool xml w.host ≡ (ok id, s₁)
      → c.storage_vol_upload id file s₁ ≡ (err e, s₂)
      → resolve_refs env r ≡ ok (pool, host)
      → k.is_status_condition_true pool.conditions ready ≡ true
      → lookup_entry host.meta.uid env.hosts ≡ some entry
      → session 0 entry ≡ ok opened
      → new_volume_action c s₂ r.spec.name pool.spec.name ≡ ok a'
      → a'.id ≡ some id
      → r.meta.deleting ≡ false
      → k.add_finalizer r.meta.finalizers finalizer ≡ (r.meta.finalizers, false)
      → k.is_status_condition_true r.conditions ready ≡ false
      → (k.set_status_condition r.conditions succeeded).1 ≡ true
      → r.spec.size ≡ none
      → ((log : List (Event Volume)) → v.status_answer log (reported r pool) ≡ ok tt)
      → let first = Action.Volume.State.create {O = Volume} c a w in
        let next = reconcile_volume c k casts v env r first.1 in
        (first.0 ≡ err e)
        × (next.0 ≡ ok done)
        × (next.1.log
            ≡ ((w.log ++ host_call (storage_vol_create_xml a.pool xml) ∷ [])
                ++ host_call (storage_vol_upload id) ∷ [])
              ++ status_update (reported r pool) ∷ [])
  unfolding Action.Volume.State.create
  partial_upload_reported a xml file id e w s₁ s₂ r pool host entry opened a' m f made failed refs
        pool_ready found session_opened read exists live held unready changed size answer =
      let second =
        finds_created r pool host entry opened a' id
          (record {
            host = s₂;
            log =
                (w.log ++ host_call (storage_vol_create_xml a.pool xml) ∷ [])
                ++ host_call (storage_vol_upload id) ∷ [];
          })
          refs pool_ready found session_opened read exists live held unready changed size answer in
      (
        ground (arith, m, f, made, failed),
        ground (arith, m, f, made, failed, second),
        ground (arith, m, f, made, failed, second),
      )
