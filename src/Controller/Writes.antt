-- ===== src/Controller/Writes.antt =====
-- What the helpers of Base write: a condition changes no object, and no helper calls the host.
use libvirt_operator.Prelude.{arith, String, [], ◌∷◌, ◌≡◌, ◌∙◌}
use mathlib.Core.List.{append-nil}
use libvirt_operator.Outcome.{ok}
use libvirt_operator.Host.Monad.{World, update}
use libvirt_operator.Api.{Resource, ConditionType, Status, Reason}
use libvirt_operator.Controller.Base.{
  Machinery, Server, set_status_condition, ensure_finalizer, drop_finalizer, ensure_label, updates,
  updates-write_status, host_calls, host_calls-append, host_calls-write_status,
  host_calls-write_object, write_status, write_object,
}

module _ {S Spec St : Type 0} (k : Machinery) (v : Server (Resource Spec St)) where
  pub updates-set_status_condition :
      (r : Resource Spec St) (t : ConditionType) (s : Status) (text : String) (reason : Reason)
      (w : World S (Resource Spec St))
      → updates (set_status_condition k v r t s text reason w).1.log ≡ updates w.log
  unfolding set_status_condition
  updates-set_status_condition r t s text reason w = updates-write_status v _ _ w

  pub host_calls-set_status_condition :
      (r : Resource Spec St) (t : ConditionType) (s : Status) (text : String) (reason : Reason)
      (w : World S (Resource Spec St))
      → host_calls (set_status_condition k v r t s text reason w).1.log ≡ host_calls w.log
  unfolding set_status_condition
  host_calls-set_status_condition r t s text reason w = host_calls-write_status v _ _ w

  pub host_calls-ensure_finalizer :
      (f : String) (r : Resource Spec St) (w : World S (Resource Spec St))
      → host_calls (ensure_finalizer k v f r w).1.log ≡ host_calls w.log
  unfolding ensure_finalizer
  host_calls-ensure_finalizer f r w = host_calls-write_object v _ _ w

  pub host_calls-ensure_label :
      (key value : String) (r : Resource Spec St) (w : World S (Resource Spec St))
      → host_calls (ensure_label k v key value r w).1.log ≡ host_calls w.log
  unfolding ensure_label
  host_calls-ensure_label key value r w = host_calls-write_object v _ _ w

  pub host_calls-drop_finalizer :
      (f : String) (r : Resource Spec St) (w : World S (Resource Spec St))
      → host_calls (drop_finalizer k v f r w).1.log ≡ host_calls w.log
  unfolding drop_finalizer
  host_calls-drop_finalizer f r w =
      let m = r.meta in
      host_calls-append w.log (
        update (record r { meta = record m { finalizers = k.remove_finalizer m.finalizers f } })
        ∷ [])
      ∙ append-nil (host_calls w.log)

module _ {S Spec St : Type 0} (k : Machinery) (v : Server (Resource Spec St)) where
  -- The helpers leave the host, or whatever else the run's state is, as it was.
  pub host-set_status_condition :
      (r : Resource Spec St) (t : ConditionType) (s : Status) (text : String) (reason : Reason)
      (w : World S (Resource Spec St))
      → (set_status_condition k v r t s text reason w).1.host ≡ w.host
  unfolding set_status_condition write_status
  host-set_status_condition r t s text reason w = ground arith

  pub host-ensure_label :
      (key value : String) (r : Resource Spec St) (w : World S (Resource Spec St))
      → (ensure_label k v key value r w).1.host ≡ w.host
  unfolding ensure_label write_object
  host-ensure_label key value r w = ground arith

  pub host-ensure_finalizer :
      (f : String) (r : Resource Spec St) (w : World S (Resource Spec St))
      → (ensure_finalizer k v f r w).1.host ≡ w.host
  unfolding ensure_finalizer write_object
  host-ensure_finalizer f r w = ground arith

  -- The object goes on with other finalizers, and otherwise as it was.
  pub ensure_finalizer_same :
      (f : String) (r r' : Resource Spec St) (w : World S (Resource Spec St))
      → (ensure_finalizer k v f r w).0 ≡ ok r'
      → (r'.meta.uid ≡ r.meta.uid)
        × (r'.meta.name ≡ r.meta.name)
        × (r'.meta.namespace ≡ r.meta.namespace)
        × (r'.meta.generation ≡ r.meta.generation)
        × (r'.spec ≡ r.spec)
  unfolding ensure_finalizer write_object
  ensure_finalizer_same f r r' w h =
      (ground arith, ground arith, ground arith, ground arith, ground arith)
