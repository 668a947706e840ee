-- ===== src/Controller/Conditions.antt =====
-- The conditions of an object, by what apimachinery documents of them, and the API server that takes
-- every update.
use libvirt_operator.Prelude.{
  String, Bool, true, false, List, [], ◌∷◌, ◌++◌, ◌≡◌, ◌≢◌, refl, some, arith,
}
use mathlib.Core.List.{append-nil}
use libvirt_operator.Outcome.{ok}
use libvirt_operator.Host.Monad.{World, Event, status_update, update}
use libvirt_operator.Api.{Resource, Condition, ConditionType, Status, Reason}
use libvirt_operator.Controller.Base.{
  Machinery, Server, set_status_condition, write_status, write_object, ensure_label,
  ensure_finalizer, status_updates, status_updates-append,
}

-- What apimachinery documents of SetStatusCondition and FindStatusCondition.
pub record SetsConditions (k : Machinery) : Type 0 where
  pub find_set :
      (cs : List Condition) (c : Condition)
      → (found : Condition) × (k.find_status_condition (k.set_status_condition cs c).0 c.type_
          ≡ some found)
        × (found.status ≡ c.status)
        × (found.message ≡ c.message)
        × (found.reason ≡ c.reason)
  pub find_other :
      (cs : List Condition) (c : Condition) (t : ConditionType)
      → t ≢ c.type_
      → k.find_status_condition (k.set_status_condition cs c).0 t ≡ k.find_status_condition cs t
  pub changes :
      (cs : List Condition) (c old : Condition)
      → k.find_status_condition cs c.type_ ≡ some old
      → old.status ≢ c.status
      → (k.set_status_condition cs c).1 ≡ true

-- An API server that takes every update.
pub record Accepts {O : Type 0} (v : Server O) : Type 0 where
  pub takes_update : (log : List (Event O)) (o : O) → v.update_answer log o ≡ ok tt
  pub takes_status : (log : List (Event O)) (o : O) → v.status_answer log o ≡ ok tt

-- The condition that setStatusCondition makes, and the object that has it.
abbrev pub made : Machinery → ConditionType → Status → String → Reason → Condition
made k t s text reason = record {
  type_ = t;
  status = s;
  message = text;
  reason = reason;
  last_transition = k.now;
}

abbrev pub with_condition :
    {Spec St : Type 0}
    → Machinery
    → Resource Spec St
    → ConditionType
    → Status
    → String
    → Reason
    → Resource Spec St
with_condition k r t s text reason = record r {
  conditions = (k.set_status_condition r.conditions (made k t s text reason)).0;
}

abbrev pub with_finalizer :
    {Spec St : Type 0} → Machinery → Resource Spec St → String → Resource Spec St
with_finalizer k r f =
    let m = r.meta in
    record r { meta = record m { finalizers = (k.add_finalizer m.finalizers f).0 } }

module _ {S O : Type 0} (v : Server O) (o : O) where
  pub write_object-accepted :
      Accepts v → (changed : Bool) (w : World S O) → (write_object v changed o w).0 ≡ ok o
  unfolding write_object
  write_object-accepted a true w = ground (arith, a.takes_update w.log o)
  write_object-accepted a false w = refl

  pub write_status-accepted :
      Accepts v → (changed : Bool) (w : World S O) → (write_status v changed o w).0 ≡ ok o
  unfolding write_status
  write_status-accepted a true w = ground (arith, a.takes_status w.log o)
  write_status-accepted a false w = refl

  pub status_updates-write_object :
      (changed : Bool) (w : World S O)
      → status_updates (write_object v changed o w).1.log ≡ status_updates w.log
  unfolding write_object
  status_updates-write_object true w =
      ground (arith, append-nil (status_updates w.log), status_updates-append w.log (update o ∷ []))
  status_updates-write_object false w = refl

module _ {S Spec St : Type 0} (k : Machinery) (v : Server (Resource Spec St)) where
  pub set_status_condition-accepted :
      Accepts v
      → (r : Resource Spec St) (t : ConditionType) (s : Status) (text : String) (reason : Reason)
        (w : World S (Resource Spec St))
      → (set_status_condition k v r t s text reason w).0 ≡ ok (with_condition k r t s text reason)
  unfolding set_status_condition
  set_status_condition-accepted a r t s text reason w = write_status-accepted v _ a _ w

  -- A condition that takes another status is written, with the whole status of the object.
  pub set_status_condition-written :
      SetsConditions k
      → (r : Resource Spec St) (t : ConditionType) (s : Status) (text : String) (reason : Reason)
        (w : World S (Resource Spec St)) (old : Condition)
      → k.find_status_condition r.conditions t ≡ some old
      → old.status ≢ s
      → status_updates (set_status_condition k v r t s text reason w).1.log
        ≡ status_updates w.log ++ with_condition k r t s text reason ∷ []
  unfolding set_status_condition write_status
  set_status_condition-written l r t s text reason w old h ne = ground (
    arith,
    l.changes r.conditions (made k t s text reason) old h ne,
    status_updates-append w.log (status_update (with_condition k r t s text reason) ∷ []),
  )

  pub ensure_finalizer-accepted :
      Accepts v
      → (f : String) (r : Resource Spec St) (w : World S (Resource Spec St))
      → (ensure_finalizer k v f r w).0 ≡ ok (with_finalizer k r f)
  unfolding ensure_finalizer
  ensure_finalizer-accepted a f r w = write_object-accepted v _ a _ w

  pub ensure_label-accepted :
      Accepts v
      → (key value : String) (r : Resource Spec St) (w : World S (Resource Spec St))
      → (r' : Resource Spec St) × ((ensure_label k v key value r w).0 ≡ ok r')
  unfolding ensure_label
  ensure_label-accepted a key value r w = (_, write_object-accepted v _ a _ w)

  pub status_updates-ensure_label :
      (key value : String) (r : Resource Spec St) (w : World S (Resource Spec St))
      → status_updates (ensure_label k v key value r w).1.log ≡ status_updates w.log
  unfolding ensure_label
  status_updates-ensure_label key value r w = status_updates-write_object v _ _ w
