-- ===== src/Controller/Base.antt =====
-- What the reconcilers of internal/controller share: the Kubernetes API and the helpers of
-- apimachinery and controller-runtime, which are not in the repository and so are parameters, and the
-- functions setStatusCondition, which each controller repeats.
use libvirt_operator.Prelude.{
  ℕ, String, Bool, true, false, List, [], ◌∷◌, ◌++◌, Option, none, some, if◌then◌else◌, ◌≡◌, ltb,
  ◌-◌, ◌+◌, refl, ap, arith,
}
use mathlib.Core.List.{append-nil}
use libvirt_operator.Outcome.{Outcome}
use libvirt_operator.Host.{Call}
use libvirt_operator.Host.Monad.{World, Event, host_call, update, status_update, M, pure, ◌>>◌}
use libvirt_operator.Api.{ConditionType, Reason, Status, status_true, Condition, Resource}
use libvirt_operator.Util.Labels.{set_label}

-- ctrl.Result
pub data Result : Type 0 where
  done requeue : Result
  requeue_after : ℕ → Result

-- meta.SetStatusCondition and its companions, controllerutil, and the clock, in seconds.
pub record Machinery : Type 0 where
  pub set_status_condition : List Condition → Condition → List Condition × Bool
  pub find_status_condition : List Condition → ConditionType → Option Condition
  pub is_status_condition_true : List Condition → ConditionType → Bool
  pub add_finalizer : List String → String → List String × Bool
  pub contains_finalizer : List String → String → Bool
  pub remove_finalizer : List String → String → List String
  pub now : ℕ

-- The conversions of safecast that the controllers use, which keep a number in the range of its type.
pub record Casts : Type 0 where
  pub to_int32 : ℕ → ℕ
  pub to_int64 : ℕ → ℕ
  pub to_uint : ℕ → ℕ
  pub to_uint64 : ℕ → ℕ

-- What the API server answers to an update of an object, after what was done before.
pub record Server (O : Type 0) : Type 0 where
  pub update_answer : List (Event O) → O → Outcome (Unit {0})
  pub status_answer : List (Event O) → O → Outcome (Unit {0})

abbrev pub data_refresh_interval : ℕ
data_refresh_interval = 60

abbrev pub condition_host_client_not_ready : String
condition_host_client_not_ready = "Host client is not ready"

abbrev pub condition_creation_succeeded : String
condition_creation_succeeded = "Creation succeeded"

abbrev pub condition_probe_completed : String
condition_probe_completed = "Probe completed"

abbrev pub condition_pool_not_ready : String
condition_pool_not_ready = "Pool is not ready"

module _ {S O : Type 0} (v : Server O) where
  abbrev pub api_update : O → M S O (Unit {0})
  api_update o w = (v.update_answer w.log o, record w { log = w.log ++ update o ∷ [] })

  abbrev pub api_status_update : O → M S O (Unit {0})
  api_status_update o w =
      (v.status_answer w.log o, record w { log = w.log ++ status_update o ∷ [] })

module _ {S O : Type 0} (v : Server O) where
  -- An update, where there is a change to write.
  unfoldable pub write_object : Bool → O → M S O O
  write_object true o = api_update v o >> pure o
  write_object false o = pure o

  unfoldable pub write_status : Bool → O → M S O O
  write_status true o = api_status_update v o >> pure o
  write_status false o = pure o

module _ {S Spec St : Type 0} (k : Machinery) (v : Server (Resource Spec St)) where
  -- The object with its new conditions; the status is written only where they changed.
  unfoldable pub set_status_condition :
      Resource Spec St
      → ConditionType
      → Status
      → String
      → Reason
      → M S (Resource Spec St) (Resource Spec St)
  set_status_condition r type status message reason =
      let condition : Condition = record {
        type_ = type;
        status = status;
        message = message;
        reason = reason;
        last_transition = k.now;
      } in
      let (conditions, changed) = k.set_status_condition r.conditions condition in
      let r' = record r { conditions = conditions } in write_status v changed r'

  -- controllerutil.AddFinalizer, and the update where it added one.
  unfoldable pub ensure_finalizer :
      String → Resource Spec St → M S (Resource Spec St) (Resource Spec St)
  ensure_finalizer f r =
      let m = r.meta in
      let (finalizers, added) = k.add_finalizer m.finalizers f in
      let r' = record r { meta = record m { finalizers = finalizers } } in write_object v added r'

  -- controllerutil.RemoveFinalizer and the update.
  unfoldable pub drop_finalizer : String → Resource Spec St → M S (Resource Spec St) (Unit {0})
  drop_finalizer f r =
      let m = r.meta in
      api_update v (record r { meta = record m { finalizers = k.remove_finalizer m.finalizers f } })

  -- util.SetLabel and the update where the label changed.
  unfoldable pub ensure_label :
      String → String → Resource Spec St → M S (Resource Spec St) (Resource Spec St)
  ensure_label key value r =
      let m = r.meta in
      let (labels, changed) = set_label m.labels key value in
      let r' = record r { meta = record m { labels = labels } } in write_object v changed r'

-- What is left of the refresh interval after the last transition, while any is left; a transition in
-- the future leaves more than the whole interval.
remaining : ℕ → ℕ → Option ℕ
remaining now last =
    if ltb now last
    then some (data_refresh_interval + (last - now))
    else if ltb (now - last) data_refresh_interval
    then some (data_refresh_interval - (now - last))
    else none

-- The time for which a successful probe still counts, if it does.
unfoldable pub fresh_for : ℕ → Option Condition → Option ℕ
unfolding remaining
fresh_for now none = none
fresh_for now (some probed) = elim probed.status [
  | status_true ↦ remaining now probed.last_transition
  | _ ↦ none
]

-- The objects that a log updates, oldest first, and those whose status it writes.
abbrev pub updates : {O : Type 0} → List (Event O) → List O
updates [] = []
updates (host_call c ∷ es) = updates es
updates (update o ∷ es) = o ∷ updates es
updates (status_update o ∷ es) = updates es

abbrev pub status_updates : {O : Type 0} → List (Event O) → List O
status_updates [] = []
status_updates (host_call c ∷ es) = status_updates es
status_updates (update o ∷ es) = status_updates es
status_updates (status_update o ∷ es) = o ∷ status_updates es

abbrev pub host_calls : {O : Type 0} → List (Event O) → List Call
host_calls [] = []
host_calls (host_call c ∷ es) = c ∷ host_calls es
host_calls (update o ∷ es) = host_calls es
host_calls (status_update o ∷ es) = host_calls es

pub updates-append :
    {O : Type 0} (xs ys : List (Event O)) → updates (xs ++ ys) ≡ updates xs ++ updates ys
updates-append [] ys = refl
updates-append (host_call c ∷ xs) ys = updates-append xs ys
updates-append (update o ∷ xs) ys = ap (◌∷◌ o) (updates-append xs ys)
updates-append (status_update o ∷ xs) ys = updates-append xs ys

pub status_updates-append :
    {O : Type 0} (xs ys : List (Event O))
    → status_updates (xs ++ ys) ≡ status_updates xs ++ status_updates ys
status_updates-append [] ys = refl
status_updates-append (host_call c ∷ xs) ys = status_updates-append xs ys
status_updates-append (update o ∷ xs) ys = status_updates-append xs ys
status_updates-append (status_update o ∷ xs) ys = ap (◌∷◌ o) (status_updates-append xs ys)

pub host_calls-append :
    {O : Type 0} (xs ys : List (Event O)) → host_calls (xs ++ ys) ≡ host_calls xs ++ host_calls ys
host_calls-append [] ys = refl
host_calls-append (host_call c ∷ xs) ys = ap (◌∷◌ c) (host_calls-append xs ys)
host_calls-append (update o ∷ xs) ys = host_calls-append xs ys
host_calls-append (status_update o ∷ xs) ys = host_calls-append xs ys

module _ {S O : Type 0} (v : Server O) (o : O) where
  pub updates-write_status :
      (changed : Bool) (w : World S O) → updates (write_status v changed o w).1.log ≡ updates w.log
  unfolding write_status
  updates-write_status true w =
      ground (arith, append-nil (updates w.log), updates-append w.log (status_update o ∷ []))
  updates-write_status false w = refl

  pub host_calls-write_status :
      (changed : Bool) (w : World S O)
      → host_calls (write_status v changed o w).1.log ≡ host_calls w.log
  unfolding write_status
  host_calls-write_status true w =
      ground (arith, append-nil (host_calls w.log), host_calls-append w.log (status_update o ∷ []))
  host_calls-write_status false w = refl

  pub host_calls-write_object :
      (changed : Bool) (w : World S O)
      → host_calls (write_object v changed o w).1.log ≡ host_calls w.log
  unfolding write_object
  host_calls-write_object true w =
      ground (arith, append-nil (host_calls w.log), host_calls-append w.log (update o ∷ []))
  host_calls-write_object false w = refl
