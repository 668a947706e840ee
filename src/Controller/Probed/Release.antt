-- ===== src/Controller/Probed/Release.antt =====
-- The guarded deletion: a resource with users keeps its finalizer, another loses it.
use libvirt_operator.Prelude.{ℕ, ◌<◌, [], ◌∷◌, ◌++◌, ◌≡◌, arith}
use libvirt_operator.Host.Monad.{World, update}
use libvirt_operator.Api.{Resource, finalizer, deletion_prevented, in_use, status_true}
use libvirt_operator.Controller.Base.{Machinery, Server, drop_finalizer, updates}
use libvirt_operator.Controller.Writes.{updates-set_status_condition}
use libvirt_operator.Controller.Probed.{Texts, release}

-- The object without the operator's finalizer.
abbrev pub released : {Spec St : Type 0} → Machinery → Resource Spec St → Resource Spec St
released k r =
    let m = r.meta in
    record r { meta = record m { finalizers = k.remove_finalizer m.finalizers finalizer } }

module _ {S Spec St : Type 0} (k : Machinery) (v : Server (Resource Spec St)) (texts : Texts) where
  pub release_used :
      (users : ℕ) (r : Resource Spec St) (w : World S (Resource Spec St))
      → 0 < users
      → updates (release k v texts users r w).1.log ≡ updates w.log
  unfolding release
  release_used users r w h = ground (
    arith,
    updates-set_status_condition k v r deletion_prevented status_true texts.in_use in_use w,
  )

  pub release_unused :
      (r : Resource Spec St) (w : World S (Resource Spec St))
      → (release k v texts 0 r w).1.log ≡ w.log ++ update (released k r) ∷ []
  unfolding release drop_finalizer
  release_unused r w = ground arith
