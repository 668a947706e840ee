-- ===== src/Controller/Network/Deletion.antt =====
-- When a network loses its finalizer.
use libvirt_operator.Prelude.{String, true, List, [], ◌∷◌, ◌++◌, ◌≡◌, ◌≢◌, arith, length}
use Prim.Native.String.{◌++◌ as str_append}
use libvirt_operator.Outcome.{Outcome, ok, or_empty}
use libvirt_operator.Host.{Client}
use libvirt_operator.Host.Monad.{World, update}
use libvirt_operator.Api.{finalizer, interface_label_prefix}
use libvirt_operator.Api.Kinds.{Network}
use libvirt_operator.Controller.Base.{Machinery, Server, updates}
use libvirt_operator.Controller.Probed.{Sources}
use libvirt_operator.Controller.Probed.Release.{released, release_used, release_unused}
use libvirt_operator.Controller.Network.{network_texts, delete_network, reconcile_network}

module _ {S : Type 0} (c : Client S) (k : Machinery) (v : Server Network) (src : Sources Network)
    (domains : String → String → Outcome (List String)) where
  -- A run for a network that is being deleted updates it only if the list of the domains that have its
  -- label was read and is empty.
  pub network_update_unused :
      (r : Network) (w : World S Network)
      → r.meta.deleting ≡ true
      → updates (reconcile_network c k v src domains r w).1.log ≢ updates w.log
      → domains (str_append interface_label_prefix (str_append "/" r.meta.name)) "" ≡ ok []
  unfolding reconcile_network delete_network
  network_update_unused r w d changed = ground (
    arith,
    release_used k v network_texts
        (length
          (or_empty (domains (str_append interface_label_prefix (str_append "/" r.meta.name)) "")))
        r w,
  )

  -- A network that is being deleted, holds the finalizer and is in no domain is updated once, without the
  -- finalizer, and the run makes no other change.
  pub network_released :
      (r : Network) (w : World S Network)
      → r.meta.deleting ≡ true
      → k.contains_finalizer r.meta.finalizers finalizer ≡ true
      → src.requirement (str_append interface_label_prefix (str_append "/" r.meta.name)) "" ≡ ok tt
      → domains (str_append interface_label_prefix (str_append "/" r.meta.name)) "" ≡ ok []
      → (reconcile_network c k v src domains r w).1.log ≡ w.log ++ update (released k r) ∷ []
  unfolding reconcile_network delete_network
  network_released r w d f q vs = ground (arith, release_unused k v network_texts r w)
