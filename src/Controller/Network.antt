-- ===== src/Controller/Network.antt =====
-- NetworkReconciler of internal/controller/network.go.
pub mod Deletion
use libvirt_operator.Prelude.{ℕ, String, List, Option, none, some, length, if◌then◌else◌}
use Prim.Native.String.{◌++◌}
use libvirt_operator.Outcome.{Outcome, error_text}
use libvirt_operator.Host.{Client}
use libvirt_operator.Host.Monad.{M, pure, lift, ◌>>=◌, ◌>>◌}
use libvirt_operator.Api.{finalizer, interface_label_prefix}
use libvirt_operator.Api.Kinds.{Network, HostedSpec, network_host_ref}
use libvirt_operator.Probe.{NetworkProbe, new_network_probe}
use libvirt_operator.Controller.Base.{Machinery, Server, Result, done, ensure_finalizer}
use libvirt_operator.Controller.Probed.{Sources, Texts, Probing, load, release, refresh_if_due}

abbrev pub network_texts : Texts
network_texts = record {
  in_use = "Network is currently in use by domain";
  not_exist = "Network does not exist";
  active = "Network is active";
  not_active = "Network is not active";
}

abbrev pub network_probing : {S : Type 0} → Client S → Probing S NetworkProbe HostedSpec (Unit {0})
network_probing c = record {
  probe = λ name s. new_network_probe c s name;
  exists = λ p. p.exists;
  active = λ p. p.active;
  store = λ p old. old;
  resource_name = λ r. r.spec.name;
  host_name = λ r. r.spec.host_ref;
  failure_text = λ e. "Probe could not be completed: " ++ error_text e;
}

-- `domains` lists the names of the domains that a label selector finds.
module _ {S : Type 0} (c : Client S) (k : Machinery) (v : Server Network) (src : Sources Network)
    (domains : String → String → Outcome (List String)) where
  unfoldable pub delete_network : Network → M S Network Result
  delete_network r =
      if k.contains_finalizer r.meta.finalizers finalizer
      then (do
        lift (src.requirement (interface_label_prefix ++ "/" ++ r.meta.name) "")
        users ← lift (domains (interface_label_prefix ++ "/" ++ r.meta.name) "")
        release k v network_texts (length users) r)
      else pure done

  unfoldable pub reconcile_network : Network → M S Network Result
  reconcile_network r =
      if r.meta.deleting
      then delete_network r
      else ensure_finalizer k v finalizer r >>= (λ r'.
        refresh_if_due k v network_texts src (network_probing c) (network_host_ref r') r')

  unfoldable pub reconcile : M S Network Result
  reconcile = load src reconcile_network
