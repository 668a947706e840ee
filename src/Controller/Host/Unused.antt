-- ===== src/Controller/Host/Unused.antt =====
-- A host goes only when nothing uses it.
use libvirt_operator.Prelude.{ℕ, true, [], ◌≡◌, ◌≢◌, arith, ◌⊎◌, inl, inr}
use libvirt_operator.Outcome.{Outcome-cases, ok}
use libvirt_operator.Host.{Client}
use libvirt_operator.Host.Monad.{World}
use libvirt_operator.Api.{host_label, deletion_prevented, status_true, in_use}
use libvirt_operator.Api.Kinds.{Host}
use libvirt_operator.Controller.Base.{Machinery, Casts, Server, updates}
use libvirt_operator.Controller.Writes.{updates-set_status_condition, host-set_status_condition}
use libvirt_operator.Controller.Host.{
  Env, HostState, users, release_host, delete_host, reconcile_host,
}

module _ {S : Type 0} (c : Client S) (k : Machinery) (casts : Casts) (v : Server Host)
    (env : Env) where
  release_host_unused :
      (h : Host) (users : ℕ) (w : World (HostState S) Host)
      → (updates (release_host c k casts v env h users w).1.log ≢ updates w.log)
        ⊎ ((release_host c k casts v env h users w).1.host ≢ w.host)
      → users ≡ 0
  unfolding release_host
  release_host_unused h users w changed = ground (
    arith,
    updates-set_status_condition k v h deletion_prevented status_true
        "host is in use by another resource" in_use w,
    host-set_status_condition k v h deletion_prevented status_true
        "host is in use by another resource" in_use w,
  )

  users_none :
      (h : Host)
      → users c k casts v env h ≡ ok 0
      → (env.pools host_label h.meta.name ≡ ok [])
        × (env.networks host_label h.meta.name ≡ ok [])
        × (env.pci_devices host_label h.meta.name ≡ ok [])
        × (env.domains host_label h.meta.name ≡ ok [])
  unfolding users
  users_none h none_of = (ground arith, ground arith, ground arith, ground arith)

  -- A run for a host that is being deleted updates it or forgets its entry only if the pools, networks,
  -- PCI devices and domains with its label were read and there are none.
  pub reconcile_host_unused :
      (h : Host) (w : World (HostState S) Host)
      → h.meta.deleting ≡ true
      → (updates (reconcile_host c k casts v env h w).1.log ≢ updates w.log)
        ⊎ ((reconcile_host c k casts v env h w).1.host ≢ w.host)
      → (env.pools host_label h.meta.name ≡ ok [])
        × (env.networks host_label h.meta.name ≡ ok [])
        × (env.pci_devices host_label h.meta.name ≡ ok [])
        × (env.domains host_label h.meta.name ≡ ok [])
  unfolding reconcile_host delete_host release_host
  reconcile_host_unused h w d changed = elim (Outcome-cases (users c k casts v env h)) [
    | inl (n, e) ↦ users_none h (ground (arith, e, release_host_unused h n w))
    | inr (inl (e', e)) ↦ ground (arith, e)
    | inr (inr (inl e)) ↦ ground (arith, e)
    | inr (inr (inr e)) ↦ ground (arith, e)
  ]
