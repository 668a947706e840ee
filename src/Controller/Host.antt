-- ===== src/Controller/Host.antt =====
-- HostReconciler of internal/controller/host.go. A run changes the store of hosts; it reads the machine.
pub mod Registered
pub mod Unused
pub mod Kept
pub mod Unlabelled
pub mod Report
pub mod Credentials
use libvirt_operator.Prelude.{
  ℕ, ◌+◌, String, Bool, true, false, List, [], ◌∷◌, Option, none, some, length, ltb, ◌==◌,
  if◌then◌else◌, not,
}
use Prim.Native.String.{◌++◌ as str_append}
use libvirt_operator.Outcome.{Outcome, ok, err, panic, hang, Error, message, deref}
use libvirt_operator.Outcome
use libvirt_operator.Host.{Client}
use libvirt_operator.Host.Monad.{
  M, World, Attempt, success, failure, pure, raise, lift, query, attempt, ◌>>=◌, ◌>>◌,
}
use libvirt_operator.Api.{
  NamespacedName, finalizer, auth_label, host_label, probed, deletion_prevented, status_true,
  status_false, in_use, required, unmet_requirements, error, completed,
}
use libvirt_operator.Api.Kinds.{
  Auth, AuthType, tls_auth, ssh_auth, other_auth, Host, HostCapability, host_auth_ref,
}
use libvirt_operator.Probe.{HostProbe, new_host_probe}
use libvirt_operator.Store.Auth.{AuthEntry, AuthStore, lookup_auth}
use libvirt_operator.Store.Host.{HostEntry, HostStore, lookup_entry, register, deregister, session}
use libvirt_operator.Controller.Auth.{verifies, private_key, known_hosts_file}
use libvirt_operator.Controller.Base.{
  Machinery, Casts, Server, Result, done, requeue, requeue_after, set_status_condition,
  ensure_finalizer, drop_finalizer, ensure_label, fresh_for, data_refresh_interval,
  condition_host_client_not_ready, condition_probe_completed,
}
use libvirt_operator.Controller.Probed.{ignore_not_found}
use libvirt_operator.Controller.Dialer.{Dialer, dialer_of}

-- What the API server answers, each list by the names of its objects with a label; the store of
-- auths; filepath.Join; and whether Connect succeeds with a dialer.
pub record Env : Type 0 where
  pub get : Outcome Host
  pub get_auth : NamespacedName → Outcome Auth
  pub requirement : String → String → Outcome (Unit {0})
  pub pools : String → String → Outcome (List String)
  pub networks : String → String → Outcome (List String)
  pub pci_devices : String → String → Outcome (List String)
  pub domains : String → String → Outcome (List String)
  pub auths : AuthStore
  pub join : String → String → String
  pub connects : Dialer → Bool

-- The store of hosts, and the machine that a session reaches.
pub record HostState (S : Type 0) : Type 0 where
  pub hosts : HostStore
  pub machine : S

abbrev pub set_hosts : {S O : Type 0} → HostStore → M (HostState S) O (Unit {0})
set_hosts hosts w = let s = w.host in (ok tt, record w { host = record s { hosts = hosts } })

unfoldable pub capacity : Casts → HostProbe → HostCapability
capacity casts p = record {
  arch = p.arch;
  cpus = casts.to_int32 p.cpus;
  memory_total = casts.to_int64 p.memory_total;
  memory_free = casts.to_int64 p.memory_free;
  numa = p.numa;
}

module _ {S : Type 0} (c : Client S) (k : Machinery) (casts : Casts) (v : Server Host)
    (env : Env) where
  unfoldable pub not_ready : Host → M (HostState S) Host Result
  not_ready h =
      set_status_condition k v h probed status_false condition_host_client_not_ready
        unmet_requirements
      >> pure requeue

  unfoldable pub probed_host : Host → Attempt HostProbe → M (HostState S) Host Result
  probed_host h (failure e) =
      set_status_condition k v h probed status_false "Probe could not be completed" error >> raise e
  probed_host h (success p) =
      set_status_condition k v (record h { status = some (capacity casts p) }) probed status_true
        condition_probe_completed completed
      >> pure (requeue_after data_refresh_interval)

  unfoldable pub with_session : Host → Outcome HostEntry → M (HostState S) Host Result
  with_session h (ok e) = attempt (query (λ s. new_host_probe c s.machine)) >>= probed_host h
  with_session h (err e) = not_ready h
  with_session h panic = lift panic
  with_session h hang = lift hang

  -- A nil entry is dereferenced.
  entry_session : Option HostEntry → Outcome HostEntry
  entry_session none = panic
  entry_session (some e) = session 0 e

  unfoldable pub after_required : Option HostEntry → Host → M (HostState S) Host Result
  unfolding entry_session
  after_required found h = with_session h (entry_session found)

  unfoldable pub probe : Host → Option HostEntry → M (HostState S) Host Result
  probe h found =
      set_status_condition k v h probed status_false "New probe required" required
      >>= after_required found

  unfoldable pub release_host : Host → ℕ → M (HostState S) Host Result
  release_host h users w =
      (if ltb 0 users
          then set_status_condition k v h deletion_prevented status_true
              "host is in use by another resource" in_use
            >> pure requeue
          else set_hosts (deregister h.meta.uid w.host.hosts).0
            >> drop_finalizer k v finalizer h
            >> pure done)
        w

  -- The number of the objects that use the host.
  unfoldable pub users : Host → Outcome ℕ
  users h = Outcome.◌>>◌ (env.requirement host_label h.meta.name) (
      Outcome.◌>>=◌ (env.pools host_label h.meta.name) (λ pools.
        Outcome.◌>>=◌ (env.networks host_label h.meta.name) (λ networks.
          Outcome.◌>>=◌ (env.pci_devices host_label h.meta.name) (λ pci_devices.
            Outcome.◌>>=◌ (env.domains host_label h.meta.name) (λ domains.
              ok (length pools + length networks + length pci_devices + length domains))))))

  unfoldable pub delete_host : Host → M (HostState S) Host Result
  delete_host h =
      if k.contains_finalizer h.meta.finalizers finalizer
      then lift (users h) >>= release_host h
      else pure done

  -- The entry of the host is read again after Register.
  unfoldable pub probe_registered : Host → M (HostState S) Host Result
  probe_registered h w = probe h (lookup_entry h.meta.uid w.host.hosts) w

  unfoldable pub register_dialer : Host → Auth → ℕ → Dialer → M (HostState S) Host Result
  register_dialer h a generation dialer w =
      (set_hosts (register h.meta.uid generation dialer (env.connects dialer) w.host.hosts).0
          >> (ensure_label k v auth_label a.meta.name h >>= probe_registered))
        w

  unfoldable pub connect : Host → Auth → AuthEntry → ℕ → M (HostState S) Host Result
  connect h a entry generation =
      lift (dialer_of env.join h a entry) >>= register_dialer h a generation

  -- A successful probe that still counts is not made again.
  unfoldable pub refresh : Host → HostEntry → M (HostState S) Host Result
  refresh h e = elim (fresh_for k.now (k.find_status_condition h.conditions probed)) [
    | some left ↦ pure (requeue_after left)
    | none ↦ probe h (some e)
  ]

  unfoldable pub with_entry :
      Host → Auth → AuthEntry → Option HostEntry → M (HostState S) Host Result
  with_entry h a entry none = connect h a entry (h.meta.generation + entry.generation)
  with_entry h a entry (some e) =
      if (h.meta.generation + entry.generation) == e.generation
      then refresh h e
      else connect h a entry (h.meta.generation + entry.generation)

  unfoldable pub with_credentials : Host → Auth → Option AuthEntry → M (HostState S) Host Result
  with_credentials h a none w = pure requeue w
  with_credentials h a (some entry) w =
      with_entry h a entry (lookup_entry h.meta.uid w.host.hosts) w

  unfoldable pub with_auth : Host → Auth → M (HostState S) Host Result
  with_auth h a = with_credentials h a (lookup_auth a.meta.uid env.auths)

  unfoldable pub live_host : Host → M (HostState S) Host Result
  live_host h = lift (env.get_auth (host_auth_ref h)) >>= with_auth h

  unfoldable pub reconcile_host : Host → M (HostState S) Host Result
  reconcile_host h =
      if h.meta.deleting then delete_host h else ensure_finalizer k v finalizer h >>= live_host

  loaded : Attempt Host → M (HostState S) Host Result
  loaded (success h) = reconcile_host h
  loaded (failure e) = ignore_not_found e

  unfoldable pub reconcile : M (HostState S) Host Result
  unfolding loaded
  reconcile = attempt (lift env.get) >>= loaded
