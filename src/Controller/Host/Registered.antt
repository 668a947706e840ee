-- ===== src/Controller/Host/Registered.antt =====
-- What a run does to the store of hosts.
use libvirt_operator.Prelude.{
  ℕ, ◌+◌, String, false, [], Option, none, some, ◌≡◌, refl, sym, arith, ◌∙◌, eq_refl, ◌==◌,
}
use libvirt_operator.Outcome.{Outcome, ok, err, panic, hang}
use libvirt_operator.Host.{Client}
use libvirt_operator.Host.Monad.{
  World, view-bind, Attempt, success, failure, query, attempt, lift_cases, bind_cases, if_cases,
  ◌>>=◌,
}
use libvirt_operator.Api.{
  finalizer, auth_label, probed, status_true, status_false, required, unmet_requirements, completed,
  error,
}
use libvirt_operator.Api.Kinds.{Host, Auth, host_auth_ref}
use libvirt_operator.Probe.{HostProbe, new_host_probe}
use libvirt_operator.Store.Auth.{AuthEntry, lookup_auth}
use libvirt_operator.Store.Host.{HostEntry, HostStore, lookup_entry, register, lookup_entry_lem}
use libvirt_operator.Controller.Base.{
  Machinery, Casts, Server, Result, set_status_condition, ensure_finalizer, ensure_label,
  condition_host_client_not_ready, condition_probe_completed,
}
use libvirt_operator.Controller.Writes.{
  host-set_status_condition, host-ensure_label, ensure_finalizer_same,
}
use libvirt_operator.Controller.Host.{
  Env, HostState, capacity, not_ready, probed_host, with_session, after_required, probe,
  delete_host, probe_registered, register_dialer, connect, refresh, with_entry, with_credentials,
  with_auth, live_host, reconcile_host,
}
use libvirt_operator.Controller.Dialer.{dialer_of}

module _ {S : Type 0} (c : Client S) (k : Machinery) (casts : Casts) (v : Server Host)
    (env : Env) where
  host-not_ready :
      (h : Host) (w : World (HostState S) Host) → (not_ready c k casts v env h w).1.host ≡ w.host
  unfolding not_ready
  host-not_ready h w = ground (
    arith,
    host-set_status_condition k v h probed status_false condition_host_client_not_ready
        unmet_requirements w,
  )

  host-probed_host :
      (h : Host) (r : Attempt HostProbe) (w : World (HostState S) Host)
      → (probed_host c k casts v env h r w).1.host ≡ w.host
  unfolding probed_host
  host-probed_host h (failure e) w = ground (
    arith,
    host-set_status_condition k v h probed status_false "Probe could not be completed" error w,
  )
  host-probed_host h (success p) w = ground (
    arith,
    host-set_status_condition k v (record h { status = some (capacity casts p) }) probed status_true
        condition_probe_completed completed w,
  )

  host-with_session :
      (h : Host) (r : Outcome HostEntry) (w : World (HostState S) Host)
      → (with_session c k casts v env h r w).1.host ≡ w.host
  unfolding with_session
  host-with_session h (ok e) w =
      view-bind (λ w'. w'.host) (attempt (query (λ s. new_host_probe c s.machine)))
        (probed_host c k casts v env h) w (ground arith) (λ r w'. host-probed_host h r w')
  host-with_session h (err e) w = host-not_ready h w
  host-with_session h panic w = refl
  host-with_session h hang w = refl

  host-probe :
      (h : Host) (found : Option HostEntry) (w : World (HostState S) Host)
      → (probe c k casts v env h found w).1.host ≡ w.host
  unfolding probe after_required
  host-probe h found w =
      view-bind (λ w'. w'.host)
        (set_status_condition k v h probed status_false "New probe required" required)
        (after_required c k casts v env found) w
        (host-set_status_condition k v h probed status_false "New probe required" required w)
        (λ h' w'. host-with_session h' _ w')

  -- The store's entry of a host has a generation.
  abbrev pub HasGeneration : String → ℕ → HostStore → Type 0
  HasGeneration uid generation hosts =
      (entry : HostEntry) × (lookup_entry uid hosts ≡ some entry) × (entry.generation ≡ generation)

  abbrev WhenOk : String → ℕ → Outcome Result × World (HostState S) Host → Type 0
  WhenOk uid generation (r, w') =
      (result : Result) → r ≡ ok result → HasGeneration uid generation w'.host.hosts

  pub host-after_register :
      (h : Host) (a : Auth) (w : World (HostState S) Host)
      → ((ensure_label k v auth_label a.meta.name h >>= probe_registered c k casts v env) w).1.host
        ≡ w.host
  unfolding probe_registered
  host-after_register h a w =
      view-bind (λ w'. w'.host) (ensure_label k v auth_label a.meta.name h)
        (probe_registered c k casts v env) w (host-ensure_label k v auth_label a.meta.name h w)
        (λ h' w'. host-probe h' _ w')

  pub host-refresh :
      (h : Host) (e : HostEntry) (w : World (HostState S) Host)
      → (refresh c k casts v env h e w).1.host ≡ w.host
  unfolding refresh
  host-refresh h e w = ground (arith, host-probe h (some e) w)

  connect_registered :
      (h : Host) (a : Auth) (entry : AuthEntry) (generation : ℕ) (w : World (HostState S) Host)
      → WhenOk h.meta.uid generation (connect c k casts v env h a entry generation w)
  unfolding connect register_dialer probe_registered
  connect_registered h a entry generation w =
      let P = WhenOk h.meta.uid generation in
      lift_cases P (dialer_of env.join h a entry) (register_dialer c k casts v env h a generation) w
        (λ stop no result e. absurd (no result e))
        (λ dialer _ result e. (
          record {
            generation = generation;
            client = dialer;
            connected = env.connects dialer;
            sessions = [];
          },
          ground (
            arith,
            host-after_register h a (record w {
              host = record {
                hosts =
                    (register h.meta.uid generation dialer (env.connects dialer) w.host.hosts).0;
                machine = w.host.machine;
              };
            }),
            (lookup_entry_lem h.meta.uid h.meta.uid generation dialer (env.connects dialer)
                w.host.hosts).0,
            eq_refl h.meta.uid,
          ),
          refl,
        ))

  with_entry_registered :
      (h : Host) (a : Auth) (entry : AuthEntry) (found : Option HostEntry)
      (w : World (HostState S) Host)
      → lookup_entry h.meta.uid w.host.hosts ≡ found
      → WhenOk h.meta.uid
          (h.meta.generation + entry.generation)
          (with_entry c k casts v env h a entry found w)
  unfolding with_entry
  with_entry_registered h a entry none w e =
      connect_registered h a entry (h.meta.generation + entry.generation) w
  with_entry_registered h a entry (some old) w e =
      let generation = h.meta.generation + entry.generation in
      if_cases (WhenOk h.meta.uid generation) (generation == old.generation)
        (refresh c k casts v env h old) (connect c k casts v env h a entry generation) w
        (λ same result _. (old, ground (arith, e, host-refresh h old w), ground (arith, same)))
        (λ _. connect_registered h a entry generation w)

  with_auth_registered :
      (h : Host) (a : Auth) (entry : AuthEntry) (w : World (HostState S) Host)
      → lookup_auth a.meta.uid env.auths ≡ some entry
      → WhenOk h.meta.uid (h.meta.generation + entry.generation) (with_auth c k casts v env h a w)
  unfolding with_auth with_credentials
  with_auth_registered h a entry w known = rw known (with_entry_registered h a entry _ w refl)

  live_host_registered :
      (h h' : Host) (a : Auth) (entry : AuthEntry) (w : World (HostState S) Host)
      → (h'.meta.uid ≡ h.meta.uid)
        × (h'.meta.name ≡ h.meta.name)
        × (h'.meta.namespace ≡ h.meta.namespace)
        × (h'.meta.generation ≡ h.meta.generation)
        × (h'.spec ≡ h.spec)
      → env.get_auth (host_auth_ref h) ≡ ok a
      → lookup_auth a.meta.uid env.auths ≡ some entry
      → WhenOk h.meta.uid (h.meta.generation + entry.generation) (live_host c k casts v env h' w)
  unfolding live_host with_auth with_credentials host_auth_ref
  live_host_registered h h' a entry w (uid, _, namespace, generation, spec) given known =
      let P = WhenOk h.meta.uid (h.meta.generation + entry.generation) in
      lift_cases P (env.get_auth (host_auth_ref h')) (with_auth c k casts v env h') w
        (λ stop no result e. absurd (no result e))
        (λ a' e result f.
          let known' : lookup_auth a'.meta.uid env.auths ≡ some entry =
            ground (arith, e, given, known, namespace, spec) in
          let (found, at, of) = with_auth_registered h' a' entry w known' result f in
          (found, rw (sym uid) at, of ∙ cc generation))

  -- A run for a host that is not being deleted, whose auth is in the store of auths, leaves, if it
  -- returns without an error, an entry for the host whose generation is the sum of the host's and the
  -- auth's entry's.
  pub reconcile_host_registered :
      (h : Host) (a : Auth) (entry : AuthEntry) (w : World (HostState S) Host) (result : Result)
      → h.meta.deleting ≡ false
      → env.get_auth (host_auth_ref h) ≡ ok a
      → lookup_auth a.meta.uid env.auths ≡ some entry
      → (reconcile_host c k casts v env h w).0 ≡ ok result
      → HasGeneration h.meta.uid
          (h.meta.generation + entry.generation)
          (reconcile_host c k casts v env h w).1.host.hosts
  unfolding reconcile_host
  reconcile_host_registered h a entry w result d given known =
      let P = WhenOk h.meta.uid (h.meta.generation + entry.generation) in
      if_cases P h.meta.deleting (delete_host c k casts v env h)
        (ensure_finalizer k v finalizer h >>= live_host c k casts v env) w (λ deleted result e. cc)
        (λ _.
          bind_cases P (ensure_finalizer k v finalizer h) (live_host c k casts v env) w
            (λ stop no result e. absurd (no result e))
            (λ h' e.
              live_host_registered h h' a entry _ (ensure_finalizer_same k v finalizer h h' w e)
                given known))
        result
