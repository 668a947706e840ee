-- ===== src/Controller/Host/Unlabelled.antt =====
-- The label of a host's auth, which a run sets after it has registered the host.
use libvirt_operator.Prelude.{
  ℕ, ◌+◌, true, false, [], ◌∷◌, ◌++◌, Option, none, some, ◌≡◌, refl, ap, arith, ◌∙◌, eq_refl,
}
use libvirt_operator.Outcome.{Outcome, Error, ok, err, panic, hang}
use libvirt_operator.Host.{Client}
use libvirt_operator.Host.Monad.{
  World, Attempt, success, failure, query, attempt, update, view-bind,
}
use libvirt_operator.Api.{
  finalizer, auth_label, probed, status_true, status_false, required, unmet_requirements, completed,
  error,
}
use libvirt_operator.Api.Kinds.{Host, Auth, host_auth_ref}
use libvirt_operator.Util.Labels.{set_label}
use libvirt_operator.Probe.{HostProbe, new_host_probe}
use libvirt_operator.Store.Auth.{AuthEntry, lookup_auth}
use libvirt_operator.Store.Host.{HostEntry, lookup_entry, register, lookup_entry_lem}
use libvirt_operator.Controller.Base.{
  Machinery, Casts, Server, set_status_condition, ensure_finalizer, write_object, ensure_label,
  updates, condition_host_client_not_ready, condition_probe_completed,
}
use libvirt_operator.Controller.Writes.{updates-set_status_condition}
use libvirt_operator.Controller.Host.{
  Env, HostState, capacity, not_ready, probed_host, with_session, after_required, probe,
  register_dialer, connect, refresh, with_entry, with_credentials, with_auth, live_host,
  reconcile_host,
}
use libvirt_operator.Controller.Dialer.{Dialer, dialer_of}

-- A host that has its finalizer already, which AddFinalizer leaves as it is.
abbrev pub IsHeld : Machinery → Host → Type 0
IsHeld k h = k.add_finalizer h.meta.finalizers finalizer ≡ (h.meta.finalizers, false)

-- The host with the label of an auth, and the state after Register.
abbrev pub labelled : Host → Auth → Host
labelled h a =
    let m = h.meta in
    record h { meta = record m { labels = (set_label m.labels auth_label a.meta.name).0 } }

abbrev pub registered : {S : Type 0} → Env → Host → ℕ → Dialer → HostState S → HostState S
registered env h generation dialer s = record s {
  hosts = (register h.meta.uid generation dialer (env.connects dialer) s.hosts).0;
}

module _ {S : Type 0} (c : Client S) (k : Machinery) (casts : Casts) (v : Server Host)
    (env : Env) where
  updates-not_ready :
      (h : Host) (w : World (HostState S) Host)
      → updates (not_ready c k casts v env h w).1.log ≡ updates w.log
  unfolding not_ready
  updates-not_ready h w = ground (
    arith,
    updates-set_status_condition k v h probed status_false condition_host_client_not_ready
        unmet_requirements w,
  )

  updates-probed_host :
      (h : Host) (r : Attempt HostProbe) (w : World (HostState S) Host)
      → updates (probed_host c k casts v env h r w).1.log ≡ updates w.log
  unfolding probed_host
  updates-probed_host h (failure e) w = ground (
    arith,
    updates-set_status_condition k v h probed status_false "Probe could not be completed" error w,
  )
  updates-probed_host h (success p) w = ground (
    arith,
    updates-set_status_condition k v (record h { status = some (capacity casts p) }) probed
        status_true condition_probe_completed completed w,
  )

  updates-with_session :
      (h : Host) (r : Outcome HostEntry) (w : World (HostState S) Host)
      → updates (with_session c k casts v env h r w).1.log ≡ updates w.log
  unfolding with_session
  updates-with_session h (ok e) w =
      view-bind (λ w'. updates w'.log) (attempt (query (λ s. new_host_probe c s.machine)))
        (probed_host c k casts v env h) w (ground arith) (λ r w'. updates-probed_host h r w')
  updates-with_session h (err e) w = updates-not_ready h w
  updates-with_session h panic w = refl
  updates-with_session h hang w = refl

  updates-probe :
      (h : Host) (found : Option HostEntry) (w : World (HostState S) Host)
      → updates (probe c k casts v env h found w).1.log ≡ updates w.log
  unfolding probe after_required
  updates-probe h found w =
      view-bind (λ w'. updates w'.log)
        (set_status_condition k v h probed status_false "New probe required" required)
        (after_required c k casts v env found) w
        (updates-set_status_condition k v h probed status_false "New probe required" required w)
        (λ h' w'. updates-with_session h' _ w')

  updates-refresh :
      (h : Host) (e : HostEntry) (w : World (HostState S) Host)
      → updates (refresh c k casts v env h e w).1.log ≡ updates w.log
  unfolding refresh
  updates-refresh h e w = ground (arith, updates-probe h (some e) w)

  ensure_finalizer_held :
      (h : Host) (w : World (HostState S) Host)
      → IsHeld k h
      → ensure_finalizer k v finalizer h w ≡ (ok h, w)
  unfolding ensure_finalizer write_object
  ensure_finalizer_held h w held = ground (arith, held)

  -- A run up to the entry of the host.
  pub reaches_entry :
      (h : Host) (a : Auth) (entry : AuthEntry) (found : Option HostEntry)
      (w : World (HostState S) Host)
      → h.meta.deleting ≡ false
      → IsHeld k h
      → env.get_auth (host_auth_ref h) ≡ ok a
      → lookup_auth a.meta.uid env.auths ≡ some entry
      → lookup_entry h.meta.uid w.host.hosts ≡ found
      → reconcile_host c k casts v env h w ≡ with_entry c k casts v env h a entry found w
  unfolding reconcile_host live_host with_auth with_credentials
  reaches_entry h a entry found w live held given known at =
      ground (arith, live, ensure_finalizer_held h w held, given, known, at)

  -- A run for a host whose entry has the sum of the generations updates no object.
  registered_updates :
      (h : Host) (a : Auth) (entry : AuthEntry) (old : HostEntry) (w : World (HostState S) Host)
      → h.meta.deleting ≡ false
      → IsHeld k h
      → env.get_auth (host_auth_ref h) ≡ ok a
      → lookup_auth a.meta.uid env.auths ≡ some entry
      → lookup_entry h.meta.uid w.host.hosts ≡ some old
      → old.generation ≡ h.meta.generation + entry.generation
      → updates (reconcile_host c k casts v env h w).1.log ≡ updates w.log
  unfolding with_entry
  registered_updates h a entry old w live held given known at same =
      rw (reaches_entry h a entry (some old) w live held given known at)
        (ground (arith, same, updates-refresh h old w))

module _ {S : Type 0} (c : Client S) (k : Machinery) (casts : Casts) (v : Server Host)
    (env : Env) where
  connect_refused :
      (h : Host) (a : Auth) (entry : AuthEntry) (generation : ℕ) (dialer : Dialer) (e : Error)
      (w : World (HostState S) Host)
      → dialer_of env.join h a entry ≡ ok dialer
      → (set_label h.meta.labels auth_label a.meta.name).1 ≡ true
      → v.update_answer w.log (labelled h a) ≡ err e
      → connect c k casts v env h a entry generation w ≡ (
        err e,
        record {
          host = registered env h generation dialer w.host;
          log = w.log ++ update (labelled h a) ∷ [];
        },
      )
  unfolding connect register_dialer ensure_label write_object
  connect_refused h a entry generation dialer e w dials changed refused =
      ground (arith, dials, changed, refused)

-- Let a host not be deleted, have its finalizer and lack the label of its auth, and let the store
-- have its auth but not the host. If the API server refuses the label after the host is
-- registered, the run fails; and the next run for the host, which finds it registered with the sum
-- of the generations, updates no object, whatever the API server answers then: the label is not
-- set.
pub reconcile_host_unlabelled :
    {S : Type 0} (c : Client S) (k k' : Machinery) (casts : Casts) (v v' : Server Host) (env : Env)
    (h : Host) (a : Auth) (entry : AuthEntry) (dialer : Dialer) (e : Error)
    (w : World (HostState S) Host)
    → h.meta.deleting ≡ false
    → IsHeld k h
    → IsHeld k' h
    → env.get_auth (host_auth_ref h) ≡ ok a
    → lookup_auth a.meta.uid env.auths ≡ some entry
    → lookup_entry h.meta.uid w.host.hosts ≡ none
    → dialer_of env.join h a entry ≡ ok dialer
    → (set_label h.meta.labels auth_label a.meta.name).1 ≡ true
    → v.update_answer w.log (labelled h a) ≡ err e
    → ((reconcile_host c k casts v env h w).0 ≡ err e)
      × (updates (reconcile_host c k' casts v' env h (reconcile_host c k casts v env h w).1).1.log
          ≡ updates (reconcile_host c k casts v env h w).1.log)
unfolding with_entry
reconcile_host_unlabelled c k k' casts v v' env h a entry dialer e w live held held' given known at
      dials changed refused =
    let generation = h.meta.generation + entry.generation in
    let run =
      reaches_entry c k casts v env h a entry none w live held given known at
      ∙ connect_refused c k casts v env h a entry generation dialer e w dials changed refused in
    let old : HostEntry = record {
      generation = generation;
      client = dialer;
      connected = env.connects dialer;
      sessions = [];
    } in
    (
      ap (λ r. r.0) run,
      registered_updates c k' casts v' env h a entry old (reconcile_host c k casts v env h w).1 live
          held' given known
          (ap (λ r. lookup_entry h.meta.uid r.1.host.hosts) run
            ∙ ground (
              arith,
              (lookup_entry_lem h.meta.uid h.meta.uid generation dialer (env.connects dialer)
                  w.host.hosts).0,
              eq_refl h.meta.uid,
            ))
          refl,
    )
