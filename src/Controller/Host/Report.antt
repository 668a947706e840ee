-- ===== src/Controller/Host/Report.antt =====
-- What a run writes of a host that is connected.
use libvirt_operator.Prelude.{
  ◌+◌, false, List, [], ◌∷◌, ◌++◌, some, none, ◌≡◌, refl, ap, arith, ◌∙◌,
}
use libvirt_operator.Outcome.{ok}
use libvirt_operator.Host.{Client}
use libvirt_operator.Host.Monad.{World, success, pure, bind_ok}
use libvirt_operator.Api.{Condition, probed, status_true, status_false, required, completed}
use libvirt_operator.Api.Kinds.{Host, Auth, host_auth_ref}
use libvirt_operator.Probe.{HostProbe, new_host_probe}
use libvirt_operator.Store.Auth.{AuthEntry, lookup_auth}
use libvirt_operator.Store.Host.{HostEntry, lookup_entry, session}
use libvirt_operator.Controller.Base.{
  Machinery, Casts, Server, requeue_after, fresh_for, data_refresh_interval, set_status_condition,
  status_updates, condition_probe_completed,
}
use libvirt_operator.Controller.Writes.{host-set_status_condition}
use libvirt_operator.Controller.Conditions.{
  SetsConditions, Accepts, made, with_condition, set_status_condition-accepted,
  set_status_condition-written,
}
use libvirt_operator.Controller.Host.{
  Env, HostState, capacity, probed_host, with_session, after_required, probe, refresh, with_entry,
  entry_session, reconcile_host,
}
use libvirt_operator.Controller.Host.Unlabelled.{IsHeld, reaches_entry}

module _ {S : Type 0} (c : Client S) (k : Machinery) (casts : Casts) (v : Server Host) (env : Env)
    (l : SetsConditions k) (a : Accepts v) where
  -- The host with what a probe found, as its status is written.
  abbrev stored : Host → HostProbe → Host
  stored h p = record h { status = some (capacity casts p) }

  probed_host-writes :
      (h : Host) (p : HostProbe) (w : World (HostState S) Host) (old : Condition)
      → k.find_status_condition h.conditions probed ≡ some old
      → old.status ≡ status_false
      → ((probed_host c k casts v env h (success p) w).0 ≡ ok (requeue_after data_refresh_interval))
        × (status_updates (probed_host c k casts v env h (success p) w).1.log
            ≡ status_updates w.log
              ++ with_condition k
                  (stored h p)
                  probed
                  status_true
                  condition_probe_completed
                  completed
                ∷ [])
  unfolding probed_host
  probed_host-writes h p w old found is_false =
      let set =
        set_status_condition k v (stored h p) probed status_true condition_probe_completed
          completed in
      let run =
        bind_ok set (λ _. pure (requeue_after data_refresh_interval)) w _
          (set_status_condition-accepted k v a (stored h p) probed status_true
            condition_probe_completed completed w) in
      (
        ap (λ r. r.0) run,
        ap (λ r. status_updates r.1.log) run
            ∙ set_status_condition-written k v l (stored h p) probed status_true
                condition_probe_completed completed w old found (λ e. cc),
      )

  -- From a session on, the run goes on with what the probe found.
  with_session-probes :
      (h : Host) (open_ : HostEntry) (p : HostProbe) (w : World (HostState S) Host)
      → new_host_probe c w.host.machine ≡ ok p
      → with_session c k casts v env h (ok open_) w ≡ probed_host c k casts v env h (success p) w
  unfolding with_session
  with_session-probes h open_ p w found = ground (arith, found)

  abbrev due : Host → Host
  due h = with_condition k h probed status_false "New probe required" required

  with_entry-probes :
      (h : Host) (auth : Auth) (entry : AuthEntry) (old : HostEntry) (w : World (HostState S) Host)
      → old.generation ≡ h.meta.generation + entry.generation
      → fresh_for k.now (k.find_status_condition h.conditions probed) ≡ none
      → with_entry c k casts v env h auth entry (some old) w ≡ probe c k casts v env h (some old) w
  unfolding with_entry refresh
  with_entry-probes h auth entry old w same is_due = ground (arith, same, is_due)

  -- If the API server accepts every update and conditions are kept as apimachinery documents: a
  -- run for a host that is not being deleted, has its finalizer, and is registered with the sum of
  -- the generations, whose last probe is out of date, whose client is connected and whose machine
  -- answers the probe, comes back after the interval, and the last status that it writes has the
  -- architecture, the CPUs, the memory and the NUMA flag that the probe found, the numbers as
  -- int32 and int64, and a Probed condition that is true.
  pub reconcile_host-reports :
      (h : Host) (auth : Auth) (entry : AuthEntry) (old open_ : HostEntry) (p : HostProbe)
      (w : World (HostState S) Host)
      → h.meta.deleting ≡ false
      → IsHeld k h
      → env.get_auth (host_auth_ref h) ≡ ok auth
      → lookup_auth auth.meta.uid env.auths ≡ some entry
      → lookup_entry h.meta.uid w.host.hosts ≡ some old
      → old.generation ≡ h.meta.generation + entry.generation
      → fresh_for k.now (k.find_status_condition h.conditions probed) ≡ none
      → session 0 old ≡ ok open_
      → new_host_probe c w.host.machine ≡ ok p
      → (o : Host) × (front : List Host) × ((reconcile_host c k casts v env h w).0
          ≡ ok (requeue_after data_refresh_interval))
        × (status_updates (reconcile_host c k casts v env h w).1.log ≡ front ++ o ∷ [])
        × (o.status
            ≡ some (record {
              arch = p.arch;
              cpus = casts.to_int32 p.cpus;
              memory_total = casts.to_int64 p.memory_total;
              memory_free = casts.to_int64 p.memory_free;
              numa = p.numa;
            }))
        × ((found : Condition) × (k.find_status_condition o.conditions probed ≡ some found)
            × (found.status ≡ status_true))
  unfolding probe after_required entry_session capacity
  reconcile_host-reports h auth entry old open_ p w live held given known at same is_due connected
        found =
      let required_ =
        set_status_condition k v h probed status_false "New probe required" required in
      let w1 = (required_ w).1 in
      let (first, at_first, is_false, _, _) =
        l.find_set h.conditions (made k probed status_false "New probe required" required) in
      let (last_, at_last, is_true, _, _) =
        l.find_set (due h).conditions
          (made k probed status_true condition_probe_completed completed) in
      let (done_, written) = probed_host-writes (due h) p w1 first at_first is_false in
      let machine =
        ap (λ s. new_host_probe c s.machine)
          (host-set_status_condition k v h probed status_false "New probe required" required w)
        ∙ found in
      let run =
        reaches_entry c k casts v env h auth entry (some old) w live held given known at
        ∙ with_entry-probes h auth entry old w same is_due
        ∙ bind_ok required_ (after_required c k casts v env (some old)) w (due h) (
            set_status_condition-accepted k v a h probed status_false "New probe required" required
              w)
        ∙ ap (λ e. with_session c k casts v env (due h) e w1) connected
        ∙ with_session-probes (due h) open_ p w1 machine in
      (
        with_condition k (stored (due h) p) probed status_true condition_probe_completed completed,
        status_updates w1.log,
        ap (λ r. r.0) run ∙ done_,
        ap (λ r. status_updates r.1.log) run ∙ written,
        refl,
        (last_, at_last, is_true),
      )
