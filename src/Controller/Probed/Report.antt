-- ===== src/Controller/Probed/Report.antt =====
-- What a probe leaves in the API server: pool.go, network.go and pcidevice.go from the refresh interval
-- on.
use libvirt_operator.Prelude.{
  String, Bool, true, false, List, [], ◌∷◌, ◌++◌, ◌≡◌, refl, none, some, ◌&&◌, arith, ap, ◌∙◌,
}
use libvirt_operator.Outcome.{ok}
use libvirt_operator.Host.Monad.{World, bind_ok, M, pure, lift, attempt, success, ◌>>=◌}
use libvirt_operator.Api.{
  Resource, Condition, NamespacedName, Status, ready, probed, status_true, status_false, host_label,
  Reason, required, not_exist, active, not_active, completed,
}
use libvirt_operator.Api.Kinds.{Host}
use libvirt_operator.Store.Host.{HostEntry, lookup_entry, session}
use libvirt_operator.Controller.Base.{
  Machinery, Server, Result, requeue_after, fresh_for, data_refresh_interval, set_status_condition,
  ensure_label, status_updates, condition_probe_completed,
}
use libvirt_operator.Controller.Writes.{host-set_status_condition}
use libvirt_operator.Controller.Conditions.{
  SetsConditions, Accepts, made, with_condition, set_status_condition-accepted,
  set_status_condition-written, ensure_label-accepted, status_updates-ensure_label,
}
use libvirt_operator.Controller.Probed.{
  Sources, Texts, Probing, report_ready, report, refresh_if_due, refresh, with_host, with_entry,
  probe_host, reported,
}

-- The status of the Ready condition that a probe calls for.
abbrev pub status_of : Bool → Status
status_of true = status_true
status_of false = status_false

-- An object whose conditions and status say what a probe found.
pub record Says {S P Spec St : Type 0} (k : Machinery) (pr : Probing S P Spec St) (p : P)
    (before after : Resource Spec St) : Type 0 where
  pub same_meta : after.meta ≡ before.meta
  pub same_spec : after.spec ≡ before.spec
  pub stores : after.status ≡ pr.store p before.status
  pub is_ready :
      (found : Condition) × (k.find_status_condition after.conditions ready ≡ some found)
      × (found.status ≡ status_of (pr.exists p && pr.active p))
  pub is_probed :
      (found : Condition) × (k.find_status_condition after.conditions probed ≡ some found)
      × (found.status ≡ status_true)

-- An object that took a status for its Ready condition, and is otherwise as it was.
record ReadySet {Spec St : Type 0} (k : Machinery) (before after : Resource Spec St) (s : Status)
    : Type 0 where
  same_meta : after.meta ≡ before.meta
  same_spec : after.spec ≡ before.spec
  same_status : after.status ≡ before.status
  same_probed :
      k.find_status_condition after.conditions probed
      ≡ k.find_status_condition before.conditions probed
  is_ready :
      (found : Condition) × (k.find_status_condition after.conditions ready ≡ some found)
      × (found.status ≡ s)

module _ {S Spec St : Type 0} (k : Machinery) (v : Server (Resource Spec St)) (texts : Texts)
    (l : SetsConditions k) (a : Accepts v) (r : Resource Spec St)
    (w : World S (Resource Spec St)) where
  sets_ready :
      (s : Status) (text : String) (reason : Reason)
      → (o : Resource Spec St) × ((set_status_condition k v r ready s text reason w).0 ≡ ok o)
        × ReadySet k r o s
  sets_ready s text reason =
      let c = made k ready s text reason in
      let (found, at_ready, same, _, _) = l.find_set r.conditions c in
      (
        with_condition k r ready s text reason,
        set_status_condition-accepted k v a r ready s text reason w,
        record {
          same_meta = refl;
          same_spec = refl;
          same_status = refl;
          same_probed = l.find_other r.conditions c probed (λ h. cc);
          is_ready = (found, at_ready, same);
        },
      )

  report_ready-sets :
      (exists is_active : Bool)
      → (o : Resource Spec St) × ((report_ready k v texts exists is_active r w).0 ≡ ok o)
        × ReadySet k r o (status_of (exists && is_active))
  unfolding report_ready
  report_ready-sets false b = sets_ready status_false texts.not_exist not_exist
  report_ready-sets true true = sets_ready status_true texts.active active
  report_ready-sets true false = sets_ready status_false texts.not_active not_active

-- The object whose status says what a probe found, and the rest of a report from there.
abbrev stored_as :
    {S P Spec St : Type 0} → Probing S P Spec St → P → Resource Spec St → Resource Spec St
stored_as pr p r = record r { status = pr.store p r.status }

module _ {S P Spec St : Type 0} (k : Machinery) (v : Server (Resource Spec St))
    (pr : Probing S P Spec St) where
  abbrev set_probed : Resource Spec St → M S (Resource Spec St) (Resource Spec St)
  set_probed r = set_status_condition k v r probed status_true condition_probe_completed completed

  abbrev label_host : Resource Spec St → M S (Resource Spec St) Result
  label_host r =
      ensure_label k v host_label (pr.host_name r) r
      >>= (λ _. pure (requeue_after data_refresh_interval))

module _ {S P Spec St : Type 0} (k : Machinery) (v : Server (Resource Spec St)) (texts : Texts)
    (src : Sources (Resource Spec St)) (pr : Probing S P Spec St) (l : SetsConditions k)
    (a : Accepts v) where
  -- A report on an object whose Probed condition is not true writes what the probe found.
  report-Says :
      (r : Resource Spec St) (p : P) (w : World S (Resource Spec St)) (old : Condition)
      → k.find_status_condition r.conditions probed ≡ some old
      → old.status ≡ status_false
      → (o : Resource Spec St) × (front : List (Resource Spec St)) × ((report k v texts src pr r p
            w).0
          ≡ ok (requeue_after data_refresh_interval))
        × (status_updates (report k v texts src pr r p w).1.log ≡ front ++ o ∷ [])
        × Says k pr p r o
  unfolding report
  report-Says r p w old h is_false =
      let (o, ready_ok, set) = report_ready-sets k v texts l a r w (pr.exists p) (pr.active p) in
      let w1 = (report_ready k v texts (pr.exists p) (pr.active p) r w).1 in
      let stored = stored_as pr p o in
      let o' = with_condition k stored probed status_true condition_probe_completed completed in
      let w2 = (set_probed k v pr stored w1).1 in
      let key = pr.host_name o' in
      let (labelled, label_ok) = ensure_label-accepted k v a host_label key o' w2 in
      let (found, at_probed, same, _, _) =
        l.find_set o.conditions (made k probed status_true condition_probe_completed completed) in
      let (found', at_ready, same') = set.is_ready in
      let written =
        set_status_condition-written k v l stored probed status_true condition_probe_completed
          completed w1 old (set.same_probed ∙ h) (λ e. cc) in
      let run =
        bind_ok (report_ready k v texts (pr.exists p) (pr.active p) r)
          (λ x. set_probed k v pr (stored_as pr p x) >>= label_host k v pr) w o ready_ok
        ∙ bind_ok (set_probed k v pr stored) (label_host k v pr) w1 o' (
            set_status_condition-accepted k v a stored probed status_true condition_probe_completed
              completed w1)
        ∙ bind_ok (ensure_label k v host_label key o')
            (λ _. pure (requeue_after data_refresh_interval)) w2 labelled label_ok in
      (
        o',
        status_updates w1.log,
        ap (λ x. x.0) run,
        ap (λ x. status_updates x.1.log) run
            ∙ status_updates-ensure_label k v host_label key o' w2
            ∙ written,
        record {
          same_meta = set.same_meta;
          same_spec = set.same_spec;
          stores = ap (pr.store p) set.same_status;
          is_ready = (found', l.find_other o.conditions _ ready (λ e. cc) ∙ at_ready, same');
          is_probed = (found, at_probed, same);
        },
      )

  -- The object after the first step of a refresh: its Probed condition is false.
  abbrev due : Resource Spec St → Resource Spec St
  due r = with_condition k r probed status_false "New probe required" required

  refresh_runs :
      (ref : NamespacedName) (r : Resource Spec St) (w : World S (Resource Spec St))
      → fresh_for k.now (k.find_status_condition r.conditions probed) ≡ none
      → refresh_if_due k v texts src pr ref r w ≡ refresh k v texts src pr ref r w
  unfolding refresh_if_due
  refresh_runs ref r w is_due = ground (arith, is_due)

  -- From a host that answers, the run goes on with the report.
  with_host-reports :
      (r : Resource Spec St) (w : World S (Resource Spec St)) (h : Host) (e open_ : HostEntry)
      (p : P)
      → lookup_entry h.meta.uid src.hosts ≡ some e
      → session 0 e ≡ ok open_
      → pr.probe (pr.resource_name r) w.host ≡ ok p
      → with_host k v texts src pr r (success h) w ≡ report k v texts src pr r p w
  unfolding with_host with_entry probe_host reported
  with_host-reports r w h e open_ p known connected found = ground (arith, known, connected, found)

  -- If the API server accepts every update and conditions are kept as apimachinery documents, then
  -- for a resource whose last probe is out of date, whose host is in the store with a connected
  -- client, and whose probe succeeds, the run comes back after the interval; and the last status
  -- that it writes is of the resource with its metadata and spec as they were, with the status
  -- that the probe gives, a Ready condition that is true exactly if the object exists and is
  -- active, and a Probed condition that is true.
  pub refresh_if_due-Says :
      (ref : NamespacedName) (r : Resource Spec St) (w : World S (Resource Spec St)) (h : Host)
      (e open_ : HostEntry) (p : P)
      → fresh_for k.now (k.find_status_condition r.conditions probed) ≡ none
      → src.get_host ref ≡ ok h
      → lookup_entry h.meta.uid src.hosts ≡ some e
      → session 0 e ≡ ok open_
      → pr.probe (pr.resource_name (due r)) w.host ≡ ok p
      → (o : Resource Spec St) × (front : List (Resource Spec St)) × ((refresh_if_due k v texts src
            pr ref r w).0
          ≡ ok (requeue_after data_refresh_interval))
        × (status_updates (refresh_if_due k v texts src pr ref r w).1.log ≡ front ++ o ∷ [])
        × Says k pr p r o
  unfolding refresh_if_due refresh
  refresh_if_due-Says ref r w h e open_ p is_due got known connected found =
      let w1 = (set_status_condition k v r probed status_false "New probe required" required w).1 in
      let (c, at_probed, same, _, _) =
        l.find_set r.conditions (made k probed status_false "New probe required" required) in
      let (o, front, done_, written, says) = report-Says (due r) p w1 c at_probed same in
      let run =
        refresh_runs ref r w is_due
        ∙ bind_ok (set_status_condition k v r probed status_false "New probe required" required)
            (λ d. attempt (lift (src.get_host ref)) >>= with_host k v texts src pr d) w (due r)
            (set_status_condition-accepted k v a r probed status_false "New probe required" required
              w)
        ∙ ap (λ x. (attempt (lift x) >>= with_host k v texts src pr (due r)) w1) got
        ∙ with_host-reports (due r) w1 h e open_ p known connected (
            ap (pr.probe (pr.resource_name (due r)))
              (host-set_status_condition k v r probed status_false "New probe required" required w)
            ∙ found) in
      (
        o,
        front,
        ap (λ x. x.0) run ∙ done_,
        ap (λ x. status_updates x.1.log) run ∙ written,
        record {
          same_meta = says.same_meta;
          same_spec = says.same_spec;
          stores = says.stores;
          is_ready = says.is_ready;
          is_probed = says.is_probed;
        },
      )
