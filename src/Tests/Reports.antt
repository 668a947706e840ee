-- ===== src/Tests/Reports.antt =====
-- What a probe leaves in the API server, on machinery that keeps the newest condition first and finds
-- the first of a type.
use libvirt_operator.Prelude.{
  String, Bool, true, false, List, [], ◌∷◌, ◌++◌, ◌≡◌, ◌≢◌, refl, Option, none, some, if◌then◌else◌,
  arith, lookup,
}
use libvirt_operator.Outcome.{Outcome, ok}
use libvirt_operator.Libvirt.{pool_running}
use libvirt_operator.Api.{
  Condition, ConditionType, NamespacedName, ready, probed, deletion_prevented, status_true,
}
use libvirt_operator.Api.Kinds.{Pool, Network}
use libvirt_operator.Probe.{new_network_probe}
use libvirt_operator.Store.Host.{lookup_entry, session}
use libvirt_operator.Controller.Base.{Machinery, fresh_for, requeue_after, status_updates}
use libvirt_operator.Controller.Conditions.{SetsConditions, Accepts}
use libvirt_operator.Controller.Probed.{Sources, refresh_if_due}
use libvirt_operator.Controller.Probed.Report.{Says, refresh_if_due-Says}
use libvirt_operator.Controller.Network.{network_texts, network_probing}
use libvirt_operator.Controller.Pool.{PoolUsers, reconcile_pool}
use libvirt_operator.Controller.Pool.Report.{reconcile_pool-reports}
use libvirt_operator.Tests.Fixtures.{
  machine, held_kit, casts, accepting, at, meta_of, the_pool, the_host, entry,
}

abbrev same_type : ConditionType → ConditionType → Bool
same_type ready ready = true
same_type probed probed = true
same_type deletion_prevented deletion_prevented = true
same_type _ _ = false

abbrev find_first : List Condition → ConditionType → Option Condition
find_first [] t = none
find_first (c ∷ cs) t = if same_type c.type_ t then some c else find_first cs t

abbrev pub finding_kit : Machinery
finding_kit = record held_kit { find_status_condition = find_first }

same_type_refl : (t : ConditionType) → same_type t t ≡ true
same_type_refl ready = refl
same_type_refl probed = refl
same_type_refl deletion_prevented = refl

same_type-ne : (s t : ConditionType) → t ≢ s → same_type s t ≡ false
same_type-ne ready ready h = absurd (h refl)
same_type-ne ready probed h = refl
same_type-ne ready deletion_prevented h = refl
same_type-ne probed ready h = refl
same_type-ne probed probed h = absurd (h refl)
same_type-ne probed deletion_prevented h = refl
same_type-ne deletion_prevented ready h = refl
same_type-ne deletion_prevented probed h = refl
same_type-ne deletion_prevented deletion_prevented h = absurd (h refl)

pub finding_kit-SetsConditions : SetsConditions finding_kit
finding_kit-SetsConditions = record {
  find_set = λ cs c. (c, ground (arith, same_type_refl c.type_), refl, refl, refl);
  find_other = λ cs c t ne. ground (arith, same_type-ne c.type_ t ne);
  changes = λ cs c old h ne. refl;
}

pub accepting-Accepts : {O : Type 0} → Accepts (accepting {O = O})
accepting-Accepts = record { takes_update = λ log o. refl; takes_status = λ log o. refl }

abbrev connected_sources : {O : Type 0} → O → Sources O
connected_sources o = record {
  get = ok o;
  requirement = λ key value. ok tt;
  get_host = λ ref. ok the_host;
  hosts = ("host", entry) ∷ [];
}

abbrev nobody : String → String → Outcome (List String)
nobody key value = ok []

abbrev pool_users : PoolUsers
pool_users = record { volumes = nobody; cloud_inits = nobody }

abbrev a_network : Network
a_network = record {
  meta = meta_of "net" false;
  spec = record { name = "net"; host_ref = "host" };
  conditions = [];
  status = tt;
}

abbrev the_ref : NamespacedName
the_ref = record { name = "host"; namespace = "default" }

refresh_if_due-Says_example :
    (o : Network) × (front : List Network) × ((refresh_if_due finding_kit accepting network_texts
        (connected_sources a_network)
        (network_probing machine)
        the_ref
        a_network
        (at 0)).0
      ≡ ok (requeue_after 60))
    × (status_updates
          (refresh_if_due finding_kit accepting network_texts
            (connected_sources a_network)
            (network_probing machine)
            the_ref
            a_network
            (at 0)).1.log
        ≡ front ++ o ∷ [])
    × Says finding_kit
        (network_probing machine)
        (record { active = true; exists = true })
        a_network
        o
unfolding fresh_for lookup_entry lookup session new_network_probe
refresh_if_due-Says_example =
    refresh_if_due-Says finding_kit accepting network_texts (connected_sources a_network)
      (network_probing machine) finding_kit-SetsConditions accepting-Accepts the_ref a_network
      (at 0) the_host entry (record entry { sessions = 0 ∷ [] })
      (record { active = true; exists = true }) refl refl refl refl refl

reconcile_pool-reports_example :
    (o : Pool) × (front : List Pool) × ((reconcile_pool machine finding_kit casts accepting
        (connected_sources the_pool)
        pool_users
        the_pool
        (at 0)).0
      ≡ ok (requeue_after 60))
    × (status_updates
          (reconcile_pool machine finding_kit casts accepting
            (connected_sources the_pool)
            pool_users
            the_pool
            (at 0)).1.log
        ≡ front ++ o ∷ [])
    × ((found : Condition) × (find_first o.conditions ready ≡ some found)
        × (found.status ≡ status_true))
    × (o.status ≡ some (record { capacity = 8; allocation = 3; available = 5 }))
unfolding fresh_for lookup_entry lookup session
reconcile_pool-reports_example =
    reconcile_pool-reports machine finding_kit casts accepting (connected_sources the_pool)
      pool_users finding_kit-SetsConditions accepting-Accepts the_pool (at 0) the_host entry
      (record entry { sessions = 0 ∷ [] }) (record { name = "pool" })
      (record { state = pool_running; capacity = 8; allocation = 3; available = 5 }) refl refl refl
      refl refl refl refl
