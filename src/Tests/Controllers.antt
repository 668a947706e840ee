-- ===== src/Tests/Controllers.antt =====
-- The theorem on the deletion of pools.
use libvirt_operator.Prelude.{String, List, [], none, true, ◌≡◌, refl}
use libvirt_operator.Outcome.{Outcome, ok, err, not_found}
use libvirt_operator.Api.{Resource, pool_label}
use libvirt_operator.Api.Kinds.{Pool, HostedSpec}
use libvirt_operator.Controller.Base.{drop_finalizer}
use libvirt_operator.Controller.Probed.{Sources, release}
use libvirt_operator.Controller.Pool.{PoolUsers, reconcile_pool, delete_pool}
use libvirt_operator.Controller.Pool.Deletion.{pool_update_unused}
use libvirt_operator.Tests.Fixtures.{machine, kit, casts, accepting, at, meta_of}

abbrev sources : {O : Type 0} → O → Sources O
sources o = record {
  get = ok o;
  requirement = λ key value. ok tt;
  get_host = λ ref. err (not_found "no host");
  hosts = [];
}

abbrev hosted : {St : Type 0} → String → St → Resource HostedSpec St
hosted name status = record {
  meta = meta_of name true;
  spec = record { name = name; host_ref = "host" };
  conditions = [];
  status = status;
}

abbrev pool : Pool
pool = hosted "pool" none

abbrev nobody : String → String → Outcome (List String)
nobody key value = ok []

abbrev no_users : PoolUsers
no_users = record { volumes = nobody; cloud_inits = nobody }

pool_update_unused_example :
    (no_users.volumes pool_label "pool" ≡ ok []) × (no_users.cloud_inits pool_label "pool" ≡ ok [])
unfolding reconcile_pool delete_pool release drop_finalizer
pool_update_unused_example =
    pool_update_unused machine kit casts accepting (sources pool) no_users pool (at 0) refl
      (λ h. cc)
