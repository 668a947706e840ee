-- ===== src/Tests/FakeHost.antt =====
-- The theorem of Host/Fake at a fake host with one empty pool.
use libvirt_operator.Prelude.{[], none, ◌≡◌, refl}
use libvirt_operator.Outcome.{ok, libvirt, err_no_storage_vol, err_no_domain}
use libvirt_operator.Libvirt.{pool_running, running, shutoff}
use libvirt_operator.Host.Monad.{World}
use libvirt_operator.Host.Fake.State.{
  Fake, FakePool, Codec, new_fake, with_pool, get_pool_by_name, get_volume_by_name,
  get_domain_by_name,
}
use libvirt_operator.Host.Fake.Connection.{fake_client}
use libvirt_operator.Host.Fake.RoundTrip.{create-new_volume_action, found_action}
use libvirt_operator.Action.Volume.State.{new_volume_action}
use libvirt_operator.Action
use libvirt_operator.Action.Domain.State.{DomainAction}
use libvirt_operator.Host.Fake.Domains.{domain_state}
use libvirt_operator.Host.Fake.Lifecycle.{defined, whole_life, whole_life_lem}
use libvirt_operator.Tests.Fixtures.{domain_action, volume_of, domain_with, volume_action}

-- A description is the name of what it describes.
abbrev names : Codec
names = record {
  marshal_caps = λ caps. ok "caps";
  unmarshal_caps = λ xml. ok (record { arch = none; numa = none });
  marshal_volume = λ v. ok v.def.name;
  unmarshal_volume = λ xml. ok (record { key = ""; def = volume_of xml });
  marshal_domain = λ def. ok def.name;
  unmarshal_domain = λ xml. ok (domain_with []);
  marshal_nodedev = λ n. ok n.name;
  unmarshal_nodedev = λ xml. ok none;
}

abbrev empty_pool : FakePool
empty_pool = record {
  name = "pool";
  state = pool_running;
  capacity = none;
  allocation = none;
  available = none;
  volumes = [];
}

abbrev one_pool : World Fake (Unit {0})
one_pool = record {
  host = with_pool empty_pool (new_fake (record { arch = none; numa = none }));
  log = [];
}

create-new_volume_action_example :
    ((Action.Volume.State.create (fake_client names) (volume_action "seed") one_pool).0 ≡ ok tt)
    × (new_volume_action
          (fake_client names)
          (Action.Volume.State.create (fake_client names) (volume_action "seed") one_pool).1.host
          "seed"
          "pool"
        ≡ ok (found_action names "pool" (volume_action "seed")))
unfolding with_pool new_fake get_pool_by_name get_volume_by_name
create-new_volume_action_example =
    create-new_volume_action names "pool" "seed" empty_pool
      (libvirt err_no_storage_vol "volume does not exist") (volume_action "seed") one_pool refl refl
      refl refl refl refl

abbrev the_domain : DomainAction
the_domain = record (domain_action []) { id = none }

whole_life_lem_example :
    ((Action.Domain.State.create (fake_client names) the_domain one_pool).0
      ≡ ok (defined the_domain))
    × (domain_state
          (record { name = "vm" })
          (Action.Domain.State.create (fake_client names) the_domain one_pool).1.host
        ≡ ok shutoff)
    × (domain_state
          (record { name = "vm" })
          (Action.Domain.State.start
            (fake_client names)
            (defined the_domain)
            (Action.Domain.State.create (fake_client names) the_domain one_pool).1).1.host
        ≡ ok running)
    × ((whole_life names the_domain one_pool).0 ≡ ok tt)
    × ((whole_life names the_domain one_pool).1.host ≡ one_pool.host)
unfolding new_fake with_pool get_domain_by_name
whole_life_lem_example =
    whole_life_lem names the_domain "vm" (libvirt err_no_domain "domain does not exist") one_pool
      refl refl refl
