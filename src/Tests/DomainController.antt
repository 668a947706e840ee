-- ===== src/Tests/DomainController.antt =====
-- The theorems of Controller/Domain at the host of Fixtures.
use libvirt_operator.Prelude.{
  ℕ, String, List, [], ◌∷◌, ◌++◌, Option, none, some, true, false, ◌≡◌, ◌≢◌, ◌⊎◌, refl, arith,
}
use libvirt_operator.Outcome.{ok, err, api, not_found}
use libvirt_operator.Libvirt.{DomainId, DomainOs, DomainDeviceList, shutoff}
use libvirt_operator.Host.{Client, domain_undefine, domain_shutdown}
use libvirt_operator.Host.Monad.{host_call, update}
use libvirt_operator.Api.Kinds.{Host, Volume}
use libvirt_operator.Api.Domain.{Domain}
use libvirt_operator.Action.Domain.State.{DomainAction, default_def}
use libvirt_operator.Action.Domain.Shutdown.{shutdown}
use libvirt_operator.Controller.Base.{Machinery, done}
use libvirt_operator.Api.{finalizer}
use libvirt_operator.Controller.Probed.Release.{released}
use libvirt_operator.Controller.Domain.{Env, configure}
use libvirt_operator.Controller.Domain.Boot.{secure_boot_ignored}
use libvirt_operator.Api.Validation.{secure_boot_rule}
use libvirt_operator.Controller.Domain.Reconcile.{act, create_stage}
use libvirt_operator.Controller.Domain.Creation.{IsUsable, create_stage-IsUsable}
use libvirt_operator.Controller.Domain.Deletion.{
  Undefined, act_update-Undefined, act_keeps_running, act_releases,
}
use libvirt_operator.Tests.Domain.{running_before_two}
use libvirt_operator.Tests.Fixtures.{
  cons_not_nil, machine, kit, casts, accepting, at, meta_of, domain_action, vm,
}

abbrev the_host : Host
the_host = record {
  meta = meta_of "host" false;
  spec = record { address = "host"; auth_ref = "auth"; port = none };
  conditions = [];
  status = none;
}

abbrev the_volume : Volume
the_volume = record {
  meta = meta_of "base" false;
  spec = record {
    name = "base";
    generate_name = "";
    format = "qcow2";
    size = none;
    pool_ref = "pool";
    source = none;
    backing_store_ref = none;
  };
  conditions = [];
  status = record { pool = "pool"; host = "host" };
}

abbrev the_domain : Domain
the_domain = record {
  meta = meta_of "vm" true;
  spec = record {
    name = "vm";
    generate_name = "";
    host_ref = "host";
    vcpu_value = 2;
    vcpu_placement = none;
    cpu = none;
    memory_unit = "GiB";
    memory_value = 4;
    scsi_queues = none;
    disks = record { volume_ref = "base"; wwn = none } ∷ [];
    interfaces = [];
    cloud_init = none;
    numatune_mode = none;
    pci_passthrough = [];
    uefi = none;
    secure_boot = none;
    shutoff = some true;
  };
  conditions = [];
  status = tt;
}

abbrev env : Env
env = record {
  get = ok the_domain;
  get_host = λ ref. ok the_host;
  get_volume = λ ref. ok the_volume;
  get_network = λ ref. err (not_found "no network");
  get_pci_device = λ ref. err (not_found "no device");
  get_cloud_init = λ ref. err (not_found "no cloud-init");
  hosts = [];
}

-- Every condition is true.
abbrev ready_kit : Machinery
ready_kit = record kit { is_status_condition_true = λ cs t. true }

abbrev new_action : DomainAction
new_action =
    let a = domain_action [] in
    let d = a.def in
    record a {
      id = none;
      def = record d {
        vcpu = some (record { value = 0; placement = "" });
        memory = some (record { value = 0; unit = "" });
      };
    }

abbrev off_action : DomainAction
off_action = record (domain_action []) { state = shutoff }

-- The host refuses to shut a domain down.
abbrev refusing : Client ℕ
refusing = record machine { domain_shutdown = λ id s. (err (api "refused"), s) }

create_stage-IsUsable_example : IsUsable machine ready_kit casts accepting env 3 the_domain
unfolding create_stage libvirt_operator.Controller.Domain.Reconcile.sized
    libvirt_operator.Action.Domain.Setup.set_vcpu libvirt_operator.Action.Domain.Setup.set_memory
    libvirt_operator.Controller.Domain.Reconcile.fill
    libvirt_operator.Controller.Domain.attach_volumes
    libvirt_operator.Controller.Domain.attach_volume libvirt_operator.Action.Domain.Disk.add_disk
    libvirt_operator.Action.Domain.TargetDev.get_next_available_target_dev
    libvirt_operator.Action.Domain.TargetDev.target_taken
    libvirt_operator.Action.Domain.Disk.locate_volume
    libvirt_operator.Action.Domain.Disk.get_volume_source_description
    libvirt_operator.Action.Domain.Disk.place_disk libvirt_operator.Action.Domain.Disk.attach_disk
    libvirt_operator.Action.Domain.Disk.path_disk
    libvirt_operator.Action.Domain.Disk.set_domain_disk_source
    libvirt_operator.Action.Domain.Disk.backing_chain libvirt_operator.Controller.Domain.go_labelled
    libvirt_operator.Controller.Base.ensure_label libvirt_operator.Controller.Base.write_object
    libvirt_operator.Controller.Base.set_status_condition
    libvirt_operator.Controller.Base.write_status
    libvirt_operator.Controller.Domain.Reconcile.after_define
    libvirt_operator.Controller.Domain.Reconcile.define
    libvirt_operator.Controller.Domain.attach_cloud_init
    libvirt_operator.Controller.Domain.attach_devices
    libvirt_operator.Controller.Domain.attach_networks libvirt_operator.Controller.Domain.configure
    libvirt_operator.Controller.Domain.configured libvirt_operator.Controller.Domain.continue
    libvirt_operator.Util.Labels.set_label libvirt_operator.Prelude.lookup
    libvirt_operator.Prelude.insert libvirt_operator.Action.Domain.State.create
create_stage-IsUsable_example =
    create_stage-IsUsable machine ready_kit casts accepting env 3 the_host the_domain new_action
      (at 0) (cons_not_nil _ _)

act_update-Undefined_example :
    (off_action.id ≡ none)
    ⊎ ((id : DomainId) × (off_action.id ≡ some id)
        × Undefined machine kit casts accepting env 3 off_action id (at 0))
unfolding act libvirt_operator.Controller.Domain.Reconcile.delete_stage
    libvirt_operator.Controller.Domain.Reconcile.undefine libvirt_operator.Action.Domain.State.state
    libvirt_operator.Action.Domain.State.delete libvirt_operator.Controller.Base.drop_finalizer
act_update-Undefined_example =
    act_update-Undefined machine kit casts accepting env 3 the_host the_domain off_action (at 0)
      refl (cons_not_nil _ _)

act_keeps_running_example :
    ((act refusing kit casts accepting env 3 the_host the_domain (domain_action []) (at 0)).1
      ≡ (shutdown refusing (domain_action []) (at 0)).1)
    × ((r : _)
        → (act refusing kit casts accepting env 3 the_host the_domain (domain_action []) (at 0)).0
          ≢ ok r)
unfolding shutdown
act_keeps_running_example =
    act_keeps_running refusing kit casts accepting env 3 the_host the_domain (domain_action []) vm
      (at 0) refl refl refl refl (λ h. cc)

act_releases_example :
    let run = act machine kit casts accepting env 3 the_host the_domain (domain_action []) (at 0) in
    (run.0 ≡ ok done)
    × ((d' : Domain) × (d' ≡ released kit the_domain)
        × (kit.contains_finalizer d'.meta.finalizers finalizer ≡ false)
        × (run.1.log
            ≡ (([] ++ host_call (domain_shutdown vm) ∷ []) ++ host_call (domain_undefine vm) ∷ [])
              ++ update d' ∷ []))
unfolding libvirt_operator.Action.Domain.Shutdown.after_sleeps
act_releases_example =
    act_releases machine kit casts accepting env 3 the_host the_domain (domain_action []) vm 2 0
      (at 0) refl refl refl refl refl refl (omega arith) running_before_two (shutoff, refl, refl)
      refl (λ log. refl)

-- A domain that asks for secure boot, and the action for its definition.
abbrev secure_domain : Domain
secure_domain =
    let spec = the_domain.spec in
    record the_domain { spec = record spec { secure_boot = some true } }

abbrev fresh_action : DomainAction
fresh_action = record (domain_action []) { id = none; def = default_def "vm" }

abbrev default_os : DomainOs
default_os = record {
  type_ = "hvm";
  machine = "q35";
  boot_devices = "hd" ∷ [];
  firmware = "";
  loader_secure = none;
}

abbrev default_devices : DomainDeviceList
default_devices = record {
  controllers = record { type_ = "scsi"; model = "virtio-scsi"; queues = none } ∷ [];
  disks = [];
  interfaces = [];
  hostdevs = [];
  rngs = "/dev/urandom" ∷ [];
  consoles = "virtio" ∷ [];
  channels = "org.qemu.guest_agent.0" ∷ [];
  serials = 1;
}

secure_boot_ignored_example :
    (secure_boot_rule secure_domain.spec ≡ true)
    × ((b : DomainAction) × (configure casts secure_domain fresh_action ≡ ok b)
        × (b.def.os ≡ some default_os))
unfolding default_def
secure_boot_ignored_example =
    secure_boot_ignored casts secure_domain fresh_action default_os
      (record { value = 0; placement = "" }) default_devices refl refl refl refl refl
