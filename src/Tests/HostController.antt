-- ===== src/Tests/HostController.antt =====
-- The theorems of Controller/Host at one host and its auth.
use libvirt_operator.Prelude.{
  ℕ, String, Bool, true, false, List, [], ◌∷◌, ◌++◌, none, some, ◌≡◌, ◌≢◌, refl, inl, inr, arith,
  eq_iff,
}
use Prim.Native.String.{◌++◌ as str_append}
use libvirt_operator.Outcome.{Returns, ok, err, api}
use libvirt_operator.Host.Monad.{World}
use libvirt_operator.Api.{Condition, probed, status_true, host_label}
use libvirt_operator.Api.Kinds.{Auth, Host, Secret, ssh_auth, ssh_secret}
use libvirt_operator.Store.Auth.{AuthEntry}
use libvirt_operator.Store.Host.{HostEntry, HostStore, lookup_entry}
use libvirt_operator.Controller.Base.{Server, done, requeue_after, updates, status_updates}
use libvirt_operator.Controller.Host.{Env, HostState, capacity, reconcile_host}
use libvirt_operator.Controller.Dialer.{Text, Dialer, ssh, dialer_of}
use libvirt_operator.Controller.Host.Unlabelled.{reconcile_host_unlabelled}
use libvirt_operator.Controller.Host.Report.{reconcile_host-reports}
use libvirt_operator.Tests.Reports.{finding_kit, finding_kit-SetsConditions, accepting-Accepts}
use libvirt_operator.Probe.{HostProbe}
use libvirt_operator.Controller.Host.Kept.{reconcile_host_kept}
use libvirt_operator.Controller.Auth.{auth_files, reconcile_auth}
use libvirt_operator.Controller.Auth.Validated.{auth_files-Returns}
use libvirt_operator.Controller.Host.Credentials.{reconcile_host-reconcile_auth}
use libvirt_operator.Tests.AuthController.{auth, secret, env as auth_env}
use libvirt_operator.Controller.Dialer.Port.{read_port, dialer_port, dialer_of-misread}
use libvirt_operator.Controller.Host.Unused.{reconcile_host_unused}
use libvirt_operator.Controller.Host.Registered.{HasGeneration}
use libvirt_operator.Tests.Fixtures.{
  held_kit, disk, auth_world, cons_not_nil, machine, kit, casts, accepting, meta_of, known_auth,
  ssh_root,
}

abbrev the_auth : Auth
the_auth = record {
  meta = meta_of "auth" false;
  spec = record {
    type_ = ssh_auth;
    secret_ref = "secret";
    verify = none;
    ca = none;
    known_hosts = some "host";
    username = some "root";
  };
  conditions = [];
  status = tt;
}

abbrev the_host : Bool → Host
the_host deleting = record {
  meta = meta_of "host" deleting;
  spec = record { address = "host"; auth_ref = "auth"; port = some 2222 };
  conditions = [];
  status = none;
}

abbrev env : Env
env = record {
  get = ok (the_host false);
  get_auth = λ ref. ok the_auth;
  requirement = λ key value. ok tt;
  pools = λ key value. ok [];
  networks = λ key value. ok [];
  pci_devices = λ key value. ok [];
  domains = λ key value. ok [];
  auths = ("auth", known_auth) ∷ [];
  join = λ a b. str_append a (str_append "/" b);
  connects = λ dialer. true;
}

-- The entry of the host, of a generation.
abbrev with_entry : ℕ → World (HostState ℕ) Host
with_entry generation = record {
  host = record {
    hosts =
        (
          "host",
          record { generation = generation; client = ssh_root; connected = true; sessions = [] },
        )
        ∷ [];
    machine = 0;
  };
  log = [];
}

abbrev the_dialer : Dialer
the_dialer = ssh "host" (record {
  key_file = "/tmp/auth/privatekey";
  username = "root";
  accept_unknown = false;
  known_hosts = some "/tmp/auth/known_hosts";
  port = some (2222 ∷ []);
})

dialer_of-misread_example :
    (text : Text) × (dialer_port the_dialer ≡ some text) × (read_port text ≢ some 2222)
unfolding dialer_of libvirt_operator.Controller.Dialer.port_option
    libvirt_operator.Controller.Dialer.port_text
dialer_of-misread_example =
    dialer_of-misread env.join (the_host false) the_auth known_auth 2222 the_dialer refl refl

reconcile_host_unused_example :
    (env.pools host_label "host" ≡ ok [])
    × (env.networks host_label "host" ≡ ok [])
    × (env.pci_devices host_label "host" ≡ ok [])
    × (env.domains host_label "host" ≡ ok [])
unfolding reconcile_host libvirt_operator.Controller.Host.delete_host
    libvirt_operator.Controller.Host.users libvirt_operator.Controller.Host.release_host
    libvirt_operator.Controller.Base.drop_finalizer
reconcile_host_unused_example =
    reconcile_host_unused machine kit casts accepting env (the_host true) (with_entry 2) refl
      (inl (cons_not_nil _ _))

-- The host after it was given another auth, for another user, whose entry is one generation younger.
abbrev other_auth : Auth
other_auth =
    let spec = the_auth.spec in
    record the_auth { meta = meta_of "other" false; spec = record spec { username = some "guest" } }

abbrev other_entry : AuthEntry
other_entry = record { path = "/tmp/other"; generation = 0 }

abbrev edited_host : Host
edited_host =
    let meta = (the_host false).meta in
    let spec = (the_host false).spec in
    record (the_host false) {
      meta = record meta { generation = 2 };
      spec = record spec { auth_ref = "other" };
    }

abbrev other_env : Env
other_env = record env {
  get_auth = λ ref. ok other_auth;
  auths = ("auth", known_auth) ∷ ("other", other_entry) ∷ [];
}

abbrev other_dialer : Dialer
other_dialer = ssh "host" (record {
  key_file = "/tmp/other/privatekey";
  username = "guest";
  accept_unknown = false;
  known_hosts = some "/tmp/other/known_hosts";
  port = some (2222 ∷ []);
})

-- A store with no host.
abbrev no_hosts : World (HostState ℕ) Host
no_hosts = record { host = record { hosts = []; machine = 0 }; log = [] }

reconcile_host_kept_example :
    let first = reconcile_host machine held_kit casts accepting env (the_host false) no_hosts in
    let later = reconcile_host machine kit casts accepting other_env edited_host first.1 in
    (kept : HostEntry) × (lookup_entry "host" later.1.host.hosts ≡ some kept)
    × (kept.client ≡ the_dialer)
    × (dialer_of other_env.join edited_host other_auth other_entry ≢ ok kept.client)
unfolding libvirt_operator.Store.Auth.lookup_auth libvirt_operator.Prelude.lookup lookup_entry
    dialer_of libvirt_operator.Controller.Dialer.port_option
    libvirt_operator.Controller.Dialer.port_text
reconcile_host_kept_example =
    reconcile_host_kept machine held_kit kit casts accepting accepting env other_env
      (the_host false) edited_host the_auth other_auth known_auth other_entry the_dialer
      other_dialer no_hosts refl refl refl refl refl refl refl refl refl refl refl
      (λ h. ground (arith, eq_iff "root" "guest", h)) refl

-- The store of auths as a run for the auth leaves it.
abbrev env_after : Env
env_after = record env {
  auths = (reconcile_auth disk kit accepting auth_env (auth false) auth_world).1.host.auths;
}

reconcile_host-reconcile_auth_example :
    HasGeneration machine kit casts accepting env_after "host" 4
      (reconcile_host machine kit casts accepting env_after
        (the_host false)
        (with_entry 1)).1.host.hosts
unfolding libvirt_operator.Store.Auth.lookup_auth libvirt_operator.Prelude.lookup reconcile_host
    libvirt_operator.Controller.Base.ensure_finalizer libvirt_operator.Controller.Base.write_object
    libvirt_operator.Controller.Host.live_host libvirt_operator.Controller.Host.with_auth
    libvirt_operator.Controller.Host.with_credentials libvirt_operator.Controller.Host.with_entry
    lookup_entry libvirt_operator.Controller.Host.connect dialer_of
    libvirt_operator.Controller.Host.register_dialer libvirt_operator.Controller.Base.ensure_label
    libvirt_operator.Util.Labels.set_label libvirt_operator.Controller.Host.probe_registered
    libvirt_operator.Controller.Host.probe libvirt_operator.Controller.Base.set_status_condition
    libvirt_operator.Controller.Base.write_status libvirt_operator.Controller.Host.after_required
    libvirt_operator.Controller.Host.probed_host libvirt_operator.Controller.Host.with_session
    libvirt_operator.Prelude.insert libvirt_operator.Probe.new_host_probe
    libvirt_operator.Store.Host.register libvirt_operator.Store.Host.session reconcile_auth
    libvirt_operator.Controller.Auth.live_auth libvirt_operator.Controller.Auth.with_secret
    libvirt_operator.Controller.Auth.is_current libvirt_operator.Controller.Auth.register_auth
    libvirt_operator.Controller.Auth.register_files_of libvirt_operator.Controller.Auth.label_auth
    libvirt_operator.Controller.Auth.auth_files libvirt_operator.Store.Auth.register
    libvirt_operator.Store.Auth.register_files libvirt_operator.Store.Auth.fill
    libvirt_operator.Store.Auth.write_files libvirt_operator.Store.Auth.link
    libvirt_operator.Store.Auth.replace libvirt_operator.Store.Auth.retire
reconcile_host-reconcile_auth_example =
    reconcile_host-reconcile_auth machine kit casts accepting env_after disk accepting auth_env
      (auth false) the_auth secret (the_host false) auth_world (with_entry 1) done
      (requeue_after 60) refl refl refl refl refl refl refl refl

-- A host that is not registered, and an API server that refuses every update.
abbrev unregistered : World (HostState ℕ) Host
unregistered = record { host = record { hosts = []; machine = 0 }; log = [] }

abbrev refusing : Server Host
refusing = record accepting { update_answer = λ log o. err (api "conflict") }

reconcile_host_unlabelled_example :
    ((reconcile_host machine held_kit casts refusing env (the_host false) unregistered).0
      ≡ err (api "conflict"))
    × (updates
          (reconcile_host machine held_kit casts accepting env
            (the_host false)
            (reconcile_host machine held_kit casts refusing env
              (the_host false)
              unregistered).1).1.log
        ≡ updates
            (reconcile_host machine held_kit casts refusing env
              (the_host false)
              unregistered).1.log)
unfolding libvirt_operator.Store.Auth.lookup_auth libvirt_operator.Prelude.lookup lookup_entry
    dialer_of libvirt_operator.Controller.Dialer.port_option
    libvirt_operator.Controller.Dialer.port_text libvirt_operator.Util.Labels.set_label
reconcile_host_unlabelled_example =
    reconcile_host_unlabelled machine held_kit held_kit casts refusing accepting env
      (the_host false) the_auth known_auth the_dialer (api "conflict") unregistered refl refl refl
      refl refl refl refl refl refl

-- What the machine tells.
abbrev told : HostProbe
told = record { arch = "x86_64"; cpus = 0; memory_total = 0; memory_free = 0; numa = false }

reconcile_host-reports_example :
    (o : Host) × (front : List Host) × ((reconcile_host machine finding_kit casts accepting env
        (the_host false)
        (with_entry 2)).0
      ≡ ok (requeue_after 60))
    × (status_updates
          (reconcile_host machine finding_kit casts accepting env
            (the_host false)
            (with_entry 2)).1.log
        ≡ front ++ o ∷ [])
    × (o.status
        ≡ some
            (record { arch = "x86_64"; cpus = 0; memory_total = 0; memory_free = 0; numa = false }))
    × ((found : Condition) × (finding_kit.find_status_condition o.conditions probed ≡ some found)
        × (found.status ≡ status_true))
unfolding libvirt_operator.Store.Auth.lookup_auth libvirt_operator.Prelude.lookup lookup_entry
    libvirt_operator.Controller.Base.fresh_for libvirt_operator.Store.Host.session
    libvirt_operator.Probe.new_host_probe libvirt_operator.Probe.add_stats
reconcile_host-reports_example =
    reconcile_host-reports machine finding_kit casts accepting env finding_kit-SetsConditions
      accepting-Accepts (the_host false) the_auth known_auth
      (record { generation = 2; client = ssh_root; connected = true; sessions = [] })
      (record { generation = 2; client = ssh_root; connected = true; sessions = 0 ∷ [] }) told
      (with_entry 2) refl refl refl refl refl refl refl refl refl

abbrev the_secret : Secret
the_secret = record {
  name = "secret";
  generation = 0;
  type_ = ssh_secret;
  data_ = ("ssh-privatekey", 1 ∷ []) ∷ [];
}

auth_files-Returns_example :
    Returns (auth_files the_auth the_secret)
    × Returns (dialer_of env.join (the_host false) the_auth known_auth)
unfolding libvirt_operator.Api.Validation.valid_auth libvirt_operator.Api.Validation.type_rule
    libvirt_operator.Api.Validation.ssh_rule libvirt_operator.Api.Validation.tls_rule
auth_files-Returns_example =
    auth_files-Returns env.join the_auth the_secret (the_host false) known_auth refl
