-- ===== src/Cmd.antt =====
-- internal/cmd/root.go: the flags of the operator, and runOperator, which sets the operator up and starts
-- it. Each step that may fail ends the process with status 1.
pub mod Order
pub mod Start
use libvirt_operator.Prelude.{
  ℕ, String, Bool, true, false, List, [], ◌∷◌, ◌++◌, Option, none, some, if◌then◌else◌, str_eq,
}
use libvirt_operator.Outcome.{Error}

abbrev pub default_namespace_path : String
default_namespace_path = "/var/run/secrets/kubernetes.io/serviceaccount/namespace"

abbrev pub default_leader_election_id : String
default_leader_election_id = "lock.libvirt.karelvanhecke.com"

pub record Flags : Type 0 where
  pub verbose : ℕ
  pub log_format : String
  pub namespace : String
  pub leader_election : Bool
  pub leader_election_id : String
  pub metrics_address : String
  pub probe_address : String

-- What NewOperatorCmd gives the flags at first.
abbrev pub default_flags : Flags
default_flags = record {
  verbose = 0;
  log_format = "logfmt";
  namespace = "";
  leader_election = true;
  leader_election_id = default_leader_election_id;
  metrics_address = ":8080";
  probe_address = ":8081";
}

pub data LogHandler : Type 0 where
  text_handler json_handler : LogHandler

-- The logger; its level lies `verbosity` below zero.
pub record Logger : Type 0 where
  pub handler : LogHandler
  pub verbosity : ℕ

unfoldable pub logger_of : Flags → Logger
logger_of f = record {
  handler = if str_eq f.log_format "json" then json_handler else text_handler;
  verbosity = f.verbose;
}

-- manager.Options; the scheme is the one that the steps before it fill.
pub record ManagerOptions : Type 0 where
  pub default_namespace : String
  pub leader_election : Bool
  pub leader_election_id : String
  pub metrics_address : String
  pub probe_address : String

-- The reconcilers with their stores, which stand by handles.
pub data Reconciler : Type 0 where
  auth_reconciler : ℕ → Reconciler
  host_reconciler : ℕ → ℕ → Reconciler
  pool_reconciler network_reconciler pci_device_reconciler : ℕ → Reconciler
  volume_reconciler cloud_init_reconciler domain_reconciler : ℕ → Reconciler

pub data WebhookKind : Type 0 where
  volume_webhook cloud_init_webhook domain_webhook : WebhookKind

-- What may fail of the process's work.
pub data Step : Type 0 where
  get_config add_client_scheme add_operator_scheme : Step
  read_file : String → Step
  new_manager : ManagerOptions → Step
  add_healthz_check add_readyz_check : Step
  set_up_controller : Reconciler → Step
  set_up_webhook : WebhookKind → Step
  start : Logger → Step

-- The libraries and the system: whether a step fails after those before it, what stands in the file
-- of the namespace, and the handles of the two stores.
pub record Platform : Type 0 where
  pub failure : List Step → Step → Option Error
  pub namespace_file : String
  pub new_auth_store : ℕ
  pub new_host_store : ℕ

-- os.Exit(1) with the message that is logged and its error, or a return.
pub data Exit (A : Type 0) : Type 0 where
  returns : A → Exit A
  exits : String → Error → Exit A

abbrev pub Process : Type 0 → Type 0
Process A = List Step → Exit A × List Step

abbrev pub pure : {A : Type 0} → A → Process A
pure a log = (returns a, log)

infixl 5 ◌>>=◌ ◌>>◌
abbrev pub ◌>>=◌ : {A B : Type 0} → Process A → (A → Process B) → Process B
m >>= f = λ log.
    let (r, log') = m log in elim r [ returns a ↦ f a log' | exits text e ↦ (exits text e, log') ]

abbrev pub ◌>>◌ : {A B : Type 0} → Process A → Process B → Process B
m >> n = m >>= λ _. n

module _ (p : Platform) where
  -- A step whose failure is logged and ends the process.
  unfoldable pub or_exit : String → Step → Process (Unit {0})
  or_exit text s log =
      (elim (p.failure log s) [ none ↦ returns tt | some e ↦ exits text e ], log ++ s ∷ [])

  unfoldable pub set_up_scheme : Process (Unit {0})
  set_up_scheme =
      or_exit "failed to get kubeconfig" get_config
      >> (or_exit "failed to add scheme" add_client_scheme
          >> or_exit "failed to add scheme libvirt.karelvanhecke.com/v1alpha1" add_operator_scheme)

  -- The namespace of the flag, or the one in the file of the service account.
  unfoldable pub operator_namespace : Flags → Process String
  operator_namespace f =
      if str_eq f.namespace ""
      then or_exit "could not determine operator namespace" (read_file default_namespace_path)
        >> pure p.namespace_file
      else pure f.namespace

  unfoldable pub manager_options : Flags → String → ManagerOptions
  manager_options f namespace = record {
    default_namespace = namespace;
    leader_election = f.leader_election;
    leader_election_id = f.leader_election_id;
    metrics_address = f.metrics_address;
    probe_address = f.probe_address;
  }

  unfoldable pub set_up_manager : Flags → String → Process (Unit {0})
  set_up_manager f namespace =
      or_exit "failed to create manager" (new_manager (manager_options f namespace))
      >> (or_exit "failed to setup healthz check" add_healthz_check
          >> or_exit "failed to setup readyz check" add_readyz_check)

  unfoldable pub set_up_controllers : Process (Unit {0})
  set_up_controllers =
      let auths = p.new_auth_store in
      let hosts = p.new_host_store in
      or_exit "failed to setup auth controller with manager"
        (set_up_controller (auth_reconciler auths))
      >> (or_exit "failed to setup host controller with manager"
            (set_up_controller (host_reconciler auths hosts))
          >> (or_exit "failed to setup pool controller with manager"
                (set_up_controller (pool_reconciler hosts))
              >> (or_exit "failed to setup network controller with manager"
                    (set_up_controller (network_reconciler hosts))
                  >> (or_exit "failed to setup pci device controller with manager"
                        (set_up_controller (pci_device_reconciler hosts))
                      >> (or_exit "failed to setup volume controller with manager"
                            (set_up_controller (volume_reconciler hosts))
                          >> (or_exit "failed to setup cloud-init controller with manager"
                                (set_up_controller (cloud_init_reconciler hosts))
                              >> or_exit "failed to setup domain controller with manager"
                                  (set_up_controller (domain_reconciler hosts))))))))

  unfoldable pub set_up_webhooks : Process (Unit {0})
  set_up_webhooks =
      or_exit "failed to setup volume webhook with manager" (set_up_webhook volume_webhook)
      >> (or_exit "failed to setup cloud-init webhook with manager"
            (set_up_webhook cloud_init_webhook)
          >> or_exit "failed to setup domain webhook with manager" (set_up_webhook domain_webhook))

  unfoldable pub run_operator : Flags → Process (Unit {0})
  run_operator f =
      set_up_scheme
      >> (operator_namespace f >>= λ namespace.
          set_up_manager f namespace
          >> (set_up_controllers
              >> (set_up_webhooks >> or_exit "failed to start manager" (start (logger_of f)))))
