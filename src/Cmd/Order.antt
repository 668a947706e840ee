-- ===== src/Cmd/Order.antt =====
-- The order of the operator's set-up: runOperator carries out a list of steps up to the first that fails.
use libvirt_operator.Prelude.{
  String, List, [], ◌∷◌, ◌++◌, map, ◌≡◌, refl, ap, ◌∙◌, arith, if◌then◌else◌, str_eq, sym,
}
use mathlib.Core.List.{append_assoc}
use libvirt_operator.Cmd.{
  Flags, Platform, Step, Process, pure, ◌>>=◌, ◌>>◌, or_exit, set_up_scheme, operator_namespace,
  set_up_manager, manager_options, set_up_controllers, set_up_webhooks, run_operator, logger_of,
  default_namespace_path, get_config, add_client_scheme, add_operator_scheme, read_file,
  new_manager, add_healthz_check, add_readyz_check, set_up_controller, set_up_webhook, start,
  auth_reconciler, host_reconciler, pool_reconciler, network_reconciler, pci_device_reconciler,
  volume_reconciler, cloud_init_reconciler, domain_reconciler, volume_webhook, cloud_init_webhook,
  domain_webhook,
}

-- Steps with the messages that are logged when they fail.
abbrev pub Plan : Type 0
Plan = List (String × Step)

abbrev scheme_plan : Plan
scheme_plan =
    ("failed to get kubeconfig", get_config)
    ∷ ("failed to add scheme", add_client_scheme)
    ∷ ("failed to add scheme libvirt.karelvanhecke.com/v1alpha1", add_operator_scheme)
    ∷ []

abbrev namespace_plan : Flags → Plan
namespace_plan f =
    if str_eq f.namespace ""
    then ("could not determine operator namespace", read_file default_namespace_path) ∷ []
    else []

abbrev manager_plan : Platform → Flags → String → Plan
manager_plan p f namespace =
    ("failed to create manager", new_manager (manager_options p f namespace))
    ∷ ("failed to setup healthz check", add_healthz_check)
    ∷ ("failed to setup readyz check", add_readyz_check)
    ∷ []

-- All controllers work on one store of hosts, and the two that need it on one store of auths.
abbrev controller_plan : Platform → Plan
controller_plan p =
    let auths = p.new_auth_store in
    let hosts = p.new_host_store in
    ("failed to setup auth controller with manager", set_up_controller (auth_reconciler auths))
    ∷ (
      "failed to setup host controller with manager",
      set_up_controller (host_reconciler auths hosts),
    )
    ∷ ("failed to setup pool controller with manager", set_up_controller (pool_reconciler hosts))
    ∷ (
      "failed to setup network controller with manager",
      set_up_controller (network_reconciler hosts),
    )
    ∷ (
      "failed to setup pci device controller with manager",
      set_up_controller (pci_device_reconciler hosts),
    )
    ∷ (
      "failed to setup volume controller with manager",
      set_up_controller (volume_reconciler hosts),
    )
    ∷ (
      "failed to setup cloud-init controller with manager",
      set_up_controller (cloud_init_reconciler hosts),
    )
    ∷ (
      "failed to setup domain controller with manager",
      set_up_controller (domain_reconciler hosts),
    )
    ∷ []

abbrev webhook_plan : Plan
webhook_plan =
    ("failed to setup volume webhook with manager", set_up_webhook volume_webhook)
    ∷ ("failed to setup cloud-init webhook with manager", set_up_webhook cloud_init_webhook)
    ∷ ("failed to setup domain webhook with manager", set_up_webhook domain_webhook)
    ∷ []

abbrev namespace_of : Platform → Flags → String
namespace_of p f = if str_eq f.namespace "" then p.namespace_file else f.namespace

-- All that has to succeed before the manager is started.
abbrev pub set_up_plan : Platform → Flags → Plan
set_up_plan p f =
    scheme_plan
    ++ (namespace_plan f
        ++ (manager_plan p f (namespace_of p f) ++ (controller_plan p ++ webhook_plan)))

abbrev pub steps : Plan → List Step
steps = map (λ s. s.1)

module _ (p : Platform) where
  -- A plan that is carried out up to its first failure.
  unfoldable pub carry_out : Plan → Process (Unit {0})
  carry_out [] = pure tt
  carry_out ((text, s) ∷ plan) = or_exit p text s >> carry_out plan

  pub carry_out-last :
      (text : String) (s : Step) (log : List Step)
      → carry_out ((text, s) ∷ []) log ≡ or_exit p text s log
  unfolding carry_out or_exit
  carry_out-last text s log = ground arith

  carry_out-append :
      (xs ys : Plan) (log : List Step)
      → carry_out (xs ++ ys) log ≡ (carry_out xs >> carry_out ys) log
  unfolding carry_out or_exit
  carry_out-append [] ys log = refl
  carry_out-append ((text, s) ∷ xs) ys log = ground (arith, carry_out-append xs ys (log ++ s ∷ []))

  set_up_scheme-carry_out : (log : List Step) → set_up_scheme p log ≡ carry_out scheme_plan log
  unfolding set_up_scheme carry_out or_exit
  set_up_scheme-carry_out log = ground arith

  set_up_webhooks-carry_out : (log : List Step) → set_up_webhooks p log ≡ carry_out webhook_plan log
  unfolding set_up_webhooks carry_out or_exit
  set_up_webhooks-carry_out log = ground arith

  set_up_controllers-carry_out :
      (log : List Step) → set_up_controllers p log ≡ carry_out (controller_plan p) log
  unfolding set_up_controllers carry_out or_exit
  set_up_controllers-carry_out log = ground arith

  set_up_manager-carry_out :
      (f : Flags) (namespace : String) (log : List Step)
      → set_up_manager p f namespace log ≡ carry_out (manager_plan p f namespace) log
  unfolding set_up_manager carry_out or_exit
  set_up_manager-carry_out f namespace log = ground arith

  -- The set-up behind the namespace.
  abbrev pub rest_plan : Flags → Plan
  rest_plan f = ("failed to start manager", start (logger_of f)) ∷ []

  -- Two parts that follow their plans follow the plans together.
  both :
      (m n : Process (Unit {0})) (xs ys : Plan)
      → ((log : List Step) → m log ≡ carry_out xs log)
      → ((log : List Step) → n log ≡ carry_out ys log)
      → (log : List Step) → (m >> n) log ≡ carry_out (xs ++ ys) log
  both m n xs ys follows-m follows-n log =
      ground (arith, follows-m log, follows-n (carry_out xs log).1, carry_out-append xs ys log)

  -- The part behind the namespace, for the namespace that counts.
  abbrev after_namespace : Flags → String → Process (Unit {0})
  after_namespace f namespace =
      set_up_manager p f namespace
      >> (set_up_controllers p
          >> (set_up_webhooks p >> or_exit p "failed to start manager" (start (logger_of f))))

  after_namespace-carry_out :
      (f : Flags) (namespace : String) (log : List Step)
      → after_namespace f namespace log
        ≡ carry_out
            (manager_plan p f namespace ++ (controller_plan p ++ (webhook_plan ++ rest_plan f)))
            log
  after_namespace-carry_out f namespace = both _ _ _ _ (set_up_manager-carry_out f namespace) (
      both _ _ _ _ set_up_controllers-carry_out (
        both _ _ _ _ set_up_webhooks-carry_out
          (λ l. sym (carry_out-last "failed to start manager" (start (logger_of f)) l))))

  namespaced-carry_out :
      (after : String → Process (Unit {0})) (plan : String → Plan)
      → ((namespace : String) (log : List Step)
          → after namespace log ≡ carry_out (plan namespace) log)
      → (f : Flags) (log : List Step)
      → (operator_namespace p f >>= after) log
        ≡ carry_out (namespace_plan f ++ plan (namespace_of p f)) log
  unfolding operator_namespace or_exit carry_out
  namespaced-carry_out after plan follows f log = ground (
    arith,
    follows p.namespace_file (log ++ read_file default_namespace_path ∷ []),
    follows f.namespace log,
  )

  pub run_operator-carry_out :
      (f : Flags) (log : List Step)
      → run_operator p f log ≡ carry_out (set_up_plan p f ++ rest_plan f) log
  unfolding run_operator
  run_operator-carry_out f log =
      let behind = manager_plan p f (namespace_of p f) ++ (controller_plan p ++ webhook_plan) in
      both (set_up_scheme p) (operator_namespace p f >>= after_namespace f) scheme_plan
        (namespace_plan f ++ (behind ++ rest_plan f)) set_up_scheme-carry_out
        (namespaced-carry_out (after_namespace f)
          (λ namespace.
            manager_plan p f namespace ++ (controller_plan p ++ (webhook_plan ++ rest_plan f)))
          (after_namespace-carry_out f) f)
        log
      ∙ sym (
          ap (λ plan. carry_out (scheme_plan ++ plan) log)
            (append_assoc (namespace_plan f) behind (rest_plan f)))
