-- ===== src/Controller/Domain/Creation.antt =====
-- What a run has checked when it asks the host to define a new domain.
pub mod Steps
pub mod Attach
use libvirt_operator.Prelude.{
  ℕ, String, Bool, true, false, Option, none, some, ◌≡◌, ◌≢◌, refl, arith, All, Bool-cases, inl,
  inr, str_eq, eq_iff, ◌∙◌, sym, ap,
}
use libvirt_operator.Outcome
use libvirt_operator.Outcome.{Outcome, ok}
use libvirt_operator.Host.{Client}
use libvirt_operator.Host.Monad.{World, lift, lift_cases, bind_cases, ◌>>=◌}
use libvirt_operator.Api.{ready}
use libvirt_operator.Api.Kinds.{Host}
use libvirt_operator.Api.CloudInit.{CloudInit}
use libvirt_operator.Api.Domain.{Domain, domain_cloud_init_ref}
use libvirt_operator.Action.Domain.State.{DomainAction}
use libvirt_operator.Controller.Base.{Machinery, Casts, Server, Result, host_calls}
use libvirt_operator.Controller.Domain.{
  Env, Progress, waiting, going, continue, attach_volumes, attach_networks, attach_devices,
  attach_image, attach_cloud_init, configure, configured,
}
use libvirt_operator.Controller.Domain.Reconcile.{sized, fill, define, create_stage}
use libvirt_operator.Controller.Domain.Creation.Steps.{
  Passed, wait_for-Passed, labelled-Passed, chain-Passed,
}
use libvirt_operator.Controller.Domain.Creation.Attach.{
  VolumeUsable, NetworkUsable, DeviceUsable, attach_volumes-Passed, attach_networks-Passed,
  attach_devices-Passed,
}

module _ {S : Type 0} (c : Client S) (k : Machinery) (casts : Casts) (v : Server Domain) (env : Env)
    (rounds : ℕ) where
  -- The cloud-init of a domain, if it has one, is there, is ready and is on the host.
  abbrev pub ImageUsable : String → String → Option (Option String) → Type 0
  ImageUsable namespace host none = Unit
  ImageUsable namespace host (some none) = ⊥
  ImageUsable namespace host (some (some name)) =
      (ci : CloudInit) × (env.get_cloud_init (record { name = name; namespace = namespace })
        ≡ ok ci)
      × (k.is_status_condition_true ci.conditions ready ≡ true)
      × (ci.status.host ≡ host)

  attach_image-Passed :
      (Known : Type 0) (d : Domain) (a : DomainAction) (ci : CloudInit) (w : World S Domain)
      → (k.is_status_condition_true ci.conditions ready ≡ true
          → ci.status.host ≡ d.spec.host_ref
          → Known)
      → Passed c k casts v env rounds d Known w (attach_image c k casts v env rounds d a ci w)
  unfolding attach_image
  attach_image-Passed Known d a ci w known =
      elim (Bool-cases (k.is_status_condition_true ci.conditions ready)) [
        | inr unready ↦ rw (unready, attach_image) (wait_for-Passed c k casts v env rounds _ _ d w)
        | inl is_ready ↦ elim (Bool-cases (str_eq ci.status.host d.spec.host_ref)) [
          | inr other ↦ rw (is_ready, other, attach_image) (refl, λ d' a' h. cc)
          | inl same ↦
              rw (is_ready, same, attach_image)
                (labelled-Passed c k casts v env rounds Known
                  (known is_ready ((eq_iff ci.status.host d.spec.host_ref).0 same)) _ _ _ d w)
        ]
      ]

  attach_cloud_init-Passed :
      (namespace host : String) (ref : Option (Option String)) (d : Domain) (a : DomainAction)
      (w : World S Domain)
      → d.meta.namespace ≡ namespace
      → d.spec.host_ref ≡ host
      → Passed c k casts v env rounds d
          (ImageUsable namespace host ref)
          w
          (attach_cloud_init c k casts v env rounds ref d a w)
  unfolding attach_cloud_init domain_cloud_init_ref
  attach_cloud_init-Passed namespace host none d a w here there = (refl, λ d' a' h. (cc, cc, tt))
  attach_cloud_init-Passed namespace host (some none) d a w here there = (refl, λ d' a' h. cc)
  attach_cloud_init-Passed namespace host (some (some name)) d a w here there =
      lift_cases (Passed c k casts v env rounds d (ImageUsable namespace host (some (some name))) w)
        (env.get_cloud_init (record { name = name; namespace = d.meta.namespace }))
        (attach_image c k casts v env rounds d a) w
        (λ stop no. (refl, λ d' a' h. absurd (no (going d' a') h)))
        (λ ci got.
          attach_image-Passed (ImageUsable namespace host (some (some name))) d a ci w
            (λ is_ready same. (ci, cc, is_ready, same ∙ there)))

  configured-Passed :
      (d : Domain) (a : DomainAction) (w : World S Domain)
      → Passed c k casts v env rounds d Unit w (configured c k casts v env rounds d a w)
  unfolding configured
  configured-Passed d a w = (ground arith, λ d' a' h. (ground arith, ground arith, tt))

  -- Every object that the spec of a domain names is there, is ready and is on the domain's host.
  pub record IsUsable (d : Domain) : Type 0 where
    pub volumes :
        All (VolumeUsable c k casts v env rounds d.meta.namespace d.spec.host_ref) d.spec.disks
    pub networks :
        All
          (NetworkUsable c k casts v env rounds d.meta.namespace d.spec.host_ref)
          d.spec.interfaces
    pub devices :
        All
          (DeviceUsable c k casts v env rounds d.meta.namespace d.spec.host_ref)
          d.spec.pci_passthrough
    pub image : ImageUsable d.meta.namespace d.spec.host_ref d.spec.cloud_init

  abbrev Volumes : Domain → Type 0
  Volumes d =
      All (VolumeUsable c k casts v env rounds d.meta.namespace d.spec.host_ref) d.spec.disks

  abbrev Networks : Domain → Type 0
  Networks d =
      All (NetworkUsable c k casts v env rounds d.meta.namespace d.spec.host_ref) d.spec.interfaces

  abbrev Devices : Domain → Type 0
  Devices d =
      All (DeviceUsable c k casts v env rounds d.meta.namespace d.spec.host_ref)
        d.spec.pci_passthrough

  fill-Passed :
      (d : Domain) (a : DomainAction) (w : World S Domain)
      → Passed c k casts v env rounds d
          ((((Volumes d × Networks d) × Devices d) × Unit {0})
            × ImageUsable d.meta.namespace d.spec.host_ref d.spec.cloud_init)
          w
          (fill c k casts v env rounds d a w)
  unfolding fill
  fill-Passed d a w =
      let m1 = attach_volumes c k casts v env rounds d.spec.disks d a in
      let n1 = attach_networks c k casts v env rounds d.spec.interfaces in
      let m2 = m1 >>= continue c k casts v env rounds n1 in
      let n2 = attach_devices c k casts v env rounds d.spec.pci_passthrough in
      let m3 = m2 >>= continue c k casts v env rounds n2 in
      let n3 = configured c k casts v env rounds in
      let m4 = m3 >>= continue c k casts v env rounds n3 in
      let n4 = attach_cloud_init c k casts v env rounds d.spec.cloud_init in
      let p1 = attach_volumes-Passed c k casts v env rounds _ _ d.spec.disks d a w refl refl in
      let p2 =
        chain-Passed c k casts v env rounds (Volumes d) (Networks d) m1 n1 d w p1
          (λ d' a' w' spec ns.
            attach_networks-Passed c k casts v env rounds d.meta.namespace d.spec.host_ref
              d.spec.interfaces d' a' w' ns (ap (λ t. t.host_ref) spec)) in
      let p3 =
        chain-Passed c k casts v env rounds (Volumes d × Networks d) (Devices d) m2 n2 d w p2
          (λ d' a' w' spec ns.
            attach_devices-Passed c k casts v env rounds d.meta.namespace d.spec.host_ref
              d.spec.pci_passthrough d' a' w' ns (ap (λ t. t.host_ref) spec)) in
      let p4 =
        chain-Passed c k casts v env rounds ((Volumes d × Networks d) × Devices d) Unit m3 n3 d w p3
          (λ d' a' w' spec ns. configured-Passed d' a' w') in
      chain-Passed c k casts v env rounds (((Volumes d × Networks d) × Devices d) × Unit {0})
        (ImageUsable d.meta.namespace d.spec.host_ref d.spec.cloud_init) m4 n4 d w p4
        (λ d' a' w' spec ns.
          attach_cloud_init-Passed d.meta.namespace d.spec.host_ref d.spec.cloud_init d' a' w' ns
            (ap (λ t. t.host_ref) spec))

  define_calls :
      (host : Host) (d : Domain) (p : Progress) (w : World S Domain)
      → host_calls (define c k casts v env rounds host p w).1.log ≢ host_calls w.log
      → (d' : Domain) × (a' : DomainAction) × (p ≡ going d' a')
  unfolding define
  define_calls host d waiting w changed = absurd (changed refl)
  define_calls host d (going d' a') w changed = (d', a', refl)

  -- A run that is to create a domain calls the host, to define or start it, only if every volume,
  -- network, PCI device and cloud-init that its spec names was found, is ready and is on the host that
  -- the spec names.
  pub create_stage-IsUsable :
      (host : Host) (d : Domain) (a : DomainAction) (w : World S Domain)
      → host_calls (create_stage c k casts v env rounds host d a w).1.log ≢ host_calls w.log
      → IsUsable d
  unfolding create_stage
  create_stage-IsUsable host d a w =
      lift_cases (λ p. host_calls p.1.log ≢ host_calls w.log → IsUsable d)
        (sized c k casts v env rounds d a)
        (λ b. fill c k casts v env rounds d b >>= define c k casts v env rounds host) w
        (λ stop no changed. absurd (changed refl))
        (λ b _.
          bind_cases (λ p. host_calls p.1.log ≢ host_calls w.log → IsUsable d)
            (fill c k casts v env rounds d b) (define c k casts v env rounds host) w
            (λ stop no changed. absurd (changed (fill-Passed d b w).0))
            (λ p e changed.
              let (same, known) = fill-Passed d b w in
              let (d', a', going_on) =
                define_calls host d p (fill c k casts v env rounds d b w).1
                  (λ h. changed (h ∙ same)) in
              let (_, _, usable) = known d' a' (e ∙ ap ok going_on) in
              record {
                volumes = usable.0.0.0.0;
                networks = usable.0.0.0.1;
                devices = usable.0.0.1;
                image = usable.1;
              }))
