-- ===== src/Controller/Domain/Creation/Attach.antt =====
-- What is checked of the volumes, networks and PCI devices of a new domain.
use libvirt_operator.Prelude.{
  ℕ, String, true, List, [], ◌∷◌, ◌≡◌, refl, All, Bool-cases, inl, inr, str_eq, eq_iff, ◌∙◌, ap,
}
use libvirt_operator.Outcome.{ok}
use libvirt_operator.Host.{Client}
use libvirt_operator.Host.Monad.{World, lift, lift_cases, ◌>>=◌}
use libvirt_operator.Api.{ready}
use libvirt_operator.Api.Kinds.{Volume, Network, PciDevice}
use libvirt_operator.Api.Domain.{
  Domain, DiskRef, InterfaceRef, domain_volume_ref, domain_network_ref, domain_pci_device_ref,
}
use libvirt_operator.Action.Domain.State.{DomainAction}
use libvirt_operator.Controller.Base.{Machinery, Casts, Server}
use libvirt_operator.Controller.Domain.{
  Env, going, attach_volume, attach_volumes, attach_network, attach_networks, attach_device,
  attach_devices,
}
use libvirt_operator.Controller.Domain.Creation.Steps.{
  Passed, wait_for-Passed, labelled-Passed, chain-Passed,
}

module _ {S : Type 0} (c : Client S) (k : Machinery) (casts : Casts) (v : Server Domain) (env : Env)
    (rounds : ℕ) where
  -- The object that a reference names is there, is ready and is on the host.
  abbrev pub VolumeUsable : String → String → DiskRef → Type 0
  VolumeUsable namespace host disk =
      (vol : Volume) × (env.get_volume (record { name = disk.volume_ref; namespace = namespace })
        ≡ ok vol)
      × (k.is_status_condition_true vol.conditions ready ≡ true)
      × (vol.status.host ≡ host)

  abbrev pub NetworkUsable : String → String → InterfaceRef → Type 0
  NetworkUsable namespace host i =
      (n : Network) × (env.get_network (record { name = i.network_ref; namespace = namespace })
        ≡ ok n)
      × (k.is_status_condition_true n.conditions ready ≡ true)
      × (n.spec.host_ref ≡ host)

  abbrev pub DeviceUsable : String → String → String → Type 0
  DeviceUsable namespace host name =
      (p : PciDevice) × (env.get_pci_device (record { name = name; namespace = namespace }) ≡ ok p)
      × (k.is_status_condition_true p.conditions ready ≡ true)
      × (p.spec.host_ref ≡ host)

  attach_volume-Passed :
      (namespace host : String) (d : Domain) (a : DomainAction) (disk : DiskRef) (vol : Volume)
      (w : World S Domain)
      → d.meta.namespace ≡ namespace
      → d.spec.host_ref ≡ host
      → env.get_volume (domain_volume_ref d disk) ≡ ok vol
      → Passed c k casts v env rounds d
          (VolumeUsable namespace host disk)
          w
          (attach_volume c k casts v env rounds d a disk vol w)
  unfolding domain_volume_ref attach_volume
  attach_volume-Passed namespace host d a disk vol w here there got =
      elim (Bool-cases (k.is_status_condition_true vol.conditions ready)) [
        | inr unready ↦ rw (unready, attach_volume) (wait_for-Passed c k casts v env rounds _ _ d w)
        | inl is_ready ↦ elim (Bool-cases (str_eq vol.status.host d.spec.host_ref)) [
          | inr other ↦ rw (is_ready, other, attach_volume) (refl, λ d' a' h. cc)
          | inl same ↦
              rw (is_ready, same, attach_volume)
                (labelled-Passed c k casts v env rounds (VolumeUsable namespace host disk)
                  (vol, cc, is_ready, (eq_iff vol.status.host d.spec.host_ref).0 same ∙ there) _ _ _
                  d w)
        ]
      ]

  pub attach_volumes-Passed :
      (namespace host : String) (disks : List DiskRef) (d : Domain) (a : DomainAction)
      (w : World S Domain)
      → d.meta.namespace ≡ namespace
      → d.spec.host_ref ≡ host
      → Passed c k casts v env rounds d
          (All (VolumeUsable namespace host) disks)
          w
          (attach_volumes c k casts v env rounds disks d a w)
  unfolding attach_volumes
  attach_volumes-Passed namespace host [] d a w here there = (refl, λ d' a' h. (cc, cc, tt))
  attach_volumes-Passed namespace host (disk ∷ disks) d a w here there =
      chain-Passed c k casts v env rounds (VolumeUsable namespace host disk)
        (All (VolumeUsable namespace host) disks)
        (lift (env.get_volume (domain_volume_ref d disk))
          >>= attach_volume c k casts v env rounds d a disk)
        (attach_volumes c k casts v env rounds disks) d w
        (lift_cases (Passed c k casts v env rounds d (VolumeUsable namespace host disk) w)
          (env.get_volume (domain_volume_ref d disk))
          (attach_volume c k casts v env rounds d a disk) w
          (λ stop no. (refl, λ d' a' h. absurd (no (going d' a') h)))
          (λ vol got. attach_volume-Passed namespace host d a disk vol w here there got))
        (λ d' a' w' spec ns.
          attach_volumes-Passed namespace host disks d' a' w' (ns ∙ here)
            (ap (λ t. t.host_ref) spec ∙ there))

  attach_network-Passed :
      (namespace host : String) (d : Domain) (a : DomainAction) (i : InterfaceRef) (n : Network)
      (w : World S Domain)
      → d.meta.namespace ≡ namespace
      → d.spec.host_ref ≡ host
      → env.get_network (domain_network_ref d i) ≡ ok n
      → Passed c k casts v env rounds d
          (NetworkUsable namespace host i)
          w
          (attach_network c k casts v env rounds d a i n w)
  unfolding domain_network_ref attach_network
  attach_network-Passed namespace host d a i n w here there got =
      elim (Bool-cases (str_eq n.spec.host_ref d.spec.host_ref)) [
        | inr other ↦ rw (other, attach_network) (refl, λ d' a' h. cc)
        | inl same ↦ elim (Bool-cases (k.is_status_condition_true n.conditions ready)) [
          | inr unready ↦
              rw (same, unready, attach_network) (wait_for-Passed c k casts v env rounds _ _ d w)
          | inl is_ready ↦
              rw (same, is_ready, attach_network)
                (labelled-Passed c k casts v env rounds (NetworkUsable namespace host i)
                  (n, cc, is_ready, (eq_iff n.spec.host_ref d.spec.host_ref).0 same ∙ there) _ _ _ d
                  w)
        ]
      ]

  pub attach_networks-Passed :
      (namespace host : String) (is : List InterfaceRef) (d : Domain) (a : DomainAction)
      (w : World S Domain)
      → d.meta.namespace ≡ namespace
      → d.spec.host_ref ≡ host
      → Passed c k casts v env rounds d
          (All (NetworkUsable namespace host) is)
          w
          (attach_networks c k casts v env rounds is d a w)
  unfolding attach_networks
  attach_networks-Passed namespace host [] d a w here there = (refl, λ d' a' h. (cc, cc, tt))
  attach_networks-Passed namespace host (i ∷ is) d a w here there =
      chain-Passed c k casts v env rounds (NetworkUsable namespace host i)
        (All (NetworkUsable namespace host) is)
        (lift (env.get_network (domain_network_ref d i))
          >>= attach_network c k casts v env rounds d a i)
        (attach_networks c k casts v env rounds is) d w
        (lift_cases (Passed c k casts v env rounds d (NetworkUsable namespace host i) w)
          (env.get_network (domain_network_ref d i)) (attach_network c k casts v env rounds d a i) w
          (λ stop no. (refl, λ d' a' h. absurd (no (going d' a') h)))
          (λ n got. attach_network-Passed namespace host d a i n w here there got))
        (λ d' a' w' spec ns.
          attach_networks-Passed namespace host is d' a' w' (ns ∙ here)
            (ap (λ t. t.host_ref) spec ∙ there))

  attach_device-Passed :
      (namespace host : String) (d : Domain) (a : DomainAction) (name : String) (p : PciDevice)
      (w : World S Domain)
      → d.meta.namespace ≡ namespace
      → d.spec.host_ref ≡ host
      → env.get_pci_device (domain_pci_device_ref d name) ≡ ok p
      → Passed c k casts v env rounds d
          (DeviceUsable namespace host name)
          w
          (attach_device c k casts v env rounds d a p w)
  unfolding domain_pci_device_ref attach_device
  attach_device-Passed namespace host d a name p w here there got =
      elim (Bool-cases (str_eq p.spec.host_ref d.spec.host_ref)) [
        | inr other ↦ rw (other, attach_device) (refl, λ d' a' h. cc)
        | inl same ↦ elim (Bool-cases (k.is_status_condition_true p.conditions ready)) [
          | inr unready ↦
              rw (same, unready, attach_device) (wait_for-Passed c k casts v env rounds _ _ d w)
          | inl is_ready ↦
              rw (same, is_ready, attach_device)
                (labelled-Passed c k casts v env rounds (DeviceUsable namespace host name)
                  (p, cc, is_ready, (eq_iff p.spec.host_ref d.spec.host_ref).0 same ∙ there) _ _ _ d
                  w)
        ]
      ]

  pub attach_devices-Passed :
      (namespace host : String) (names : List String) (d : Domain) (a : DomainAction)
      (w : World S Domain)
      → d.meta.namespace ≡ namespace
      → d.spec.host_ref ≡ host
      → Passed c k casts v env rounds d
          (All (DeviceUsable namespace host) names)
          w
          (attach_devices c k casts v env rounds names d a w)
  unfolding attach_devices
  attach_devices-Passed namespace host [] d a w here there = (refl, λ d' a' h. (cc, cc, tt))
  attach_devices-Passed namespace host (name ∷ names) d a w here there =
      chain-Passed c k casts v env rounds (DeviceUsable namespace host name)
        (All (DeviceUsable namespace host) names)
        (lift (env.get_pci_device (domain_pci_device_ref d name))
          >>= attach_device c k casts v env rounds d a)
        (attach_devices c k casts v env rounds names) d w
        (lift_cases (Passed c k casts v env rounds d (DeviceUsable namespace host name) w)
          (env.get_pci_device (domain_pci_device_ref d name))
          (attach_device c k casts v env rounds d a) w
          (λ stop no. (refl, λ d' a' h. absurd (no (going d' a') h)))
          (λ p got. attach_device-Passed namespace host d a name p w here there got))
        (λ d' a' w' spec ns.
          attach_devices-Passed namespace host names d' a' w' (ns ∙ here)
            (ap (λ t. t.host_ref) spec ∙ there))
