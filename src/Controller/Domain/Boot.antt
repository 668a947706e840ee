-- ===== src/Controller/Domain/Boot.antt =====
-- How a domain boots: the firmware and the loader in its definition.
use libvirt_operator.Prelude.{true, none, some, is_set, if◌then◌else◌, ◌≡◌, inl, inr, arith}
use libvirt_operator.Outcome.{Outcome-cases, ok}
use libvirt_operator.Libvirt.{DomainOs, DomainVcpu, DomainDeviceList}
use libvirt_operator.Api.Domain.{Domain}
use libvirt_operator.Api.Validation.{secure_boot_rule}
use libvirt_operator.Action.Domain.State.{DomainAction}
use libvirt_operator.Action.Domain.Setup.{
  set_uefi, set_no_secure_boot, set_vcpu_placement, set_scsi_multiqueue, set_numatune_mode,
  set_cpu_mode, set_cpu_cache_mode,
}
use libvirt_operator.Controller.Base.{Casts}
use libvirt_operator.Controller.Domain.{configure, is_unset, set_cpu}

-- What the spec asks of the part of a definition that says how the domain boots.
abbrev pub boots : Domain → DomainOs → DomainOs
boots d os = record os {
  firmware = if is_set d.spec.uefi then "efi" else os.firmware;
  loader_secure = if is_unset d.spec.secure_boot then some "no" else os.loader_secure;
}

configured_os :
    (casts : Casts) (d : Domain) (a b : DomainAction) (os : DomainOs)
    → a.def.os ≡ some os
    → configure casts d a ≡ ok b
    → b.def.os ≡ some (boots d os)
unfolding configure set_cpu set_scsi_multiqueue set_numatune_mode set_uefi set_no_secure_boot
    set_vcpu_placement set_cpu_mode set_cpu_cache_mode
configured_os casts d a b os h run = ground (arith, h, run)

-- The options of a domain are set in a definition that has the parts which the setters write through.
configure-total :
    (casts : Casts) (d : Domain) (a : DomainAction) (os : DomainOs) (vcpu : DomainVcpu)
    (devices : DomainDeviceList)
    → a.def.os ≡ some os
    → a.def.vcpu ≡ some vcpu
    → a.def.devices ≡ some devices
    → (b : DomainAction) × (configure casts d a ≡ ok b)
unfolding configure set_cpu set_scsi_multiqueue set_numatune_mode set_uefi set_no_secure_boot
    set_vcpu_placement set_cpu_mode set_cpu_cache_mode
configure-total casts d a os vcpu devices h1 h2 h3 = elim (Outcome-cases (configure casts d a)) [
  | inl (b, e) ↦ (b, e)
  | inr (inl (e, h)) ↦ absurd (ground (arith, h1, h2, h3, h))
  | inr (inr (inl h)) ↦ absurd (ground (arith, h1, h2, h3, h))
  | inr (inr (inr h)) ↦ absurd (ground (arith, h1, h2, h3, h))
]

-- A spec that asks for secure boot and says nothing of UEFI is accepted, though the message of the
-- rule says that secure boot requires UEFI; and its options are set in a definition that has an
-- os, a vcpu and a device part with the firmware and the loader left as they were.
pub secure_boot_ignored :
    (casts : Casts) (d : Domain) (a : DomainAction) (os : DomainOs) (vcpu : DomainVcpu)
    (devices : DomainDeviceList)
    → d.spec.secure_boot ≡ some true
    → d.spec.uefi ≡ none
    → a.def.os ≡ some os
    → a.def.vcpu ≡ some vcpu
    → a.def.devices ≡ some devices
    → (secure_boot_rule d.spec ≡ true)
      × ((b : DomainAction) × (configure casts d a ≡ ok b) × (b.def.os ≡ some os))
unfolding secure_boot_rule
secure_boot_ignored casts d a os vcpu devices asked silent h1 h2 h3 =
    let (b, run) = configure-total casts d a os vcpu devices h1 h2 h3 in
    (
      ground (arith, asked, silent),
      (b, run, ground (arith, asked, silent, configured_os casts d a b os h1 run)),
    )
