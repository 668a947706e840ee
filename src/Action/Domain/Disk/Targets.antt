-- ===== src/Action/Domain/Disk/Targets.antt =====
-- The names of a domain's disks: Disk keeps them pairwise different, and attaches one disk or none.
use libvirt_operator.Prelude.{
  ℕ, String, Bool, false, ◌||◌, List, [], ◌∷◌, ◌++◌, Option, some, is_set, ◌≡◌, ◌≢◌, sym, ◌⊎◌, inl,
  inr, arith, str_eq, All, All-append, Bool-cases,
}
use libvirt_operator.Outcome.{ok, deref, >>=-eq-ok, ok-injective}
use libvirt_operator.Libvirt.{
  Dev, DomainDisk, DomainDeviceList, DiskTarget, StorageVolume, VolumeTarget,
}
use libvirt_operator.Host.{Client}
use libvirt_operator.Action.Domain.State.{DomainAction}
use libvirt_operator.Action.Domain.Setup.{with_devices}
use libvirt_operator.Action.Domain.Disk.{
  locate_volume, path_disk, attach_disk, place_disk, add_disk,
}
use libvirt_operator.Action.Domain.TargetDev.{
  HasTarget, target_taken, dev_eq, dev_eq_refl, get_next_available_target_dev_fresh,
}

-- Two disks have no name in common.
abbrev pub DevDiffers : DomainDisk → DomainDisk → Type 0
DevDiffers d e = (t u : DiskTarget) → d.target ≡ some t → e.target ≡ some u → t.dev ≢ u.dev

abbrev pub Distinct : List DomainDisk → Type 0
Distinct [] = Unit
Distinct (d ∷ ds) = All (DevDiffers d) ds × Distinct ds

-- Every disk has a target, and no two have the same name.
pub record IsWired (ds : List DomainDisk) : Type 0 where
  pub targets : All HasTarget ds
  pub distinct : Distinct ds

not_taken :
    (dev : Dev) (d : DomainDisk) (ds : List DomainDisk) (t : DiskTarget)
    → d.target ≡ some t
    → target_taken dev (d ∷ ds) ≡ ok false
    → (dev_eq t.dev dev ≡ false) × (target_taken dev ds ≡ ok false)
unfolding target_taken
not_taken dev d ds t e h = ground (arith, e)

differs :
    (x d : DomainDisk) (t : DiskTarget) (dev : Dev) (bus : String)
    → x.target ≡ some t
    → dev_eq t.dev dev ≡ false
    → d.target ≡ some (record { dev = dev; bus = bus })
    → DevDiffers x d
differs x d t dev bus e h k u v p q same = ground (arith, dev_eq_refl dev)

Distinct-append :
    (ds : List DomainDisk) (d : DomainDisk) (dev : Dev) (bus : String)
    → d.target ≡ some (record { dev = dev; bus = bus })
    → All HasTarget ds
    → target_taken dev ds ≡ ok false
    → Distinct ds
    → Distinct (ds ++ d ∷ [])
Distinct-append [] d dev bus k has free dis = (tt, tt)
Distinct-append (x ∷ ds) d dev bus k ((t, e), has) free (apart, dis) =
    let (here, later) = not_taken dev x ds t e free in
    (
      All-append (DevDiffers x) ds (d ∷ []) apart (differs x d t dev bus e here k, tt),
      Distinct-append ds d dev bus k has later dis,
    )

append-IsWired :
    (ds : List DomainDisk) (d : DomainDisk) (dev : Dev)
    → d.target ≡ some (record { dev = dev; bus = "scsi" })
    → target_taken dev ds ≡ ok false
    → IsWired ds
    → IsWired (ds ++ d ∷ [])
append-IsWired ds d dev k free w = record {
  targets = All-append HasTarget ds (d ∷ []) w.targets ((_, k), tt);
  distinct = Distinct-append ds d dev "scsi" k w.targets free w.distinct;
}

module _ {S : Type 0} (c : Client S) (s : S) where
  path_disk_target :
      (rounds : ℕ) (dev : Dev) (desc : StorageVolume) (wwn : Option String) (readonly : Bool)
      (format path : String) (d : DomainDisk)
      → path_disk c s rounds dev desc wwn readonly format path ≡ ok d
      → d.target ≡ some (record { dev = dev; bus = "scsi" })
  unfolding path_disk
  path_disk_target rounds dev desc wwn readonly format path d h = ground arith

  -- What a call of Disk leaves of a list of disks: the list, or the list and one disk more.
  abbrev pub Attaches : DomainDeviceList → DomainAction → DomainAction → Type 0
  Attaches ds a a' =
      (a' ≡ a)
      ⊎ ((d : DomainDisk) × (a' ≡ with_devices a (record ds { disks = ds.disks ++ d ∷ [] }))
          × IsWired (ds.disks ++ d ∷ []))

  attach_disk-Attaches :
      (rounds : ℕ) (dev : Dev) (desc : StorageVolume) (wwn : Option String) (readonly : Bool)
      (format path : String) (ds : DomainDeviceList) (a a' : DomainAction)
      → IsWired ds.disks
      → target_taken dev ds.disks ≡ ok false
      → attach_disk c s rounds dev desc wwn readonly format path ds a ≡ ok a'
      → Attaches ds a a'
  unfolding attach_disk
  attach_disk-Attaches rounds dev desc wwn readonly format path ds a a' w free h =
      elim (Bool-cases (str_eq desc.type_ "file" || str_eq desc.type_ "block")) [
        | inl t ↦
            let (d, made, same) =
              >>=-eq-ok (path_disk c s rounds dev desc wwn readonly format path)
                (λ d. ok (with_devices a (record ds { disks = ds.disks ++ d ∷ [] })))
                (ground (arith, h, t)) in
            inr (
              d,
              sym (ok-injective same),
              append-IsWired ds.disks d dev
                  (path_disk_target rounds dev desc wwn readonly format path d made) free w,
            )
        | inr f ↦ inl (ground (arith, h, f))
      ]

  place_disk-Attaches :
      (rounds : ℕ) (dev : Dev) (wwn : Option String) (readonly : Bool) (ds : DomainDeviceList)
      (a a' : DomainAction) (desc : StorageVolume)
      → IsWired ds.disks
      → target_taken dev ds.disks ≡ ok false
      → place_disk c s rounds dev wwn readonly ds a desc ≡ ok a'
      → Attaches ds a a'
  unfolding place_disk
  place_disk-Attaches rounds dev wwn readonly ds a a' desc w free h =
      let (t, _, h1) = >>=-eq-ok (deref desc.target) _ h in
      let (format, _, h2) = >>=-eq-ok (deref t.format) _ h1 in
      attach_disk-Attaches rounds dev desc wwn readonly format t.path ds a a' w free h2

  -- On a definition whose disks all have targets with different names, a call of Disk that succeeds
  -- either leaves the action as it was or attaches exactly one disk, and then the names still differ.
  pub add_disk-Attaches :
      (rounds : ℕ) (volume pool : String) (wwn : Option String) (readonly : Option Bool)
      (a a' : DomainAction) (ds : DomainDeviceList)
      → a.def.devices ≡ some ds
      → IsWired ds.disks
      → add_disk c s rounds volume pool wwn readonly a ≡ ok a'
      → Attaches ds a a'
  unfolding add_disk
  add_disk-Attaches rounds volume pool wwn readonly a a' ds e w h =
      let (dev, found, free) = get_next_available_target_dev_fresh ds.disks w.targets in
      let (desc, _, placed) =
        >>=-eq-ok (locate_volume c s volume pool)
          (place_disk c s rounds dev wwn (is_set readonly) ds a) (ground (arith, h, e, found)) in
      place_disk-Attaches rounds dev wwn (is_set readonly) ds a a' desc w free placed

  -- A volume that is neither a file nor a block device, once it is found with its target and format,
  -- makes Disk succeed with the action unchanged: no disk is attached.
  pub add_disk_dropped :
      (rounds : ℕ) (volume pool : String) (wwn : Option String) (readonly : Option Bool)
      (a : DomainAction) (ds : DomainDeviceList) (desc : StorageVolume) (t : VolumeTarget)
      (format : String)
      → a.def.devices ≡ some ds
      → All HasTarget ds.disks
      → locate_volume c s volume pool ≡ ok desc
      → desc.target ≡ some t
      → t.format ≡ some format
      → str_eq desc.type_ "file" ≡ false
      → str_eq desc.type_ "block" ≡ false
      → add_disk c s rounds volume pool wwn readonly a ≡ ok a
  unfolding add_disk place_disk attach_disk
  add_disk_dropped rounds volume pool wwn readonly a ds desc t format e has l k f nf nb =
      let (dev, found, free) = get_next_available_target_dev_fresh ds.disks has in
      ground (arith, found)
