-- ===== src/Action/Volume/Resize/Disk.antt =====
-- Which disk LiveResize of internal/action/volume.go resizes.
use libvirt_operator.Prelude.{
  ℕ, String, true, List, [], ◌∷◌, ◌++◌, Option, none, some, Option-cases, Bool-cases, ◌≡◌, ◌≢◌, ◌⊎◌,
  inl, inr, refl, arith, eq_iff,
}
use mathlib.Core.Path.{subst}
use libvirt_operator.Outcome.{Outcome, Error, ok, err, deref, has_code, err_no_domain, >>=-eq-ok}
use libvirt_operator.Libvirt.{
  DomainId, DomainState, running, shutoff, other_state, StorageVol, VolumeTarget, DiskSource,
  SourceVolume, DomainDisk, DiskTarget, DomainDef, DomainDeviceList,
}
use libvirt_operator.Host.{Client, storage_vol_resize, domain_block_resize}
use libvirt_operator.Host.Monad.{World, host_call, failure, lift_cases, attempt_cases}
use libvirt_operator.Util.Bytes.{convert_to_bytes}
use libvirt_operator.Action.Volume.State.{VolumeAction}
use libvirt_operator.Action.Volume.Resize.{
  path_matches, volume_matches, disk_matches, find_disk, locate_disk, resize, block_resize,
  resize_disk, resize_by_state, live_resize_found, live_resize,
}

-- A disk shows the volume: its source is a file or a block device at the volume's path, or the volume
-- by its name and that of its pool.
abbrev pub Shows : VolumeAction → DomainDisk → Type 0
Shows a d =
    (source : DiskSource) × (d.source ≡ some source)
    × (((t : VolumeTarget) × (a.def.target ≡ some t)
          × ((source.file ≡ some t.path) ⊎ (source.block ≡ some t.path)))
        ⊎ ((v : SourceVolume) × (source.volume ≡ some v)
            × (v.volume ≡ a.name)
            × (v.pool ≡ a.pool_name)))

path_matches_at :
    (a : VolumeAction) (path : Option String)
    → path_matches a path ≡ ok true
    → (t : VolumeTarget) × (a.def.target ≡ some t) × (path ≡ some t.path)
unfolding path_matches
path_matches_at a none h = absurd (ground arith)
path_matches_at a (some path) h = elim (Option-cases a.def.target) [
  | inl e ↦ absurd (ground (arith, e))
  | inr (t, e) ↦ (t, e, ground (arith, e, eq_iff path t.path))
]

volume_matches_by :
    (a : VolumeAction) (volume : Option SourceVolume)
    → volume_matches a volume ≡ true
    → (v : SourceVolume) × (volume ≡ some v) × (v.volume ≡ a.name) × (v.pool ≡ a.pool_name)
unfolding volume_matches
volume_matches_by a none h = absurd (ground arith)
volume_matches_by a (some v) h =
    (v, refl, ground (arith, eq_iff v.volume a.name), ground (arith, eq_iff v.pool a.pool_name))

disk_matches-Shows : (a : VolumeAction) (d : DomainDisk) → disk_matches a d ≡ ok true → Shows a d
unfolding disk_matches
disk_matches-Shows a d h =
    let (source, has, h₁) = >>=-eq-ok (deref d.source) _ h in
    let (by_file, file, h₂) = >>=-eq-ok (path_matches a source.file) _ h₁ in
    let (by_block, block, h₃) = >>=-eq-ok (path_matches a source.block) _ h₂ in
    (
      source,
      ground (arith, has),
      elim (Bool-cases by_file) [
        | inl f ↦
            let (t, e, at) = path_matches_at a source.file (ground (arith, file, f)) in
            inl (t, e, inl at)
        | inr not_file ↦ elim (Bool-cases by_block) [
          | inl b ↦
              let (t, e, at) = path_matches_at a source.block (ground (arith, block, b)) in
              inl (t, e, inr at)
          | inr not_block ↦
              inr (volume_matches_by a source.volume (ground (arith, h₃, not_file, not_block)))
        ]
      ],
    )

find_disk-Shows :
    (a : VolumeAction) (d : DomainDisk) (ds : List DomainDisk)
    → find_disk a ds ≡ ok (some d)
    → (before after : List DomainDisk) × (ds ≡ before ++ d ∷ after) × Shows a d
unfolding find_disk
find_disk-Shows a d [] h = absurd (ground arith)
find_disk-Shows a d (e ∷ ds) h =
    let (matched, m, h') = >>=-eq-ok (disk_matches a e) _ h in
    elim (Bool-cases matched) [
      | inl same ↦
          let is_it : e ≡ d = ground (arith, same) in
          (
            [],
            ds,
            cc is_it,
            subst (Shows a) is_it (disk_matches-Shows a e (ground (arith, m, same))),
          )
      | inr other ↦
          let (before, after, split, shows) = find_disk-Shows a d ds (ground (arith, other)) in
          (e ∷ before, after, ground (arith, split), shows)
    ]

-- The disk is one of those that the host describes for the running domain of this name, it shows the
-- volume, and it has this name in the guest.
pub record IsDiskOf {S : Type 0} (c : Client S) (s : S) (name : String) (a : VolumeAction)
    (dom : DomainId) (target : DiskTarget) : Type 0 where
  xml : String
  desc : DomainDef
  devices : DomainDeviceList
  disk : DomainDisk
  before : List DomainDisk
  after : List DomainDisk
  is_named : c.domain_lookup_by_name name s ≡ ok dom
  is_running : c.domain_get_state dom s ≡ ok running
  is_described : c.domain_get_xml_desc dom s ≡ ok xml
  is_read : c.unmarshal_domain xml ≡ ok desc
  has_devices : desc.devices ≡ some devices
  is_among : devices.disks ≡ before ++ disk ∷ after
  shows : Shows a disk
  has_target : disk.target ≡ some target

-- No domain of one of these names runs: there is no name, or the host has no domain of the name, or it
-- tells another state of that domain.
abbrev pub IsIdle : {S : Type 0} → Client S → S → Option String → Type 0
IsIdle c s domain =
    (domain ≡ none)
    ⊎ ((name : String) × (domain ≡ some name)
        × (((e : Error) × (c.domain_lookup_by_name name s ≡ err e)
              × (has_code err_no_domain e ≡ true))
            ⊎ ((dom : DomainId) × (state : DomainState) × (c.domain_lookup_by_name name s ≡ ok dom)
                × (c.domain_get_state dom s ≡ ok state)
                × (state ≢ running))))

-- The only call gives this many bytes to the volume itself, where no domain of one of these names runs,
-- or to a disk that shows it in the running domain of one of these names.
abbrev pub ResizesVolume :
    {S O : Type 0} → Client S → Option String → VolumeAction → ℕ → World S O → World S O → Type 0
ResizesVolume c domain a bytes w w' =
    ((id : StorageVol) × IsIdle c w.host domain
      × (a.id ≡ some id)
      × (w'.log ≡ w.log ++ host_call (storage_vol_resize id bytes) ∷ []))
    ⊎ ((name : String) × (domain ≡ some name)
        × (dom : DomainId) × (target : DiskTarget) × IsDiskOf c w.host name a dom target
        × (w'.log ≡ w.log ++ host_call (domain_block_resize dom target.dev bytes) ∷ []))

module _ {S O : Type 0} (c : Client S) (unit : String) (value : ℕ) where
  -- No call of the host, or the one that resizes the volume.
  abbrev pub MayResize :
      Option String → VolumeAction → World S O → Outcome (Unit {0}) × World S O → Type 0
  MayResize domain a w (_, w') =
      (w'.log ≡ w.log) ⊎ ResizesVolume c domain a (convert_to_bytes value unit) w w'

  pub resize-MayResize :
      (domain : Option String) (a : VolumeAction) (w : World S O)
      → IsIdle c w.host domain
      → MayResize domain a w (resize c unit value a w)
  unfolding resize
  resize-MayResize domain a w idle = elim (Option-cases a.id) [
    | inl e ↦ inl (ground (arith, e))
    | inr (id, e) ↦ inr (inl (id, idle, e, ground (arith, e)))
  ]

  block_resize-MayResize :
      (name : String) (dom : DomainId) (a : VolumeAction) (found : Option DomainDisk)
      (w : World S O)
      → c.domain_lookup_by_name name w.host ≡ ok dom
      → c.domain_get_state dom w.host ≡ ok running
      → locate_disk c a dom w.host ≡ ok found
      → MayResize (some name) a w (block_resize c dom unit value found w)
  unfolding block_resize locate_disk
  block_resize-MayResize name dom a none w named on located = inl refl
  block_resize-MayResize name dom a (some d) w named on located =
      let (xml, described, h₁) = >>=-eq-ok (c.domain_get_xml_desc dom w.host) _ located in
      let (desc, read, h₂) = >>=-eq-ok (c.unmarshal_domain xml) _ h₁ in
      let (ds, devices, found) = >>=-eq-ok (deref desc.devices) _ h₂ in
      let (before, after, among, shows) = find_disk-Shows a d ds.disks found in
      elim (Option-cases d.target) [
        | inl e ↦ inl (ground (arith, e))
        | inr (t, e) ↦ inr (
            inr (
              name,
              refl,
              dom,
              t,
              record {
                xml = xml;
                desc = desc;
                devices = ds;
                disk = d;
                before = before;
                after = after;
                is_named = named;
                is_running = on;
                is_described = described;
                is_read = read;
                has_devices = ground (arith, devices);
                is_among = among;
                shows = shows;
                has_target = e;
              },
              ground (arith, e),
            ))
      ]

  resize_by_state-MayResize :
      (name : String) (dom : DomainId) (a : VolumeAction) (state : DomainState) (w : World S O)
      → c.domain_lookup_by_name name w.host ≡ ok dom
      → c.domain_get_state dom w.host ≡ ok state
      → MayResize (some name) a w (resize_by_state c dom unit value a state w)
  unfolding resize_by_state resize_disk
  resize_by_state-MayResize name dom a running w named on =
      lift_cases (MayResize (some name) a w) (locate_disk c a dom w.host)
        (block_resize c dom unit value) w (λ stop _. inl refl)
        (λ found located. block_resize-MayResize name dom a found w named on located)
  resize_by_state-MayResize name dom a shutoff w named off =
      resize-MayResize (some name) a w (inr (name, refl, inr (dom, shutoff, named, off, λ h. cc)))
  resize_by_state-MayResize name dom a other_state w named other =
      resize-MayResize (some name) a w
        (inr (name, refl, inr (dom, other_state, named, other, λ h. cc)))

  live_resize_found-MayResize :
      (name : String) (a : VolumeAction) (e : Error) (w : World S O)
      → c.domain_lookup_by_name name w.host ≡ err e
      → MayResize (some name) a w (live_resize_found c unit value a (failure e) w)
  unfolding live_resize_found
  live_resize_found-MayResize name a e w failed = elim (Bool-cases (has_code err_no_domain e)) [
    | inl t ↦ rw t (resize-MayResize (some name) a w (inr (name, refl, inl (e, failed, t))))
    | inr f ↦ rw f (inl refl)
  ]

  pub live_resize-MayResize :
      (name : String) (a : VolumeAction) (w : World S O)
      → MayResize (some name) a w (live_resize c name unit value a w)
  unfolding live_resize live_resize_found
  live_resize-MayResize name a w =
      attempt_cases (MayResize (some name) a w) (c.domain_lookup_by_name name w.host)
        (live_resize_found c unit value a) w (λ stop h. inl refl)
        (λ e failed. live_resize_found-MayResize name a e w failed)
        (λ dom named.
          lift_cases (MayResize (some name) a w) (c.domain_get_state dom w.host)
            (resize_by_state c dom unit value a) w (λ stop h. inl refl)
            (λ state on. resize_by_state-MayResize name dom a state w named on))
