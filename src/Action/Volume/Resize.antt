-- ===== src/Action/Volume/Resize.antt =====
-- ResizeRequired, Resize and LiveResize of internal/action/volume.go.
pub mod Disk
use libvirt_operator.Prelude.{
  ℕ, String, Bool, true, false, ◌&&◌, ◌||◌, List, [], ◌∷◌, ◌++◌, Option, none, some, ltb, ◌<◌,
  if◌then◌else◌, str_eq, Option-cases, Bool-cases, ◌≡◌, ◌≢◌, ◌⊎◌, inl, inr, refl, arith,
}
use libvirt_operator.Outcome.{
  Outcome, ok, err, panic, hang, message, deref, has_code, err_no_domain,
}
use libvirt_operator.Outcome
use libvirt_operator.Libvirt.{
  DomainId, DomainState, running, StorageVol, Size, DomainDisk, SourceVolume, Dev,
}
use libvirt_operator.Host.{Client, storage_vol_resize, domain_block_resize}
use libvirt_operator.Host.Monad.{
  World, host_call, M, raise, lift, query, change, Attempt, attempt, success, failure, ◌>>=◌,
  lift_cases, attempt_cases,
}
use libvirt_operator.Util.Bytes.{convert_to_bytes}
use libvirt_operator.Action.Volume.State.{VolumeAction}

abbrev pub err_volume_shrinking : String
err_volume_shrinking = "shrinking a volume is not supported"

abbrev pub err_live_resize_no_match : String
err_live_resize_no_match = "could not match volume to a disk during live resize"

unfoldable pub compare_sizes : ℕ → ℕ → Outcome Bool
compare_sizes current desired =
    if ltb desired current then err (message err_volume_shrinking) else ok (ltb current desired)

unfoldable pub resize_required : String → ℕ → VolumeAction → Outcome Bool
resize_required unit value a = Outcome.◌>>=◌ (deref a.def.capacity) (λ (size : Size).
    compare_sizes (convert_to_bytes size.value size.unit) (convert_to_bytes value unit))

-- The comparisons of a disk's source with the volume; the volume's path is read only for a disk with
-- a file or a block source.
path_matches : VolumeAction → Option String → Outcome Bool
path_matches a none = ok false
path_matches a (some path) = Outcome.◌>>=◌ (deref a.def.target) (λ t. ok (str_eq path t.path))

volume_matches : VolumeAction → Option SourceVolume → Bool
volume_matches a none = false
volume_matches a (some v) = str_eq v.volume a.name && str_eq v.pool a.pool_name

unfoldable pub disk_matches : VolumeAction → DomainDisk → Outcome Bool
unfolding path_matches volume_matches
disk_matches a d = Outcome.◌>>=◌ (deref d.source) (λ source.
    Outcome.◌>>=◌ (path_matches a source.file) (λ by_file.
      Outcome.◌>>=◌ (path_matches a source.block)
        (λ by_block. ok (by_file || by_block || volume_matches a source.volume))))

-- The first disk that matches.
unfoldable pub find_disk : VolumeAction → List DomainDisk → Outcome (Option DomainDisk)
find_disk a [] = ok none
find_disk a (d ∷ ds) =
    let rest = find_disk a ds in
    Outcome.◌>>=◌ (disk_matches a d) (λ matched. if matched then ok (some d) else rest)

-- The disk of a running domain to resize.
unfoldable pub locate_disk :
    {S : Type 0} → Client S → VolumeAction → DomainId → S → Outcome (Option DomainDisk)
locate_disk c a dom s = Outcome.◌>>=◌ (c.domain_get_xml_desc dom s) (λ xml.
    Outcome.◌>>=◌ (c.unmarshal_domain xml)
      (λ desc. Outcome.◌>>=◌ (deref desc.devices) (λ ds. find_disk a ds.disks)))

module _ {S O : Type 0} (c : Client S) where
  unfoldable pub resize : String → ℕ → VolumeAction → M S O (Unit {0})
  resize unit value a = do
    id ← lift (deref a.id)
    let bytes = convert_to_bytes value unit
    change (storage_vol_resize id bytes) (c.storage_vol_resize id bytes)

  block_resize : DomainId → String → ℕ → Option DomainDisk → M S O (Unit {0})
  block_resize dom unit value none = raise (message err_live_resize_no_match)
  block_resize dom unit value (some d) = do
    t ← lift (deref d.target)
    let bytes = convert_to_bytes value unit
    change (domain_block_resize dom t.dev bytes) (c.domain_block_resize dom t.dev bytes)

  resize_disk : DomainId → String → ℕ → VolumeAction → M S O (Unit {0})
  resize_disk dom unit value a = query (locate_disk c a dom) >>= block_resize dom unit value

  resize_by_state : DomainId → String → ℕ → VolumeAction → DomainState → M S O (Unit {0})
  resize_by_state dom unit value a running = resize_disk dom unit value a
  resize_by_state dom unit value a _ = resize unit value a

  live_resize_found : String → ℕ → VolumeAction → Attempt DomainId → M S O (Unit {0})
  live_resize_found unit value a (failure e) =
      if has_code err_no_domain e then resize unit value a else raise e
  live_resize_found unit value a (success dom) =
      query (c.domain_get_state dom) >>= resize_by_state dom unit value a

  unfoldable pub live_resize : String → String → ℕ → VolumeAction → M S O (Unit {0})
  unfolding resize resize_disk block_resize resize_by_state live_resize_found
  live_resize domain unit value a =
      attempt (query (c.domain_lookup_by_name domain)) >>= live_resize_found unit value a

-- ResizeRequired by the sizes in bytes: an error for a smaller size, otherwise whether it is larger.
pub resize_required_by_bytes :
    (unit : String) (value : ℕ) (a : VolumeAction) (size : Size)
    → a.def.capacity ≡ some size
    → let current = convert_to_bytes size.value size.unit in
      let desired = convert_to_bytes value unit in
      (desired < current → resize_required unit value a ≡ err (message err_volume_shrinking))
      × (current < desired → resize_required unit value a ≡ ok true)
      × (current ≡ desired → resize_required unit value a ≡ ok false)
unfolding resize_required compare_sizes
resize_required_by_bytes unit value a size e =
    (λ h. ground arith, λ h. ground arith, λ h. ground arith)

-- Exactly one call was made, of the volume or of a disk of a domain, with this number of bytes.
abbrev pub ResizesBy : {S O : Type 0} → ℕ → World S O → World S O → Type 0
ResizesBy bytes w w' =
    ((id : StorageVol) × (w'.log ≡ w.log ++ host_call (storage_vol_resize id bytes) ∷ []))
    ⊎ ((dom : DomainId) × (dev : Dev) × (w'.log
          ≡ w.log ++ host_call (domain_block_resize dom dev bytes) ∷ []))

-- How a run of a resize ends: it fails with no call of the host, or it made exactly one.
abbrev pub ResizesOnce : {S O : Type 0} → ℕ → World S O → Outcome (Unit {0}) × World S O → Type 0
ResizesOnce bytes w (r, w') = ((w'.log ≡ w.log) × (r ≢ ok tt)) ⊎ ResizesBy bytes w w'

module _ {S O : Type 0} (c : Client S) (unit : String) (value : ℕ) where
  abbrev Once : World S O → Outcome (Unit {0}) × World S O → Type 0
  Once = ResizesOnce (convert_to_bytes value unit)

  pub resize-ResizesOnce : (a : VolumeAction) (w : World S O) → Once w (resize c unit value a w)
  unfolding resize
  resize-ResizesOnce a w = elim (Option-cases a.id) [
    | inl e ↦ inl (ground (arith, e))
    | inr (id, e) ↦ inr (inl (id, ground (arith, e)))
  ]

  block_resize-ResizesOnce :
      (dom : DomainId) (d : Option DomainDisk) (w : World S O)
      → Once w (block_resize c dom unit value d w)
  unfolding block_resize
  block_resize-ResizesOnce dom none w = inl (refl, λ h. cc)
  block_resize-ResizesOnce dom (some d) w = elim (Option-cases d.target) [
    | inl e ↦ inl (ground (arith, e))
    | inr (t, e) ↦ inr (inr (dom, t.dev, ground (arith, e)))
  ]

  resize_by_state-ResizesOnce :
      (dom : DomainId) (a : VolumeAction) (state : DomainState) (w : World S O)
      → Once w (resize_by_state c dom unit value a state w)
  unfolding resize_by_state resize_disk
  resize_by_state-ResizesOnce dom a running w =
      lift_cases (Once w) (locate_disk c a dom w.host) (block_resize c dom unit value) w
        (λ stop h. inl (refl, h tt)) (λ found _. block_resize-ResizesOnce dom found w)
  resize_by_state-ResizesOnce dom a _ w = resize-ResizesOnce a w

  live_resize_found-ResizesOnce :
      (a : VolumeAction) (found : Attempt DomainId) (w : World S O)
      → Once w (live_resize_found c unit value a found w)
  unfolding live_resize_found
  live_resize_found-ResizesOnce a (failure e) w = elim (Bool-cases (has_code err_no_domain e)) [
    | inl t ↦ rw t (resize-ResizesOnce a w)
    | inr f ↦ rw f (inl (refl, λ h. cc))
  ]
  live_resize_found-ResizesOnce a (success dom) w =
      lift_cases (Once w) (c.domain_get_state dom w.host) (resize_by_state c dom unit value a) w
        (λ stop h. inl (refl, h tt)) (λ state _. resize_by_state-ResizesOnce dom a state w)

  -- LiveResize makes one call at most, always with the size in bytes that was asked for, and it
  -- succeeds only if it made that call.
  pub live_resize-ResizesOnce :
      (domain : String) (a : VolumeAction) (w : World S O)
      → Once w (live_resize c domain unit value a w)
  unfolding live_resize
  live_resize-ResizesOnce domain a w =
      attempt_cases (Once w) (c.domain_lookup_by_name domain w.host)
        (live_resize_found c unit value a) w (λ stop h. inl (refl, h tt))
        (λ e _. live_resize_found-ResizesOnce a (failure e) w)
        (λ dom _. live_resize_found-ResizesOnce a (success dom) w)

pub resize_required-larger :
    (unit : String) (value : ℕ) (a : VolumeAction)
    → resize_required unit value a ≡ ok true
    → (size : Size) × (a.def.capacity ≡ some size)
      × (convert_to_bytes size.value size.unit < convert_to_bytes value unit)
unfolding resize_required compare_sizes
resize_required-larger unit value a h = elim (Option-cases a.def.capacity) [
  | inl e ↦ absurd (ground (arith, e))
  | inr (size, e) ↦ (size, e, ground (arith, e))
]
