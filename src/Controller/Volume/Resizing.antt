-- ===== src/Controller/Volume/Resizing.antt =====
-- What a run does to the size of a volume that exists.
use libvirt_operator.Prelude.{
  ℕ, String, Bool, true, false, [], Option, none, some, ◌<◌, ◌≡◌, refl, arith, ◌⊎◌, inl, inr,
}
use libvirt_operator.Outcome.{Outcome, ok}
use libvirt_operator.Libvirt.{Size}
use libvirt_operator.Host.{Client}
use libvirt_operator.Host.Monad.{World, lift_cases, bind_cases, pure}
use libvirt_operator.Api.Kinds.{Volume, VolumeSize}
use libvirt_operator.Util.Bytes.{convert_to_bytes}
use libvirt_operator.Action.Volume.State.{VolumeAction}
use libvirt_operator.Action.Volume.Resize.{
  resize_required-larger, resize_required, resize, live_resize,
}
use libvirt_operator.Action.Volume.Resize.Disk.{
  ResizesVolume, MayResize, resize-MayResize, live_resize-MayResize,
}
use libvirt_operator.Controller.Base.{Machinery, Casts, Server, Result, done}
use libvirt_operator.Controller.Volume.{Env, volume_users, is_not_backing_store, used_by_domain}
use libvirt_operator.Controller.Volume.Reconcile.{resize_for, grow_free, resize_to, resize_stage}

module _ {S : Type 0} (c : Client S) (k : Machinery) (casts : Casts) (v : Server Volume)
    (env : Env) where
  -- A log that is unchanged, or has one call more, which gives the volume a larger size than it has;
  -- such a call is made only for a volume that backs no other, and goes through a domain's disk only
  -- for the one domain that has the volume as a disk.
  unfoldable pub GrowsOnly :
      Volume → VolumeAction → World S Volume → Outcome Result × World S Volume → Type 0
  GrowsOnly r a w (_, w') =
      (w'.log ≡ w.log)
      ⊎ ((size : Size) × (bytes : ℕ) × (domain : Option String) × (a.def.capacity ≡ some size)
          × (convert_to_bytes size.value size.unit < bytes)
          × (volume_users env r.meta.name ≡ ok [])
          × (used_by_domain env r.meta.name ≡ ok domain)
          × ResizesVolume c domain a bytes w w')

  resize_for_log :
      (unit : String) (value : ℕ) (a : VolumeAction) (domain : Option String) (w : World S Volume)
      → let w' = (resize_for c k casts v env unit value a domain w).1 in
        (w'.log ≡ w.log) ⊎ ResizesVolume c domain a (convert_to_bytes value unit) w w'
  unfolding resize_for
  resize_for_log unit value a none w =
      bind_cases (λ p. MayResize c unit value none a w (ok tt, p.1)) (resize c unit value a)
        (λ _. pure done) w (λ _ _. resize-MayResize c unit value none a w (inl refl))
        (λ _ _. resize-MayResize c unit value none a w (inl refl))
  resize_for_log unit value a (some d) w =
      bind_cases (λ p. MayResize c unit value (some d) a w (ok tt, p.1))
        (live_resize c d unit value a) (λ _. pure done) w
        (λ _ _. live_resize-MayResize c unit value d a w)
        (λ _ _. live_resize-MayResize c unit value d a w)

  -- No call, or one that resizes the volume, which backs no other.
  abbrev Grows :
      Volume → VolumeAction → ℕ → World S Volume → Outcome Result × World S Volume → Type 0
  Grows r a bytes w (_, w') =
      (w'.log ≡ w.log)
      ⊎ ((domain : Option String) × (volume_users env r.meta.name ≡ ok [])
          × (used_by_domain env r.meta.name ≡ ok domain)
          × ResizesVolume c domain a bytes w w')

  grow_free_log :
      (r : Volume) (unit : String) (value : ℕ) (a : VolumeAction) (free : Bool) (w : World S Volume)
      → is_not_backing_store env r.meta.name ≡ ok free
      → Grows r a (convert_to_bytes value unit) w (grow_free c k casts v env r unit value a free w)
  unfolding grow_free is_not_backing_store
  grow_free_log r unit value a false w e = inl refl
  grow_free_log r unit value a true w e =
      lift_cases (Grows r a (convert_to_bytes value unit) w) (used_by_domain env r.meta.name)
        (resize_for c k casts v env unit value a) w (λ stop _. inl refl)
        λ domain used. elim (resize_for_log unit value a domain w) [
          | inl same ↦ inl same
          | inr resized ↦ inr (domain, ground (arith, e), used, resized)
        ]

  resize_to_log :
      (r : Volume) (unit : String) (value : ℕ) (a : VolumeAction) (larger : Bool)
      (w : World S Volume)
      → resize_required unit value a ≡ ok larger
      → GrowsOnly r a w (resize_to c k casts v env r unit value a larger w)
  unfolding resize_to GrowsOnly
  resize_to_log r unit value a false w e = inl refl
  resize_to_log r unit value a true w e =
      let (size, known, less) = resize_required-larger unit value a e in
      lift_cases (GrowsOnly r a w) (is_not_backing_store env r.meta.name)
        (grow_free c k casts v env r unit value a) w (λ stop _. inl refl)
        λ free is_free. elim (grow_free_log r unit value a free w is_free) [
          | inl same ↦ inl same
          | inr (domain, unused, used, resized) ↦
              inr (size, convert_to_bytes value unit, domain, known, less, unused, used, resized)
        ]

  -- This is about resize_stage, which a run reaches for a volume that exists on the host and is
  -- not being deleted. It changes the host by one call at most, and makes that call only if the
  -- list of the volumes that this one backs was read and is empty. The call asks for more bytes
  -- than the volume has. It resizes the volume itself only if no domain has the volume as a disk,
  -- or the one domain that has it is not on the host or not running. Otherwise that domain is
  -- running, and the call resizes a disk that the host describes for it and whose source is the
  -- volume, by its path or by its name and that of its pool.
  pub resize_stage-GrowsOnly :
      (r : Volume) (a : VolumeAction) (size : Option VolumeSize) (w : World S Volume)
      → GrowsOnly r a w (resize_stage c k casts v env r a size w)
  unfolding resize_stage GrowsOnly
  resize_stage-GrowsOnly r a none w = inl refl
  resize_stage-GrowsOnly r a (some size) w =
      let value = casts.to_uint64 size.value in
      lift_cases (GrowsOnly r a w) (resize_required size.unit value a)
        (resize_to c k casts v env r size.unit value a) w (λ stop _. inl refl)
        (λ larger e. resize_to_log r size.unit value a larger w e)
