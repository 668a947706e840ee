-- ===== src/Controller/CloudInit/Creation.antt =====
-- What a run does to make the image of a cloud-init on the host.
use libvirt_operator.Prelude.{some, ◌≤◌, ◌⊎◌, ℕ, String, [], ◌∷◌, ◌++◌, ◌≡◌}
use libvirt_operator.Outcome.{Outcome, ok}
use libvirt_operator.Libvirt.{StorageVol, StorageVolume}
use libvirt_operator.Host.{Client, storage_vol_create_xml, storage_vol_upload}
use libvirt_operator.Host.Monad.{World}
use libvirt_operator.Api.CloudInit.{CloudInit}
use libvirt_operator.Action.Volume.State.{VolumeAction, cleanup_source}
use libvirt_operator.Action
use libvirt_operator.Controller.Base.{Machinery, Casts, Server, Result, host_calls}
use libvirt_operator.Controller.CloudInit.Image.{Bytes, Sources, source_files, create_iso}
use libvirt_operator.Controller.CloudInit.{Env}

module _ {W S : Type 0} (c : Client S) (k : Machinery) (casts : Casts) (v : Server CloudInit)
    (env : Env W) where
  -- The definition of a volume that is raw and has this many bytes.
  abbrev pub raw_volume : ℕ → StorageVolume → StorageVolume
  raw_volume bytes def = record def {
    capacity = some (record { unit = "bytes"; value = bytes });
    target = some (record { path = ""; format = some "raw" });
  }

  -- The image was made of the cloud-init's files with the size that they need, and at least 2048
  -- bytes; and its bytes were put into a new raw volume of that size.
  abbrev pub Uploads : CloudInit → VolumeAction → World S CloudInit → World S CloudInit → Type 0
  Uploads ci a w w' =
      (sources : Sources) × (n : ℕ) × (image : Bytes) × (xml : String) × (id : StorageVol)
      × (source_files env.yaml ci ≡ ok sources)
      × (2048 ≤ n)
      × (sources.size ≤ n)
      × ((n ≡ 2048) ⊎ (n ≡ sources.size))
      × (create_iso env.iso sources.files n ≡ ok image)
      × (c.marshal_volume (raw_volume (casts.to_uint64 n) a.def) ≡ ok xml)
      × ((c.storage_vol_create_xml a.pool xml w.host).0 ≡ ok id)
      × ((c.storage_vol_upload id image (c.storage_vol_create_xml a.pool xml w.host).1).0 ≡ ok tt)
      × (host_calls w'.log
          ≡ host_calls w.log ++ storage_vol_create_xml a.pool xml ∷ storage_vol_upload id ∷ [])

  -- A run that ends without an error, for a cloud-init whose image is not on the host.
  abbrev WhenOk :
      CloudInit → VolumeAction → World S CloudInit → Outcome Result × World S CloudInit → Type 0
  WhenOk ci a w (r, w') = (result : Result) → r ≡ ok result → Uploads ci a w w'
