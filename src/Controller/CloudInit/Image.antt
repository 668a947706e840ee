-- ===== src/Controller/CloudInit/Image.antt =====
-- The image of a cloud-init: cloudInitSourceFiles and cloudInitCreateISO of
-- internal/controller/cloudinit.go, and Marshal of internal/util/util.go.
pub mod Room
use libvirt_operator.Prelude.{
  ℕ, ◌+◌, ltb, String, List, [], ◌∷◌, ◌++◌, Option, none, some, length, if◌then◌else◌,
}
use libvirt_operator.Outcome.{Outcome, ok, err, ◌>>=◌, ◌>>◌}
use libvirt_operator.Api.CloudInit.Config.{CloudInitMetadata, CloudInitCloudConfig}
use libvirt_operator.Api.CloudInit.NetworkConfig.{CloudInitNetworkConfig}
use libvirt_operator.Api.CloudInit.{CloudInit}

abbrev pub Bytes : Type 0
Bytes = List ℕ

-- networkVersionedConfig and networkConfig
pub record NetworkVersionedConfig : Type 0 where
  pub version : ℕ
  pub config : CloudInitNetworkConfig

pub record NetworkConfig : Type 0 where
  pub network : NetworkVersionedConfig

-- The YAML encoder: what Encode writes of each kind of data, and what Close writes.
pub record Yaml : Type 0 where
  pub encode_metadata : Option CloudInitMetadata → Outcome Bytes
  pub encode_cloud_config : CloudInitCloudConfig → Outcome Bytes
  pub encode_network_config : NetworkConfig → Outcome Bytes
  pub close : Outcome Bytes

-- The functions of os and of the ISO 9660 library, on a state of the image's workspace. The image is
-- the bytes that its file has in the end. `order` is the order in which range visits the map of the
-- files, which Go leaves open.
pub record Iso (W : Type 0) : Type 0 where
  pub order : List (String × Bytes) → List (String × Bytes)
  pub create_temp : Outcome (Unit {0})
  pub create : ℕ → Outcome W
  pub create_file : String → W → Outcome W
  pub write : String → Bytes → W → Outcome W
  pub close : String → W → Outcome W
  pub finalize : W → Outcome Bytes

-- "#cloud-config" and a new line
abbrev cloud_config_header : Bytes
cloud_config_header =
    35 ∷ 99 ∷ 108 ∷ 111 ∷ 117 ∷ 100 ∷ 45 ∷ 99 ∷ 111 ∷ 110 ∷ 102 ∷ 105 ∷ 103 ∷ 10 ∷ []

-- The map of the files by their names, in the order in which they were put there, and their size
-- together. CreateISO visits the map in the order `order` of Iso.
pub record Sources : Type 0 where
  pub files : List (String × Bytes)
  pub size : ℕ

module _ (y : Yaml) where
  unfoldable pub marshal : Bytes → Outcome Bytes → Outcome Bytes
  marshal buffer encoded = encoded >>= (λ body. y.close >>= (λ rest. ok (buffer ++ body ++ rest)))

  unfoldable pub cloud_config : CloudInitCloudConfig → Outcome Bytes
  cloud_config config = marshal cloud_config_header (y.encode_cloud_config config)

  unfoldable pub network_config : CloudInitNetworkConfig → Outcome Bytes
  network_config config =
      marshal []
        (y.encode_network_config (record { network = record { version = 2; config = config } }))

  unfoldable pub add_file : String → Bytes → Sources → Sources
  add_file name content s = record {
    files = s.files ++ (name, content) ∷ [];
    size = s.size + length content;
  }

  -- A file that is there only if its data is.
  unfoldable pub add_optional :
      {A : Type 0} → String → (A → Outcome Bytes) → Option A → Sources → Outcome Sources
  add_optional name encode none s = ok s
  add_optional name encode (some a) s = encode a >>= (λ content. ok (add_file name content s))

  unfoldable pub source_files : CloudInit → Outcome Sources
  source_files ci =
      marshal [] (y.encode_metadata ci.spec.metadata)
      >>= (λ metadata.
          add_optional "user-data" cloud_config ci.spec.user_data
            (add_file "meta-data" metadata (record { files = []; size = 0 })))
      >>= add_optional "vendor-data" cloud_config ci.spec.vendor_data
      >>= add_optional "network-config" network_config ci.spec.network_config

-- The size that the volume gets.
unfoldable pub image_size : ℕ → ℕ
image_size size = if ltb size 2048 then 2048 else size

module _ {W : Type 0} (iso : Iso W) where
  unfoldable pub put_file : String × Bytes → W → Outcome W
  put_file (name, content) w = iso.create_file name w >>= iso.write name content >>= iso.close name

  unfoldable pub put_files : List (String × Bytes) → W → Outcome W
  put_files [] w = ok w
  put_files (f ∷ fs) w = put_file f w >>= put_files fs

  unfoldable pub create_iso : List (String × Bytes) → ℕ → Outcome Bytes
  create_iso files size =
      iso.create_temp
      >> (iso.create (36864 + size) >>= put_files (iso.order files) >>= iso.finalize)
