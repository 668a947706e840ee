-- ===== src/Tests/Webhook.antt =====
-- The theorems of Webhook: a second volume in the pool, and a cloud-init without metadata.
use libvirt_operator.Prelude.{String, false, [], ◌∷◌, ◌++◌, none, some, refl}
use libvirt_operator.Api.Kinds.{Volume}
use libvirt_operator.Webhook.{same_volume, same_domain}
use libvirt_operator.Webhook.Names.{Pairwise, VolumeApart, create_volume_valid-Pairwise}
use libvirt_operator.Api.CloudInit.{CloudInit}
use libvirt_operator.Webhook.{cloud_init_object}
use libvirt_operator.Tests.CloudInitController.{cloud_init}
use libvirt_operator.Tests.Fixtures.{meta_of}

abbrev volume : String → Volume
volume name = record {
  meta = meta_of name false;
  spec = record {
    name = name;
    generate_name = "";
    format = "raw";
    size = none;
    pool_ref = "pool";
    source = none;
    backing_store_ref = none;
  };
  conditions = [];
  status = record { pool = ""; host = "" };
}

create_volume_valid-Pairwise_example : Pairwise VolumeApart ((volume "a" ∷ []) ++ volume "b" ∷ [])
unfolding libvirt_operator.Webhook.create_volume_valid libvirt_operator.Webhook.is_volume_object
    same_volume
create_volume_valid-Pairwise_example =
    create_volume_valid-Pairwise (volume "a" ∷ []) (volume "b") (tt, tt) refl

-- The cloud-init with the metadata that it is given.
abbrev defaulted : CloudInit
defaulted =
    let ci = cloud_init false in
    let s = ci.spec in
    record ci {
      spec = record s { metadata = some (record { local_hostname = "seed"; instance_id = none }) };
    }
