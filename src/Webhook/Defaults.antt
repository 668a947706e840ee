-- ===== src/Webhook/Defaults.antt =====
-- The defaulters of internal/webhook, with GenerateName of api/resource: a name where there is none, and
-- the metadata of a cloud-init. `random` is what rand.String(10) gives.
use libvirt_operator.Prelude.{
  String, Option, none, some, if◌then◌else◌, str_eq, eq_iff, ◌≡◌, ◌≢◌, arith,
}
use Prim.Native.String.{◌++◌ as str_append}
use libvirt_operator.Outcome.{Outcome, ok, err, message, ◌>>=◌}
use libvirt_operator.Api.Kinds.{Volume}
use libvirt_operator.Api.CloudInit.{CloudInit}
use libvirt_operator.Api.CloudInit.Config.{CloudInitMetadata}
use libvirt_operator.Api.Domain.{Domain}
use libvirt_operator.Webhook.{
  Object, volume_object, domain_object, cloud_init_object, other_object, generate_name,
}

unfoldable pub generated_name : String → String → String
generated_name random base = if str_eq base "" then "" else str_append base random

abbrev named_volume : String → Volume → Volume
named_volume random v =
    let s = v.spec in
    record v {
      spec = record s { name = generate_name (generated_name random s.generate_name) s.name };
    }

abbrev named_domain : String → Domain → Domain
named_domain random d =
    let s = d.spec in
    record d {
      spec = record s { name = generate_name (generated_name random s.generate_name) s.name };
    }

abbrev named_cloud_init : String → CloudInit → CloudInit
named_cloud_init random ci =
    let s = ci.spec in
    record ci {
      spec = record s { name = generate_name (generated_name random s.generate_name) s.name };
    }

-- generateName, which is all that the defaulters of volumes and domains do.
unfoldable pub with_name : String → Object → Outcome Object
with_name random (volume_object v) = ok (volume_object (named_volume random v))
with_name random (domain_object d) = ok (domain_object (named_domain random d))
with_name random (cloud_init_object ci) = ok (cloud_init_object (named_cloud_init random ci))
with_name random other_object =
    err (message "object does not support external resource name generation")

metadata_for : String → Option CloudInitMetadata → Option CloudInitMetadata
metadata_for name none = some (record { local_hostname = name; instance_id = none })
metadata_for name (some m) = some m

unfoldable pub with_metadata : Object → Outcome Object
unfolding metadata_for
with_metadata (cloud_init_object ci) =
    let s = ci.spec in
    ok (
      cloud_init_object
        (record ci { spec = record s { metadata = metadata_for s.name s.metadata } }))
with_metadata _ = err (message "object is not of CloudInit type")

-- Default of CloudInitDefaulter.
unfoldable pub default_cloud_init : String → Object → Outcome Object
default_cloud_init random obj = with_name random obj >>= with_metadata

-- A second run of the defaulter, whatever name it would generate, leaves a cloud-init as the first run
-- made it, if that has a name then; and it has metadata then.
pub default_cloud_init_idem :
    (random again : String) (ci ci' : CloudInit)
    → default_cloud_init random (cloud_init_object ci) ≡ ok (cloud_init_object ci')
    → ci'.spec.name ≢ ""
    → (default_cloud_init again (cloud_init_object ci') ≡ ok (cloud_init_object ci'))
      × (ci'.spec.metadata ≢ none)
unfolding default_cloud_init with_name with_metadata generate_name metadata_for
default_cloud_init_idem random again ci ci' first has_name =
    (ground (arith, first, has_name, eq_iff ci'.spec.name ""), ground (arith, first))
