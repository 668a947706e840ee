-- ===== src/Webhook.antt =====
-- internal/webhook: the names of volumes, domains and cloud-inits. resource.GenerateName is given by
-- its result, and the list of the objects by the API server.
pub mod Names
pub mod Defaults
use libvirt_operator.Prelude.{
  String, Bool, true, false, ◌&&◌, List, Option, none, some, if◌then◌else◌, str_eq, any, is_some,
}
use libvirt_operator.Outcome.{Outcome, ok, err, message, ◌>>=◌}
use libvirt_operator.Api.Kinds.{Volume}
use libvirt_operator.Api.CloudInit.{CloudInit}
use libvirt_operator.Api.Domain.{Domain}

-- runtime.Object, by the kinds that the webhooks are registered for.
pub data Object : Type 0 where
  volume_object : Volume → Object
  domain_object : Domain → Object
  cloud_init_object : CloudInit → Object
  other_object : Object

unfoldable pub is_volume_object : Object → Outcome Volume
is_volume_object (volume_object v) = ok v
is_volume_object _ = err (message "not a volume object")

unfoldable pub is_domain_object : Object → Outcome Domain
is_domain_object (domain_object d) = ok d
is_domain_object _ = err (message "not a domain object")

unfoldable pub is_cloud_init_object : Object → Outcome CloudInit
is_cloud_init_object (cloud_init_object ci) = ok ci
is_cloud_init_object _ = err (message "not a cloud-init object")

unfoldable pub same_volume : Volume → Volume → Bool
same_volume u v = str_eq u.spec.name v.spec.name && str_eq u.spec.pool_ref v.spec.pool_ref

unfoldable pub same_domain : Domain → Domain → Bool
same_domain d e = str_eq d.spec.name e.spec.name && str_eq d.spec.host_ref e.spec.host_ref

unfoldable pub same_cloud_init : CloudInit → CloudInit → Bool
same_cloud_init c d = str_eq c.spec.name d.spec.name && str_eq c.spec.pool_ref d.spec.pool_ref

-- ValidateCreate of the three validators.
unfoldable pub create_volume_valid : Outcome (List Volume) → Object → Outcome (Unit {0})
create_volume_valid listed obj = do
  volume ← is_volume_object obj
  volumes ← listed
  if any (λ v. same_volume v volume) volumes
      then err (message "name already in use in pool")
      else ok tt

unfoldable pub create_domain_valid : Outcome (List Domain) → Object → Outcome (Unit {0})
create_domain_valid listed obj = do
  domain ← is_domain_object obj
  domains ← listed
  if any (λ d. same_domain d domain) domains
      then err (message "name already in use on host")
      else ok tt

unfoldable pub create_cloud_init_valid : Outcome (List CloudInit) → Object → Outcome (Unit {0})
create_cloud_init_valid listed obj = do
  cloud_init ← is_cloud_init_object obj
  cloud_inits ← listed
  if any (λ ci. same_cloud_init ci cloud_init) cloud_inits
      then err (message "name already in use in pool")
      else ok tt

-- ValidateUpdate and ValidateDelete look at the kind only.
unfoldable pub update_volume_valid : Object → Outcome (Unit {0})
update_volume_valid obj = do _ ← is_volume_object obj; ok tt

unfoldable pub update_domain_valid : Object → Outcome (Unit {0})
update_domain_valid obj = do _ ← is_domain_object obj; ok tt

unfoldable pub update_cloud_init_valid : Object → Outcome (Unit {0})
update_cloud_init_valid obj = do _ ← is_cloud_init_object obj; ok tt

-- The name that an object keeps, given the one that would be generated.
unfoldable pub generate_name : String → String → String
generate_name generated name = if str_eq name "" then generated else name
