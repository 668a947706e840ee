-- ===== src/Api/Validation.antt =====
-- Rules that the API server holds objects to, by the markers of auth_types.go and domain_types.go: an
-- object that breaks one is never stored.
use libvirt_operator.Prelude.{Bool, true, false, not, ◌&&◌, ◌||◌, is_some, is_set, if◌then◌else◌}
use libvirt_operator.Api.Domain.{DomainSpec}
use libvirt_operator.Api.Kinds.{AuthSpec, AuthType, ssh_auth, tls_auth, other_auth}

-- has(self.verify) && !self.verify
abbrev pub verify_disabled : AuthSpec → Bool
verify_disabled spec = is_some spec.verify && not (is_set spec.verify)

unfoldable pub ssh_rule : AuthSpec → Bool
ssh_rule spec = elim spec.type_ [
  | ssh_auth ↦
      is_some spec.username
      && ((is_some spec.known_hosts || verify_disabled spec) && not (is_some spec.ca))
  | _ ↦ true
]

-- In CEL the conjunction binds stronger than the disjunction.
unfoldable pub tls_rule : AuthSpec → Bool
tls_rule spec = elim spec.type_ [
  | tls_auth ↦
      is_some spec.ca
      || (verify_disabled spec && (not (is_some spec.username) && not (is_some spec.known_hosts)))
  | _ ↦ true
]

-- The enumeration of the types.
unfoldable pub type_rule : AuthType → Bool
type_rule (other_auth t) = false
type_rule _ = true

unfoldable pub valid_auth : AuthSpec → Bool
valid_auth spec = type_rule spec.type_ && (ssh_rule spec && tls_rule spec)

-- The rule of domain_types.go on secure boot.
unfoldable pub secure_boot_rule : DomainSpec → Bool
secure_boot_rule spec =
    if is_set spec.secure_boot then not (is_some spec.uefi) || is_set spec.uefi else true
