-- ===== src/Action/Domain/State.antt =====
-- DomainAction of internal/action/domain.go: NewDomainAction, State, Create, Start and Delete.
use libvirt_operator.Prelude.{
  String, Bool, true, false, [], ◌∷◌, Option, none, some, is_some, if◌then◌else◌,
}
use libvirt_operator.Outcome.{deref, has_code, err_no_domain}
use libvirt_operator.Libvirt.{DomainId, DomainState, shutoff, other_state, DomainDef}
use libvirt_operator.Host.{Client, domain_define_xml, domain_create, domain_undefine}
use libvirt_operator.Host.Monad.{
  M, pure, raise, lift, query, change, attempt, success, failure, ◌>>=◌,
}

pub record DomainAction : Type 0 where
  pub name : String
  pub id : Option DomainId
  pub def : DomainDef
  pub state : DomainState

-- The definition of a domain that does not exist yet.
unfoldable pub default_def : String → DomainDef
default_def name = record {
  type_ = "kvm";
  name = name;
  os = some (record {
    type_ = "hvm";
    machine = "q35";
    boot_devices = "hd" ∷ [];
    firmware = "";
    loader_secure = none;
  });
  acpi = true;
  apic = true;
  vcpu = some (record { value = 0; placement = "" });
  memory = some (record { value = 0; unit = "" });
  cpu = none;
  numatune = none;
  devices = some (record {
    controllers = record { type_ = "scsi"; model = "virtio-scsi"; queues = none } ∷ [];
    disks = [];
    interfaces = [];
    hostdevs = [];
    rngs = "/dev/urandom" ∷ [];
    consoles = "virtio" ∷ [];
    channels = "org.qemu.guest_agent.0" ∷ [];
    serials = 1;
  });
  sec_labels = "dynamic" ∷ [];
}

abbrev pub is_shutoff : DomainState → Bool
is_shutoff shutoff = true
is_shutoff _ = false

module _ {S O : Type 0} (c : Client S) where
  existing_domain : String → DomainId → M S O DomainAction
  existing_domain name id = do
    state ← query (c.domain_get_state id)
    xml ← query (c.domain_get_xml_desc id)
    def ← lift (c.unmarshal_domain xml)
    pure (record { name = name; id = some id; def = def; state = state })

  unfoldable pub new_domain_action : String → M S O DomainAction
  unfolding existing_domain
  new_domain_action name = do
    found ← attempt (query (c.domain_lookup_by_name name))
    elim found [
      | success id ↦ existing_domain name id
      | failure e ↦
          if has_code err_no_domain e
          then pure (record { name = name; id = none; def = default_def name; state = other_state })
          else raise e
    ]

  -- The handle is set even where DomainDefineXML fails, but the error ends the caller's run.
  unfoldable pub create : DomainAction → M S O DomainAction
  create a = do
    xml ← lift (c.marshal_domain a.def)
    id ← change (domain_define_xml xml) (c.domain_define_xml xml)
    pure (record a { id = some id })

  unfoldable pub start : DomainAction → M S O (Unit {0})
  start a = do id ← lift (deref a.id); change (domain_create id) (c.domain_create id)

  unfoldable pub delete : DomainAction → M S O (Unit {0})
  delete a = do id ← lift (deref a.id); change (domain_undefine id) (c.domain_undefine_flags id)

-- (exists, shutoff)
unfoldable pub state : DomainAction → Bool × Bool
state a = (is_some a.id, is_shutoff a.state)
