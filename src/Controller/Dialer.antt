-- ===== src/Controller/Dialer.antt =====
-- The dialer that Reconcile of internal/controller/host.go makes for a host and its auth.
pub mod Port
pub use libvirt_operator.Host.Dialer.{Text, SshOptions, TlsOptions, Dialer, ssh, tls}
use libvirt_operator.Prelude.{
  ℕ, ◌+◌, String, Bool, true, false, List, [], ◌∷◌, Option, none, some, length, ltb, ◌==◌,
  if◌then◌else◌, not,
}
use Prim.Native.String.{◌++◌ as str_append}
use libvirt_operator.Outcome.{Outcome, ok, err, panic, hang, Error, message, deref}
use libvirt_operator.Outcome
use libvirt_operator.Host.{Client}
use libvirt_operator.Host.Monad.{
  M, World, Attempt, success, failure, pure, raise, lift, query, attempt, ◌>>=◌, ◌>>◌,
}
use libvirt_operator.Api.{
  NamespacedName, finalizer, auth_label, host_label, probed, deletion_prevented, status_true,
  status_false, in_use, required, unmet_requirements, error, completed,
}
use libvirt_operator.Api.Kinds.{
  Auth, AuthType, tls_auth, ssh_auth, other_auth, Host, HostCapability, host_auth_ref,
}
use libvirt_operator.Store.Auth.{AuthEntry, AuthStore, lookup_auth}
use libvirt_operator.Controller.Auth.{verifies, private_key, known_hosts_file}

-- string(n) of Go: the one character with that number, or the replacement character.
unfoldable pub port_text : ℕ → Text
port_text n =
    if ltb 1114111 n
    then 65533 ∷ []
    else if ltb n 55296
    then n ∷ []
    else if ltb n 57344
    then 65533 ∷ []
    else n ∷ []

unfoldable pub port_option : Option ℕ → Option Text
port_option none = none
port_option (some n) = some (port_text n)

ssh_dialer : (String → String → String) → Host → Auth → AuthEntry → String → Dialer
ssh_dialer join h a entry username = ssh h.spec.address (record {
  key_file = join entry.path private_key;
  username = username;
  accept_unknown = not (verifies a.spec.verify);
  known_hosts = if verifies a.spec.verify then some (join entry.path known_hosts_file) else none;
  port = port_option h.spec.port;
})

tls_dialer : Host → Auth → AuthEntry → Dialer
tls_dialer h a entry = tls h.spec.address (record {
  pki_path = entry.path;
  insecure = not (verifies a.spec.verify);
  port = port_option h.spec.port;
})

by_type : (String → String → String) → Host → Auth → AuthEntry → AuthType → Outcome Dialer
by_type join h a entry ssh_auth =
    Outcome.◌>>=◌ (deref a.spec.username) (λ username. ok (ssh_dialer join h a entry username))
by_type join h a entry tls_auth = ok (tls_dialer h a entry)
by_type join h a entry (other_auth t) = err (message (str_append "unsupported auth type: " t))

unfoldable pub dialer_of : (String → String → String) → Host → Auth → AuthEntry → Outcome Dialer
unfolding by_type ssh_dialer tls_dialer
dialer_of join h a entry = by_type join h a entry a.spec.type_
