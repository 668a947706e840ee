-- ===== src/Controller/Auth/Validated.antt =====
-- What the rules of the API server save the controllers of auths and hosts from.
use libvirt_operator.Prelude.{String, true, ◌≡◌, arith}
use libvirt_operator.Outcome.{Returns}
use libvirt_operator.Api.Kinds.{Auth, Host, Secret}
use libvirt_operator.Api.Validation.{valid_auth, ssh_rule, tls_rule, type_rule}
use libvirt_operator.Store.Auth.{AuthEntry}
use libvirt_operator.Controller.Auth.{auth_files, files_by_type, ssh_files, tls_files, verify_file}
use libvirt_operator.Controller.Dialer.{dialer_of}

-- The API server stores an auth only with a type that the controllers know, and with the texts that they
-- read for that type: for such an auth, collecting the files for the store and making the dialer of a
-- host never dereference nil, whatever the secret, the host and the entry are.
pub auth_files-Returns :
    (join : String → String → String) (a : Auth) (secret : Secret) (h : Host) (entry : AuthEntry)
    → valid_auth a.spec ≡ true
    → Returns (auth_files a secret) × Returns (dialer_of join h a entry)
unfolding valid_auth ssh_rule tls_rule type_rule auth_files files_by_type ssh_files tls_files
    verify_file dialer_of
auth_files-Returns join a secret h entry valid = (ground (arith, valid), ground (arith, valid))
