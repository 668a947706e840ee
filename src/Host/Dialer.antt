-- ===== src/Host/Dialer.antt =====
-- The dialers of go-libvirt that internal/controller/host.go makes and internal/store/host.go hands to
-- host.New, with their options.
use libvirt_operator.Prelude.{ℕ, String, Bool, List, Option}

-- A text by its code points.
abbrev pub Text : Type 0
Text = List ℕ

-- What NewSSH is told: the options that are there.
pub record SshOptions : Type 0 where
  pub key_file : String
  pub username : String
  pub accept_unknown : Bool
  pub known_hosts : Option String
  pub port : Option Text

pub record TlsOptions : Type 0 where
  pub pki_path : String
  pub insecure : Bool
  pub port : Option Text

-- The dialers of go-libvirt that the source makes, to an address.
pub data Dialer : Type 0 where
  ssh : String → SshOptions → Dialer
  tls : String → TlsOptions → Dialer
