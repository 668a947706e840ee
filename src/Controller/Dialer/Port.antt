-- ===== src/Controller/Dialer/Port.antt =====
-- The port that a dialer is given.
use libvirt_operator.Prelude.{
  ℕ, ◌+◌, ◌*◌, ◌-◌, String, [], ◌∷◌, Option, none, some, ◌≡◌, ◌≢◌, arith, ltb, if◌then◌else◌,
}
use libvirt_operator.Outcome.{ok}
use libvirt_operator.Api.Kinds.{Host, Auth}
use libvirt_operator.Store.Auth.{AuthEntry}
use libvirt_operator.Controller.Dialer.{
  Text, Dialer, ssh, tls, dialer_of, port_text, port_option, ssh_dialer, tls_dialer, by_type,
}

-- The number that decimal digits write, as a service's port is read.
abbrev digits_from : ℕ → Text → Option ℕ
digits_from n [] = some n
digits_from n (d ∷ ds) =
    let rest = digits_from (10 * n + (d - 48)) ds in
    if ltb d 48 then none else if ltb 57 d then none else rest

abbrev pub read_port : Text → Option ℕ
read_port [] = none
read_port (d ∷ ds) = digits_from 0 (d ∷ ds)

abbrev pub dialer_port : Dialer → Option Text
dialer_port (ssh address options) = options.port
dialer_port (tls address options) = options.port

port_text-misread : (n : ℕ) → read_port (port_text n) ≢ some n
unfolding port_text
port_text-misread n h = ground arith

-- If a host has a port and a dialer is made for it, then the text of the dialer's port is not the
-- number of that port in decimal digits.
pub dialer_of-misread :
    (join : String → String → String) (h : Host) (a : Auth) (entry : AuthEntry) (port : ℕ)
    (dialer : Dialer)
    → h.spec.port ≡ some port
    → dialer_of join h a entry ≡ ok dialer
    → (text : Text) × (dialer_port dialer ≡ some text) × (read_port text ≢ some port)
unfolding dialer_of by_type ssh_dialer tls_dialer port_option
dialer_of-misread join h a entry port dialer wanted made =
    (port_text port, ground (arith, wanted, made), port_text-misread port)
