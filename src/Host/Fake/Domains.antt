-- ===== src/Host/Fake/Domains.antt =====
-- The domains of the fake host.
use libvirt_operator.Prelude.{ℕ, String, [], ◌∷◌, ◌++◌, delete_func}
use libvirt_operator.Outcome.{Outcome, ok, err, message, ◌>>=◌}
use libvirt_operator.Libvirt.{Dev, DomainId, DomainState, running, shutoff}
use libvirt_operator.Host.Fake.State.{
  err_domain_not_exist, err_domain_already_exist, err_domain_already_running,
  err_domain_already_shutoff, Fake, Codec, domain_named, get_domain_by_name, unless_found,
  then_change, set_domain, unknown, booted, was_shut_down,
}

unfoldable pub domain_state : DomainId → Fake → Outcome DomainState
domain_state id f = get_domain_by_name id.name f >>= (λ d. ok d.state)

unfoldable pub domain_lookup : String → Fake → Outcome DomainId
domain_lookup name f = get_domain_by_name name f >>= (λ d. ok (record { name = d.def.name }))

-- Not done yet in the source.
unfoldable pub domain_block_resize : DomainId → Dev → ℕ → Fake → Outcome (Unit {0}) × Fake
domain_block_resize id dev n f = (ok tt, f)

unfoldable pub domain_create : DomainId → Fake → Outcome (Unit {0}) × Fake
domain_create id f =
    then_change (get_domain_by_name id.name f)
      (λ d. elim d.state [
        | running ↦ (err (message err_domain_already_running), f)
        | _ ↦ (ok tt, set_domain id.name (λ d. record d { state = running; reason = booted }) f)
      ])
      f

unfoldable pub domain_shutdown : DomainId → Fake → Outcome (Unit {0}) × Fake
domain_shutdown id f =
    then_change (get_domain_by_name id.name f)
      (λ d. elim d.state [
        | shutoff ↦ (err (message err_domain_already_shutoff), f)
        | _ ↦ (
          ok tt,
          set_domain id.name (λ d. record d { state = shutoff; reason = was_shut_down }) f,
        )
      ])
      f

unfoldable pub domain_undefine : DomainId → Fake → Outcome (Unit {0}) × Fake
domain_undefine id f = (ok tt, record f { domains = delete_func (domain_named id.name) f.domains })

module _ (x : Codec) where
  unfoldable pub domain_define_xml : String → Fake → Outcome DomainId × Fake
  domain_define_xml xml f =
      then_change
        (x.unmarshal_domain xml >>= (λ d.
          unless_found err_domain_already_exist err_domain_not_exist d
            (get_domain_by_name d.name f)))
        (λ d. (
          ok (record { name = d.name }),
          record f {
            domains = f.domains ++ record { state = shutoff; reason = unknown; def = d } ∷ [];
          },
        ))
        f

  unfoldable pub domain_xml : DomainId → Fake → Outcome String
  domain_xml id f = get_domain_by_name id.name f >>= (λ d. x.marshal_domain d.def)
