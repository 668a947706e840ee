-- ===== src/Host/Fake/Lifecycle.antt =====
-- A domain on the fake host from its definition to its removal, by the actions of
-- internal/action/domain.go.
use libvirt_operator.Prelude.{
  String, Bool, true, List, [], ◌∷◌, ◌++◌, none, some, ◌≡◌, refl, arith, find, delete_func, eq_refl,
  ap, ◌∙◌,
}
use libvirt_operator.Outcome.{Error, ok, err, err_no_domain}
use libvirt_operator.Libvirt.{DomainDef, DomainId, DomainState, running, shutoff}
use libvirt_operator.Host.Monad.{World, M, bind_ok, ◌>>=◌, ◌>>◌}
use libvirt_operator.Action.Domain.State.{DomainAction}
use libvirt_operator.Action.Domain.Shutdown.{shutdown, shutdown_in_time, after_sleeps}
use libvirt_operator.Action
use libvirt_operator.Host.Fake.State.{
  Fake, Codec, StateReason, unknown, booted, was_shut_down, domain_named, get_domain_by_name,
  update_first, err_domain_not_exist,
}
use libvirt_operator.Host.Fake.Domains.{
  domain_state, domain_create, domain_shutdown, domain_undefine, domain_define_xml,
}
use libvirt_operator.Host.Fake.Connection.{fake_client}
use libvirt_operator.Host.Fake.RoundTrip.{find-append, or_error-err}

module _ {A : Type 0} (p : A → Bool) where
  update_first-last :
      (g : A → A) (xs : List A) (y : A)
      → find p xs ≡ none
      → p y ≡ true
      → update_first p g (xs ++ y ∷ []) ≡ xs ++ g y ∷ []
  update_first-last g [] y h t = ground (arith, t)
  update_first-last g (x ∷ xs) y h t = ground (arith, update_first-last g xs y, h, t)

  delete_func-last :
      (xs : List A) (y : A) → find p xs ≡ none → p y ≡ true → delete_func p (xs ++ y ∷ []) ≡ xs
  delete_func-last [] y h t = ground (arith, t)
  delete_func-last (x ∷ xs) y h t = ground (arith, delete_func-last xs y, h, t)

-- The host with one more domain.
abbrev pub with_new : DomainDef → DomainState → StateReason → Fake → Fake
with_new def state reason f = record f {
  domains = f.domains ++ record { state = state; reason = reason; def = def } ∷ [];
}

abbrev id_of : DomainDef → DomainId
id_of def = record { name = def.name }

module _ (def : DomainDef) (f : Fake) (absent : find (domain_named def.name) f.domains ≡ none) where
  get_domain-new :
      (s : DomainState) (r : StateReason)
      → get_domain_by_name def.name (with_new def s r f)
        ≡ ok (record { state = s; reason = r; def = def })
  unfolding get_domain_by_name
  get_domain-new s r = ground (
    arith,
    find-append (domain_named def.name) f.domains (record { state = s; reason = r; def = def })
        absent (eq_refl def.name),
  )

  state_of :
      (s : DomainState) (r : StateReason) (g : Fake)
      → g ≡ with_new def s r f
      → domain_state (id_of def) g ≡ ok s
  unfolding domain_state
  state_of s r g h = ground (arith, h, get_domain-new s r)

  domain_create-new :
      (r : StateReason)
      → domain_create (id_of def) (with_new def shutoff r f)
        ≡ (ok tt, with_new def running booted f)
  unfolding domain_create
  domain_create-new r = ground (
    arith,
    get_domain-new shutoff r,
    update_first-last (domain_named def.name) (λ d. record d { state = running; reason = booted })
        f.domains (record { state = shutoff; reason = r; def = def }) absent (eq_refl def.name),
  )

  domain_shutdown-new :
      (r : StateReason)
      → domain_shutdown (id_of def) (with_new def running r f)
        ≡ (ok tt, with_new def shutoff was_shut_down f)
  unfolding domain_shutdown
  domain_shutdown-new r = ground (
    arith,
    get_domain-new running r,
    update_first-last (domain_named def.name)
        (λ d. record d { state = shutoff; reason = was_shut_down }) f.domains
        (record { state = running; reason = r; def = def }) absent (eq_refl def.name),
  )

  domain_undefine-new :
      (s : DomainState) (r : StateReason)
      → domain_undefine (id_of def) (with_new def s r f) ≡ (ok tt, f)
  unfolding domain_undefine
  domain_undefine-new s r = ground (
    arith,
    delete_func-last (domain_named def.name) f.domains (record { state = s; reason = r; def = def })
        absent (eq_refl def.name),
  )

module _ (x : Codec) (def : DomainDef) (f : Fake)
    (absent : find (domain_named def.name) f.domains ≡ none) where
  domain_define-new :
      (xml : String)
      → x.unmarshal_domain xml ≡ ok def
      → domain_define_xml x xml f ≡ (ok (id_of def), with_new def shutoff unknown f)
  unfolding domain_define_xml get_domain_by_name
  domain_define-new xml known = ground (arith, known, absent, eq_refl err_domain_not_exist)

abbrev after_start : {O : Type 0} → Codec → DomainAction → M Fake O (Unit {0})
after_start x b = shutdown (fake_client x) b >> Action.Domain.State.delete (fake_client x) b

abbrev after_create : {O : Type 0} → Codec → DomainAction → M Fake O (Unit {0})
after_create x b = Action.Domain.State.start (fake_client x) b >> after_start x b

-- A domain is defined, started, shut down and deleted.
abbrev pub whole_life : {O : Type 0} → Codec → DomainAction → M Fake O (Unit {0})
whole_life x a = Action.Domain.State.create (fake_client x) a >>= after_create x

-- The action with the handle of its domain.
abbrev pub defined : DomainAction → DomainAction
defined a = record a { id = some (id_of a.def) }

module _ {O : Type 0} (x : Codec) (a : DomainAction) where
  module _ (f : Fake) (absent : find (domain_named a.def.name) f.domains ≡ none)
      (w : World Fake O) where
    create_lem :
        (xml : String)
        → w.host ≡ f
        → x.marshal_domain a.def ≡ ok xml
        → x.unmarshal_domain xml ≡ ok a.def
        → ((Action.Domain.State.create (fake_client x) a w).0 ≡ ok (defined a))
          × ((Action.Domain.State.create (fake_client x) a w).1.host
              ≡ with_new a.def shutoff unknown f)
    unfolding Action.Domain.State.create fake_client
    create_lem xml at_f written known =
        let made = domain_define-new x a.def f absent xml known in
        (ground (arith, at_f, written, made), ground (arith, at_f, written, made))

    start_lem :
        w.host ≡ with_new a.def shutoff unknown f
        → ((Action.Domain.State.start (fake_client x) (defined a) w).0 ≡ ok tt)
          × ((Action.Domain.State.start (fake_client x) (defined a) w).1.host
              ≡ with_new a.def running booted f)
    unfolding Action.Domain.State.start fake_client
    start_lem at_new =
        let begun = domain_create-new a.def f absent unknown in
        (ground (arith, at_new, begun), ground (arith, at_new, begun))

    shutdown_lem :
        w.host ≡ with_new a.def running booted f
        → ((shutdown (fake_client x) (defined a) w).0 ≡ ok tt)
          × ((shutdown (fake_client x) (defined a) w).1.host
              ≡ with_new a.def shutoff was_shut_down f)
    unfolding fake_client after_sleeps
    shutdown_lem at_running =
        let off = with_new a.def shutoff was_shut_down f in
        let run =
          shutdown_in_time (fake_client x) (defined a) (id_of a.def) off 0 w refl
            (ap (domain_shutdown (id_of a.def)) at_running
              ∙ domain_shutdown-new a.def f absent booted)
            (omega arith) (λ j h. absurd (omega (arith, h)))
            (shutoff, state_of a.def f absent shutoff was_shut_down off refl, refl) in
        (ap (λ r. r.0) run, ap (λ r. r.1.host) run)

    delete_lem :
        w.host ≡ with_new a.def shutoff was_shut_down f
        → ((Action.Domain.State.delete (fake_client x) (defined a) w).0 ≡ ok tt)
          × ((Action.Domain.State.delete (fake_client x) (defined a) w).1.host ≡ f)
    unfolding Action.Domain.State.delete fake_client
    delete_lem at_off =
        let gone = domain_undefine-new a.def f absent shutoff was_shut_down in
        (ground (arith, at_off, gone), ground (arith, at_off, gone))

  -- If no domain of the name is on the fake host, and the description of the action's domain is read
  -- back as it was written, then each of Create, Start, Shutdown and Delete succeeds, one after the
  -- other. After Create the host reports the domain off, after Start running, and after Delete the
  -- host is as it was at first.
  pub whole_life_lem :
      (xml : String) (e : Error) (w : World Fake O)
      → get_domain_by_name a.def.name w.host ≡ err e
      → x.marshal_domain a.def ≡ ok xml
      → x.unmarshal_domain xml ≡ ok a.def
      → ((Action.Domain.State.create (fake_client x) a w).0 ≡ ok (defined a))
        × (domain_state (id_of a.def) (Action.Domain.State.create (fake_client x) a w).1.host
            ≡ ok shutoff)
        × (domain_state
              (id_of a.def)
              (Action.Domain.State.start
                (fake_client x)
                (defined a)
                (Action.Domain.State.create (fake_client x) a w).1).1.host
            ≡ ok running)
        × ((whole_life x a w).0 ≡ ok tt)
        × ((whole_life x a w).1.host ≡ w.host)
  unfolding get_domain_by_name
  whole_life_lem xml e w missing written known =
      let absent =
        or_error-err err_no_domain err_domain_not_exist
          (find (domain_named a.def.name) w.host.domains) e missing in
      let f = w.host in
      let (created, h1) = create_lem f absent w xml refl written known in
      let w1 = (Action.Domain.State.create (fake_client x) a w).1 in
      let (begun, h2) = start_lem f absent w1 h1 in
      let w2 = (Action.Domain.State.start (fake_client x) (defined a) w1).1 in
      let (stopped, h3) = shutdown_lem f absent w2 h2 in
      let w3 = (shutdown (fake_client x) (defined a) w2).1 in
      let (gone, h4) = delete_lem f absent w3 h3 in
      let run =
        bind_ok (Action.Domain.State.create (fake_client x) a) (after_create x) w (defined a)
          created
        ∙ bind_ok (Action.Domain.State.start (fake_client x) (defined a))
            (λ _. after_start x (defined a)) w1 tt begun
        ∙ bind_ok (shutdown (fake_client x) (defined a))
            (λ _. Action.Domain.State.delete (fake_client x) (defined a)) w2 tt stopped in
      (
        created,
        state_of a.def f absent shutoff unknown w1.host h1,
        state_of a.def f absent running booted w2.host h2,
        ap (λ r. r.0) run ∙ gone,
        ap (λ r. r.1.host) run ∙ h4,
      )
