-- ===== src/Controller/Domain/Creation/Steps.antt =====
-- The steps of a creation call no host, keep the spec, and tell what they have checked.
use libvirt_operator.Prelude.{ℕ, String, ◌≡◌, refl, arith, ◌∙◌, sym}
use libvirt_operator.Outcome.{Outcome, ok}
use libvirt_operator.Host.{Client}
use libvirt_operator.Host.Monad.{World, M, lift, lift_cases, bind_cases, ◌>>=◌}
use libvirt_operator.Api.{ready, status_false, unmet_requirements}
use libvirt_operator.Api.Domain.{Domain}
use libvirt_operator.Action.Domain.State.{DomainAction}
use libvirt_operator.Controller.Base.{
  Machinery, Casts, Server, host_calls, ensure_label, write_object,
}
use libvirt_operator.Controller.Writes.{host_calls-set_status_condition, host_calls-ensure_label}
use libvirt_operator.Controller.Domain.{
  Env, Progress, waiting, going, continue, wait_for, go_labelled,
}

module _ {S : Type 0} (c : Client S) (k : Machinery) (casts : Casts) (v : Server Domain) (env : Env)
    (rounds : ℕ) where
  -- A step that does not call the host; if it goes on, it keeps the spec and the namespace of the
  -- object, and something is known.
  abbrev pub Passed : Domain → Type 0 → World S Domain → Outcome Progress × World S Domain → Type 0
  Passed d Known w (r, w') =
      (host_calls w'.log ≡ host_calls w.log)
      × ((d' : Domain) (a' : DomainAction)
          → r ≡ ok (going d' a')
          → (d'.spec ≡ d.spec) × (d'.meta.namespace ≡ d.meta.namespace) × Known)

  go_labelled-Passed :
      (Known : Type 0) (known : Known) (key value : String) (d : Domain) (a : DomainAction)
      (w : World S Domain)
      → Passed d Known w (go_labelled c k casts v env rounds key value d a w)
  unfolding go_labelled ensure_label write_object
  go_labelled-Passed Known known key value d a w = (
    ground (arith, host_calls-ensure_label k v key value d w),
    λ d' a' h. (ground arith, ground arith, known),
  )

  pub wait_for-Passed :
      (Known : Type 0) (text : String) (d : Domain) (w : World S Domain)
      → Passed d Known w (wait_for c k casts v env rounds text d w)
  unfolding wait_for
  wait_for-Passed Known text d w = (
    ground
        (arith, host_calls-set_status_condition k v d ready status_false text unmet_requirements w),
    λ d' a' h. absurd (ground arith),
  )

  -- The end of each step: an answer of the host or of the API, and the label.
  pub labelled-Passed :
      (Known : Type 0) (known : Known) (answer : Outcome DomainAction) (key value : String)
      (d : Domain) (w : World S Domain)
      → Passed d Known w ((lift answer >>= go_labelled c k casts v env rounds key value d) w)
  labelled-Passed Known known answer key value d w =
      lift_cases (Passed d Known w) answer (go_labelled c k casts v env rounds key value d) w
        (λ stop no. (refl, λ d' a' h. absurd (no (going d' a') h)))
        (λ a _. go_labelled-Passed Known known key value d a w)

  chain_at :
      (A B : Type 0) (next : Domain → DomainAction → M S Domain Progress) (d : Domain)
      (w w' : World S Domain) (p : Progress)
      → Passed d A w (ok p, w')
      → ((d' : Domain) (a' : DomainAction)
          → d'.spec ≡ d.spec
          → d'.meta.namespace ≡ d.meta.namespace
          → Passed d' B w' (next d' a' w'))
      → Passed d (A × B) w (continue c k casts v env rounds next p w')
  unfolding continue
  chain_at A B next d w w' waiting (same, known) step = (same, λ d' a' h. cc)
  chain_at A B next d w w' (going d' a') (same, known) step =
      let (spec, namespace, a_known) = known d' a' refl in
      let (same', known') = step d' a' spec namespace in
      (
        same' ∙ same,
        λ d'' a'' h.
            let (spec', namespace', b_known) = known' d'' a'' h in
            (spec' ∙ spec, namespace' ∙ namespace, (a_known, b_known)),
      )

  -- A step, and the next one where it goes on.
  pub chain-Passed :
      (A B : Type 0) (m : M S Domain Progress) (next : Domain → DomainAction → M S Domain Progress)
      (d : Domain) (w : World S Domain)
      → Passed d A w (m w)
      → ((d' : Domain) (a' : DomainAction) (w' : World S Domain)
          → d'.spec ≡ d.spec
          → d'.meta.namespace ≡ d.meta.namespace
          → Passed d' B w' (next d' a' w'))
      → Passed d (A × B) w ((m >>= continue c k casts v env rounds next) w)
  chain-Passed A B m next d w first step =
      bind_cases (Passed d (A × B) w) m (continue c k casts v env rounds next) w
        (λ stop no. (first.0, λ d' a' h. absurd (no (going d' a') h)))
        (λ p e.
          chain_at A B next d w (m w).1 p (rw (sym e) first)
            (λ d' a' spec namespace. step d' a' (m w).1 spec namespace))
