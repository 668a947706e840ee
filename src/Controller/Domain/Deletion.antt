-- ===== src/Controller/Domain/Deletion.antt =====
-- What a run does to a domain that is being deleted: it is undefined only when it is off.
use libvirt_operator.Prelude.{
  ℕ, zero, suc, Bool, true, false, List, [], ◌∷◌, ◌++◌, none, some, ◌≡◌, ◌≢◌, refl, arith, ◌⊎◌, inl,
  inr, ◌≤◌, ◌<◌, Option-cases,
}
use mathlib.Core.List.{append-nil}
use libvirt_operator.Outcome.{ok}
use libvirt_operator.Libvirt.{DomainId}
use libvirt_operator.Host.{Client, domain_undefine, domain_shutdown}
use libvirt_operator.Host.Monad.{World, Event, host_call, update}
use libvirt_operator.Api.{finalizer}
use libvirt_operator.Api.Kinds.{Host}
use libvirt_operator.Api.Domain.{Domain}
use libvirt_operator.Action
use libvirt_operator.Action.Domain.State.{DomainAction, is_shutoff}
use libvirt_operator.Action.Domain.Shutdown.{
  shutdown, wait_shutoff, max_retries, after_sleeps, Reports, shutdown_in_time,
}
use libvirt_operator.Controller.Base.{
  Machinery, Casts, Server, done, updates, updates-append, drop_finalizer,
}
use libvirt_operator.Controller.Probed.Release.{released}
use libvirt_operator.Controller.Domain.{Env}
use libvirt_operator.Controller.Domain.Reconcile.{undefine, delete_stage, act}

module _ {S : Type 0} (c : Client S) where
  wait_shutoff_log :
      (id : DomainId) (left : ℕ) (w : World S Domain) → (wait_shutoff c id left w).1.log ≡ w.log
  unfolding wait_shutoff
  wait_shutoff_log id zero w = ground arith
  wait_shutoff_log id (suc left) w =
      ground (arith, wait_shutoff_log id left (record { host = c.sleep w.host; log = w.log }))

  updates-shutdown :
      (a : DomainAction) (w : World S Domain) → updates (shutdown c a w).1.log ≡ updates w.log
  unfolding shutdown
  updates-shutdown a w = elim (Option-cases a.id) [
    | inl e ↦ ground (arith, e)
    | inr (id, e) ↦ ground (
      arith,
      e,
      updates-append w.log (host_call (domain_shutdown id) ∷ []),
      append-nil (updates w.log),
      wait_shutoff_log id 30 (record {
        host = (c.domain_shutdown id w.host).1;
        log = w.log ++ host_call (domain_shutdown id) ∷ [];
      }),
    )
  ]

module _ {S : Type 0} (c : Client S) (k : Machinery) (casts : Casts) (v : Server Domain) (env : Env)
    (rounds : ℕ) where
  -- A run for a domain that is being deleted and is not off does nothing after a shutdown that did not
  -- succeed: the domain is not undefined, the finalizer stays, and the run does not succeed either.
  pub act_keeps_running :
      (host : Host) (d : Domain) (a : DomainAction) (id : DomainId) (w : World S Domain)
      → d.meta.deleting ≡ true
      → k.contains_finalizer d.meta.finalizers finalizer ≡ true
      → a.id ≡ some id
      → is_shutoff a.state ≡ false
      → (shutdown c a w).0 ≢ ok tt
      → ((act c k casts v env rounds host d a w).1 ≡ (shutdown c a w).1)
        × ((r : _) → (act c k casts v env rounds host d a w).0 ≢ ok r)
  unfolding act delete_stage undefine Action.Domain.State.state
  act_keeps_running host d a id w del fin exists on failed = (ground arith, λ r h. ground arith)

  -- A run for a domain that is being deleted and holds the finalizer, where the domain exists on
  -- the host and was not off when it was looked up; where the host takes the request to shut it
  -- down, reports states other than off at each look before some second, which is the 30th at the
  -- latest, and off at that one, and then agrees to undefine it; and where RemoveFinalizer leaves
  -- a list without the finalizer and the API server takes the update: the run ends without an
  -- error, and does three things in this order. It asks for the shutdown, undefines the domain,
  -- and updates the object to the one that differs only in its finalizers and does not hold the
  -- operator's.
  pub act_releases :
      (host : Host) (d : Domain) (a : DomainAction) (id : DomainId) (n : ℕ) (s' : S)
      (w : World S Domain)
      → d.meta.deleting ≡ true
      → k.contains_finalizer d.meta.finalizers finalizer ≡ true
      → k.contains_finalizer (k.remove_finalizer d.meta.finalizers finalizer) finalizer ≡ false
      → a.id ≡ some id
      → is_shutoff a.state ≡ false
      → c.domain_shutdown id w.host ≡ (ok tt, s')
      → n ≤ max_retries
      → ((j : ℕ) → j < n → Reports c id false (after_sleeps c j s'))
      → Reports c id true (after_sleeps c n s')
      → (c.domain_undefine_flags id (after_sleeps c n s')).0 ≡ ok tt
      → ((log : List (Event Domain)) → v.update_answer log (released k d) ≡ ok tt)
      → let run = act c k casts v env rounds host d a w in
        (run.0 ≡ ok done)
        × ((d' : Domain) × (d' ≡ released k d)
            × (k.contains_finalizer d'.meta.finalizers finalizer ≡ false)
            × (run.1.log
                ≡ ((w.log ++ host_call (domain_shutdown id) ∷ [])
                    ++ host_call (domain_undefine id) ∷ [])
                  ++ update d' ∷ []))
  unfolding act delete_stage undefine Action.Domain.State.state Action.Domain.State.delete
      drop_finalizer
  act_releases host d a id n s' w del fin gone exists on taken soon pending off agreed answered =
      let down = shutdown_in_time {O = Domain} c a id s' n w exists taken soon pending off in
      (
        ground (
          arith,
          down,
          exists,
          on,
          agreed,
          answered (
              (w.log ++ host_call (domain_shutdown id) ∷ [])
              ++ host_call (domain_undefine id) ∷ []),
        ),
        (released k d, refl, gone, ground (arith, down, exists, on, agreed)),
      )

  updates-undefine :
      (exists shutoff : Bool) (a : DomainAction) (w : World S Domain)
      → updates (undefine c k casts v env rounds exists shutoff a w).1.log ≡ updates w.log
  unfolding undefine Action.Domain.State.delete
  updates-undefine false shutoff a w = refl
  updates-undefine true true a w = elim (Option-cases a.id) [
    | inl e ↦ ground (arith, e)
    | inr (id, e) ↦ ground (
      arith,
      e,
      updates-append w.log (host_call (domain_undefine id) ∷ []),
      append-nil (updates w.log),
    )
  ]
  updates-undefine true false a w = elim (Option-cases a.id) [
    | inl e ↦ ground (arith, e, updates-shutdown c a w)
    | inr (id, e) ↦ ground (
      arith,
      e,
      updates-shutdown c a w,
      updates-append (shutdown c a w).1.log (host_call (domain_undefine id) ∷ []),
      append-nil (updates (shutdown c a w).1.log),
    )
  ]

  -- The host agreed to undefine the domain, which was off, or had been shut down first.
  abbrev pub Undefined : DomainAction → DomainId → World S Domain → Type 0
  Undefined a id w =
      ((is_shutoff a.state ≡ true) × ((c.domain_undefine_flags id w.host).0 ≡ ok tt))
      ⊎ (((shutdown c a w).0 ≡ ok tt)
          × ((c.domain_undefine_flags id (shutdown c a w).1.host).0 ≡ ok tt))

  undefine_ok :
      (shutoff : Bool) (a : DomainAction) (id : DomainId) (w : World S Domain)
      → a.id ≡ some id
      → is_shutoff a.state ≡ shutoff
      → (undefine c k casts v env rounds true shutoff a w).0 ≡ ok tt
      → Undefined a id w
  unfolding undefine Action.Domain.State.delete
  undefine_ok true a id w e off h = inl (off, ground arith)
  undefine_ok false a id w e on h = inr (ground arith, ground arith)

  -- A run for a domain that is being deleted updates the object, to drop the finalizer, only if the
  -- domain does not exist on the host or the host agreed to undefine it, while it was off or after a
  -- shutdown that succeeded.
  pub act_update-Undefined :
      (host : Host) (d : Domain) (a : DomainAction) (w : World S Domain)
      → d.meta.deleting ≡ true
      → updates (act c k casts v env rounds host d a w).1.log ≢ updates w.log
      → (a.id ≡ none) ⊎ ((id : DomainId) × (a.id ≡ some id) × Undefined a id w)
  unfolding act delete_stage Action.Domain.State.state
  act_update-Undefined host d a w del changed = elim (Option-cases a.id) [
    | inl e ↦ inl e
    | inr (id, e) ↦ inr (
      id,
      e,
      undefine_ok (is_shutoff a.state) a id w e refl
          (ground (arith, e, updates-undefine true (is_shutoff a.state) a w)),
    )
  ]
