-- ===== src/Controller/Host/Kept.antt =====
-- An entry with the sum of the generations stays as it is.
use libvirt_operator.Prelude.{
  ap, sym, eq_refl, ℕ, ◌≢◌, none, [], ◌+◌, false, some, ◌≡◌, refl, arith, ◌∙◌, ◌==◌,
}
use libvirt_operator.Outcome.{Outcome, ok, ok-injective}
use libvirt_operator.Host.{Client}
use libvirt_operator.Host.Monad.{World, lift_cases, bind_cases, if_cases, ◌>>=◌}
use libvirt_operator.Api.{finalizer}
use libvirt_operator.Api.Kinds.{Host, Auth, host_auth_ref}
use libvirt_operator.Store.Auth.{AuthEntry, lookup_auth}
use libvirt_operator.Store.Host.{HostEntry, lookup_entry, lookup_entry_lem}
use libvirt_operator.Controller.Base.{Machinery, Casts, Server, Result, ensure_finalizer}
use libvirt_operator.Controller.Writes.{host-ensure_finalizer, ensure_finalizer_same}
use libvirt_operator.Controller.Host.{
  Env, HostState, delete_host, connect, register_dialer, refresh, with_entry, with_credentials,
  with_auth, live_host, reconcile_host,
}
use libvirt_operator.Controller.Host.Registered.{host-refresh, host-after_register}
use libvirt_operator.Controller.Host.Unlabelled.{IsHeld, registered, reaches_entry}
use libvirt_operator.Controller.Dialer.{Dialer, dialer_of}

module _ {S : Type 0} (c : Client S) (k : Machinery) (casts : Casts) (v : Server Host)
    (env : Env) where
  with_entry_kept :
      (h : Host) (a : Auth) (entry : AuthEntry) (old : HostEntry) (w : World (HostState S) Host)
      → old.generation ≡ h.meta.generation + entry.generation
      → (with_entry c k casts v env h a entry (some old) w).1.host ≡ w.host
  unfolding with_entry
  with_entry_kept h a entry old w same =
      if_cases (λ p. p.1.host ≡ w.host) (h.meta.generation + entry.generation == old.generation)
        (refresh c k casts v env h old)
        (connect c k casts v env h a entry (h.meta.generation + entry.generation)) w
        (λ _. host-refresh c k casts v env h old w) (λ other. ground (arith, same, other))

  with_auth_kept :
      (h : Host) (a : Auth) (entry : AuthEntry) (old : HostEntry) (w : World (HostState S) Host)
      → lookup_auth a.meta.uid env.auths ≡ some entry
      → lookup_entry h.meta.uid w.host.hosts ≡ some old
      → old.generation ≡ h.meta.generation + entry.generation
      → (with_auth c k casts v env h a w).1.host ≡ w.host
  unfolding with_auth with_credentials
  with_auth_kept h a entry old w known found same =
      rw known (rw found (with_entry_kept h a entry old w same))

  live_host_kept :
      (h h' : Host) (a : Auth) (entry : AuthEntry) (old : HostEntry) (w : World (HostState S) Host)
      → (h'.meta.uid ≡ h.meta.uid)
        × (h'.meta.name ≡ h.meta.name)
        × (h'.meta.namespace ≡ h.meta.namespace)
        × (h'.meta.generation ≡ h.meta.generation)
        × (h'.spec ≡ h.spec)
      → env.get_auth (host_auth_ref h) ≡ ok a
      → lookup_auth a.meta.uid env.auths ≡ some entry
      → lookup_entry h.meta.uid w.host.hosts ≡ some old
      → old.generation ≡ h.meta.generation + entry.generation
      → (live_host c k casts v env h' w).1.host ≡ w.host
  unfolding live_host host_auth_ref
  live_host_kept h h' a entry old w (uid, _, namespace, generation, spec) given known found same =
      lift_cases (λ p. p.1.host ≡ w.host) (env.get_auth (host_auth_ref h'))
        (with_auth c k casts v env h') w (λ stop _. refl)
        (λ a' e.
          with_auth_kept h' a' entry old w (ground (arith, e, given, known, namespace, spec))
            (cc (found, uid)) (cc (same, generation)))

  same_sum_kept :
      (h : Host) (a : Auth) (entry : AuthEntry) (old : HostEntry) (w : World (HostState S) Host)
      → h.meta.deleting ≡ false
      → env.get_auth (host_auth_ref h) ≡ ok a
      → lookup_auth a.meta.uid env.auths ≡ some entry
      → lookup_entry h.meta.uid w.host.hosts ≡ some old
      → old.generation ≡ h.meta.generation + entry.generation
      → (reconcile_host c k casts v env h w).1.host ≡ w.host
  unfolding reconcile_host
  same_sum_kept h a entry old w d given known found same =
      let P : Outcome Result × World (HostState S) Host → Type 0 = λ p. p.1.host ≡ w.host in
      let finalized = host-ensure_finalizer k v finalizer h w in
      if_cases P h.meta.deleting (delete_host c k casts v env h)
        (ensure_finalizer k v finalizer h >>= live_host c k casts v env) w (λ deleted. cc)
        (λ _.
          bind_cases P (ensure_finalizer k v finalizer h) (live_host c k casts v env) w
            (λ stop _. finalized)
            (λ h' e.
              live_host_kept h h' a entry old _ (ensure_finalizer_same k v finalizer h h' w e) given
                known (cc (found, finalized)) same
              ∙ finalized))

  connect_host :
      (h : Host) (a : Auth) (entry : AuthEntry) (generation : ℕ) (dialer : Dialer)
      (w : World (HostState S) Host)
      → dialer_of env.join h a entry ≡ ok dialer
      → (connect c k casts v env h a entry generation w).1.host
        ≡ registered env h generation dialer w.host
  unfolding connect register_dialer
  connect_host h a entry generation dialer w made = ground (
    arith,
    made,
    host-after_register c k casts v env h a
        (record w { host = registered env h generation dialer w.host }),
  )

  -- The run that registers a host which the store does not have.
  first_run :
      (h : Host) (a : Auth) (entry : AuthEntry) (dialer : Dialer) (w : World (HostState S) Host)
      → h.meta.deleting ≡ false
      → IsHeld k h
      → env.get_auth (host_auth_ref h) ≡ ok a
      → lookup_auth a.meta.uid env.auths ≡ some entry
      → lookup_entry h.meta.uid w.host.hosts ≡ none
      → dialer_of env.join h a entry ≡ ok dialer
      → lookup_entry h.meta.uid (reconcile_host c k casts v env h w).1.host.hosts
        ≡ some (record {
          generation = h.meta.generation + entry.generation;
          client = dialer;
          connected = env.connects dialer;
          sessions = [];
        })
  unfolding with_entry
  first_run h a entry dialer w live held given known absent made =
      let generation = h.meta.generation + entry.generation in
      rw (reaches_entry c k casts v env h a entry none w live held given known absent) (
        ground (
          arith,
          connect_host h a entry generation dialer w made,
          (lookup_entry_lem h.meta.uid h.meta.uid generation dialer (env.connects dialer)
              w.host.hosts).0,
          eq_refl h.meta.uid,
        ))

-- Let a run register a host that the store does not have: the host is not being deleted and has
-- its finalizer, its auth is in the store of auths, and a dialer is made for them. Let a later run
-- for the same host start from the state that this run leaves, with the host not being deleted,
-- its auth at that time in the store of auths, and another dialer made for them. If the generation
-- of the host and that of its auth's entry have the same sum as at the first run, then after the
-- later run the store still has the client of the first dialer, and not of the one that is made
-- for the host and its auth now.
pub reconcile_host_kept :
    {S : Type 0} (c : Client S) (k₁ k₂ : Machinery) (casts : Casts) (v₁ v₂ : Server Host)
    (env₁ env₂ : Env) (h₁ h₂ : Host) (a₁ a₂ : Auth) (entry₁ entry₂ : AuthEntry)
    (dialer₁ dialer₂ : Dialer) (w : World (HostState S) Host)
    → h₁.meta.deleting ≡ false
    → IsHeld k₁ h₁
    → env₁.get_auth (host_auth_ref h₁) ≡ ok a₁
    → lookup_auth a₁.meta.uid env₁.auths ≡ some entry₁
    → lookup_entry h₁.meta.uid w.host.hosts ≡ none
    → dialer_of env₁.join h₁ a₁ entry₁ ≡ ok dialer₁
    → h₂.meta.uid ≡ h₁.meta.uid
    → h₂.meta.deleting ≡ false
    → env₂.get_auth (host_auth_ref h₂) ≡ ok a₂
    → lookup_auth a₂.meta.uid env₂.auths ≡ some entry₂
    → dialer_of env₂.join h₂ a₂ entry₂ ≡ ok dialer₂
    → dialer₁ ≢ dialer₂
    → h₁.meta.generation + entry₁.generation ≡ h₂.meta.generation + entry₂.generation
    → let first = reconcile_host c k₁ casts v₁ env₁ h₁ w in
      let later = reconcile_host c k₂ casts v₂ env₂ h₂ first.1 in
      (kept : HostEntry) × (lookup_entry h₂.meta.uid later.1.host.hosts ≡ some kept)
      × (kept.client ≡ dialer₁)
      × (dialer_of env₂.join h₂ a₂ entry₂ ≢ ok kept.client)
reconcile_host_kept c k₁ k₂ casts v₁ v₂ env₁ env₂ h₁ h₂ a₁ a₂ entry₁ entry₂ dialer₁ dialer₂ w live₁
      held given₁ known₁ absent made₁ same_host live₂ given₂ known₂ made₂ other same_sum =
    let old : HostEntry = record {
      generation = h₁.meta.generation + entry₁.generation;
      client = dialer₁;
      connected = env₁.connects dialer₁;
      sessions = [];
    } in
    let found =
      ap (λ uid. lookup_entry uid (reconcile_host c k₁ casts v₁ env₁ h₁ w).1.host.hosts) same_host
      ∙ first_run c k₁ casts v₁ env₁ h₁ a₁ entry₁ dialer₁ w live₁ held given₁ known₁ absent made₁ in
    let same =
      same_sum_kept c k₂ casts v₂ env₂ h₂ a₂ entry₂ old (reconcile_host c k₁ casts v₁ env₁ h₁ w).1
        live₂ given₂ known₂ found same_sum in
    (
      old,
      ap (λ s. lookup_entry h₂.meta.uid s.hosts) same ∙ found,
      refl,
      λ again. other (ok-injective (sym again ∙ made₂)),
    )
