-- ===== src/Controller/Auth/Current.antt =====
-- What a run does to the store of auths.
use libvirt_operator.Prelude.{
  ℕ, ◌+◌, String, true, false, [], Option, none, some, ◌≡◌, ◌≢◌, refl, sym, arith, ◌⊎◌, eq_refl,
  ◌==◌,
}
use libvirt_operator.Outcome.{Outcome, ok}
use libvirt_operator.Host.Monad.{World, lift_cases, bind_cases, if_cases, pure, ◌>>=◌}
use libvirt_operator.Api.{
  finalizer, auth_label, secret_label, deletion_prevented, status_true, in_use,
}
use libvirt_operator.Api.Kinds.{Auth, Secret, auth_secret_ref}
use libvirt_operator.Store.Auth.{AuthEntry, AuthStore, AuthState, Files, lookup_auth, register}
use libvirt_operator.Store.Auth.Register.{register-Entered}
use libvirt_operator.Controller.Base.{Machinery, Server, Result, done, updates, ensure_finalizer}
use libvirt_operator.Controller.Writes.{
  updates-set_status_condition, host-set_status_condition, host-ensure_label, host-ensure_finalizer,
  ensure_finalizer_same,
}
use libvirt_operator.Controller.Auth.{
  Env, auth_files, is_current, release_auth, delete_auth, label_auth, register_files_of,
  register_auth, with_secret, live_auth, reconcile_auth,
}

module _ {F : Type 0} (fs : Files F) (k : Machinery) (v : Server Auth) (env : Env) where
  -- A run for an auth that is being deleted updates it or forgets its entry only if the list of the
  -- hosts with its label was read and is empty.
  pub reconcile_auth_unused :
      (a : Auth) (w : World (AuthState F) Auth)
      → a.meta.deleting ≡ true
      → (updates (reconcile_auth fs k v env a w).1.log ≢ updates w.log)
        ⊎ ((reconcile_auth fs k v env a w).1.host ≢ w.host)
      → env.hosts auth_label a.meta.name ≡ ok []
  unfolding reconcile_auth delete_auth release_auth
  reconcile_auth_unused a w d changed = ground (
    arith,
    updates-set_status_condition k v a deletion_prevented status_true
        "auth is currently in use by host" in_use w,
    host-set_status_condition k v a deletion_prevented status_true
        "auth is currently in use by host" in_use w,
  )

  -- The store's entry of an auth has a generation.
  abbrev pub HasGeneration : String → ℕ → AuthStore → Type 0
  HasGeneration uid generation auths =
      (entry : AuthEntry) × (lookup_auth uid auths ≡ some entry) × (entry.generation ≡ generation)

  abbrev WhenOk : String → ℕ → Outcome Result × World (AuthState F) Auth → Type 0
  WhenOk uid generation (r, w') =
      (result : Result) → r ≡ ok result → HasGeneration uid generation w'.host.auths

  label_auth_host :
      (a : Auth) (secret : Secret) (w : World (AuthState F) Auth)
      → (label_auth fs k v env a secret tt w).1.host ≡ w.host
  unfolding label_auth
  label_auth_host a secret w = ground (arith, host-ensure_label k v secret_label secret.name a w)

  register_auth_entered :
      (a : Auth) (secret : Secret) (w : World (AuthState F) Auth)
      → WhenOk a.meta.uid
          (a.meta.generation + secret.generation)
          (register_auth fs k v env a secret w)
  unfolding register_auth register_files_of
  register_auth_entered a secret w =
      let generation = a.meta.generation + secret.generation in
      let P = WhenOk a.meta.uid generation in
      lift_cases P (auth_files a secret) (register_files_of fs k v env a secret) w
        (λ stop no result h. absurd (no result h))
        (λ files _.
          bind_cases P (register fs a.meta.uid generation files) (label_auth fs k v env a secret) w
            (λ stop no result h. absurd (no result h))
            (λ u e result h.
              let w' = (register fs a.meta.uid generation files w).1 in
              let (path, found, same_path) = register-Entered fs a.meta.uid generation files w e in
              (
                record { path = path; generation = generation },
                ground (arith, label_auth_host a secret w', found a.meta.uid, eq_refl a.meta.uid),
                refl,
              )))

  with_secret_entered :
      (a : Auth) (found : Option AuthEntry) (secret : Secret) (w : World (AuthState F) Auth)
      → lookup_auth a.meta.uid w.host.auths ≡ found
      → WhenOk a.meta.uid
          (a.meta.generation + secret.generation)
          (with_secret fs k v env a found secret w)
  unfolding with_secret is_current
  with_secret_entered a none secret w e = register_auth_entered a secret w
  with_secret_entered a (some entry) secret w e =
      let generation = a.meta.generation + secret.generation in
      if_cases (WhenOk a.meta.uid generation) (generation == entry.generation) (pure done)
        (register_auth fs k v env a secret) w (λ same result _. (entry, e, ground (arith, same)))
        (λ _. register_auth_entered a secret w)

  live_auth_entered :
      (a a' : Auth) (secret : Secret) (found : Option AuthEntry) (w : World (AuthState F) Auth)
      → (a'.meta.uid ≡ a.meta.uid)
        × (a'.meta.name ≡ a.meta.name)
        × (a'.meta.namespace ≡ a.meta.namespace)
        × (a'.meta.generation ≡ a.meta.generation)
        × (a'.spec ≡ a.spec)
      → env.get_secret (auth_secret_ref a) ≡ ok secret
      → lookup_auth a'.meta.uid w.host.auths ≡ found
      → WhenOk a.meta.uid (a.meta.generation + secret.generation) (live_auth fs k v env found a' w)
  unfolding live_auth auth_secret_ref
  live_auth_entered a a' secret found w (uid, _, namespace, generation, spec) given known =
      let P = WhenOk a.meta.uid (a.meta.generation + secret.generation) in
      lift_cases P (env.get_secret (auth_secret_ref a')) (with_secret fs k v env a' found) w
        (λ stop no result h. absurd (no result h))
        (λ secret' e result h.
          let (entry, entered, of) = with_secret_entered a' found secret' w known result h in
          (entry, rw (sym uid) entered, ground (arith, of, e, given, namespace, generation, spec)))

  -- A run for an auth that is not being deleted and whose secret is there, if it returns without an
  -- error, leaves an entry for the auth whose generation is the sum of the auth's and the secret's.
  pub reconcile_auth_current :
      (a : Auth) (secret : Secret) (w : World (AuthState F) Auth) (result : Result)
      → a.meta.deleting ≡ false
      → env.get_secret (auth_secret_ref a) ≡ ok secret
      → (reconcile_auth fs k v env a w).0 ≡ ok result
      → HasGeneration a.meta.uid
          (a.meta.generation + secret.generation)
          (reconcile_auth fs k v env a w).1.host.auths
  unfolding reconcile_auth
  reconcile_auth_current a secret w result d given =
      let P = WhenOk a.meta.uid (a.meta.generation + secret.generation) in
      let found = lookup_auth a.meta.uid w.host.auths in
      if_cases P a.meta.deleting (delete_auth fs k v env a)
        (ensure_finalizer k v finalizer a >>= live_auth fs k v env found) w (λ yes' result h. cc)
        (λ _.
          bind_cases P (ensure_finalizer k v finalizer a) (live_auth fs k v env found) w
            (λ stop no result h. absurd (no result h))
            (λ a' e.
              let same = ensure_finalizer_same k v finalizer a a' w e in
              let host = host-ensure_finalizer k v finalizer a w in
              live_auth_entered a a' secret found _ same given (rw same.0 (cc host))))
        result
