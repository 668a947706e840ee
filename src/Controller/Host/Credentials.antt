-- ===== src/Controller/Host/Credentials.antt =====
-- A host and its auth together: the controller of auths hands the credentials on by the store of auths.
use libvirt_operator.Prelude.{ℕ, ◌+◌, false, ◌≡◌, ◌∙◌, ap}
use libvirt_operator.Outcome.{ok}
use libvirt_operator.Host.{Client}
use libvirt_operator.Host.Monad.{World}
use libvirt_operator.Api.Kinds.{Host, Auth, Secret, auth_secret_ref, host_auth_ref}
use libvirt_operator.Store.Auth.{AuthState, Files}
use libvirt_operator.Controller.Base.{Machinery, Casts, Server, Result}
use libvirt_operator.Controller.Auth.{Env as AuthEnv, reconcile_auth}
use libvirt_operator.Controller.Auth.Current.{reconcile_auth_current}
use libvirt_operator.Controller.Host.{Env, HostState, reconcile_host}
use libvirt_operator.Controller.Host.Registered.{HasGeneration, reconcile_host_registered}

module _ {S F : Type 0} (c : Client S) (k : Machinery) (casts : Casts) (v : Server Host) (env : Env)
    (fs : Files F) (auths : Server Auth) (auth_env : AuthEnv) where
  -- After a run for an auth and then one for a host that refers to it, neither being deleted and both
  -- returning without an error, the second with the store of auths that the first left, the host's
  -- entry has as its generation the sum of those of the host, the auth and the secret.
  pub reconcile_host-reconcile_auth :
      (a a' : Auth) (secret : Secret) (h : Host) (w : World (AuthState F) Auth)
      (w' : World (HostState S) Host) (first second : Result)
      → a.meta.deleting ≡ false
      → auth_env.get_secret (auth_secret_ref a) ≡ ok secret
      → (reconcile_auth fs k auths auth_env a w).0 ≡ ok first
      → env.auths ≡ (reconcile_auth fs k auths auth_env a w).1.host.auths
      → h.meta.deleting ≡ false
      → env.get_auth (host_auth_ref h) ≡ ok a'
      → a'.meta.uid ≡ a.meta.uid
      → (reconcile_host c k casts v env h w').0 ≡ ok second
      → HasGeneration c k casts v env h.meta.uid
          (h.meta.generation + (a.meta.generation + secret.generation))
          (reconcile_host c k casts v env h w').1.host.hosts
  reconcile_host-reconcile_auth a a' secret h w w' first second live given done left live' given'
        same done' =
      let (entry, entered, sum) =
        reconcile_auth_current fs k auths auth_env a secret w first live given done in
      let (e, found, of) =
        reconcile_host_registered c k casts v env h a' entry w' second live' given'
          (rw left (rw same entered)) done' in
      (e, found, of ∙ ap (λ (n : ℕ). h.meta.generation + n) sum)
