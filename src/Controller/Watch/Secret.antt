-- ===== src/Controller/Watch/Secret.antt =====
-- A secret whose data changes.
use libvirt_operator.Prelude.{◌+◌, String, false, List, [], some, ◌≡◌, arith}
use libvirt_operator.Outcome.{Outcome, ok}
use libvirt_operator.Host.Monad.{World}
use libvirt_operator.Api.{finalizer}
use libvirt_operator.Api.Kinds.{Auth, Secret, auth_secret_ref}
use libvirt_operator.Store.Auth.{AuthEntry, AuthState, Files, lookup_auth}
use libvirt_operator.Controller.Base.{Machinery, Server, done, ensure_finalizer, write_object}
use libvirt_operator.Controller.Auth.{Env, is_current, with_secret, live_auth, reconcile_auth}
use libvirt_operator.Controller.Watch.{updated, watch_predicate, requests_after, auth_requests}

-- An update of a secret that leaves its generation is not seen: it enqueues no auth; and a run for
-- an auth that is not being deleted, has its finalizer, and has an entry with the sum of the
-- generations, ends without a change to the store, the files or any object, whatever data the
-- secret has by then.
pub secret_update_unseen :
    {F : Type 0} (requirement : String → String → Outcome (Unit {0}))
    (auths : String → String → Outcome (List Auth)) (fs : Files F) (k : Machinery) (v : Server Auth)
    (env : Env) (a : Auth) (before after : Secret) (entry : AuthEntry)
    (w : World (AuthState F) Auth)
    → before.generation ≡ after.generation
    → a.meta.deleting ≡ false
    → k.add_finalizer a.meta.finalizers finalizer ≡ (a.meta.finalizers, false)
    → env.get_secret (auth_secret_ref a) ≡ ok after
    → lookup_auth a.meta.uid w.host.auths ≡ some entry
    → entry.generation ≡ a.meta.generation + before.generation
    → (auth_requests requirement auths (updated before.generation after.generation) after.name
        ≡ ok [])
      × (reconcile_auth fs k v env a w ≡ (ok done, w))
unfolding auth_requests requests_after watch_predicate reconcile_auth live_auth with_secret
    is_current ensure_finalizer write_object
secret_update_unseen requirement auths fs k v env a before after entry w same live held given known
      of =
    (ground (arith, same), ground (arith, same, live, held, given, known, of))
