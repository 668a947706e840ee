-- ===== src/Tests/AuthController.antt =====
-- The theorems of Controller/Auth at one auth and its secret.
use libvirt_operator.Prelude.{
  ℕ, String, Bool, true, false, List, [], ◌∷◌, none, some, ◌≡◌, refl, inl, inr,
}
use libvirt_operator.Outcome.{ok}
use libvirt_operator.Api.{auth_label}
use libvirt_operator.Api.Kinds.{Auth, tls_auth, Secret, tls_secret}
use libvirt_operator.Store.Auth.{lookup_auth, deregister}
use libvirt_operator.Controller.Base.{done, drop_finalizer}
use libvirt_operator.Controller.Auth.{Env, reconcile_auth, delete_auth, release_auth}
use libvirt_operator.Controller.Auth.Current.{reconcile_auth_unused}
use libvirt_operator.Controller.Watch.{auth_requests, updated}
use libvirt_operator.Controller.Watch.Secret.{secret_update_unseen}
use libvirt_operator.Tests.Fixtures.{
  held_kit, known_auth, cons_not_nil, kit, accepting, meta_of, disk, auth_world,
}

abbrev pub auth : Bool → Auth
auth deleting = record {
  meta = meta_of "auth" deleting;
  spec = record {
    type_ = tls_auth;
    secret_ref = "secret";
    verify = some true;
    ca = some "certificate";
    known_hosts = none;
    username = none;
  };
  conditions = [];
  status = tt;
}

abbrev pub secret : Secret
secret = record {
  name = "secret";
  generation = 2;
  type_ = tls_secret;
  data_ = ("tls.crt", 1 ∷ []) ∷ ("tls.key", 2 ∷ []) ∷ [];
}

abbrev pub env : Env
env = record {
  get = ok (auth false);
  get_secret = λ ref. ok secret;
  requirement = λ key value. ok tt;
  hosts = λ key value. ok [];
}

reconcile_auth_unused_example : env.hosts auth_label "auth" ≡ ok []
unfolding reconcile_auth delete_auth release_auth deregister lookup_auth
    libvirt_operator.Prelude.lookup drop_finalizer
reconcile_auth_unused_example =
    reconcile_auth_unused disk kit accepting env (auth true) auth_world refl
      (inl (cons_not_nil _ _))

-- A secret as the API server has it, before and after its data changed, and a run that sees the latter.
abbrev plain_secret : Secret
plain_secret = record secret { generation = 0 }

abbrev new_secret : Secret
new_secret = record plain_secret { data_ = ("tls.crt", 7 ∷ []) ∷ ("tls.key", 8 ∷ []) ∷ [] }

abbrev new_env : Env
new_env = record env { get_secret = λ ref. ok new_secret }

secret_update_unseen_example :
    (auth_requests (λ key value. ok tt) (λ key value. ok (auth false ∷ [])) (updated 0 0) "secret"
      ≡ ok [])
    × (reconcile_auth disk held_kit accepting new_env (auth false) auth_world
        ≡ (ok done, auth_world))
unfolding lookup_auth libvirt_operator.Prelude.lookup
secret_update_unseen_example =
    secret_update_unseen (λ key value. ok tt) (λ key value. ok (auth false ∷ [])) disk held_kit
      accepting new_env (auth false) plain_secret new_secret known_auth auth_world refl refl refl
      refl refl refl
