-- ===== src/Controller/Auth.antt =====
-- AuthReconciler of internal/controller/auth.go. A run changes the store of auths and the file system.
pub mod Current
pub mod Validated
use libvirt_operator.Prelude.{
  ℕ, ◌+◌, String, Bool, true, false, List, [], ◌∷◌, ◌++◌, Option, none, some, length, ltb, ◌==◌,
  lookup, or_else, if◌then◌else◌,
}
use Prim.Native.String.{◌++◌ as str_append}
use libvirt_operator.Outcome
use libvirt_operator.Outcome.{Outcome, ok, err, message, deref}
use libvirt_operator.Host.Monad.{
  M, Attempt, success, failure, pure, raise, lift, attempt, ◌>>=◌, ◌>>◌,
}
use libvirt_operator.Api.{
  NamespacedName, finalizer, auth_label, secret_label, deletion_prevented, status_true, in_use,
}
use libvirt_operator.Api.Kinds.{
  Auth, AuthSpec, AuthType, tls_auth, ssh_auth, other_auth, Secret, SecretType, ssh_secret,
  tls_secret, auth_secret_ref,
}
use libvirt_operator.Store.Auth.{
  File, bytes, text, AuthEntry, AuthStore, AuthState, Files, lookup_auth, register, deregister,
}
use libvirt_operator.Controller.Base.{
  Machinery, Server, Result, done, requeue, set_status_condition, ensure_finalizer, drop_finalizer,
  ensure_label,
}
use libvirt_operator.Controller.Probed.{ignore_not_found}

-- What the API server answers; `hosts` gives the names of the hosts with a label.
pub record Env : Type 0 where
  pub get : Outcome Auth
  pub get_secret : NamespacedName → Outcome Secret
  pub requirement : String → String → Outcome (Unit {0})
  pub hosts : String → String → Outcome (List String)

abbrev pub private_key : String
private_key = "privatekey"

abbrev pub known_hosts_file : String
known_hosts_file = "known_hosts"

abbrev pub client_cert : String
client_cert = "clientcert.pem"

abbrev pub client_key : String
client_key = "clientkey.pem"

abbrev pub ca_cert : String
ca_cert = "cacert.pem"

-- Verify is nil or points to true.
abbrev pub verifies : Option Bool → Bool
verifies none = true
verifies (some b) = b

-- secret.Data[key], which is nil for a missing key.
secret_file : String → Secret → String → File
secret_file name secret key = record {
  name = name;
  data_ = bytes (or_else (lookup key secret.data_) []);
}

-- The file to verify a host by, where that is wanted: its text is a pointer.
verify_file : Option Bool → String → Option String → Outcome (List File)
verify_file verify name content =
    if verifies verify
    then Outcome.◌>>=◌ (deref content) (λ t. ok (record { name = name; data_ = text t } ∷ []))
    else ok []

ssh_files : AuthSpec → Secret → SecretType → Outcome (List File)
ssh_files spec secret ssh_secret =
    Outcome.◌>>=◌ (verify_file spec.verify known_hosts_file spec.known_hosts)
      (λ files. ok (secret_file private_key secret "ssh-privatekey" ∷ files))
ssh_files spec secret _ = err (message "ssh auth requires a secret of type: kubernetes.io/ssh-auth")

tls_files : AuthSpec → Secret → SecretType → Outcome (List File)
tls_files spec secret tls_secret = Outcome.◌>>=◌ (verify_file spec.verify ca_cert spec.ca) (λ files.
    ok (secret_file client_cert secret "tls.crt" ∷ secret_file client_key secret "tls.key" ∷ files))
tls_files spec secret _ = err (message "tls auth requires a secret of type: kubernetes.io/tls")

files_by_type : AuthSpec → Secret → AuthType → Outcome (List File)
files_by_type spec secret ssh_auth = ssh_files spec secret secret.type_
files_by_type spec secret tls_auth = tls_files spec secret secret.type_
files_by_type spec secret (other_auth t) = err (message (str_append "unsupported auth type: " t))

unfoldable pub auth_files : Auth → Secret → Outcome (List File)
unfolding files_by_type ssh_files tls_files verify_file secret_file
auth_files a secret = files_by_type a.spec secret a.spec.type_

-- The store has the entry of this generation.
unfoldable pub is_current : ℕ → Option AuthEntry → Bool
is_current generation none = false
is_current generation (some entry) = generation == entry.generation

module _ {F : Type 0} (fs : Files F) (k : Machinery) (v : Server Auth) (env : Env) where
  unfoldable pub release_auth : Auth → List String → M (AuthState F) Auth Result
  release_auth a hosts =
      if ltb 0 (length hosts)
      then set_status_condition k v a deletion_prevented status_true
          "auth is currently in use by host" in_use
        >> pure requeue
      else deregister fs a.meta.uid >> drop_finalizer k v finalizer a >> pure done

  unfoldable pub delete_auth : Auth → M (AuthState F) Auth Result
  delete_auth a =
      if k.contains_finalizer a.meta.finalizers finalizer
      then (do
        lift (env.requirement auth_label a.meta.name)
        hosts ← lift (env.hosts auth_label a.meta.name)
        release_auth a hosts)
      else pure done

  unfoldable pub label_auth : Auth → Secret → Unit {0} → M (AuthState F) Auth Result
  label_auth a secret _ = ensure_label k v secret_label secret.name a >> pure done

  unfoldable pub register_files_of : Auth → Secret → List File → M (AuthState F) Auth Result
  register_files_of a secret files =
      register fs a.meta.uid (a.meta.generation + secret.generation) files >>= label_auth a secret

  unfoldable pub register_auth : Auth → Secret → M (AuthState F) Auth Result
  register_auth a secret = lift (auth_files a secret) >>= register_files_of a secret

  unfoldable pub with_secret : Auth → Option AuthEntry → Secret → M (AuthState F) Auth Result
  with_secret a found secret =
      if is_current (a.meta.generation + secret.generation) found
      then pure done
      else register_auth a secret

  unfoldable pub live_auth : Option AuthEntry → Auth → M (AuthState F) Auth Result
  live_auth found a = lift (env.get_secret (auth_secret_ref a)) >>= with_secret a found

  unfoldable pub reconcile_auth : Auth → M (AuthState F) Auth Result
  reconcile_auth a w =
      let found = lookup_auth a.meta.uid w.host.auths in
      (if a.meta.deleting
          then delete_auth a
          else ensure_finalizer k v finalizer a >>= live_auth found)
        w

  loaded : Attempt Auth → M (AuthState F) Auth Result
  loaded (success a) = reconcile_auth a
  loaded (failure e) = ignore_not_found e

  unfoldable pub reconcile : M (AuthState F) Auth Result
  unfolding loaded
  reconcile = attempt (lift env.get) >>= loaded
