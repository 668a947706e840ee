-- ===== src/Controller/Watch.antt =====
-- What makes the reconcilers of auths and hosts run besides a change of their own objects: the
-- predicate of internal/controller/predicate.go and the handlers in SetupWithManager of auth.go and
-- host.go.
pub mod Secret
use libvirt_operator.Prelude.{ℕ, String, Bool, true, false, not, List, [], map, if◌then◌else◌, ◌==◌}
use libvirt_operator.Outcome.{Outcome, ok, err, panic, hang}
use libvirt_operator.Api.{Resource, NamespacedName, secret_label, auth_label}
use libvirt_operator.Api.Kinds.{Auth, Host}

-- An event of a watched object, an update by the generations of the old and the new object.
pub data WatchEvent : Type 0 where
  created deleted generic : WatchEvent
  updated : ℕ → ℕ → WatchEvent

unfoldable pub watch_predicate : WatchEvent → Bool
watch_predicate (updated old new) = not (old == new)
watch_predicate _ = false

-- The answers to NewRequirement and List, and the loop over the items.
module _ {Spec St : Type 0} (requirement : String → String → Outcome (Unit {0}))
    (list : String → String → Outcome (List (Resource Spec St))) where
  abbrev request_of : Resource Spec St → NamespacedName
  request_of o = record { name = o.meta.name; namespace = o.meta.namespace }

  listed : Outcome (List (Resource Spec St)) → Outcome (List NamespacedName)
  listed (ok items) = ok (map request_of items)
  listed (err e) = ok []
  listed panic = panic
  listed hang = hang

  selected : String → String → Outcome (Unit {0}) → Outcome (List NamespacedName)
  unfolding listed
  selected label name (ok u) = listed (list label name)
  selected label name (err e) = ok []
  selected label name panic = panic
  selected label name hang = hang

  -- The requests for the objects whose label holds the name of a watched object.
  unfoldable pub requests_for : String → String → Outcome (List NamespacedName)
  unfolding selected
  requests_for label name = selected label name (requirement label name)

  -- The requests after an event: none unless the predicate lets it pass.
  unfoldable pub requests_after : String → WatchEvent → String → Outcome (List NamespacedName)
  requests_after label event name = if watch_predicate event then requests_for label name else ok []

-- The auths that an event of a secret enqueues, and the hosts that one of an auth does.
unfoldable pub auth_requests :
    (String → String → Outcome (Unit {0}))
    → (String → String → Outcome (List Auth))
    → WatchEvent
    → String
    → Outcome (List NamespacedName)
auth_requests requirement list event name = requests_after requirement list secret_label event name

unfoldable pub host_requests :
    (String → String → Outcome (Unit {0}))
    → (String → String → Outcome (List Host))
    → WatchEvent
    → String
    → Outcome (List NamespacedName)
host_requests requirement list event name = requests_after requirement list auth_label event name
