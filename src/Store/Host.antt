-- ===== src/Store/Host.antt =====
-- HostStore of internal/store/host.go as the reconcilers see it, one call at a time: the map of the
-- entries, and the sessions of one.
use libvirt_operator.Prelude.{
  ℕ, String, Bool, List, [], ◌∷◌, Option, none, some, lookup, insert, erase, lookup-insert,
  lookup-erase, if◌then◌else◌, str_eq, delete_func, ◌==◌, ◌≡◌, arith, Option-cases, inl, inr,
  eq_iff,
}
use libvirt_operator.Outcome.{Outcome, ok, err, message}
use libvirt_operator.Host.Dialer.{Dialer}

abbrev pub err_client_not_connected : String
err_client_not_connected = "client is not connected"

-- `client` is the dialer that host.New made the client of, and `connected` what the client answers to
-- IsConnected; sessions go by their ids. The monitor of an entry stands in Store/Monitor.
pub record HostEntry : Type 0 where
  pub generation : ℕ
  pub client : Dialer
  pub connected : Bool
  pub sessions : List ℕ

abbrev pub HostStore : Type 0
HostStore = List (String × HostEntry)

unfoldable pub new_host_store : HostStore
new_host_store = []

-- The new store and the old entry, whose monitor is told to stop. `connects` says whether the new
-- client's Connect succeeds; the entry is stored in both cases.
unfoldable pub register : String → ℕ → Dialer → Bool → HostStore → HostStore × Option HostEntry
register uid generation dialer connects s = (
  insert uid
      (record { generation = generation; client = dialer; connected = connects; sessions = [] }) s,
  lookup uid s,
)

unfoldable pub deregister : String → HostStore → HostStore × Option HostEntry
deregister uid s = elim (lookup uid s) [ none ↦ (s, none) | some entry ↦ (erase uid s, some entry) ]

unfoldable pub lookup_entry : String → HostStore → Option HostEntry
lookup_entry uid s = lookup uid s

-- A session under a new id, and the function `end` of that session.
unfoldable pub session : ℕ → HostEntry → Outcome HostEntry
session id e =
    if e.connected
    then ok (record e { sessions = id ∷ e.sessions })
    else err (message err_client_not_connected)

unfoldable pub end_session : ℕ → HostEntry → HostEntry
end_session id e = record e { sessions = delete_func (λ j. j == id) e.sessions }

-- After Register a lookup finds the new generation at its host and any other host's entry as before;
-- after Deregister it finds nothing at the host.
pub lookup_entry_lem :
    (uid other : String) (generation : ℕ) (dialer : Dialer) (connects : Bool) (s : HostStore)
    → (lookup_entry other (register uid generation dialer connects s).0 ≡ (
        if str_eq uid other
        then some (record {
          generation = generation;
          client = dialer;
          connected = connects;
          sessions = [];
        })
        else lookup_entry other s))
      × (lookup_entry other (deregister uid s).0
          ≡ (if str_eq uid other then none else lookup_entry other s))
unfolding lookup_entry register deregister
lookup_entry_lem uid other generation dialer connects s = (
  lookup-insert uid other _ s,
  elim (Option-cases (lookup uid s)) [
    | inl e ↦ ground (arith, e, eq_iff uid other)
    | inr (entry, e) ↦ ground (arith, e, lookup-erase uid other s)
  ],
)
