-- ===== src/Tests/Stores.antt =====
-- The theorems of Store at a store with one auth, and at one entry of the store of hosts.
use libvirt_operator.Prelude.{
  ℕ, inl, String, Bool, true, false, List, [], ◌∷◌, none, some, ◌≡◌, refl,
}
use libvirt_operator.Outcome.{message}
use libvirt_operator.Store.Auth.{
  File, bytes, text, register, register_files, fill, write_files, link, replace, retire,
  lookup_auth,
}
use libvirt_operator.Store.Auth.Register.{Kept, register_failed}
use libvirt_operator.Store.Monitor.Held.{IsHeld, here, next, ReachLeaving-IsHeld}
use libvirt_operator.Store.Monitor.{serving, wait, Shared, ReachCalm, check, begin, stop, looking}
use libvirt_operator.Store.Monitor.Sessions.{new_entry, ReachCalm-closed}
use libvirt_operator.Tests.Fixtures.{full_disk, auth_world}

abbrev two_files : List File
two_files =
    record { name = "privatekey"; data_ = bytes (1 ∷ 2 ∷ []) }
    ∷ record { name = "known_hosts"; data_ = text "host" }
    ∷ []

register_failed_example :
    Kept {O = Unit {0}} auth_world
      (register {O = Unit {0}} full_disk "auth" 2 two_files auth_world).1
unfolding register register_files fill write_files link replace retire lookup_auth
    libvirt_operator.Prelude.lookup
register_failed_example =
    register_failed {O = Unit {0}} full_disk "auth" 2 two_files auth_world
      (message "no space left on device") refl

-- A session is held; the monitor is told to stop, waits, and another session begins.
abbrev held : Shared
held = record { connected = true; checked = []; sessions = 7 ∷ []; monitor = serving }

abbrev waited : Shared
waited = record { connected = true; checked = []; sessions = 8 ∷ 7 ∷ []; monitor = looking }

ReachLeaving-IsHeld_example : IsHeld 7 waited
ReachLeaving-IsHeld_example =
    ReachLeaving-IsHeld 7 {s = held} (record { begun = refl; connected = refl; waiting = inl refl })
      (next (next (next (next here stop tt) (wait 7) tt) (check 8) tt) (begin 8) tt)

ReachCalm-closed_example :
    (t : Shared) × ReachCalm (new_entry true) t × (t.sessions ≡ 7 ∷ []) × (t.connected ≡ false)
ReachCalm-closed_example = ReachCalm-closed 7 []
