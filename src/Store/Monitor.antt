-- ===== src/Store/Monitor.antt =====
-- HostEntry.Session, HostEntry.monitor and gracefulDisconnect of internal/store/host.go as
-- interleaved steps: Session looks at the client before it takes the entry's lock, and
-- gracefulDisconnect reads the sessions without it. The connection may break in any state; the monitor sees that
-- in its select only.
pub mod Sessions
pub mod Held
use libvirt_operator.Prelude.{ℕ, Bool, true, false, List, [], ◌∷◌, delete_func, ◌==◌}

-- Where the goroutine `monitor` stands: in its select, in the loop of gracefulDisconnect, about to
-- call Disconnect, or at its end.
pub data Monitor : Type 0 where
  serving looking closing returned : Monitor

-- `checked` are the callers of Session that have seen the client connected and do not have the lock
-- yet; `sessions` are the sessions in the map.
pub record Shared : Type 0 where
  pub connected : Bool
  pub checked : List ℕ
  pub sessions : List ℕ
  pub monitor : Monitor

abbrev pub without : ℕ → List ℕ → List ℕ
without id = delete_func (λ j. j == id)

pub data Step : Shared → Shared → Type 0 where
  check :
      {sessions : List ℕ} {checked : List ℕ} {m : Monitor} (id : ℕ)
      → Step
          (record { connected = true; checked = checked; sessions = sessions; monitor = m })
          (record { connected = true; checked = id ∷ checked; sessions = sessions; monitor = m })
  begin :
      {connected : Bool} {sessions : List ℕ} {checked : List ℕ} {m : Monitor} (id : ℕ)
      → Step
          (record {
            connected = connected;
            checked = id ∷ checked;
            sessions = sessions;
            monitor = m;
          })
          (record {
            connected = connected;
            checked = checked;
            sessions = id ∷ sessions;
            monitor = m;
          })
  -- The callers that have checked get the lock in any order.
  swap :
      {connected : Bool} {sessions : List ℕ} {checked : List ℕ} {m : Monitor} (i j : ℕ)
      → Step
          (record {
            connected = connected;
            checked = i ∷ j ∷ checked;
            sessions = sessions;
            monitor = m;
          })
          (record {
            connected = connected;
            checked = j ∷ i ∷ checked;
            sessions = sessions;
            monitor = m;
          })
  end :
      {connected : Bool} {sessions : List ℕ} {checked : List ℕ} {m : Monitor} (id : ℕ)
      → Step
          (record { connected = connected; checked = checked; sessions = sessions; monitor = m })
          (record {
            connected = connected;
            checked = checked;
            sessions = without id sessions;
            monitor = m;
          })
  break :
      {sessions : List ℕ} {checked : List ℕ} {m : Monitor}
      → Step
          (record { connected = true; checked = checked; sessions = sessions; monitor = m })
          (record { connected = false; checked = checked; sessions = sessions; monitor = m })
  -- The error is logged, and the select comes again at once.
  reconnect_failed :
      {sessions : List ℕ} {checked : List ℕ}
      → Step
          (record { connected = false; checked = checked; sessions = sessions; monitor = serving })
          (record { connected = false; checked = checked; sessions = sessions; monitor = serving })
  reconnect :
      {sessions : List ℕ} {checked : List ℕ}
      → Step
          (record { connected = false; checked = checked; sessions = sessions; monitor = serving })
          (record { connected = true; checked = checked; sessions = sessions; monitor = serving })
  stop :
      {connected : Bool} {sessions : List ℕ} {checked : List ℕ}
      → Step
          (record {
            connected = connected;
            checked = checked;
            sessions = sessions;
            monitor = serving;
          })
          (record {
            connected = connected;
            checked = checked;
            sessions = sessions;
            monitor = looking;
          })
  wait :
      {sessions : List ℕ} {checked : List ℕ} (id : ℕ)
      → Step
          (record {
            connected = true;
            checked = checked;
            sessions = id ∷ sessions;
            monitor = looking;
          })
          (record {
            connected = true;
            checked = checked;
            sessions = id ∷ sessions;
            monitor = looking;
          })
  look :
      {checked : List ℕ}
      → Step
          (record { connected = true; checked = checked; sessions = []; monitor = looking })
          (record { connected = true; checked = checked; sessions = []; monitor = closing })
  gone :
      {sessions : List ℕ} {checked : List ℕ}
      → Step
          (record { connected = false; checked = checked; sessions = sessions; monitor = looking })
          (record { connected = false; checked = checked; sessions = sessions; monitor = returned })
  close :
      {connected : Bool} {sessions : List ℕ} {checked : List ℕ}
      → Step
          (record {
            connected = connected;
            checked = checked;
            sessions = sessions;
            monitor = closing;
          })
          (record { connected = false; checked = checked; sessions = sessions; monitor = returned })
  close_failed :
      {connected : Bool} {sessions : List ℕ} {checked : List ℕ}
      → Step
          (record {
            connected = connected;
            checked = checked;
            sessions = sessions;
            monitor = closing;
          })
          (record {
            connected = connected;
            checked = checked;
            sessions = sessions;
            monitor = returned;
          })

-- A step at which the connection does not break by itself.
abbrev pub IsCalm : {s t : Shared} → Step s t → Type 0
IsCalm break = ⊥
IsCalm _ = Unit

-- Any number of steps at which the connection does not break.
pub data ReachCalm (s : Shared) : Shared → Type 0 where
  here : ReachCalm s s
  next : {t u : Shared} → ReachCalm s t → (step : Step t u) → IsCalm step → ReachCalm s u
