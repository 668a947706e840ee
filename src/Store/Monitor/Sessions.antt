-- ===== src/Store/Monitor/Sessions.antt =====
-- Sessions and the client that they are given.
use libvirt_operator.Prelude.{ℕ, Bool, true, false, List, [], ◌∷◌, ◌≡◌, ◌≢◌, ◌⊎◌, inl, inr, refl}
use libvirt_operator.Store.Monitor.{
  serving, closing, returned, Shared, Step, ReachCalm, IsCalm, here, next, check, begin, swap, end,
  break, reconnect_failed, reconnect, stop, wait, look, gone, close, close_failed, without,
}

-- Somebody holds a session, or has seen the client connected and is about to get one.
abbrev pub InUse : List ℕ → List ℕ → Type 0
InUse sessions checked = (sessions ≢ []) ⊎ (checked ≢ [])

-- While the monitor has not returned, whoever has a session or is about to get one has a client that
-- is connected.
pub record IsServed (s : Shared) : Type 0 where
  pub client : s.monitor ≢ returned → InUse s.sessions s.checked → s.connected ≡ true
  pub looked : s.monitor ≡ closing → s.connected ≡ true

InUse-without :
    (id : ℕ) (sessions checked : List ℕ)
    → InUse (without id sessions) checked
    → InUse sessions checked
InUse-without id sessions checked (inl some_left) = inl (λ e. some_left (rw e refl))
InUse-without id sessions checked (inr waiting) = inr waiting

Step-IsServed : {s t : Shared} (step : Step s t) → IsCalm step → IsServed s → IsServed t
Step-IsServed (check id) calm i = record { client = λ m u. refl; looked = λ m. refl }
Step-IsServed (begin id) calm i = record {
  client = λ m u. i.client m (inr (λ e. cc));
  looked = i.looked;
}
Step-IsServed (swap a b) calm i = record {
  client = λ m u. i.client m (inr (λ e. cc));
  looked = i.looked;
}
Step-IsServed (end id) calm i = record {
  client = λ m u. i.client m (InUse-without id _ _ u);
  looked = i.looked;
}
Step-IsServed break calm i = absurd calm
Step-IsServed reconnect_failed calm i = i
Step-IsServed reconnect calm i = record { client = λ m u. refl; looked = λ m. refl }
Step-IsServed stop calm i = record { client = λ m u. i.client (λ e. cc) u; looked = λ m. cc }
Step-IsServed (wait id) calm i = i
Step-IsServed look calm i = record { client = λ m u. refl; looked = λ m. refl }
Step-IsServed gone calm i = record { client = λ m u. absurd (m refl); looked = λ m. cc }
Step-IsServed close calm i = record { client = λ m u. absurd (m refl); looked = λ m. cc }
Step-IsServed close_failed calm i = record { client = λ m u. absurd (m refl); looked = λ m. cc }

-- A new entry: the client as Connect left it, and no session.
abbrev pub new_entry : Bool → Shared
new_entry connected = record {
  connected = connected;
  checked = [];
  sessions = [];
  monitor = serving;
}

-- As long as the connection does not break by itself and the goroutine of an entry has not returned,
-- every caller of Session that has a session, or has passed its check, has a connected client.
pub ReachCalm-IsServed :
    {connects : Bool} {s : Shared} → ReachCalm (new_entry connects) s → IsServed s
ReachCalm-IsServed here = record {
  client =
      λ m u. elim u [ inl none_of ↦ absurd (none_of refl) | inr none_of ↦ absurd (none_of refl) ];
  looked = λ m. cc;
}
ReachCalm-IsServed (next r st calm) = Step-IsServed st calm (ReachCalm-IsServed r)

-- The check and the lock are apart: whenever an entry without sessions is connected and is told to
-- stop, some order of the steps of Session and of gracefulDisconnect gives a session whose client is
-- disconnected under it, without any step at which the connection breaks by itself.
pub ReachCalm-closed :
    (id : ℕ) (checked : List ℕ)
    → (t : Shared) × ReachCalm
        (record { connected = true; checked = checked; sessions = []; monitor = serving })
        t
      × (t.sessions ≡ id ∷ [])
      × (t.connected ≡ false)
ReachCalm-closed id checked = (
  record { connected = false; checked = checked; sessions = id ∷ []; monitor = returned },
  next (next (next (next (next here (check id) tt) stop tt) look tt) (begin id) tt) close tt,
  refl,
  refl,
)
