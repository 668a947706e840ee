-- ===== src/Store/Monitor/Held.antt =====
-- What waiting for the sessions gives: a session that is held when the monitor is told to stop.
use libvirt_operator.Prelude.{
  ℕ, true, List, [], ◌∷◌, ◌≡◌, ◌≢◌, ◌⊎◌, ◌∙◌, inr, refl, arith, any, ◌==◌,
}
use libvirt_operator.Store.Monitor.{
  serving, looking, Shared, Step, check, begin, swap, end, break, reconnect_failed, reconnect, stop,
  wait, look, gone, close, close_failed, without,
}

-- A step that is not the end of the session and at which the connection does not break by itself.
abbrev Leaves : {s t : Shared} → ℕ → Step s t → Type 0
Leaves id (end j) = j ≢ id
Leaves id break = ⊥
Leaves id _ = Unit

-- Any number of steps, none of which ends the session or breaks the connection.
pub data ReachLeaving (id : ℕ) (s : Shared) : Shared → Type 0 where
  here : ReachLeaving id s s
  next :
      {t u : Shared}
      → ReachLeaving id s t
      → (step : Step t u) → Leaves id step
      → ReachLeaving id s u

-- The session is in the map, its client is connected, and the monitor has not yet seen a map without
-- sessions.
pub record IsHeld (id : ℕ) (s : Shared) : Type 0 where
  pub begun : any (λ j. j == id) s.sessions ≡ true
  pub connected : s.connected ≡ true
  pub waiting : (s.monitor ≡ serving) ⊎ (s.monitor ≡ looking)

any-without :
    (id j : ℕ) (ids : List ℕ) → j ≢ id → any (λ i. i == id) (without j ids) ≡ any (λ i. i == id) ids
any-without id j [] other = refl
any-without id j (i ∷ ids) other = ground (arith, any-without id j ids other, other)

Step-IsHeld : {s t : Shared} (id : ℕ) (step : Step s t) → Leaves id step → IsHeld id s → IsHeld id t
Step-IsHeld id (check j) l i = record { begun = i.begun; connected = refl; waiting = i.waiting }
Step-IsHeld id (begin j) l i = record {
  begun = ground (arith, i.begun);
  connected = i.connected;
  waiting = i.waiting;
}
Step-IsHeld id (swap j k) l i = record {
  begun = i.begun;
  connected = i.connected;
  waiting = i.waiting;
}
Step-IsHeld id (end j) l i = record {
  begun = any-without id j _ l ∙ i.begun;
  connected = i.connected;
  waiting = i.waiting;
}
Step-IsHeld id break l i = absurd l
Step-IsHeld id reconnect_failed l i = absurd (ground (arith, i.connected))
Step-IsHeld id reconnect l i = absurd (ground (arith, i.connected))
Step-IsHeld id stop l i = record { begun = i.begun; connected = i.connected; waiting = inr refl }
Step-IsHeld id (wait j) l i = i
Step-IsHeld id look l i = absurd (ground (arith, i.begun))
Step-IsHeld id gone l i = absurd (ground (arith, i.connected))
Step-IsHeld id close l i = absurd (ground (arith, i.waiting))
Step-IsHeld id close_failed l i = absurd (ground (arith, i.waiting))

-- As long as the connection does not break by itself, a session that began before the monitor looked
-- at the sessions keeps a connected client until it is ended, whatever the other callers and the
-- monitor do.
pub ReachLeaving-IsHeld : (id : ℕ) {s t : Shared} → IsHeld id s → ReachLeaving id s t → IsHeld id t
ReachLeaving-IsHeld id held here = held
ReachLeaving-IsHeld id held (next steps step l) =
    Step-IsHeld id step l (ReachLeaving-IsHeld id held steps)
