-- ===== src/Action/Domain/Shutdown.antt =====
-- DomainAction.Shutdown of internal/action/domain.go: ask for the shutdown, then look at the state
-- once a second, 31 times at most. A failed query reports no state, as go-libvirt's does.
use libvirt_operator.Prelude.{
  ℕ, zero, suc, ◌≤◌, ◌<◌, String, Bool, true, false, [], ◌∷◌, ◌++◌, some, ◌≡◌, arith, if◌then◌else◌,
}
use libvirt_operator.Outcome.{ok, err, message, deref}
use libvirt_operator.Libvirt.{DomainId, DomainState}
use libvirt_operator.Host.{Client, domain_shutdown}
use libvirt_operator.Host.Monad.{World, host_call, M, pure, raise, lift, query, change, ◌>>=◌, ◌>>◌}
use libvirt_operator.Action.Domain.State.{DomainAction, is_shutoff}

abbrev pub err_shutdown_timed_out : String
err_shutdown_timed_out = "shutdown timed out"

abbrev pub max_retries : ℕ
max_retries = 30

module _ {S O : Type 0} (c : Client S) where
  abbrev sleep : M S O (Unit {0})
  sleep w = (ok tt, record w { host = c.sleep w.host })

  -- The loop with the number of retries that are left.
  unfoldable pub wait_shutoff : DomainId → ℕ → M S O (Unit {0})
  wait_shutoff id zero = do
    state ← query (c.domain_get_state id)
    if is_shutoff state then pure tt else raise (message err_shutdown_timed_out)
  wait_shutoff id (suc left) = do
    let again = sleep >> wait_shutoff id left
    state ← query (c.domain_get_state id)
    if is_shutoff state then pure tt else again

  unfoldable pub shutdown : DomainAction → M S O (Unit {0})
  shutdown a = do
    id ← lift (deref a.id)
    change (domain_shutdown id) (c.domain_shutdown id)
    wait_shutoff id max_retries

-- The host after a number of seconds.
unfoldable pub after_sleeps : {S : Type 0} → Client S → ℕ → S → S
after_sleeps c zero s = s
after_sleeps c (suc k) s = after_sleeps c k (c.sleep s)

module _ {S : Type 0} (c : Client S) (id : DomainId) where
  -- The host reports a state of the domain, and whether that is shutoff.
  abbrev pub Reports : Bool → S → Type 0
  Reports off s =
      (state : DomainState) × (c.domain_get_state id s ≡ ok state) × (is_shutoff state ≡ off)

module _ {S O : Type 0} (c : Client S) (id : DomainId) where
  wait_off :
      (left k : ℕ) (w : World S O)
      → k ≤ left
      → ((j : ℕ) → j < k → Reports c id false (after_sleeps c j w.host))
      → Reports c id true (after_sleeps c k w.host)
      → wait_shutoff c id left w ≡ (ok tt, record w { host = after_sleeps c k w.host })
  unfolding wait_shutoff after_sleeps
  wait_off zero zero w le pending (st, e, o) = rw (e, o)
  wait_off zero (suc k) w le pending off = elim le [ ]
  wait_off (suc left) zero w le pending (st, e, o) = rw (e, o)
  wait_off (suc left) (suc k) w le pending off =
      let (st, e, o) = pending 0 (omega arith) in
      rw (e, o)
        (wait_off left k (record w { host = c.sleep w.host }) (omega arith)
          (λ j h. pending (suc j) (omega arith)) off)

  wait_timeout :
      (left : ℕ) (w : World S O)
      → ((j : ℕ) → j ≤ left → Reports c id false (after_sleeps c j w.host))
      → wait_shutoff c id left w
        ≡ (err (message err_shutdown_timed_out), record w { host = after_sleeps c left w.host })
  unfolding wait_shutoff after_sleeps
  wait_timeout zero w pending = let (st, e, o) = pending 0 (omega arith) in rw (e, o)
  wait_timeout (suc left) w pending =
      let (st, e, o) = pending 0 (omega arith) in
      rw (e, o)
        (wait_timeout left (record w { host = c.sleep w.host })
          (λ j h. pending (suc j) (omega arith)))

module _ {S O : Type 0} (c : Client S) (a : DomainAction) (id : DomainId) (s' : S) where
  -- When the host accepts the request and first reports the domain off after k ≤ 30 seconds, Shutdown
  -- succeeds then.
  pub shutdown_in_time :
      (k : ℕ) (w : World S O)
      → a.id ≡ some id
      → c.domain_shutdown id w.host ≡ (ok tt, s')
      → k ≤ max_retries
      → ((j : ℕ) → j < k → Reports c id false (after_sleeps c j s'))
      → Reports c id true (after_sleeps c k s')
      → shutdown c a w ≡ (
        ok tt,
        record { host = after_sleeps c k s'; log = w.log ++ host_call (domain_shutdown id) ∷ [] },
      )
  unfolding shutdown
  shutdown_in_time k w e accepted le pending off = ground (
    arith,
    e,
    accepted,
    wait_off c id max_retries k
        (record { host = s'; log = w.log ++ host_call (domain_shutdown id) ∷ [] }) le pending off,
  )

  -- When it reports another state at each of the 31 looks, Shutdown fails with its own error after 30
  -- seconds.
  pub shutdown_times_out :
      (w : World S O)
      → a.id ≡ some id
      → c.domain_shutdown id w.host ≡ (ok tt, s')
      → ((j : ℕ) → j ≤ max_retries → Reports c id false (after_sleeps c j s'))
      → shutdown c a w ≡ (
        err (message err_shutdown_timed_out),
        record {
          host = after_sleeps c max_retries s';
          log = w.log ++ host_call (domain_shutdown id) ∷ [];
        },
      )
  unfolding shutdown
  shutdown_times_out w e accepted pending = ground (
    arith,
    e,
    accepted,
    wait_timeout c id max_retries
        (record { host = s'; log = w.log ++ host_call (domain_shutdown id) ∷ [] }) pending,
  )
