-- ===== src/Agent/Pool/Reach.antt =====
-- Every sequence of the critical sections of internal/agent/connection_pool.go, in any order.
use hsm_secrets_operator.Common.{
  ℕ, zero, suc, ◌+◌, ◌≡◌, refl, Option-cases, Bool-cases, inl, inr, false, Option, none, some,
  negsuc, Str, get,
}
use hsm_secrets_operator.Common.State.{State}
use hsm_secrets_operator.Agent.Pool.{
  Dialer, PooledClient, ConnectionPool, ClientWrapper, new_connection_pool, remove_client,
  get_client_attempt, count_retry, pause, missing, rejected, round, retry, get_client,
  close_wrapper, close_pool, count_check, health_check_client,
}
use hsm_secrets_operator.Agent.Pool.Laws.{
  IsSound, get_client_attempt-IsSound, remove_client-IsSound, close_wrapper-IsSound,
  close_pool-IsSound,
}

-- Any values of the counts that are written outside the lock.
abbrev recount : {C : Type 0} → ℕ → ℕ → ℕ → ConnectionPool C → ConnectionPool C
recount retries passes failures p = record p {
  metrics = record p.metrics {
    retry_attempts = retries;
    health_check_passes = passes;
    health_check_failures = failures;
  };
}

-- One critical section of the pool, or what happens between them. A wrapper is closed where the count
-- of its endpoint is not the least int32.
pub data Step {C W : Type 0} (dialer : Dialer C W)
    : ConnectionPool C × W → ConnectionPool C × W → Type 0 where
  -- an attempt of GetClient
  attempts :
      (endpoint : Str) (p : ConnectionPool C) (w : W)
      → Step dialer (p, w) (get_client_attempt dialer endpoint (p, w)).1
  -- whatever changes outside the pool: a check of a client, a sleep, another program
  outside : (p : ConnectionPool C) (w w' : W) → Step dialer (p, w) (p, w')
  -- the counts that are written outside the lock, where writes may be lost
  counts :
      (retries passes failures : ℕ) (p : ConnectionPool C) (w : W)
      → Step dialer (p, w) (recount retries passes failures p, w)
  closes :
      (c : ClientWrapper C) (p : ConnectionPool C) (w : W)
      → ((d : PooledClient C)
          → get c.endpoint p.clients ≡ some d
          → ¬ (d.ref_count ≡ negsuc 2147483647))
      → Step dialer (p, w) (close_wrapper dialer c (p, w))
  removes :
      (endpoint : Str) (p : ConnectionPool C) (w : W)
      → Step dialer (p, w) (remove_client dialer endpoint (p, w))
  stops : (p : ConnectionPool C) (w : W) → Step dialer (p, w) (close_pool dialer (p, w))

-- A sequence of steps.
pub data Reach {C W : Type 0} (dialer : Dialer C W)
    : ConnectionPool C × W → ConnectionPool C × W → Type 0 where
  start : {x : ConnectionPool C × W} → Reach dialer x x
  step : {x y z : ConnectionPool C × W} → Reach dialer x y → Step dialer y z → Reach dialer x z

module _ {C W : Type 0} (dialer : Dialer C W) where
  Step-IsSound : (x y : ConnectionPool C × W) → Step dialer x y → IsSound x.0 → IsSound y.0
  Step-IsSound _ _ (attempts endpoint p w) sound =
      get_client_attempt-IsSound dialer endpoint p w sound
  Step-IsSound _ _ (outside p w w') sound = sound
  Step-IsSound _ _ (counts retries passes failures p w) sound = sound
  Step-IsSound _ _ (closes c p w least) sound = close_wrapper-IsSound dialer c p w least sound
  Step-IsSound _ _ (removes endpoint p w) sound = remove_client-IsSound dialer endpoint p w sound
  Step-IsSound _ _ (stops p w) sound = close_pool-IsSound dialer p w sound

  Reach-keeps : (x y : ConnectionPool C × W) → Reach dialer x y → IsSound x.0 → IsSound y.0
  Reach-keeps _ _ start sound = sound
  Reach-keeps x z (step {y = y} before last) sound =
      Step-IsSound y z last (Reach-keeps x y before sound)

  -- After every sequence of the critical sections of the pool's methods from a new pool, with
  -- anything in between that leaves the pool alone but for the counts written outside its lock, and
  -- in which no wrapper is closed at the least count, the attempts to connect are the successes and
  -- the failures modulo 2^64, every client stands under its endpoint, and a client that is referred
  -- to is marked as in use.
  pub Reach-IsSound :
      (w : W) (x : ConnectionPool C × W) → Reach dialer (new_connection_pool, w) x → IsSound x.0
  unfolding new_connection_pool get
  Reach-IsSound w x steps = Reach-keeps (new_connection_pool, w) x steps (refl, λ k c h. cc h)

  join : (x y z : ConnectionPool C × W) → Reach dialer x y → Reach dialer y z → Reach dialer x z
  join x y _ r start = r
  join x y z r (step {y = v} before last) = step (join x y v r before) last

  -- A rest of the loop of GetClient that goes by steps.
  abbrev GoesOn : Option (State (ConnectionPool C × W) (Option (ClientWrapper C))) → Type 0
  GoesOn none = Unit
  GoesOn (some next) = (x : ConnectionPool C × W) → Reach dialer x (next x).1

  counted : (p : ConnectionPool C) (w v : W) → Reach dialer (p, w) (count_retry dialer p, v)
  unfolding count_retry
  counted p w v = step (step start (outside p w v)) (counts _ _ _ p v)

  rejected-Reach :
      (k : Str) (attempt : ℕ)
      (again : Option (State (ConnectionPool C × W) (Option (ClientWrapper C))))
      (c : ClientWrapper C) (p : ConnectionPool C) (w : W)
      → GoesOn again
      → Reach dialer (p, w) (rejected dialer k attempt again c (p, w)).1
  unfolding rejected pause
  rejected-Reach k attempt none c p w on = step start (removes k p w)
  rejected-Reach k attempt (some next) c p w on =
      let x = remove_client dialer k (p, w) in
      join (p, w) (x.0, (dialer.sleep attempt x.1).1) _
        (step (step start (removes k p w)) (outside x.0 x.1 (dialer.sleep attempt x.1).1)) (on _)

  missing-Reach :
      (attempt : ℕ) (again : Option (State (ConnectionPool C × W) (Option (ClientWrapper C))))
      (p : ConnectionPool C) (w : W)
      → GoesOn again
      → Reach dialer (p, w) (missing dialer attempt again (p, w)).1
  unfolding missing pause
  missing-Reach attempt none p w on = start
  missing-Reach attempt (some next) p w on =
      join (p, w) (count_retry dialer p, (dialer.sleep attempt w).1) _
        (counted p w (dialer.sleep attempt w).1) (on _)

  round-Reach :
      (k : Str) (attempt : ℕ)
      (again : Option (State (ConnectionPool C × W) (Option (ClientWrapper C))))
      (p : ConnectionPool C) (w : W)
      → GoesOn again
      → Reach dialer (p, w) (round dialer k attempt again (p, w)).1
  unfolding round
  round-Reach k attempt again p w on =
      let x = (get_client_attempt dialer k (p, w)).1 in
      let first = step start (attempts k p w) in
      elim (Option-cases (get_client_attempt dialer k (p, w)).0) [
        | inl e ↦ rw (round, e) (join (p, w) x _ first (missing-Reach attempt again x.0 x.1 on))
        | inr (c, e) ↦
            let w' = (dialer.is_connected c.client x.1).1 in
            let second = step first (outside x.0 x.1 w') in
            elim (Bool-cases (dialer.is_connected c.client x.1).0) [
              | inl y ↦ rw (round, e, y) second
              | inr n ↦
                  rw (round, e, n)
                    (join (p, w) (x.0, w') _ second (rejected-Reach k attempt again c x.0 w' on))
            ]
      ]

  retry-Reach :
      (k : Str) (attempt left : ℕ) (x : ConnectionPool C × W)
      → Reach dialer x (retry dialer k attempt left x).1
  unfolding retry
  retry-Reach k attempt zero (p, w) = round-Reach k attempt none p w tt
  retry-Reach k attempt (suc left) (p, w) =
      round-Reach k attempt (some (retry dialer k (attempt + 1) left)) p w
        (λ x. retry-Reach k (attempt + 1) left x)

  -- GetClient that runs alone is such a sequence.
  pub get_client-Reach :
      (k : Str) (x : ConnectionPool C × W) → Reach dialer x (get_client dialer k x).1
  unfolding get_client
  get_client-Reach k x = retry-Reach k 1 2 x

  health_check_client-Reach :
      (k : Str) (p : ConnectionPool C) (w : W)
      → Reach dialer (p, w) (health_check_client dialer k (p, w)).1
  unfolding health_check_client count_check
  health_check_client-Reach k p w = elim (Option-cases (get k p.clients)) [
    | inl e ↦ rw (health_check_client, e) start
    | inr (c, e) ↦
        let v = (dialer.is_connected c.client w).1 in
        let looked = step start (outside p w v) in
        elim (Bool-cases (dialer.is_connected c.client w).0) [
          | inl y ↦ rw (health_check_client, e, y) (step looked (counts _ _ _ p v))
          | inr n ↦
              rw (health_check_client, e, n)
                (step (step looked (counts _ _ _ p v)) (removes k (count_check dialer false p) v))
        ]
  ]
