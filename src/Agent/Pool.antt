-- ===== src/Agent/Pool.antt =====
-- internal/agent/connection_pool.go: ConnectionPool, which keeps one gRPC client for each endpoint.
-- The methods are written as they run alone. GetClient and HealthCheckClient let go of the lock of the
-- pool between their critical sections; Agent/Pool/Reach takes those sections as the steps, in any
-- order.
pub mod Laws
pub mod Reach
pub mod Ends
use hsm_secrets_operator.Common.{
  ℕ, zero, suc, ◌+◌, ◌-◌, ◌%◌, List, [], ◌∷◌, Bool, true, false, not, Option, none, some,
  if◌then◌else◌, ltb, ◌==◌, ℤ, pos, negsuc, Str, Dict, get, put, delete, length,
}
use hsm_secrets_operator.Common.State.{State}

-- The gRPC clients and the clock: NewGRPCClient, Initialize, IsConnected, Close, time.Now and
-- time.Sleep in seconds. A Boolean tells whether there was no error.
pub record Dialer (C W : Type 0) : Type 0 where
  pub new_grpc_client : Str → State W (Option C)
  pub initialize : C → State W Bool
  pub is_connected : C → State W Bool
  pub close : C → State W Bool
  pub now : State W ℤ
  pub sleep : ℕ → State W (Unit {0})

-- PooledClient; `ref_count` is an int32
pub record PooledClient (C : Type 0) : Type 0 where
  pub client : C
  pub endpoint : Str
  pub created_at : ℤ
  pub last_used : ℤ
  pub usage_count : ℕ
  pub in_use : Bool
  pub ref_count : ℤ
  pub last_op_start : ℤ

-- ConnectionPoolMetrics; the counters are 64 bits wide
pub record Metrics : Type 0 where
  pub total_connections : ℕ
  pub successful_connections : ℕ
  pub failed_connections : ℕ
  pub connection_reuses : ℕ
  pub health_check_passes : ℕ
  pub health_check_failures : ℕ
  pub connection_timeouts : ℕ
  pub retry_attempts : ℕ

-- ConnectionPool; `stopped` tells that stopOnce has run
pub record ConnectionPool (C : Type 0) : Type 0 where
  pub clients : Dict (PooledClient C)
  pub metrics : Metrics
  pub stopped : Bool

-- ClientWrapper
pub record ClientWrapper (C : Type 0) : Type 0 where
  pub client : C
  pub endpoint : Str

-- NewConnectionPool
unfoldable pub new_connection_pool : {C : Type 0} → ConnectionPool C
new_connection_pool = record {
  clients = [];
  metrics = record {
    total_connections = 0;
    successful_connections = 0;
    failed_connections = 0;
    connection_reuses = 0;
    health_check_passes = 0;
    health_check_failures = 0;
    connection_timeouts = 0;
    retry_attempts = 0;
  };
  stopped = false;
}

-- n++ on 64 bits
unfoldable pub inc : ℕ → ℕ
inc n = (n + 1) % 18446744073709551616

-- atomic.AddInt32 by 1 and by -1
unfoldable add_ref : ℤ → ℤ
add_ref (pos n) = if n == 2147483647 then negsuc 2147483647 else pos (n + 1)
add_ref (negsuc zero) = pos 0
add_ref (negsuc (suc n)) = negsuc n

unfoldable pub drop_ref : ℤ → ℤ
drop_ref (pos zero) = negsuc 0
drop_ref (pos (suc n)) = pos n
drop_ref (negsuc n) = if n == 2147483647 then pos 2147483647 else negsuc (n + 1)

-- newRefCount <= 0
unfoldable pub is_free : ℤ → Bool
is_free (pos zero) = true
is_free (pos (suc n)) = false
is_free (negsuc n) = true

module _ {C W : Type 0} (dialer : Dialer C W) where
  abbrev World : Type 0
  World = ConnectionPool C × W

  -- the use of a cached client that is connected
  unfoldable pub reuse : PooledClient C → Str → ℤ → ConnectionPool C → ConnectionPool C
  unfolding inc add_ref
  reuse pooled endpoint now p = record p {
    clients =
        put endpoint
          (record pooled {
            last_used = now;
            usage_count = inc pooled.usage_count;
            in_use = true;
            last_op_start = now;
            ref_count = add_ref pooled.ref_count;
          })
          p.clients;
    metrics = record p.metrics { connection_reuses = inc p.metrics.connection_reuses };
  }

  unfoldable pub count_total : ConnectionPool C → ConnectionPool C
  unfolding inc
  count_total p = record p {
    metrics = record p.metrics { total_connections = inc p.metrics.total_connections };
  }

  unfoldable pub count_failed : ConnectionPool C → ConnectionPool C
  unfolding inc
  count_failed p = record p {
    metrics = record p.metrics { failed_connections = inc p.metrics.failed_connections };
  }

  -- the new client in the cache
  unfoldable pub keep : C → Str → ℤ → ConnectionPool C → ConnectionPool C
  unfolding inc
  keep c endpoint now p = record p {
    clients =
        put endpoint
          (record {
            client = c;
            endpoint = endpoint;
            created_at = now;
            last_used = now;
            usage_count = 1;
            in_use = true;
            ref_count = pos 1;
            last_op_start = now;
          })
          p.clients;
    metrics = record p.metrics { successful_connections = inc p.metrics.successful_connections };
  }

  -- Initialize on a new client
  unfoldable pub initialize_client : C → Str → ℤ → State World (Option (ClientWrapper C))
  unfolding count_failed keep
  initialize_client c endpoint now (p, w) =
      let (good, w') = dialer.initialize c w in
      elim good [
        | true ↦ (some (record { client = c; endpoint = endpoint }), (keep c endpoint now p, w'))
        | false ↦ let (closed, w'') = dialer.close c w' in (none, (count_failed p, w''))
      ]

  -- the creation of a client
  unfoldable pub create_client : Str → ℤ → State World (Option (ClientWrapper C))
  unfolding count_total count_failed initialize_client
  create_client endpoint now (p, w) =
      let (made, w') = dialer.new_grpc_client endpoint w in
      elim made [
        | none ↦ (none, (count_failed (count_total p), w'))
        | some c ↦ initialize_client c endpoint now (count_total p, w')
      ]

  -- RemoveClient
  unfoldable pub remove_client : Str → World → World
  remove_client endpoint (p, w) = elim (get endpoint p.clients) [
    | none ↦ (p, w)
    | some pooled ↦
        let (closed, w') = dialer.close pooled.client w in
        (record p { clients = delete endpoint p.clients }, w')
  ]

  -- the cached client, if it is connected, or else a new one
  unfoldable pub reuse_or_create : PooledClient C → Str → ℤ → State World (Option (ClientWrapper C))
  unfolding reuse create_client
  reuse_or_create pooled endpoint now (p, w) =
      let (on, w') = dialer.is_connected pooled.client w in
      elim on [
        | true ↦ (
          some (record { client = pooled.client; endpoint = endpoint }),
          (reuse pooled endpoint now p, w'),
        )
        | false ↦
            let (closed, w'') = dialer.close pooled.client w' in
            create_client endpoint now (record p { clients = delete endpoint p.clients }, w'')
      ]

  -- getClientAttempt
  unfoldable pub get_client_attempt : Str → State World (Option (ClientWrapper C))
  unfolding reuse_or_create create_client
  get_client_attempt endpoint (p, w) =
      let (now, w') = dialer.now w in
      elim (get endpoint p.clients) [
        | none ↦ create_client endpoint now (p, w')
        | some pooled ↦ reuse_or_create pooled endpoint now (p, w')
      ]

  -- cp.metrics.RetryAttempts++, outside the lock
  unfoldable pub count_retry : ConnectionPool C → ConnectionPool C
  unfolding inc
  count_retry p = record p {
    metrics = record p.metrics { retry_attempts = inc p.metrics.retry_attempts };
  }

  -- time.Sleep(backoffDuration), outside the lock
  unfoldable pub pause : ℕ → World → World
  pause attempt (p, w) = let (u, w') = dialer.sleep attempt w in (p, w')

  -- no client, at an attempt; `again` is the rest of the loop, if attempts are left
  unfoldable pub missing :
      ℕ → Option (State World (Option (ClientWrapper C))) → State World (Option (ClientWrapper C))
  unfolding count_retry pause
  missing attempt none (p, w) = (none, (p, w))
  missing attempt (some next) (p, w) = next (pause attempt (count_retry p, w))

  -- A client that fails the check is removed; where no attempt is left it is returned nevertheless.
  unfoldable pub rejected :
      Str
      → ℕ
      → Option (State World (Option (ClientWrapper C)))
      → ClientWrapper C
      → State World (Option (ClientWrapper C))
  unfolding remove_client pause
  rejected endpoint attempt none c world = (some c, remove_client endpoint world)
  rejected endpoint attempt (some next) c world =
      next (pause attempt (remove_client endpoint world))

  -- one round of the loop of getClientWithRetry
  unfoldable pub round :
      Str
      → ℕ
      → Option (State World (Option (ClientWrapper C)))
      → State World (Option (ClientWrapper C))
  unfolding get_client_attempt missing rejected
  round endpoint attempt again world =
      let (r, (p, w)) = get_client_attempt endpoint world in
      elim r [
        | none ↦ missing attempt again (p, w)
        | some c ↦
            let (on, w') = dialer.is_connected c.client w in
            elim on [ true ↦ (some c, (p, w')) | false ↦ rejected endpoint attempt again c (p, w') ]
      ]

  -- getClientWithRetry at an attempt, with `left` attempts after it
  unfoldable pub retry : Str → ℕ → ℕ → State World (Option (ClientWrapper C))
  unfolding round
  retry endpoint attempt zero = round endpoint attempt none
  retry endpoint attempt (suc left) =
      round endpoint attempt (some (retry endpoint (attempt + 1) left))

  -- GetClient
  unfoldable pub get_client : Str → State World (Option (ClientWrapper C))
  unfolding retry
  get_client endpoint = retry endpoint 1 2

  -- ClientWrapper.Close
  unfoldable pub close_wrapper : ClientWrapper C → World → World
  unfolding drop_ref is_free
  close_wrapper c (p, w) = elim (get c.endpoint p.clients) [
    | none ↦ (p, w)
    | some pooled ↦
        let refs = drop_ref pooled.ref_count in
        (
          record p {
            clients =
                put c.endpoint
                  (record pooled {
                    ref_count = refs;
                    in_use = if is_free refs then false else pooled.in_use;
                  })
                  p.clients;
          },
          w,
        )
  ]

  close_each : Dict (PooledClient C) → W → W
  close_each [] w = w
  close_each ((endpoint, pooled) ∷ clients) w =
      let (closed, w') = dialer.close pooled.client w in close_each clients w'

  -- Close
  unfoldable pub close_pool : World → World
  unfolding close_each
  close_pool (p, w) =
      if p.stopped
      then (p, w)
      else (record p { clients = []; stopped = true }, close_each p.clients w)

  -- the counts of HealthCheckClient, outside the lock
  unfoldable pub count_check : Bool → ConnectionPool C → ConnectionPool C
  unfolding inc
  count_check true p = record p {
    metrics = record p.metrics { health_check_passes = inc p.metrics.health_check_passes };
  }
  count_check false p = record p {
    metrics = record p.metrics { health_check_failures = inc p.metrics.health_check_failures };
  }

  -- HealthCheckClient; true is no error
  unfoldable pub health_check_client : Str → State World Bool
  unfolding remove_client count_check
  health_check_client endpoint (p, w) = elim (get endpoint p.clients) [
    | none ↦ (false, (p, w))
    | some pooled ↦
        let (on, w') = dialer.is_connected pooled.client w in
        elim on [
          | true ↦ (true, (count_check true p, w'))
          | false ↦ (false, remove_client endpoint (count_check false p, w'))
        ]
  ]

-- the numbers of GetStats: all connections, those in use, and the uses in all
unfoldable stats_of : {C : Type 0} → Dict (PooledClient C) → ℕ × ℕ × ℕ
stats_of [] = (0, 0, 0)
stats_of ((endpoint, pooled) ∷ clients) =
    let (active, used, usage) = stats_of clients in
    (
      active + 1,
      (if pooled.in_use then used + 1 else used),
      (usage + pooled.usage_count) % 18446744073709551616,
    )
