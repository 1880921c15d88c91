-- ===== src/Agent/Pool/Ends.antt =====
-- What GetClient of internal/agent/connection_pool.go returns, run alone, over all its attempts.
use hsm_secrets_operator.Common.{
  ℕ, zero, suc, ◌+◌, ◌≡◌, refl, ap, subst, ◌⊎◌, inl, inr, true, false, Option, none, some,
  Option-cases, Bool-cases, ℤ, Str, get, delete, get-put_self, get-delete_self,
}
use hsm_secrets_operator.Common.State.{State}
use hsm_secrets_operator.Agent.Pool.{
  Dialer, PooledClient, ConnectionPool, ClientWrapper, reuse, count_total, count_failed, keep,
  initialize_client, create_client, remove_client, reuse_or_create, get_client_attempt, missing,
  rejected, round, retry, get_client,
}

module _ {C W : Type 0} (dialer : Dialer C W) (k : Str) where
  -- The pool holds the client of a wrapper, in use.
  abbrev Held : ClientWrapper C → ConnectionPool C → Type 0
  Held c p =
      (d : PooledClient C) × (get k p.clients ≡ some d) × (d.client ≡ c.client) × (d.in_use ≡ true)

  -- What an attempt comes to.
  abbrev Found : Option (ClientWrapper C) → ConnectionPool C → Type 0
  Found none p = get k p.clients ≡ none
  Found (some c) p = (c.endpoint ≡ k) × Held c p

  -- What GetClient comes to: no client, and none in the pool; a client that the last call found
  -- connected, and which the pool holds; or one that was found lost and then closed by the last
  -- call, and the pool holds none.
  abbrev pub Ended : Option (ClientWrapper C) → ConnectionPool C → W → Type 0
  Ended none p w = get k p.clients ≡ none
  Ended (some c) p w =
      (c.endpoint ≡ k)
      × (((v : W) × (dialer.is_connected c.client v ≡ (true, w)) × Held c p)
          ⊎ ((v : W) × (v' : W) × (dialer.is_connected c.client v ≡ (false, v'))
              × (w ≡ (dialer.close c.client v').1)
              × (get k p.clients ≡ none)))

  initialize_client-Found :
      (c : C) (now : ℤ) (p : ConnectionPool C) (w : W)
      → get k p.clients ≡ none
      → let (r, (p', w')) = initialize_client dialer c k now (p, w) in Found r p'
  unfolding initialize_client keep count_failed
  initialize_client-Found c now p w e = elim (Bool-cases (dialer.initialize c w).0) [
    | inl y ↦ rw (initialize_client, y) (refl, (_, get-put_self k _ p.clients, refl, refl))
    | inr n ↦ rw (initialize_client, n) e
  ]

  create_client-Found :
      (now : ℤ) (p : ConnectionPool C) (w : W)
      → get k p.clients ≡ none
      → let (r, (p', w')) = create_client dialer k now (p, w) in Found r p'
  unfolding create_client count_total count_failed
  create_client-Found now p w e = elim (Option-cases (dialer.new_grpc_client k w).0) [
    | inl f ↦ rw (create_client, f) e
    | inr (c, f) ↦
        rw (create_client, f)
          (initialize_client-Found c now (count_total dialer p) (dialer.new_grpc_client k w).1 e)
  ]

  reuse_or_create-Found :
      (c : PooledClient C) (now : ℤ) (p : ConnectionPool C) (w : W)
      → let (r, (p', w')) = reuse_or_create dialer c k now (p, w) in Found r p'
  unfolding reuse_or_create reuse
  reuse_or_create-Found c now p w = elim (Bool-cases (dialer.is_connected c.client w).0) [
    | inl y ↦ rw (reuse_or_create, y) (refl, (_, get-put_self k _ p.clients, refl, refl))
    | inr n ↦
        rw (reuse_or_create, n)
          (create_client-Found now (record p { clients = delete k p.clients }) _
            (get-delete_self k p.clients))
  ]

  get_client_attempt-Found :
      (p : ConnectionPool C) (w : W)
      → let (r, (p', w')) = get_client_attempt dialer k (p, w) in Found r p'
  unfolding get_client_attempt
  get_client_attempt-Found p w = elim (Option-cases (get k p.clients)) [
    | inl e ↦ rw (get_client_attempt, e) (create_client-Found _ p _ e)
    | inr (c, e) ↦ rw (get_client_attempt, e) (reuse_or_create-Found c _ p _)
  ]

  -- A rest of the loop that ends so.
  abbrev EndsSo : Option (State (ConnectionPool C × W) (Option (ClientWrapper C))) → Type 0
  EndsSo none = Unit
  EndsSo (some next) = (x : ConnectionPool C × W) → let (r, (p', w')) = next x in Ended r p' w'

  -- The removal of a client that the pool holds closes it.
  remove_client-held :
      (c : ClientWrapper C) (p : ConnectionPool C) (w : W)
      → Held c p
      → let (p', w') = remove_client dialer k (p, w) in
        (w' ≡ (dialer.close c.client w).1) × (get k p'.clients ≡ none)
  unfolding remove_client
  remove_client-held c p w (d, e, same, used) =
      rw (remove_client, e) (ap (λ x. (dialer.close x w).1) same, get-delete_self k p.clients)

  rejected-Ended :
      (attempt : ℕ) (again : Option (State (ConnectionPool C × W) (Option (ClientWrapper C))))
      (c : ClientWrapper C) (p : ConnectionPool C) (v w : W)
      → EndsSo again
      → c.endpoint ≡ k
      → Held c p
      → dialer.is_connected c.client v ≡ (false, w)
      → let (r, (p', w')) = rejected dialer k attempt again c (p, w) in Ended r p' w'
  unfolding rejected
  rejected-Ended attempt none c p v w ends e held lost =
      let (closed, gone) = remove_client-held c p w held in (e, inr (v, w, lost, closed, gone))
  rejected-Ended attempt (some next) c p v w ends e held lost = ends _

  missing-Ended :
      (attempt : ℕ) (again : Option (State (ConnectionPool C × W) (Option (ClientWrapper C))))
      (p : ConnectionPool C) (w : W)
      → EndsSo again
      → get k p.clients ≡ none
      → let (r, (p', w')) = missing dialer attempt again (p, w) in Ended r p' w'
  unfolding missing
  missing-Ended attempt none p w ends e = e
  missing-Ended attempt (some next) p w ends e = ends _

  answered :
      (c : C) (w : W) (b : _)
      → (dialer.is_connected c w).0 ≡ b
      → dialer.is_connected c w ≡ (b, (dialer.is_connected c w).1)
  answered c w b e = ap (λ x. (x, (dialer.is_connected c w).1)) e

  round-Ended :
      (attempt : ℕ) (again : Option (State (ConnectionPool C × W) (Option (ClientWrapper C))))
      (p : ConnectionPool C) (w : W)
      → EndsSo again
      → let (r, (p', w')) = round dialer k attempt again (p, w) in Ended r p' w'
  unfolding round
  round-Ended attempt again p w ends =
      let x = get_client_attempt dialer k (p, w) in
      let found = get_client_attempt-Found p w in
      elim (Option-cases x.0) [
        | inl e ↦
            rw (round, e)
              (missing-Ended attempt again x.1.0 x.1.1 ends (subst (λ r. Found r x.1.0) e found))
        | inr (c, e) ↦
            let (named, held) = subst (λ r. Found r x.1.0) e found in
            let v = x.1.1 in
            elim (Bool-cases (dialer.is_connected c.client v).0) [
              | inl y ↦ rw (round, e, y) (named, inl (v, answered c.client v true y, held))
              | inr n ↦
                  rw (round, e, n)
                    (rejected-Ended attempt again c x.1.0 v (dialer.is_connected c.client v).1 ends
                      named held (answered c.client v false n))
            ]
      ]

  retry-Ended :
      (attempt left : ℕ) (p : ConnectionPool C) (w : W)
      → let (r, (p', w')) = retry dialer k attempt left (p, w) in Ended r p' w'
  unfolding retry
  retry-Ended attempt zero p w = round-Ended attempt none p w tt
  retry-Ended attempt (suc left) p w =
      round-Ended attempt (some (retry dialer k (attempt + 1) left)) p w
        (λ (q, v). retry-Ended (attempt + 1) left q v)

  -- GetClient, run alone from any pool, returns no client only where none stands at the endpoint
  -- afterwards. A client that it returns is one for the endpoint, and either the last call found it
  -- connected and the pool holds it, marked as in use; or it was found lost and the last call closed
  -- it, and the pool holds no client for the endpoint, though no error is returned.
  pub get_client-Ended :
      (p : ConnectionPool C) (w : W)
      → let (r, (p', w')) = get_client dialer k (p, w) in Ended r p' w'
  unfolding get_client
  get_client-Ended p w = retry-Ended 1 2 p w
