-- ===== src/Agent/Pool/Laws.antt =====
-- The invariant of the pool of internal/agent/connection_pool.go under each of its critical
-- sections.
use hsm_secrets_operator.Common.{
  ℕ, zero, suc, ◌+◌, ◌%◌, ◌==◌, ==_iff, ◌≡◌, refl, ap, subst, ◌∙◌, inl, inr, Bool, true, false,
  some, if◌then◌else◌, Option-cases, Bool-cases, ℤ, pos, negsuc, Str, str_eq, str_eq_iff, Dict, get,
  put, delete, get-put, get-delete, arith,
}
use hsm_secrets_operator.Agent.Pool.{
  Dialer, PooledClient, Metrics, ConnectionPool, ClientWrapper, inc, drop_ref, is_free, reuse,
  count_total, count_failed, keep, initialize_client, create_client, remove_client, reuse_or_create,
  get_client_attempt, close_wrapper, close_pool,
}

-- Every attempt to connect that is over was counted as a success or as a failure.
abbrev IsBalanced : Metrics → Type 0
IsBalanced m =
    m.total_connections ≡ (m.successful_connections + m.failed_connections) % 18446744073709551616

-- Each client stands under its endpoint, and one that is referred to is marked as in use.
abbrev IsKept : {C : Type 0} → Dict (PooledClient C) → Type 0
IsKept clients =
    (k : Str) (c : _)
    → get k clients ≡ some c
    → (c.endpoint ≡ k) × (is_free c.ref_count ≡ false → c.in_use ≡ true)

abbrev pub IsSound : {C : Type 0} → ConnectionPool C → Type 0
IsSound p = IsBalanced p.metrics × IsKept p.clients

module _ {C : Type 0} where
  put-IsKept :
      (k : Str) (c : PooledClient C) (clients : Dict (PooledClient C))
      → c.endpoint ≡ k
      → (is_free c.ref_count ≡ false → c.in_use ≡ true)
      → IsKept clients
      → IsKept (put k c clients)
  put-IsKept k c clients e u kept j d h = elim (Bool-cases (str_eq k j)) [
    | inl y ↦
        let same : k ≡ j = (str_eq_iff k j).0 y in
        let f : some c ≡ some d = cc (get-put k j c clients, h, y) in
        let one : c ≡ d = cc f in
        subst (λ x. (x.endpoint ≡ j) × (is_free x.ref_count ≡ false → x.in_use ≡ true)) one
          (e ∙ same, u)
    | inr n ↦ kept j d (cc (get-put k j c clients, h, n))
  ]

  delete-IsKept :
      (k : Str) (clients : Dict (PooledClient C)) → IsKept clients → IsKept (delete k clients)
  delete-IsKept k clients kept j d h = elim (Bool-cases (str_eq k j)) [
    | inl y ↦ cc (get-delete k j clients, h, y)
    | inr n ↦ kept j d (cc (get-delete k j clients, h, n))
  ]

succeeded :
    (t s f : ℕ) → t ≡ (s + f) % 18446744073709551616 → inc t ≡ (inc s + f) % 18446744073709551616
unfolding inc
succeeded t s f h = omega arith

missed :
    (t s f : ℕ) → t ≡ (s + f) % 18446744073709551616 → inc t ≡ (s + inc f) % 18446744073709551616
unfolding inc
missed t s f h = omega arith

module _ {C W : Type 0} (dialer : Dialer C W) where
  initialize_client-IsSound :
      (c : C) (k : Str) (now : ℤ) (p : ConnectionPool C) (w : W)
      → IsSound p
      → IsSound (initialize_client dialer c k now (count_total dialer p, w)).1.0
  unfolding initialize_client count_total keep count_failed is_free
  initialize_client-IsSound c k now p w (balanced, kept) =
      elim (Bool-cases (dialer.initialize c w).0) [
        | inl y ↦
            rw (initialize_client, y)
              (
                succeeded p.metrics.total_connections p.metrics.successful_connections
                    p.metrics.failed_connections balanced,
                put-IsKept k _ p.clients refl (λ h. refl) kept,
              )
        | inr n ↦
            rw (initialize_client, n)
              (
                missed p.metrics.total_connections p.metrics.successful_connections
                    p.metrics.failed_connections balanced,
                kept,
              )
      ]

  create_client-IsSound :
      (k : Str) (now : ℤ) (p : ConnectionPool C) (w : W)
      → IsSound p
      → IsSound (create_client dialer k now (p, w)).1.0
  unfolding create_client count_total count_failed
  create_client-IsSound k now p w (balanced, kept) =
      elim (Option-cases (dialer.new_grpc_client k w).0) [
        | inl e ↦
            rw (create_client, e)
              (
                missed p.metrics.total_connections p.metrics.successful_connections
                    p.metrics.failed_connections balanced,
                kept,
              )
        | inr (c, e) ↦
            rw (create_client, e)
              (initialize_client-IsSound c k now p (dialer.new_grpc_client k w).1 (balanced, kept))
      ]

  pub remove_client-IsSound :
      (k : Str) (p : ConnectionPool C) (w : W)
      → IsSound p
      → IsSound (remove_client dialer k (p, w)).0
  unfolding remove_client
  remove_client-IsSound k p w (balanced, kept) = elim (Option-cases (get k p.clients)) [
    | inl e ↦ rw (remove_client, e) (balanced, kept)
    | inr (c, e) ↦ rw (remove_client, e) (balanced, delete-IsKept k p.clients kept)
  ]

  reuse_or_create-IsSound :
      (c : PooledClient C) (k : Str) (now : ℤ) (p : ConnectionPool C) (w : W)
      → get k p.clients ≡ some c
      → IsSound p
      → IsSound (reuse_or_create dialer c k now (p, w)).1.0
  unfolding reuse_or_create reuse
  reuse_or_create-IsSound c k now p w here (balanced, kept) =
      elim (Bool-cases (dialer.is_connected c.client w).0) [
        | inl y ↦
            rw (reuse_or_create, y)
              (balanced, put-IsKept k _ p.clients ((kept k c here).0) (λ h. refl) kept)
        | inr n ↦
            rw (reuse_or_create, n)
              (create_client-IsSound k now (record p { clients = delete k p.clients }) _
                (balanced, delete-IsKept k p.clients kept))
      ]

  pub get_client_attempt-IsSound :
      (k : Str) (p : ConnectionPool C) (w : W)
      → IsSound p
      → IsSound (get_client_attempt dialer k (p, w)).1.0
  unfolding get_client_attempt
  get_client_attempt-IsSound k p w sound = elim (Option-cases (get k p.clients)) [
    | inl e ↦ rw (get_client_attempt, e) (create_client-IsSound k _ p _ sound)
    | inr (c, e) ↦ rw (get_client_attempt, e) (reuse_or_create-IsSound c k _ p _ e sound)
  ]

  drop_busy :
      (r : ℤ) (b : Bool)
      → ¬ (r ≡ negsuc 2147483647)
      → (is_free r ≡ false → b ≡ true)
      → is_free (drop_ref r) ≡ false
      → (if is_free (drop_ref r) then false else b) ≡ true
  unfolding is_free drop_ref
  drop_busy (pos zero) b least h k = cc
  drop_busy (pos (suc zero)) b least h k = cc
  drop_busy (pos (suc (suc n))) b least h k = h refl
  drop_busy (negsuc n) b least h k = elim (Bool-cases (n == 2147483647)) [
    | inl y ↦ let e : n ≡ 2147483647 = (==_iff n 2147483647).0 y in absurd (least (ap negsuc e))
    | inr n' ↦ cc (n', k)
  ]

  pub close_wrapper-IsSound :
      (c : ClientWrapper C) (p : ConnectionPool C) (w : W)
      → ((d : PooledClient C)
          → get c.endpoint p.clients ≡ some d
          → ¬ (d.ref_count ≡ negsuc 2147483647))
      → IsSound p
      → IsSound (close_wrapper dialer c (p, w)).0
  unfolding close_wrapper
  close_wrapper-IsSound c p w least (balanced, kept) =
      elim (Option-cases (get c.endpoint p.clients)) [
        | inl e ↦ rw (close_wrapper, e) (balanced, kept)
        | inr (d, e) ↦
            rw (close_wrapper, e)
              (
                balanced,
                put-IsKept c.endpoint _ p.clients ((kept c.endpoint d e).0)
                    (drop_busy d.ref_count d.in_use (least d e) ((kept c.endpoint d e).1)) kept,
              )
      ]

  pub close_pool-IsSound :
      (p : ConnectionPool C) (w : W) → IsSound p → IsSound (close_pool dialer (p, w)).0
  unfolding close_pool get
  close_pool-IsSound p w (balanced, kept) = elim (Bool-cases p.stopped) [
    | inl y ↦ rw (close_pool, y) (balanced, kept)
    | inr n ↦ rw (close_pool, n) (balanced, λ k c h. cc h)
  ]
