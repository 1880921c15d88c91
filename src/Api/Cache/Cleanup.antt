-- ===== src/Api/Cache/Cleanup.antt =====
-- CleanupDisconnectedClients of internal/api/proxy_client.go: which entries it leaves.
use hsm_secrets_operator.Common.{
  ◌≡◌, refl, sym, ap, ◌∙◌, ◌↔◌, inl, inr, [], ◌∷◌, Bool, true, false, none, some, In, Distinct,
  Bool-cases, Option-cases, Str, str_eq, str_eq_iff, Dict, get, delete, get-delete_self, arith,
}
use hsm_secrets_operator.Api.{Clients}
use hsm_secrets_operator.Api.Cache.{cleanup_each, cleanup_disconnected_clients}
use hsm_secrets_operator.Api.Cache.Laws.{get-delete_ne, not_some}

some_inj : {A : Type 0} {x y : A} → some x ≡ some y → x ≡ y
some_inj h = cc

not_both : ¬ (false ≡ true)
not_both h = cc

In-get : {C : Type 0} (k : Str) (c : C) (m : Dict C) → get k m ≡ some c → In (k, c) m
unfolding get
In-get k c [] h = absurd (not_some h)
In-get k c ((j, x) ∷ m) h = elim (Bool-cases (str_eq j k)) [
  | inl y ↦ inl (ground (arith, str_eq_iff j k, rw y at h))
  | inr n ↦ inr (In-get k c m (rw n at h))
]

get-In :
    {C : Type 0} (k : Str) (c : C) (m : Dict C)
    → Distinct (λ (e : Str × C). e.0) m
    → In (k, c) m
    → get k m ≡ some c
unfolding get
get-In k c [] d i = absurd i
get-In k c ((j, x) ∷ m) d (inl e) =
    ground (arith, str_eq_iff j k, ap (λ (p : Str × _). p.0) e, ap (λ (p : Str × _). p.1) e)
get-In k c ((j, x) ∷ m) d (inr i) = ground (arith, str_eq_iff j k, d.0 (k, c) i, get-In k c m d.1 i)

module _ {W C : Type 0} (p : Clients W C) (up : C → Bool)
    (status : (c : C) (w : W) → (p.is_connected c w).0 ≡ up c) where
  -- What is left at `k` after the entries of the loop: nothing where one of them is at `k` and is
  -- not connected.
  cleanup_each-keeps :
      (entries cache : Dict C) (w : W) (k : Str)
      → ((e : Str × C) → In e entries → e.0 ≡ k → up e.1 ≡ true)
      → get k (cleanup_each p entries (cache, w)).1.0 ≡ get k cache
  unfolding cleanup_each
  cleanup_each-keeps [] cache w k h = refl
  cleanup_each-keeps ((j, c) ∷ cs) cache w k h = elim (Bool-cases (p.is_connected c w).0) [
    | inl y ↦
        rw (y, cleanup_each)
          (cleanup_each-keeps cs cache (p.is_connected c w).1 k (λ e i. h e (inr i)))
    | inr n ↦
        rw (n, cleanup_each)
          (cleanup_each-keeps cs (delete j cache) (p.close c (p.is_connected c w).1).1 k
              (λ e i. h e (inr i))
            ∙ get-delete_ne j k cache (λ q. not_both (sym n ∙ status c w ∙ h (j, c) (inl refl) q)))
  ]

  cleanup_each-drops :
      (entries cache : Dict C) (w : W) (k : Str) (c : C)
      → Distinct (λ (e : Str × C). e.0) entries
      → In (k, c) entries
      → up c ≡ false
      → get k (cleanup_each p entries (cache, w)).1.0 ≡ none
  unfolding cleanup_each
  cleanup_each-drops [] cache w k c d i h = absurd i
  cleanup_each-drops ((j, x) ∷ cs) cache w k c d (inl e) h =
      let same : j ≡ k = ap (λ (y : Str × C). y.0) (sym e) in
      let n : (p.is_connected x w).0 ≡ false =
        status x w ∙ ap (λ (y : Str × C). up y.1) (sym e) ∙ h in
      rw (n, cleanup_each)
        (cleanup_each-keeps cs (delete j cache) (p.close x (p.is_connected x w).1).1 k
            (λ y i q. absurd (d.0 y i (q ∙ sym same)))
          ∙ ap (λ q. get q (delete j cache)) (sym same)
          ∙ get-delete_self j cache)
  cleanup_each-drops ((j, x) ∷ cs) cache w k c d (inr i) h =
      elim (Bool-cases (p.is_connected x w).0) [
        | inl y ↦
            rw (y, cleanup_each) (cleanup_each-drops cs cache (p.is_connected x w).1 k c d.1 i h)
        | inr n ↦
            rw (n, cleanup_each)
              (cleanup_each-drops cs (delete j cache) (p.close x (p.is_connected x w).1).1 k c d.1 i
                h)
      ]

  -- Where a client answers `is_connected` with its status `up` at all times, and each device has one
  -- entry, `cleanup_disconnected_clients` keeps exactly the entries of connected clients.
  cleanup_disconnected_clients-exact :
      (cache : Dict C) (w : W) (k : Str) (c : C)
      → Distinct (λ (e : Str × C). e.0) cache
      → (get k (cleanup_disconnected_clients p (cache, w)).1.0 ≡ some c)
        ↔ ((get k cache ≡ some c) × (up c ≡ true))
  unfolding cleanup_disconnected_clients
  cleanup_disconnected_clients-exact cache w k c d = elim (Option-cases (get k cache)) [
    | inl n ↦
        let gone : get k (cleanup_each p cache (cache, w)).1.0 ≡ none =
          cleanup_each-keeps cache cache w k (λ e i q.
            absurd (not_some (sym n ∙ ap (λ j. get j cache) (sym q) ∙ get-In e.0 e.1 cache d i)))
          ∙ n in
        (λ h. absurd (not_some (sym gone ∙ h)), λ h. absurd (not_some (sym n ∙ h.0)))
    | inr (x, e) ↦ elim (Bool-cases (up x)) [
      | inl y ↦
          let same : get k (cleanup_each p cache (cache, w)).1.0 ≡ get k cache =
            cleanup_each-keeps cache cache w k (λ f i q.
              ap up (some_inj (sym (get-In f.0 f.1 cache d i) ∙ ap (λ j. get j cache) q ∙ e))
              ∙ y) in
          (λ h. (sym same ∙ h, ap up (some_inj (sym h ∙ same ∙ e)) ∙ y), λ h. same ∙ h.0)
      | inr n ↦
          let gone = cleanup_each-drops cache cache w k x d (In-get k x cache e) n in
          (
            λ h. absurd (not_some (sym gone ∙ h)),
            λ h. absurd (not_both (sym n ∙ ap up (some_inj (sym e ∙ h.0)) ∙ h.1)),
          )
    ]
  ]
