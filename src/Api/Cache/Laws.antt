-- ===== src/Api/Cache/Laws.antt =====
-- The clients that are kept, against those that a request uses.
use hsm_secrets_operator.Common.{
  ◌≡◌, refl, sym, ap, subst, ◌∙◌, inl, inr, List, [], ◌∷◌, false, Option, none, some, In, Distinct,
  Bool-cases, Option-cases, Str, str_eq, str_eq_iff, Dict, get, put, delete, get-put_self,
  get-put_ne, get-delete, arith,
}
use hsm_secrets_operator.Mirror.{DiscoveredDevice}
use hsm_secrets_operator.Api.{Clients}
use hsm_secrets_operator.Api.Cache.{
  create_cached, replace, client_of, add_client, gather, some_clients,
  get_all_available_grpc_clients,
}

abbrev serial : DiscoveredDevice → Str
serial d = d.serial_number

-- Each client of the request is kept under its serial number.
abbrev pub Kept : {C : Type 0} → Dict C → Dict C → Type 0
Kept {C} clients cache = (k : Str) (c : C) → get k clients ≡ some c → get k cache ≡ some c

pub get-delete_ne : {C : Type 0} (k j : Str) (m : Dict C) → ¬ (k ≡ j) → get j (delete k m) ≡ get j m
get-delete_ne k j m h = ground (arith, get-delete k j m, str_eq_iff k j)

pub not_some : {A : Type 0} {x : A} → ¬ (none ≡ some x)
not_some h = cc

add_client-fresh :
    {C : Type 0} (d : DiscoveredDevice) (c : Option C) (clients : Dict C) (k : Str)
    → ¬ (d.serial_number ≡ k)
    → get k clients ≡ none
    → get k (add_client d c clients) ≡ none
unfolding add_client
add_client-fresh d none clients k ne h = h
add_client-fresh d (some c) clients k ne h = get-put_ne d.serial_number k c clients ne ∙ h

some_clients-is :
    {C : Type 0} (clients found : Dict C) → some_clients clients ≡ some found → clients ≡ found
some_clients-is [] found h = absurd (not_some h)
some_clients-is (e ∷ es) found h = cc

nothing : {C : Type 0} (k : Str) → get {V = C} k [] ≡ none
unfolding get
nothing k = refl

module _ {W C : Type 0} (p : Clients W C) where
  create_cached-kept :
      (d : DiscoveredDevice) (cache : Dict C) (w : W) (c : C)
      → (create_cached p d (cache, w)).0 ≡ some c
      → get d.serial_number (create_cached p d (cache, w)).1.0 ≡ some c
  unfolding create_cached
  create_cached-kept d cache w c h = elim (Option-cases (p.create d w).0) [
    | inl n ↦ absurd (not_some (rw (n, create_cached) at h))
    | inr (x, e) ↦
        rw (e, create_cached) (get-put_self d.serial_number x cache ∙ (rw (e, create_cached) at h))
  ]

  create_cached-frame :
      (d : DiscoveredDevice) (cache : Dict C) (w : W) (k : Str)
      → ¬ (d.serial_number ≡ k)
      → get k (create_cached p d (cache, w)).1.0 ≡ get k cache
  unfolding create_cached
  create_cached-frame d cache w k h = elim (Option-cases (p.create d w).0) [
    | inl n ↦ rw (n, create_cached) refl
    | inr (x, e) ↦ rw (e, create_cached) (get-put_ne d.serial_number k x cache h)
  ]

  client_of-kept :
      (d : DiscoveredDevice) (cache : Dict C) (w : W) (c : C)
      → (client_of p d (cache, w)).0 ≡ some c
      → get d.serial_number (client_of p d (cache, w)).1.0 ≡ some c
  unfolding client_of replace
  client_of-kept d cache w c h = elim (Option-cases (get d.serial_number cache)) [
    | inl n ↦ rw (n, client_of) (create_cached-kept d cache w c (rw (n, client_of) at h))
    | inr (old, e) ↦ elim (Bool-cases (p.is_connected old w).0) [
      | inl y ↦ rw (e, client_of, y) (e ∙ (rw (e, client_of, y) at h))
      | inr n ↦
          rw (e, client_of, n, replace)
            (create_cached-kept d (delete d.serial_number cache)
              (p.close old (p.is_connected old w).1).1 c (rw (e, client_of, n, replace) at h))
    ]
  ]

  client_of-frame :
      (d : DiscoveredDevice) (cache : Dict C) (w : W) (k : Str)
      → ¬ (d.serial_number ≡ k)
      → get k (client_of p d (cache, w)).1.0 ≡ get k cache
  unfolding client_of replace
  client_of-frame d cache w k h = elim (Option-cases (get d.serial_number cache)) [
    | inl n ↦ rw (n, client_of) (create_cached-frame d cache w k h)
    | inr (old, e) ↦ elim (Bool-cases (p.is_connected old w).0) [
      | inl y ↦ rw (e, client_of, y) refl
      | inr n ↦
          rw (e, client_of, n, replace)
            (create_cached-frame d (delete d.serial_number cache)
                (p.close old (p.is_connected old w).1).1 k h
              ∙ get-delete_ne d.serial_number k cache h)
    ]
  ]

  -- One device of the loop, whose client is added where there is one.
  client_of-Kept :
      (d : DiscoveredDevice) (clients cache : Dict C) (w : W)
      → get d.serial_number clients ≡ none
      → Kept clients cache
      → Kept (add_client d (client_of p d (cache, w)).0 clients) (client_of p d (cache, w)).1.0
  unfolding add_client
  client_of-Kept d clients cache w fresh kept k c h = elim (Bool-cases (str_eq d.serial_number k)) [
    | inl y ↦
        let e = (str_eq_iff d.serial_number k).0 y in
        elim (Option-cases (client_of p d (cache, w)).0) [
          | inl n ↦
              absurd (not_some (sym fresh ∙ ap (λ j. get j clients) e ∙ (rw (n, add_client) at h)))
          | inr (x, f) ↦
              ap (λ j. get j (client_of p d (cache, w)).1.0) (sym e)
              ∙ client_of-kept d cache w x f
              ∙ sym (get-put_self d.serial_number x clients)
              ∙ ap (λ j. get j (put d.serial_number x clients)) e
              ∙ (rw (f, add_client) at h)
        ]
    | inr n ↦
        let ne = other d k n in
        client_of-frame d cache w k ne ∙ elim (Option-cases (client_of p d (cache, w)).0) [
          | inl u ↦ kept k c (rw (u, add_client) at h)
          | inr (x, f) ↦
              kept k c (sym (get-put_ne d.serial_number k x clients ne) ∙ (rw (f, add_client) at h))
        ]
  ]
    where
      other :
          (d : DiscoveredDevice) (k : Str)
          → str_eq d.serial_number k ≡ false
          → ¬ (d.serial_number ≡ k)
      other d k n e = ground (arith, str_eq_iff d.serial_number k)

  gather-Kept :
      (ds : List DiscoveredDevice) (clients cache : Dict C) (w : W)
      → Distinct serial ds
      → ((d : DiscoveredDevice) → In d ds → get d.serial_number clients ≡ none)
      → Kept clients cache
      → Kept (gather p ds clients (cache, w)).0 (gather p ds clients (cache, w)).1.0
  unfolding gather
  gather-Kept [] clients cache w distinct fresh kept = kept
  gather-Kept (d ∷ ds) clients cache w distinct fresh kept =
      gather-Kept ds (add_client d (client_of p d (cache, w)).0 clients)
        (client_of p d (cache, w)).1.0 (client_of p d (cache, w)).1.1 distinct.1
        (λ x i.
          add_client-fresh d (client_of p d (cache, w)).0 clients x.serial_number
            (λ e. distinct.0 x i (sym e)) (fresh x (inr i)))
        (client_of-Kept d clients cache w (fresh d (inl refl)) kept)

  gather-frame :
      (ds : List DiscoveredDevice) (clients cache : Dict C) (w : W) (k : Str)
      → ((d : DiscoveredDevice) → In d ds → ¬ (d.serial_number ≡ k))
      → get k (gather p ds clients (cache, w)).1.0 ≡ get k cache
  unfolding gather
  gather-frame [] clients cache w k h = refl
  gather-frame (d ∷ ds) clients cache w k h =
      gather-frame ds (add_client d (client_of p d (cache, w)).0 clients)
        (client_of p d (cache, w)).1.0 (client_of p d (cache, w)).1.1 k (λ x i. h x (inr i))
      ∙ client_of-frame d cache w k (h d (inl refl))

  -- Where the available devices have different serial numbers, `get_all_available_grpc_clients` keeps
  -- every client that it returns under the serial number it returns it for, and leaves what it keeps
  -- for any other serial number.
  pub get_all_available_grpc_clients-Kept :
      (cache : Dict C) (w : W) (ds : List DiscoveredDevice) (clients : Dict C)
      → (p.available w).0 ≡ some ds
      → Distinct (λ (d : DiscoveredDevice). d.serial_number) ds
      → (get_all_available_grpc_clients p (cache, w)).0 ≡ some clients
      → Kept clients (get_all_available_grpc_clients p (cache, w)).1.0
        × ((k : Str)
            → ((d : DiscoveredDevice) → In d ds → ¬ (d.serial_number ≡ k))
            → get k (get_all_available_grpc_clients p (cache, w)).1.0 ≡ get k cache)
  unfolding get_all_available_grpc_clients
  get_all_available_grpc_clients-Kept cache w ds clients e distinct h =
      rw (e, get_all_available_grpc_clients)
        (
          subst (λ x. Kept x (gather p ds [] (cache, (p.available w).1)).1.0)
              (some_clients-is (gather p ds [] (cache, (p.available w).1)).0 clients
                (rw (e, get_all_available_grpc_clients) at h))
              (gather-Kept ds [] cache (p.available w).1 distinct (λ d i. nothing d.serial_number)
                (λ k c g. absurd (not_some (sym (nothing {C = C} k) ∙ g)))),
          λ k other. gather-frame ds [] cache (p.available w).1 k other,
        )
