-- ===== src/Hsm/Pin/Laws.antt =====
-- What GetPIN promises: a PIN that is never empty, and a cache that answers until it expires or is
-- invalidated.
use hsm_secrets_operator.Common.{
  ◌≡◌, refl, sym, ap, subst, ◌∙◌, ◌↔◌, inl, inr, Bool, true, false, ◌||◌, none, some, Option-cases,
  Bool-cases, ℤ, ◌<ℤ◌, Str, Dict, get, arith,
}
use hsm_secrets_operator.Hsm.Pin.{
  SecretKeySelector, DeviceSpec, Kubernetes, KubernetesPinProvider, Answer, pin, failed, panicked,
  is_blank, is_fresh, invalidate_cache, keep, from_data, from_reference, from_device, fetch,
  get_pin,
}

fresh :
    (p : KubernetesPinProvider) (now : ℤ) → is_fresh p now ≡ true → is_blank p.cached_pin ≡ false
unfolding is_fresh
fresh p now h = ground arith

still_fresh :
    (p : KubernetesPinProvider) (now : ℤ)
    → now <ℤ p.cache_expiry
    → is_blank p.cached_pin ≡ false
    → is_fresh p now ≡ true
unfolding is_fresh
still_fresh p now h k = ground arith

abbrev panics : Answer → Bool
panics (pin value) = false
panics (failed e) = false
panics panicked = true

not_false : ¬ (false ≡ true)
not_false h = cc

module _ {W : Type 0} (k8s : Kubernetes W) where
  -- Of an answer and the provider beside it: a PIN is not empty and stands in the cache; on an
  -- error or a panic the provider is as before.
  abbrev pub Cached : KubernetesPinProvider → Answer → KubernetesPinProvider → Type 0
  Cached p (pin value) p' = (is_blank value ≡ false) × (p'.cached_pin ≡ value)
  Cached p (failed e) p' = p' ≡ p
  Cached p panicked p' = p' ≡ p

  from_data-Cached :
      (key : Str) (d : Dict Str) (p : KubernetesPinProvider) (w : W)
      → Cached p (from_data k8s key d (p, w)).0 (from_data k8s key d (p, w)).1.0
  unfolding from_data keep
  from_data-Cached key d p w = elim (Option-cases (get key d)) [
    | inl e ↦ rw (e, from_data) refl
    | inr (value, e) ↦ elim (Bool-cases (is_blank value)) [
      | inl y ↦ rw (e, from_data, y) refl
      | inr n ↦ rw (e, from_data, n) (n, refl)
    ]
  ]

  from_reference-Cached :
      (ref : SecretKeySelector) (p : KubernetesPinProvider) (w : W)
      → Cached p (from_reference k8s ref (p, w)).0 (from_reference k8s ref (p, w)).1.0
  unfolding from_reference
  from_reference-Cached ref p w = elim (Bool-cases (is_blank ref.name || is_blank ref.key)) [
    | inl y ↦ rw (from_reference, y) refl
    | inr n ↦ elim (Option-cases (k8s.get_secret p.namespace ref.name w).0) [
      | inl e ↦ rw (from_reference, n, e) refl
      | inr (d, e) ↦
          rw (from_reference, n, e)
            (from_data-Cached ref.key d p (k8s.get_secret p.namespace ref.name w).1)
    ]
  ]

  from_device-Cached :
      (d : DeviceSpec) (p : KubernetesPinProvider) (w : W)
      → Cached p (from_device k8s d (p, w)).0 (from_device k8s d (p, w)).1.0
  unfolding from_device
  from_device-Cached none p w = refl
  from_device-Cached (some none) p w = refl
  from_device-Cached (some (some ref)) p w = from_reference-Cached ref p w

  fetch-Cached :
      (p : KubernetesPinProvider) (w : W) → Cached p (fetch k8s (p, w)).0 (fetch k8s (p, w)).1.0
  unfolding fetch
  fetch-Cached p w = elim (Option-cases (k8s.get_device p.namespace p.device_name w).0) [
    | inl e ↦ rw (fetch, e) refl
    | inr (d, e) ↦
        rw (fetch, e) (from_device-Cached d p (k8s.get_device p.namespace p.device_name w).1)
  ]

  -- A PIN that `get_pin` returns is not empty and stands in the cache of the provider that is left;
  -- on an error or a panic the provider is left as it was.
  pub get_pin-Cached :
      (p : KubernetesPinProvider) (w : W) → Cached p (get_pin k8s (p, w)).0 (get_pin k8s (p, w)).1.0
  unfolding get_pin
  get_pin-Cached p w = elim (Bool-cases (is_fresh p (k8s.now w).0)) [
    | inl y ↦ rw (get_pin, y) (fresh p (k8s.now w).0 y, refl)
    | inr n ↦ rw (get_pin, n) (fetch-Cached p (k8s.now w).1)
  ]

  get_pin-hit :
      (p : KubernetesPinProvider) (w : W)
      → is_fresh p (k8s.now w).0 ≡ true
      → get_pin k8s (p, w) ≡ (pin p.cached_pin, (p, (k8s.now w).1))
  unfolding get_pin
  get_pin-hit p w h = rw h refl

  -- After `get_pin` has returned a PIN, the next `get_pin` returns the same PIN and calls nothing but
  -- the clock, if the clock is before the expiry of the cache that is left.
  get_pin-again :
      (p p' : KubernetesPinProvider) (w w' : W) (value : Str)
      → get_pin k8s (p, w) ≡ (pin value, (p', w'))
      → (k8s.now w').0 <ℤ p'.cache_expiry
      → get_pin k8s (p', w') ≡ (pin value, (p', (k8s.now w').1))
  get_pin-again p p' w w' value e early =
      let (full, same) : (is_blank value ≡ false) × (p'.cached_pin ≡ value) =
        subst (λ (r : Answer × (KubernetesPinProvider × W)). Cached p r.0 r.1.0) e
          (get_pin-Cached p w) in
      get_pin-hit p' w' (still_fresh p' (k8s.now w').0 early (ap is_blank same ∙ full))
      ∙ ap (λ v. (pin v, (p', (k8s.now w').1))) same

  -- After the cache was invalidated, `get_pin` reads the device and its Secret again.
  get_pin-invalidate_cache :
      (p : KubernetesPinProvider) (w : W)
      → get_pin k8s (invalidate_cache p, w) ≡ fetch k8s (invalidate_cache p, (k8s.now w).1)
  unfolding get_pin is_fresh invalidate_cache
  get_pin-invalidate_cache p w = ground arith

  from_data-panics :
      (key : Str) (d : Dict Str) (p : KubernetesPinProvider) (w : W)
      → panics (from_data k8s key d (p, w)).0 ≡ false
  unfolding from_data keep
  from_data-panics key d p w = elim (Option-cases (get key d)) [
    | inl e ↦ rw (e, from_data) refl
    | inr (value, e) ↦ elim (Bool-cases (is_blank value)) [
      | inl y ↦ rw (e, from_data, y) refl
      | inr n ↦ rw (e, from_data, n) refl
    ]
  ]

  from_reference-panics :
      (ref : SecretKeySelector) (p : KubernetesPinProvider) (w : W)
      → panics (from_reference k8s ref (p, w)).0 ≡ false
  unfolding from_reference
  from_reference-panics ref p w = elim (Bool-cases (is_blank ref.name || is_blank ref.key)) [
    | inl y ↦ rw (from_reference, y) refl
    | inr n ↦ elim (Option-cases (k8s.get_secret p.namespace ref.name w).0) [
      | inl e ↦ rw (from_reference, n, e) refl
      | inr (d, e) ↦
          rw (from_reference, n, e)
            (from_data-panics ref.key d p (k8s.get_secret p.namespace ref.name w).1)
    ]
  ]

  fetch-panicked :
      (p : KubernetesPinProvider) (w : W)
      → ((fetch k8s (p, w)).0 ≡ panicked)
        ↔ ((k8s.get_device p.namespace p.device_name w).0 ≡ some none)
  unfolding fetch from_device
  fetch-panicked p w = elim (Option-cases (k8s.get_device p.namespace p.device_name w).0) [
    | inl e ↦ rw (fetch, e) (λ h. absurd (not_false (ap panics h)), λ h. cc)
    | inr (none, e) ↦ rw (fetch, e) (λ h. refl, λ h. refl)
    | inr (some none, e) ↦ rw (fetch, e) (λ h. absurd (not_false (ap panics h)), λ h. cc)
    | inr (some (some ref), e) ↦
        let goes_on = from_reference-panics ref p (k8s.get_device p.namespace p.device_name w).1 in
        rw (fetch, e) (λ h. absurd (not_false (sym goes_on ∙ ap panics h)), λ h. cc)
  ]

  -- `get_pin` panics exactly where the cache does not answer and the device that is found has no
  -- PKCS#11 part.
  pub get_pin-panicked :
      (p : KubernetesPinProvider) (w : W)
      → ((get_pin k8s (p, w)).0 ≡ panicked) ↔ (
          (is_fresh p (k8s.now w).0 ≡ false)
          × ((k8s.get_device p.namespace p.device_name (k8s.now w).1).0 ≡ some none))
  unfolding get_pin
  get_pin-panicked p w = elim (Bool-cases (is_fresh p (k8s.now w).0)) [
    | inl y ↦
        rw (get_pin, y) (λ h. absurd (not_false (ap panics h)), λ h. absurd (not_false (sym (h.0))))
    | inr n ↦
        rw (get_pin, n)
          (
            λ h. (refl, (fetch-panicked p (k8s.now w).1).0 h),
            λ h. (fetch-panicked p (k8s.now w).1).1 (h.1),
          )
  ]
