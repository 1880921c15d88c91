-- ===== src/Hsm/Pin.antt =====
-- internal/hsm/pin_provider.go: the PIN of a device from a Kubernetes Secret, with a cache. Times are
-- seconds since 1970.
pub mod Laws
use hsm_secrets_operator.Common.{
  ℕ, zero, suc, ◌+◌, ◌-◌, List, [], ◌∷◌, Bool, true, false, not, ◌&&◌, ◌||◌, Option, none, some,
  if◌then◌else◌, ltb, ℤ, pos, negsuc, ltb_ℤ, Str, Dict, get,
}
use hsm_secrets_operator.Common.State.{State}
use hsm_secrets_operator.Hsm.Errors.{
  Error, device_lookup_failed, no_pin_secret, invalid_pin_reference, pin_secret_lookup_failed,
  pin_key_not_found, pin_is_empty, static_pin_empty, Result, ok, err,
}

-- SecretKeySelector of api/v1alpha1/hsmdevice_types.go
pub record SecretKeySelector : Type 0 where
  pub name : Str
  pub key : Str
  pub namespace : Str

-- The part of HSMDevice that is read: Spec.PKCS11, a pointer, with its PinSecret, a pointer.
abbrev pub DeviceSpec : Type 0
DeviceSpec = Option (Option SecretKeySelector)

-- The Kubernetes API: `none` is an error.
pub record Kubernetes (W : Type 0) : Type 0 where
  -- the device of a namespace and a name, the Secret of a namespace and a name, and time.Now()
  pub get_device : Str → Str → State W (Option DeviceSpec)
  pub get_secret : Str → Str → State W (Option (Dict Str))
  pub now : State W ℤ

-- KubernetesPINProvider
pub record KubernetesPinProvider : Type 0 where
  pub device_name : Str
  pub namespace : Str
  pub cached_pin : Str
  pub cache_expiry : ℤ
  pub cache_ttl : ℕ

-- time.Time{}, the first second of the year 1
abbrev zero_time : ℤ
zero_time = negsuc 62135596799

-- NewKubernetesPINProvider
unfoldable new_kubernetes_pin_provider : Str → Str → KubernetesPinProvider
new_kubernetes_pin_provider device_name namespace = record {
  device_name = device_name;
  namespace = namespace;
  cached_pin = [];
  cache_expiry = zero_time;
  cache_ttl = 600;
}

-- What GetPIN does: it returns a PIN or an error, or a nil pointer stops it.
pub data Answer : Type 0 where
  pin : Str → Answer
  failed : Error → Answer
  panicked : Answer

abbrev pub is_blank : Str → Bool
is_blank [] = true
is_blank (b ∷ bs) = false

-- t.Add(d)
unfoldable pub add_seconds : ℤ → ℕ → ℤ
add_seconds (pos n) k = pos (n + k)
add_seconds (negsuc n) k = if ltb n k then pos (k - suc n) else negsuc (n - k)

-- the test of the cache at the start of GetPIN
unfoldable pub is_fresh : KubernetesPinProvider → ℤ → Bool
is_fresh p now = ltb_ℤ now p.cache_expiry && not (is_blank p.cached_pin)

-- InvalidateCache, which InvalidateCacheAfterPINChange calls
unfoldable pub invalidate_cache : KubernetesPinProvider → KubernetesPinProvider
invalidate_cache p = record p { cached_pin = []; cache_expiry = zero_time }

-- SetCacheTTL
unfoldable set_cache_ttl : KubernetesPinProvider → ℕ → KubernetesPinProvider
set_cache_ttl p duration = record p { cache_ttl = duration }

module _ {W : Type 0} (k8s : Kubernetes W) where
  -- the update of the cache
  unfoldable pub keep : Str → State (KubernetesPinProvider × W) Answer
  unfolding add_seconds
  keep value (p, w) =
      let (now, w') = k8s.now w in
      (pin value, (record p { cached_pin = value; cache_expiry = add_seconds now p.cache_ttl }, w'))

  -- the PIN in the data of the Secret
  unfoldable pub from_data : Str → Dict Str → State (KubernetesPinProvider × W) Answer
  unfolding keep
  from_data key data' s = elim (get key data') [
    | none ↦ (failed pin_key_not_found, s)
    | some value ↦ if is_blank value then (failed pin_is_empty, s) else keep value s
  ]

  -- the Secret of a reference, which is read in the namespace of the provider
  unfoldable pub from_reference : SecretKeySelector → State (KubernetesPinProvider × W) Answer
  unfolding from_data
  from_reference ref (p, w) =
      if is_blank ref.name || is_blank ref.key
      then (failed invalid_pin_reference, (p, w))
      else let (data', w') = k8s.get_secret p.namespace ref.name w in
        elim data' [
          | none ↦ (failed pin_secret_lookup_failed, (p, w'))
          | some d ↦ from_data ref.key d (p, w')
        ]

  -- hsmDevice.Spec.PKCS11.PinSecret, where PKCS11 may be nil
  unfoldable pub from_device : DeviceSpec → State (KubernetesPinProvider × W) Answer
  unfolding from_reference
  from_device none s = (panicked, s)
  from_device (some none) s = (failed no_pin_secret, s)
  from_device (some (some ref)) s = from_reference ref s

  -- GetPIN after a miss of the cache
  unfoldable pub fetch : State (KubernetesPinProvider × W) Answer
  unfolding from_device
  fetch (p, w) =
      let (device, w') = k8s.get_device p.namespace p.device_name w in
      elim device [ none ↦ (failed device_lookup_failed, (p, w')) | some d ↦ from_device d (p, w') ]

  -- GetPIN
  unfoldable pub get_pin : State (KubernetesPinProvider × W) Answer
  unfolding is_fresh fetch
  get_pin (p, w) =
      let (now, w') = k8s.now w in
      let missed = fetch (p, w') in if is_fresh p now then (pin p.cached_pin, (p, w')) else missed

-- StaticPINProvider.GetPIN
unfoldable static_get_pin : Str → Result Str
static_get_pin value = if is_blank value then err static_pin_empty else ok value
