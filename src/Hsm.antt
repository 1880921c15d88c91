-- ===== src/Hsm.antt =====
-- internal/hsm/client.go: secret data, metadata and its labels, the configuration and the checksum.
-- A pointer or a map that may be nil is an Option.
pub mod Checksum
pub mod Errors
pub mod Mock
pub mod Oids
pub mod Calls
pub mod Token
pub mod Session
pub mod Hardware
pub mod Pin
use hsm_secrets_operator.Common.{
  ℕ, zero, suc, ◌+◌, ◌-◌, ◌*◌, ◌^◌, ◌%◌, List, [], ◌∷◌, ◌++◌, Bool, true, false, Option, none, some,
  if◌then◌else◌, ℤ, pos, negsuc, Str, str, str_eq, str_ltb, Dict, get, keys_of, length,
}
use hsm_secrets_operator.Golib.{Golib}

-- map[string][]byte
abbrev pub SecretData : Type 0
SecretData = Dict (List ℕ)

-- HSMInfo
pub record HsmInfo : Type 0 where
  pub label : Str
  pub manufacturer : Str
  pub model : Str
  pub serial_number : Str
  pub firmware_version : Str

pub record SecretMetadata : Type 0 where
  pub description : Str
  pub labels : Option (Dict Str)
  pub format : Str
  pub data_type : Str
  pub created_at : Str
  pub source : Str

abbrev pub label_sync_version : Str
label_sync_version = str "sync.version"

abbrev pub label_sync_timestamp : Str
label_sync_timestamp = str "sync.timestamp"

abbrev label_sync_deleted : Str
label_sync_deleted = str "sync.deleted"

-- m.Labels[k], with ok = false where m or its labels are nil
unfoldable pub label : Option SecretMetadata → Str → Option Str
label none k = none
label (some m) k = elim m.labels [ none ↦ none | some labels ↦ get k labels ]

unfoldable or_zero : Option ℤ → ℤ
or_zero none = pos 0
or_zero (some v) = v

abbrev pub scan_label : Golib → Option Str → Option ℤ
scan_label go none = none
scan_label go (some s) = go.scan_int s

abbrev pub time_label : Golib → Option Str → Option ℤ
time_label go none = none
time_label go (some s) = go.parse_time s

-- MetadataVersion
unfoldable pub metadata_version : Golib → Option SecretMetadata → ℤ
unfolding or_zero
metadata_version go m = or_zero (scan_label go (label m label_sync_version))

abbrev or_else : Option ℤ → ℤ → ℤ
or_else none d = d
or_else (some t) d = t

-- MetadataTimestamp
unfoldable pub metadata_timestamp : Golib → Option SecretMetadata → ℤ
metadata_timestamp go m =
    or_else (time_label go (label m label_sync_timestamp)) (metadata_version go m)

abbrev pub is_true : Option Str → Bool
is_true none = false
is_true (some s) = str_eq s (str "true")

-- MetadataDeleted
unfoldable pub metadata_deleted : Option SecretMetadata → Bool
metadata_deleted m = is_true (label m label_sync_deleted)

record Pkcs11Config : Type 0 where
  pub library_path : Str
  pub slot_id : ℤ  -- int32
  pub token_label : Str

-- Config; a PIN provider is named by a number
pub record Config : Type 0 where
  pub pkcs11_library_path : Str
  pub slot_id : ℕ  -- uint
  pub use_slot_id : Bool
  pub token_label : Str
  pub connection_timeout : ℕ  -- seconds
  pub retry_attempts : ℤ  -- int
  pub retry_delay : ℕ  -- seconds
  pub pin_provider : Option ℕ

unfoldable pub default_config : Config
default_config = record {
  pkcs11_library_path = [];
  slot_id = 0;
  use_slot_id = false;
  token_label = [];
  connection_timeout = 30;
  retry_attempts = pos 3;
  retry_delay = 2;
  pin_provider = none;
}

-- the conversion uint(x) of an int32 on a 64-bit machine
unfoldable to_uint : ℤ → ℕ
to_uint (pos n) = n
to_uint (negsuc n) = 2 ^ 64 - 1 - n

-- ConfigFromHSMDevice; the device spec is its optional PKCS#11 part
unfoldable config_from_hsm_device : Option Pkcs11Config → Option ℕ → Config
unfolding default_config to_uint
config_from_hsm_device none pin = record default_config { pin_provider = pin }
config_from_hsm_device (some p) pin = record default_config {
  pkcs11_library_path = p.library_path;
  slot_id = to_uint p.slot_id;
  token_label = p.token_label;
  pin_provider = pin;
}

-- The inner loop of CalculateChecksum for one `i`: keys[i] is exchanged with each later key that
-- comes before it. The result is keys[i] and the keys behind it.
unfoldable pub exchange : Str → List Str → Str × List Str
exchange x [] = (x, [])
exchange x (y ∷ ys) =
    let next = if str_ltb y x then y else x in
    let left = if str_ltb y x then x else y in let (m, rest) = exchange next ys in (m, left ∷ rest)

-- the outer loop, once for each key but the last
unfoldable pub exchange_sort : ℕ → List Str → List Str
unfolding exchange
exchange_sort zero keys = keys
exchange_sort (suc n) [] = []
exchange_sort (suc n) (x ∷ xs) = let (m, rest) = exchange x xs in m ∷ exchange_sort n rest

abbrev or_nil : Option (List ℕ) → List ℕ
or_nil none = []
or_nil (some v) = v

-- what is written to the digest: each key and its value
unfoldable pub digest_input : SecretData → List Str → List ℕ
digest_input data' [] = []
digest_input data' (k ∷ ks) = k ++ (or_nil (get k data') ++ digest_input data' ks)

-- CalculateChecksum
unfoldable pub calculate_checksum : Golib → SecretData → Str
unfolding exchange_sort digest_input
calculate_checksum go data' =
    str "sha256:"
    ++ go.sha256_hex
        (digest_input data' (exchange_sort (length (keys_of data') - 1) (keys_of data')))
