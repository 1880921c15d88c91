-- ===== src/Hsm/Mock.antt =====
-- internal/hsm/mock_client.go: the in-memory implementation of the `Client` interface. A method
-- that writes returns the error, if any, beside the new state.
pub mod Laws
use hsm_secrets_operator.Common.{
  ◌≡◌, List, [], ◌∷◌, ◌++◌, Bool, true, false, not, ◌&&◌, Option, none, some, if◌then◌else◌, Str,
  str, str_eq, Dict, get, put, delete, keys_of, filter_by, ℕ, ltb,
}
use hsm_secrets_operator.Golib.{Golib}
use hsm_secrets_operator.Hsm.{SecretData, SecretMetadata, HsmInfo, Config, calculate_checksum}
use hsm_secrets_operator.Hsm.Errors.{
  Error, not_connected, token_not_present, secret_not_found, metadata_not_found, key_not_found,
  old_pin_empty, new_pin_empty, same_pin, old_pin_incorrect, Result, ok, err, fail_if, ◌>>=◌, ◌>>◌,
}

pub record MockClient : Type 0 where
  pub connected : Bool
  pub token_lost : Bool
  pub secrets : Dict SecretData
  pub metadata : Dict SecretMetadata
  pub config : Option Config

-- A call that may fail and that leaves a new state.
abbrev Call : Type 0 → Type 0
Call A = Result A × MockClient

-- NewMockClient
abbrev pub new_mock_client : MockClient
new_mock_client = record {
  connected = false;
  token_lost = false;
  secrets = [];
  metadata = [];
  config = none;
}

-- SetTokenPresent
unfoldable set_token_present : MockClient → Bool → MockClient
set_token_present m present = record m { token_lost = not present }

abbrev test_path : Str
test_path = str "secrets/default/test-secret"

abbrev test_secret : SecretData
test_secret = (str "username", str "testuser") ∷ (str "password", str "testpass123") ∷ []

abbrev database_path : Str
database_path = str "secrets/production/database-credentials"

abbrev database_secret : SecretData
database_secret =
    (str "host", str "db.example.com")
    ∷ (str "username", str "produser")
    ∷ (str "password", str "prod-secret-password")
    ∷ (str "database", str "application")
    ∷ []

-- Initialize
unfoldable initialize : MockClient → Config → Call (Unit {0})
initialize m config = (
  ok tt,
  record m {
    config = some config;
    connected = true;
    secrets = put database_path database_secret (put test_path test_secret m.secrets);
  },
)

-- Close
unfoldable close : MockClient → Call (Unit {0})
close m = (ok tt, record m { connected = false })

abbrev mock_info : HsmInfo
mock_info = record {
  label = str "Mock HSM Token";
  manufacturer = str "Test Manufacturer";
  model = str "Mock HSM v1.0";
  serial_number = str "MOCK123456";
  firmware_version = str "1.0.0";
}

-- GetInfo
unfoldable pub get_info : MockClient → Result HsmInfo
get_info m = do
  fail_if (not m.connected) not_connected
  fail_if m.token_lost token_not_present
  ok mock_info

abbrev pub found {ℓ} : {A : Type ℓ} → Error → Option A → Result A
found e none = err e
found e (some a) = ok a

-- ReadSecret; the copy has the entries of the stored map
unfoldable pub read_secret : MockClient → Str → Result SecretData
read_secret m path = do
  fail_if (not m.connected) not_connected
  found (secret_not_found path) (get path m.secrets)

abbrev store_metadata : Str → Option SecretMetadata → Dict SecretMetadata → Dict SecretMetadata
store_metadata path none d = d
store_metadata path (some md) d = put path md d

-- WriteSecret
unfoldable pub write_secret :
    MockClient → Str → SecretData → Option SecretMetadata → Call (Unit {0})
write_secret m path data' md = if not m.connected then (err not_connected, m) else (
  ok tt,
  record m { secrets = put path data' m.secrets; metadata = store_metadata path md m.metadata },
)

-- ReadMetadata
unfoldable pub read_metadata : MockClient → Str → Result SecretMetadata
read_metadata m path = do
  fail_if (not m.connected) not_connected
  found (metadata_not_found path) (get path m.metadata)

abbrev present {ℓ} : {A : Type ℓ} → Option A → Bool
present none = false
present (some a) = true

-- DeleteSecret
unfoldable pub delete_secret : MockClient → Str → Call (Unit {0})
delete_secret m path =
    if not m.connected
    then (err not_connected, m)
    else if not (present (get path m.secrets))
    then (err (secret_not_found path), m)
    else (ok tt, record m { secrets = delete path m.secrets; metadata = delete path m.metadata })

-- the end of DeleteSecretKey, on the map that stands at the path; the map is shared with the store
delete_key_from : MockClient → Str → Str → Option SecretData → Call (Unit {0})
delete_key_from m path key none = (err (secret_not_found path), m)
delete_key_from m path key (some data') =
    if not (present (get key data'))
    then (err (key_not_found path key), m)
    else (ok tt, record m { secrets = put path (delete key data') m.secrets })

-- DeleteSecretKey
unfoldable pub delete_secret_key : MockClient → Str → Str → Call (Unit {0})
unfolding delete_key_from
delete_secret_key m path key =
    if not m.connected
    then (err not_connected, m)
    else delete_key_from m path key (get path m.secrets)

-- strings.HasPrefix
unfoldable pub has_prefix : Str → Str → Bool
has_prefix s [] = true
has_prefix [] (p ∷ ps) = false
has_prefix (c ∷ s) (p ∷ ps) = str_eq (c ∷ []) (p ∷ []) && has_prefix s ps

-- ListSecrets
unfoldable pub list_secrets : MockClient → Str → Result (List Str)
list_secrets m prefix = do
  fail_if (not m.connected) not_connected
  ok (filter_by (λ path. has_prefix path prefix) (keys_of m.secrets))

-- GetChecksum
unfoldable pub get_checksum : Golib → MockClient → Str → Result Str
get_checksum go m path = do data' ← read_secret m path; ok (calculate_checksum go data')

-- IsConnected
unfoldable is_connected : MockClient → Bool
is_connected m = m.connected

-- AddSecret
unfoldable add_secret : MockClient → Str → SecretData → MockClient
add_secret m path data' = record m { secrets = put path data' m.secrets }

-- ChangePIN
unfoldable pub change_pin : MockClient → Str → Str → Result (Unit {0})
change_pin m old_pin new_pin = do
  fail_if (not m.connected) not_connected
  fail_if (str_eq old_pin []) old_pin_empty
  fail_if (str_eq new_pin []) new_pin_empty
  fail_if (str_eq old_pin new_pin) same_pin
  fail_if (not (str_eq old_pin (str "123456"))) old_pin_incorrect

-- GetAllSecrets
unfoldable get_all_secrets : MockClient → Dict SecretData
get_all_secrets m = m.secrets
