-- ===== src/Api.antt =====
-- internal/api/proxy_client.go: the responses of the proxy, and the clients that it talks to.
pub mod Answers
pub mod Cache
pub mod Devices
pub mod Handlers
use hsm_secrets_operator.Common.{ℕ, List, Bool, Option, Str, ℤ, Dict}
use hsm_secrets_operator.Common.State.{State}
use hsm_secrets_operator.Hsm.{SecretData, SecretMetadata, HsmInfo}
use hsm_secrets_operator.Mirror.{DiscoveredDevice}

-- The clients of the devices, over a world of devices and networks. A read returns `none` on an
-- error, and a write the message of its error.
pub record Clients (W C : Type 0) : Type 0 where
  -- getAllAvailableAgents and createGRPCClient of the server
  pub available : State W (Option (List DiscoveredDevice))
  pub create : DiscoveredDevice → State W (Option C)
  -- the methods of hsm.Client
  pub is_connected : C → State W Bool
  pub close : C → State W (Option Str)
  pub get_info : C → State W (Option HsmInfo)
  pub read_secret : C → Str → State W (Option SecretData)
  pub read_metadata : C → Str → State W (Option (Option SecretMetadata))
  pub write_secret : C → Str → SecretData → SecretMetadata → State W (Option Str)
  pub delete_secret : C → Str → State W (Option Str)
  pub delete_secret_key : C → Str → Str → State W (Option Str)
  pub list_secrets : C → Str → State W (Option (List Str))
  pub get_checksum : C → Str → State W (Option Str)
  pub change_pin : C → Str → Str → State W (Option Str)
  -- time.Now(), in seconds since 1970
  pub now : State W ℤ

-- The codes of the errors that are sent.
pub data Code : Type 0 where
  missing_path missing_key no_agents info_failed secret_not_found metadata_not_found : Code
  checksum_not_found parse_error write_failed delete_failed delete_key_failed : Code
  invalid_request missing_old_pin missing_new_pin invalid_pin_change pin_change_failed : Code

-- secretResult, metadataResult, checksumResult of a device that answered
pub record SecretResult : Type 0 where
  pub device_name : Str
  pub data' : SecretData
  pub metadata : Option SecretMetadata

pub record MetadataResult : Type 0 where
  pub device_name : Str
  pub metadata : Option SecretMetadata

pub record ChecksumResult : Type 0 where
  pub device_name : Str
  pub checksum : Str

-- What a handler sends: the status, and the fields of the answer. The details of an error are left
-- out.
pub data Response : Type 0 where
  failure : ℕ → Code → Response
  infos : ℕ → Dict HsmInfo → Response
  listing : ℕ → List Str → ℕ → Str → Response
  secret : ℕ → Str → SecretData → Str → ℕ → Response
  written : ℕ → Str → ℕ → Response
  -- the path, the devices asked, and the error of each device
  deleted : ℕ → Str → ℕ → Dict (Option Str) → Response
  key_deleted : ℕ → Str → Str → ℕ → Dict (Option Str) → Response
  metadata : ℕ → Str → Option SecretMetadata → Response
  checksum : ℕ → Str → Str → Response
  status : ℕ → Dict Bool → ℕ → Response
  -- the devices that changed, those asked, and the errors
  pin_changed : ℕ → ℕ → ℕ → List (Str × Str) → Response

-- the body of a write request
pub record WriteRequest : Type 0 where
  pub data' : SecretData
  pub metadata : Option SecretMetadata

-- ChangePINRequest
pub record ChangePinRequest : Type 0 where
  pub old_pin : Str
  pub new_pin : Str
