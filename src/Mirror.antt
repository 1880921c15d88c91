-- ===== src/Mirror.antt =====
-- internal/mirror/manager.go: the data of the mirror, and the agents that it talks to.
pub mod Inventory
pub mod Plan
pub mod Execute
pub mod Sweep
use hsm_secrets_operator.Common.{ℕ, List, Bool, Option, Str, ℤ, Dict}
use hsm_secrets_operator.Common.State.{State}
use hsm_secrets_operator.Hsm.{SecretData, SecretMetadata}

-- DiscoveredDevice of api/v1alpha1/hsmdevice_types.go: the fields that the mirror reads
pub record DiscoveredDevice : Type 0 where
  pub device_path : Str
  pub serial_number : Str
  pub node_name : Str
  pub available : Bool

-- The errors of a sweep, by the message that wraps them.
pub data Error : Type 0 where
  client_creation_failed device_not_connected read_failed write_failed : Error
  read_existing_failed list_failed no_devices : Error
  source_not_in_lookup target_not_in_lookup : Str → Error
  read_source_failed restore_source_failed : Error → Error
  no_attempt : Error
  discovery_failed : ℕ → Error → Error
  panicked : Error  -- no error value of the code: the run ends in a panic

-- A value, or an error.
pub data Result (A : Type 0) : Type 0 where
  ok : A → Result A
  err : Error → Result A

-- SecretState
pub record SecretState : Type 0 where
  pub present : Bool
  pub version : ℤ  -- int64
  pub timestamp : ℤ  -- time.Time, in seconds since 1970
  pub checksum : Str
  pub has_metadata : Bool
  pub error : Option Error

-- map[string]*SecretInventory: the states of each path on each device
abbrev pub SecretInventory : Type 0
SecretInventory = Dict (Dict SecretState)

-- MirrorType
pub data MirrorType : Type 0 where
  skip update create restore_metadata : MirrorType

pub record SecretMirrorPlan : Type 0 where
  pub secret_path : Str
  pub source_device : Str
  pub source_version : ℤ
  pub target_devices : List Str
  pub mirror_type : MirrorType

pub record SecretMirrorResult : Type 0 where
  pub secret_path : Str
  pub source_device : Str
  pub source_version : ℤ
  pub target_devices : List Str
  pub mirror_type : MirrorType
  pub success : Bool
  pub error : Option Error

pub record MirrorResult : Type 0 where
  pub success : Bool
  pub secrets_processed : ℕ
  pub secrets_updated : ℕ
  pub secrets_created : ℕ
  pub metadata_restored : ℕ
  pub secret_results : Dict SecretMirrorResult
  pub errors : List (Str × Error)

-- AgentManagerInterface with the clients that it creates, over a world of devices and networks.
-- Each call may change the world; a call that fails returns `none` or `false`.
pub record Agents (W : Type 0) : Type 0 where
  -- CreateGRPCClient
  pub create_client : DiscoveredDevice → State W Bool
  -- GetAvailableDevices
  pub available_devices : State W (Option (List DiscoveredDevice))
  -- the methods of the client for a device
  pub is_connected : DiscoveredDevice → State W Bool
  pub read_secret : DiscoveredDevice → Str → State W (Option (Option SecretData))
  pub read_metadata : DiscoveredDevice → Str → State W (Option (Option SecretMetadata))
  pub write_secret : DiscoveredDevice → Str → Option SecretData → SecretMetadata → State W Bool
  pub list_secrets : DiscoveredDevice → State W (Option (List Str))
  pub close_client : DiscoveredDevice → State W Bool
  -- time.Sleep, in seconds
  pub sleep : ℕ → State W (Unit {0})
  -- time.Now(), in seconds since 1970
  pub now : State W ℤ
