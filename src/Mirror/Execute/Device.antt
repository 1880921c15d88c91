-- ===== src/Mirror/Execute/Device.antt =====
-- What the mirror relies on of the agents: a copy of each secret on each device, which is what a
-- read of the secret returns. A client matches the objects of a secret by the prefix of their labels,
-- so that a write is relied on to leave alone the other devices, and on its own device only the paths
-- of which neither begins with the other.
use hsm_secrets_operator.Common.{◌≡◌, ◌⊎◌, true, Option, some, Str}
use hsm_secrets_operator.Hsm.{SecretData, SecretMetadata}
use hsm_secrets_operator.Hsm.Hardware.Labels.{IsApart}
use hsm_secrets_operator.Mirror.{DiscoveredDevice, Agents}

-- The data and the metadata of a secret on a device.
abbrev pub Copy : Type 0
Copy = Option SecretData × Option SecretMetadata

-- Data that is there: a map, which may be empty, and not nil.
abbrev pub Filled : Option SecretData → Type 0
Filled data' = (kept : SecretData) × (data' ≡ some kept)

pub record Faithful {W : Type 0} (agents : Agents W) : Type 0 where
  -- what a device holds at a path, by the serial number of the device
  pub copy : W → Str → Str → Option Copy
  pub create_quiet :
      (d : DiscoveredDevice) (w : W) (s q : Str)
      → copy (agents.create_client d w).1 s q ≡ copy w s q
  pub connected_quiet :
      (d : DiscoveredDevice) (w : W) (s q : Str) → copy (agents.is_connected d w).1 s q ≡ copy w s q
  pub read_quiet :
      (d : DiscoveredDevice) (p : Str) (w : W) (s q : Str)
      → copy (agents.read_secret d p w).1 s q ≡ copy w s q
  pub read_metadata_quiet :
      (d : DiscoveredDevice) (p : Str) (w : W) (s q : Str)
      → copy (agents.read_metadata d p w).1 s q ≡ copy w s q
  pub now_quiet : (w : W) (s q : Str) → copy (agents.now w).1 s q ≡ copy w s q
  -- a read that succeeds returns the data of the copy, and never nil
  pub read_data :
      (d : DiscoveredDevice) (p : Str) (w : W) (data' : Option SecretData)
      → (agents.read_secret d p w).0 ≡ some data'
      → Filled data'
        × ((md : Option SecretMetadata) × (copy w d.serial_number p ≡ some (data', md)))
  -- a write of a map that succeeds stores the data and the metadata
  pub write_stores :
      (d : DiscoveredDevice) (p : Str) (data' : Option SecretData) (md : SecretMetadata) (w : W)
      → Filled data'
      → (agents.write_secret d p data' md w).0 ≡ true
      → copy (agents.write_secret d p data' md w).1 d.serial_number p ≡ some (data', some md)
  -- a write, whether it succeeds or not, leaves the copies of other devices and of paths apart
  pub write_frame :
      (d : DiscoveredDevice) (p : Str) (data' : Option SecretData) (md : SecretMetadata) (w : W)
      (s q : Str)
      → ¬ (s ≡ d.serial_number) ⊎ IsApart p q
      → copy (agents.write_secret d p data' md w).1 s q ≡ copy w s q
