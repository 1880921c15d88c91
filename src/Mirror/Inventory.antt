-- ===== src/Mirror/Inventory.antt =====
-- buildSecretInventory of internal/mirror/manager.go
use hsm_secrets_operator.Common.{
  List, [], ◌∷◌, true, false, not, Option, none, some, if◌then◌else◌, ℤ, pos, Str, Dict, get, put,
  keys_of, sort_strings, length, ltb,
}
use hsm_secrets_operator.Common.State.{State, pure, ◌>>=◌}
use hsm_secrets_operator.Golib.{Golib}
use hsm_secrets_operator.Hsm.{
  SecretData, SecretMetadata, label, label_sync_version, label_sync_timestamp, scan_label,
  time_label, digest_input,
}
use hsm_secrets_operator.Mirror.{
  DiscoveredDevice, Error, client_creation_failed, device_not_connected, SecretState,
  SecretInventory, Agents, Result, ok, err, panicked,
}

-- calculateChecksum; nil data has the checksum ""
unfoldable pub mirror_checksum : Golib → Option SecretData → Str
unfolding digest_input
mirror_checksum go none = []
mirror_checksum go (some data') = go.sha256_hex (digest_input data' (sort_strings (keys_of data')))

abbrev or_empty : {V : Type 0} → Option (Dict V) → Dict V
or_empty none = []
or_empty (some d) = d

-- inventory[path].DeviceStates[device] = state
unfoldable pub set_state : Str → Str → SecretState → SecretInventory → SecretInventory
set_state path device s inv = put path (put device s (or_empty (get path inv))) inv

abbrev absent_state : ℤ → Option Error → SecretState
absent_state now e = record {
  present = false;
  version = pos 0;
  timestamp = now;
  checksum = [];
  has_metadata = false;
  error = e;
}

-- the loop that marks every path as failed on a device
unfoldable pub mark_all : Str → SecretState → List Str → SecretInventory → SecretInventory
unfolding set_state
mark_all device s [] inv = inv
mark_all device s (path ∷ paths) inv = mark_all device s paths (set_state path device s inv)

abbrev with_version : Option ℤ → SecretState → SecretState
with_version none s = s
with_version (some v) s = record s { version = v; has_metadata = true }

abbrev with_timestamp : Option ℤ → SecretState → SecretState
with_timestamp none s = s
with_timestamp (some t) s = record s { timestamp = t }

-- what the labels of a metadata record add to a state; nil metadata and nil labels add nothing
unfoldable pub with_metadata : Golib → Option SecretMetadata → SecretState → SecretState
with_metadata go md s =
    with_timestamp (time_label go (label md label_sync_timestamp))
      (with_version (scan_label go (label md label_sync_version)) s)

abbrev pub or_nil_metadata : Option (Option SecretMetadata) → Option SecretMetadata
or_nil_metadata none = none
or_nil_metadata (some md) = md

-- for _, x := range xs, up to a panic
abbrev each : {W A S : Type 0} → List A → S → (A → S → State W (Result S)) → State W (Result S)
each [] s body w = (ok s, w)
each (x ∷ xs) s body w =
    let (r, w') = body x s w in elim r [ err e ↦ (err e, w') | ok s' ↦ each xs s' body w' ]

module _ {W : Type 0} (go : Golib) (agents : Agents W) where
  -- a state with a checksum, which the log cuts to 8 bytes; a shorter one panics
  unfoldable checked_state : DiscoveredDevice → Str → ℤ → Str → State W (Result SecretState)
  checked_state d path now checksum w =
      let (md, w') = agents.read_metadata d path w in
      if ltb (length checksum) 8 then (err panicked, w) else (
        ok (
            with_metadata go (or_nil_metadata md) (record {
              present = true;
              version = pos 0;
              timestamp = now;
              checksum = checksum;
              has_metadata = false;
              error = none;
            })),
        w',
      )

  -- the state of a path whose data was read
  unfoldable present_state :
      DiscoveredDevice → Str → ℤ → Option (Option SecretData) → State W (Result SecretState)
  unfolding checked_state
  present_state d path now none = pure (ok (absent_state now none))
  present_state d path now (some data') = checked_state d path now (mirror_checksum go data')

  abbrev with_state : Str → Str → SecretInventory → Result SecretState → Result SecretInventory
  with_state path device inv (err e) = err e
  with_state path device inv (ok s) = ok (set_state path device s inv)

  -- the loop body for one path on a device that answers
  unfoldable observe_path :
      DiscoveredDevice → Str → SecretInventory → State W (Result SecretInventory)
  unfolding present_state
  observe_path d path inv = do
    now ← agents.now
    data' ← agents.read_secret d path
    s ← present_state d path now data'
    pure (with_state path d.serial_number inv s)

  -- every path is in error on a device that does not answer
  unfoldable mark_failed :
      DiscoveredDevice → Error → SecretInventory → State W (Result SecretInventory)
  mark_failed d e inv = do
    now ← agents.now
    pure (ok (mark_all d.serial_number (absent_state now (some e)) (keys_of inv) inv))

  -- the loop body for one device
  unfoldable observe_device :
      List Str → DiscoveredDevice → SecretInventory → State W (Result SecretInventory)
  unfolding observe_path mark_failed
  observe_device paths d inv = do
    created ← agents.create_client d
    if not created then mark_failed d client_creation_failed inv else do
      up ← agents.is_connected d
      if not up then mark_failed d device_not_connected inv else each paths inv (observe_path d)

  abbrev empty_inventory : List Str → SecretInventory → SecretInventory
  empty_inventory [] inv = inv
  empty_inventory (path ∷ paths) inv = empty_inventory paths (put path [] inv)

  -- buildSecretInventory
  unfoldable pub build_secret_inventory :
      List Str → List DiscoveredDevice → State W (Result SecretInventory)
  unfolding observe_device
  build_secret_inventory paths devices =
      each devices (empty_inventory paths []) (observe_device paths)
