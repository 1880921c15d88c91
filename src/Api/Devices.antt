-- ===== src/Api/Devices.antt =====
-- internal/api/proxy_client.go: one call made on all devices in parallel, and the answers collected.
-- The devices are independent, so the calls are a sequence of steps in the order in which the map of
-- clients is ranged over, which is any order; a map has one entry for a device.
pub mod Stores
use hsm_secrets_operator.Common.{
  ℕ, zero, suc, ◌+◌, List, [], ◌∷◌, Bool, true, false, Option, none, some, if◌then◌else◌, Str, str,
  ℤ, Dict, get, put,
}
use hsm_secrets_operator.Common.State.{State, pure, ◌>>=◌, ◌>>◌}
use hsm_secrets_operator.Golib.{Golib}
use hsm_secrets_operator.Hsm.{SecretData, SecretMetadata}
use hsm_secrets_operator.Api.{Clients, SecretResult, MetadataResult, ChecksumResult}
use hsm_secrets_operator.Api.Answers.{meta_sync_deleted, meta_sync_timestamp, meta_sync_version}

-- the results of one call on each device, by device: `none` where there was no error
unfoldable pub on_all :
    {W C : Type 0} → (C → State W (Option Str)) → Dict C → State W (Dict (Option Str))
on_all f [] w = ([], w)
on_all f ((k, c) ∷ cs) w =
    let (e, w') = f c w in let (rest, w'') = on_all f cs w' in ((k, e) ∷ rest, w'')

-- the values of the devices that answered
unfoldable pub ask_all :
    {W C A : Type 0} → (Str → C → State W (Option A)) → Dict C → State W (List A)
ask_all f [] w = ([], w)
ask_all f ((k, c) ∷ cs) w =
    let (r, w') = f k c w in
    let (rest, w'') = ask_all f cs w' in (elim r [ none ↦ rest | some a ↦ a ∷ rest ], w'')

unfoldable pub count_successes : Dict (Option Str) → ℕ
count_successes [] = 0
count_successes ((k, none) ∷ rs) = 1 + count_successes rs
count_successes ((k, some e) ∷ rs) = count_successes rs

unfoldable pub errors_of : Dict (Option Str) → List (Str × Str)
errors_of [] = []
errors_of ((k, none) ∷ rs) = errors_of rs
errors_of ((k, some e) ∷ rs) = (k, e) ∷ errors_of rs

abbrev pub is_no_errors : List (Str × Str) → Bool
is_no_errors [] = true
is_no_errors (e ∷ es) = false

-- tombstoneMetadata of tombstoneDeleteFromAllDevices
unfoldable pub tombstone_metadata : Golib → ℤ → SecretMetadata
tombstone_metadata go now = record {
  description = [];
  labels = some (
      (meta_sync_deleted, str "true")
      ∷ (meta_sync_timestamp, go.print_time now)
      ∷ (meta_sync_version, str "0")
      ∷ []);
  format = [];
  data_type = [];
  created_at = [];
  source = [];
}

module _ {W C : Type 0} (p : Clients W C) where
  -- writeToAllDevices, whose metadata is never nil
  unfoldable pub write_to_all_devices :
      Dict C → Str → SecretData → SecretMetadata → State W (Dict (Option Str))
  unfolding on_all
  write_to_all_devices clients path data' metadata =
      on_all (λ c. p.write_secret c path data' metadata) clients

  -- tombstoneDeleteFromAllDevices: the error of the deletion is not reported
  unfoldable pub tombstone_delete_from_all_devices :
      Golib → Dict C → Str → State W (Dict (Option Str))
  unfolding on_all tombstone_metadata
  tombstone_delete_from_all_devices go clients path w =
      let (now, w') = p.now w in
      on_all (λ c. p.delete_secret c path >> p.write_secret c path [] (tombstone_metadata go now))
        clients w'

  -- deleteKeyFromAllDevices
  unfoldable pub delete_key_from_all_devices : Dict C → Str → Str → State W (Dict (Option Str))
  unfolding on_all
  delete_key_from_all_devices clients path key =
      on_all (λ c. p.delete_secret_key c path key) clients

  -- changePINOnAllDevices
  unfoldable pub change_pin_on_all_devices : Dict C → Str → Str → State W (Dict (Option Str))
  unfolding on_all
  change_pin_on_all_devices clients old_pin new_pin =
      on_all (λ c. p.change_pin c old_pin new_pin) clients

  -- the reading of one device in ReadSecret
  abbrev pub read_result : Str → Str → C → State W (Option SecretResult)
  read_result path name c w =
      let (r, w') = p.read_secret c path w in
      elim r [
        | none ↦ (none, w')
        | some d ↦
            let (m, w'') = p.read_metadata c path w' in
            (
              some record {
                device_name = name;
                data' = d;
                metadata = elim m [ none ↦ none | some x ↦ x ];
              },
              w'',
            )
      ]

  abbrev pub metadata_result : Str → Str → C → State W (Option MetadataResult)
  metadata_result path name c w =
      let (r, w') = p.read_metadata c path w in
      elim r [ none ↦ (none, w') | some m ↦ (some record { device_name = name; metadata = m }, w') ]

  abbrev pub checksum_result : Str → Str → C → State W (Option ChecksumResult)
  checksum_result path name c w =
      let (r, w') = p.get_checksum c path w in
      elim r [ none ↦ (none, w') | some s ↦ (some record { device_name = name; checksum = s }, w') ]

  -- the first device of ReadSecret that has a checksum
  unfoldable pub first_checksum : Str → Dict C → State W Str
  first_checksum path [] w = ([], w)
  first_checksum path ((k, c) ∷ cs) w =
      let (r, w') = p.get_checksum c path w in
      elim r [ some s ↦ (s, w') | none ↦ first_checksum path cs w' ]

  -- the loop of IsConnected
  unfoldable pub connections : Dict C → State W (Dict Bool)
  connections [] w = ([], w)
  connections ((k, c) ∷ cs) w =
      let (b, w') = p.is_connected c w in
      let (rest, w'') = connections cs w' in ((k, b) ∷ rest, w'')
