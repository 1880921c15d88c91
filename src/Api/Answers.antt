-- ===== src/Api/Answers.antt =====
-- How the proxy picks one answer from those of the devices: the helpers of
-- internal/api/proxy_client.go.
pub mod Laws
pub mod Order
use hsm_secrets_operator.Common.{
  ℕ, zero, suc, ◌+◌, ◌-◌, ◌^◌, List, [], ◌∷◌, Bool, true, false, not, ◌||◌, Option, none, some,
  ◌==◌, if◌then◌else◌, ℤ, pos, negsuc, ltb_ℤ, Str, str, str_eq, Dict, get, put,
}
use hsm_secrets_operator.Golib.{Golib}
use hsm_secrets_operator.Hsm.{SecretData, SecretMetadata, calculate_checksum, is_true}
use hsm_secrets_operator.Reconcile.{DeviceObservation, Decision, resolve}
use hsm_secrets_operator.Api.{SecretResult, MetadataResult, ChecksumResult}

abbrev pub meta_sync_version : Str
meta_sync_version = str "sync.version"

abbrev pub meta_sync_timestamp : Str
meta_sync_timestamp = str "sync.timestamp"

abbrev pub meta_sync_deleted : Str
meta_sync_deleted = str "sync.deleted"

abbrev scanned : Golib → Option Str → ℤ
scanned go none = pos 0
scanned go (some s) = elim (go.scan_int s) [ none ↦ pos 0 | some v ↦ v ]

abbrev timed : Golib → Option Str → ℤ → ℤ
timed go none fallback = fallback
timed go (some s) fallback = elim (go.parse_time s) [ none ↦ fallback | some t ↦ t ]

-- parseTimestampFromMetadata
unfoldable pub parse_timestamp_from_metadata : Golib → Option SecretMetadata → ℤ
parse_timestamp_from_metadata go none = pos 0
parse_timestamp_from_metadata go (some m) = elim m.labels [
  | none ↦ pos 0
  | some labels ↦
      timed go (get meta_sync_timestamp labels) (scanned go (get meta_sync_version labels))
]

-- isSecretDeleted
unfoldable pub is_secret_deleted : Option SecretMetadata → Bool
is_secret_deleted none = false
is_secret_deleted (some m) = elim m.labels [
  | none ↦ false
  | some labels ↦ is_true (get meta_sync_deleted labels)
]

-- parseVersionFromMetadata
unfoldable pub parse_version_from_metadata : Golib → Option SecretMetadata → ℤ
parse_version_from_metadata go none = pos 0
parse_version_from_metadata go (some m) = elim m.labels [
  | none ↦ pos 0
  | some labels ↦ scanned go (get meta_sync_version labels)
]

-- v + 1 on int64, which wraps
unfoldable pub increment : ℤ → ℤ
increment (pos n) = if n == 2 ^ 63 - 1 then negsuc (2 ^ 63 - 1) else pos (n + 1)
increment (negsuc zero) = pos 0
increment (negsuc (suc n)) = negsuc n

-- the loop of nextVersion over the metadata that was read; a read error is left out
unfoldable pub max_version : Golib → ℤ → List (Option SecretMetadata) → ℤ
max_version go best [] = best
max_version go best (m ∷ ms) =
    let v = parse_version_from_metadata go m in max_version go (if ltb_ℤ best v then v else best) ms

-- nextVersion, of the metadata that the devices returned
unfoldable pub next_version : Golib → List (Option SecretMetadata) → ℤ
unfolding max_version increment
next_version go ms = increment (max_version go (pos 0) ms)

unfoldable checksum_observations : List ChecksumResult → List DeviceObservation
checksum_observations [] = []
checksum_observations (r ∷ rs) =
    record {
      device_id = r.device_name;
      present = true;
      tombstone = false;
      checksum = r.checksum;
      version = pos 0;
      timestamp = pos 0;
    }
    ∷ checksum_observations rs

-- findConsensusChecksum; `none` is the error
unfoldable pub find_consensus_checksum : List ChecksumResult → ℕ → Option Str
unfolding checksum_observations
find_consensus_checksum [] n = none
find_consensus_checksum (r ∷ rs) n =
    let d = resolve (checksum_observations (r ∷ rs)) n in
    if not d.found then none else some d.winning_checksum

-- the observation of one device in findMostRecentSecretResult
unfoldable pub secret_observation : Golib → SecretResult → DeviceObservation
secret_observation go r = record {
  device_id = r.device_name;
  present = not (is_secret_deleted r.metadata);
  tombstone = is_secret_deleted r.metadata;
  checksum = calculate_checksum go r.data';
  version = parse_version_from_metadata go r.metadata;
  timestamp = parse_timestamp_from_metadata go r.metadata;
}

unfoldable pub secret_observations : Golib → List SecretResult → List DeviceObservation
unfolding secret_observation
secret_observations go [] = []
secret_observations go (r ∷ rs) = secret_observation go r ∷ secret_observations go rs

-- dataByDevice
unfoldable pub data_by_device : List SecretResult → Dict SecretData → Dict SecretData
data_by_device [] m = m
data_by_device (r ∷ rs) m = data_by_device rs (put r.device_name r.data' m)

abbrev pub or_no_data : Option SecretData → SecretData
or_no_data none = []
or_no_data (some d) = d

-- findMostRecentSecretResult; `none` is the error
unfoldable pub find_most_recent_secret_result : Golib → List SecretResult → ℕ → Option SecretData
unfolding secret_observations data_by_device
find_most_recent_secret_result go [] n = none
find_most_recent_secret_result go (r ∷ rs) n =
    let d = resolve (secret_observations go (r ∷ rs)) n in
    if not d.found || d.deleted
    then none
    else some (or_no_data (get d.winning_device_id (data_by_device (r ∷ rs) [])))

-- the loop of findMostRecentMetadataResult
unfoldable pub most_recent_from : Golib → MetadataResult → List MetadataResult → MetadataResult
most_recent_from go best [] = best
most_recent_from go best (r ∷ rs) =
    let newer =
      ltb_ℤ (parse_timestamp_from_metadata go best.metadata)
        (parse_timestamp_from_metadata go r.metadata) in
    most_recent_from go (if newer then r else best) rs

-- findMostRecentMetadataResult; `none` is the error
unfoldable pub find_most_recent_metadata_result :
    Golib → List MetadataResult → Option (Option SecretMetadata)
unfolding most_recent_from
find_most_recent_metadata_result go [] = none
find_most_recent_metadata_result go (r ∷ rs) = some ((most_recent_from go r rs).metadata)
