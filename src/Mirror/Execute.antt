-- ===== src/Mirror/Execute.antt =====
-- executeMirrorPlan and executeMirrorPlans of internal/mirror/manager.go, with the calls of the
-- agents that they make.
pub mod Device
pub mod Writes
pub mod Converge
pub mod Reads
pub mod Outcome
pub mod Restore
use hsm_secrets_operator.Common.{
  ℕ, zero, suc, ◌+◌, List, [], ◌∷◌, ◌++◌, Bool, true, false, not, ◌&&◌, ◌||◌, Option, none, some,
  ◌==◌, if◌then◌else◌, ℤ, pos, ltb_ℤ, Str, str, str_eq, Dict, get, put, length,
}
use hsm_secrets_operator.Common.State.{State, pure, for_each, ◌>>=◌, ◌>>◌}
use hsm_secrets_operator.Golib.{Golib}
use hsm_secrets_operator.Hsm.{
  SecretData, SecretMetadata, label, label_sync_version, label_sync_timestamp, metadata_version,
}
use hsm_secrets_operator.Mirror.{
  DiscoveredDevice, Error, client_creation_failed, device_not_connected, read_failed, write_failed,
  read_existing_failed, source_not_in_lookup, target_not_in_lookup, read_source_failed,
  restore_source_failed, Result, ok, err, MirrorType, skip, update, create, restore_metadata,
  SecretMirrorPlan, SecretMirrorResult, MirrorResult, Agents,
}
use hsm_secrets_operator.Mirror.Inventory.{or_nil_metadata}

abbrev label_sync_source : Str
label_sync_source = str "sync.source"

-- newVersion: the version of the source, or 1 where it has none above 0
unfoldable pub next_version : Golib → Option SecretMetadata → ℤ
next_version go md = let v = metadata_version go md in if ltb_ℤ (pos 0) v then v else pos 1

-- syncMetadata
unfoldable pub sync_metadata : Golib → ℤ → ℤ → Str → SecretMetadata
sync_metadata go version now source = record {
  description = [];
  labels = some (
      (label_sync_version, go.print_int version)
      ∷ (label_sync_timestamp, go.print_time now)
      ∷ (label_sync_source, source)
      ∷ []);
  format = [];
  data_type = [];
  created_at = [];
  source = [];
}

abbrev is_blank : Option Str → Bool
is_blank none = true
is_blank (some s) = str_eq s []

-- does the metadata of the source lack a version?
unfoldable pub lacks_version : Option SecretMetadata → Bool
lacks_version md = is_blank (label md label_sync_version)

-- successfulTargets, failedTargets and result.Error of the loop over the targets
pub record Tally : Type 0 where
  pub successful : ℕ
  pub failed : ℕ
  pub error : Option Error

abbrev pub no_tally : Tally
no_tally = record { successful = 0; failed = 0; error = none }

-- the first error is kept
abbrev first_error : Option Error → Error → Option Error
first_error none e = some e
first_error (some d) e = some d

unfoldable pub count_outcome : Tally → Option Error → Tally
count_outcome t none = record t { successful = t.successful + 1 }
count_outcome t (some e) = record t { failed = t.failed + 1; error = first_error t.error e }

abbrev restores : MirrorType → Bool
restores restore_metadata = true
restores kind = false

abbrev write_outcome : Bool → Option Error
write_outcome true = none
write_outcome false = some write_failed

module _ {W : Type 0} (agents : Agents W) where
  -- WriteSecret
  unfoldable pub write_secret :
      DiscoveredDevice → Str → Option SecretData → SecretMetadata → State W (Option Error)
  write_secret d path data' md = do
    created ← agents.create_client d
    if not created then pure (some client_creation_failed) else do
      up ← agents.is_connected d
      if not up
          then pure (some device_not_connected)
          else do done ← agents.write_secret d path data' md; pure (write_outcome done)

  abbrev rewrite_with :
      DiscoveredDevice → Str → SecretMetadata → Option (Option SecretData) → State W (Option Error)
  rewrite_with d path md none = pure (some read_existing_failed)
  rewrite_with d path md (some data') = do
    done ← agents.write_secret d path data' md
    pure (write_outcome done)

  -- writeMetadataOnly
  unfoldable pub write_metadata_only :
      DiscoveredDevice → Str → SecretMetadata → State W (Option Error)
  write_metadata_only d path md = do
    created ← agents.create_client d
    if not created then pure (some client_creation_failed) else do
      up ← agents.is_connected d
      if not up
          then pure (some device_not_connected)
          else do data' ← agents.read_secret d path; rewrite_with d path md data'

  abbrev with_read :
      DiscoveredDevice
      → Str
      → Option (Option SecretData)
      → State W (Result (Option SecretData × Option SecretMetadata))
  with_read d path none = pure (err read_failed)
  with_read d path (some data') = do
    md ← agents.read_metadata d path
    pure (ok (data', or_nil_metadata md))

  -- readSecretWithMetadata
  unfoldable pub read_secret_with_metadata :
      DiscoveredDevice → Str → State W (Result (Option SecretData × Option SecretMetadata))
  read_secret_with_metadata d path = do
    created ← agents.create_client d
    if not created then pure (err client_creation_failed) else do
      up ← agents.is_connected d
      if not up
          then pure (err device_not_connected)
          else do data' ← agents.read_secret d path; with_read d path data'

  -- the repair of the source where the plan restores metadata
  unfoldable pub restore_source :
      MirrorType
      → DiscoveredDevice
      → Str
      → Option SecretData
      → Option SecretMetadata
      → SecretMetadata
      → State W (Option Error)
  restore_source kind d path data' source_md md =
      if restores kind && lacks_version source_md then write_secret d path data' md else pure none

  -- the switch over the type of the plan for one target
  unfoldable pub sync_target :
      MirrorType
      → DiscoveredDevice
      → Str
      → Option SecretData
      → SecretMetadata
      → State W (Option Error)
  unfolding write_secret write_metadata_only
  sync_target create d path data' md = write_secret d path data' md
  sync_target update d path data' md = write_secret d path data' md
  sync_target restore_metadata d path data' md = write_metadata_only d path md
  sync_target skip d path data' md = pure none

  abbrev found_target :
      MirrorType
      → Str
      → Str
      → Option SecretData
      → SecretMetadata
      → Option DiscoveredDevice
      → State W (Option Error)
  found_target kind name path data' md none = pure (some (target_not_in_lookup name))
  found_target kind name path data' md (some d) = sync_target kind d path data' md

  -- the loop over the targets
  unfoldable pub sync_targets :
      MirrorType
      → Str
      → Option SecretData
      → SecretMetadata
      → Dict DiscoveredDevice
      → List Str
      → Tally
      → State W Tally
  unfolding count_outcome
  sync_targets kind path data' md lookup [] tally w = (tally, w)
  sync_targets kind path data' md lookup (name ∷ names) tally w =
      let (e, w') = found_target kind name path data' md (get name lookup) w in
      sync_targets kind path data' md lookup names (count_outcome tally e) w'

abbrev result_of : SecretMirrorPlan → Bool → Option Error → SecretMirrorResult
result_of plan success e = record {
  secret_path = plan.secret_path;
  source_device = plan.source_device;
  source_version = plan.source_version;
  target_devices = plan.target_devices;
  mirror_type = plan.mirror_type;
  success = success;
  error = e;
}

abbrev all_synced : SecretMirrorPlan → Tally → SecretMirrorResult
all_synced plan t = result_of plan (t.failed == 0) t.error

abbrev is_skip : MirrorType → Bool
is_skip skip = true
is_skip kind = false

abbrev count_success : MirrorType → MirrorResult → MirrorResult
count_success create r = record r { secrets_created = r.secrets_created + 1 }
count_success update r = record r { secrets_updated = r.secrets_updated + 1 }
count_success restore_metadata r = record r { metadata_restored = r.metadata_restored + 1 }
count_success skip r = r

abbrev add_error : Str → Option Error → List (Str × Error) → List (Str × Error)
add_error path none errors = errors
add_error path (some e) errors = errors ++ (path, e) ∷ []

-- what the result of one plan adds to the result of the sweep
unfoldable pub add_result : MirrorResult → Str → SecretMirrorResult → MirrorResult
add_result r path s =
    let r' = record r { secret_results = put path s r.secret_results } in
    if s.success
    then count_success s.mirror_type r'
    else record r' { success = false; errors = add_error path s.error r.errors }

abbrev pub empty_result : ℕ → MirrorResult
empty_result n = record {
  success = true;
  secrets_processed = n;
  secrets_updated = 0;
  secrets_created = 0;
  metadata_restored = 0;
  secret_results = [];
  errors = [];
}

module _ {W : Type 0} (go : Golib) (agents : Agents W) where
  abbrev after_restore :
      SecretMirrorPlan
      → Dict DiscoveredDevice
      → Option SecretData
      → SecretMetadata
      → Option Error
      → State W SecretMirrorResult
  after_restore plan lookup data' md (some e) =
      pure (result_of plan false (some (restore_source_failed e)))
  after_restore plan lookup data' md none = do
    t ←
        sync_targets agents plan.mirror_type plan.secret_path data' md lookup plan.target_devices
          no_tally
    pure (all_synced plan t)

  abbrev after_read :
      SecretMirrorPlan
      → Dict DiscoveredDevice
      → DiscoveredDevice
      → Result (Option SecretData × Option SecretMetadata)
      → State W SecretMirrorResult
  after_read plan lookup d (err e) = pure (result_of plan false (some (read_source_failed e)))
  after_read plan lookup d (ok (data', source_md)) = do
    now ← agents.now
    let md = sync_metadata go (next_version go source_md) now plan.source_device
    e ← restore_source agents plan.mirror_type d plan.secret_path data' source_md md
    after_restore plan lookup data' md e

  abbrev from_source :
      SecretMirrorPlan
      → Dict DiscoveredDevice
      → Option DiscoveredDevice
      → State W SecretMirrorResult
  from_source plan lookup none =
      pure (result_of plan false (some (source_not_in_lookup plan.source_device)))
  from_source plan lookup (some d) = do
    r ← read_secret_with_metadata agents d plan.secret_path
    after_read plan lookup d r

  -- executeMirrorPlan
  unfoldable pub execute_mirror_plan :
      SecretMirrorPlan → Dict DiscoveredDevice → State W SecretMirrorResult
  unfolding restore_source
  execute_mirror_plan plan lookup =
      if is_skip plan.mirror_type
      then pure (result_of plan true none)
      else from_source plan lookup (get plan.source_device lookup)

  unfoldable pub execute_from :
      Dict DiscoveredDevice → List SecretMirrorPlan → MirrorResult → State W MirrorResult
  unfolding execute_mirror_plan add_result
  execute_from lookup [] r w = (r, w)
  execute_from lookup (plan ∷ plans) r w =
      let (s, w') = execute_mirror_plan plan lookup w in
      execute_from lookup plans (add_result r plan.secret_path s) w'

  -- executeMirrorPlans
  unfoldable pub execute_mirror_plans :
      List SecretMirrorPlan → Dict DiscoveredDevice → State W MirrorResult
  unfolding execute_from
  execute_mirror_plans plans lookup = execute_from lookup plans (empty_result (length plans))
