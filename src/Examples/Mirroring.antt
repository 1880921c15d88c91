-- ===== src/Examples/Mirroring.antt =====
-- The mirror on two devices.
use hsm_secrets_operator.Common.{
  ℕ, ◌≡◌, refl, sym, ap, ◌∙◌, inl, inr, [], ◌∷◌, true, false, Option, none, some, In, Str, str,
  str_eq, pos, Dict, get, put, if◌then◌else◌, str_ltb, sort_strings, insert_str,
}
use hsm_secrets_operator.Examples.{differ, golib, device}
use hsm_secrets_operator.Examples.Fleet.{Fleet, agents, agents-Faithful, copy_at}
use hsm_secrets_operator.Hsm.Mock
use hsm_secrets_operator.Hsm.Mock.{MockClient}
use hsm_secrets_operator.Hsm.{SecretData, SecretMetadata, label, label_sync_version}
use hsm_secrets_operator.Mirror.{
  DiscoveredDevice, SecretState, SecretMirrorPlan, update, skip, restore_metadata,
}
use hsm_secrets_operator.Reconcile.{
  resolve, resolve_voters, verdict, choose, has_opinion, effective_checksum, last_write_wins, newer,
  outliers_of, lowest_device_with_checksum, lowest_from, lower,
}
use hsm_secrets_operator.Mirror.Plan.{
  create_mirror_plan_for_secret, responding, devices_where, observations, observation, plan_for,
  remove_duplicates, remove_seen, contains, remove_device, sync_type,
}
use hsm_secrets_operator.Mirror.Plan.Source.{AllNamed, decision}
use hsm_secrets_operator.Mirror.Plan.Exact.{PlanExact, plan_exact}
use hsm_secrets_operator.Mirror.Execute.{
  execute_mirror_plan, execute_mirror_plans, empty_result, restore_source, sync_targets,
  read_secret_with_metadata, write_secret, write_metadata_only, lacks_version, sync_target,
  count_outcome,
}
use hsm_secrets_operator.Mirror.Execute.Writes.{Keyed, data_of}
use hsm_secrets_operator.Mirror.Execute.Outcome.{Stamped, execute-converges, execute-frame}
use hsm_secrets_operator.Mirror.Execute.Restore.{execute-restore_keeps_data}
use hsm_secrets_operator.Mirror.Sweep.{device_lookup}
use hsm_secrets_operator.Mirror.Sweep.Summary.{
  device_lookup-Keyed, results, Summary, execute_mirror_plans-Summary,
}

abbrev state : Str → ℕ → SecretState
state checksum v = record {
  present = true;
  version = pos v;
  timestamp = pos 0;
  checksum = checksum;
  has_metadata = true;
  error = none;
}

abbrev states : Dict SecretState
states = (str "a", state (str "x") 2) ∷ (str "b", state (str "y") 1) ∷ []

abbrev path : Str
path = str "app"

states-AllNamed : AllNamed states
unfolding str_eq
states-AllNamed d s (inl e) h =
    differ (str "a") [] refl (sym (ap (λ (x : Str × SecretState). x.0) e) ∙ h)
states-AllNamed d s (inr (inl e)) h =
    differ (str "b") [] refl (sym (ap (λ (x : Str × SecretState). x.0) e) ∙ h)
states-AllNamed d s (inr (inr m)) h = absurd m

abbrev plan : SecretMirrorPlan
plan = record {
  secret_path = path;
  source_device = str "a";
  source_version = pos 2;
  target_devices = str "b" ∷ [];
  mirror_type = update;
}

abbrev restore_plan : SecretMirrorPlan
restore_plan = record plan { mirror_type = restore_metadata }

planned : create_mirror_plan_for_secret path states ≡ some plan
unfolding create_mirror_plan_for_secret responding devices_where observations observation plan_for
    remove_duplicates remove_seen contains remove_device sync_type get resolve resolve_voters
    verdict choose has_opinion effective_checksum last_write_wins newer outliers_of
    lowest_device_with_checksum lowest_from lower str_eq str_ltb sort_strings insert_str
planned = refl

plan_exact_example : PlanExact states plan (decision states).winning_checksum
plan_exact_example = plan_exact path states plan states-AllNamed planned

abbrev lookup : Dict DiscoveredDevice
lookup = (str "a", device (str "a")) ∷ (str "b", device (str "b")) ∷ []

lookup-Keyed : Keyed lookup
unfolding device_lookup put str_eq
lookup-Keyed = device_lookup-Keyed (device (str "a") ∷ device (str "b") ∷ [])

abbrev new_data : SecretData
new_data = (str "user", str "ada") ∷ []

abbrev old_data : SecretData
old_data = (str "user", str "bob") ∷ []

abbrev versioned : SecretMetadata
versioned = record {
  description = [];
  labels = some ((label_sync_version, str "2") ∷ []);
  format = [];
  data_type = [];
  created_at = [];
  source = [];
}

-- "a" holds the new data with version 2, and every other device the old data.
abbrev world : Fleet
world s = record {
  connected = true;
  token_lost = false;
  secrets = (path, if str_eq s (str "a") then new_data else old_data) ∷ [];
  metadata = if str_eq s (str "a") then (path, versioned) ∷ [] else [];
  config = none;
}

updated : (execute_mirror_plan golib agents plan lookup world).0.success ≡ true
unfolding Mock.read_secret Mock.write_secret Mock.read_metadata execute_mirror_plan restore_source
    sync_targets read_secret_with_metadata write_secret write_metadata_only sync_target
    count_outcome get str_eq
updated = refl

execute-converges_example :
    (data' : Option SecretData) × (held : Option SecretMetadata) × (md : SecretMetadata) × (copy_at
        (world (str "a"))
        path
      ≡ some (data', held))
    × Stamped golib agents agents-Faithful plan lookup world (inr refl) lookup-Keyed md
    × ((t : Str)
        → In t (str "b" ∷ [])
        → copy_at ((execute_mirror_plan golib agents plan lookup world).1 t) path
          ≡ some (data', some md))
execute-converges_example =
    execute-converges golib agents agents-Faithful plan lookup world (inr refl) lookup-Keyed updated

c_is_no_target : ¬ (In (str "c") (str "b" ∷ []))
unfolding str_eq
c_is_no_target (inl e) = differ (str "c") (str "b") refl e
c_is_no_target (inr m) = absurd m

execute-frame_example :
    copy_at ((execute_mirror_plan golib agents plan lookup world).1 (str "c")) path
    ≡ copy_at (world (str "c")) path
execute-frame_example =
    execute-frame golib agents agents-Faithful plan lookup world (inr refl) lookup-Keyed (str "c")
      path (inl c_is_no_target)

restored : (execute_mirror_plan golib agents restore_plan lookup world).0.success ≡ true
unfolding Mock.read_secret Mock.write_secret Mock.read_metadata execute_mirror_plan restore_source
    sync_targets read_secret_with_metadata write_secret write_metadata_only sync_target
    count_outcome get str_eq lacks_version label
restored = refl

execute-restore_keeps_data_example :
    data_of
      (copy_at ((execute_mirror_plan golib agents restore_plan lookup world).1 (str "b")) path)
    ≡ data_of (copy_at (world (str "b")) path)
execute-restore_keeps_data_example =
    execute-restore_keeps_data golib agents agents-Faithful restore_plan lookup world refl restored
      (str "b") path (inl refl)

abbrev lone_plan : SecretMirrorPlan
lone_plan = record {
  secret_path = path;
  source_device = str "a";
  source_version = pos 0;
  target_devices = [];
  mirror_type = skip;
}

execute_mirror_plans-Summary_example :
    Summary
      (empty_result 2)
      (execute_mirror_plans golib agents (plan ∷ lone_plan ∷ []) lookup world).0
      (results golib agents lookup (plan ∷ lone_plan ∷ []) world)
execute_mirror_plans-Summary_example =
    execute_mirror_plans-Summary golib agents lookup (plan ∷ lone_plan ∷ []) world
