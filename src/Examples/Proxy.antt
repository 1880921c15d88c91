-- ===== src/Examples/Proxy.antt =====
-- The answers of the proxy for two devices.
use hsm_secrets_operator.Common.{
  ◌≡◌, refl, sym, ap, subst, ◌∙◌, inl, inr, List, [], ◌∷◌, true, false, Option, none, some, Permᴰ,
  Distinct, In, Str, str, str_eq, pos, ◌<ℤ◌, get, arith,
}
use hsm_secrets_operator.Examples.{differ, golib}
use hsm_secrets_operator.Hsm.{
  SecretData, SecretMetadata, calculate_checksum, metadata_version, metadata_timestamp,
  metadata_deleted,
}
use hsm_secrets_operator.Reconcile.{tombstone_checksum}
use hsm_secrets_operator.Api.{SecretResult, MetadataResult}
use hsm_secrets_operator.Api.Answers.{
  meta_sync_version, parse_version_from_metadata, parse_timestamp_from_metadata, is_secret_deleted,
  next_version, find_most_recent_secret_result,
}
use hsm_secrets_operator.Api.Answers.Laws.{parse_metadata_agrees, next_version_above}
use hsm_secrets_operator.Api.Answers.Order.{find_most_recent_secret_result-perm}
use hsm_secrets_operator.Api.Devices.{tombstone_metadata}
use hsm_secrets_operator.Api.Handlers.Tombstone.{deleted_everywhere, deleted_secret_returns}

abbrev path : Str
path = str "app"

abbrev user_data : SecretData
user_data = (str "user", str "ada") ∷ []

abbrev versioned : SecretMetadata
versioned = record {
  description = [];
  labels = some ((meta_sync_version, str "2") ∷ []);
  format = [];
  data_type = [];
  created_at = [];
  source = [];
}

abbrev live : SecretResult
live = record { device_name = str "a"; data' = user_data; metadata = some versioned }

abbrev gone : SecretResult
gone = record {
  device_name = str "b";
  data' = [];
  metadata = some (tombstone_metadata golib (pos 7));
}

abbrev both : List SecretResult
both = live ∷ gone ∷ []

abbrev name : SecretResult → Str
name r = r.device_name

both-Distinct : Distinct (λ (r : SecretResult). r.device_name) both
unfolding str_eq
both-Distinct = (
  λ y m h. elim m [
    | inl e ↦ differ (str "b") (str "a") refl (sym (ap name e) ∙ h)
    | inr n ↦ absurd n
  ],
  (λ y m h. absurd m, tt),
)

both-named : (r : SecretResult) → In r both → ¬ (r.device_name ≡ [])
unfolding str_eq
both-named r (inl e) h = differ (str "a") [] refl (sym (ap name e) ∙ h)
both-named r (inr (inl e)) h = differ (str "b") [] refl (sym (ap name e) ∙ h)
both-named r (inr (inr m)) h = absurd m

find_most_recent_secret_result-perm_example :
    find_most_recent_secret_result golib both 2
    ≡ find_most_recent_secret_result golib (gone ∷ live ∷ []) 2
find_most_recent_secret_result-perm_example =
    find_most_recent_secret_result-perm golib both (gone ∷ live ∷ []) 2 both-Distinct both-named
      ∣ Permᴰ.swap refl refl ∣₁

live_kept : is_secret_deleted live.metadata ≡ false
unfolding is_secret_deleted get str_eq
live_kept = refl

live_newer : pos 0 <ℤ parse_version_from_metadata golib live.metadata
unfolding parse_version_from_metadata get str_eq
live_newer = omega arith

live_checksum : ¬ (calculate_checksum golib live.data' ≡ tombstone_checksum)
unfolding calculate_checksum str_eq
live_checksum = differ (calculate_checksum golib live.data') tombstone_checksum refl

names_differ : ¬ (gone.device_name ≡ live.device_name)
unfolding str_eq
names_differ = differ (str "b") (str "a") refl

deleted_secret_returns_example : find_most_recent_secret_result golib both 2 ≡ some user_data
deleted_secret_returns_example =
    deleted_secret_returns golib (pos 7) refl live gone live_kept live_newer live_checksum refl
      names_differ

tombstones_deleted : (r : SecretResult) → In r (gone ∷ []) → is_secret_deleted r.metadata ≡ true
unfolding is_secret_deleted tombstone_metadata get str_eq
tombstones_deleted r (inl e) = ap (λ (x : SecretResult). is_secret_deleted x.metadata) e
tombstones_deleted r (inr m) = absurd m

deleted_everywhere_example : find_most_recent_secret_result golib (gone ∷ []) 3 ≡ none
deleted_everywhere_example = deleted_everywhere golib (gone ∷ []) 3 tombstones_deleted

abbrev read_versions : List (Option SecretMetadata)
read_versions = some versioned ∷ none ∷ []

small :
    (m : Option SecretMetadata)
    → In m read_versions
    → parse_version_from_metadata golib m <ℤ pos 9223372036854775807
unfolding parse_version_from_metadata get str_eq
small m (inl e) =
    subst (λ x. parse_version_from_metadata golib x <ℤ pos 9223372036854775807) (sym e)
      (omega arith)
small m (inr (inl e)) =
    subst (λ x. parse_version_from_metadata golib x <ℤ pos 9223372036854775807) (sym e)
      (omega arith)
small m (inr (inr n)) = absurd n

next_version_above_example :
    (pos 0 <ℤ next_version golib read_versions)
    × ((m : Option SecretMetadata)
        → In m read_versions
        → parse_version_from_metadata golib m <ℤ next_version golib read_versions)
next_version_above_example = next_version_above golib read_versions small

parse_metadata_agrees_example :
    (parse_version_from_metadata golib (some versioned) ≡ metadata_version golib (some versioned))
    × (parse_timestamp_from_metadata golib (some versioned)
        ≡ metadata_timestamp golib (some versioned))
    × (is_secret_deleted (some versioned) ≡ metadata_deleted (some versioned))
parse_metadata_agrees_example = parse_metadata_agrees golib (some versioned)

abbrev results : List MetadataResult
results =
    record { device_name = str "a"; metadata = some versioned }
    ∷ record { device_name = str "b"; metadata = none }
    ∷ []
