-- ===== src/Mirror/Plan.antt =====
-- createMirrorPlans of internal/mirror/manager.go: what is to be written where.
pub mod Targets
pub mod Source
pub mod Exact
use hsm_secrets_operator.Common.{
  List, [], ◌∷◌, ◌++◌, Bool, true, false, not, ◌&&◌, Option, none, some, if◌then◌else◌, ℤ, pos, Str,
  str_eq, Dict, get, length, filter_by,
}
use hsm_secrets_operator.Reconcile.{DeviceObservation, Decision, resolve}
use hsm_secrets_operator.Mirror.{
  SecretState, SecretInventory, SecretMirrorPlan, MirrorType, skip, update, create,
  restore_metadata,
}

abbrev pub answers : SecretState → Bool
answers s = elim s.error [ none ↦ true | some e ↦ false ]

-- The devices with no error, in the order of the map.
unfoldable pub responding : Dict SecretState → Dict SecretState
responding states = filter_by (λ (d : Str × SecretState). answers (d.1)) states

-- the devices among those responding whose state passes a test, in the order of the map
unfoldable pub devices_where : (SecretState → Bool) → Dict SecretState → List Str
devices_where p [] = []
devices_where p ((d, s) ∷ states) =
    let rest = devices_where p states in if p s then d ∷ rest else rest

abbrev pub has_secret : SecretState → Bool
has_secret s = s.present

abbrev pub lacks_secret : SecretState → Bool
lacks_secret s = not s.present

abbrev pub lacks_metadata : SecretState → Bool
lacks_metadata s = s.present && not s.has_metadata

-- the observation of one device; one that lacks the secret abstains
unfoldable pub observation : Str → SecretState → DeviceObservation
observation d s =
    if s.present
    then record {
      device_id = d;
      present = true;
      tombstone = false;
      checksum = s.checksum;
      version = s.version;
      timestamp = s.timestamp;
    }
    else record {
      device_id = d;
      present = false;
      tombstone = false;
      checksum = [];
      version = pos 0;
      timestamp = pos 0;
    }

unfoldable pub observations : Dict SecretState → List DeviceObservation
unfolding observation
observations [] = []
observations ((d, s) ∷ states) = observation d s ∷ observations states

abbrev pub is_nil : List Str → Bool
is_nil [] = true
is_nil (x ∷ xs) = false

unfoldable pub contains : Str → List Str → Bool
contains d [] = false
contains d (x ∷ xs) = if str_eq x d then true else contains d xs

-- the loop of removeDuplicates; `seen` holds the items that are in the result
unfoldable pub remove_seen : List Str → List Str → List Str
unfolding contains
remove_seen seen [] = []
remove_seen seen (x ∷ xs) = elim (contains x seen) [
  | true ↦ remove_seen seen xs
  | false ↦ x ∷ remove_seen (x ∷ seen) xs
]

-- removeDuplicates
unfoldable pub remove_duplicates : List Str → List Str
unfolding remove_seen
remove_duplicates slice = remove_seen [] slice

-- removeDevice
unfoldable pub remove_device : List Str → Str → List Str
remove_device [] r = []
remove_device (d ∷ ds) r = let rest = remove_device ds r in if str_eq d r then rest else d ∷ rest

abbrev version_of : Option SecretState → ℤ
version_of none = pos 0
version_of (some s) = s.version

-- the type that the three groups of targets give
unfoldable pub sync_type : List Str → List Str → List Str → MirrorType
sync_type needing_secret needing_metadata outliers =
    if not (is_nil needing_secret)
    then create
    else if not (is_nil needing_metadata)
    then restore_metadata
    else if not (is_nil outliers)
    then update
    else skip

-- createMirrorPlanForSecret once the devices are grouped and the winner is known
unfoldable pub plan_for : Str → Dict SecretState → List Str → List Str → Decision → SecretMirrorPlan
unfolding remove_duplicates remove_device sync_type
plan_for path states needing_secret needing_metadata decision =
    let source = decision.winning_device_id in
    let version = version_of (get source states) in
    let skip_plan : SecretMirrorPlan = record {
      secret_path = path;
      source_device = source;
      source_version = version;
      target_devices = [];
      mirror_type = skip;
    } in
    let targets =
      remove_device (remove_duplicates (needing_secret ++ (needing_metadata ++ decision.outliers)))
        source in
    if not decision.diverged && is_nil needing_secret && is_nil needing_metadata
    then skip_plan
    else if is_nil targets
    then skip_plan
    else record {
      secret_path = path;
      source_device = source;
      source_version = version;
      target_devices = targets;
      mirror_type = sync_type needing_secret needing_metadata decision.outliers;
    }

-- createMirrorPlanForSecret; `none` is the nil plan
unfoldable pub create_mirror_plan_for_secret : Str → Dict SecretState → Option SecretMirrorPlan
unfolding responding devices_where observations plan_for
create_mirror_plan_for_secret path states =
    let up = responding states in
    if is_nil (devices_where has_secret up)
    then none
    else some (
        plan_for path states (devices_where lacks_secret up) (devices_where lacks_metadata up)
          (resolve (observations up) (length up)))

abbrev add_plan : Option SecretMirrorPlan → List SecretMirrorPlan → List SecretMirrorPlan
add_plan none plans = plans
add_plan (some p) plans = p ∷ plans

-- createMirrorPlans
unfoldable pub create_mirror_plans : SecretInventory → List SecretMirrorPlan
unfolding create_mirror_plan_for_secret
create_mirror_plans [] = []
create_mirror_plans ((path, states) ∷ inv) =
    add_plan (create_mirror_plan_for_secret path states) (create_mirror_plans inv)
