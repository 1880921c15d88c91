-- ===== src/Reconcile.antt =====
-- internal/reconcile/resolve.go: which copy of a secret wins when devices disagree. Go maps are
-- association lists; the loops are functions over the list that they range over.
pub mod Votes
pub mod Newest
pub mod Lowest
pub mod Verdict
pub mod Order
use hsm_secrets_operator.Common.{
  ℕ, zero, suc, ◌+◌, ◌/◌, List, [], ◌∷◌, Bool, true, false, not, ◌&&◌, ◌||◌, Option, none, some,
  map, ltb, leb, if◌then◌else◌, ℤ, ltb_ℤ, pos, Str, str, str_eq, str_ltb, sort_strings, filter_by,
}

-- TombstoneChecksum
abbrev pub tombstone_checksum : Str
tombstone_checksum = str "__deleted__"

-- StrategyNone, StrategyLWW, StrategyMajority, StrategyMajorityLWW
pub data Strategy : Type 0 where
  no_copy lww majority majority_lww : Strategy

pub record DeviceObservation : Type 0 where
  pub device_id : Str
  pub present : Bool
  pub tombstone : Bool
  pub checksum : Str
  pub version : ℤ  -- int64
  pub timestamp : ℤ  -- int64

unfoldable pub has_opinion : DeviceObservation → Bool
has_opinion o = o.present || o.tombstone

unfoldable pub effective_checksum : DeviceObservation → Str
effective_checksum o = if o.tombstone then tombstone_checksum else o.checksum

pub record Decision : Type 0 where
  pub winning_checksum : Str
  pub winning_device_id : Str
  pub deleted : Bool
  pub diverged : Bool
  pub strategy : Strategy
  pub outliers : List Str
  pub found : Bool

-- counts[cs]++ on a map from checksums to numbers
unfoldable pub count_vote : Str → List (Str × ℕ) → List (Str × ℕ)
count_vote cs [] = (cs, 1) ∷ []
count_vote cs ((k, n) ∷ m) =
    let rest = count_vote cs m in if str_eq k cs then (k, n + 1) ∷ m else (k, n) ∷ rest

-- the loop that counts the votes of the voters
unfoldable pub count_votes : List (Str × ℕ) → List DeviceObservation → List (Str × ℕ)
unfolding count_vote
count_votes m [] = m
count_votes m (v ∷ vs) = count_votes (count_vote (effective_checksum v) m) vs

-- counts[k], which is 0 where the key is missing
unfoldable pub votes_for : Str → List (Str × ℕ) → ℕ
votes_for k [] = 0
votes_for k ((j, n) ∷ m) = if str_eq j k then n else votes_for k m

abbrev pub keys : List (Str × ℕ) → List Str
keys [] = []
keys ((k, n) ∷ m) = k ∷ keys m

-- the loop of strictMajority over the sorted keys
unfoldable pub first_above : ℕ → List (Str × ℕ) → List Str → Option Str
first_above threshold counts [] = none
first_above threshold counts (k ∷ ks) =
    let rest = first_above threshold counts ks in
    if ltb threshold (votes_for k counts) then some k else rest

-- strictMajority: `none` is ("", false)
unfoldable pub strict_majority : List (Str × ℕ) → ℕ → Option Str
strict_majority counts device_count =
    first_above (device_count / 2) counts (sort_strings (keys counts))

abbrev same : ℤ → ℤ → Bool
same a b = not (ltb_ℤ a b) && not (ltb_ℤ b a)

-- the test of lastWriteWins: is `v` newer than `best`?
unfoldable pub newer : DeviceObservation → DeviceObservation → Bool
newer v best =
    ltb_ℤ best.version v.version
    || (same v.version best.version && ltb_ℤ best.timestamp v.timestamp)
    || (same v.version best.version
        && same v.timestamp best.timestamp
        && str_ltb v.device_id best.device_id)

-- lastWriteWins over voters[0] and voters[1:]; it is called where there is a voter
unfoldable pub last_write_wins : DeviceObservation → List DeviceObservation → DeviceObservation
last_write_wins best [] = best
last_write_wins best (v ∷ vs) = last_write_wins (if newer v best then v else best) vs

-- one round of the loop of lowestDeviceWithChecksum; "" stands for "no device yet"
unfoldable pub lower : Str → Str → DeviceObservation → Str
lower checksum winner v =
    if not (str_eq (effective_checksum v) checksum)
    then winner
    else if str_eq winner [] || str_ltb v.device_id winner
    then v.device_id
    else winner

unfoldable pub lowest_from : Str → Str → List DeviceObservation → Str
lowest_from checksum winner [] = winner
lowest_from checksum winner (v ∷ vs) = lowest_from checksum (lower checksum winner v) vs

unfoldable pub lowest_device_with_checksum : List DeviceObservation → Str → Str
unfolding lowest_from
lowest_device_with_checksum voters checksum = lowest_from checksum [] voters

unfoldable pub outliers_of : Str → List DeviceObservation → List Str
outliers_of winning [] = []
outliers_of winning (v ∷ vs) =
    let rest = outliers_of winning vs in
    if str_eq (effective_checksum v) winning then rest else v.device_id ∷ rest

-- the branch for three devices and more: a majority, or else last-write-wins
abbrev pub majority_or : Str → Option Str → Str × Strategy
majority_or fallback (some cs) = (cs, majority)
majority_or fallback none = (fallback, majority_lww)

-- the winning checksum and how it was reached, for the voters `v ∷ vs`
unfoldable pub choose : DeviceObservation → List DeviceObservation → ℕ → Str × Strategy
choose v vs device_count =
    let newest = effective_checksum (last_write_wins v vs) in
    if leb 3 device_count
    then majority_or newest (strict_majority (count_votes [] (v ∷ vs)) device_count)
    else (newest, lww)

abbrev is_empty : List Str → Bool
is_empty [] = true
is_empty (x ∷ xs) = false

-- the end of Resolve: the winning device and the outliers
unfoldable pub verdict : List DeviceObservation → Str × Strategy → Decision
verdict voters (winning, how) =
    let outliers = sort_strings (outliers_of winning voters) in
    record {
      winning_checksum = winning;
      winning_device_id = lowest_device_with_checksum voters winning;
      deleted = str_eq winning tombstone_checksum;
      diverged = not (is_empty outliers);
      strategy = how;
      outliers = outliers;
      found = true;
    }

abbrev no_decision : Decision
no_decision = record {
  winning_checksum = [];
  winning_device_id = [];
  deleted = false;
  diverged = false;
  strategy = no_copy;
  outliers = [];
  found = false;
}

abbrev pub voters_of : List DeviceObservation → List DeviceObservation
voters_of = filter_by has_opinion

unfoldable pub resolve_voters : List DeviceObservation → ℕ → Decision
unfolding verdict
resolve_voters [] device_count = no_decision
resolve_voters (v ∷ vs) device_count = verdict (v ∷ vs) (choose v vs device_count)

unfoldable pub resolve : List DeviceObservation → ℕ → Decision
unfolding resolve_voters
resolve obs device_count = resolve_voters (voters_of obs) device_count
