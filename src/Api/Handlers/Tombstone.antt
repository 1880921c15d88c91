-- ===== src/Api/Handlers/Tombstone.antt =====
-- Deletion by tombstones in internal/api/proxy_client.go: what a later read makes of them.
use hsm_secrets_operator.Common.{
  ℕ, ◌≡◌, refl, sym, ap, subst, ◌∙◌, inl, inr, List, [], ◌∷◌, true, false, not, none, some, In,
  In-filter_by, Distinct, Str, str, str_eq, str_eq_iff, ℤ, pos, ◌<ℤ◌, get, arith,
}
use hsm_secrets_operator.Golib.{Golib}
use hsm_secrets_operator.Hsm.{calculate_checksum}
use hsm_secrets_operator.Reconcile.{
  DeviceObservation, Decision, tombstone_checksum, effective_checksum, has_opinion, newer,
  last_write_wins, choose, verdict, lowest_device_with_checksum, lowest_from, lower, resolve_voters,
  resolve, voters_of, Strategy,
}
use hsm_secrets_operator.Reconcile.Verdict.{winner_has_voter, choose-Chosen}
use hsm_secrets_operator.Api.{SecretResult}
use hsm_secrets_operator.Api.Answers.{
  is_secret_deleted, parse_version_from_metadata, secret_observation, secret_observations,
  data_by_device, find_most_recent_secret_result,
}
use hsm_secrets_operator.Api.Answers.Order.{
  secret_of, find_most_recent_secret_result-eq, In-observations, data_by_device-hit,
}
use hsm_secrets_operator.Api.Devices.{tombstone_metadata}

-- The metadata of a deletion marks the secret as deleted, with version 0 where "0" is scanned as 0.
tombstone_metadata-reads :
    (go : Golib) (now : ℤ)
    → go.scan_int (str "0") ≡ some (pos 0)
    → (is_secret_deleted (some (tombstone_metadata go now)) ≡ true)
      × (parse_version_from_metadata go (some (tombstone_metadata go now)) ≡ pos 0)
unfolding is_secret_deleted parse_version_from_metadata tombstone_metadata get str_eq
tombstone_metadata-reads go now h = (refl, rw h refl)

pair_newest :
    (a b : DeviceObservation)
    → a.version <ℤ b.version
    → (last_write_wins a (b ∷ []) ≡ b) × (last_write_wins b (a ∷ []) ≡ b)
unfolding last_write_wins newer
pair_newest a b h = (ground (arith, h), ground (arith, h))

-- Of a live copy and an older tombstone of another checksum, the live copy wins.
live_wins :
    (a b : DeviceObservation)
    → a.present ≡ true
    → a.tombstone ≡ false
    → b.tombstone ≡ true
    → b.version <ℤ a.version
    → ¬ (a.checksum ≡ tombstone_checksum)
    → (choose a (b ∷ []) 2).0 ≡ a.checksum
unfolding choose effective_checksum
live_wins a b present live tomb older ne = rw ((pair_newest b a older).1) (rw live refl)

live_verdict :
    (a b : DeviceObservation)
    → a.tombstone ≡ false
    → b.tombstone ≡ true
    → ¬ (a.checksum ≡ tombstone_checksum)
    → lowest_device_with_checksum (a ∷ b ∷ []) a.checksum ≡ a.device_id
unfolding lowest_device_with_checksum lowest_from lower effective_checksum str_eq
live_verdict a b live tomb ne =
    ground (arith, str_eq_iff a.checksum a.checksum, str_eq_iff tombstone_checksum a.checksum)

live_voters :
    (a b : DeviceObservation)
    → a.present ≡ true
    → b.tombstone ≡ true
    → voters_of (a ∷ b ∷ []) ≡ a ∷ b ∷ []
unfolding has_opinion
live_voters a b present tomb = ground arith

-- The decision for a live copy and an older tombstone, two devices being expected.
abbrev Serves : Decision → Str → Type 0
Serves d device = (d.found ≡ true) × (d.deleted ≡ false) × (d.winning_device_id ≡ device)

live_chosen :
    (a b : DeviceObservation) (c : Str × Strategy)
    → c.0 ≡ a.checksum
    → a.tombstone ≡ false
    → b.tombstone ≡ true
    → ¬ (a.checksum ≡ tombstone_checksum)
    → Serves (verdict (a ∷ b ∷ []) c) a.device_id
unfolding verdict
live_chosen a b (cs, how) e live tomb ne = (
  refl,
  ground (arith, str_eq_iff cs tombstone_checksum),
  ap (lowest_device_with_checksum (a ∷ b ∷ [])) e ∙ live_verdict a b live tomb ne,
)

live_resolve :
    (a b : DeviceObservation)
    → a.present ≡ true
    → a.tombstone ≡ false
    → b.tombstone ≡ true
    → b.version <ℤ a.version
    → ¬ (a.checksum ≡ tombstone_checksum)
    → Serves (resolve (a ∷ b ∷ []) 2) a.device_id
unfolding resolve resolve_voters
live_resolve a b present live tomb older ne =
    subst (λ vs. Serves (resolve_voters vs 2) a.device_id) (sym (live_voters a b present tomb))
      (live_chosen a b (choose a (b ∷ []) 2) (live_wins a b present live tomb older ne) live tomb
        ne)

secret_of-Serves :
    (d : Decision) (r : SecretResult) (rs : List SecretResult)
    → In r rs
    → Distinct (λ (x : SecretResult). x.device_name) rs
    → Serves d r.device_name
    → secret_of d rs ≡ some r.data'
secret_of-Serves d r rs i distinct (found, live, device) = ground (
  arith,
  found,
  live,
  ap (λ k. get k (data_by_device rs [])) device,
  data_by_device-hit r rs [] distinct i,
)

secret_of-deleted :
    (d : Decision) (rs : List SecretResult)
    → (d.found ≡ true → d.deleted ≡ true)
    → secret_of d rs ≡ none
secret_of-deleted d rs h = ground (arith, h)

tombstone_vote :
    (u : DeviceObservation) → u.tombstone ≡ true → effective_checksum u ≡ tombstone_checksum
unfolding effective_checksum
tombstone_vote u t = rw t refl

-- Voters that are all tombstones.
all_tombstones :
    (vs : List DeviceObservation) (n : ℕ)
    → ((v : DeviceObservation) → In v vs → v.tombstone ≡ true)
    → (resolve_voters vs n).found ≡ true
    → (resolve_voters vs n).deleted ≡ true
unfolding resolve_voters verdict
all_tombstones [] n h f = cc
all_tombstones (v ∷ vs) n h f =
    let (cs, how) = choose v vs n in
    let (u, m, e) = winner_has_voter (v ∷ vs) n cs how (choose-Chosen v vs n) in
    (str_eq_iff cs tombstone_checksum).1 (sym e ∙ tombstone_vote u (h u m))

module _ (go : Golib) (now : ℤ) (zero_scans : go.scan_int (str "0") ≡ some (pos 0)) where
  deleted_observation :
      (r : SecretResult)
      → r.metadata ≡ some (tombstone_metadata go now)
      → ((secret_observation go r).tombstone ≡ true) × ((secret_observation go r).version ≡ pos 0)
  unfolding secret_observation
  deleted_observation r e = (
    ap is_secret_deleted e ∙ (tombstone_metadata-reads go now zero_scans).0,
    ap (parse_version_from_metadata go) e ∙ (tombstone_metadata-reads go now zero_scans).1,
  )

  -- Where "0" is scanned as 0, and of two devices one holds the tombstone of a deletion and the other
  -- a copy that is not deleted, with a version above 0 and a checksum that is not the tombstone's, a
  -- read of the secret returns that copy.
  pub deleted_secret_returns :
      (live gone : SecretResult)
      → is_secret_deleted live.metadata ≡ false
      → pos 0 <ℤ parse_version_from_metadata go live.metadata
      → ¬ (calculate_checksum go live.data' ≡ tombstone_checksum)
      → gone.metadata ≡ some (tombstone_metadata go now)
      → ¬ (gone.device_name ≡ live.device_name)
      → find_most_recent_secret_result go (live ∷ gone ∷ []) 2 ≡ some live.data'
  deleted_secret_returns live gone kept above ne e other =
      let a = secret_observation go live in
      let b = secret_observation go gone in
      let (tomb, v) = deleted_observation gone e in
      let d = resolve (secret_observations go (live ∷ gone ∷ [])) 2 in
      let s : Serves d live.device_name =
        unfold secret_observations in
        live_resolve a b (ap not kept) kept tomb
          (unfold secret_observation in ground (arith, v, above)) ne in
      find_most_recent_secret_result-eq go (live ∷ gone ∷ []) 2
      ∙ secret_of-Serves d live (live ∷ gone ∷ []) (inl refl)
          (
            (λ r i. elim i [
              | inl q ↦ λ f. other (ap (λ (x : SecretResult). x.device_name) (sym q) ∙ f)
              | inr j ↦ absurd j
            ]),
            ((λ r i. absurd i), tt),
          )
          s

observed_tombstone :
    (go : Golib) (r : SecretResult)
    → is_secret_deleted r.metadata ≡ true
    → (secret_observation go r).tombstone ≡ true
unfolding secret_observation
observed_tombstone go r h = h

-- Where every copy that is read is a tombstone, a read of the secret finds none, for every number
-- of devices.
pub deleted_everywhere :
    (go : Golib) (rs : List SecretResult) (n : ℕ)
    → ((r : SecretResult) → In r rs → is_secret_deleted r.metadata ≡ true)
    → find_most_recent_secret_result go rs n ≡ none
deleted_everywhere go rs n gone =
    find_most_recent_secret_result-eq go rs n
    ∙ secret_of-deleted (resolve (secret_observations go rs) n) rs (
        unfold resolve in
        all_tombstones (voters_of (secret_observations go rs)) n (λ v m.
          let (r, i, e) =
            In-observations go rs v (In-filter_by has_opinion v (secret_observations go rs) m) in
          ap (λ (o : DeviceObservation). o.tombstone) e ∙ observed_tombstone go r (gone r i)))
