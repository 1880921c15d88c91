-- ===== src/Mirror/Execute/Writes.antt =====
-- One write, by WriteSecret or writeMetadataOnly, and the loop over the targets.
use hsm_secrets_operator.Common.{
  ◌≤◌, ◌≡◌, refl, sym, ◌∙◌, ◌⊎◌, inl, inr, List, [], ◌∷◌, Option, none, some, Bool-cases,
  Option-cases, Str, Dict, get, arith,
}
use hsm_secrets_operator.Hsm.{SecretData, SecretMetadata}
use hsm_secrets_operator.Hsm.Hardware.Labels.{IsApart}
use hsm_secrets_operator.Mirror.{DiscoveredDevice, Error, MirrorType, update, create, Agents}
use hsm_secrets_operator.Mirror.Execute.{
  Tally, count_outcome, write_secret, write_metadata_only, found_target, sync_targets,
}
use hsm_secrets_operator.Mirror.Execute.Device.{Copy, Filled, Faithful}

module _ {W : Type 0} (agents : Agents W) (f : Faithful agents) where
  module _ (d : DiscoveredDevice) (path : Str) (data' : Option SecretData) (md : SecretMetadata)
      (w : W) where
    -- A write that reports no error has stored the data with the metadata.
    pub write_secret-stores :
        Filled data'
        → (write_secret agents d path data' md w).0 ≡ none
        → f.copy (write_secret agents d path data' md w).1 d.serial_number path
          ≡ some (data', some md)
    unfolding write_secret
    write_secret-stores filled h =
        let w1 = (agents.create_client d w).1 in
        let w2 = (agents.is_connected d w1).1 in
        ground (arith, f.write_stores d path data' md w2 filled)

    pub write_secret-frame :
        (s q : Str)
        → ¬ (s ≡ d.serial_number) ⊎ IsApart path q
        → f.copy (write_secret agents d path data' md w).1 s q ≡ f.copy w s q
    unfolding write_secret
    write_secret-frame s q other =
        let w1 = (agents.create_client d w).1 in
        let w2 = (agents.is_connected d w1).1 in
        ground (
          arith,
          f.write_frame d path data' md w2 s q other,
          f.connected_quiet d w1 s q,
          f.create_quiet d w s q,
        )

    -- A rewrite of the metadata that reports no error stores the data that the device held.
    pub write_metadata_only-stores :
        (write_metadata_only agents d path md w).0 ≡ none
        → (old : Option SecretData) × (before : Option SecretMetadata) × (f.copy w d.serial_number
              path
            ≡ some (old, before))
          × (f.copy (write_metadata_only agents d path md w).1 d.serial_number path
              ≡ some (old, some md))
    unfolding write_metadata_only
    write_metadata_only-stores h = elim (Bool-cases (agents.create_client d w).0) [
      | inr n ↦ absurd (ground arith)
      | inl y ↦
          let w1 = (agents.create_client d w).1 in
          elim (Bool-cases (agents.is_connected d w1).0) [
            | inr n ↦ absurd (ground arith)
            | inl u ↦
                let w2 = (agents.is_connected d w1).1 in
                let r = agents.read_secret d path w2 in
                elim (Option-cases r.0) [
                  | inl n ↦ absurd (ground arith)
                  | inr (old, e) ↦
                      let (filled, (before, held)) = f.read_data d path w2 old e in
                      (
                        old,
                        before,
                        sym (f.create_quiet d w d.serial_number path)
                            ∙ sym (f.connected_quiet d w1 d.serial_number path)
                            ∙ held,
                        ground (arith, f.write_stores d path old md r.1 filled),
                      )
                ]
          ]
    ]

    pub write_metadata_only-frame :
        (s q : Str)
        → ¬ (s ≡ d.serial_number) ⊎ IsApart path q
        → f.copy (write_metadata_only agents d path md w).1 s q ≡ f.copy w s q
    unfolding write_metadata_only
    write_metadata_only-frame s q other =
        let w1 = (agents.create_client d w).1 in
        let w2 = (agents.is_connected d w1).1 in
        let r = agents.read_secret d path w2 in
        let quiet =
          f.read_quiet d path w2 s q ∙ f.connected_quiet d w1 s q ∙ f.create_quiet d w s q in
        elim (Option-cases r.0) [
          | inl n ↦ ground (arith, quiet, f.connected_quiet d w1 s q, f.create_quiet d w s q)
          | inr (old, e) ↦ ground (
            arith,
            quiet,
            f.write_frame d path old md r.1 s q other,
            f.connected_quiet d w1 s q,
            f.create_quiet d w s q,
          )
        ]

-- The data of a copy.
abbrev pub data_of : Option Copy → Option (Option SecretData)
data_of none = none
data_of (some (data', md)) = some data'

-- A device that the lookup finds by a name has that name for its serial number.
abbrev pub Keyed : Dict DiscoveredDevice → Type 0
Keyed lookup = (n : Str) (d : DiscoveredDevice) → get n lookup ≡ some d → d.serial_number ≡ n

abbrev pub Copies : MirrorType → Type 0
Copies kind = (kind ≡ create) ⊎ (kind ≡ update)

failed-count_outcome : (t : Tally) (e : Option Error) → t.failed ≤ (count_outcome t e).failed
unfolding count_outcome
failed-count_outcome t none = omega arith
failed-count_outcome t (some e) = omega arith

outcome_of_no_failure : (t : Tally) (e : Option Error) → (count_outcome t e).failed ≡ 0 → e ≡ none
unfolding count_outcome
outcome_of_no_failure t none h = refl
outcome_of_no_failure t (some e) h = absurd (omega arith)

module _ {W : Type 0} (agents : Agents W) (kind : MirrorType) (path : Str)
    (data' : Option SecretData) (md : SecretMetadata) (lookup : Dict DiscoveredDevice) where
  -- The outcome for one name.
  abbrev pub one : Str → W → Option Error × W
  one n w = found_target agents kind n path data' md (get n lookup) w

  failed-sync_targets :
      (names : List Str) (t : Tally) (w : W)
      → t.failed ≤ (sync_targets agents kind path data' md lookup names t w).0.failed
  unfolding sync_targets
  failed-sync_targets [] t w = omega arith
  failed-sync_targets (n ∷ ns) t w = omega (
    arith,
    failed-count_outcome t (one n w).0,
    failed-sync_targets ns (count_outcome t (one n w).0) (one n w).1,
  )

  -- If the loop ends with no failure, the write to each target reported no error.
  pub first_succeeds :
      (n : Str) (ns : List Str) (t : Tally) (w : W)
      → (sync_targets agents kind path data' md lookup (n ∷ ns) t w).0.failed ≡ 0
      → (one n w).0 ≡ none
  unfolding sync_targets
  first_succeeds n ns t w h =
      outcome_of_no_failure t (one n w).0
        (omega (arith, failed-sync_targets ns (count_outcome t (one n w).0) (one n w).1))

  pub found_of_success :
      (n : Str) (w : W) → (one n w).0 ≡ none → (d : DiscoveredDevice) × (get n lookup ≡ some d)
  found_of_success n w h = elim (Option-cases (get n lookup)) [
    | inl e ↦ absurd (ground arith)
    | inr found ↦ found
  ]
