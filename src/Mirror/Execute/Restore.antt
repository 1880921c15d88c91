-- ===== src/Mirror/Execute/Restore.antt =====
-- A plan that restores metadata: which data it leaves as they were.
use hsm_secrets_operator.Common.{
  ◌≡◌, refl, sym, ap, subst, ◌∙◌, ◌⊎◌, inl, inr, List, [], ◌∷◌, true, ◌&&◌, Option, none, some,
  Bool-cases, Option-cases, Str, str_eq, str_eq_iff, Dict, get, arith,
}
use hsm_secrets_operator.Golib.{Golib}
use hsm_secrets_operator.Hsm.{SecretData, SecretMetadata}
use hsm_secrets_operator.Hsm.Hardware.Labels.{IsApart}
use hsm_secrets_operator.Mirror.{
  DiscoveredDevice, Error, MirrorType, restore_metadata, Agents, SecretMirrorPlan,
  SecretMirrorResult,
}
use hsm_secrets_operator.Mirror.Execute.{
  Tally, no_tally, count_outcome, write_secret, write_metadata_only, sync_targets,
  execute_mirror_plan, read_secret_with_metadata, sync_metadata, next_version, restore_source,
  sync_target, lacks_version, restores,
}
use hsm_secrets_operator.Mirror.Execute.Device.{Filled, Faithful}
use hsm_secrets_operator.Mirror.Execute.Writes.{
  write_secret-stores, write_secret-frame, write_metadata_only-stores, write_metadata_only-frame,
  data_of, one, first_succeeds, found_of_success,
}
use hsm_secrets_operator.Mirror.Execute.Reads.{
  read_secret_with_metadata-quiet, read_secret_with_metadata-reads, Result-cases,
}

-- The paths at which a write to a path tells what becomes of the data.
abbrev Seen : Str → Str → Type 0
Seen path q = (q ≡ path) ⊎ IsApart path q

-- Two worlds that agree on the data at one copy and on the copies elsewhere agree on the data.
same_data :
    {W : Type 0} {agents : Agents W} (f : Faithful agents) (w w' : W) (n path : Str)
    (data' : Option SecretData) (before after : Option SecretMetadata) (s q : Str)
    → Seen path q
    → f.copy w n path ≡ some (data', before)
    → f.copy w' n path ≡ some (data', after)
    → (¬ (s ≡ n) ⊎ IsApart path q → f.copy w' s q ≡ f.copy w s q)
    → data_of (f.copy w' s q) ≡ data_of (f.copy w s q)
same_data f w w' n path data' before after s q near held now other =
    elim (Bool-cases (str_eq s n)) [
      | inr x ↦ ap data_of (other (inl (λ e. cc (x, (str_eq_iff s n).1 e))))
      | inl y ↦ elim near [
        | inr apart ↦ ap data_of (other (inr apart))
        | inl here ↦ rw ((str_eq_iff s n).0 y, here, held, now) refl
      ]
    ]

module _ {W : Type 0} (agents : Agents W) (f : Faithful agents) (path : Str)
    (data' : Option SecretData) (md : SecretMetadata) (lookup : Dict DiscoveredDevice) where
  abbrev target : Str → W → Option Error × W
  target = one agents restore_metadata path data' md lookup

  -- A target that reports no error keeps its data, and no other copy changes.
  target-data :
      (n : Str) (w : W) (s q : Str)
      → Seen path q
      → (target n w).0 ≡ none
      → data_of (f.copy (target n w).1 s q) ≡ data_of (f.copy w s q)
  unfolding sync_target
  target-data n w s q near h =
      let (d, e) = found_of_success agents restore_metadata path data' md lookup n w h in
      let same : target n w ≡ write_metadata_only agents d path md w = rw e refl in
      let done = sym (ap (λ (r : Option Error × W). r.0) same) ∙ h in
      let (old, before, held, now) = write_metadata_only-stores agents f d path data' md w done in
      ap (λ (r : Option Error × W). data_of (f.copy r.1 s q)) same
      ∙ same_data f w (write_metadata_only agents d path md w).1 d.serial_number path old before
          (some md) s q near held now (write_metadata_only-frame agents f d path data' md w s q)

  run-data :
      (ns : List Str) (t : Tally) (w : W) (s q : Str)
      → Seen path q
      → (sync_targets agents restore_metadata path data' md lookup ns t w).0.failed ≡ 0
      → data_of (f.copy (sync_targets agents restore_metadata path data' md lookup ns t w).1 s q)
        ≡ data_of (f.copy w s q)
  unfolding sync_targets
  run-data [] t w s q near h = refl
  run-data (n ∷ ns) t w s q near h =
      run-data ns (count_outcome t (target n w).0) (target n w).1 s q near h
      ∙ target-data n w s q near
          (first_succeeds agents restore_metadata path data' md lookup n ns t w h)

-- The repair of the source writes the data that the source holds.
repair-data :
    {W : Type 0} (agents : Agents W) (f : Faithful agents) (kind : MirrorType)
    (d : DiscoveredDevice) (path : Str) (data' : Option SecretData)
    (held source_md : Option SecretMetadata) (md : SecretMetadata) (w : W) (s q : Str)
    → Seen path q
    → Filled data'
    → f.copy w d.serial_number path ≡ some (data', held)
    → (restore_source agents kind d path data' source_md md w).0 ≡ none
    → data_of (f.copy (restore_source agents kind d path data' source_md md w).1 s q)
      ≡ data_of (f.copy w s q)
unfolding restore_source
repair-data agents f kind d path data' held source_md md w s q near filled h done =
    elim (Bool-cases (restores kind && lacks_version source_md)) [
      | inr n ↦ rw n refl
      | inl y ↦
          let written = write_secret-stores agents f d path data' md w filled (rw y at done) in
          rw y (
            same_data f w (write_secret agents d path data' md w).1 d.serial_number path data' held
              (some md) s q near h written (write_secret-frame agents f d path data' md w s q))
    ]

module _ {W : Type 0} (go : Golib) (agents : Agents W) (f : Faithful agents)
    (plan : SecretMirrorPlan) (lookup : Dict DiscoveredDevice) (w : W)
    (restoring : plan.mirror_type ≡ restore_metadata) where
  abbrev outcome : SecretMirrorResult × W
  outcome = execute_mirror_plan go agents plan lookup w

  run_kind :
      (data' : Option SecretData) (md : SecretMetadata) (v : W) (s q : Str)
      → Seen plan.secret_path q
      → let t =
          sync_targets agents plan.mirror_type plan.secret_path data' md lookup plan.target_devices
            no_tally v in
        t.0.failed ≡ 0 → data_of (f.copy t.1 s q) ≡ data_of (f.copy v s q)
  run_kind data' md v s q near =
      subst
        (λ k.
          let t =
            sync_targets agents k plan.secret_path data' md lookup plan.target_devices no_tally v in
          t.0.failed ≡ 0 → data_of (f.copy t.1 s q) ≡ data_of (f.copy v s q))
        (sym restoring)
        (run-data agents f plan.secret_path data' md lookup plan.target_devices no_tally v s q near)

  -- For agents under the laws of `Faithful`, a plan that restores metadata and succeeds leaves the
  -- data at its path as it was on every device, also of a target whose data differs from the source's,
  -- and the data at every path of which neither it nor the path of the plan begins with the other.
  pub execute-restore_keeps_data :
      outcome.0.success ≡ true
      → (s q : Str) → Seen plan.secret_path q
      → data_of (f.copy outcome.1 s q) ≡ data_of (f.copy w s q)
  unfolding execute_mirror_plan
  execute-restore_keeps_data h s q near = elim (Option-cases (get plan.source_device lookup)) [
    | inl e ↦ absurd (ground arith)
    | inr (d, e) ↦
        let r = read_secret_with_metadata agents d plan.secret_path w in
        elim (Result-cases r.0) [
          | inl (x, failed) ↦ absurd (ground arith)
          | inr ((data', source_md), read) ↦
              let n = agents.now r.1 in
              let md = sync_metadata go (next_version go source_md) n.0 plan.source_device in
              let repair =
                restore_source agents plan.mirror_type d plan.secret_path data' source_md md n.1 in
              let (filled, (held, source)) =
                read_secret_with_metadata-reads agents f d plan.secret_path w data' source_md
                  read in
              let t =
                sync_targets agents plan.mirror_type plan.secret_path data' md lookup
                  plan.target_devices no_tally repair.1 in
              let here = λ (x y : Str).
                f.now_quiet r.1 x y
                ∙ read_secret_with_metadata-quiet agents f d plan.secret_path w x y in
              elim (Option-cases repair.0) [
                | inr (x, broken) ↦ absurd (ground arith)
                | inl fine ↦
                    let ended : outcome.1 ≡ t.1 = ground arith in
                    let clean : t.0.failed ≡ 0 = ground arith in
                    ap (λ x. data_of (f.copy x s q)) ended
                    ∙ run_kind data' md repair.1 s q near clean
                    ∙ repair-data agents f plan.mirror_type d plan.secret_path data' held source_md
                        md n.1 s q near filled (here d.serial_number plan.secret_path ∙ source) fine
                    ∙ ap data_of (here s q)
              ]
        ]
  ]
