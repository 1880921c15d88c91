-- ===== src/Mirror/Execute/Outcome.antt =====
-- A plan that creates or updates: what the devices hold when it has succeeded, and what it leaves
-- alone whether it succeeds or not.
use hsm_secrets_operator.Common.{
  ◌≡◌, refl, sym, ap, subst, ◌∙◌, ◌⊎◌, inl, inr, true, false, Option, some, Option-cases, In, ℤ,
  pos, ◌<ℤ◌, ◌==◌, ==_iff, Str, Dict, get, arith,
}
use hsm_secrets_operator.Golib.{Golib}
use hsm_secrets_operator.Hsm.{SecretData, SecretMetadata}
use hsm_secrets_operator.Hsm.Hardware.Labels.{IsApart}
use hsm_secrets_operator.Mirror.{DiscoveredDevice, Agents, SecretMirrorPlan, SecretMirrorResult}
use hsm_secrets_operator.Mirror.Execute.{
  no_tally, sync_targets, execute_mirror_plan, read_secret_with_metadata, sync_metadata,
  next_version,
}
use hsm_secrets_operator.Mirror.Execute.Device.{Filled, Faithful}
use hsm_secrets_operator.Mirror.Execute.Writes.{Keyed, Copies}
use hsm_secrets_operator.Mirror.Execute.Reads.{
  read_secret_with_metadata-quiet, read_secret_with_metadata-reads, Result-cases,
}
use hsm_secrets_operator.Mirror.Execute.Converge.{run-stores, run-frame}

module _ {W : Type 0} (go : Golib) (agents : Agents W) (f : Faithful agents)
    (plan : SecretMirrorPlan) (lookup : Dict DiscoveredDevice) (w : W)
    (copies : Copies plan.mirror_type) (keyed : Keyed lookup) where
  abbrev outcome : SecretMirrorResult × W
  outcome = execute_mirror_plan go agents plan lookup w

  -- The execution came to the loop over the targets, in a world with the same copies.
  record Ran : Type 0 where
    data' : Option SecretData
    held : Option SecretMetadata
    version : Option SecretMetadata
    now : ℤ
    world : W
    filled : Filled data'
    source_copy : f.copy w plan.source_device plan.secret_path ≡ some (data', held)
    same_copies : (s q : Str) → f.copy world s q ≡ f.copy w s q
    loop_success : outcome.0.success ≡ (
        (sync_targets agents plan.mirror_type plan.secret_path data'
          (sync_metadata go (next_version go version) now plan.source_device)
          lookup
          plan.target_devices
          no_tally
          world).0.failed
        == 0)
    loop_world :
        outcome.1
        ≡ (sync_targets agents plan.mirror_type plan.secret_path data'
            (sync_metadata go (next_version go version) now plan.source_device)
            lookup
            plan.target_devices
            no_tally
            world).1

  execute_cases :
      ((outcome.0.success ≡ false) × ((s q : Str) → f.copy outcome.1 s q ≡ f.copy w s q)) ⊎ Ran
  unfolding execute_mirror_plan
  execute_cases = elim (Option-cases (get plan.source_device lookup)) [
    | inl e ↦
        let stays : outcome.1 ≡ w = ground arith in
        inl (ground arith, λ s q. ap (λ x. f.copy x s q) stays)
    | inr (d, e) ↦
        let r = read_secret_with_metadata agents d plan.secret_path w in
        let quiet = read_secret_with_metadata-quiet agents f d plan.secret_path w in
        elim (Result-cases r.0) [
          | inl (x, failed) ↦
              let stays : outcome.1 ≡ r.1 = ground arith in
              inl (ground arith, λ s q. ap (λ x. f.copy x s q) stays ∙ quiet s q)
          | inr ((data', md), read) ↦
              let (filled, (held, source)) =
                read_secret_with_metadata-reads agents f d plan.secret_path w data' md read in
              inr (record {
                data' = data';
                held = held;
                version = md;
                now = (agents.now r.1).0;
                world = (agents.now r.1).1;
                filled = filled;
                source_copy =
                    subst (λ n. f.copy w n plan.secret_path ≡ some (data', held))
                      (keyed plan.source_device d e) source;
                same_copies = λ s q. f.now_quiet r.1 s q ∙ quiet s q;
                loop_success = ground arith;
                loop_world = ground arith;
              })
        ]
  ]

  abbrev pub Stamped : SecretMetadata → Type 0
  Stamped md = (v : ℤ) × (now : ℤ) × (pos 0 <ℤ v) × (md ≡ sync_metadata go v now plan.source_device)

  next_version_pos : (md : Option SecretMetadata) → pos 0 <ℤ next_version go md
  unfolding next_version
  next_version_pos md = ground arith

  -- For agents under the laws of `Faithful`, and a lookup that finds under each name a device with
  -- that serial number: if a plan that creates or updates reports success, then every target ends
  -- with the data that the source held at the start, under metadata with a version above 0 and the
  -- source's name.
  pub execute-converges :
      outcome.0.success ≡ true
      → (data' : Option SecretData) × (held : Option SecretMetadata) × (md : SecretMetadata)
        × (f.copy w plan.source_device plan.secret_path ≡ some (data', held))
        × Stamped md
        × ((t : Str)
            → In t plan.target_devices
            → f.copy outcome.1 t plan.secret_path ≡ some (data', some md))
  execute-converges h = elim execute_cases [
    | inl (failed, _) ↦ cc (failed, h)
    | inr r ↦
        let md = sync_metadata go (next_version go r.version) r.now plan.source_device in
        (
          r.data',
          r.held,
          md,
          r.source_copy,
          (next_version go r.version, r.now, next_version_pos r.version, refl),
          λ t m.
              ap (λ x. f.copy x t plan.secret_path) r.loop_world
              ∙ run-stores agents f plan.mirror_type plan.secret_path r.data' md lookup copies keyed
                  r.filled plan.target_devices no_tally r.world t
                  ((==_iff _ 0).0 (sym r.loop_success ∙ h)) m,
        )
  ]

  -- For agents under the laws of `Faithful`, and a lookup that finds under each name a device with
  -- that serial number: a plan that creates or updates, whether it succeeds or fails, changes no copy
  -- on a device that is not a target, and none at a path of which neither it nor the path of the plan
  -- begins with the other.
  pub execute-frame :
      (s q : Str)
      → ¬ (In s plan.target_devices) ⊎ IsApart plan.secret_path q
      → f.copy outcome.1 s q ≡ f.copy w s q
  execute-frame s q other = elim execute_cases [
    | inl (_, same) ↦ same s q
    | inr r ↦
        let md = sync_metadata go (next_version go r.version) r.now plan.source_device in
        ap (λ x. f.copy x s q) r.loop_world
        ∙ run-frame agents f plan.mirror_type plan.secret_path r.data' md lookup copies keyed
            r.filled plan.target_devices no_tally r.world s q other
        ∙ r.same_copies s q
  ]
