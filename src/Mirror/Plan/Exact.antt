-- ===== src/Mirror/Plan/Exact.antt =====
-- What a mirror plan promises: its source, its targets and its type.
use hsm_secrets_operator.Common.{
  ◌≡◌, refl, sym, ap, subst, ◌∙◌, ◌↔◌, ◌⊎◌, inl, inr, List, [], ◌∷◌, true, false, none, some,
  Bool-cases, length, In, Str, Dict,
}
use hsm_secrets_operator.Reconcile.{DeviceObservation, effective_checksum}
use hsm_secrets_operator.Reconcile.Verdict.{resolve-device, resolve-agree, resolve-found}
use hsm_secrets_operator.Mirror.{SecretState, SecretMirrorPlan, skip}
use hsm_secrets_operator.Mirror.Plan.{
  devices_where, has_secret, lacks_secret, lacks_metadata, observation, observations, is_nil,
  plan_for, create_mirror_plan_for_secret,
}
use hsm_secrets_operator.Mirror.Plan.Targets.{
  Unique, PlanFor, plan_for-PlanFor, nil_of_is_nil, PlanFor-skip,
}
use hsm_secrets_operator.Mirror.Plan.Source.{
  Holds, AllNamed, voters-Named, voters_iff, device_id-observation, effective_checksum-observation,
  responding_iff, devices_where_iff, Stale, up, decision, groups_iff,
}

-- The plan made of the groups of devices, once it is known that a device holds the secret.
made_plan : Str → Dict SecretState → SecretMirrorPlan
made_plan path states =
    plan_for path states (devices_where lacks_secret (up states))
      (devices_where lacks_metadata (up states)) (decision states)

plan_cases :
    (path : Str) (states : Dict SecretState)
    → ((create_mirror_plan_for_secret path states ≡ none)
        × (devices_where has_secret (up states) ≡ []))
      ⊎ ((create_mirror_plan_for_secret path states ≡ some (made_plan path states))
          × (is_nil (devices_where has_secret (up states)) ≡ false))
unfolding create_mirror_plan_for_secret made_plan
plan_cases path states = elim (Bool-cases (is_nil (devices_where has_secret (up states)))) [
  | inl y ↦ inl (rw y, nil_of_is_nil _ y)
  | inr n ↦ inr (rw n, n)
]

-- A device that answered and holds the secret.
abbrev SomeHolder : Dict SecretState → Type 0
SomeHolder states =
    (d : Str) × (s : SecretState) × Holds states d s × (s.error ≡ none) × (s.present ≡ true)

first_of_nonempty : (xs : List Str) → is_nil xs ≡ false → (d : Str) × In d xs
first_of_nonempty [] h = cc
first_of_nonempty (x ∷ xs) h = (x, inl refl)

holder_of_listed :
    (states : Dict SecretState)
    → is_nil (devices_where has_secret (up states)) ≡ false
    → SomeHolder states
holder_of_listed states h =
    let (d, m) = first_of_nonempty _ h in
    let (s, i, p) = (devices_where_iff has_secret d (up states)).0 m in
    let (j, e) = (responding_iff d s states).0 i in (d, s, j, e, p)

-- There is no plan exactly when no device that answered holds the secret.
no_plan_iff :
    (path : Str) (states : Dict SecretState)
    → (create_mirror_plan_for_secret path states ≡ none) ↔ (¬ (SomeHolder states))
no_plan_iff path states = elim (plan_cases path states) [
  | inl (e, f) ↦ (
    λ _ x.
        let i = (responding_iff (x.0) (x.1) states).1 (x.2, x.3) in
        subst (In (x.0)) f ((devices_where_iff has_secret (x.0) (up states)).1 (x.1, i, x.4)),
    λ _. e,
  )
  | inr (e, n) ↦ (λ h. cc (e, h), λ h. absurd (h (holder_of_listed states n)))
]

-- What the plan for the states of a secret promises, for the checksum of its source.
pub record PlanExact (states : Dict SecretState) (p : SecretMirrorPlan) (checksum : Str)
    : Type 0 where
  source_holds :
      (s : SecretState) × Holds states p.source_device s
      × (s.error ≡ none)
      × (s.present ≡ true)
      × (s.checksum ≡ checksum)
  targets : (d : Str) → In d p.target_devices ↔ (Stale states checksum d × ¬ (d ≡ p.source_device))
  unique : Unique p.target_devices
  skip_iff : (p.mirror_type ≡ skip) ↔ (p.target_devices ≡ [])

module _ (path : Str) (states : Dict SecretState) where
  made :
      PlanFor
        (devices_where lacks_secret (up states))
        (devices_where lacks_metadata (up states))
        (decision states)
        (made_plan path states)
  unfolding made_plan
  made =
      plan_for-PlanFor path states _ _ (decision states)
        (resolve-agree (observations (up states)) (length (up states)))

  -- The device that the resolver picks holds the winning checksum.
  made_source :
      AllNamed states
      → is_nil (devices_where has_secret (up states)) ≡ false
      → (s : SecretState) × Holds states (made_plan path states).source_device s
        × (s.error ≡ none)
        × (s.present ≡ true)
        × (s.checksum ≡ (decision states).winning_checksum)
  made_source named some_holder =
      let (d, m) = first_of_nonempty _ some_holder in
      let (t, i, p) = (devices_where_iff has_secret d (up states)).0 m in
      let voter = (voters_iff (observation d t) (up states)).1 (d, t, i, p, refl) in
      let n = length (up states) in
      let obs = observations (up states) in
      let ((v, j, c, q), _) =
        resolve-device obs n
          (voters-Named (up states) (λ x s k. named x s ((responding_iff x s states).0 k).0))
          ((resolve-found obs n).1 (observation d t, voter)) in
      let (x, s, k, h, e) = (voters_iff v (up states)).0 j in
      let same : x ≡ (made_plan path states).source_device =
        sym (device_id-observation x s) ∙ sym (ap id_of e) ∙ q ∙ sym made.source in
      let (l, r) = (responding_iff x s states).0 k in
      (
        s,
        subst (λ y. Holds states y s) same l,
        r,
        h,
        sym (effective_checksum-observation x s h) ∙ sym (ap effective_checksum e) ∙ c,
      )
    where
      id_of : DeviceObservation → Str
      id_of o = o.device_id

-- The plan for a secret copies from a device that answered and holds the secret. Its targets are
-- exactly the other devices that answered and lack the secret, lack a version, or hold another
-- checksum than the source, each once; and it is a skip exactly when it has no target. The devices
-- have non-empty serial numbers.
pub plan_exact :
    (path : Str) (states : Dict SecretState) (p : SecretMirrorPlan)
    → AllNamed states
    → create_mirror_plan_for_secret path states ≡ some p
    → PlanExact states p (decision states).winning_checksum
plan_exact path states p named h = elim (plan_cases path states) [
  | inl (e, _) ↦ cc (e, h)
  | inr (e, n) ↦
      let same : made_plan path states ≡ p = cc (e, h) in
      subst (λ q. PlanExact states q (decision states).winning_checksum) same
        (record {
          source_holds = made_source path states named n;
          targets = λ d. (
            λ m.
                let (g, ne) = ((made path states).targets d).0 m in
                ((groups_iff states d).0 g, λ f. ne (f ∙ (made path states).source)),
            λ x.
                ((made path states).targets d).1
                  ((groups_iff states d).1 (x.0), λ f. x.1 (f ∙ sym (made path states).source)),
          );
          unique = (made path states).unique;
          skip_iff = PlanFor-skip _ _ (decision states) (made_plan path states) (made path states);
        })
]
