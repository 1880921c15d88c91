-- ===== src/Mirror/Plan/Source.antt =====
-- The plan for a secret against the states of its devices: who is copied, and who is written to.
use hsm_secrets_operator.Common.{
  ◌≡◌, refl, sym, ap, subst, ◌∙◌, ◌↔◌, ◌⊎◌, inl, inr, [], ◌∷◌, Bool, true, false, none, Bool-cases,
  length, In, In-filter_by_iff, Str, Dict, arith,
}
use hsm_secrets_operator.Reconcile.{
  DeviceObservation, Decision, resolve, voters_of, has_opinion, effective_checksum,
}
use hsm_secrets_operator.Reconcile.Lowest.{Named}
use hsm_secrets_operator.Reconcile.Verdict.{resolve-outliers}
use hsm_secrets_operator.Mirror.{SecretState}
use hsm_secrets_operator.Mirror.Plan.{
  answers, responding, devices_where, lacks_secret, lacks_metadata, observation, observations,
}

-- A device of the map with its state.
abbrev pub Holds : Dict SecretState → Str → SecretState → Type 0
Holds states d s = In (d, s) states

answers_iff : (s : SecretState) → (answers s ≡ true) ↔ (s.error ≡ none)
answers_iff s = ground arith

pub responding_iff :
    (d : Str) (s : SecretState) (states : Dict SecretState)
    → Holds (responding states) d s ↔ (Holds states d s × (s.error ≡ none))
unfolding responding
responding_iff d s states =
    let f = In-filter_by_iff (λ (z : Str × SecretState). answers (z.1)) (d, s) states in
    (λ m. let (i, h) = f.0 m in (i, (answers_iff s).0 h), λ h. f.1 (h.0, (answers_iff s).1 (h.1)))

pub devices_where_iff :
    (p : SecretState → Bool) (d : Str) (states : Dict SecretState)
    → In d (devices_where p states) ↔ ((s : SecretState) × Holds states d s × (p s ≡ true))
unfolding devices_where
devices_where_iff p d [] = (λ m. absurd m, λ h. absurd h.1)
devices_where_iff p d ((e, t) ∷ states) = elim (Bool-cases (p t)) [
  | inl y ↦ rw y (
    λ m. elim m [
      | inl q ↦ (t, inl (ap (λ z. (z, t)) q), y)
      | inr r ↦ let (s, i, h) = (devices_where_iff p d states).0 r in (s, inr i, h)
    ],
    λ h. elim h.1 [
      | inl q ↦ inl (ap (λ (z : Str × SecretState). z.0) q)
      | inr i ↦ inr ((devices_where_iff p d states).1 (h.0, i, h.2))
    ],
  )
  | inr n ↦ rw n (
    λ m. let (s, i, h) = (devices_where_iff p d states).0 m in (s, inr i, h),
    λ h. elim h.1 [
      | inl q ↦ cc (n, h.2, ap (λ (z : Str × SecretState). p (z.1)) q)
      | inr i ↦ (devices_where_iff p d states).1 (h.0, i, h.2)
    ],
  )
]

observations_iff :
    (v : DeviceObservation) (states : Dict SecretState)
    → In v (observations states)
      ↔ ((d : Str) × (s : SecretState) × Holds states d s × (v ≡ observation d s))
unfolding observations
observations_iff v [] = (λ m. absurd m, λ h. absurd h.2)
observations_iff v ((e, t) ∷ states) = (
  λ m. elim m [
    | inl q ↦ (e, t, inl refl, q)
    | inr r ↦ let (d, s, i, h) = (observations_iff v states).0 r in (d, s, inr i, h)
  ],
  λ h. elim h.2 [
    | inl q ↦ inl (h.3 ∙ ap (λ (z : Str × SecretState). observation (z.0) (z.1)) q)
    | inr i ↦ inr ((observations_iff v states).1 (h.0, h.1, i, h.3))
  ],
)

has_opinion-observation : (d : Str) (s : SecretState) → has_opinion (observation d s) ≡ s.present
unfolding has_opinion observation
has_opinion-observation d s = ground arith

pub device_id-observation : (d : Str) (s : SecretState) → (observation d s).device_id ≡ d
unfolding observation
device_id-observation d s = ground arith

pub effective_checksum-observation :
    (d : Str) (s : SecretState)
    → s.present ≡ true
    → effective_checksum (observation d s) ≡ s.checksum
unfolding effective_checksum observation
effective_checksum-observation d s h = rw h

-- The voters of the resolver are the devices that hold the secret.
pub voters_iff :
    (v : DeviceObservation) (states : Dict SecretState)
    → In v (voters_of (observations states)) ↔ (
        (d : Str) × (s : SecretState) × Holds states d s
        × (s.present ≡ true)
        × (v ≡ observation d s))
voters_iff v states = (
  λ m.
      let (i, h) = (In-filter_by_iff has_opinion v (observations states)).0 m in
      let (d, s, j, e) = (observations_iff v states).0 i in
      (d, s, j, sym (has_opinion-observation d s) ∙ ap has_opinion (sym e) ∙ h, e),
  λ h. (In-filter_by_iff has_opinion v (observations states)).1 (
    (observations_iff v states).1 (h.0, h.1, h.2, h.4),
    ap has_opinion (h.4) ∙ has_opinion-observation (h.0) (h.1) ∙ h.3,
  ),
)

-- Every device of the map has a serial number.
abbrev pub AllNamed : Dict SecretState → Type 0
AllNamed states = (d : Str) (s : SecretState) → Holds states d s → ¬ (d ≡ [])

pub voters-Named :
    (states : Dict SecretState) → AllNamed states → Named (voters_of (observations states))
voters-Named states named v m =
    let (d, s, i, h, e) = (voters_iff v states).0 m in
    λ q. named d s i (sym (device_id-observation d s) ∙ sym (ap id_of e) ∙ q)
  where
    id_of : DeviceObservation → Str
    id_of o = o.device_id

-- The secret of a device is not what the source holds, or it is not there, or it has no version.
pub data NeedsSync (checksum : Str) (s : SecretState) : Type 0 where
  missing : s.present ≡ false → NeedsSync checksum s
  bare : s.present ≡ true → s.has_metadata ≡ false → NeedsSync checksum s
  differs : s.present ≡ true → ¬ (s.checksum ≡ checksum) → NeedsSync checksum s

-- A device that answered and needs a write.
abbrev pub Stale : Dict SecretState → Str → Str → Type 0
Stale states checksum d =
    (s : SecretState) × Holds states d s × (s.error ≡ none) × NeedsSync checksum s

module _ (states : Dict SecretState) where
  abbrev pub up : Dict SecretState
  up = responding states

  abbrev pub decision : Decision
  decision = resolve (observations up) (length up)

  -- A device that disagrees with the winner, by its state.
  outlier_iff :
      (d : Str)
      → In d decision.outliers ↔ (
          (s : SecretState) × Holds up d s
          × (s.present ≡ true)
          × ¬ (s.checksum ≡ decision.winning_checksum))
  outlier_iff d =
      let exact = (resolve-outliers (observations up) (length up)).exact d in
      (
        λ m.
            let (v, i, e, f) = exact.0 m in
            let (d', s, j, h, q) = (voters_iff v up).0 i in
            let same : d' ≡ d = sym (device_id-observation d' s) ∙ sym (ap id_of q) ∙ e in
            (
              s,
              subst (λ x. Holds up x s) same j,
              h,
              λ c. f (ap effective_checksum q ∙ effective_checksum-observation d' s h ∙ c),
            ),
        λ x. exact.1 (
          observation d (x.0),
          (voters_iff (observation d (x.0)) up).1 (d, x.0, x.1, x.2, refl),
          device_id-observation d (x.0),
          λ c. x.3 (sym (effective_checksum-observation d (x.0) (x.2)) ∙ c),
        ),
      )
    where
      id_of : DeviceObservation → Str
      id_of o = o.device_id

  -- The three groups of devices together are the stale ones.
  pub groups_iff :
      (d : Str)
      → (In d (devices_where lacks_secret up)
          ⊎ In d (devices_where lacks_metadata up)
          ⊎ In d decision.outliers)
        ↔ Stale states decision.winning_checksum d
  groups_iff d = (
    λ m. elim m [
      | inl a ↦
          let (s, i, h) = (devices_where_iff lacks_secret d up).0 a in
          let (j, e) = (responding_iff d s states).0 i in (s, j, e, missing (ground arith))
      | inr (inl b) ↦
          let (s, i, h) = (devices_where_iff lacks_metadata d up).0 b in
          let (j, e) = (responding_iff d s states).0 i in
          (s, j, e, bare (ground arith) (ground arith))
      | inr (inr c) ↦
          let (s, i, h, f) = (outlier_iff d).0 c in
          let (j, e) = (responding_iff d s states).0 i in (s, j, e, differs h f)
    ],
    λ x.
        let i = (responding_iff d (x.0) states).1 (x.1, x.2) in
        elim x.3 [
          | missing p ↦ inl ((devices_where_iff lacks_secret d up).1 (x.0, i, rw p))
          | bare p q ↦ inr (inl ((devices_where_iff lacks_metadata d up).1 (x.0, i, ground arith)))
          | differs p q ↦ inr (inr ((outlier_iff d).1 (x.0, i, p, q)))
        ],
  )
