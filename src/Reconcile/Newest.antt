-- ===== src/Reconcile/Newest.antt =====
-- Last-write-wins of resolve.go: the order of observations, and the newest of them.
use hsm_secrets_operator.Common.{
  ◌≡◌, refl, sym, subst, ◌∙◌, List, [], ◌∷◌, true, false, ◌⊎◌, ◌<ℤ◌, ℤ-compare, inl, inr,
  Bool-cases, In, str_ltb, str_ltb_asymm, str_ltb_irrefl, str_ltb_connex, str_le_trans, arith,
}
use hsm_secrets_operator.Reconcile.{DeviceObservation, newer, last_write_wins}

newer_irrefl : (a : DeviceObservation) → newer a a ≡ false
unfolding newer
newer_irrefl a = ground (arith, str_ltb_irrefl a.device_id)

newer_asymm : (a b : DeviceObservation) → newer a b ≡ true → newer b a ≡ false
unfolding newer
newer_asymm a b h = ground (arith, str_ltb_asymm a.device_id b.device_id)

-- At most as new: the version decides, then the timestamp, then the device.
abbrev AtMost : DeviceObservation → DeviceObservation → Type 0
AtMost b a =
    (b.version <ℤ a.version)
    ⊎ ((b.version ≡ a.version)
        × ((b.timestamp <ℤ a.timestamp)
            ⊎ ((b.timestamp ≡ a.timestamp) × (str_ltb b.device_id a.device_id ≡ false))))

AtMost-newer : (b a : DeviceObservation) → newer b a ≡ false → AtMost b a
unfolding newer
AtMost-newer b a h = elim (ℤ-compare b.version a.version) [
  | inl l ↦ inl l
  | inr (inl e) ↦ elim (ℤ-compare b.timestamp a.timestamp) [
    | inl l ↦ inr (e, inl l)
    | inr (inl f) ↦ inr (e, inr (f, ground arith))
    | inr (inr g) ↦ absurd (ground arith)
  ]
  | inr (inr g) ↦ absurd (ground arith)
]

newer-AtMost : (b a : DeviceObservation) → AtMost b a → newer b a ≡ false
unfolding newer
newer-AtMost b a (inl l) = ground arith
newer-AtMost b a (inr (e, inl l)) = ground arith
newer-AtMost b a (inr (e, inr (f, h))) = ground arith

AtMost-trans : (a b c : DeviceObservation) → AtMost b a → AtMost c b → AtMost c a
AtMost-trans a b c (inl l) (inl m) = inl (omega arith)
AtMost-trans a b c (inl l) (inr (e, _)) = inl (rw e l)
AtMost-trans a b c (inr (e, _)) (inl m) = inl (rw e at m)
AtMost-trans a b c (inr (e, inl l)) (inr (f, inl m)) = inr (f ∙ e, inl (omega arith))
AtMost-trans a b c (inr (e, inl l)) (inr (f, inr (g, _))) = inr (f ∙ e, inl (rw g l))
AtMost-trans a b c (inr (e, inr (d, _))) (inr (f, inl m)) = inr (f ∙ e, inl (rw d at m))
AtMost-trans a b c (inr (e, inr (d, h))) (inr (f, inr (g, k))) =
    inr (f ∙ e, inr (g ∙ d, str_le_trans a.device_id b.device_id c.device_id h k))

-- `b` is not newer than `a` and `c` is not newer than `b`.
newer_trans :
    (a b c : DeviceObservation) → newer b a ≡ false → newer c b ≡ false → newer c a ≡ false
newer_trans a b c h k =
    newer-AtMost c a (AtMost-trans a b c (AtMost-newer b a h) (AtMost-newer c b k))

-- Two observations neither of which is newer agree in version, timestamp and device.
pub newer_connex :
    (a b : DeviceObservation) → newer a b ≡ false → newer b a ≡ false → a.device_id ≡ b.device_id
unfolding newer
newer_connex a b h k = ground (arith, str_ltb_connex a.device_id b.device_id)

module _ (v w : DeviceObservation) (ws : List DeviceObservation) where
  last_write_wins-takes : newer w v ≡ true → last_write_wins v (w ∷ ws) ≡ last_write_wins w ws
  unfolding last_write_wins
  last_write_wins-takes h = rw h

  last_write_wins-keeps : newer w v ≡ false → last_write_wins v (w ∷ ws) ≡ last_write_wins v ws
  unfolding last_write_wins
  last_write_wins-keeps h = rw h

-- The result is one of the voters.
pub last_write_wins-In :
    (v : DeviceObservation) (vs : List DeviceObservation) → In (last_write_wins v vs) (v ∷ vs)
last_write_wins-In v [] = inl (unfold last_write_wins in refl)
last_write_wins-In v (w ∷ ws) = elim (Bool-cases (newer w v)) [
  | inl y ↦
      subst (λ r. In r (v ∷ w ∷ ws)) (sym (last_write_wins-takes v w ws y))
        (inr (last_write_wins-In w ws))
  | inr x ↦
      subst (λ r. In r (v ∷ w ∷ ws)) (sym (last_write_wins-keeps v w ws x))
        (elim (last_write_wins-In v ws) [ inl e ↦ inl e | inr m ↦ inr (inr m) ])
]

-- No voter is newer than the result.
pub last_write_wins_newest :
    (v : DeviceObservation) (vs : List DeviceObservation) (x : DeviceObservation)
    → In x (v ∷ vs)
    → newer x (last_write_wins v vs) ≡ false
last_write_wins_newest v [] x (inl e) = rw e (unfold last_write_wins in newer_irrefl v)
last_write_wins_newest v [] x (inr m) = absurd m
last_write_wins_newest v (w ∷ ws) x m = elim (Bool-cases (newer w v)) [
  | inl y ↦ rw (last_write_wins-takes v w ws y) (elim m [
    | inl e ↦ rw e (
        newer_trans (last_write_wins w ws) w v (last_write_wins_newest w ws w (inl refl))
          (newer_asymm w v y))
    | inr r ↦ last_write_wins_newest w ws x r
  ])
  | inr n ↦ rw (last_write_wins-keeps v w ws n) (elim m [
    | inl e ↦ last_write_wins_newest v ws x (inl e)
    | inr (inl e) ↦
        rw e (newer_trans (last_write_wins v ws) v w (last_write_wins_newest v ws v (inl refl)) n)
    | inr (inr q) ↦ last_write_wins_newest v ws x (inr q)
  ])
]
