-- ===== src/Reconcile/Lowest.antt =====
-- The device that `lowest_device_with_checksum` picks.
use hsm_secrets_operator.Common.{
  ◌≡◌, refl, sym, ◌∙◌, subst, List, [], ◌∷◌, false, ◌⊎◌, inl, inr, Bool-cases, In, Str, str_eq,
  str_eq_iff, str_ltb, str_ltb_asymm, str_ltb_irrefl, str_ltb_connex, str_le_trans, arith,
}
use hsm_secrets_operator.Reconcile.{
  DeviceObservation, effective_checksum, lower, lowest_from, lowest_device_with_checksum,
}

-- Every device has a serial number.
abbrev pub Named : List DeviceObservation → Type 0
Named vs = (v : DeviceObservation) → In v vs → ¬ (v.device_id ≡ [])

-- What is picked from `vs` when `winner` has been picked so far.
record Picked (cs winner : Str) (vs : List DeviceObservation) (w : Str) : Type 0 where
  holder :
      (w ≡ winner)
      ⊎ ((v : DeviceObservation) × In v vs × (effective_checksum v ≡ cs) × (v.device_id ≡ w))
  below_winner : ¬ (winner ≡ []) → (str_ltb winner w ≡ false) × ¬ (w ≡ [])
  below_all :
      (v : DeviceObservation)
      → In v vs
      → effective_checksum v ≡ cs
      → (str_ltb v.device_id w ≡ false) × ¬ (w ≡ [])

lower-skips :
    (cs winner : Str) (v : DeviceObservation)
    → ¬ (effective_checksum v ≡ cs)
    → lower cs winner v ≡ winner
unfolding lower
lower-skips cs winner v h = ground (arith, str_eq_iff (effective_checksum v) cs)

lower-takes :
    (cs winner : Str) (v : DeviceObservation)
    → ¬ (v.device_id ≡ [])
    → effective_checksum v ≡ cs
    → ((lower cs winner v ≡ winner) ⊎ (lower cs winner v ≡ v.device_id))
      × ¬ (lower cs winner v ≡ [])
      × (str_ltb v.device_id (lower cs winner v) ≡ false)
      × (¬ (winner ≡ []) → str_ltb winner (lower cs winner v) ≡ false)
unfolding lower
lower-takes cs winner v named e = ground (
  arith,
  str_eq_iff (effective_checksum v) cs,
  str_eq_iff winner [],
  str_ltb_irrefl v.device_id,
  str_ltb_irrefl winner,
  str_ltb_asymm v.device_id winner,
)

lowest_from-Picked :
    (cs winner : Str) (vs : List DeviceObservation)
    → Named vs
    → Picked cs winner vs (lowest_from cs winner vs)
unfolding lowest_from
lowest_from-Picked cs winner [] named = record {
  holder = inl refl;
  below_winner = λ ne. (str_ltb_irrefl winner, ne);
  below_all = λ v m e. absurd m;
}
lowest_from-Picked cs winner (v ∷ vs) named =
    let next = lowest_from-Picked cs (lower cs winner v) vs (λ u m. named u (inr m)) in
    elim (Bool-cases (str_eq (effective_checksum v) cs)) [
      | inr x ↦ skip next (λ e. cc (x, (str_eq_iff (effective_checksum v) cs).1 e))
      | inl y ↦ take next ((str_eq_iff (effective_checksum v) cs).0 y)
    ]
  where
    w : Str
    w = lowest_from cs (lower cs winner v) vs

    skip :
        Picked cs (lower cs winner v) vs w
        → ¬ (effective_checksum v ≡ cs)
        → Picked cs winner (v ∷ vs) w
    skip p ne =
        let q : Picked cs winner vs w =
          subst (λ u. Picked cs u vs w) (lower-skips cs winner v ne) p in
        record {
          holder = elim q.holder [ inl e ↦ inl e | inr (u, m, e, f) ↦ inr (u, inr m, e, f) ];
          below_winner = q.below_winner;
          below_all =
              λ u m e. elim m [ inl f ↦ absurd (ne (rw f at e)) | inr r ↦ q.below_all u r e ];
        }

    take :
        Picked cs (lower cs winner v) vs w → effective_checksum v ≡ cs → Picked cs winner (v ∷ vs) w
    take p e =
        let (which, ne, low, low_winner) = lower-takes cs winner v (named v (inl refl)) e in
        let (below, ne_w) = p.below_winner ne in
        record {
          holder = elim p.holder [
            | inl f ↦ elim which [ inl g ↦ inl (f ∙ g) | inr g ↦ inr (v, inl refl, e, sym (f ∙ g)) ]
            | inr (u, m, f, g) ↦ inr (u, inr m, f, g)
          ];
          below_winner =
              λ nw. (str_le_trans w (lower cs winner v) winner below (low_winner nw), ne_w);
          below_all = λ u m f. elim m [
            | inl g ↦ (rw g (str_le_trans w (lower cs winner v) v.device_id below low), ne_w)
            | inr r ↦ p.below_all u r f
          ];
        }

-- Two picks for one set of holders are one device.
Picked-unique :
    (cs : Str) (vs ws : List DeviceObservation) (x y : Str)
    → ((v : DeviceObservation) → In v vs → In v ws)
    → ((v : DeviceObservation) → In v ws → In v vs)
    → Picked cs [] vs x
    → Picked cs [] ws y
    → x ≡ y
Picked-unique cs vs ws x y to from p q = elim p.holder [
  | inl e ↦ elim q.holder [
    | inl f ↦ e ∙ sym f
    | inr (v, m, h, g) ↦ absurd ((p.below_all v (from v m) h).1 e)
  ]
  | inr (u, m, h, g) ↦ elim q.holder [
    | inl f ↦ absurd ((q.below_all u (to u m) h).1 f)
    | inr (v, n, i, k) ↦
        str_ltb_connex x y (rw g at (q.below_all u (to u m) h).0)
          (rw k at (p.below_all v (from v n) i).0)
  ]
]

-- The device that is picked depends on the set of voters alone.
pub lowest_unique :
    (cs : Str) (vs ws : List DeviceObservation)
    → Named vs
    → Named ws
    → ((v : DeviceObservation) → In v vs → In v ws)
    → ((v : DeviceObservation) → In v ws → In v vs)
    → lowest_device_with_checksum vs cs ≡ lowest_device_with_checksum ws cs
unfolding lowest_device_with_checksum
lowest_unique cs vs ws named named' to from =
    Picked-unique cs vs ws (lowest_from cs [] vs) (lowest_from cs [] ws) to from
      (lowest_from-Picked cs [] vs named) (lowest_from-Picked cs [] ws named')

-- Where a voter holds the checksum, the device that is picked holds it, and none before it does.
pub lowest_holds :
    (cs : Str) (vs : List DeviceObservation) (u : DeviceObservation)
    → Named vs
    → In u vs
    → effective_checksum u ≡ cs
    → ((v : DeviceObservation) × In v vs
        × (effective_checksum v ≡ cs)
        × (v.device_id ≡ lowest_device_with_checksum vs cs))
      × ((v : DeviceObservation)
          → In v vs
          → effective_checksum v ≡ cs
          → str_ltb v.device_id (lowest_device_with_checksum vs cs) ≡ false)
unfolding lowest_device_with_checksum
lowest_holds cs vs u named m e =
    let p = lowest_from-Picked cs [] vs named in
    (
      elim p.holder [ inl f ↦ absurd ((p.below_all u m e).1 f) | inr h ↦ h ],
      λ v n f. (p.below_all v n f).0,
    )
