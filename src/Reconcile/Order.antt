-- ===== src/Reconcile/Order.antt =====
-- The verdict does not depend on the order in which the devices are observed.
use hsm_secrets_operator.Common.{
  ℕ, ◌/◌, ◌≤◌, ◌<◌, ◌≡◌, refl, sym, ap, ◌∙◌, List, [], ◌∷◌, map, true, false, not, some, inl, inr,
  Perm, Permᴰ, ∥∥₁_elim, Bool-cases, Option-cases, filter_by, filter_by-perm, In, Distinct, Str,
  str_eq, str_ltb, str_ltb_connex, In-permᴰ, Permᴰ-symm, map-permᴰ, In-filter_by,
  Distinct-filter_by, sort_strings, sort_strings-permᴰ, arith,
}
use hsm_secrets_operator.Reconcile.{
  DeviceObservation, Strategy, Decision, effective_checksum, last_write_wins, outliers_of,
  count_votes, strict_majority, choose, verdict, voters_of, has_opinion, resolve_voters, resolve,
}
use hsm_secrets_operator.Reconcile.Votes.{votes-permᴰ, strict_majority-some, strict_majority-none}
use hsm_secrets_operator.Reconcile.Newest.{last_write_wins-In, last_write_wins_newest, newer_connex}
use hsm_secrets_operator.Reconcile.Lowest.{Named, lowest_unique}

-- Of two members with one image under an injective labelling, both are one.
Distinct-eq :
    (xs : List DeviceObservation) (a b : DeviceObservation)
    → Distinct (λ (o : DeviceObservation). o.device_id) xs
    → In a xs
    → In b xs
    → a.device_id ≡ b.device_id
    → a ≡ b
Distinct-eq [] a b d m n e = absurd m
Distinct-eq (x ∷ xs) a b d (inl f) (inl g) e = f ∙ sym g
Distinct-eq (x ∷ xs) a b d (inl f) (inr n) e =
    absurd (d.0 b n (sym e ∙ ap (λ (o : DeviceObservation). o.device_id) f))
Distinct-eq (x ∷ xs) a b d (inr m) (inl g) e =
    absurd (d.0 a m (e ∙ ap (λ (o : DeviceObservation). o.device_id) g))
Distinct-eq (x ∷ xs) a b d (inr m) (inr n) e = Distinct-eq xs a b d.1 m n e

outliers_of-map :
    (w : Str) (vs : List DeviceObservation)
    → outliers_of w vs
      ≡ map
          (λ (v : DeviceObservation). v.device_id)
          (filter_by (λ v. not (str_eq (effective_checksum v) w)) vs)
unfolding outliers_of
outliers_of-map w [] = refl
outliers_of-map w (v ∷ vs) = ground (arith, outliers_of-map w vs)

outliers-permᴰ :
    (w : Str) {vs ws : List DeviceObservation}
    → Permᴰ vs ws
    → sort_strings (outliers_of w vs) ≡ sort_strings (outliers_of w ws)
outliers-permᴰ w {vs} {ws} h =
    rw (outliers_of-map w vs, outliers_of-map w ws)
      (sort_strings-permᴰ
        (map-permᴰ _ (filter_by-perm (λ v. not (str_eq (effective_checksum v) w)) h)))

-- Two searches for a majority with the same counts have one result.
strict_majority-permᴰ :
    {vs ws : List DeviceObservation} (n : ℕ)
    → Permᴰ vs ws
    → strict_majority (count_votes [] vs) n ≡ strict_majority (count_votes [] ws) n
strict_majority-permᴰ {vs} {ws} n h = elim (Option-cases (strict_majority (count_votes [] vs) n)) [
  | inl x ↦ elim (Option-cases (strict_majority (count_votes [] ws) n)) [
    | inl y ↦ x ∙ sym y
    | inr (b, y) ↦ absurd (
        omega (
          arith,
          (strict_majority-some ws n b y).0,
          strict_majority-none vs n x b,
          votes-permᴰ b h,
        ))
  ]
  | inr (a, x) ↦ elim (Option-cases (strict_majority (count_votes [] ws) n)) [
    | inl y ↦ absurd (
        omega (
          arith,
          (strict_majority-some vs n a x).0,
          strict_majority-none ws n y a,
          votes-permᴰ a h,
        ))
    | inr (b, y) ↦
        let (above, least) = strict_majority-some vs n a x in
        let (above', least') = strict_majority-some ws n b y in
        x
        ∙ ap some (
            str_ltb_connex a b (below a b (least' a) (rw (votes-permᴰ a h) at above))
              (below b a (least b) (rw (← votes-permᴰ b h) at above')))
        ∙ sym y
  ]
]
  where
    below : (a b : Str) {k : ℕ} → (str_ltb a b ≡ true → k ≤ n / 2) → n / 2 < k → str_ltb a b ≡ false
    below a b f l = elim (Bool-cases (str_ltb a b)) [
      | inl t ↦ absurd (omega (arith, f t))
      | inr u ↦ u
    ]

module _ (v w : DeviceObservation) (vs ws : List DeviceObservation)
    (distinct : Distinct (λ (o : DeviceObservation). o.device_id) (v ∷ vs))
    (h : Permᴰ (v ∷ vs) (w ∷ ws)) where
  last_write_wins-permᴰ : last_write_wins v vs ≡ last_write_wins w ws
  last_write_wins-permᴰ =
      let a = last_write_wins v vs in
      let b = last_write_wins w ws in
      let a_in = last_write_wins-In v vs in
      let b_in = In-permᴰ b (Permᴰ-symm h) (last_write_wins-In w ws) in
      Distinct-eq (v ∷ vs) a b distinct a_in b_in (
        newer_connex a b (last_write_wins_newest w ws a (In-permᴰ a h a_in))
          (last_write_wins_newest v vs b b_in))

  choose-permᴰ : (n : ℕ) → choose v vs n ≡ choose w ws n
  unfolding choose
  choose-permᴰ n = rw (last_write_wins-permᴰ, strict_majority-permᴰ n h) refl

resolve_voters-permᴰ :
    (vs ws : List DeviceObservation) (n : ℕ)
    → Distinct (λ (o : DeviceObservation). o.device_id) vs
    → Named vs
    → Permᴰ vs ws
    → resolve_voters vs n ≡ resolve_voters ws n
unfolding resolve_voters
resolve_voters-permᴰ [] [] n d named h = refl
resolve_voters-permᴰ [] (w ∷ ws) n d named h = absurd (In-permᴰ w (Permᴰ-symm h) (inl refl))
resolve_voters-permᴰ (v ∷ vs) [] n d named h = absurd (In-permᴰ v h (inl refl))
resolve_voters-permᴰ (v ∷ vs) (w ∷ ws) n d named h =
    rw (choose-permᴰ v w vs ws d h n) (same_verdict (choose w ws n))
  where
    named' : Named (w ∷ ws)
    named' = λ u m. named u (In-permᴰ u (Permᴰ-symm h) m)

    same_verdict : (c : Str × Strategy) → verdict (v ∷ vs) c ≡ verdict (w ∷ ws) c
    same_verdict (cs, how) = rw (
      outliers-permᴰ cs h,
      lowest_unique cs (v ∷ vs) (w ∷ ws) named named' (λ u. In-permᴰ u h)
          (λ u. In-permᴰ u (Permᴰ-symm h)),
    )

Decision-set : IsSet Decision
Decision-set = hlevel

-- For observations of distinct, named devices, the decision does not depend on the order in which
-- they are given.
pub resolve-perm :
    (obs obs' : List DeviceObservation) (n : ℕ)
    → Distinct (λ (o : DeviceObservation). o.device_id) obs
    → Named obs
    → Perm obs obs'
    → resolve obs n ≡ resolve obs' n
unfolding resolve
resolve-perm obs obs' n distinct named h = ∥∥₁_elim h (Decision-set _ _) λ p.
    resolve_voters-permᴰ (voters_of obs) (voters_of obs') n
      (Distinct-filter_by _ has_opinion obs distinct)
      (λ v m. named v (In-filter_by has_opinion v obs m)) (filter_by-perm has_opinion p)
