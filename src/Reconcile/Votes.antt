-- ===== src/Reconcile/Votes.antt =====
-- What the vote counts of resolve.go mean: `strict_majority` against the number of voters for a
-- checksum.
use hsm_secrets_operator.Common.{
  ℕ, suc, ◌+◌, ◌/◌, ◌≤◌, ◌<◌, ◌≡◌, refl, sym, ◌∙◌, List, [], ◌∷◌, true, none, some, inl, inr, Permᴰ,
  Bool-cases, ltb, if◌then◌else◌, length, In, Str, str_eq, str_eq_iff, str_ltb, str_ltb_irrefl,
  IsSorted, sort_strings, sort_strings-IsSorted, sort_strings-In, arith,
}
use hsm_secrets_operator.Reconcile.{
  DeviceObservation, effective_checksum, count_vote, count_votes, votes_for, keys, first_above,
  strict_majority,
}

-- How many of the voters vote for a checksum.
unfoldable pub votes : Str → List DeviceObservation → ℕ
votes k [] = 0
votes k (v ∷ vs) =
    let rest = votes k vs in if str_eq (effective_checksum v) k then suc rest else rest

votes_for-count_vote :
    (k cs : Str) (m : List (Str × ℕ))
    → votes_for k (count_vote cs m) ≡ (if str_eq cs k then votes_for k m + 1 else votes_for k m)
unfolding votes_for count_vote
votes_for-count_vote k cs [] = ground arith
votes_for-count_vote k cs ((j, n) ∷ m) =
    ground (arith, votes_for-count_vote k cs m, str_eq_iff j cs, str_eq_iff j k, str_eq_iff cs k)

votes_for-count_votes :
    (k : Str) (m : List (Str × ℕ)) (vs : List DeviceObservation)
    → votes_for k (count_votes m vs) ≡ votes_for k m + votes k vs
unfolding count_votes votes
votes_for-count_votes k m [] = omega arith
votes_for-count_votes k m (v ∷ vs) = ground (
  arith,
  votes_for-count_votes k (count_vote (effective_checksum v) m) vs,
  votes_for-count_vote k (effective_checksum v) m,
)

-- counts[k] is the number of voters for `k`.
votes_for-eq-votes :
    (k : Str) (vs : List DeviceObservation) → votes_for k (count_votes [] vs) ≡ votes k vs
unfolding votes_for
votes_for-eq-votes k vs = omega (arith, votes_for-count_votes k [] vs)

In-keys : (k : Str) (m : List (Str × ℕ)) → 0 < votes_for k m → In k (keys m)
unfolding votes_for
In-keys k [] h = absurd (omega arith)
In-keys k ((j, n) ∷ m) h = elim (Bool-cases (str_eq j k)) [
  | inl y ↦ inl (sym ((str_eq_iff j k).0 y))
  | inr x ↦ inr (In-keys k m (rw (x, ◌<◌) at h))
]

first_above-some :
    (t : ℕ) (c : List (Str × ℕ)) (ks : List Str) (k : Str)
    → IsSorted ks
    → first_above t c ks ≡ some k
    → (t < votes_for k c) × ((j : Str) → In j ks → str_ltb j k ≡ true → votes_for j c ≤ t)
unfolding first_above
first_above-some t c [] k s h = cc
first_above-some t c (i ∷ is) k s h = elim (Bool-cases (ltb t (votes_for i c))) [
  | inl y ↦
      let e : i ≡ k = ground arith in
      (
        rw (← e) (ground arith),
        λ j m l. elim m [ inl q ↦ cc (q, e, str_ltb_irrefl k) | inr r ↦ cc (s.0 j r, e) ],
      )
  | inr x ↦
      let (above, least) = first_above-some t c is k s.1 (ground arith) in
      (above, λ j m l. elim m [ inl q ↦ rw q (ground arith) | inr r ↦ least j r l ])
]

first_above-none :
    (t : ℕ) (c : List (Str × ℕ)) (ks : List Str) (j : Str)
    → first_above t c ks ≡ none
    → In j ks
    → votes_for j c ≤ t
unfolding first_above
first_above-none t c [] j h m = absurd m
first_above-none t c (i ∷ is) j h (inl e) = rw e (ground arith)
first_above-none t c (i ∷ is) j h (inr m) = first_above-none t c is j (ground arith) m

-- At most a threshold, whether the key stands in the map or not.
votes_at_most :
    (t : ℕ) (c : List (Str × ℕ)) (j : Str)
    → (In j (sort_strings (keys c)) → votes_for j c ≤ t)
    → votes_for j c ≤ t
votes_at_most t c j h = elim (Bool-cases (ltb 0 (votes_for j c))) [
  | inl y ↦ h (sort_strings-In j (keys c) (In-keys j c (ground arith)))
  | inr x ↦ ground arith
]

module _ (vs : List DeviceObservation) (n : ℕ) where
  -- A majority that is found has more than half the devices, and is the least such checksum.
  pub strict_majority-some :
      (k : Str)
      → strict_majority (count_votes [] vs) n ≡ some k
      → (n / 2 < votes k vs) × ((j : Str) → str_ltb j k ≡ true → votes j vs ≤ n / 2)
  unfolding strict_majority
  strict_majority-some k h =
      let c = count_votes [] vs in
      let (above, least) =
        first_above-some (n / 2) c (sort_strings (keys c)) k (sort_strings-IsSorted (keys c)) h in
      (
        rw (← votes_for-eq-votes) above,
        λ j l. rw (← votes_for-eq-votes) (votes_at_most (n / 2) c j (λ m. least j m l)),
      )

  pub strict_majority-none :
      strict_majority (count_votes [] vs) n ≡ none → (j : Str) → votes j vs ≤ n / 2
  unfolding strict_majority
  strict_majority-none h j =
      let c = count_votes [] vs in
      rw (← votes_for-eq-votes)
        (votes_at_most (n / 2) c j (first_above-none (n / 2) c (sort_strings (keys c)) j h))

pub votes-permᴰ : {vs ws : List DeviceObservation} (k : Str) → Permᴰ vs ws → votes k vs ≡ votes k ws
unfolding votes
votes-permᴰ k Permᴰ.nil = refl
votes-permᴰ k (Permᴰ.cons e h) = rw e (ground (arith, votes-permᴰ k h))
votes-permᴰ k (Permᴰ.swap e f) = rw (e, f) (ground arith)
votes-permᴰ k (Permᴰ.trans h i) = votes-permᴰ k h ∙ votes-permᴰ k i

-- Two checksums share no voter.
pub votes-add-le-length :
    (j k : Str) (vs : List DeviceObservation) → ¬ (j ≡ k) → votes j vs + votes k vs ≤ length vs
unfolding votes
votes-add-le-length j k [] h = omega arith
votes-add-le-length j k (v ∷ vs) h = ground (
  arith,
  votes-add-le-length j k vs h,
  str_eq_iff (effective_checksum v) j,
  str_eq_iff (effective_checksum v) k,
)

-- A checksum with a vote has a voter.
pub voter_of_votes :
    (k : Str) (vs : List DeviceObservation)
    → 0 < votes k vs
    → (v : DeviceObservation) × In v vs × (effective_checksum v ≡ k)
unfolding votes
voter_of_votes k [] h = absurd (omega arith)
voter_of_votes k (v ∷ vs) h = elim (Bool-cases (str_eq (effective_checksum v) k)) [
  | inl y ↦ (v, inl refl, (str_eq_iff (effective_checksum v) k).0 y)
  | inr x ↦ let (w, m, e) = voter_of_votes k vs (rw (x, ◌<◌) at h) in (w, inr m, e)
]
