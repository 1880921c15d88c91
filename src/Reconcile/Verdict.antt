-- ===== src/Reconcile/Verdict.antt =====
-- What `resolve` decides: the winner, the device that serves it and the outliers.
use hsm_secrets_operator.Common.{
  ℕ, ◌/◌, ◌≤◌, ◌<◌, ◌≡◌, refl, sym, ap, ◌∙◌, ◌↔◌, List, [], ◌∷◌, true, false, not, Option, none,
  some, inl, inr, Bool-cases, Option-cases, leb, length, In, Str, str_eq, str_eq_iff, str_ltb,
  IsSorted, sort_strings, sort_strings-IsSorted, sort_strings-In, In-sort_strings, arith,
}
use hsm_secrets_operator.Reconcile.{
  DeviceObservation, Strategy, lww, majority, majority_lww, no_copy, Decision, effective_checksum,
  newer, last_write_wins, outliers_of, count_votes, strict_majority, majority_or, choose, voters_of,
  resolve_voters, resolve, is_empty,
}
use hsm_secrets_operator.Reconcile.Votes.{
  votes, strict_majority-some, strict_majority-none, votes-add-le-length, voter_of_votes,
}
use hsm_secrets_operator.Reconcile.Newest.{last_write_wins-In, last_write_wins_newest}
use hsm_secrets_operator.Reconcile.Lowest.{Named, lowest_holds}

-- A voter that no other voter is newer than, and that votes for `cs`.
abbrev NewestVote : List DeviceObservation → Str → Type 0
NewestVote vs cs =
    (v : DeviceObservation) × In v vs
    × (effective_checksum v ≡ cs)
    × ((u : DeviceObservation) → In u vs → newer u v ≡ false)

newest_vote :
    (v : DeviceObservation) (vs : List DeviceObservation)
    → NewestVote (v ∷ vs) (effective_checksum (last_write_wins v vs))
newest_vote v vs =
    (last_write_wins v vs, last_write_wins-In v vs, refl, last_write_wins_newest v vs)

-- What the choice of a winner promises, by the way in which it was reached.
abbrev pub Chosen : List DeviceObservation → ℕ → Str → Strategy → Type 0
Chosen vs n cs majority = (3 ≤ n) × (n / 2 < votes cs vs)
Chosen vs n cs lww = (n < 3) × NewestVote vs cs
Chosen vs n cs majority_lww = (3 ≤ n) × ((k : Str) → votes k vs ≤ n / 2) × NewestVote vs cs
Chosen vs n cs no_copy = ⊥

majority_or-Chosen :
    (v : DeviceObservation) (vs : List DeviceObservation) (n : ℕ)
    → 3 ≤ n
    → (o : Option Str) → strict_majority (count_votes [] (v ∷ vs)) n ≡ o
    → let c = majority_or (effective_checksum (last_write_wins v vs)) o in Chosen (v ∷ vs) n c.0 c.1
majority_or-Chosen v vs n h (some k) e = (h, (strict_majority-some (v ∷ vs) n k e).0)
majority_or-Chosen v vs n h none e = (h, strict_majority-none (v ∷ vs) n e, newest_vote v vs)

pub choose-Chosen :
    (v : DeviceObservation) (vs : List DeviceObservation) (n : ℕ)
    → Chosen (v ∷ vs) n (choose v vs n).0 (choose v vs n).1
unfolding choose
choose-Chosen v vs n = elim (Bool-cases (leb 3 n)) [
  | inl y ↦ rw y (majority_or-Chosen v vs n (ground arith) _ refl)
  | inr x ↦ rw x (ground arith, newest_vote v vs)
]

resolve_voters-Chosen :
    (vs : List DeviceObservation) (n : ℕ)
    → (resolve_voters vs n).found ≡ true
    → Chosen vs n (resolve_voters vs n).winning_checksum (resolve_voters vs n).strategy
unfolding resolve_voters
resolve_voters-Chosen [] n f = cc
resolve_voters-Chosen (v ∷ vs) n f = choose-Chosen v vs n

-- Where a copy is found, the strategy says why it won: `majority` that more than half of the
-- expected devices, three or more, vote for it; `lww` that fewer than three devices are expected
-- and a newest voter votes for it; `majority_lww` that no checksum has such a majority and a newest
-- voter votes for it; and the strategy is never `no_copy`.
pub resolve-Chosen :
    (obs : List DeviceObservation) (n : ℕ)
    → (resolve obs n).found ≡ true
    → Chosen (voters_of obs) n (resolve obs n).winning_checksum (resolve obs n).strategy
unfolding resolve
resolve-Chosen obs n f = resolve_voters-Chosen (voters_of obs) n f

majority_unique :
    (v : DeviceObservation) (vs : List DeviceObservation) (n : ℕ) (k : Str)
    → length (v ∷ vs) ≤ n
    → n / 2 < votes k (v ∷ vs)
    → strict_majority (count_votes [] (v ∷ vs)) n ≡ some k
majority_unique v vs n k fits h =
    elim (Option-cases (strict_majority (count_votes [] (v ∷ vs)) n)) [
      | inl e ↦ absurd (omega (arith, strict_majority-none (v ∷ vs) n e k))
      | inr (j, e) ↦ elim (Bool-cases (str_eq j k)) [
        | inl y ↦ e ∙ ap some ((str_eq_iff j k).0 y)
        | inr x ↦ absurd (
            omega (
              arith,
              (strict_majority-some (v ∷ vs) n j e).0,
              votes-add-le-length j k (v ∷ vs) (λ q. cc (x, (str_eq_iff j k).1 q)),
            ))
      ]
    ]

resolve_voters-majority :
    (vs : List DeviceObservation) (n : ℕ) (k : Str)
    → 3 ≤ n
    → length vs ≤ n
    → n / 2 < votes k vs
    → ((resolve_voters vs n).winning_checksum ≡ k) × ((resolve_voters vs n).strategy ≡ majority)
unfolding resolve_voters votes
resolve_voters-majority [] n k three fits h = absurd (omega arith)
resolve_voters-majority (v ∷ vs) n k three fits h =
    let e : choose v vs n ≡ (k, majority) =
      unfold choose in ground (arith, majority_unique v vs n k fits h) in
    rw e (refl, refl)

-- Of three or more expected devices, a checksum for which more than half of them vote wins as the
-- majority, whatever the versions are, if there are no more voters than expected devices.
pub resolve-majority :
    (obs : List DeviceObservation) (n : ℕ) (k : Str)
    → 3 ≤ n
    → length (voters_of obs) ≤ n
    → n / 2 < votes k (voters_of obs)
    → ((resolve obs n).winning_checksum ≡ k) × ((resolve obs n).strategy ≡ majority)
unfolding resolve
resolve-majority obs n k three fits h = resolve_voters-majority (voters_of obs) n k three fits h

pub winner_has_voter :
    (vs : List DeviceObservation) (n : ℕ) (cs : Str) (how : Strategy)
    → Chosen vs n cs how
    → (v : DeviceObservation) × In v vs × (effective_checksum v ≡ cs)
winner_has_voter vs n cs majority h = voter_of_votes cs vs (omega arith)
winner_has_voter vs n cs lww (_, (v, m, e, _)) = (v, m, e)
winner_has_voter vs n cs majority_lww (_, _, (v, m, e, _)) = (v, m, e)
winner_has_voter vs n cs no_copy h = absurd h

-- The lowest device that holds a checksum.
abbrev LowestHolder : List DeviceObservation → Str → Str → Type 0
LowestHolder vs cs device =
    ((v : DeviceObservation) × In v vs × (effective_checksum v ≡ cs) × (v.device_id ≡ device))
    × ((v : DeviceObservation)
        → In v vs
        → effective_checksum v ≡ cs
        → str_ltb v.device_id device ≡ false)

resolve_voters-device :
    (vs : List DeviceObservation) (n : ℕ)
    → Named vs
    → (resolve_voters vs n).found ≡ true
    → LowestHolder vs (resolve_voters vs n).winning_checksum (resolve_voters vs n).winning_device_id
unfolding resolve_voters
resolve_voters-device [] n named f = cc
resolve_voters-device (v ∷ vs) n named f =
    let (u, m, e) = winner_has_voter (v ∷ vs) n _ _ (choose-Chosen v vs n) in
    lowest_holds (choose v vs n).0 (v ∷ vs) u named m e

-- Where a copy is found, the winning device is a voter that holds the winning checksum, and the
-- first such voter in the order of serial numbers, if no voter has an empty serial number.
pub resolve-device :
    (obs : List DeviceObservation) (n : ℕ)
    → Named (voters_of obs)
    → (resolve obs n).found ≡ true
    → LowestHolder
        (voters_of obs)
        (resolve obs n).winning_checksum
        (resolve obs n).winning_device_id
unfolding resolve
resolve-device obs n named f = resolve_voters-device (voters_of obs) n named f

-- A voter for another checksum.
abbrev Disagrees : List DeviceObservation → Str → Str → Type 0
Disagrees vs cs device =
    (v : DeviceObservation) × In v vs × (v.device_id ≡ device) × ¬ (effective_checksum v ≡ cs)

Disagrees-outlier :
    (cs d : Str) (vs : List DeviceObservation) → In d (outliers_of cs vs) → Disagrees vs cs d
unfolding outliers_of
Disagrees-outlier cs d [] m = absurd m
Disagrees-outlier cs d (v ∷ vs) m = elim (Bool-cases (str_eq (effective_checksum v) cs)) [
  | inl y ↦ let (u, n, e, f) = Disagrees-outlier cs d vs (rw y at m) in (u, inr n, e, f)
  | inr x ↦ elim (rw x at m) [
    | inl e ↦ (v, inl refl, sym e, λ q. cc (x, (str_eq_iff (effective_checksum v) cs).1 q))
    | inr r ↦ let (u, n, e, f) = Disagrees-outlier cs d vs r in (u, inr n, e, f)
  ]
]

outlier-Disagrees :
    (cs d : Str) (vs : List DeviceObservation) → Disagrees vs cs d → In d (outliers_of cs vs)
unfolding outliers_of
outlier-Disagrees cs d [] (u, m, e, f) = absurd m
outlier-Disagrees cs d (v ∷ vs) (u, inl m, e, f) =
    let x : str_eq (effective_checksum v) cs ≡ false =
      ground (arith, str_eq_iff (effective_checksum v) cs, ap effective_checksum m) in
    rw x (inl (sym e ∙ ap (λ (o : DeviceObservation). o.device_id) m))
outlier-Disagrees cs d (v ∷ vs) (u, inr m, e, f) =
    let r = outlier-Disagrees cs d vs (u, m, e, f) in
    elim (Bool-cases (str_eq (effective_checksum v) cs)) [ inl y ↦ rw y r | inr x ↦ rw x (inr r) ]

is_empty-diverged : (l : List Str) → (not (is_empty l) ≡ true) ↔ ((d : Str) × In d l)
is_empty-diverged [] = (λ h. cc, λ h. absurd h.1)
is_empty-diverged (x ∷ xs) = (λ h. (x, inl refl), λ h. refl)

-- What the outliers of a decision are.
pub record OutliersExact (vs : List DeviceObservation) (d : Decision) : Type 0 where
  pub exact : (device : Str) → In device d.outliers ↔ Disagrees vs d.winning_checksum device
  pub sorted : IsSorted d.outliers
  pub diverged : (d.diverged ≡ true) ↔ ((device : Str) × Disagrees vs d.winning_checksum device)

resolve_voters-outliers :
    (vs : List DeviceObservation) (n : ℕ) → OutliersExact vs (resolve_voters vs n)
unfolding resolve_voters
resolve_voters-outliers [] n = record {
  exact = λ device. (λ h. absurd h, λ h. absurd h.1);
  sorted = tt;
  diverged = (λ h. cc, λ h. absurd h.1.1);
}
resolve_voters-outliers (v ∷ vs) n =
    let cs = (choose v vs n).0 in
    let all = outliers_of cs (v ∷ vs) in
    let exact : (device : Str) → In device (sort_strings all) ↔ Disagrees (v ∷ vs) cs device =
      λ device. (
        λ m. Disagrees-outlier cs device (v ∷ vs) (In-sort_strings device all m),
        λ h. sort_strings-In device all (outlier-Disagrees cs device (v ∷ vs) h),
      ) in
    let some_outlier = is_empty-diverged (sort_strings all) in
    record {
      exact = exact;
      sorted = sort_strings-IsSorted all;
      diverged = (
        λ h. let (d, m) = some_outlier.0 h in (d, (exact d).0 m),
        λ h. some_outlier.1 (h.0, (exact h.0).1 h.1),
      );
    }

-- The outliers are exactly the devices that vote for another checksum than the winner, in
-- ascending order, and `diverged` says whether there is one.
pub resolve-outliers :
    (obs : List DeviceObservation) (n : ℕ) → OutliersExact (voters_of obs) (resolve obs n)
unfolding resolve
resolve-outliers obs n = resolve_voters-outliers (voters_of obs) n

nil_of_is_empty : (l : List Str) → not (is_empty l) ≡ false → l ≡ []
nil_of_is_empty [] h = refl
nil_of_is_empty (x ∷ xs) h = cc

resolve_voters-agree :
    (vs : List DeviceObservation) (n : ℕ)
    → (resolve_voters vs n).diverged ≡ false
    → (resolve_voters vs n).outliers ≡ []
unfolding resolve_voters
resolve_voters-agree [] n h = refl
resolve_voters-agree (v ∷ vs) n h = nil_of_is_empty _ h

-- Without divergence there is no outlier.
pub resolve-agree :
    (obs : List DeviceObservation) (n : ℕ)
    → (resolve obs n).diverged ≡ false
    → (resolve obs n).outliers ≡ []
unfolding resolve
resolve-agree obs n h = resolve_voters-agree (voters_of obs) n h

resolve_voters-found :
    (vs : List DeviceObservation) (n : ℕ)
    → ((resolve_voters vs n).found ≡ true) ↔ ((v : DeviceObservation) × In v vs)
unfolding resolve_voters
resolve_voters-found [] n = (λ h. cc, λ h. absurd h.1)
resolve_voters-found (v ∷ vs) n = (λ h. (v, inl refl), λ h. refl)

-- A copy is found exactly when some device holds one or a tombstone.
pub resolve-found :
    (obs : List DeviceObservation) (n : ℕ)
    → ((resolve obs n).found ≡ true) ↔ ((v : DeviceObservation) × In v (voters_of obs))
unfolding resolve
resolve-found obs n = resolve_voters-found (voters_of obs) n
