-- ===== src/Examples/Resolution.antt =====
-- The resolver on three observations.
use hsm_secrets_operator.Examples.{differ}
use hsm_secrets_operator.Common.{
  sym, ap, ◌∙◌, ℕ, ◌≡◌, refl, inl, inr, List, [], ◌∷◌, true, false, Permᴰ, Distinct, In, Str, str,
  str_eq, pos, arith,
}
use hsm_secrets_operator.Reconcile.{
  DeviceObservation, majority, effective_checksum, has_opinion, resolve, resolve_voters, verdict,
  voters_of,
}
use hsm_secrets_operator.Reconcile.Votes.{votes}
use hsm_secrets_operator.Reconcile.Verdict.{Chosen, resolve-Chosen, resolve-majority}
use hsm_secrets_operator.Reconcile.Order.{resolve-perm}

abbrev observed : Str → Str → ℕ → DeviceObservation
observed d c v = record {
  device_id = d;
  present = true;
  tombstone = false;
  checksum = c;
  version = pos v;
  timestamp = pos 0;
}

abbrev three : List DeviceObservation
three =
    observed (str "a") (str "x") 1
    ∷ observed (str "b") (str "y") 5
    ∷ observed (str "c") (str "x") 1
    ∷ []

abbrev turned : List DeviceObservation
turned =
    observed (str "b") (str "y") 5
    ∷ observed (str "a") (str "x") 1
    ∷ observed (str "c") (str "x") 1
    ∷ []

three-found : (resolve three 3).found ≡ true
unfolding resolve resolve_voters verdict has_opinion
three-found = refl

abbrev id_of : DeviceObservation → Str
id_of o = o.device_id

not_blank : (o : DeviceObservation) → In o three → ¬ (o.device_id ≡ [])
unfolding str_eq
not_blank o (inl e) h = differ (str "a") [] refl (sym (ap id_of e) ∙ h)
not_blank o (inr (inl e)) h = differ (str "b") [] refl (sym (ap id_of e) ∙ h)
not_blank o (inr (inr (inl e))) h = differ (str "c") [] refl (sym (ap id_of e) ∙ h)
not_blank o (inr (inr (inr m))) h = absurd m

three-Distinct : Distinct (λ (o : DeviceObservation). o.device_id) three
unfolding str_eq
three-Distinct = (
  λ y m h. elim m [
    | inl e ↦ differ (str "b") (str "a") refl (sym (ap id_of e) ∙ h)
    | inr (inl e) ↦ differ (str "c") (str "a") refl (sym (ap id_of e) ∙ h)
    | inr (inr n) ↦ absurd n
  ],
  (
    λ y m h. elim m [
      | inl e ↦ differ (str "c") (str "b") refl (sym (ap id_of e) ∙ h)
      | inr n ↦ absurd n
    ],
    (λ y m h. absurd m, tt),
  ),
)

resolve-Chosen_example :
    Chosen (voters_of three) 3 (resolve three 3).winning_checksum (resolve three 3).strategy
resolve-Chosen_example = resolve-Chosen three 3 three-found

resolve-majority_example :
    ((resolve three 3).winning_checksum ≡ str "x") × ((resolve three 3).strategy ≡ majority)
unfolding votes effective_checksum str_eq has_opinion
resolve-majority_example =
    resolve-majority three 3 (str "x") (omega arith) (omega arith) (omega arith)

resolve-perm_example : resolve three 3 ≡ resolve turned 3
resolve-perm_example =
    resolve-perm three turned 3 three-Distinct not_blank ∣ Permᴰ.swap refl refl ∣₁
