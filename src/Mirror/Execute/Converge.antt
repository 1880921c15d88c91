-- ===== src/Mirror/Execute/Converge.antt =====
-- The loop over the targets of a plan that creates or updates: what it stores, keeps and leaves alone.
use hsm_secrets_operator.Common.{
  ◌≡◌, refl, sym, ap, subst, ◌∙◌, ◌⊎◌, inl, inr, List, [], ◌∷◌, Option, none, some, Bool-cases,
  Option-cases, In, Str, str_eq, str_eq_iff, Dict, get,
}
use hsm_secrets_operator.Hsm.{SecretData, SecretMetadata}
use hsm_secrets_operator.Hsm.Hardware.Labels.{IsApart}
use hsm_secrets_operator.Mirror.{DiscoveredDevice, Error, MirrorType, Agents}
use hsm_secrets_operator.Mirror.Execute.{
  Tally, count_outcome, write_secret, sync_target, sync_targets,
}
use hsm_secrets_operator.Mirror.Execute.Device.{Filled, Faithful}
use hsm_secrets_operator.Mirror.Execute.Writes.{
  write_secret-stores, write_secret-frame, Keyed, Copies, one, first_succeeds, found_of_success,
}

module _ {W : Type 0} (agents : Agents W) (f : Faithful agents) (kind : MirrorType) (path : Str)
    (data' : Option SecretData) (md : SecretMetadata) (lookup : Dict DiscoveredDevice)
    (copies : Copies kind) (keyed : Keyed lookup) (filled : Filled data') where
  abbrev target : Str → W → Option Error × W
  target = one agents kind path data' md lookup

  -- For the two types that copy, a target that is found is written with WriteSecret.
  target_writes :
      (n : Str) (w : W) (d : DiscoveredDevice)
      → get n lookup ≡ some d
      → target n w ≡ write_secret agents d path data' md w
  unfolding sync_target
  target_writes n w d e = elim copies [ inl c ↦ rw (e, c) refl | inr u ↦ rw (e, u) refl ]

  target-stores :
      (n : Str) (w : W)
      → (target n w).0 ≡ none
      → f.copy (target n w).1 n path ≡ some (data', some md)
  target-stores n w h =
      let (d, e) = found_of_success agents kind path data' md lookup n w h in
      let same = target_writes n w d e in
      subst (λ (r : Option Error × W). f.copy r.1 n path ≡ some (data', some md)) (sym same)
        (subst
          (λ m. f.copy (write_secret agents d path data' md w).1 m path ≡ some (data', some md))
          (keyed n d e)
          (write_secret-stores agents f d path data' md w filled
            (sym (ap (λ (r : Option Error × W). r.0) same) ∙ h)))

  target-frame :
      (n : Str) (w : W) (s q : Str)
      → ¬ (s ≡ n) ⊎ IsApart path q
      → f.copy (target n w).1 s q ≡ f.copy w s q
  target-frame n w s q other = elim (Option-cases (get n lookup)) [
    | inl e ↦ rw e refl
    | inr (d, e) ↦
        ap (λ (r : Option Error × W). f.copy r.1 s q) (target_writes n w d e)
        ∙ write_secret-frame agents f d path data' md w s q
            (elim other [ inl a ↦ inl (λ p. a (p ∙ keyed n d e)) | inr b ↦ inr b ])
  ]

  abbrev Written : W → Str → Type 0
  Written w s = f.copy w s path ≡ some (data', some md)

  target-keeps :
      (n : Str) (w : W) (s : Str) → (target n w).0 ≡ none → Written w s → Written (target n w).1 s
  target-keeps n w s h k = elim (Bool-cases (str_eq s n)) [
    | inl y ↦ subst (Written (target n w).1) (sym ((str_eq_iff s n).0 y)) (target-stores n w h)
    | inr x ↦ target-frame n w s path (inl (λ e. cc (x, (str_eq_iff s n).1 e))) ∙ k
  ]

  abbrev run : List Str → Tally → W → Tally × W
  run = sync_targets agents kind path data' md lookup

  run-keeps :
      (ns : List Str) (t : Tally) (w : W) (s : Str)
      → (run ns t w).0.failed ≡ 0
      → Written w s
      → Written (run ns t w).1 s
  unfolding sync_targets
  run-keeps [] t w s h k = k
  run-keeps (n ∷ ns) t w s h k =
      run-keeps ns (count_outcome t (target n w).0) (target n w).1 s h
        (target-keeps n w s (first_succeeds agents kind path data' md lookup n ns t w h) k)

  pub run-stores :
      (ns : List Str) (t : Tally) (w : W) (s : Str)
      → (run ns t w).0.failed ≡ 0
      → In s ns
      → Written (run ns t w).1 s
  unfolding sync_targets
  run-stores [] t w s h m = absurd m
  run-stores (n ∷ ns) t w s h (inl e) =
      run-keeps ns (count_outcome t (target n w).0) (target n w).1 s h (
        subst (Written (target n w).1) (sym e)
          (target-stores n w (first_succeeds agents kind path data' md lookup n ns t w h)))
  run-stores (n ∷ ns) t w s h (inr m) =
      run-stores ns (count_outcome t (target n w).0) (target n w).1 s h m

  pub run-frame :
      (ns : List Str) (t : Tally) (w : W) (s q : Str)
      → ¬ (In s ns) ⊎ IsApart path q
      → f.copy (run ns t w).1 s q ≡ f.copy w s q
  unfolding sync_targets
  run-frame [] t w s q other = refl
  run-frame (n ∷ ns) t w s q other =
      run-frame ns (count_outcome t (target n w).0) (target n w).1 s q
        (elim other [ inl a ↦ inl (λ m. a (inr m)) | inr b ↦ inr b ])
      ∙ target-frame n w s q (elim other [ inl a ↦ inl (λ e. a (inl e)) | inr b ↦ inr b ])
