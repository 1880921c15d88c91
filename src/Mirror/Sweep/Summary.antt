-- ===== src/Mirror/Sweep/Summary.antt =====
-- What the result of a sweep says of the results of its plans, and what the device lookup holds.
use hsm_secrets_operator.Common.{
  ℕ, suc, ◌+◌, ◌≡◌, refl, sym, ap, ◌∙◌, inl, inr, List, [], ◌∷◌, Bool, true, false, ◌&&◌, none,
  if◌then◌else◌, length, Bool-cases, Str, str_eq, str_eq_iff, Dict, get, put, get-put, arith,
}
use hsm_secrets_operator.Golib.{Golib}
use hsm_secrets_operator.Mirror.{
  DiscoveredDevice, MirrorType, skip, update, create, restore_metadata, SecretMirrorPlan,
  SecretMirrorResult, MirrorResult, Agents,
}
use hsm_secrets_operator.Mirror.Execute.{
  execute_mirror_plan, execute_from, execute_mirror_plans, add_result, empty_result,
}
use hsm_secrets_operator.Mirror.Execute.Writes.{Keyed}
use hsm_secrets_operator.Mirror.Sweep.{device_lookup}

device_lookup-Keyed_from :
    (ds : List DiscoveredDevice) (m : Dict DiscoveredDevice) → Keyed m → Keyed (device_lookup ds m)
unfolding device_lookup
device_lookup-Keyed_from [] m k = k
device_lookup-Keyed_from (d ∷ ds) m k =
    device_lookup-Keyed_from ds (put d.serial_number d m) λ n e h.
      elim (Bool-cases (str_eq d.serial_number n)) [
        | inl y ↦
            let same : d ≡ e = ground (arith, get-put d.serial_number n d m) in
            ap serial (sym same) ∙ (str_eq_iff d.serial_number n).0 y
        | inr x ↦ k n e (ground (arith, get-put d.serial_number n d m))
      ]
  where
    serial : DiscoveredDevice → Str
    serial d = d.serial_number

get-nil : (n : Str) → get {V = DiscoveredDevice} n [] ≡ none
unfolding get
get-nil n = refl

-- The lookup that a sweep builds finds under a name a device with that serial number.
pub device_lookup-Keyed : (ds : List DiscoveredDevice) → Keyed (device_lookup ds [])
device_lookup-Keyed ds = device_lookup-Keyed_from ds [] (λ n d h. cc (get-nil n, h))

module _ {W : Type 0} (go : Golib) (agents : Agents W) (lookup : Dict DiscoveredDevice) where
  -- The results of the plans, each run in the world that the one before it left.
  unfoldable pub results : List SecretMirrorPlan → W → List SecretMirrorResult
  results [] w = []
  results (plan ∷ plans) w =
      let (s, w') = execute_mirror_plan go agents plan lookup w in s ∷ results plans w'

-- How many results pass a test.
abbrev count_if : (SecretMirrorResult → Bool) → List SecretMirrorResult → ℕ
count_if p [] = 0
count_if p (s ∷ ss) = let rest = count_if p ss in if p s then suc rest else rest

abbrev made : MirrorType → SecretMirrorResult → Bool
made create s = s.success && (elim s.mirror_type [ create ↦ true | _ ↦ false ])
made update s = s.success && (elim s.mirror_type [ update ↦ true | _ ↦ false ])
made restore_metadata s = s.success && (elim s.mirror_type [ restore_metadata ↦ true | _ ↦ false ])
made skip s = s.success && (elim s.mirror_type [ skip ↦ true | _ ↦ false ])

abbrev all_succeed : List SecretMirrorResult → Bool
all_succeed [] = true
all_succeed (s ∷ ss) = s.success && all_succeed ss

-- The numbers of a sweep's result against those before it.
pub record Summary (before after : MirrorResult) (ss : List SecretMirrorResult) : Type 0 where
  pub processed : after.secrets_processed ≡ before.secrets_processed
  pub created : after.secrets_created ≡ before.secrets_created + count_if (made create) ss
  pub updated : after.secrets_updated ≡ before.secrets_updated + count_if (made update) ss
  pub restored :
      after.metadata_restored ≡ before.metadata_restored + count_if (made restore_metadata) ss
  pub success : after.success ≡ (before.success && all_succeed ss)

add_result-Summary :
    (r : MirrorResult) (path : Str) (s : SecretMirrorResult)
    → Summary r (add_result r path s) (s ∷ [])
unfolding add_result
add_result-Summary r path s = ground arith

Summary-trans :
    (a b c : MirrorResult) (s : SecretMirrorResult) (ss : List SecretMirrorResult)
    → Summary a b (s ∷ [])
    → Summary b c ss
    → Summary a c (s ∷ ss)
Summary-trans a b c s ss f g = ground arith

execute_from-Summary :
    {W : Type 0} (go : Golib) (agents : Agents W) (lookup : Dict DiscoveredDevice)
    (plans : List SecretMirrorPlan) (r : MirrorResult) (w : W)
    → Summary r (execute_from go agents lookup plans r w).0 (results go agents lookup plans w)
unfolding execute_from results
execute_from-Summary go agents lookup [] r w = ground arith
execute_from-Summary go agents lookup (plan ∷ plans) r w =
    let (s, w') = execute_mirror_plan go agents plan lookup w in
    let r' = add_result r plan.secret_path s in
    Summary-trans r r' (execute_from go agents lookup plans r' w').0 s
      (results go agents lookup plans w') (add_result-Summary r plan.secret_path s)
      (execute_from-Summary go agents lookup plans r' w')

-- The result of a sweep counts the plans, counts those that succeeded by their type, and is a
-- success exactly when every plan was one.
pub execute_mirror_plans-Summary :
    {W : Type 0} (go : Golib) (agents : Agents W) (lookup : Dict DiscoveredDevice)
    (plans : List SecretMirrorPlan) (w : W)
    → Summary
        (empty_result (length plans))
        (execute_mirror_plans go agents plans lookup w).0
        (results go agents lookup plans w)
unfolding execute_mirror_plans
execute_mirror_plans-Summary go agents lookup plans w =
    execute_from-Summary go agents lookup plans (empty_result (length plans)) w
