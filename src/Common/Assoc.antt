-- ===== src/Common/Assoc.antt =====
-- Go maps from strings as association lists: reading, writing, deleting and ranging.
use mathlib.Core.Path.{◌≡◌, refl}
use mathlib.Core.Option.{Option, none, some}
use mathlib.Core.List.{List, [], ◌∷◌}
use native.Mathlib.Omega.{arith}
use hsm_secrets_operator.Common.Tests.{if◌then◌else◌}
use hsm_secrets_operator.Common.Strings.{Str, str_eq, str_eq_iff, str_eq_refl}

abbrev pub Dict {ℓ} : Type ℓ → Type ℓ
Dict V = List (Str × V)

module _ {ℓ} {V : Type ℓ} where
  -- v, ok := m[k]
  unfoldable pub get : Str → Dict V → Option V
  get k [] = none
  get k ((j, v) ∷ m) = if str_eq j k then some v else get k m

  -- m[k] = v
  unfoldable pub put : Str → V → Dict V → Dict V
  put k v [] = (k, v) ∷ []
  put k v ((j, w) ∷ m) = let rest = put k v m in if str_eq j k then (k, v) ∷ m else (j, w) ∷ rest

  -- delete(m, k)
  unfoldable pub delete : Str → Dict V → Dict V
  delete k [] = []
  delete k ((j, w) ∷ m) = let rest = delete k m in if str_eq j k then rest else (j, w) ∷ rest

  -- the keys in the order in which they are ranged over
  abbrev pub keys_of : Dict V → List Str
  keys_of [] = []
  keys_of ((k, v) ∷ m) = k ∷ keys_of m

  pub get-put :
      (k j : Str) (v : V) (m : Dict V)
      → get j (put k v m) ≡ (if str_eq k j then some v else get j m)
  unfolding get put
  get-put k j v [] = refl
  get-put k j v ((i, w) ∷ m) =
      ground (arith, str_eq_iff k j, str_eq_iff i k, str_eq_iff i j, get-put k j v m)

  pub get-delete :
      (k j : Str) (m : Dict V) → get j (delete k m) ≡ (if str_eq k j then none else get j m)
  unfolding get delete
  get-delete k j [] = ground arith
  get-delete k j ((i, w) ∷ m) =
      ground (arith, get-delete k j m, str_eq_iff k j, str_eq_iff i k, str_eq_iff i j)

  pub get-put_self : (k : Str) (v : V) (m : Dict V) → get k (put k v m) ≡ some v
  get-put_self k v m = rw (get-put k k v m, str_eq_refl k)

  pub get-put_ne : (k j : Str) (v : V) (m : Dict V) → ¬ (k ≡ j) → get j (put k v m) ≡ get j m
  get-put_ne k j v m h = ground (arith, get-put k j v m, str_eq_iff k j)

  pub get-delete_self : (k : Str) (m : Dict V) → get k (delete k m) ≡ none
  get-delete_self k m = rw (get-delete k k m, str_eq_refl k)
