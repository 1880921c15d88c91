-- ===== src/Common/Lists.antt =====
-- Lists measured by native numbers, filters by a Boolean test, and membership by recursion.
use Prim.Native.Nat.{ℕ, suc, ◌+◌, ◌≤◌}
use mathlib.Core.Path.{◌≡◌, refl}
use mathlib.Core.Logic.{◌⊎◌, inl, inr}
use mathlib.Core.Bool.{Bool, true, false, ◌&&◌}
use mathlib.Core.List.{List, [], ◌∷◌, ◌++◌, Permᴰ}
use mathlib.Core.List.Permᴰ
use native.Mathlib.Omega.{arith}
use hsm_secrets_operator.Common.Tests.{if◌then◌else◌, Bool-cases}

module _ {ℓ} {A : Type ℓ} where
  abbrev pub length : List A → ℕ
  length [] = 0
  length (x ∷ xs) = suc (length xs)

  -- The items that pass a test, in their order.
  abbrev pub filter_by : (A → Bool) → List A → List A
  filter_by p [] = []
  filter_by p (x ∷ xs) = let rest = filter_by p xs in if p x then x ∷ rest else rest

  pub length-filter_by : (p : A → Bool) (xs : List A) → length (filter_by p xs) ≤ length xs
  length-filter_by p [] = omega arith
  length-filter_by p (x ∷ xs) = ground (arith, length-filter_by p xs)

  pub filter_by-perm :
      (p : A → Bool) {xs ys : List A} → Permᴰ xs ys → Permᴰ (filter_by p xs) (filter_by p ys)
  filter_by-perm p Permᴰ.nil = Permᴰ.nil
  filter_by-perm p (Permᴰ.cons {a = a} {b = b} {l₁ = xs} {l₂ = ys} e h) =
      rw (← e) (elim (Bool-cases (p a)) [
        | inl y ↦ rw y (Permᴰ.cons refl (filter_by-perm p h))
        | inr n ↦ rw n (filter_by-perm p h)
      ])
  filter_by-perm p (Permᴰ.swap {a = a} {b = b} {a' = c} {b' = d} {l = l} e f) =
      rw (← e, ← f) (swapped a b l (p a) (p b) refl refl)
    where
      swapped :
          (a b : A) (l : List A) (u v : Bool)
          → p a ≡ u
          → p b ≡ v
          → Permᴰ (filter_by p (a ∷ b ∷ l)) (filter_by p (b ∷ a ∷ l))
      swapped a b l true true h k = rw (h, k) (Permᴰ.swap refl refl)
      swapped a b l true false h k = rw (h, k) (Permᴰ.refl _)
      swapped a b l false true h k = rw (h, k) (Permᴰ.refl _)
      swapped a b l false false h k = rw (h, k) (Permᴰ.refl _)
  filter_by-perm p (Permᴰ.trans h k) = Permᴰ.trans (filter_by-perm p h) (filter_by-perm p k)

-- Membership by recursion, which the tactics take apart.
abbrev pub In : {A : Type 0} → A → List A → Type 0
In a [] = ⊥
In a (x ∷ xs) = (a ≡ x) ⊎ In a xs

-- No item twice under `f`.
abbrev pub Distinct : {A B : Type 0} → (A → B) → List A → Type 0
Distinct f [] = Unit
Distinct f (x ∷ xs) = ((y : _) → In y xs → ¬ (f y ≡ f x)) × Distinct f xs

-- Tests that agree on a list select the same items.
pub filter_by_agree :
    {A : Type 0} (p q : A → Bool) (xs : List A)
    → ((x : A) → In x xs → p x ≡ q x)
    → filter_by p xs ≡ filter_by q xs
filter_by_agree p q [] h = refl
filter_by_agree p q (x ∷ xs) h =
    rw (h x (inl refl), filter_by_agree p q xs (λ y m. h y (inr m))) refl

pub filter_by-every :
    {A : Type 0} (p : A → Bool) (xs : List A)
    → ((x : A) → In x xs → p x ≡ true)
    → filter_by p xs ≡ xs
filter_by-every p [] h = refl
filter_by-every p (x ∷ xs) h = rw (h x (inl refl), filter_by-every p xs (λ y m. h y (inr m))) refl

pub filter_by-none :
    {A : Type 0} (p : A → Bool) (xs : List A)
    → ((x : A) → In x xs → p x ≡ false)
    → filter_by p xs ≡ []
filter_by-none p [] h = refl
filter_by-none p (x ∷ xs) h = rw (h x (inl refl), filter_by-none p xs (λ y m. h y (inr m))) refl

pub filter_by-append :
    {A : Type 0} (p : A → Bool) (xs ys : List A)
    → filter_by p (xs ++ ys) ≡ filter_by p xs ++ filter_by p ys
filter_by-append p [] ys = refl
filter_by-append p (x ∷ xs) ys = elim (Bool-cases (p x)) [
  | inl y ↦ rw (y, filter_by-append p xs ys) refl
  | inr n ↦ rw (n, filter_by-append p xs ys) refl
]

-- A filter after a filter is one by both tests.
pub filter_by-filter_by :
    {A : Type 0} (p q : A → Bool) (xs : List A)
    → filter_by q (filter_by p xs) ≡ filter_by (λ x. p x && q x) xs
filter_by-filter_by p q [] = refl
filter_by-filter_by p q (x ∷ xs) = elim (Bool-cases (p x)) [
  | inl y ↦ rw (y, filter_by-filter_by p q xs)
  | inr n ↦ rw (n, filter_by-filter_by p q xs)
]

pub length-append : {A : Type 0} (xs ys : List A) → length (xs ++ ys) ≡ length xs + length ys
length-append [] ys = omega arith
length-append (x ∷ xs) ys = let ih = length-append xs ys in omega arith
