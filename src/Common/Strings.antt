-- ===== src/Common/Strings.antt =====
-- Go strings: sequences of bytes, compared byte by byte.
use Prim.Native.Nat.{ℕ}
use Prim.Native.Char.{code}
use Prim.Native.String.{String}
use mathlib.Core.Path.{◌≡◌, refl}
use mathlib.Core.Logic.{inl, inr, ◌↔◌}
use mathlib.Core.Bool.{Bool, true, false, ◌&&◌}
use mathlib.Core.List.{List, [], ◌∷◌}
use native.Mathlib.Omega.{arith}
use hsm_secrets_operator.Common.Tests.{ltb, ◌==◌, if◌then◌else◌, Bool-cases}

abbrev pub Str : Type 0
Str = List ℕ

-- A literal: its bytes, if it is ASCII.
abbrev pub str : String → Str
str String.[] = []
str (String.◌∷◌ c s) = code c ∷ str s

unfoldable pub str_eq : Str → Str → Bool
str_eq [] [] = true
str_eq [] (y ∷ ys) = false
str_eq (x ∷ xs) [] = false
str_eq (x ∷ xs) (y ∷ ys) = x == y && str_eq xs ys

pub str_eq_iff : (s t : Str) → (str_eq s t ≡ true) ↔ (s ≡ t)
unfolding str_eq
str_eq_iff [] [] = (λ h. refl, λ h. refl)
str_eq_iff [] (y ∷ ys) = (λ h. cc, λ h. cc)
str_eq_iff (x ∷ xs) [] = (λ h. cc, λ h. cc)
str_eq_iff (x ∷ xs) (y ∷ ys) = ground (arith, str_eq_iff xs ys)

pub str_eq_refl : (s : Str) → str_eq s s ≡ true
str_eq_refl s = (str_eq_iff s s).1 refl

-- `s < t` of Go: the first byte that differs decides, and a proper prefix comes first.
unfoldable pub str_ltb : Str → Str → Bool
str_ltb [] [] = false
str_ltb [] (y ∷ ys) = true
str_ltb (x ∷ xs) [] = false
str_ltb (x ∷ xs) (y ∷ ys) =
    let rest = str_ltb xs ys in if ltb x y then true else if ltb y x then false else rest

pub str_ltb_irrefl : (s : Str) → str_ltb s s ≡ false
unfolding str_ltb
str_ltb_irrefl [] = refl
str_ltb_irrefl (x ∷ xs) = ground (arith, str_ltb_irrefl xs)

pub str_ltb_asymm : (s t : Str) → str_ltb s t ≡ true → str_ltb t s ≡ false
unfolding str_ltb
str_ltb_asymm [] [] h = refl
str_ltb_asymm [] (y ∷ ys) h = refl
str_ltb_asymm (x ∷ xs) [] h = cc
str_ltb_asymm (x ∷ xs) (y ∷ ys) h = ground (arith, str_ltb_asymm xs ys)

pub str_ltb_trans : (s t u : Str) → str_ltb s t ≡ true → str_ltb t u ≡ true → str_ltb s u ≡ true
unfolding str_ltb
str_ltb_trans [] [] u h k = cc
str_ltb_trans [] (y ∷ ys) [] h k = cc
str_ltb_trans [] (y ∷ ys) (z ∷ zs) h k = refl
str_ltb_trans (x ∷ xs) [] u h k = cc
str_ltb_trans (x ∷ xs) (y ∷ ys) [] h k = cc
str_ltb_trans (x ∷ xs) (y ∷ ys) (z ∷ zs) h k = ground (arith, str_ltb_trans xs ys zs)

-- Of two strings neither of which comes before the other, both are one.
pub str_ltb_connex : (s t : Str) → str_ltb s t ≡ false → str_ltb t s ≡ false → s ≡ t
unfolding str_ltb
str_ltb_connex [] [] h k = refl
str_ltb_connex [] (y ∷ ys) h k = cc
str_ltb_connex (x ∷ xs) [] h k = cc
str_ltb_connex (x ∷ xs) (y ∷ ys) h k = ground (arith, str_ltb_connex xs ys)

-- Not before, and not before again.
pub str_le_trans : (s t u : Str) → str_ltb t s ≡ false → str_ltb u t ≡ false → str_ltb u s ≡ false
str_le_trans s t u h k = elim (Bool-cases (str_ltb u s)) [
  | inr n ↦ n
  | inl y ↦ elim (Bool-cases (str_ltb s t)) [
    | inl st ↦ cc (str_ltb_trans u s t y st)
    | inr ts ↦ cc (str_ltb_connex s t ts h)
  ]
]
