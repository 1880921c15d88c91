-- ===== src/Common/Sort.antt =====
-- `sort.Strings` of Go: the same strings in ascending order.
use mathlib.Core.Path.{◌≡◌, refl, ◌∙◌}
use mathlib.Core.Logic.{◌⊎◌, inl, inr}
use mathlib.Core.Bool.{false}
use mathlib.Core.List.{List, [], ◌∷◌, Permᴰ}
use native.Mathlib.Omega.{arith}
use hsm_secrets_operator.Common.Tests.{if◌then◌else◌, Bool-cases}
use hsm_secrets_operator.Common.Lists.{In}
use hsm_secrets_operator.Common.Strings.{
  Str, str_ltb, str_ltb_asymm, str_ltb_connex, str_ltb_trans, str_le_trans,
}

unfoldable pub insert_str : Str → List Str → List Str
insert_str s [] = s ∷ []
insert_str s (t ∷ ts) = let rest = insert_str s ts in if str_ltb t s then t ∷ rest else s ∷ t ∷ ts

unfoldable pub sort_strings : List Str → List Str
unfolding insert_str
sort_strings [] = []
sort_strings (s ∷ ss) = insert_str s (sort_strings ss)

-- No string comes before one that stands to its left.
abbrev pub IsSorted : List Str → Type 0
IsSorted [] = Unit
IsSorted (s ∷ ss) = ((t : Str) → In t ss → str_ltb t s ≡ false) × IsSorted ss

pub In-insert_str : (s t : Str) (ss : List Str) → In t (insert_str s ss) → (t ≡ s) ⊎ In t ss
unfolding insert_str
In-insert_str s t [] h = h
In-insert_str s t (u ∷ us) h = ground (arith, In-insert_str s t us)

pub insert_str-In : (s t : Str) (ss : List Str) → (t ≡ s) ⊎ In t ss → In t (insert_str s ss)
unfolding insert_str
insert_str-In s t [] h = h
insert_str-In s t (u ∷ us) h = ground (arith, insert_str-In s t us)

pub In-sort_strings : (t : Str) (ss : List Str) → In t (sort_strings ss) → In t ss
unfolding sort_strings
In-sort_strings t [] h = h
In-sort_strings t (s ∷ ss) h = elim (In-insert_str s t (sort_strings ss) h) [
  | inl e ↦ inl e
  | inr m ↦ inr (In-sort_strings t ss m)
]

pub sort_strings-In : (t : Str) (ss : List Str) → In t ss → In t (sort_strings ss)
unfolding sort_strings
sort_strings-In t [] h = h
sort_strings-In t (s ∷ ss) (inl e) = insert_str-In s t (sort_strings ss) (inl e)
sort_strings-In t (s ∷ ss) (inr m) =
    insert_str-In s t (sort_strings ss) (inr (sort_strings-In t ss m))

insert_str-IsSorted : (s : Str) (ss : List Str) → IsSorted ss → IsSorted (insert_str s ss)
unfolding insert_str
insert_str-IsSorted s [] h = (λ t m. absurd m, tt)
insert_str-IsSorted s (t ∷ ts) h = elim (Bool-cases (str_ltb t s)) [
  | inl y ↦ rw y (
    λ u m. elim (In-insert_str s u ts m) [ inl e ↦ rw e (str_ltb_asymm t s y) | inr r ↦ h.0 u r ],
    insert_str-IsSorted s ts h.1,
  )
  | inr n ↦ rw n (λ u m. elim m [ inl e ↦ rw e n | inr r ↦ str_le_trans s t u n (h.0 u r) ], h)
]

pub sort_strings-IsSorted : (ss : List Str) → IsSorted (sort_strings ss)
unfolding sort_strings
sort_strings-IsSorted [] = tt
sort_strings-IsSorted (s ∷ ss) = insert_str-IsSorted s (sort_strings ss) (sort_strings-IsSorted ss)

insert_str_comm :
    (s t : Str) (ss : List Str) → insert_str s (insert_str t ss) ≡ insert_str t (insert_str s ss)
unfolding insert_str
insert_str_comm s t [] = ground (arith, str_ltb_asymm s t, str_ltb_connex s t)
insert_str_comm s t (u ∷ us) = ground (
  arith,
  insert_str_comm s t us,
  str_ltb_asymm s t,
  str_ltb_connex s t,
  str_ltb_trans u s t,
  str_ltb_trans u t s,
  str_le_trans s u t,
  str_le_trans t u s,
)

-- Sorting forgets the order of its input.
pub sort_strings-permᴰ : {ss ts : List Str} → Permᴰ ss ts → sort_strings ss ≡ sort_strings ts
unfolding sort_strings
sort_strings-permᴰ Permᴰ.nil = refl
sort_strings-permᴰ (Permᴰ.cons e h) = cc (e, sort_strings-permᴰ h)
sort_strings-permᴰ (Permᴰ.swap {a = a} {b = b} {l = l} e f) =
    rw (← e, ← f) (insert_str_comm a b (sort_strings l))
sort_strings-permᴰ (Permᴰ.trans h k) = sort_strings-permᴰ h ∙ sort_strings-permᴰ k
