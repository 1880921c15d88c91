-- ===== src/Common/Perms.antt =====
-- Permutations: what they keep. The library's `Perm` is the truncation of this family.
use mathlib.Core.Path.{◌≡◌, refl, ap, sym, ◌∙◌}
use mathlib.Core.Logic.{◌↔◌, inl, inr}
use mathlib.Core.Bool.{Bool, true}
use mathlib.Core.List.{List, [], ◌∷◌, map, Permᴰ}
use hsm_secrets_operator.Common.Tests.{Bool-cases}
use hsm_secrets_operator.Common.Lists.{In, Distinct, filter_by}

pub In-permᴰ : {A : Type 0} {xs ys : List A} (a : A) → Permᴰ xs ys → In a xs → In a ys
In-permᴰ a Permᴰ.nil m = m
In-permᴰ a (Permᴰ.cons e h) (inl f) = inl (f ∙ e)
In-permᴰ a (Permᴰ.cons e h) (inr m) = inr (In-permᴰ a h m)
In-permᴰ a (Permᴰ.swap e f) (inl g) = inr (inl (g ∙ e))
In-permᴰ a (Permᴰ.swap e f) (inr (inl g)) = inl (g ∙ f)
In-permᴰ a (Permᴰ.swap e f) (inr (inr m)) = inr (inr m)
In-permᴰ a (Permᴰ.trans h k) m = In-permᴰ a k (In-permᴰ a h m)

pub Permᴰ-symm : {A : Type 0} {xs ys : List A} → Permᴰ xs ys → Permᴰ ys xs
Permᴰ-symm Permᴰ.nil = Permᴰ.nil
Permᴰ-symm (Permᴰ.cons e h) = Permᴰ.cons (sym e) (Permᴰ-symm h)
Permᴰ-symm (Permᴰ.swap e f) = Permᴰ.swap (sym f) (sym e)
Permᴰ-symm (Permᴰ.trans h k) = Permᴰ.trans (Permᴰ-symm k) (Permᴰ-symm h)

pub map-permᴰ :
    {A B : Type 0} (f : A → B) {xs ys : List A} → Permᴰ xs ys → Permᴰ (map f xs) (map f ys)
map-permᴰ f Permᴰ.nil = Permᴰ.nil
map-permᴰ f (Permᴰ.cons e h) = Permᴰ.cons (ap f e) (map-permᴰ f h)
map-permᴰ f (Permᴰ.swap e g) = Permᴰ.swap (ap f e) (ap f g)
map-permᴰ f (Permᴰ.trans h k) = Permᴰ.trans (map-permᴰ f h) (map-permᴰ f k)

pub In-filter_by :
    {A : Type 0} (p : A → Bool) (a : A) (xs : List A) → In a (filter_by p xs) → In a xs
In-filter_by p a [] m = m
In-filter_by p a (x ∷ xs) m = elim (Bool-cases (p x)) [
  | inl y ↦ elim (rw y at m) [ inl e ↦ inl e | inr r ↦ inr (In-filter_by p a xs r) ]
  | inr n ↦ inr (In-filter_by p a xs (rw n at m))
]

pub Distinct-filter_by :
    {A B : Type 0} (f : A → B) (p : A → Bool) (xs : List A)
    → Distinct f xs
    → Distinct f (filter_by p xs)
Distinct-filter_by f p [] d = d
Distinct-filter_by f p (x ∷ xs) d = elim (Bool-cases (p x)) [
  | inl y ↦ rw y (λ z m. d.0 z (In-filter_by p z xs m), Distinct-filter_by f p xs d.1)
  | inr n ↦ rw n (Distinct-filter_by f p xs d.1)
]

-- Items that are told apart stay so in any order.
pub Distinct-permᴰ :
    {A B : Type 0} (f : A → B) {xs ys : List A} → Permᴰ xs ys → Distinct f xs → Distinct f ys
Distinct-permᴰ f Permᴰ.nil d = d
Distinct-permᴰ f (Permᴰ.cons e h) d =
    (λ y m q. d.0 y (In-permᴰ y (Permᴰ-symm h) m) (q ∙ ap f (sym e)), Distinct-permᴰ f h d.1)
Distinct-permᴰ f (Permᴰ.swap e g) d = (
  λ y m q. elim m [
    | inl r ↦ d.0 _ (inl refl) (ap f g ∙ sym q ∙ ap f (r ∙ sym e))
    | inr r ↦ d.1.0 y r (q ∙ ap f (sym g))
  ],
  (λ y m q. d.0 y (inr m) (q ∙ ap f (sym e)), d.1.1),
)
Distinct-permᴰ f (Permᴰ.trans h k) d = Distinct-permᴰ f k (Distinct-permᴰ f h d)

-- A filtered list holds the items that pass.
pub In-filter_by_iff :
    {A : Type 0} (p : A → Bool) (a : A) (xs : List A)
    → In a (filter_by p xs) ↔ (In a xs × (p a ≡ true))
In-filter_by_iff p a [] = (λ m. absurd m, λ h. absurd h.0)
In-filter_by_iff p a (x ∷ xs) = elim (Bool-cases (p x)) [
  | inl y ↦ rw y (
    λ m. elim m [
      | inl e ↦ (inl e, rw e y)
      | inr r ↦ let (i, t) = (In-filter_by_iff p a xs).0 r in (inr i, t)
    ],
    λ h. elim h.0 [ inl e ↦ inl e | inr r ↦ inr ((In-filter_by_iff p a xs).1 (r, h.1)) ],
  )
  | inr n ↦ rw n (
    λ m. let (i, t) = (In-filter_by_iff p a xs).0 m in (inr i, t),
    λ h. elim h.0 [ inl e ↦ cc (n, e, h.1) | inr r ↦ (In-filter_by_iff p a xs).1 (r, h.1) ],
  )
]
