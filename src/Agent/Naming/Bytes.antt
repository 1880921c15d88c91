-- ===== src/Agent/Naming/Bytes.antt =====
-- The bytes of a name: what trimming and cutting keep of them.
use hsm_secrets_operator.Common.{
  ℕ, zero, suc, ◌≤◌, ◌≡◌, refl, ap, ◌∙◌, inl, inr, List, [], ◌∷◌, ◌++◌, length, map, Bool, true,
  false, ◌&&◌, ◌||◌, Bool-cases, ◌==◌, In, Str, arith,
}
use hsm_secrets_operator.Agent.Naming.{
  dash, is_lower, is_digit, sanitize_rune, is_blank, trim_right, trim_left, take,
}

-- The bytes that a resource name may have.
abbrev pub is_name_byte : ℕ → Bool
is_name_byte b = is_lower b || is_digit b || (b == dash)

abbrev pub NameBytes : Str → Type 0
NameBytes s = (b : ℕ) → In b s → is_name_byte b ≡ true

abbrev pub ends_in_dash : Str → Bool
ends_in_dash [] = false
ends_in_dash (b ∷ []) = b == dash
ends_in_dash (b ∷ c ∷ cs) = ends_in_dash (c ∷ cs)

sanitize_rune-name_byte : (r : ℕ) → is_name_byte (sanitize_rune r) ≡ true
unfolding sanitize_rune
sanitize_rune-name_byte r = ground arith

pub NameBytes-map : (rs : List ℕ) → NameBytes (map sanitize_rune rs)
NameBytes-map [] b m = absurd m
NameBytes-map (r ∷ rs) b (inl e) = ap is_name_byte e ∙ sanitize_rune-name_byte r
NameBytes-map (r ∷ rs) b (inr m) = NameBytes-map rs b m

pub In-trim_left : (b : ℕ) (s : Str) → In b (trim_left s) → In b s
unfolding trim_left
In-trim_left b [] m = m
In-trim_left b (c ∷ s) m = elim (Bool-cases (c == dash)) [
  | inl y ↦ inr (In-trim_left b s (rw y at m))
  | inr n ↦ rw n at m
]

pub In-trim_right : (b : ℕ) (s : Str) → In b (trim_right s) → In b s
unfolding trim_right
In-trim_right b [] m = m
In-trim_right b (c ∷ s) m = elim (Bool-cases (c == dash && is_blank (trim_right s))) [
  | inl y ↦ absurd (rw y at m)
  | inr n ↦ elim (rw n at m) [ inl e ↦ inl e | inr i ↦ inr (In-trim_right b s i) ]
]

pub In-take : (b n : ℕ) (s : Str) → In b (take n s) → In b s
unfolding take
In-take b zero s m = absurd m
In-take b (suc n) [] m = m
In-take b (suc n) (c ∷ s) (inl e) = inl e
In-take b (suc n) (c ∷ s) (inr m) = inr (In-take b n s m)

pub NameBytes-append : (s t : Str) → NameBytes s → NameBytes t → NameBytes (s ++ t)
NameBytes-append [] t h k b m = k b m
NameBytes-append (c ∷ s) t h k b (inl e) = h b (inl e)
NameBytes-append (c ∷ s) t h k b (inr m) = NameBytes-append s t (λ x i. h x (inr i)) k b m

pub length-take : (n : ℕ) (s : Str) → length (take n s) ≤ n
unfolding take
length-take zero s = omega arith
length-take (suc n) [] = omega arith
length-take (suc n) (b ∷ s) = omega (arith, length-take n s)

pub length-trim_right : (s : Str) → length (trim_right s) ≤ length s
unfolding trim_right
length-trim_right [] = omega arith
length-trim_right (b ∷ s) = ground (arith, length-trim_right s)

ends_in_dash-cons : (b : ℕ) (s : Str) → is_blank s ≡ false → ends_in_dash (b ∷ s) ≡ ends_in_dash s
ends_in_dash-cons b [] h = cc
ends_in_dash-cons b (c ∷ s) h = refl

pub ends_in_dash-trim_right : (s : Str) → ends_in_dash (trim_right s) ≡ false
unfolding trim_right
ends_in_dash-trim_right [] = refl
ends_in_dash-trim_right (b ∷ s) = elim (Bool-cases (b == dash && is_blank (trim_right s))) [
  | inl y ↦ rw y refl
  | inr n ↦ rw n (elim (Bool-cases (is_blank (trim_right s))) [
    | inl e ↦ rw (blank_is_nil (trim_right s) e) (ground arith)
    | inr f ↦ ends_in_dash-cons b (trim_right s) f ∙ ends_in_dash-trim_right s
  ])
]
  where
    blank_is_nil : (t : Str) → is_blank t ≡ true → t ≡ []
    blank_is_nil [] e = refl
    blank_is_nil (x ∷ xs) e = cc

is_blank-append : (s : Str) (b : ℕ) (t : Str) → is_blank (s ++ (b ∷ t)) ≡ false
is_blank-append [] b t = refl
is_blank-append (c ∷ s) b t = refl

pub ends_in_dash-append :
    (s : Str) (b : ℕ) (t : Str) → ends_in_dash (s ++ (b ∷ t)) ≡ ends_in_dash (b ∷ t)
ends_in_dash-append [] b t = refl
ends_in_dash-append (c ∷ s) b t =
    ends_in_dash-cons c (s ++ (b ∷ t)) (is_blank-append s b t) ∙ ends_in_dash-append s b t
