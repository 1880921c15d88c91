-- ===== src/Hsm/Hardware/Labels.antt =====
-- The labels of the data objects of internal/hsm/pkcs11_client.go: prefixes and suffixes, and the keys
-- that labels stand for.
use hsm_secrets_operator.Common.{
  ℕ, ◌==◌, ◌≡◌, refl, sym, ap, ◌∙◌, ◌⊎◌, inl, inr, List, [], ◌∷◌, ◌++◌, true, false, Bool-cases,
  Str, str, str_eq, str_eq_iff, str_eq_refl, arith,
}
use hsm_secrets_operator.Hsm.Mock.{has_prefix}
use hsm_secrets_operator.Hsm.Session.{is_empty}
use hsm_secrets_operator.Hsm.Hardware.{
  behind, trim_prefix, has_suffix, key_of, label_of, default_key_name,
}

-- Two bytes as strings of one byte are compared as numbers.
byte_eq : (c d : ℕ) → str_eq (c ∷ []) (d ∷ []) ≡ (c == d)
unfolding str_eq
byte_eq c d = ground arith

pub has_prefix-append : (p s : Str) → has_prefix (p ++ s) p ≡ true
unfolding has_prefix
has_prefix-append [] s = refl
has_prefix-append (c ∷ p) s = rw (str_eq_refl (c ∷ [])) (has_prefix-append p s)

pub has_prefix_refl : (p : Str) → has_prefix p p ≡ true
unfolding has_prefix
has_prefix_refl [] = refl
has_prefix_refl (c ∷ p) = rw (str_eq_refl (c ∷ [])) (has_prefix_refl p)

-- What begins with a longer string begins with the shorter one.
pub has_prefix_shorter : (l p s : Str) → has_prefix l (p ++ s) ≡ true → has_prefix l p ≡ true
unfolding has_prefix
has_prefix_shorter l [] s h = refl
has_prefix_shorter [] (c ∷ p) s h = h
has_prefix_shorter (d ∷ l) (c ∷ p) s h = ground (arith, has_prefix_shorter l p s)

has_prefix_trans :
    (l p q : Str) → has_prefix l p ≡ true → has_prefix p q ≡ true → has_prefix l q ≡ true
unfolding has_prefix
has_prefix_trans l p [] h k = refl
has_prefix_trans l [] (c ∷ q) h k = cc
has_prefix_trans [] (d ∷ p) (c ∷ q) h k = cc
has_prefix_trans (e ∷ l) (d ∷ p) (c ∷ q) h k =
    ground (arith, byte_eq e d, byte_eq d c, byte_eq e c, has_prefix_trans l p q)

-- Of two strings that one string begins with, one begins with the other.
has_prefix_comparable :
    (l p q : Str)
    → has_prefix l p ≡ true
    → has_prefix l q ≡ true
    → (has_prefix p q ≡ true) ⊎ (has_prefix q p ≡ true)
unfolding has_prefix
has_prefix_comparable l p [] h k = inl refl
has_prefix_comparable l [] (c ∷ q) h k = inr refl
has_prefix_comparable [] (d ∷ p) (c ∷ q) h k = cc
has_prefix_comparable (e ∷ l) (d ∷ p) (c ∷ q) h k =
    ground (arith, byte_eq e d, byte_eq d c, byte_eq c d, byte_eq e c, has_prefix_comparable l p q)

behind-append : (p s : Str) → behind p (p ++ s) ≡ s
unfolding behind
behind-append [] s = refl
behind-append (c ∷ p) s = behind-append p s

trim_prefix-append : (p s : Str) → trim_prefix (p ++ s) p ≡ s
unfolding trim_prefix
trim_prefix-append p s = rw (has_prefix-append p s, behind-append p s)

pub append_nil : {A : Type 0} (s : List A) → s ++ [] ≡ s
append_nil [] = refl
append_nil (c ∷ s) = ap (λ r. c ∷ r) (append_nil s)

pub has_suffix-append : (p s : Str) → is_empty s ≡ false → has_suffix (p ++ s) s ≡ true
unfolding has_suffix
has_suffix-append [] [] h = cc
has_suffix-append [] (c ∷ s) h = rw (str_eq_refl (c ∷ s))
has_suffix-append (d ∷ p) s h = rw (has_suffix-append p s h) (ground arith)

-- The label of a key begins with the path.
pub has_prefix-label_of : (path key : Str) → has_prefix (label_of path key) path ≡ true
unfolding label_of
has_prefix-label_of path key = elim (Bool-cases (str_eq key default_key_name)) [
  | inl y ↦ rw y (has_prefix_refl path)
  | inr n ↦ rw n (has_prefix-append path (str "/" ++ key))
]

-- The label of a key that is not empty stands for that key.
pub key_of-label_of :
    (path key : Str) → is_empty key ≡ false → key_of path (label_of path key) ≡ key
unfolding key_of label_of has_prefix
key_of-label_of path key h = elim (Bool-cases (str_eq key default_key_name)) [
  | inl y ↦
      let trimmed : trim_prefix path path ≡ [] =
        ap (λ s. trim_prefix s path) (sym (append_nil path)) ∙ trim_prefix-append path [] in
      let e : key ≡ default_key_name = (str_eq_iff key default_key_name).0 y in
      rw (y, trimmed) (sym e)
  | inr n ↦ rw (n, trim_prefix-append path (str "/" ++ key), trim_prefix-append (str "/") key, h)
]

-- Neither of two paths begins with the other.
abbrev pub IsApart : Str → Str → Type 0
IsApart p q = (has_prefix p q ≡ false) × (has_prefix q p ≡ false)

-- No label begins with both of two paths that stand apart.
pub has_prefix-IsApart :
    (l p q : Str) → IsApart p q → has_prefix l p ≡ true → has_prefix l q ≡ false
has_prefix-IsApart l p q apart h = elim (Bool-cases (has_prefix l q)) [
  | inr n ↦ n
  | inl y ↦ elim (has_prefix_comparable l p q h y) [
    | inl a ↦ cc (a, apart.0)
    | inr b ↦ cc (b, apart.1)
  ]
]
