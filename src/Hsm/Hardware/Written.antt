-- ===== src/Hsm/Hardware/Written.antt =====
-- The objects that WriteSecret of internal/hsm/pkcs11_client.go leaves for a secret, and what
-- ReadSecret and ReadMetadata make of them.
use hsm_secrets_operator.Common.{
  ℕ, ◌+◌, ◌==◌, ◌≡◌, refl, ap, ◌∙◌, ◌⊎◌, inl, inr, List, [], ◌∷◌, ◌++◌, Bool, true, false, not,
  ◌&&◌, some, Bool-cases, Str, str_eq, str_eq_iff, str_eq_refl, length, In, Distinct, filter_by,
  filter_by-append, filter_by-every, filter_by-none, filter_by-filter_by, filter_by_agree,
  In-filter_by_iff, put, arith,
}
use mathlib.Core.List.{append_assoc}
use hsm_secrets_operator.Hsm.{SecretData}
use hsm_secrets_operator.Hsm.Mock.{has_prefix}
use hsm_secrets_operator.Hsm.Errors.{ok}
use hsm_secrets_operator.Hsm.Token.{Pkcs11Object}
use hsm_secrets_operator.Hsm.Session.{is_empty}
use hsm_secrets_operator.Hsm.Session.Laws.{is_shown, is_kept}
use hsm_secrets_operator.Hsm.Hardware.{
  has_suffix, key_of, label_of, find_label, add_object, gather, secret_of, metadata_key_suffix,
}
use hsm_secrets_operator.Hsm.Hardware.Labels.{
  append_nil, has_prefix_refl, has_prefix_shorter, has_prefix-label_of, key_of-label_of,
  has_prefix-append, has_suffix-append, IsApart, has_prefix-IsApart,
}

-- The objects of the keys of a secret, in the order of the keys.
abbrev pub Holds : Str → SecretData → List Pkcs11Object → Type 0
Holds path [] [] = Unit
Holds path [] (o ∷ os) = ⊥
Holds path ((key, value) ∷ data') [] = ⊥
Holds path ((key, value) ∷ data') (o ∷ os) =
    (o.label ≡ label_of path key) × (o.value ≡ value) × Holds path data' os

-- A secret that the labels keep apart: its keys are distinct and not empty, and no key has the
-- label of a metadata object.
abbrev pub IsPlain : Str → SecretData → Type 0
IsPlain path data' =
    Distinct (λ e. e.0) data'
    × ((key : Str) (value : List ℕ)
        → In (key, value) data'
        → (is_empty key ≡ false) × (has_suffix (label_of path key) metadata_key_suffix ≡ false))

-- In a map whose keys are distinct a new key goes to the end.
put_end :
    (key : Str) (value : List ℕ) (done rest : SecretData)
    → Distinct (λ e. e.0) (done ++ ((key, value) ∷ rest))
    → put key value done ≡ done ++ ((key, value) ∷ [])
unfolding put
put_end key value [] rest d = refl
put_end key value ((j, w) ∷ done) rest d =
    let apart = d.0 (key, value) (In-middle done) in
    ground (arith, str_eq_iff j key, put_end key value done rest d.1)
  where
    In-middle : (done : SecretData) → In (key, value) (done ++ ((key, value) ∷ rest))
    In-middle [] = inl refl
    In-middle (e ∷ done) = inr (In-middle done)

gather_cons :
    (path : Str) (o : Pkcs11Object) (os : List Pkcs11Object) (found : SecretData × ℕ)
    → gather path (o ∷ os) found ≡ gather path os (add_object path o found)
unfolding gather
gather_cons path o os found = refl

add_object-skipped :
    (path : Str) (o : Pkcs11Object) (found : SecretData × ℕ)
    → has_suffix o.label metadata_key_suffix ≡ true
    → add_object path o found ≡ found
unfolding add_object key_of
add_object-skipped path o found h = elim (Bool-cases (has_prefix o.label path)) [
  | inl y ↦ rw (y, h) refl
  | inr n ↦ rw n refl
]

add_object-counted :
    (path : Str) (o : Pkcs11Object) (found : SecretData × ℕ)
    → has_prefix o.label path ≡ true
    → has_suffix o.label metadata_key_suffix ≡ false
    → add_object path o found ≡ (put (key_of path o.label) o.value found.0, found.1 + 1)
unfolding add_object key_of
add_object-counted path o found h k = rw (h, k) refl

-- The object of a new key adds the key at the end.
add_object-key :
    (path key : Str) (value : List ℕ) (done rest : SecretData) (n : ℕ) (o : Pkcs11Object)
    → o.label ≡ label_of path key
    → o.value ≡ value
    → is_empty key ≡ false
    → has_suffix (label_of path key) metadata_key_suffix ≡ false
    → Distinct (λ e. e.0) (done ++ ((key, value) ∷ rest))
    → add_object path o (done, n) ≡ (done ++ ((key, value) ∷ []), n + 1)
add_object-key path key value done rest n o e f filled unlike d =
    add_object-counted path o (done, n) (rw e (has_prefix-label_of path key)) (rw e unlike)
    ∙ (rw (e, f, key_of-label_of path key filled)
        (ap (λ p. (p, n + 1)) (put_end key value done rest d)))

-- Reading the objects of the keys adds the keys to the map, in their order.
gather-Holds :
    (path : Str) (data' done : SecretData) (n : ℕ) (os more : List Pkcs11Object)
    → Holds path data' os
    → Distinct (λ e. e.0) (done ++ data')
    → ((key : Str) (value : List ℕ)
        → In (key, value) data'
        → (is_empty key ≡ false) × (has_suffix (label_of path key) metadata_key_suffix ≡ false))
    → gather path (os ++ more) (done, n) ≡ gather path more (done ++ data', n + length data')
gather-Holds path [] done n [] more h d plain =
    let count : n + 0 ≡ n = omega arith in rw (append_nil done, count) refl
gather-Holds path [] done n (o ∷ os) more h d plain = absurd h
gather-Holds path ((key, value) ∷ data') done n [] more h d plain = absurd h
gather-Holds path ((key, value) ∷ data') done n (o ∷ os) more (e, f, h) d plain =
    let (filled, unlike) = plain key value (inl refl) in
    let step = add_object-key path key value done data' n o e f filled unlike d in
    let shift : (done ++ ((key, value) ∷ [])) ++ data' ≡ done ++ ((key, value) ∷ data') =
      append_assoc done ((key, value) ∷ []) data' in
    let ih =
      gather-Holds path data' (done ++ ((key, value) ∷ [])) (n + 1) os more h (rw shift d)
        (λ k v m. plain k v (inr m)) in
    let count : n + 1 + length data' ≡ n + length ((key, value) ∷ data') = omega arith in
    gather_cons path o (os ++ more) (done, n)
    ∙ ap (gather path (os ++ more)) step
    ∙ ih
    ∙ ap (λ r. gather path more (r, n + 1 + length data')) shift
    ∙ ap (λ c. gather path more (done ++ ((key, value) ∷ data'), c)) count

length_filled : (data' : SecretData) → is_empty data' ≡ false → (length data' == 0) ≡ false
length_filled [] h = cc
length_filled (e ∷ data') h = ground arith

-- A written secret is read back, whatever its metadata object holds.
pub secret_of-Holds :
    (path : Str) (data' : SecretData) (os : List Pkcs11Object) (m : Pkcs11Object)
    → Holds path data' os
    → IsPlain path data'
    → is_empty data' ≡ false
    → has_suffix m.label metadata_key_suffix ≡ true
    → secret_of path (os ++ (m ∷ [])) ≡ ok data'
unfolding secret_of
secret_of-Holds path data' os m h plain filled meta =
    let e = gather-Holds path data' [] 0 os (m ∷ []) h plain.0 plain.1 in
    let count : 0 + length data' ≡ length data' = omega arith in
    let skipped : gather path (m ∷ []) (data', length data') ≡ (data', length data') =
      gather_cons path m [] (data', length data')
      ∙ add_object-skipped path m (data', length data') meta in
    let whole : gather path (os ++ (m ∷ [])) ([], 0) ≡ (data', length data') =
      e ∙ ap (λ c. gather path (m ∷ []) (data', c)) count ∙ skipped in
    rw (whole, length_filled data' filled, filled) refl

Holds-has_prefix :
    (path : Str) (data' : SecretData) (os : List Pkcs11Object) (o : Pkcs11Object)
    → Holds path data' os
    → In o os
    → has_prefix o.label path ≡ true
Holds-has_prefix path [] [] o h m = absurd m
Holds-has_prefix path [] (p ∷ os) o h m = absurd h
Holds-has_prefix path ((key, value) ∷ data') [] o h m = absurd h
Holds-has_prefix path ((key, value) ∷ data') (p ∷ os) o (e, f, h) (inl i) =
    rw (i, e) (has_prefix-label_of path key)
Holds-has_prefix path ((key, value) ∷ data') (p ∷ os) o (e, f, h) (inr m) =
    Holds-has_prefix path data' os o h m

Holds-has_suffix :
    (path : Str) (data' : SecretData) (os : List Pkcs11Object) (o : Pkcs11Object)
    → Holds path data' os
    → ((key : Str) (value : List ℕ)
        → In (key, value) data'
        → has_suffix (label_of path key) metadata_key_suffix ≡ false)
    → In o os
    → has_suffix o.label metadata_key_suffix ≡ false
Holds-has_suffix path [] [] o h plain m = absurd m
Holds-has_suffix path [] (p ∷ os) o h plain m = absurd h
Holds-has_suffix path ((key, value) ∷ data') [] o h plain m = absurd h
Holds-has_suffix path ((key, value) ∷ data') (p ∷ os) o (e, f, h) plain (inl i) =
    rw (i, e) (plain key value (inl refl))
Holds-has_suffix path ((key, value) ∷ data') (p ∷ os) o (e, f, h) plain (inr m) =
    Holds-has_suffix path data' os o h (λ k v i. plain k v (inr i)) m

-- What stands at a token after a write: the objects that the write kept, those of the keys, and
-- that of the metadata.
abbrev pub written : Str → List Pkcs11Object → List Pkcs11Object → Pkcs11Object → List Pkcs11Object
written path before os m = filter_by (is_kept path) before ++ (os ++ (m ∷ []))

In-append : {A : Type 0} (xs ys : List A) (a : A) → In a (xs ++ ys) → In a xs ⊎ In a ys
In-append [] ys a m = inr m
In-append (x ∷ xs) ys a (inl e) = inl (inl e)
In-append (x ∷ xs) ys a (inr m) = elim (In-append xs ys a m) [ inl i ↦ inl (inr i) | inr i ↦ inr i ]

has_prefix_blank : (c : ℕ) (p : Str) → has_prefix [] (c ∷ p) ≡ false
unfolding has_prefix
has_prefix_blank c p = refl

-- An object whose label begins with a path that is not empty is shown.
has_prefix-shown :
    (path : Str) (o : Pkcs11Object)
    → is_empty path ≡ false
    → has_prefix o.label path ≡ true
    → is_shown path o ≡ true
unfolding is_shown
has_prefix-shown path o filled h = rw h (filled_label path o.label filled h)
  where
    filled_label :
        (p l : Str) → is_empty p ≡ false → has_prefix l p ≡ true → (not (is_empty l) && true) ≡ true
    filled_label [] l f k = cc
    filled_label (c ∷ p) [] f k = cc (has_prefix_blank c p, k)
    filled_label (c ∷ p) (d ∷ l) f k = refl

hidden : (q : Str) (o : Pkcs11Object) → has_prefix o.label q ≡ false → is_shown q o ≡ false
unfolding is_shown
hidden q o h = ground arith

shown-has_prefix : (q : Str) (o : Pkcs11Object) → is_shown q o ≡ true → has_prefix o.label q ≡ true
unfolding is_shown
shown-has_prefix q o h = ground arith

-- What is found for one of two paths that stand apart is kept by a deletion of the other.
pub kept_elsewhere :
    (path q : Str) (o : Pkcs11Object)
    → IsApart path q
    → (is_kept path o && is_shown q o) ≡ is_shown q o
unfolding is_kept
kept_elsewhere path q o apart = elim (Bool-cases (is_shown path o)) [
  | inl y ↦
      let gone = hidden q o (has_prefix-IsApart o.label path q apart (shown-has_prefix path o y)) in
      rw (y, gone) refl
  | inr n ↦ rw n refl
]

-- A search for a label passes over what a filter takes away, if that has other labels.
find_label-filter_by :
    (l : Str) (p : Pkcs11Object → Bool) (os : List Pkcs11Object)
    → ((o : Pkcs11Object) → In o os → o.label ≡ l → p o ≡ true)
    → find_label l (filter_by p os) ≡ find_label l os
unfolding find_label
find_label-filter_by l p [] h = refl
find_label-filter_by l p (o ∷ os) h = elim (Bool-cases (p o)) [
  | inl y ↦ rw (y, find_label-filter_by l p os (λ q m. h q (inr m))) refl
  | inr n ↦
      let other : str_eq o.label l ≡ false = ground (arith, h o (inl refl), str_eq_iff o.label l) in
      rw (n, other) (find_label-filter_by l p os (λ q m. h q (inr m)))
]

find_label-behind :
    (l : Str) (os more : List Pkcs11Object)
    → ((o : Pkcs11Object) → In o os → ¬ (o.label ≡ l))
    → find_label l (os ++ more) ≡ find_label l more
unfolding find_label
find_label-behind l [] more h = refl
find_label-behind l (o ∷ os) more h =
    let other : str_eq o.label l ≡ false = ground (arith, h o (inl refl), str_eq_iff o.label l) in
    rw other (find_label-behind l os more (λ q m. h q (inr m)))

find_label_here : (l : Str) (o : Pkcs11Object) → o.label ≡ l → find_label l (o ∷ []) ≡ some o.value
unfolding find_label
find_label_here l o e = rw (e, str_eq_refl l) refl

is_empty-append : (p s : Str) → is_empty p ≡ false → is_empty (p ++ s) ≡ false
is_empty-append [] s h = cc
is_empty-append (c ∷ p) s h = refl

kept-shown : (path : Str) (o : Pkcs11Object) → is_shown path o ≡ true → is_kept path o ≡ false
unfolding is_kept
kept-shown path o h = rw h refl

module _ (path : Str) (data' : SecretData) (before os : List Pkcs11Object) (m : Pkcs11Object)
    (holds : Holds path data' os) (named : m.label ≡ path ++ metadata_key_suffix) where
  begins : (o : Pkcs11Object) → In o (os ++ (m ∷ [])) → has_prefix o.label path ≡ true
  begins o i = elim (In-append os (m ∷ []) o i) [
    | inl j ↦ Holds-has_prefix path data' os o holds j
    | inr (inl e) ↦ rw (e, named) (has_prefix-append path metadata_key_suffix)
    | inr (inr j) ↦ absurd j
  ]

  -- A search for the path finds the new objects alone.
  pub shown_written :
      is_empty path ≡ false → filter_by (is_shown path) (written path before os m) ≡ os ++ (m ∷ [])
  unfolding is_kept
  shown_written filled =
      filter_by-append (is_shown path) (filter_by (is_kept path) before) (os ++ (m ∷ []))
      ∙ rw
          (
            filter_by-every (is_shown path) (os ++ (m ∷ []))
                (λ o i. has_prefix-shown path o filled (begins o i)),
            filter_by-filter_by (is_kept path) (is_shown path) before,
            filter_by-none (λ o. is_kept path o && is_shown path o) before
                (λ o i. never (is_shown path o)),
          )
          refl
    where
      never : (b : Bool) → (not b && b) ≡ false
      never true = refl
      never false = refl

  -- A search for a path that stands apart finds what it found before.
  pub shown_elsewhere :
      (q : Str)
      → IsApart path q
      → filter_by (is_shown q) (written path before os m) ≡ filter_by (is_shown q) before
  unfolding is_kept
  shown_elsewhere q apart =
      filter_by-append (is_shown q) (filter_by (is_kept path) before) (os ++ (m ∷ []))
      ∙ ap (λ r. filter_by (is_shown q) (filter_by (is_kept path) before) ++ r)
          (filter_by-none (is_shown q) (os ++ (m ∷ []))
            (λ o i. hidden q o (has_prefix-IsApart o.label path q apart (begins o i))))
      ∙ append_nil (filter_by (is_shown q) (filter_by (is_kept path) before))
      ∙ filter_by-filter_by (is_kept path) (is_shown q) before
      ∙ filter_by_agree (λ o. is_kept path o && is_shown q o) (is_shown q) before
          (λ o i. kept_elsewhere path q o apart)

  -- A search for the label of the metadata finds the new metadata.
  pub find_written :
      is_empty path ≡ false
      → ((key : Str) (value : List ℕ)
          → In (key, value) data'
          → has_suffix (label_of path key) metadata_key_suffix ≡ false)
      → find_label
          (path ++ metadata_key_suffix)
          (filter_by (is_shown (path ++ metadata_key_suffix)) (written path before os m))
        ≡ some m.value
  find_written filled plain =
      find_label-filter_by l (is_shown l) (written path before os m) (λ o i e.
        has_prefix-shown l o (is_empty-append path metadata_key_suffix filled)
          (rw e (has_prefix_refl l)))
      ∙ find_label-behind l (filter_by (is_kept path) before) (os ++ (m ∷ [])) not_kept
      ∙ find_label-behind l os (m ∷ []) not_key
      ∙ find_label_here l m named
    where
      l : Str
      l = path ++ metadata_key_suffix

      not_kept : (o : Pkcs11Object) → In o (filter_by (is_kept path) before) → ¬ (o.label ≡ l)
      not_kept o i e =
          let kept = ((In-filter_by_iff (is_kept path) o before).0 i).1 in
          let begun : has_prefix o.label path ≡ true =
            rw e (has_prefix-append path metadata_key_suffix) in
          cc (kept, kept-shown path o (has_prefix-shown path o filled begun))

      not_key : (o : Pkcs11Object) → In o os → ¬ (o.label ≡ l)
      not_key o i e =
          let ends : has_suffix o.label metadata_key_suffix ≡ true =
            rw e (has_suffix-append path metadata_key_suffix refl) in
          cc (ends, Holds-has_suffix path data' os o holds plain i)

-- After a deletion a search for the path, or for a longer one, finds nothing.
pub shown_deleted :
    (path more : Str) (before : List Pkcs11Object)
    → filter_by (is_shown (path ++ more)) (filter_by (is_kept path) before) ≡ []
unfolding is_kept is_shown
shown_deleted path more before =
    filter_by-filter_by (is_kept path) (is_shown (path ++ more)) before
    ∙ filter_by-none (λ o. is_kept path o && is_shown (path ++ more) o) before
        (λ o i. ground (arith, has_prefix_shorter o.label path more))
