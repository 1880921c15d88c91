-- ===== src/Hsm/Session/Laws.antt =====
-- What the functions of internal/hsm/pkcs11_cgo.go do to the data objects of a token that works.
use hsm_secrets_operator.Common.{
  ℕ, zero, suc, ◌≤◌, ◌≡◌, refl, sym, ap, ◌∙◌, inl, inr, List, [], ◌∷◌, ◌++◌, Bool, true, false, not,
  ◌&&◌, ◌||◌, none, some, map, Bool-cases, if◌then◌else◌, ◌==◌, Str, length, In, Distinct,
  filter_by, In-filter_by, In-filter_by_iff, Distinct-filter_by, filter_by_agree,
  filter_by-filter_by, arith,
}
use hsm_secrets_operator.Hsm.Mock.{has_prefix}
use hsm_secrets_operator.Hsm.Errors.{ok}
use hsm_secrets_operator.Hsm.Token.{Pkcs11, Codec, Pkcs11Object, Serves, take}
use hsm_secrets_operator.Hsm.Session.{Session, is_empty}
use hsm_secrets_operator.Hsm.Session.Objects.{
  object_of, is_collected, read_object, read_objects, find_objects_pkcs11, template_of,
  create_object_pkcs11, collect_object, collect_objects, destroy_objects, destroy_collected,
  delete_secret_objects_pkcs11,
}

-- An object that a search for a path finds: it has a label, and the label begins with the path.
unfoldable pub is_shown : Str → Pkcs11Object → Bool
is_shown path o = not (is_empty o.label) && has_prefix o.label path

-- An object that a search for a path leaves alone.
unfoldable pub is_kept : Str → Pkcs11Object → Bool
unfolding is_shown
is_kept path o = not (is_shown path o)

In-take : {A : Type 0} (n : ℕ) (a : A) (xs : List A) → In a (take n xs) → In a xs
unfolding take
In-take zero a xs m = absurd m
In-take (suc n) a [] m = absurd m
In-take (suc n) a (x ∷ xs) (inl e) = inl e
In-take (suc n) a (x ∷ xs) (inr m) = inr (In-take n a xs m)

pub take-all : {A : Type 0} (n : ℕ) (xs : List A) → length xs ≤ n → take n xs ≡ xs
unfolding take
take-all zero [] h = refl
take-all zero (x ∷ xs) h = absurd (omega arith)
take-all (suc n) [] h = refl
take-all (suc n) (x ∷ xs) h = ap (λ r. x ∷ r) (take-all n xs (omega arith))

abbrev handles_of : List Pkcs11Object → List ℕ
handles_of os = map (λ o. o.handle) os

object_of-shown :
    (path : Str) (o : Pkcs11Object)
    → object_of path o.handle (o.label ∷ o.value ∷ []) ≡ (if is_shown path o then some o else none)
unfolding object_of is_shown has_prefix
object_of-shown [] o = elim (Bool-cases (is_empty o.label)) [ inl y ↦ rw y | inr n ↦ rw n ]
object_of-shown (c ∷ path) o = ground arith

is_collected-shown :
    (path : Str) (o : Pkcs11Object) → is_collected path (o.label ∷ []) ≡ is_shown path o
unfolding is_collected is_shown
is_collected-shown path o = ground arith

unfoldable has_handle : ℕ → List Pkcs11Object → Bool
has_handle h [] = false
has_handle h (o ∷ os) = let rest = has_handle h os in h == o.handle || rest

filter_by-all : {A : Type 0} (xs : List A) → filter_by (λ x. true) xs ≡ xs
filter_by-all [] = refl
filter_by-all (x ∷ xs) = ap (λ r. x ∷ r) (filter_by-all xs)

lacks_handle :
    (h : ℕ) (os : List Pkcs11Object)
    → ((o : Pkcs11Object) → In o os → ¬ (o.handle ≡ h))
    → has_handle h os ≡ false
unfolding has_handle
lacks_handle h [] other = refl
lacks_handle h (o ∷ os) other =
    ground (arith, other o (inl refl), lacks_handle h os (λ p m. other p (inr m)))

-- Among distinct objects the handles of those found belong to those found alone.
has_handle-shown :
    (path : Str) (os : List Pkcs11Object) (p : Pkcs11Object)
    → Distinct (λ o. o.handle) os
    → In p os
    → has_handle p.handle (filter_by (is_shown path) os) ≡ is_shown path p
unfolding has_handle
has_handle-shown path [] p d m = absurd m
has_handle-shown path (o ∷ os) p d m = elim (Bool-cases (is_shown path o)) [
  | inl y ↦ elim m [
    | inl e ↦ rw (y, e) (ground (arith, y))
    | inr r ↦ rw y (ground (arith, d.0 p r, has_handle-shown path os p d.1 r))
  ]
  | inr n ↦ elim m [
    | inl e ↦
        rw (n, e, n)
          (lacks_handle o.handle (filter_by (is_shown path) os)
            (λ q k. d.0 q (In-filter_by (is_shown path) q os k)))
    | inr r ↦ rw n (has_handle-shown path os p d.1 r)
  ]
]

module _ {T : Type 0} (lib : Pkcs11 T) (codec : Codec) (s : Session) (w : Serves lib s.handle) where
  read_objects-shown :
      (path : Str) (t : T) (os : List Pkcs11Object)
      → ((o : Pkcs11Object) → In o os → In o (w.objects t))
      → read_objects lib codec s path (handles_of os) t ≡ (filter_by (is_shown path) os, t)
  unfolding read_objects read_object
  read_objects-shown path t [] h = refl
  read_objects-shown path t (o ∷ os) h =
      let e = w.reads t o (h o (inl refl)) in
      let rest = read_objects-shown path t os (λ p m. h p (inr m)) in
      elim (Bool-cases (is_shown path o)) [
        | inl y ↦ rw (read_objects, read_object, e, object_of-shown path o, y, e, rest)
        | inr n ↦ rw (read_objects, read_object, e, object_of-shown path o, n, e, rest)
      ]

  -- The search finds those of the first hundred objects that begin with the path.
  pub find_objects_lem :
      (path : Str) (t : T)
      → w.searching t ≡ none
      → (t' : T) × (find_objects_pkcs11 lib codec (some s) path t
          ≡ (ok (filter_by (is_shown path) (take 100 (w.objects t))), t'))
        × (w.objects t' ≡ w.objects t)
        × (w.searching t' ≡ none)
  unfolding find_objects_pkcs11
  find_objects_lem path t idle =
      let (t1, e1, o1, s1) = w.begins t none idle in
      let (t2, e2, o2, s2) = w.finds t1 none 100 s1 in
      let (t3, e3, o3, s3) = w.ends t2 none s2 in
      let same : w.objects t3 ≡ w.objects t = o3 ∙ o2 ∙ o1 in
      let shown =
        read_objects-shown path t3 (take 100 (w.objects t))
          (λ o m. rw same (In-take 100 o (w.objects t) m)) in
      (t3, ground (arith, e1, e2, e3, o1, shown), same, s3)

  -- A new object stands behind those that are there.
  pub create_object_lem :
      (label : Str) (value : List ℕ) (t : T)
      → w.searching t ≡ none
      → (h : ℕ) × (t' : T) × (create_object_pkcs11 lib codec (some s) label value t ≡ (ok h, t'))
        × (w.objects t' ≡ w.objects t ++ (record { label = label; value = value; handle = h } ∷ []))
        × (w.searching t' ≡ none)
  unfolding create_object_pkcs11 template_of
  create_object_lem label value t idle =
      let (h, t', e, o, i) = w.creates t (template_of lib codec label value) idle in
      (h, t', ground (arith, e), o, i)

  collect_objects-shown :
      (path : Str) (t : T) (os : List Pkcs11Object)
      → ((o : Pkcs11Object) → In o os → In o (w.objects t))
      → collect_objects lib codec s path (handles_of os) t
        ≡ (handles_of (filter_by (is_shown path) os), t)
  unfolding collect_objects collect_object
  collect_objects-shown path t [] h = refl
  collect_objects-shown path t (o ∷ os) h =
      let e = w.reads_label t o (h o (inl refl)) in
      let rest = collect_objects-shown path t os (λ p m. h p (inr m)) in
      elim (Bool-cases (is_shown path o)) [
        | inl y ↦ ground (arith, e, is_collected-shown path o, y, rest)
        | inr n ↦ ground (arith, e, is_collected-shown path o, n, rest)
      ]

  -- Destroying distinct objects that are there meets no error and leaves the others.
  destroy_objects_lem :
      (os : List Pkcs11Object) (n : ℕ) (t : T)
      → w.searching t ≡ none
      → Distinct (λ o. o.handle) os
      → ((o : Pkcs11Object) → In o os → In o (w.objects t))
      → (t' : T) × (destroy_objects lib codec s (handles_of os) n t ≡ (n, t'))
        × (w.objects t' ≡ filter_by (λ p. not (has_handle p.handle os)) (w.objects t))
        × (w.searching t' ≡ none)
  unfolding destroy_objects has_handle
  destroy_objects_lem [] n t idle d h = (t, refl, sym (filter_by-all (w.objects t)), idle)
  destroy_objects_lem (o ∷ os) n t idle d h =
      let (t1, e1, o1, i1) = w.destroys t o idle (h o (inl refl)) in
      let (t2, e2, o2, i2) = destroy_objects_lem os n t1 i1 d.1 (λ p m. rw o1 (
        (In-filter_by_iff (λ q. not (q.handle == o.handle)) p (w.objects t)).1
          (h p (inr m), other p m))) in
      (
        t2,
        ground (arith, e1, e2),
        o2
            ∙ ap (filter_by (λ p. not (has_handle p.handle os))) o1
            ∙ filter_by-filter_by _ _ (w.objects t)
            ∙ filter_by_agree _ _ (w.objects t) (λ p m. without p),
        i2,
      )
    where
      without :
          (p : Pkcs11Object)
          → (not (p.handle == o.handle) && not (has_handle p.handle os))
            ≡ not (has_handle p.handle (o ∷ os))
      without p = ground arith

      other : (p : Pkcs11Object) → In p os → not (p.handle == o.handle) ≡ true
      other p m = ground (arith, d.0 p m)

  -- Deleting a path takes away the objects that begin with it, where there are at most a hundred
  -- objects.
  pub delete_secret_objects_lem :
      (path : Str) (t : T)
      → w.searching t ≡ none
      → length (w.objects t) ≤ 100
      → (t' : T) × (delete_secret_objects_pkcs11 lib codec (some s) path t ≡ (ok tt, t'))
        × (w.objects t' ≡ filter_by (is_kept path) (w.objects t))
        × (w.searching t' ≡ none)
  unfolding delete_secret_objects_pkcs11 destroy_collected is_kept
  delete_secret_objects_lem path t idle few =
      let (t1, e1, o1, s1) = w.begins t none idle in
      let (t2, e2, o2, s2) = w.finds t1 none 100 s1 in
      let (t3, e3, o3, s3) = w.ends t2 none s2 in
      let all : take 100 (w.objects t1) ≡ w.objects t = rw o1 (take-all 100 (w.objects t) few) in
      let same2 : w.objects t2 ≡ w.objects t = o2 ∙ o1 in
      let same3 : w.objects t3 ≡ w.objects t = o3 ∙ same2 in
      let collected = collect_objects-shown path t2 (w.objects t) (λ o m. rw same2 m) in
      let (t4, e4, o4, s4) =
        destroy_objects_lem (filter_by (is_shown path) (w.objects t)) 0 t3 s3
          (Distinct-filter_by (λ o. o.handle) (is_shown path) (w.objects t) (w.distinct t))
          (λ o m. rw same3 (In-filter_by (is_shown path) o (w.objects t) m)) in
      (
        t4,
        ground (arith, e1, e2, all, collected, e3, e4),
        o4
            ∙ ap (filter_by _) same3
            ∙ filter_by_agree _ _ (w.objects t)
                (λ p m. ap not (has_handle-shown path (w.objects t) p (w.distinct t) m)),
        s4,
      )
