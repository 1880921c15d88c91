-- ===== src/Hsm/Hardware/Store.antt =====
-- PKCS11Client of internal/hsm/pkcs11_client.go as a store of secrets: what is written is read back,
-- and what is deleted is gone.
use hsm_secrets_operator.Common.{
  ℕ, suc, ◌+◌, ◌≤◌, ◌≡◌, refl, sym, ap, ◌∙◌, ◌⊎◌, inl, inr, List, [], ◌∷◌, ◌++◌, ◌&&◌, false, some,
  Bool-cases, Str, length, filter_by, length-filter_by, length-append, filter_by-filter_by,
  filter_by_agree, arith,
}
use hsm_secrets_operator.Hsm.{SecretData, SecretMetadata}
use hsm_secrets_operator.Hsm.Errors.{ok, err, secret_not_found, metadata_not_found}
use hsm_secrets_operator.Hsm.Mock.{has_prefix}
use hsm_secrets_operator.Hsm.Token.{Pkcs11, Codec, Pkcs11Object, Serves}
use hsm_secrets_operator.Hsm.Session.{Session, is_empty}
use hsm_secrets_operator.Hsm.Session.Laws.{is_shown, is_kept}
use hsm_secrets_operator.Hsm.Hardware.{
  Pkcs11Client, secret_of, metadata_of, find_label, metadata_key_suffix, read_secret, read_metadata,
  write_secret, delete_secret,
}
use hsm_secrets_operator.Hsm.Hardware.Labels.{
  IsApart, append_nil, has_prefix_shorter, has_prefix-append, has_prefix-IsApart, has_suffix-append,
}
use hsm_secrets_operator.Hsm.Hardware.Written.{
  Holds, IsPlain, written, shown_written, shown_elsewhere, find_written, secret_of-Holds,
  kept_elsewhere, shown_deleted,
}
use hsm_secrets_operator.Hsm.Hardware.Laws.{
  IsReady, read_secret_lem, read_metadata_lem, write_secret_lem, delete_secret_lem,
}

-- A path apart from another is apart from the other's metadata too.
IsApart-metadata : (p q : Str) → IsApart p q → IsApart p (q ++ metadata_key_suffix)
IsApart-metadata p q (a, b) = (
  elim (Bool-cases (has_prefix p (q ++ metadata_key_suffix))) [
    | inr n ↦ n
    | inl y ↦ cc (a, has_prefix_shorter p q metadata_key_suffix y)
  ],
  has_prefix-IsApart (q ++ metadata_key_suffix) q p (b, a)
      (has_prefix-append q metadata_key_suffix),
)

length-Holds :
    (path : Str) (data' : SecretData) (os : List Pkcs11Object)
    → Holds path data' os
    → length os ≡ length data'
length-Holds path [] [] h = refl
length-Holds path [] (o ∷ os) h = absurd h
length-Holds path ((key, value) ∷ data') [] h = absurd h
length-Holds path ((key, value) ∷ data') (o ∷ os) (e, f, h) = ap suc (length-Holds path data' os h)

-- A write adds at most the objects of the keys and one more.
length-written :
    (path : Str) (data' : SecretData) (before os : List Pkcs11Object) (m : Pkcs11Object)
    → Holds path data' os
    → length (written path before os m) ≤ length before + length data' + 1
length-written path data' before os m h =
    let a = length-append (filter_by (is_kept path) before) (os ++ (m ∷ [])) in
    let b = length-append os (m ∷ []) in
    let c = length-filter_by (is_kept path) before in
    let d = length-Holds path data' os h in omega arith

shown_deleted_self :
    (path : Str) (before : List Pkcs11Object)
    → filter_by (is_shown path) (filter_by (is_kept path) before) ≡ []
shown_deleted_self path before =
    ap (λ p. filter_by (is_shown p) (filter_by (is_kept path) before)) (sym (append_nil path))
    ∙ shown_deleted path [] before

-- A deletion hides nothing from a path that stands apart.
elsewhere :
    (path q : Str) (before : List Pkcs11Object)
    → IsApart path q
    → filter_by (is_shown q) (filter_by (is_kept path) before) ≡ filter_by (is_shown q) before
elsewhere path q before apart =
    filter_by-filter_by (is_kept path) (is_shown q) before
    ∙ filter_by_agree (λ o. is_kept path o && is_shown q o) (is_shown q) before
        (λ o i. kept_elsewhere path q o apart)

module _ {T : Type 0} (lib : Pkcs11 T) (codec : Codec) (s : Session) (w : Serves lib s.handle) where
  -- What two worlds answer to reads of a path.
  abbrev pub Agrees : Str → Pkcs11Client × T → Pkcs11Client × T → Type 0
  Agrees q world before =
      ((read_secret lib codec q world).0 ≡ (read_secret lib codec q before).0)
      × ((read_metadata lib codec q world).0 ≡ (read_metadata lib codec q before).0)

  -- Reads of a path agree where the objects that are found do.
  agrees :
      (q : Str) (c c' : Pkcs11Client) (t t' : T)
      → IsReady lib codec s w (c, t)
      → IsReady lib codec s w (c', t')
      → length (w.objects t) ≤ 100
      → length (w.objects t') ≤ 100
      → ((p : Str)
          → (p ≡ q) ⊎ (p ≡ q ++ metadata_key_suffix)
          → filter_by (is_shown p) (w.objects t') ≡ filter_by (is_shown p) (w.objects t))
      → Agrees q (c', t') (c, t)
  agrees q c c' t t' ready ready' few few' same =
      let (t1, e1, o1, i1) = read_secret_lem lib codec s w q c t ready few in
      let (t2, e2, o2, i2) = read_secret_lem lib codec s w q c' t' ready' few' in
      let (t3, e3, o3, i3) = read_metadata_lem lib codec s w q c t ready few in
      let (t4, e4, o4, i4) = read_metadata_lem lib codec s w q c' t' ready' few' in
      (
        ap (λ r. r.0) e2 ∙ ap (secret_of q) (same q (inl refl)) ∙ sym (ap (λ r. r.0) e1),
        ap (λ r. r.0) e4
            ∙ ap (λ os. metadata_of lib codec q (find_label (q ++ metadata_key_suffix) os))
                (same (q ++ metadata_key_suffix) (inr refl))
            ∙ sym (ap (λ r. r.0) e3),
      )

  metadata_of-some :
      (path : Str) (json : List ℕ) (md : SecretMetadata)
      → codec.unmarshal json ≡ some md
      → metadata_of lib codec path (some json) ≡ ok md
  unfolding metadata_of
  metadata_of-some path json md h = rw (metadata_of, h) refl

  -- Where at most a hundred objects stand at the token with those of the new secret, a write of a
  -- plain secret with at least one key, at a path that is not empty and with metadata that survives
  -- its JSON, succeeds; the path then reads back the data and the metadata, and every path of which
  -- neither it nor the written path begins with the other reads as before.
  pub read_secret-write_secret :
      (path : Str) (data' : SecretData) (md : SecretMetadata) (json : List ℕ) (c : Pkcs11Client)
      (t : T)
      → IsReady lib codec s w (c, t)
      → length (w.objects t) + length data' + 1 ≤ 100
      → codec.marshal md ≡ some json
      → codec.unmarshal json ≡ some md
      → is_empty path ≡ false
      → is_empty data' ≡ false
      → IsPlain path data'
      → let (r, world) = write_secret lib codec path data' (some md) (c, t) in
        (r ≡ ok tt)
        × IsReady lib codec s w world
        × (length (w.objects world.1) ≤ length (w.objects t) + length data' + 1)
        × ((read_secret lib codec path world).0 ≡ ok data')
        × ((read_metadata lib codec path world).0 ≡ ok md)
        × ((q : Str) → IsApart path q → Agrees q world (c, t))
  read_secret-write_secret path data' md json c t ready room made parsed filled some_key plain =
      let few : length (w.objects t) ≤ 100 = omega arith in
      let (c', t', os, h, e, held, o, ready') =
        write_secret_lem lib codec s w path data' md json c t ready few made in
      let m : Pkcs11Object = record {
        label = path ++ metadata_key_suffix;
        value = json;
        handle = h;
      } in
      let bound = length-written path data' (w.objects t) os m held in
      let count : length (w.objects t') ≤ length (w.objects t) + length data' + 1 = rw o bound in
      let few' : length (w.objects t') ≤ 100 = omega arith in
      let (t1, e1, o1, i1) = read_secret_lem lib codec s w path c' t' ready' few' in
      let (t2, e2, o2, i2) = read_metadata_lem lib codec s w path c' t' ready' few' in
      rw e (
        refl,
        ready',
        count,
        ap (λ r. r.0) e1
            ∙ ap (λ os. secret_of path (filter_by (is_shown path) os)) o
            ∙ ap (secret_of path) (shown_written path data' (w.objects t) os m held refl filled)
            ∙ secret_of-Holds path data' os m held plain some_key
                (has_suffix-append path metadata_key_suffix refl),
        ap (λ r. r.0) e2
            ∙ ap
                (λ os. metadata_of lib codec path (
                  find_label (path ++ metadata_key_suffix)
                    (filter_by (is_shown (path ++ metadata_key_suffix)) os)))
                o
            ∙ ap (metadata_of lib codec path) (
                find_written path data' (w.objects t) os m held refl filled
                  (λ k v i. (plain.1 k v i).1))
            ∙ metadata_of-some path json md parsed,
        λ q apart. agrees q c c' t t' ready ready' few few' (λ p which.
            ap (filter_by (is_shown p)) o
            ∙ shown_elsewhere path data' (w.objects t) os m held refl p
                (elim which [ inl f ↦ rw f apart | inr f ↦ rw f (IsApart-metadata path q apart) ])),
      )

  -- On a connected client, where at most a hundred objects stand at the token, a deletion succeeds
  -- whether the secret is there or not; the path then has neither data nor metadata, and every path
  -- of which neither it nor the deleted path begins with the other reads as before.
  pub read_secret-delete_secret :
      (path : Str) (c : Pkcs11Client) (t : T)
      → IsReady lib codec s w (c, t)
      → length (w.objects t) ≤ 100
      → let (r, world) = delete_secret lib codec path (c, t) in
        (r ≡ ok tt)
        × IsReady lib codec s w world
        × (length (w.objects world.1) ≤ length (w.objects t))
        × ((read_secret lib codec path world).0 ≡ err (secret_not_found path))
        × ((read_metadata lib codec path world).0 ≡ err (metadata_not_found path))
        × ((q : Str) → IsApart path q → Agrees q world (c, t))
  unfolding secret_of metadata_of find_label
  read_secret-delete_secret path c t ready few =
      let (c', t', e, o, ready') = delete_secret_lem lib codec s w path c t ready few in
      let count : length (w.objects t') ≤ length (w.objects t) =
        rw o (length-filter_by (is_kept path) (w.objects t)) in
      let few' : length (w.objects t') ≤ 100 = omega arith in
      let (t1, e1, o1, i1) = read_secret_lem lib codec s w path c' t' ready' few' in
      let (t2, e2, o2, i2) = read_metadata_lem lib codec s w path c' t' ready' few' in
      rw e (
        refl,
        ready',
        count,
        ap (λ r. r.0) e1
            ∙ ap (λ os. secret_of path (filter_by (is_shown path) os)) o
            ∙ ap (secret_of path) (shown_deleted_self path (w.objects t)),
        ap (λ r. r.0) e2
            ∙ ap
                (λ os. metadata_of lib codec path (
                  find_label (path ++ metadata_key_suffix)
                    (filter_by (is_shown (path ++ metadata_key_suffix)) os)))
                o
            ∙ ap (λ os. metadata_of lib codec path (find_label (path ++ metadata_key_suffix) os))
                (shown_deleted path metadata_key_suffix (w.objects t)),
        λ q apart. agrees q c c' t t' ready ready' few few' (λ p which.
            ap (filter_by (is_shown p)) o
            ∙ elsewhere path p (w.objects t)
                (elim which [ inl f ↦ rw f apart | inr f ↦ rw f (IsApart-metadata path q apart) ])),
      )

  -- On a connected client, where at most a hundred objects stand at the token, a deletion also
  -- removes every secret whose path is longer and begins with the path that was named, with or
  -- without a slash between: reading it reports that it is not there.
  pub delete_secret-longer :
      (path more : Str) (c : Pkcs11Client) (t : T)
      → IsReady lib codec s w (c, t)
      → length (w.objects t) ≤ 100
      → let (r, world) = delete_secret lib codec path (c, t) in
        (r ≡ ok tt)
        × ((read_secret lib codec (path ++ more) world).0 ≡ err (secret_not_found (path ++ more)))
  unfolding secret_of
  delete_secret-longer path more c t ready few =
      let (c', t', e, o, ready') = delete_secret_lem lib codec s w path c t ready few in
      let count : length (w.objects t') ≤ length (w.objects t) =
        rw o (length-filter_by (is_kept path) (w.objects t)) in
      let few' : length (w.objects t') ≤ 100 = omega arith in
      let (t1, e1, o1, i1) = read_secret_lem lib codec s w (path ++ more) c' t' ready' few' in
      rw e (
        refl,
        ap (λ r. r.0) e1
            ∙ ap (λ os. secret_of (path ++ more) (filter_by (is_shown (path ++ more)) os)) o
            ∙ ap (secret_of (path ++ more)) (shown_deleted path more (w.objects t)),
      )
