-- ===== src/Hsm/Hardware/Laws.antt =====
-- What the methods of internal/hsm/pkcs11_client.go do on a token that works, in a session that is
-- open and in which no search is.
use hsm_secrets_operator.Common.{
  ℕ, ◌≤◌, ◌≡◌, refl, sym, ap, ◌∙◌, List, [], ◌∷◌, ◌++◌, true, none, some, Str, put, length,
  filter_by, arith,
}
use mathlib.Core.List.{append_assoc}
use hsm_secrets_operator.Hsm.{SecretData, SecretMetadata}
use hsm_secrets_operator.Hsm.Errors.{ok}
use hsm_secrets_operator.Hsm.Calls.{◌>>=◌, ◌>>◌}
use hsm_secrets_operator.Hsm.Token.{Pkcs11, Codec, Pkcs11Object, Serves}
use hsm_secrets_operator.Hsm.Session.{Session}
use hsm_secrets_operator.Hsm.Session.Laws.{
  is_shown, is_kept, take-all, find_objects_lem, create_object_lem, delete_secret_objects_lem,
}
use hsm_secrets_operator.Hsm.Hardware.{
  Pkcs11Client, label_of, create_key, forget, find_label, secret_of, metadata_of,
  metadata_key_suffix, read_secret, read_metadata, write_keys, write_metadata, write_json,
  write_secret, delete_secret,
}
use hsm_secrets_operator.Hsm.Hardware.Labels.{append_nil}
use hsm_secrets_operator.Hsm.Hardware.Written.{Holds, written}

module _ {T : Type 0} (lib : Pkcs11 T) (codec : Codec) where
  write_keys_nil :
      (path : Str) (world : Pkcs11Client × T) → write_keys lib codec path [] world ≡ (ok tt, world)
  unfolding write_keys
  write_keys_nil path world = refl

  write_keys_cons :
      (path key : Str) (value : List ℕ) (data' : SecretData) (world world' : Pkcs11Client × T)
      → create_key lib codec (label_of path key) value world ≡ (ok tt, world')
      → write_keys lib codec path ((key, value) ∷ data') world
        ≡ write_keys lib codec path data' world'
  unfolding write_keys create_key
  write_keys_cons path key value data' world world' e = rw (write_keys, ◌>>◌, ◌>>=◌, e, e) refl

module _ {T : Type 0} (lib : Pkcs11 T) (codec : Codec) (s : Session) (w : Serves lib s.handle) where
  -- The client is connected in the session, and no search is open there.
  abbrev pub IsReady : Pkcs11Client × T → Type 0
  IsReady (c, t) = (c.connected ≡ true) × (c.session ≡ some s) × (w.searching t ≡ none)

  -- Reading depends on the objects that a search for the path finds.
  pub read_secret_lem :
      (path : Str) (c : Pkcs11Client) (t : T)
      → IsReady (c, t)
      → length (w.objects t) ≤ 100
      → (t' : T) × (read_secret lib codec path (c, t)
          ≡ (secret_of path (filter_by (is_shown path) (w.objects t)), (c, t')))
        × (w.objects t' ≡ w.objects t)
        × (w.searching t' ≡ none)
  unfolding read_secret
  read_secret_lem path c t (on, opened, idle) few =
      let (t', e, o, i) = find_objects_lem lib codec s w path t idle in
      let all = take-all 100 (w.objects t) few in (t', ground (arith, on, opened, e, all), o, i)

  -- Reading metadata depends on the first object that has the label.
  pub read_metadata_lem :
      (path : Str) (c : Pkcs11Client) (t : T)
      → IsReady (c, t)
      → length (w.objects t) ≤ 100
      → (t' : T) × (read_metadata lib codec path (c, t) ≡ (
        metadata_of lib codec path (
            find_label
              (path ++ metadata_key_suffix)
              (filter_by (is_shown (path ++ metadata_key_suffix)) (w.objects t))),
        (c, t'),
      ))
        × (w.objects t' ≡ w.objects t)
        × (w.searching t' ≡ none)
  unfolding read_metadata
  read_metadata_lem path c t (on, opened, idle) few =
      let (t', e, o, i) = find_objects_lem lib codec s w (path ++ metadata_key_suffix) t idle in
      let all = take-all 100 (w.objects t) few in (t', ground (arith, on, opened, e, all), o, i)

  -- Creating an object for a label puts it behind those that are there.
  create_key_lem :
      (name : Str) (value : List ℕ) (c : Pkcs11Client) (t : T)
      → IsReady (c, t)
      → (c' : Pkcs11Client) × (t' : T) × (h : ℕ) × (create_key lib codec name value (c, t)
          ≡ (ok tt, (c', t')))
        × (w.objects t' ≡ w.objects t ++ (record { label = name; value = value; handle = h } ∷ []))
        × IsReady (c', t')
  unfolding create_key
  create_key_lem name value c t (on, opened, idle) =
      let (h, t', e, o, i) = create_object_lem lib codec s w name value t idle in
      (
        record c { data_objects = put name h c.data_objects },
        t',
        h,
        ground (arith, opened, e),
        o,
        (on, opened, i),
      )

  -- Writing keys puts an object for each of them behind those that are there.
  write_keys_lem :
      (path : Str) (data' : SecretData) (c : Pkcs11Client) (t : T)
      → IsReady (c, t)
      → (c' : Pkcs11Client) × (t' : T) × (os : List Pkcs11Object) × (write_keys lib codec path data'
            (c, t)
          ≡ (ok tt, (c', t')))
        × Holds path data' os
        × (w.objects t' ≡ w.objects t ++ os)
        × IsReady (c', t')
  write_keys_lem path [] c t ready =
      (c, t, [], write_keys_nil lib codec path (c, t), tt, sym (append_nil (w.objects t)), ready)
  write_keys_lem path ((key, value) ∷ data') c t ready =
      let (c1, t1, h, e, o, ready1) = create_key_lem (label_of path key) value c t ready in
      let (c', t', os, f, held, p, ready') = write_keys_lem path data' c1 t1 ready1 in
      (
        c',
        t',
        record { label = label_of path key; value = value; handle = h } ∷ os,
        write_keys_cons lib codec path key value data' (c, t) (c1, t1) e ∙ f,
        (refl, refl, held),
        p ∙ ap (λ r. r ++ os) o ∙ append_assoc (w.objects t) _ os,
        ready',
      )

  -- A write on a path with metadata replaces what begins with the path by the objects of the keys
  -- and of the metadata.
  pub write_secret_lem :
      (path : Str) (data' : SecretData) (md : SecretMetadata) (json : List ℕ) (c : Pkcs11Client)
      (t : T)
      → IsReady (c, t)
      → length (w.objects t) ≤ 100
      → codec.marshal md ≡ some json
      → (c' : Pkcs11Client) × (t' : T) × (os : List Pkcs11Object) × (h : ℕ) × (write_secret lib
            codec path data'
            (some md)
            (c, t)
          ≡ (ok tt, (c', t')))
        × Holds path data' os
        × (w.objects t'
            ≡ written path
                (w.objects t)
                os
                (record { label = path ++ metadata_key_suffix; value = json; handle = h }))
        × IsReady (c', t')
  unfolding write_secret write_metadata write_json
  write_secret_lem path data' md json c t (on, opened, idle) few made =
      let (t1, e1, o1, i1) = delete_secret_objects_lem lib codec s w path t idle few in
      let (c2, t2, os, e2, held, o2, ready2) = write_keys_lem path data' c t1 (on, opened, i1) in
      let (c3, t3, h, e3, o3, ready3) =
        create_key_lem (path ++ metadata_key_suffix) json c2 t2 ready2 in
      (
        c3,
        t3,
        os,
        h,
        ground (arith, on, opened, e1, e2, e3, made),
        held,
        o3
            ∙ ap
                (λ r.
                  r
                  ++ (record { label = path ++ metadata_key_suffix; value = json; handle = h }
                      ∷ []))
                (o2 ∙ ap (λ r. r ++ os) o1)
            ∙ append_assoc (filter_by (is_kept path) (w.objects t)) os _,
        ready3,
      )

  -- A deletion takes away what begins with the path.
  pub delete_secret_lem :
      (path : Str) (c : Pkcs11Client) (t : T)
      → IsReady (c, t)
      → length (w.objects t) ≤ 100
      → (c' : Pkcs11Client) × (t' : T) × (delete_secret lib codec path (c, t) ≡ (ok tt, (c', t')))
        × (w.objects t' ≡ filter_by (is_kept path) (w.objects t))
        × IsReady (c', t')
  unfolding delete_secret
  delete_secret_lem path c t (on, opened, idle) few =
      let (t1, e1, o1, i1) = delete_secret_objects_lem lib codec s w path t idle few in
      (
        record c { data_objects = forget path c.data_objects },
        t1,
        ground (arith, on, opened, e1),
        o1,
        (on, opened, i1),
      )
