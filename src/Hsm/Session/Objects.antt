-- ===== src/Hsm/Session/Objects.antt =====
-- internal/hsm/pkcs11_cgo.go: the data objects of a token, found, created and deleted in a session.
use hsm_secrets_operator.Common.{
  ℕ, ◌+◌, List, [], ◌∷◌, Bool, true, false, not, ◌&&◌, Option, none, some, if◌then◌else◌, Str, str,
  ◌==◌, length,
}
use hsm_secrets_operator.Common.State.{State}
use hsm_secrets_operator.Hsm.Mock.{has_prefix}
use hsm_secrets_operator.Hsm.Errors.{
  session_missing, label_not_found, call_failed, deletions_failed, Result, ok, err,
}
use hsm_secrets_operator.Hsm.Oids.{Oid, oid_plaintext, get_oid_for_data_type, infer_data_type}
use hsm_secrets_operator.Hsm.Calls.{Call, fail, ◌>>=◌, ◌>>◌}
use hsm_secrets_operator.Hsm.Token.{
  failed, given, cka_label, cka_value, Template, Pkcs11, Codec, Pkcs11Object, raised,
}
use hsm_secrets_operator.Hsm.Session.{Session, is_empty}

-- the object that the attributes of findObjectsPKCS11 make, unless it is skipped
unfoldable pub object_of : Str → ℕ → List (List ℕ) → Option Pkcs11Object
object_of path h [] = none
object_of path h (l ∷ []) = none
object_of path h (l ∷ v ∷ more) =
    if is_empty l
    then none
    else if not (is_empty path) && not (has_prefix l path)
    then none
    else some (record { label = l; value = v; handle = h })

-- whether deleteSecretObjectsPKCS11 collects an object with these attributes
unfoldable pub is_collected : Str → List (List ℕ) → Bool
is_collected path [] = false
is_collected path (l ∷ more) = if is_empty l then false else has_prefix l path

-- the object identifier of a new object; the plain-text one is the fallback
abbrev oid_of : Result Oid → Oid
oid_of (err e) = oid_plaintext
oid_of (ok oid) = oid

abbrev cons_some {ℓ} : {A : Type ℓ} → Option A → List A → List A
cons_some none xs = xs
cons_some (some x) xs = x ∷ xs

module _ {T : Type 0} (lib : Pkcs11 T) (codec : Codec) where
  -- FindObjects, with FindObjectsFinal where it fails
  abbrev find_or_final : Session → ℕ → Call T (List ℕ)
  find_or_final s most t =
      let (r, t') = lib.find_objects s.handle most t in
      elim r [
        | failed f ↦ let (e, t'') = lib.find_objects_final s.handle t' in (err (call_failed f), t'')
        | given handles ↦ (ok handles, t')
      ]

  -- one round of the loop of findObjectsPKCS11
  unfoldable pub read_object : Session → Str → ℕ → State T (Option Pkcs11Object)
  unfolding object_of
  read_object s path h t =
      let (r, t') = lib.get_attribute_value s.handle h (cka_label ∷ cka_value ∷ []) t in
      elim r [ failed f ↦ (none, t') | given values ↦ (object_of path h values, t') ]

  unfoldable pub read_objects : Session → Str → List ℕ → State T (List Pkcs11Object)
  unfolding read_object
  read_objects s path [] t = ([], t)
  read_objects s path (h ∷ hs) t =
      let (o, t') = read_object s path h t in
      let (os, t'') = read_objects s path hs t' in (cons_some o os, t'')

  -- findObjectsPKCS11
  unfoldable pub find_objects_pkcs11 : Option Session → Str → Call T (List Pkcs11Object)
  unfolding read_objects
  find_objects_pkcs11 none path = fail session_missing
  find_objects_pkcs11 (some s) path = do
    raised (lib.find_objects_init s.handle none)
    handles ← find_or_final s 100
    raised (lib.find_objects_final s.handle)
    (λ t. let (os, t') = read_objects s path handles t in (ok os, t'))

  -- the attributes of a new object
  unfoldable pub template_of : Str → List ℕ → Template
  template_of label value = record {
    label = label;
    application = str "hsm-secrets-operator";
    value = value;
    token = true;
    private = true;
    modifiable = true;
    object_id = codec.marshal_oid (oid_of (get_oid_for_data_type (infer_data_type value)));
  }

  -- createObjectPKCS11
  unfoldable pub create_object_pkcs11 : Option Session → Str → List ℕ → Call T ℕ
  create_object_pkcs11 none label value = fail session_missing
  create_object_pkcs11 (some s) label value =
      raised (lib.create_object s.handle (template_of label value))

  -- the loop of deleteSecretObjectsPKCS11 that collects handles
  unfoldable pub collect_object : Session → Str → ℕ → State T Bool
  unfolding is_collected
  collect_object s path h t =
      let (r, t') = lib.get_attribute_value s.handle h (cka_label ∷ []) t in
      elim r [ failed f ↦ (false, t') | given values ↦ (is_collected path values, t') ]

  unfoldable pub collect_objects : Session → Str → List ℕ → State T (List ℕ)
  unfolding collect_object
  collect_objects s path [] t = ([], t)
  collect_objects s path (h ∷ hs) t =
      let (collected, t') = collect_object s path h t in
      let (rest, t'') = collect_objects s path hs t' in (if collected then h ∷ rest else rest, t'')

  -- the loop that destroys them and counts the errors
  unfoldable pub destroy_objects : Session → List ℕ → ℕ → State T ℕ
  destroy_objects s [] errors t = (errors, t)
  destroy_objects s (h ∷ hs) errors t =
      let (r, t') = lib.destroy_object s.handle h t in
      destroy_objects s hs (elim r [ failed f ↦ errors + 1 | given u ↦ errors ]) t'

  unfoldable pub destroy_collected : Session → List ℕ → Call T (Unit {0})
  unfolding destroy_objects
  destroy_collected s collected t =
      let (errors, t') = destroy_objects s collected 0 t in
      (if errors == 0 then ok tt else err (deletions_failed errors (length collected)), t')

  -- deleteSecretObjectsPKCS11
  unfoldable pub delete_secret_objects_pkcs11 : Option Session → Str → Call T (Unit {0})
  unfolding collect_objects destroy_collected
  delete_secret_objects_pkcs11 none path = fail session_missing
  delete_secret_objects_pkcs11 (some s) path = do
    raised (lib.find_objects_init s.handle none)
    handles ← find_or_final s 100
    collected ← (λ t. let (hs, t') = collect_objects s path handles t in (ok hs, t'))
    raised (lib.find_objects_final s.handle)
    destroy_collected s collected

  unfoldable destroy_first : Session → Str → List ℕ → Call T (Unit {0})
  destroy_first s label [] = fail (label_not_found label)
  destroy_first s label (h ∷ hs) = raised (lib.destroy_object s.handle h)

  -- deleteSecretKeyPKCS11
  unfoldable pub delete_secret_key_pkcs11 : Option Session → Str → Call T (Unit {0})
  unfolding destroy_first
  delete_secret_key_pkcs11 none label = fail session_missing
  delete_secret_key_pkcs11 (some s) label = do
    raised (lib.find_objects_init s.handle (some label))
    handles ← find_or_final s 1
    raised (lib.find_objects_final s.handle)
    destroy_first s label handles
