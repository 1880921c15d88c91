-- ===== src/Hsm/Token.antt =====
-- The calls of github.com/miekg/pkcs11 that internal/hsm/pkcs11_cgo.go makes, as a parameter, and
-- what PKCS#11 documents of a token that works.
use hsm_secrets_operator.Common.{
  ℕ, zero, suc, ◌≡◌, List, [], ◌∷◌, ◌++◌, Bool, not, Option, none, some, map, In, Distinct,
  filter_by, Str, str_eq, ◌==◌,
}
use hsm_secrets_operator.Common.State.{State}
use hsm_secrets_operator.Hsm.{SecretMetadata}
use hsm_secrets_operator.Hsm.Errors.{Fault, call_failed, ok, err}
use hsm_secrets_operator.Hsm.Calls.{Call}
use hsm_secrets_operator.Hsm.Oids.{Oid}

-- What a call returns: a PKCS#11 error or a value.
pub data Reply (A : Type 0) : Type 0 where
  failed : Fault → Reply A
  given : A → Reply A

-- a call whose error is wrapped
abbrev pub raised : {T A : Type 0} → State T (Reply A) → Call T A
raised call t =
    let (r, t') = call t in elim r [ failed f ↦ (err (call_failed f), t') | given a ↦ (ok a, t') ]

-- CKA_LABEL and CKA_VALUE
pub data Attribute : Type 0 where
  cka_label cka_value : Attribute

-- pkcs11.TokenInfo and pkcs11.SlotInfo, as far as they are read
pub record LibraryTokenInfo : Type 0 where
  pub label : Str
  pub manufacturer_id : Str
  pub model : Str
  pub serial_number : Str
  pub flags : ℕ
  pub major : ℕ
  pub minor : ℕ

pub record LibrarySlotInfo : Type 0 where
  pub manufacturer_id : Str
  pub slot_description : Str

-- The attributes of an object that is created.
pub record Template : Type 0 where
  pub label : Str
  pub application : Str
  pub value : List ℕ
  pub token : Bool
  pub private : Bool
  pub modifiable : Bool
  pub object_id : Option (List ℕ)

-- The methods of pkcs11.Ctx. The first argument of a session's methods is its handle; a search is
-- for data objects, with a label where one is given.
pub record Pkcs11 (T : Type 0) : Type 0 where
  pub new : Str → State T Bool
  pub initialize : State T (Reply (Unit {0}))
  pub finalize : State T (Reply (Unit {0}))
  pub destroy : T → T
  pub get_slot_list : State T (Reply (List ℕ))
  pub get_token_info : ℕ → State T (Reply LibraryTokenInfo)
  pub get_slot_info : ℕ → State T (Reply LibrarySlotInfo)
  pub open_session : ℕ → State T (Reply ℕ)
  pub close_session : ℕ → State T (Reply (Unit {0}))
  pub login : ℕ → Str → State T (Reply (Unit {0}))
  pub logout : ℕ → State T (Reply (Unit {0}))
  pub set_pin : ℕ → Str → Str → State T (Reply (Unit {0}))
  pub find_objects_init : ℕ → Option Str → State T (Reply (Unit {0}))
  pub find_objects : ℕ → ℕ → State T (Reply (List ℕ))
  pub find_objects_final : ℕ → State T (Reply (Unit {0}))
  pub get_attribute_value : ℕ → ℕ → List Attribute → State T (Reply (List (List ℕ)))
  pub create_object : ℕ → Template → State T (Reply ℕ)
  pub destroy_object : ℕ → ℕ → State T (Reply (Unit {0}))

-- asn1.Marshal of an identifier, json.Marshal and json.Unmarshal of metadata, strings.TrimSpace,
-- and fmt.Sprintf("%d.%d").
pub record Codec : Type 0 where
  pub marshal_oid : Oid → Option (List ℕ)
  pub marshal : SecretMetadata → Option (List ℕ)
  pub unmarshal : List ℕ → Option SecretMetadata
  pub trim_space : Str → Str
  pub print_version : ℕ → ℕ → Str

-- pkcs11Object of internal/hsm/pkcs11_client.go
pub record Pkcs11Object : Type 0 where
  pub label : Str
  pub value : List ℕ
  pub handle : ℕ

unfoldable pub take {ℓ} : {A : Type ℓ} → ℕ → List A → List A
take zero xs = []
take (suc n) [] = []
take (suc n) (x ∷ xs) = x ∷ take n xs

-- the data objects that a search is for
abbrev pub matching : Option Str → List Pkcs11Object → List Pkcs11Object
matching none objects = objects
matching (some l) objects = filter_by (λ o. str_eq o.label l) objects

-- A token that works, in an open session: it holds data objects with distinct handles. A search may
-- begin where none is open and returns the first handles that match; attributes may be read at any
-- time; objects are created and destroyed where no search is open.
pub record Serves {T : Type 0} (lib : Pkcs11 T) (session : ℕ) : Type 0 where
  pub objects : T → List Pkcs11Object
  pub searching : T → Option (Option Str)
  pub distinct : (t : T) → Distinct (λ o. o.handle) (objects t)
  pub begins :
      (t : T) (l : Option Str)
      → searching t ≡ none
      → (t' : T) × (lib.find_objects_init session l t ≡ (given tt, t'))
        × (objects t' ≡ objects t)
        × (searching t' ≡ some l)
  pub finds :
      (t : T) (l : Option Str) (most : ℕ)
      → searching t ≡ some l
      → (t' : T) × (lib.find_objects session most t
          ≡ (given (map (λ o. o.handle) (take most (matching l (objects t)))), t'))
        × (objects t' ≡ objects t)
        × (searching t' ≡ some l)
  pub ends :
      (t : T) (l : Option Str)
      → searching t ≡ some l
      → (t' : T) × (lib.find_objects_final session t ≡ (given tt, t'))
        × (objects t' ≡ objects t)
        × (searching t' ≡ none)
  pub reads_label :
      (t : T) (o : Pkcs11Object)
      → In o (objects t)
      → lib.get_attribute_value session o.handle (cka_label ∷ []) t ≡ (given (o.label ∷ []), t)
  pub reads :
      (t : T) (o : Pkcs11Object)
      → In o (objects t)
      → lib.get_attribute_value session o.handle (cka_label ∷ cka_value ∷ []) t
        ≡ (given (o.label ∷ o.value ∷ []), t)
  pub creates :
      (t : T) (made : Template)
      → searching t ≡ none
      → (h : ℕ) × (t' : T) × (lib.create_object session made t ≡ (given h, t'))
        × (objects t'
            ≡ objects t ++ (record { label = made.label; value = made.value; handle = h } ∷ []))
        × (searching t' ≡ none)
  pub destroys :
      (t : T) (o : Pkcs11Object)
      → searching t ≡ none
      → In o (objects t)
      → (t' : T) × (lib.destroy_object session o.handle t ≡ (given tt, t'))
        × (objects t' ≡ filter_by (λ p. not (p.handle == o.handle)) (objects t))
        × (searching t' ≡ none)
