-- ===== src/Hsm/Oids/Laws.antt =====
-- GetOIDForDataType and GetDataTypeForOID of internal/hsm/oids.go undo each other, and every type
-- that InferDataType infers has an identifier.
use hsm_secrets_operator.Common.{
  ℕ, ◌≡◌, refl, ◌↔◌, List, [], ◌∷◌, Bool, true, false, not, ◌&&◌, Option, none, some, if◌then◌else◌,
  Str, str, str_eq, str_eq_iff, Dict, get, arith,
}
use hsm_secrets_operator.Hsm.Errors.{Error, ok}
use hsm_secrets_operator.Hsm.Oids.{
  Oid, oid_cases, data_type_cases, get_oid_for_data_type, get_data_type_for_oid, infer_data_type,
  looks_like_pem, looks_like_json, is_valid_base64, has_binary, data_type_plaintext, or_error,
}

abbrev present : Option Str → Bool
present none = false
present (some a) = true

-- A table read from its right column.
unfoldable turned : Dict Str → Dict Str
turned [] = []
turned ((k, v) ∷ m) = (v, k) ∷ turned m

-- Neither column has an entry twice.
unfoldable is_one_to_one : Dict Str → Bool
is_one_to_one [] = true
is_one_to_one ((k, v) ∷ m) =
    not (present (get k m)) && not (present (get v (turned m))) && is_one_to_one m

get-turned :
    (m : Dict Str) (k v : Str)
    → is_one_to_one m ≡ true
    → get k m ≡ some v
    → get v (turned m) ≡ some k
unfolding get turned is_one_to_one
get-turned [] k v one h = cc
get-turned ((j, w) ∷ m) k v one h = ground (arith, str_eq_iff j k, str_eq_iff w v, get-turned m k v)

-- The cases of each switch are those of the other, turned.
turned-oid_cases :
    (turned oid_cases ≡ data_type_cases)
    × (is_one_to_one oid_cases ≡ true)
    × (turned data_type_cases ≡ oid_cases)
    × (is_one_to_one data_type_cases ≡ true)
unfolding turned is_one_to_one get str_eq
turned-oid_cases = (refl, refl, refl, refl)

was_some : (e : Error) {v : Str} (o : Option Str) → or_error e o ≡ ok v → o ≡ some v
was_some e none h = cc
was_some e (some a) h = cc

-- A type has an identifier exactly where that identifier has the type.
pub get_data_type_for_oid-get_oid_for_data_type :
    (t : Str) (oid : Oid) → (get_oid_for_data_type t ≡ ok oid) ↔ (get_data_type_for_oid oid ≡ ok t)
unfolding get_oid_for_data_type get_data_type_for_oid
get_data_type_for_oid-get_oid_for_data_type t oid =
    let (e, one, f, other) = turned-oid_cases in
    (
      λ h.
          let found = get-turned oid_cases t oid one (was_some _ (get t oid_cases) h) in
          let moved : get oid data_type_cases ≡ some t = cc (e, found) in rw moved,
      λ h.
          let found =
            get-turned data_type_cases oid t other (was_some _ (get oid data_type_cases) h) in
          let moved : get t oid_cases ≡ some oid = cc (f, found) in rw moved,
    )

chosen :
    (a b c d : Bool)
    → (oid : Oid) × (get_oid_for_data_type (
          if a
          then str "pem"
          else if b
          then str "json"
          else if c
          then str "base64"
          else if d
          then str "binary"
          else data_type_plaintext)
        ≡ ok oid)
unfolding get_oid_for_data_type get str_eq
chosen true b c d = (_, refl)
chosen false true c d = (_, refl)
chosen false false true d = (_, refl)
chosen false false false true = (_, refl)
chosen false false false false = (_, refl)

-- Every type that is inferred has an identifier.
infer_data_type-get_oid_for_data_type :
    (value : List ℕ) → (oid : Oid) × (get_oid_for_data_type (infer_data_type value) ≡ ok oid)
unfolding infer_data_type
infer_data_type-get_oid_for_data_type value =
    chosen (looks_like_pem value) (looks_like_json value) (is_valid_base64 value) (has_binary value)
