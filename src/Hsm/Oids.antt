-- ===== src/Hsm/Oids.antt =====
-- internal/hsm/oids.go: the types of secret data, their object identifiers, and how the type of a
-- value is inferred. A type is a string, and an identifier is the list of its numbers.
pub mod Laws
use hsm_secrets_operator.Common.{
  ℕ, List, [], ◌∷◌, Bool, true, false, not, ◌&&◌, ◌||◌, Option, none, some, if◌then◌else◌, ltb,
  ◌==◌, ◌%◌, Str, str, str_eq, length, Dict, get,
}
use hsm_secrets_operator.Hsm.Errors.{Error, unknown_data_type, unknown_oid, Result, ok, err}

abbrev pub Oid : Type 0
Oid = List ℕ

abbrev operator_oid : ℕ → Oid
operator_oid n = 1 ∷ 3 ∷ 6 ∷ 1 ∷ 4 ∷ 1 ∷ 99999 ∷ 1 ∷ n ∷ []

abbrev pub oid_plaintext : Oid
oid_plaintext = operator_oid 1

abbrev pub data_type_plaintext : Str
data_type_plaintext = str "plaintext"

-- The cases of the switch of GetOIDForDataType, from above.
abbrev pub oid_cases : Dict Oid
oid_cases =
    (data_type_plaintext, oid_plaintext)
    ∷ (str "json", operator_oid 2)
    ∷ (str "pem", operator_oid 3)
    ∷ (str "binary", operator_oid 4)
    ∷ (str "base64", operator_oid 5)
    ∷ (str "x509-cert", operator_oid 6)
    ∷ (str "private-key", operator_oid 7)
    ∷ (str "docker-config", operator_oid 8)
    ∷ []

-- The cases of the switch of GetDataTypeForOID, from above.
abbrev pub data_type_cases : Dict Str
data_type_cases =
    (oid_plaintext, data_type_plaintext)
    ∷ (operator_oid 2, str "json")
    ∷ (operator_oid 3, str "pem")
    ∷ (operator_oid 4, str "binary")
    ∷ (operator_oid 5, str "base64")
    ∷ (operator_oid 6, str "x509-cert")
    ∷ (operator_oid 7, str "private-key")
    ∷ (operator_oid 8, str "docker-config")
    ∷ []

-- the first case that matches, or the default
abbrev pub or_error {ℓ} : {A : Type ℓ} → Error → Option A → Result A
or_error e none = err e
or_error e (some a) = ok a

-- GetOIDForDataType
unfoldable pub get_oid_for_data_type : Str → Result Oid
get_oid_for_data_type data_type = or_error unknown_data_type (get data_type oid_cases)

-- GetDataTypeForOID
unfoldable pub get_data_type_for_oid : Oid → Result Str
get_data_type_for_oid oid = or_error unknown_oid (get oid data_type_cases)

-- the characters that the loop of isValidBase64 accepts; every byte of a character that is not ASCII
-- is above them
abbrev is_base64_char : ℕ → Bool
is_base64_char c = not (
    (ltb c 65 || ltb 90 c)
    && (ltb c 97 || ltb 122 c)
    && (ltb c 48 || ltb 57 c)
    && not (c == 43)
    && not (c == 47)
    && not (c == 61))

unfoldable all_base64 : Str → Bool
all_base64 [] = true
all_base64 (c ∷ cs) = let rest = all_base64 cs in if not (is_base64_char c) then false else rest

-- isValidBase64
unfoldable pub is_valid_base64 : Str → Bool
unfolding all_base64
is_valid_base64 s =
    if length s == 0 then false else if not (length s % 4 == 0) then false else all_base64 s

-- content[:5] == "-----" for more than 20 bytes
unfoldable pub looks_like_pem : Str → Bool
looks_like_pem (a ∷ b ∷ c ∷ d ∷ e ∷ rest) =
    ltb 15 (length rest) && str_eq (a ∷ b ∷ c ∷ d ∷ e ∷ []) (str "-----")
looks_like_pem content = false

unfoldable pub looks_like_json : Str → Bool
looks_like_json [] = false
looks_like_json (c ∷ cs) = c == 123 || c == 91

-- the loop that looks for a byte that cannot be printed
unfoldable pub has_binary : List ℕ → Bool
has_binary [] = false
has_binary (b ∷ bs) =
    let rest = has_binary bs in
    if ltb b 32 && not (b == 9) && not (b == 10) && not (b == 13) then true else rest

-- InferDataType
unfoldable pub infer_data_type : List ℕ → Str
unfolding is_valid_base64 looks_like_pem looks_like_json has_binary
infer_data_type value =
    if looks_like_pem value
    then str "pem"
    else if looks_like_json value
    then str "json"
    else if is_valid_base64 value
    then str "base64"
    else if has_binary value
    then str "binary"
    else data_type_plaintext
