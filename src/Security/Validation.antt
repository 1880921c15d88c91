-- ===== src/Security/Validation.antt =====
-- internal/security/validation.go: the validation of paths, secret data and metadata, and the
-- interceptor of gRPC requests. A regular expression is the test that it stands for.
pub mod Laws
use hsm_secrets_operator.Common.{
  ℕ, zero, suc, ◌+◌, List, [], ◌∷◌, Bool, true, false, not, ◌&&◌, ◌||◌, Option, none, some,
  if◌then◌else◌, ltb, ◌==◌, Str, str, str_eq, length, Dict,
}
use hsm_secrets_operator.Common.State.{State}
use hsm_secrets_operator.Hsm.{SecretData, SecretMetadata}
use hsm_secrets_operator.Hsm.Mock.{has_prefix}
use hsm_secrets_operator.Hsm.Hardware.{has_suffix}
use hsm_secrets_operator.Agent.Rpc.{Rpc, refused, invalid_argument}

abbrev max_secret_path_length : ℕ
max_secret_path_length = 256

abbrev max_secret_data_size : ℕ
max_secret_data_size = 1048576

abbrev max_metadata_field_length : ℕ
max_metadata_field_length = 1024

-- The errors of a path, of secret data and of metadata.
pub data Invalid : Type 0 where
  path_empty path_too_long path_has_invalid_characters path_has_forbidden_pattern : Invalid
  data_nil data_empty key_empty key_too_long key_reserved key_has_invalid_characters : Invalid
  data_too_large metadata_key_too_long metadata_value_too_long : Invalid
  metadata_key_has_invalid_characters metadata_value_has_null_bytes : Invalid

-- the class [a-zA-Z0-9/_-]
abbrev is_path_char : ℕ → Bool
is_path_char c =
    (not (ltb c 97) && not (ltb 122 c))
    || (not (ltb c 65) && not (ltb 90 c))
    || (not (ltb c 48) && not (ltb 57 c))
    || c == 47
    || c == 95
    || c == 45

unfoldable all_path_chars : Str → Bool
all_path_chars [] = true
all_path_chars (c ∷ s) = let rest = all_path_chars s in is_path_char c && rest

abbrev pub is_blank : Str → Bool
is_blank [] = true
is_blank (c ∷ s) = false

-- validPathPattern
unfoldable pub valid_path_pattern : Str → Bool
unfolding all_path_chars
valid_path_pattern s = not (is_blank s) && all_path_chars s

-- a pattern that stands somewhere in a string
unfoldable pub contains : Str → Str → Bool
contains p [] = has_prefix [] p
contains p (c ∷ s) = let rest = contains p s in if has_prefix (c ∷ s) p then true else rest

-- forbiddenPatterns, of which one matches
unfoldable pub matches_forbidden : Str → Bool
unfolding contains
matches_forbidden s =
    contains (str "..") s
    || contains (str "//") s
    || has_prefix s (str "/")
    || has_suffix s (str "/")
    || has_suffix s (str "_metadata")

-- ValidateSecretPath; `none` is no error
unfoldable pub validate_secret_path : Str → Option Invalid
unfolding valid_path_pattern matches_forbidden
validate_secret_path path =
    if is_blank path
    then some path_empty
    else if ltb max_secret_path_length (length path)
    then some path_too_long
    else if not (valid_path_pattern path)
    then some path_has_invalid_characters
    else if matches_forbidden path
    then some path_has_forbidden_pattern
    else none

-- the checks of ValidateSecretData on one key
unfoldable pub validate_key : Str → Option Invalid
unfolding valid_path_pattern
validate_key key =
    if is_blank key
    then some key_empty
    else if ltb max_metadata_field_length (length key)
    then some key_too_long
    else if has_suffix key (str "_metadata")
    then some key_reserved
    else if not (valid_path_pattern key)
    then some key_has_invalid_characters
    else none

-- the loop of ValidateSecretData, with the size of the entries before
unfoldable pub validate_entries : SecretData → ℕ → Option Invalid
unfolding validate_key
validate_entries [] size = none
validate_entries ((key, value) ∷ data') size = elim (validate_key key) [
  | some e ↦ some e
  | none ↦
      let rest = validate_entries data' (size + length value) in
      if ltb max_secret_data_size (size + length value) then some data_too_large else rest
]

-- ValidateSecretData; the map may be nil
unfoldable pub validate_secret_data : Option SecretData → Option Invalid
unfolding validate_entries
validate_secret_data none = some data_nil
validate_secret_data (some []) = some data_empty
validate_secret_data (some (e ∷ data')) = validate_entries (e ∷ data') 0

-- strings.ContainsAny
unfoldable contains_any : Str → List ℕ → Bool
contains_any [] set = false
contains_any (c ∷ s) set = let rest = contains_any s set in if is_in c set then true else rest
  where
    is_in : ℕ → List ℕ → Bool
    is_in c [] = false
    is_in c (d ∷ set) = let rest = is_in c set in if c == d then true else rest

-- the checks of ValidateMetadata on one entry
unfoldable validate_field : Str → Str → Option Invalid
unfolding contains_any
validate_field key value =
    if ltb max_metadata_field_length (length key)
    then some metadata_key_too_long
    else if ltb max_metadata_field_length (length value)
    then some metadata_value_too_long
    else if contains_any key (0 ∷ 10 ∷ 13 ∷ [])
    then some metadata_key_has_invalid_characters
    else if contains_any value (0 ∷ [])
    then some metadata_value_has_null_bytes
    else none

unfoldable validate_fields : Dict Str → Option Invalid
unfolding validate_field
validate_fields [] = none
validate_fields ((key, value) ∷ fields) =
    let rest = validate_fields fields in
    elim (validate_field key value) [ some e ↦ some e | none ↦ rest ]

-- ValidateMetadata; the map may be nil
unfoldable validate_metadata : Option (Dict Str) → Option Invalid
unfolding validate_fields
validate_metadata none = none
validate_metadata (some fields) = validate_fields fields

-- ValidationInterceptor on a request with a path. Its cases for secret data and metadata ask for
-- methods that return interfaces; the generated methods return pointers, so no request has them.
unfoldable pub intercept : {W A : Type 0} → Str → State W (Rpc A) → State W (Rpc A)
intercept path handler w = elim (validate_secret_path path) [
  | some e ↦ (refused invalid_argument, w)
  | none ↦ handler w
]
