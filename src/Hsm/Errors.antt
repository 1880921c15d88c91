-- ===== src/Hsm/Errors.antt =====
-- The errors of internal/hsm, one for each message; the text of a message is left out.
use hsm_secrets_operator.Common.{ℕ, Bool, true, false, Str, ℤ}

-- An error of a PKCS#11 call: a code that isTokenLostError names, or another.
pub data Fault : Type 0 where
  ckr_token_not_present ckr_device_removed ckr_device_error ckr_session_handle_invalid : Fault
  ckr_other : ℕ → Fault

pub data Error : Type 0 where
  not_connected token_not_present : Error
  secret_not_found : Str → Error
  metadata_not_found : Str → Error
  key_not_found : Str → Str → Error
  old_pin_empty new_pin_empty same_pin old_pin_incorrect : Error
  device_lookup_failed no_pin_secret invalid_pin_reference : Error
  pin_secret_lookup_failed pin_key_not_found pin_is_empty static_pin_empty : Error
  unknown_data_type unknown_oid : Error
  library_path_required pin_provider_required no_library no_slots session_missing : Error
  slot_not_found : ℕ → Error
  token_label_not_found label_not_found : Str → Error
  call_failed : Fault → Error
  deletions_failed : ℕ → ℕ → Error
  pin_not_provided metadata_not_serialized metadata_malformed context_done : Error
  attempts_failed : ℤ → Error → Error
  no_attempt : ℤ → Error

-- What a method returns beside its error: the error, or the value.
pub data Result {ℓ} (V : Type ℓ) : Type ℓ where
  err : Error → Result V
  ok : V → Result V

-- if err != nil { return err }, before the rest of the method
infixl 5 ◌>>=◌ ◌>>◌
abbrev pub ◌>>=◌ {ℓ κ} : {V : Type ℓ} {W : Type κ} → Result V → (V → Result W) → Result W
call >>= rest = elim call [ err message ↦ err message | ok v ↦ rest v ]

abbrev pub ◌>>◌ {ℓ} : {W : Type ℓ} → Result (Unit {0}) → Result W → Result W
check >> rest = elim check [ err message ↦ err message | ok v ↦ rest ]

-- An early return with an error where the test holds.
abbrev pub fail_if : Bool → Error → Result (Unit {0})
fail_if stops message = elim stops [ true ↦ err message | false ↦ ok tt ]
