-- ===== src/Hsm/Session.antt =====
-- internal/hsm/pkcs11_cgo.go: sessions with a token, over the calls of the PKCS#11 library. A pointer to a session may be nil.
pub mod Objects
pub mod Laws
use hsm_secrets_operator.Common.{
  ℕ, zero, suc, ◌+◌, ◌/◌, ◌%◌, List, [], ◌∷◌, Bool, true, false, not, ◌&&◌, Option, none, some,
  if◌then◌else◌, Str, str, str_eq, ◌==◌, length, Dict,
}
use hsm_secrets_operator.Common.State.{State}
use hsm_secrets_operator.Hsm.{Config}
use hsm_secrets_operator.Hsm.Mock.{has_prefix}
use hsm_secrets_operator.Hsm.Errors.{
  Fault, ckr_token_not_present, ckr_device_removed, ckr_device_error, ckr_session_handle_invalid,
  ckr_other, Error, no_library, no_slots, session_missing, slot_not_found, token_label_not_found,
  label_not_found, call_failed, deletions_failed, token_not_present, Result, ok, err,
}
use hsm_secrets_operator.Hsm.Oids.{Oid, oid_plaintext, get_oid_for_data_type, infer_data_type}
use hsm_secrets_operator.Hsm.Calls.{Call, done, fail, ◌>>=◌, ◌>>◌}
use hsm_secrets_operator.Hsm.Token.{
  Reply, failed, given, Attribute, cka_label, cka_value, LibraryTokenInfo, LibrarySlotInfo,
  Template, Pkcs11, Codec, raised,
}

-- isTokenLostError
unfoldable pub is_token_lost_error : Fault → Bool
is_token_lost_error ckr_token_not_present = true
is_token_lost_error ckr_device_removed = true
is_token_lost_error ckr_device_error = true
is_token_lost_error ckr_session_handle_invalid = true
is_token_lost_error (ckr_other code) = false

-- Session
pub record Session : Type 0 where
  pub handle : ℕ
  pub slot : ℕ

-- tokenInfo of internal/hsm/pkcs11_client.go
pub record TokenInfo : Type 0 where
  pub label : Str
  pub manufacturer_id : Str
  pub model : Str
  pub serial_number : Str
  pub firmware_version : Str

abbrev pub is_empty {ℓ} : {A : Type ℓ} → List A → Bool
is_empty [] = true
is_empty (x ∷ xs) = false

-- the search of initializePKCS11 for the configured slot
unfoldable has_slot : ℕ → List ℕ → Bool
has_slot id [] = false
has_slot id (s ∷ slots) = let rest = has_slot id slots in if s == id then true else rest

-- Flags & CKF_USER_PIN_INITIALIZED == 0; the flag is 8
unfoldable lacks_user_pin : ℕ → Bool
lacks_user_pin flags = flags / 8 % 2 == 0

-- a default where a string is empty
abbrev or_default : Str → Str → Str
or_default s d = if is_empty s then d else s

module _ {T : Type 0} (lib : Pkcs11 T) (codec : Codec) where
  -- Finalize and Destroy before an error is returned
  abbrev abandon : {A : Type 0} → Error → Call T A
  abandon e t = let (r, t') = lib.finalize t in (err e, lib.destroy t')

  abbrev or_abandon : {A : Type 0} → State T (Reply A) → Call T A
  or_abandon call t =
      let (r, t') = call t in
      elim r [ failed f ↦ abandon (call_failed f) t' | given a ↦ (ok a, t') ]

  -- the first slot whose token has the label; a slot whose token is not read is passed over
  unfoldable pub find_by_label : Str → List ℕ → State T (Option ℕ)
  find_by_label label [] t = (none, t)
  find_by_label label (s ∷ slots) t =
      let (r, t') = lib.get_token_info s t in
      elim r [
        | failed f ↦ find_by_label label slots t'
        | given i ↦
            let rest = find_by_label label slots t' in
            if str_eq (codec.trim_space i.label) label then (some s, t') else rest
      ]

  slot_by_label : Str → List ℕ → Call T ℕ
  slot_by_label label slots t =
      let (found, t') = find_by_label label slots t in
      elim found [ none ↦ abandon (token_label_not_found label) t' | some s ↦ (ok s, t') ]

  -- the choice of the slot; `first` is the first of the list
  unfoldable choose_slot : Config → ℕ → List ℕ → Call T ℕ
  unfolding has_slot slot_by_label
  choose_slot config first slots =
      if config.use_slot_id
      then if has_slot config.slot_id (first ∷ slots)
        then done config.slot_id
        else abandon (slot_not_found config.slot_id)
      else if not (is_empty config.token_label)
      then slot_by_label config.token_label (first ∷ slots)
      else done first

  choose_some : Config → List ℕ → Call T ℕ
  unfolding choose_slot
  choose_some config [] = abandon no_slots
  choose_some config (first ∷ slots) = choose_slot config first slots

  -- Login, with the session closed where it fails
  login_or_close : ℕ → Str → Call T (Unit {0})
  login_or_close session pin t =
      let (r, t') = lib.login session pin t in
      elim r [
        | failed f ↦ let (c, t'') = lib.close_session session t' in abandon (call_failed f) t''
        | given u ↦ (ok tt, t')
      ]

  created : Bool → Call T (Unit {0})
  created false = fail no_library
  created true = done tt

  -- initializePKCS11
  unfoldable pub initialize_pkcs11 : Config → Str → Call T (Session × ℕ)
  unfolding choose_some login_or_close created
  initialize_pkcs11 config pin = do
    (λ t. let (made, t') = lib.new config.pkcs11_library_path t in created made t')
    raised lib.initialize
    slots ← or_abandon lib.get_slot_list
    target ← choose_some config slots
    session ← or_abandon (lib.open_session target)
    login_or_close session pin
    done (record { handle = session; slot = target }, target)

  -- the loop of isTokenBlankPKCS11
  unfoldable count_blank : List ℕ → ℕ → Call T ℕ
  unfolding lacks_user_pin
  count_blank [] n = done n
  count_blank (s ∷ slots) n = do
    info ← raised (lib.get_token_info s)
    count_blank slots (if lacks_user_pin info.flags then n + 1 else n)

  -- the deferred Finalize and Destroy
  abbrev finally : {A : Type 0} → Call T A → Call T A
  finally call t = let (r, t') = call t in let (f, t'') = lib.finalize t' in (r, lib.destroy t'')

  initialize_or_destroy : Call T (Unit {0})
  initialize_or_destroy t =
      let (r, t') = lib.initialize t in
      elim r [ failed f ↦ (err (call_failed f), lib.destroy t') | given u ↦ (ok tt, t') ]

  -- isTokenBlankPKCS11
  unfoldable pub is_token_blank_pkcs11 : Config → Call T Bool
  unfolding count_blank created initialize_or_destroy
  is_token_blank_pkcs11 config = do
    (λ t. let (made, t') = lib.new config.pkcs11_library_path t in created made t')
    initialize_or_destroy
    finally (do
      slots ← raised lib.get_slot_list
      blank_count ← count_blank slots 0
      done (blank_count == 1))

  -- closePKCS11; its errors are ignored
  unfoldable pub close_pkcs11 : Option Session → T → T
  close_pkcs11 none t = t
  close_pkcs11 (some s) t =
      let (l, t1) = lib.logout s.handle t in
      let (c, t2) = lib.close_session s.handle t1 in
      let closed = if not (s.handle == 0) then t2 else t in
      let (f, t3) = lib.finalize closed in lib.destroy t3

  -- the token's information with that of the slot where fields are empty
  unfoldable pub token_info_of : LibraryTokenInfo → Reply LibrarySlotInfo → TokenInfo
  token_info_of i reply =
      let manufacturer = codec.trim_space i.manufacturer_id in
      let model = codec.trim_space i.model in
      record {
        label = codec.trim_space i.label;
        manufacturer_id = elim reply [
          | failed f ↦ manufacturer
          | given s ↦ or_default manufacturer (codec.trim_space s.manufacturer_id)
        ];
        model = elim reply [
          | failed f ↦ model
          | given s ↦ or_default model (codec.trim_space s.slot_description)
        ];
        serial_number = codec.trim_space i.serial_number;
        firmware_version = codec.print_version i.major i.minor;
      }

  -- getTokenInfoPKCS11; the slot is the session's
  unfoldable pub get_token_info_pkcs11 : Option Session → Call T TokenInfo
  unfolding is_token_lost_error token_info_of
  get_token_info_pkcs11 none t = (err session_missing, t)
  get_token_info_pkcs11 (some s) t =
      let (r, t') = lib.get_token_info s.slot t in
      elim r [
        | failed f ↦ (err (if is_token_lost_error f then token_not_present else call_failed f), t')
        | given i ↦
            let (reply, t'') = lib.get_slot_info s.slot t' in (ok (token_info_of i reply), t'')
      ]

  -- changePINPKCS11
  unfoldable pub change_pin_pkcs11 : Option Session → Str → Str → Call T (Unit {0})
  change_pin_pkcs11 none old_pin new_pin = fail session_missing
  change_pin_pkcs11 (some s) old_pin new_pin = raised (lib.set_pin s.handle old_pin new_pin)
