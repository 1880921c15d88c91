-- ===== src/Hsm/Hardware.antt =====
-- internal/hsm/pkcs11_client.go: PKCS11Client, the client that keeps each key of a secret as a data
-- object of a token. A method changes the client and the token.
pub mod Labels
pub mod Written
pub mod Store
pub mod Refine
pub mod Retry
pub mod Presence
pub mod Laws
use hsm_secrets_operator.Common.{
  ℕ, zero, suc, ◌+◌, ◌-◌, List, [], ◌∷◌, ◌++◌, Bool, true, false, not, Option, none, some,
  if◌then◌else◌, ◌==◌, ℤ, pos, negsuc, Str, str, str_eq, Dict, get, put, delete, keys_of, length,
}
use hsm_secrets_operator.Common.State.{State}
use hsm_secrets_operator.Golib.{Golib}
use hsm_secrets_operator.Hsm.{
  SecretData, SecretMetadata, HsmInfo, Config, default_config, calculate_checksum,
}
use hsm_secrets_operator.Hsm.Mock.{has_prefix}
use hsm_secrets_operator.Hsm.Errors.{
  Error, not_connected, token_not_present, secret_not_found, metadata_not_found, old_pin_empty,
  new_pin_empty, same_pin, library_path_required, pin_provider_required, pin_not_provided,
  metadata_not_serialized, metadata_malformed, context_done, attempts_failed, no_attempt, Result,
  ok, err, fail_if,
}
use hsm_secrets_operator.Hsm.Calls.{Call, done, fail, known, ◌>>=◌, ◌>>◌}
use hsm_secrets_operator.Hsm.Token.{Pkcs11, Codec, Pkcs11Object}
use hsm_secrets_operator.Hsm.Session.{
  Session, TokenInfo, is_empty, initialize_pkcs11, is_token_blank_pkcs11, close_pkcs11,
  get_token_info_pkcs11, change_pin_pkcs11,
}
use hsm_secrets_operator.Hsm.Session.Objects.{
  find_objects_pkcs11, create_object_pkcs11, delete_secret_objects_pkcs11, delete_secret_key_pkcs11,
}

-- PKCS11Client
pub record Pkcs11Client : Type 0 where
  pub config : Config
  pub session : Option Session
  pub slot : ℕ
  pub connected : Bool
  pub data_objects : Dict ℕ

-- NewPKCS11Client, with the zero value of the configuration as an argument
unfoldable new_pkcs11_client : Config → Pkcs11Client
new_pkcs11_client config = record {
  config = config;
  session = none;
  slot = 0;
  connected = false;
  data_objects = [];
}

abbrev pub default_key_name : Str
default_key_name = str "data"

abbrev pub metadata_key_suffix : Str
metadata_key_suffix = str "/_metadata"

-- s[len(p):]
unfoldable pub behind : Str → Str → Str
behind [] s = s
behind (c ∷ p) [] = []
behind (c ∷ p) (d ∷ s) = behind p s

-- strings.TrimPrefix
unfoldable pub trim_prefix : Str → Str → Str
unfolding behind
trim_prefix s p = if has_prefix s p then behind p s else s

-- strings.HasSuffix
unfoldable pub has_suffix : Str → Str → Bool
has_suffix [] p = str_eq [] p
has_suffix (c ∷ s) p = let rest = has_suffix s p in if str_eq (c ∷ s) p then true else rest

-- the key of the object with a label
unfoldable pub key_of : Str → Str → Str
unfolding trim_prefix
key_of path label =
    let key = trim_prefix (trim_prefix label path) (str "/") in
    if is_empty key then default_key_name else key

-- the label of the object that WriteSecret makes for a key
unfoldable pub label_of : Str → Str → Str
label_of path key = if not (str_eq key default_key_name) then path ++ (str "/" ++ key) else path

-- the label of the object that DeleteSecretKey removes
unfoldable deleted_label : Str → Str → Str
deleted_label path key =
    if is_empty key
    then path
    else if not (str_eq key default_key_name)
    then path ++ (str "/" ++ key)
    else path

-- one round of the loop of ReadSecret
unfoldable pub add_object : Str → Pkcs11Object → SecretData × ℕ → SecretData × ℕ
unfolding key_of has_suffix
add_object path o (data', n) =
    if not (has_prefix o.label path)
    then (data', n)
    else if has_suffix o.label metadata_key_suffix
    then (data', n)
    else (put (key_of path o.label) o.value data', n + 1)

unfoldable pub gather : Str → List Pkcs11Object → SecretData × ℕ → SecretData × ℕ
unfolding add_object
gather path [] found = found
gather path (o ∷ os) found = gather path os (add_object path o found)

-- the end of ReadSecret
unfoldable pub secret_of : Str → List Pkcs11Object → Result SecretData
unfolding gather
secret_of path objects =
    let (data', n) = gather path objects ([], 0) in
    if n == 0
    then err (secret_not_found path)
    else if is_empty data'
    then err (secret_not_found path)
    else ok data'

-- strings.Join(parts[:len(parts)-1], "/") of the parts of a label with a slash: what stands before
-- the last one
unfoldable parent_of : Str → Option Str
parent_of [] = none
parent_of (c ∷ s) = elim (parent_of s) [
  | none ↦ if c == 47 then some [] else none
  | some p ↦ some (c ∷ p)
]

abbrev or_self : Option Str → Str → Str
or_self none s = s
or_self (some p) s = p

-- one round of the loop of ListSecrets, on the keys of its map
unfoldable add_listed : Str → Pkcs11Object → Dict Bool → Dict Bool
unfolding has_suffix parent_of
add_listed prefix o paths =
    let path = or_self (parent_of o.label) o.label in
    if has_suffix o.label metadata_key_suffix
    then paths
    else if is_empty prefix
    then put path true paths
    else if has_prefix path prefix
    then put path true paths
    else paths

unfoldable listed : Str → List Pkcs11Object → Dict Bool → Dict Bool
unfolding add_listed
listed prefix [] paths = paths
listed prefix (o ∷ os) paths = listed prefix os (add_listed prefix o paths)

-- the loop of DeleteSecret over the cached handles
unfoldable pub forget : Str → Dict ℕ → Dict ℕ
forget path [] = []
forget path ((label, h) ∷ cached) =
    let rest = forget path cached in if has_prefix label path then rest else (label, h) ∷ rest

-- the check of the exact label in ReadMetadata
unfoldable pub find_label : Str → List Pkcs11Object → Option (List ℕ)
find_label label [] = none
find_label label (o ∷ os) =
    let rest = find_label label os in if str_eq o.label label then some o.value else rest

module _ {T : Type 0} (lib : Pkcs11 T) (codec : Codec) where
  abbrev World : Type 0
  World = Pkcs11Client × T

  -- a call on the session of the client
  abbrev on_session : {A : Type 0} → (Option Session → Call T A) → Call World A
  on_session call (c, t) = let (r, t') = call c.session t in (r, (c, t'))

  abbrev if_connected : Call World (Unit {0})
  if_connected (c, t) = (fail_if (not c.connected) not_connected, (c, t))

  -- c.dataObjects[label] = handle
  abbrev cache_handle : Str → ℕ → Call World (Unit {0})
  cache_handle label h (c, t) = (ok tt, (record c { data_objects = put label h c.data_objects }, t))

  -- IsTokenBlank
  unfoldable is_token_blank : Config → Call T Bool
  is_token_blank config =
      if is_empty config.pkcs11_library_path
      then fail library_path_required
      else is_token_blank_pkcs11 lib codec config

  set_session : Session → ℕ → Call World (Unit {0})
  set_session s slot (c, t) =
      (ok tt, (record c { session = some s; slot = slot; connected = true }, t))

  -- Initialize; `get_pin` is the call of the PIN provider
  unfoldable initialize : Config → State T (Option Str) → Call World (Unit {0})
  unfolding set_session
  initialize config get_pin = do
    (λ (c, t). (ok tt, (record c { config = config }, t)))
    known (fail_if (is_empty config.pkcs11_library_path) library_path_required)
    known (elim config.pin_provider [ none ↦ err pin_provider_required | some p ↦ ok tt ])
    pin ← (λ (c, t).
        let (p, t') = get_pin t in
        (elim p [ none ↦ err pin_not_provided | some value ↦ ok value ], (c, t')))
    opened ← (λ (c, t). let (r, t') = initialize_pkcs11 lib codec config pin t in (r, (c, t')))
    set_session opened.0 opened.1

  -- Close
  unfoldable close : Call World (Unit {0})
  close (c, t) = if not c.connected then (ok tt, (c, t)) else (
    ok tt,
    (
      record c { connected = false; session = none; data_objects = [] },
      close_pkcs11 lib codec c.session t,
    ),
  )

  unfoldable pub info_of : TokenInfo → HsmInfo
  info_of i = record {
    label = codec.trim_space i.label;
    manufacturer = codec.trim_space i.manufacturer_id;
    model = codec.trim_space i.model;
    serial_number = codec.trim_space i.serial_number;
    firmware_version = i.firmware_version;
  }

  -- errors.Is(err, ErrTokenNotPresent)
  unfoldable pub is_token_not_present : Error → Bool
  is_token_not_present token_not_present = true
  is_token_not_present e = false

  -- GetInfo
  unfoldable pub get_info : Call World HsmInfo
  unfolding info_of is_token_not_present
  get_info (c, t) =
      if not c.connected
      then (err not_connected, (c, t))
      else let (r, t') = get_token_info_pkcs11 lib codec c.session t in
        elim r [
          | err e ↦
              (err e, (if is_token_not_present e then record c { connected = false } else c, t'))
          | ok i ↦ (ok (info_of i), (c, t'))
        ]

  -- ReadSecret
  unfoldable pub read_secret : Str → Call World SecretData
  unfolding secret_of
  read_secret path = do
    if_connected
    objects ← on_session (λ s. find_objects_pkcs11 lib codec s path)
    known (secret_of path objects)

  -- the object of a key, with its handle cached
  unfoldable pub create_key : Str → List ℕ → Call World (Unit {0})
  create_key name value = do
    h ← on_session (λ s. create_object_pkcs11 lib codec s name value)
    cache_handle name h

  -- the loop of WriteSecret over the keys
  unfoldable pub write_keys : Str → SecretData → Call World (Unit {0})
  unfolding create_key label_of
  write_keys path [] world = (ok tt, world)
  write_keys path ((key, value) ∷ data') world =
      (create_key (label_of path key) value >> write_keys path data') world

  unfoldable pub write_json : Str → Option (List ℕ) → Call World (Unit {0})
  unfolding create_key
  write_json path none = fail metadata_not_serialized
  write_json path (some json) = create_key (path ++ metadata_key_suffix) json

  -- writeMetadata
  unfoldable pub write_metadata : Str → Option SecretMetadata → Call World (Unit {0})
  unfolding write_json
  write_metadata path none = done tt
  write_metadata path (some md) = write_json path (codec.marshal md)

  -- WriteSecret
  unfoldable pub write_secret : Str → SecretData → Option SecretMetadata → Call World (Unit {0})
  unfolding write_keys write_metadata
  write_secret path data' md = do
    if_connected
    on_session (λ s. delete_secret_objects_pkcs11 lib codec s path)
    write_keys path data'
    write_metadata path md

  unfoldable pub metadata_of : Str → Option (List ℕ) → Result SecretMetadata
  metadata_of path none = err (metadata_not_found path)
  metadata_of path (some json) = elim (codec.unmarshal json) [
    | none ↦ err metadata_malformed
    | some md ↦ ok md
  ]

  -- ReadMetadata
  unfoldable pub read_metadata : Str → Call World SecretMetadata
  unfolding metadata_of find_label
  read_metadata path = do
    if_connected
    objects ← on_session (λ s. find_objects_pkcs11 lib codec s (path ++ metadata_key_suffix))
    known (metadata_of path (find_label (path ++ metadata_key_suffix) objects))

  -- DeleteSecret
  unfoldable pub delete_secret : Str → Call World (Unit {0})
  unfolding forget
  delete_secret path = do
    if_connected
    on_session (λ s. delete_secret_objects_pkcs11 lib codec s path)
    (λ (c, t). (ok tt, (record c { data_objects = forget path c.data_objects }, t)))

  -- DeleteSecretKey
  unfoldable delete_secret_key : Str → Str → Call World (Unit {0})
  unfolding deleted_label
  delete_secret_key path key = do
    if_connected
    on_session (λ s. delete_secret_key_pkcs11 lib codec s (deleted_label path key))
    (λ (c, t).
        (ok tt, (record c { data_objects = delete (deleted_label path key) c.data_objects }, t)))

  -- ListSecrets
  unfoldable list_secrets : Str → Call World (List Str)
  unfolding listed
  list_secrets prefix = do
    if_connected
    objects ← on_session (λ s. find_objects_pkcs11 lib codec s [])
    done (keys_of (listed prefix objects []))

  -- GetChecksum
  unfoldable get_checksum : Golib → Str → Call World Str
  unfolding read_secret
  get_checksum go path = do data' ← read_secret path; done (calculate_checksum go data')

  -- IsConnected
  unfoldable is_connected : Pkcs11Client → Bool
  is_connected c = c.connected

  -- ChangePIN; `invalidate` is the call on the PIN provider
  unfoldable change_pin : (T → T) → Str → Str → Call World (Unit {0})
  change_pin invalidate old_pin new_pin = do
    if_connected
    known (fail_if (str_eq old_pin []) old_pin_empty)
    known (fail_if (str_eq new_pin []) new_pin_empty)
    known (fail_if (str_eq old_pin new_pin) same_pin)
    on_session (λ s. change_pin_pkcs11 lib codec s old_pin new_pin)
    (λ (c, t). (ok tt, (c, elim c.config.pin_provider [ none ↦ t | some p ↦ invalidate t ])))

module _ {W : Type 0} (operation : Call W (Unit {0})) (wait : State W Bool) where
  -- the end of WithRetry
  unfoldable pub gave_up : ℤ → Option Error → Error
  gave_up retries none = no_attempt retries
  gave_up retries (some e) = attempts_failed retries e

  -- The loop of WithRetry with `left` rounds to go, of which only the first has no wait before it;
  -- `wait` ends with true where the context is done.
  unfoldable pub attempt : ℤ → ℕ → Bool → Option Error → Call W (Unit {0})
  unfolding gave_up
  attempt retries zero first last w = (err (gave_up retries last), w)
  attempt retries (suc left) first last w =
      let (stopped, w') = (if first then (λ w. (false, w)) else wait) w in
      if stopped
      then (err context_done, w')
      else let (r, w'') = operation w' in
        elim r [ err e ↦ attempt retries left false (some e) w'' | ok u ↦ (ok tt, w'') ]

  -- the rounds from 0 up to the configured number, of which there are none below 0
  unfoldable pub rounds : ℤ → ℕ
  rounds (pos n) = suc n
  rounds (negsuc n) = 0

  -- WithRetry
  unfoldable pub with_retry : Config → Call W (Unit {0})
  unfolding attempt rounds
  with_retry config = attempt config.retry_attempts (rounds config.retry_attempts) true none
