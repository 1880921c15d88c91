-- ===== src/Hsm/Hardware/Presence.antt =====
-- The presence of the token in internal/hsm/pkcs11_client.go and internal/hsm/pkcs11_cgo.go: GetInfo
-- and its effect on the other methods, and the test for a blank token.
use hsm_secrets_operator.Common.{
  ◌≡◌, refl, ap, ◌↔◌, ◌⊎◌, inl, inr, [], ◌∷◌, Bool, true, false, Option, some, Bool-cases,
  if◌then◌else◌, In, Str, arith,
}
use hsm_secrets_operator.Hsm.{SecretData, SecretMetadata, HsmInfo}
use hsm_secrets_operator.Hsm.Errors.{
  Fault, ckr_token_not_present, ckr_device_removed, ckr_device_error, ckr_session_handle_invalid,
  ckr_other, Result, ok, err, not_connected, token_not_present, call_failed,
}
use hsm_secrets_operator.Hsm.Token.{Reply, failed, given, LibraryTokenInfo, Pkcs11, Codec}
use hsm_secrets_operator.Hsm.Session.{
  Session, is_token_lost_error, token_info_of, get_token_info_pkcs11,
}
use hsm_secrets_operator.Hsm.Hardware.{
  Pkcs11Client, get_info, info_of, is_token_not_present, read_secret, write_secret, delete_secret,
}

-- The errors that mean a lost token.
abbrev IsLost : Fault → Type 0
IsLost f = In f (
    ckr_token_not_present ∷ ckr_device_removed ∷ ckr_device_error ∷ ckr_session_handle_invalid ∷ [])

IsLost-is_token_lost_error : (f : Fault) → (is_token_lost_error f ≡ true) ↔ IsLost f
unfolding is_token_lost_error
IsLost-is_token_lost_error ckr_token_not_present = (λ h. inl refl, λ m. refl)
IsLost-is_token_lost_error ckr_device_removed = (λ h. inr (inl refl), λ m. refl)
IsLost-is_token_lost_error ckr_device_error = (λ h. inr (inr (inl refl)), λ m. refl)
IsLost-is_token_lost_error ckr_session_handle_invalid = (λ h. inr (inr (inr (inl refl))), λ m. refl)
IsLost-is_token_lost_error (ckr_other code) = (λ h. absurd (cc h), none_of)
  where
    none_of : IsLost (ckr_other code) → false ≡ true
    none_of (inl e) = absurd (cc e)
    none_of (inr (inl e)) = absurd (cc e)
    none_of (inr (inr (inl e))) = absurd (cc e)
    none_of (inr (inr (inr (inl e)))) = absurd (cc e)
    none_of (inr (inr (inr (inr m)))) = absurd m

Reply-cases :
    {A : Type 0} (r : Reply A) → ((f : Fault) × (r ≡ failed f)) ⊎ ((a : A) × (r ≡ given a))
Reply-cases (failed f) = inl (f, refl)
Reply-cases (given a) = inr (a, refl)

module _ {T : Type 0} (lib : Pkcs11 T) (codec : Codec) where
  -- Without a connection a read, a write and a deletion report that and change nothing.
  refuses :
      (path : Str) (data' : SecretData) (md : Option SecretMetadata) (c : Pkcs11Client) (t : T)
      → c.connected ≡ false
      → (read_secret lib codec path (c, t) ≡ (err not_connected, (c, t)))
        × (write_secret lib codec path data' md (c, t) ≡ (err not_connected, (c, t)))
        × (delete_secret lib codec path (c, t) ≡ (err not_connected, (c, t)))
  unfolding read_secret write_secret delete_secret
  refuses path data' md c t off = (ground (arith, off), ground (arith, off), ground (arith, off))

  lost_only :
      (f : Fault)
      → is_token_not_present lib codec
          (if is_token_lost_error f then token_not_present else call_failed f)
        ≡ is_token_lost_error f
  unfolding is_token_not_present is_token_lost_error
  lost_only f = elim (Bool-cases (is_token_lost_error f)) [ inl y ↦ rw y refl | inr n ↦ rw n refl ]

  get_info-failed :
      (c : Pkcs11Client) (s : Session) (t t' : T) (f : Fault)
      → c.connected ≡ true
      → c.session ≡ some s
      → lib.get_token_info s.slot t ≡ (failed f, t')
      → get_info lib codec (c, t) ≡ (
        err (if is_token_lost_error f then token_not_present else call_failed f),
        (if is_token_lost_error f then record c { connected = false } else c, t'),
      )
  unfolding get_info get_token_info_pkcs11
  get_info-failed c s t t' f on opened e = ground (arith, on, opened, e, lost_only f)

  get_info-given :
      (c : Pkcs11Client) (s : Session) (t t' : T) (i : LibraryTokenInfo)
      → c.connected ≡ true
      → c.session ≡ some s
      → lib.get_token_info s.slot t ≡ (given i, t')
      → (info : HsmInfo) × (v : T) × (get_info lib codec (c, t) ≡ (ok info, (c, v)))
  unfolding get_info get_token_info_pkcs11
  get_info-given c s t t' i on opened e = (
    info_of lib codec (token_info_of lib codec i (lib.get_slot_info s.slot t').0),
    (lib.get_slot_info s.slot t').1,
    ground (arith, on, opened, e),
  )

  -- What GetInfo returns, and leaves, after the call for the token's information.
  abbrev pub Reported :
      Str
      → SecretData
      → Option SecretMetadata
      → Reply LibraryTokenInfo
      → Result HsmInfo
      → Pkcs11Client × T
      → Type 0
  Reported path data' md reply r world =
      ((f : Fault) × (reply ≡ failed f)
        × IsLost f
        × (r ≡ err token_not_present)
        × (world.0.connected ≡ false)
        × (read_secret lib codec path world ≡ (err not_connected, world))
        × (write_secret lib codec path data' md world ≡ (err not_connected, world))
        × (delete_secret lib codec path world ≡ (err not_connected, world)))
      ⊎ ((f : Fault) × (reply ≡ failed f)
          × ¬ (IsLost f)
          × (r ≡ err (call_failed f))
          × (world.0.connected ≡ true))
      ⊎ ((i : LibraryTokenInfo) × (info : HsmInfo) × (reply ≡ given i)
          × (r ≡ ok info)
          × (world.0.connected ≡ true))

  failed-Reported :
      (path : Str) (data' : SecretData) (md : Option SecretMetadata) (c : Pkcs11Client) (t : T)
      (f : Fault) (b : Bool)
      → c.connected ≡ true
      → is_token_lost_error f ≡ b
      → Reported path data' md
          (failed f)
          (err (if b then token_not_present else call_failed f))
          (if b then record c { connected = false } else c, t)
  failed-Reported path data' md c t f true on lost =
      let (a, b, d) = refuses path data' md (record c { connected = false }) t refl in
      inl (f, refl, (IsLost-is_token_lost_error f).0 lost, refl, refl, a, b, d)
  failed-Reported path data' md c t f false on kept =
      inr
        (inl (f, refl, λ lost. absurd (cc (kept, (IsLost-is_token_lost_error f).1 lost)), refl, on))

  -- On a connected client in a session there are three cases. The call for the token's information
  -- fails with one of the four PKCS#11 errors that mean a lost token: then GetInfo reports that the
  -- token is not present and marks the client as disconnected, and reads, writes and deletions refuse
  -- and change nothing. It fails with another error: then GetInfo reports that error and the client
  -- stays connected. It succeeds: then so does GetInfo, and the client stays connected.
  pub get_info-is_token_lost_error :
      (path : Str) (data' : SecretData) (md : Option SecretMetadata) (c : Pkcs11Client)
      (s : Session) (t : T)
      → c.connected ≡ true
      → c.session ≡ some s
      → Reported path data' md
          (lib.get_token_info s.slot t).0
          (get_info lib codec (c, t)).0
          (get_info lib codec (c, t)).1
  get_info-is_token_lost_error path data' md c s t on opened =
      elim (Reply-cases (lib.get_token_info s.slot t).0) [
        | inl (f, e) ↦
            let t' = (lib.get_token_info s.slot t).1 in
            rw (e, get_info-failed c s t t' f on opened (ap (λ x. (x, t')) e))
              (failed-Reported path data' md c t' f (is_token_lost_error f) on refl)
        | inr (i, e) ↦
            let t' = (lib.get_token_info s.slot t).1 in
            let (info, v, done) = get_info-given c s t t' i on opened (ap (λ x. (x, t')) e) in
            rw (e, done) (inr (inr (i, info, refl, refl, on)))
      ]
