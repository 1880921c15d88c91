-- ===== src/Examples/Fleet.antt =====
-- Agents of which each serves an in-memory client: they keep the laws that the mirror relies on.
use hsm_secrets_operator.Common.{
  ◌≡◌, refl, ap, ◌∙◌, ◌⊎◌, inl, inr, [], Bool, true, false, Option, none, some, Bool-cases,
  Option-cases, if◌then◌else◌, pos, Str, str_eq, str_eq_iff, str_eq_refl, get, get-put_self,
  get-put_ne, arith,
}
use hsm_secrets_operator.Hsm.{SecretData, SecretMetadata}
use hsm_secrets_operator.Hsm.Errors.{Result, ok, err}
use hsm_secrets_operator.Hsm.Mock
use hsm_secrets_operator.Hsm.Mock.{MockClient}
use hsm_secrets_operator.Hsm.Hardware.Labels.{IsApart}
use hsm_secrets_operator.Hsm.Hardware.Refine.{apart_ne}
use hsm_secrets_operator.Mirror.{Agents}
use hsm_secrets_operator.Mirror.Execute.Device.{Copy, Filled, Faithful}

-- The client of each device, by its serial number.
abbrev pub Fleet : Type 0
Fleet = Str → MockClient

abbrev value_of : {A : Type 0} → Result A → Option (Option A)
value_of (err e) = none
value_of (ok a) = some (some a)

abbrev is_ok : {A : Type 0} → Result A → Bool
is_ok (err e) = false
is_ok (ok a) = true

-- Nil data is stored as an empty map.
abbrev or_empty_data : Option SecretData → SecretData
or_empty_data none = []
or_empty_data (some d) = d

abbrev at_device : Fleet → Str → MockClient → Fleet
at_device w d m s = if str_eq s d then m else w s

abbrev pub agents : Agents Fleet
agents = record {
  create_client = λ d w. (true, w);
  available_devices = λ w. (none, w);
  is_connected = λ d w. ((w d.serial_number).connected, w);
  read_secret = λ d p w. (value_of (Mock.read_secret (w d.serial_number) p), w);
  read_metadata = λ d p w. (value_of (Mock.read_metadata (w d.serial_number) p), w);
  write_secret = λ d p data' m w.
      let (r, c) = Mock.write_secret (w d.serial_number) p (or_empty_data data') (some m) in
      (is_ok r, at_device w d.serial_number c);
  list_secrets = λ d w. (none, w);
  close_client = λ d w. (true, w);
  sleep = λ n w. (tt, w);
  now = λ w. (pos 0, w);
}

abbrev copy_of : Option SecretData → Option SecretMetadata → Option Copy
copy_of none md = none
copy_of (some d) md = some (some d, md)

abbrev pub copy_at : MockClient → Str → Option Copy
copy_at c q = copy_of (get q c.secrets) (get q c.metadata)

pub read_copy :
    (c : MockClient) (p : Str) (data' : Option SecretData)
    → value_of (Mock.read_secret c p) ≡ some data'
    → Filled data' × ((md : Option SecretMetadata) × (copy_at c p ≡ some (data', md)))
unfolding Mock.read_secret
read_copy c p data' h = elim (Bool-cases c.connected) [
  | inr off ↦ absurd (ground arith)
  | inl on ↦ elim (Option-cases (get p c.secrets)) [
    | inl e ↦ absurd (ground arith)
    | inr (d, e) ↦
        let same : data' ≡ some d = ground arith in
        ((d, same), (get p c.metadata, rw (e, same) refl))
  ]
]

pub write_copy :
    (c : MockClient) (p : Str) (d : SecretData) (md : SecretMetadata)
    → is_ok (Mock.write_secret c p d (some md)).0 ≡ true
    → copy_at (Mock.write_secret c p d (some md)).1 p ≡ some (some d, some md)
unfolding Mock.write_secret
write_copy c p d md h = elim (Bool-cases c.connected) [
  | inr off ↦ absurd (ground arith)
  | inl on ↦ rw (on, get-put_self p d c.secrets, get-put_self p md c.metadata) refl
]

write_elsewhere :
    (c : MockClient) (p q : Str) (d : SecretData) (md : SecretMetadata)
    → ¬ (p ≡ q)
    → copy_at (Mock.write_secret c p d (some md)).1 q ≡ copy_at c q
unfolding Mock.write_secret
write_elsewhere c p q d md other = elim (Bool-cases c.connected) [
  | inr off ↦ rw off refl
  | inl on ↦ rw (on, get-put_ne p q d c.secrets other, get-put_ne p q md c.metadata other) refl
]

pub at_self : (w : Fleet) (d : Str) (c : MockClient) → at_device w d c d ≡ c
at_self w d c = rw (str_eq_refl d) refl

at_other : (w : Fleet) (d s : Str) (c : MockClient) → ¬ (s ≡ d) → at_device w d c s ≡ w s
at_other w d s c other = ground (arith, str_eq_iff s d)

pub fleet_frame :
    (w : Fleet) (n p s q : Str) (d : SecretData) (md : SecretMetadata)
    → ¬ (s ≡ n) ⊎ IsApart p q
    → copy_at (at_device w n (Mock.write_secret (w n) p d (some md)).1 s) q ≡ copy_at (w s) q
fleet_frame w n p s q d md (inl other) =
    ap (λ c. copy_at c q) (at_other w n s (Mock.write_secret (w n) p d (some md)).1 other)
fleet_frame w n p s q d md (inr apart) = elim (Bool-cases (str_eq s n)) [
  | inl y ↦
      let same = (str_eq_iff s n).0 y in
      rw same (
        ap (λ c. copy_at c q) (at_self w n (Mock.write_secret (w n) p d (some md)).1)
        ∙ write_elsewhere (w n) p q d md (apart_ne p q apart))
  | inr x ↦ rw x refl
]

abbrev pub agents-Faithful : Faithful agents
agents-Faithful = record {
  copy = λ w s q. copy_at (w s) q;
  create_quiet = λ d w s q. refl;
  connected_quiet = λ d w s q. refl;
  read_quiet = λ d p w s q. refl;
  read_metadata_quiet = λ d p w s q. refl;
  now_quiet = λ w s q. refl;
  read_data = λ d p w data' h. read_copy (w d.serial_number) p data' h;
  write_stores = λ d p data' md w filled h. stored d.serial_number p data' md w filled h;
  write_frame =
      λ d p data' md w s q h. fleet_frame w d.serial_number p s q (or_empty_data data') md h;
}
  where
    stored :
        (n p : Str) (data' : Option SecretData) (md : SecretMetadata) (w : Fleet)
        → Filled data'
        → is_ok (Mock.write_secret (w n) p (or_empty_data data') (some md)).0 ≡ true
        → copy_at (at_device w n (Mock.write_secret (w n) p (or_empty_data data') (some md)).1 n) p
          ≡ some (data', some md)
    stored n p none md w (kept, e) h = absurd (cc e)
    stored n p (some d) md w filled h =
        ap (λ c. copy_at c p) (at_self w n (Mock.write_secret (w n) p d (some md)).1)
        ∙ write_copy (w n) p d md h
