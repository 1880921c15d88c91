-- ===== src/Hsm/Mock/Laws.antt =====
-- What the operations of the in-memory client do to the paths that they name and to the others.
use hsm_secrets_operator.Common.{
  ◌≡◌, refl, sym, ◌↔◌, ◌⊎◌, inl, inr, List, [], ◌∷◌, true, false, Option, none, some, Bool-cases,
  Option-cases, if◌then◌else◌, Str, str_eq, str_eq_iff, Dict, get, delete, keys_of, In, filter_by,
  get-put_self, get-put_ne, In-filter_by_iff, get-delete, get-delete_self, arith,
}
use hsm_secrets_operator.Golib.{Golib}
use hsm_secrets_operator.Hsm.{SecretData, SecretMetadata}
use hsm_secrets_operator.Hsm.Errors.{
  not_connected, secret_not_found, metadata_not_found, key_not_found, ok, err,
}
use hsm_secrets_operator.Hsm.Mock.{
  MockClient, found, read_secret, write_secret, read_metadata, delete_secret, delete_secret_key,
  list_secrets, get_checksum, has_prefix, change_pin, get_info,
}

module _ (m : MockClient) (path : Str) (data' : SecretData) (md : SecretMetadata)
    (on : m.connected ≡ true) where
  -- On a connected client a write with metadata succeeds; then the path reads back the data and
  -- the metadata that were written, and every other path reads as before.
  pub read-write_secret :
      let (r, m') = write_secret m path data' (some md) in
      (r ≡ ok tt)
      × (read_secret m' path ≡ ok data')
      × (read_metadata m' path ≡ ok md)
      × ((q : Str)
          → ¬ (path ≡ q)
          → (read_secret m' q ≡ read_secret m q) × (read_metadata m' q ≡ read_metadata m q))
  unfolding write_secret read_secret read_metadata
  read-write_secret = rw on (
    refl,
    rw get-put_self,
    rw get-put_self,
    λ q ne. (rw (get-put_ne path q data' m.secrets ne), rw (get-put_ne path q md m.metadata ne)),
  )

module _ (m : MockClient) (path : Str) (on : m.connected ≡ true) where
  -- Deleting a secret that is there removes its data and its metadata and no other path's; deleting
  -- one that is not there reports that and changes nothing.
  pub read-delete_secret :
      let (r, m') = delete_secret m path in
      ((r ≡ ok tt)
        × (read_secret m' path ≡ err (secret_not_found path))
        × (read_metadata m' path ≡ err (metadata_not_found path))
        × ((q : Str)
            → ¬ (path ≡ q)
            → (read_secret m' q ≡ read_secret m q) × (read_metadata m' q ≡ read_metadata m q)))
      ⊎ ((r ≡ err (secret_not_found path))
          × (m' ≡ m)
          × (read_secret m path ≡ err (secret_not_found path)))
  unfolding delete_secret read_secret read_metadata
  read-delete_secret = elim (Option-cases (get path m.secrets)) [
    | inl e ↦ rw (on, e) (inr (refl, refl, refl))
    | inr (d, e) ↦
        rw (on, e)
          (inl (
            refl,
            rw get-delete_self,
            rw get-delete_self,
            λ q ne. (
              rw (get-delete path q m.secrets, ne_false q ne),
              rw (get-delete path q m.metadata, ne_false q ne),
            ),
          ))
  ]
    where
      ne_false : (q : Str) → ¬ (path ≡ q) → str_eq path q ≡ false
      ne_false q ne = ground (arith, str_eq_iff path q)

  -- Deleting a key of a stored secret removes that key, keeps the other keys of the secret, and
  -- keeps every other secret and all metadata; a missing key or secret is reported.
  get-delete_secret_key :
      (key : Str)
      → let (r, m') = delete_secret_key m path key in
        ((r ≡ err (secret_not_found path)) × (m' ≡ m))
        ⊎ ((r ≡ err (key_not_found path key)) × (m' ≡ m))
        ⊎ ((r ≡ ok tt)
            × (m'.metadata ≡ m.metadata)
            × ((d : SecretData)
                → read_secret m path ≡ ok d
                → (read_secret m' path ≡ ok (delete key d))
                  × ((j : Str) → get j (delete key d) ≡ (if str_eq key j then none else get j d)))
            × ((q : Str) → ¬ (path ≡ q) → read_secret m' q ≡ read_secret m q))
  unfolding delete_secret_key read_secret
  get-delete_secret_key key = elim (Option-cases (get path m.secrets)) [
    | inl e ↦ rw (on, e) (inl (refl, refl))
    | inr (d, e) ↦ elim (Option-cases (get key d)) [
      | inl f ↦ rw (on, e, f) (inr (inl (refl, refl)))
      | inr (v, f) ↦
          rw (on, e, f)
            (inr (
              inr (
                refl,
                refl,
                λ c h. let g : c ≡ d = cc in rw (g, get-put_self) (refl, λ j. get-delete key j d),
                λ q ne. rw (get-put_ne path q (delete key d) m.secrets ne),
              )))
    ]
  ]

In-keys_of : {V : Type 0} (k : Str) (d : Dict V) → In k (keys_of d) ↔ ((v : V) × (get k d ≡ some v))
unfolding get
In-keys_of k [] = (λ m. absurd m, λ h. cc (h.1))
In-keys_of k ((j, w) ∷ d) = elim (Bool-cases (str_eq j k)) [
  | inl y ↦ rw y (λ m. (w, refl), λ h. inl (sym ((str_eq_iff j k).0 y)))
  | inr n ↦ rw n (
    λ m. elim m [ inl e ↦ cc (n, (str_eq_iff j k).1 (sym e)) | inr r ↦ (In-keys_of k d).0 r ],
    λ h. inr ((In-keys_of k d).1 h),
  )
]

-- On a connected client the listing holds exactly the paths that can be read and that begin with
-- the prefix.
list_secrets-exact :
    (m : MockClient) (prefix : Str) (paths : List Str) (q : Str)
    → list_secrets m prefix ≡ ok paths
    → In q paths ↔ (((d : SecretData) × (read_secret m q ≡ ok d)) × (has_prefix q prefix ≡ true))
unfolding list_secrets read_secret
list_secrets-exact m prefix paths q h = elim (Bool-cases m.connected) [
  | inr off ↦ cc (off, h)
  | inl on ↦
      let e : paths ≡ filter_by (λ path. has_prefix path prefix) (keys_of m.secrets) = cc (on, h) in
      let listed = In-filter_by_iff (λ path. has_prefix path prefix) q (keys_of m.secrets) in
      rw (e, on)
        (
          λ i.
              let (k, p) = listed.0 i in
              let (d, f) = (In-keys_of q m.secrets).0 k in ((d, rw f), p),
          λ r. listed.1 ((In-keys_of q m.secrets).1 (stored r.0.0 r.0.1), r.1),
        )
]
  where
    stored :
        (d : SecretData)
        → found (secret_not_found q) (get q m.secrets) ≡ ok d
        → (v : SecretData) × (get q m.secrets ≡ some v)
    stored d f = elim (Option-cases (get q m.secrets)) [ inl n ↦ cc (n, f) | inr s ↦ s ]

-- Without a connection every operation reports that and a write leaves the client as it was.
disconnected_refuses :
    (go : Golib) (m : MockClient) (path key : Str) (data' : SecretData) (md : Option SecretMetadata)
    → m.connected ≡ false
    → (write_secret m path data' md ≡ (err not_connected, m))
      × (delete_secret m path ≡ (err not_connected, m))
      × (delete_secret_key m path key ≡ (err not_connected, m))
      × (read_secret m path ≡ err not_connected)
      × (read_metadata m path ≡ err not_connected)
      × (list_secrets m path ≡ err not_connected)
      × (get_checksum go m path ≡ err not_connected)
      × (change_pin m path key ≡ err not_connected)
      × (get_info m ≡ err not_connected)
unfolding write_secret delete_secret delete_secret_key read_secret read_metadata list_secrets
    get_checksum change_pin get_info
disconnected_refuses go m path key data' md off =
    rw off (refl, refl, refl, refl, refl, refl, refl, refl, refl)
