-- ===== src/Hsm/Hardware/Refine.antt =====
-- PKCS11Client of internal/hsm/pkcs11_client.go against the in-memory client of
-- internal/hsm/mock_client.go: on paths that stand apart both are one store.
use hsm_secrets_operator.Common.{
  ℕ, ◌+◌, ◌≤◌, ◌≡◌, sym, ◌∙◌, ◌⊎◌, inl, inr, List, true, false, Option, some, arith, Str, length,
  In,
}
use hsm_secrets_operator.Hsm.{SecretData, SecretMetadata}
use hsm_secrets_operator.Hsm.Errors.{ok, err, secret_not_found}
use hsm_secrets_operator.Hsm.Mock.{MockClient, has_prefix}
use hsm_secrets_operator.Hsm.Mock
use hsm_secrets_operator.Hsm.Mock.Laws.{read-write_secret, read-delete_secret}
use hsm_secrets_operator.Hsm.Token.{Pkcs11, Codec, Serves}
use hsm_secrets_operator.Hsm.Session.{Session, is_empty}
use hsm_secrets_operator.Hsm.Hardware.{
  Pkcs11Client, read_secret, read_metadata, write_secret, delete_secret,
}
use hsm_secrets_operator.Hsm.Hardware.Labels.{IsApart, has_prefix_refl}
use hsm_secrets_operator.Hsm.Hardware.Written.{IsPlain}
use hsm_secrets_operator.Hsm.Hardware.Laws.{IsReady}
use hsm_secrets_operator.Hsm.Hardware.Store.{read_secret-write_secret, read_secret-delete_secret}

-- Of two of the paths that differ neither begins with the other.
abbrev pub AreApart : List Str → Type 0
AreApart paths = (p q : Str) → In p paths → In q paths → (p ≡ q) ⊎ IsApart p q

pub apart_ne : (p q : Str) → IsApart p q → ¬ (p ≡ q)
apart_ne p q a e = let begun : has_prefix p q ≡ true = rw e (has_prefix_refl q) in cc (a.0, begun)

write_secret-connected :
    (m : MockClient) (path : Str) (data' : SecretData) (md : Option SecretMetadata)
    → (Mock.write_secret m path data' md).1.connected ≡ m.connected
unfolding Mock.write_secret
write_secret-connected m path data' md = ground arith

delete_secret-connected :
    (m : MockClient) (path : Str) → (Mock.delete_secret m path).1.connected ≡ m.connected
unfolding Mock.delete_secret
delete_secret-connected m path = ground arith

module _ {T : Type 0} (lib : Pkcs11 T) (codec : Codec) (s : Session) (w : Serves lib s.handle) where
  -- On the given paths the hardware client answers as the in-memory client does.
  abbrev pub Simulates : List Str → Pkcs11Client × T → MockClient → Type 0
  Simulates paths world m =
      (m.connected ≡ true)
      × IsReady lib codec s w world
      × ((q : Str)
          → In q paths
          → ((read_secret lib codec q world).0 ≡ Mock.read_secret m q)
            × ((read_metadata lib codec q world).0 ≡ Mock.read_metadata m q))

  -- Where the hardware client answers as the in-memory client does on paths none of which begins
  -- with another, a write of a plain secret with at least one key to one of the paths that is not
  -- empty, with metadata that survives its JSON and room for at most a hundred objects in all, has
  -- the same result on both, and afterwards they answer alike again. A secret with no key, such as a
  -- tombstone, is not covered.
  pub write_secret-Simulates :
      (paths : List Str) (path : Str) (data' : SecretData) (md : SecretMetadata) (json : List ℕ)
      (c : Pkcs11Client) (t : T) (m : MockClient)
      → AreApart paths
      → In path paths
      → Simulates paths (c, t) m
      → length (w.objects t) + length data' + 1 ≤ 100
      → codec.marshal md ≡ some json
      → codec.unmarshal json ≡ some md
      → is_empty path ≡ false
      → is_empty data' ≡ false
      → IsPlain path data'
      → let (r, world) = write_secret lib codec path data' (some md) (c, t) in
        let (r', m') = Mock.write_secret m path data' (some md) in
        (r ≡ r') × Simulates paths world m'
  write_secret-Simulates paths path data' md json c t m apart here (on, ready, same) room made
        parsed filled some_key plain =
      let (r1, ready', bound, data_back, md_back, others) =
        read_secret-write_secret lib codec s w path data' md json c t ready room made parsed filled
          some_key plain in
      let (r2, mock_back, mock_md_back, mock_others) = read-write_secret m path data' md on in
      (
        r1 ∙ sym r2,
        (
          write_secret-connected m path data' (some md) ∙ on,
          ready',
          λ q i. elim (apart path q here i) [
            | inl e ↦ rw (← e) (data_back ∙ sym mock_back, md_back ∙ sym mock_md_back)
            | inr a ↦
                let (x, y) = others q a in
                let (u, v) = mock_others q (apart_ne path q a) in
                let (before, md_before) = same q i in (x ∙ before ∙ sym u, y ∙ md_before ∙ sym v)
          ],
        ),
      )

  -- Where they answer alike on such paths and at most a hundred objects stand at the token, a
  -- deletion of one of the paths succeeds on the hardware and leaves them alike again, where the
  -- in-memory client has the path; where it has not, it alone reports that.
  pub delete_secret-Simulates :
      (paths : List Str) (path : Str) (c : Pkcs11Client) (t : T) (m : MockClient)
      → AreApart paths
      → In path paths
      → Simulates paths (c, t) m
      → length (w.objects t) ≤ 100
      → let (r, world) = delete_secret lib codec path (c, t) in
        let (r', m') = Mock.delete_secret m path in
        (r ≡ ok tt)
        × (((r' ≡ ok tt) × Simulates paths world m')
            ⊎ ((r' ≡ err (secret_not_found path))
                × (Mock.read_secret m path ≡ err (secret_not_found path))))
  delete_secret-Simulates paths path c t m apart here (on, ready, same) few =
      let (r1, ready', bound, gone, md_gone, others) =
        read_secret-delete_secret lib codec s w path c t ready few in
      (
        r1,
        elim (read-delete_secret m path on) [
          | inl (r2, mock_gone, mock_md_gone, mock_others) ↦ inl (
            r2,
            (
              delete_secret-connected m path ∙ on,
              ready',
              λ q i. elim (apart path q here i) [
                | inl e ↦ rw (← e) (gone ∙ sym mock_gone, md_gone ∙ sym mock_md_gone)
                | inr a ↦
                    let (x, y) = others q a in
                    let (u, v) = mock_others q (apart_ne path q a) in
                    let (before, md_before) = same q i in
                    (x ∙ before ∙ sym u, y ∙ md_before ∙ sym v)
              ],
            ),
          )
          | inr (r2, kept, gone') ↦ inr (r2, gone')
        ],
      )
