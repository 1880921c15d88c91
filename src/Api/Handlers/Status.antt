-- ===== src/Api/Handlers/Status.antt =====
-- The status that the handlers of internal/api/proxy_client.go answer with, against the results of
-- the devices.
use hsm_secrets_operator.Common.{
  ℕ, ◌+◌, ◌<◌, ◌≡◌, refl, ◌↔◌, List, [], ◌∷◌, length, true, Option, some, In, Distinct, Str,
  str_eq_refl, ℤ, Dict, arith,
}
use hsm_secrets_operator.Golib.{Golib}
use hsm_secrets_operator.Hsm.{SecretData}
use hsm_secrets_operator.Api.{
  Clients, Response, WriteRequest, failure, infos, listing, secret, written, deleted, key_deleted,
  metadata, checksum, status, pin_changed, missing_path, missing_key, invalid_pin_change,
}
use hsm_secrets_operator.Api.Devices.{
  count_successes, errors_of, is_no_errors, tombstone_delete_from_all_devices,
  delete_key_from_all_devices, change_pin_on_all_devices, write_to_all_devices,
}
use hsm_secrets_operator.Api.Devices.Stores.{
  count_successes-errors_of, some_success, Stored, write_to_all_devices-stores,
}
use hsm_secrets_operator.Api.Handlers.{
  success_status, write_answer, delete_answer, delete_key_answer, pin_answer, validate_path_param,
  read_secret, write_secret, delete_secret, delete_secret_key, read_metadata, get_checksum,
  change_pin, next_version_of, stamp, write_clients,
}

-- The status code of an answer.
abbrev pub code_of : Response → ℕ
code_of (failure n c) = n
code_of (infos n d) = n
code_of (listing n l k s) = n
code_of (secret n s d c k) = n
code_of (written n s k) = n
code_of (deleted n s k d) = n
code_of (key_deleted n s t k d) = n
code_of (metadata n s m) = n
code_of (checksum n s c) = n
code_of (status n d k) = n
code_of (pin_changed n k t e) = n

-- The code for results of which `ok` succeeded and `bad` failed: all, none, or a part.
abbrev pub Graded : ℕ → ℕ → ℕ → Type 0
Graded code ok bad =
    ((code ≡ 200) ↔ ((0 < ok) × (bad ≡ 0)))
    × ((code ≡ 206) ↔ ((0 < ok) × (0 < bad)))
    × ((code ≡ 500) ↔ (ok ≡ 0))

delete_answer-Graded :
    (path : Str) (total : ℕ) (rs : Dict (Option Str))
    → count_successes rs + length (errors_of rs) ≡ total
    → Graded (code_of (delete_answer path total rs)) (count_successes rs) (length (errors_of rs))
unfolding delete_answer success_status
delete_answer-Graded path total rs h = ground (arith, h)

delete_key_answer-Graded :
    (path key : Str) (total : ℕ) (rs : Dict (Option Str))
    → count_successes rs + length (errors_of rs) ≡ total
    → Graded
        (code_of (delete_key_answer path key total rs))
        (count_successes rs)
        (length (errors_of rs))
unfolding delete_key_answer success_status
delete_key_answer-Graded path key total rs h = ground (arith, h)

no_errors-length : (es : List (Str × Str)) → (is_no_errors es ≡ true) ↔ (length es ≡ 0)
no_errors-length [] = (λ h. refl, λ h. refl)
no_errors-length (e ∷ es) = (λ h. cc, λ h. absurd (omega arith))

pin_answer-Graded :
    (total : ℕ) (rs : Dict (Option Str))
    → count_successes rs + length (errors_of rs) ≡ total
    → 0 < total
    → Graded (code_of (pin_answer total rs)) (count_successes rs) (length (errors_of rs))
unfolding pin_answer
pin_answer-Graded total rs h k = ground (arith, h, no_errors-length (errors_of rs))

-- With at least one client, the codes of DeleteSecret, DeleteSecretKey and ChangePIN are 200 exactly
-- where every device succeeded, 206 exactly where some succeeded and some failed, and 500 exactly
-- where none succeeded.
pub answers-Graded :
    {W C : Type 0} (p : Clients W C) (go : Golib) (clients : Dict C) (w : W)
    (path key old_pin new_pin : Str)
    → 0 < length clients
    → (let rs = (tombstone_delete_from_all_devices p go clients path w).0 in
        Graded
          (code_of (delete_answer path (length clients) rs))
          (count_successes rs)
          (length (errors_of rs)))
      × (let rs = (delete_key_from_all_devices p clients path key w).0 in
          Graded
            (code_of (delete_key_answer path key (length clients) rs))
            (count_successes rs)
            (length (errors_of rs)))
      × (let rs = (change_pin_on_all_devices p clients old_pin new_pin w).0 in
          Graded
            (code_of (pin_answer (length clients) rs))
            (count_successes rs)
            (length (errors_of rs)))
unfolding tombstone_delete_from_all_devices delete_key_from_all_devices change_pin_on_all_devices
answers-Graded p go clients w path key old_pin new_pin some_client = (
  delete_answer-Graded path (length clients) _ (count_successes-errors_of _ clients (p.now w).1),
  delete_key_answer-Graded path key (length clients) _ (count_successes-errors_of _ clients w),
  pin_answer-Graded (length clients) _ (count_successes-errors_of _ clients w) some_client,
)

written-some : (path : Str) (d : SecretData) (n : ℕ) → code_of (write_answer path d n) ≡ 201 → 0 < n
unfolding write_answer
written-some path d n h = ground arith

module _ {W C : Type 0} (p : Clients W C) (go : Golib) where
  -- Where the clients follow the laws of `Stored` and are those of different devices, and
  -- WriteSecret answers 201, some device holds exactly the data of the request, with the metadata
  -- of the request stamped with the next version.
  pub write_clients-holds :
      (s : Stored p) (path : Str) (request : WriteRequest) (clients : Dict C) (w : W)
      → Distinct (λ (e : Str × C). e.1) clients
      → code_of (write_clients p go path request clients w).0 ≡ 201
      → (k : Str) × (c : C) × (now : ℤ) × In (k, c) clients
        × (s.holds (write_clients p go path request clients w).1 c path
            ≡ some (
              request.data',
              stamp go request.metadata (next_version_of p go clients path w).0 now,
            ))
  unfolding write_clients
  write_clients-holds s path request clients w distinct h =
      let (version, w1) = next_version_of p go clients path w in
      let (now, w2) = p.now w1 in
      let m = stamp go request.metadata version now in
      let rs = (write_to_all_devices p clients path request.data' m w2).0 in
      let (k, i) = some_success rs (written-some path request.data' (count_successes rs) h) in
      let (c, j, e) =
        write_to_all_devices-stores p s path request.data' m clients w2 k distinct i in
      (k, c, now, j, e)

  -- A request without a path is answered with 400, and so is the deletion of a key without a key and
  -- a change of a PIN to itself: no device is called, and no client is created.
  invalid_requests-refused :
      (s : Dict C × W) (request : Option WriteRequest) (path key pin : Str)
      → ((read_secret p go [] s ≡ (failure 400 missing_path, s))
          × (write_secret p go [] request s ≡ (failure 400 missing_path, s))
          × (delete_secret p go [] s ≡ (failure 400 missing_path, s))
          × (delete_secret_key p go [] key s ≡ (failure 400 missing_path, s))
          × (read_metadata p go [] s ≡ (failure 400 missing_path, s))
          × (get_checksum p go [] s ≡ (failure 400 missing_path, s)))
        × (delete_secret_key p go (47 ∷ path) [] s ≡ (failure 400 missing_key, s))
        × (change_pin p go (some record { old_pin = 49 ∷ pin; new_pin = 49 ∷ pin }) s
            ≡ (failure 400 invalid_pin_change, s))
  unfolding read_secret write_secret delete_secret delete_secret_key read_metadata get_checksum
      change_pin validate_path_param
  invalid_requests-refused s request path key pin =
      ((refl, refl, refl, refl, refl, refl), refl, rw (str_eq_refl (49 ∷ pin)) refl)
