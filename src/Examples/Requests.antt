-- ===== src/Examples/Requests.antt =====
-- The handlers and the clients of the proxy on two devices.
use hsm_secrets_operator.Common.{
  ◌≡◌, refl, sym, ap, ◌∙◌, inl, inr, List, [], ◌∷◌, length, none, some, Distinct, In, Str, str,
  str_eq, ℤ, Dict, get, put, arith,
}
use hsm_secrets_operator.Examples.{differ, golib, device, Held, clients, clients-Stored}
use hsm_secrets_operator.Hsm.{SecretData, SecretMetadata}
use hsm_secrets_operator.Mirror.{DiscoveredDevice}
use hsm_secrets_operator.Api.{WriteRequest}
use hsm_secrets_operator.Api.Answers.{meta_sync_version}
use hsm_secrets_operator.Api.Cache.{
  gather, client_of, create_cached, add_client, get_all_available_grpc_clients,
}
use hsm_secrets_operator.Api.Cache.Laws.{Kept, get_all_available_grpc_clients-Kept}
use hsm_secrets_operator.Api.Devices.{
  on_all, write_to_all_devices, tombstone_delete_from_all_devices, delete_key_from_all_devices,
  change_pin_on_all_devices, count_successes, errors_of,
}
use hsm_secrets_operator.Api.Handlers.{
  write_clients, write_answer, next_version_of, stamp, delete_answer, delete_key_answer, pin_answer,
}
use hsm_secrets_operator.Api.Handlers.Status.{code_of, Graded, answers-Graded, write_clients-holds}

abbrev path : Str
path = str "app"

abbrev user_data : SecretData
user_data = (str "user", str "ada") ∷ []

abbrev versioned : SecretMetadata
versioned = record {
  description = [];
  labels = some ((meta_sync_version, str "2") ∷ []);
  format = [];
  data_type = [];
  created_at = [];
  source = [];
}

abbrev devices : Dict Str
devices = (str "a", str "a") ∷ (str "b", str "b") ∷ []

-- No device holds anything.
abbrev blank : Held
blank s q = none

answers-Graded_example :
    (let rs = (tombstone_delete_from_all_devices clients golib devices path blank).0 in
      Graded (code_of (delete_answer path 2 rs)) (count_successes rs) (length (errors_of rs)))
    × (let rs = (delete_key_from_all_devices clients devices path (str "user") blank).0 in
        Graded
          (code_of (delete_key_answer path (str "user") 2 rs))
          (count_successes rs)
          (length (errors_of rs)))
    × (let rs = (change_pin_on_all_devices clients devices (str "1") (str "2") blank).0 in
        Graded (code_of (pin_answer 2 rs)) (count_successes rs) (length (errors_of rs)))
answers-Graded_example =
    answers-Graded clients golib devices blank path (str "user") (str "1") (str "2") (omega arith)

devices-Distinct : Distinct (λ (e : Str × Str). e.1) devices
unfolding str_eq
devices-Distinct = (
  λ y m h. elim m [
    | inl e ↦ differ (str "b") (str "a") refl (sym (ap (λ (x : Str × Str). x.1) e) ∙ h)
    | inr n ↦ absurd n
  ],
  (λ y m h. absurd m, tt),
)

abbrev request : WriteRequest
request = record { data' = user_data; metadata = none }

created : code_of (write_clients clients golib path request devices blank).0 ≡ 201
unfolding write_clients write_to_all_devices on_all count_successes write_answer
created = refl

write_clients-holds_example :
    (k : Str) × (c : Str) × (now : ℤ) × In (k, c) devices
    × ((write_clients clients golib path request devices blank).1 c path
        ≡ some
            (user_data, stamp golib none (next_version_of clients golib devices path blank).0 now))
write_clients-holds_example =
    write_clients-holds clients golib clients-Stored path request devices blank devices-Distinct
      created

abbrev found : List DiscoveredDevice
found = device (str "a") ∷ device (str "b") ∷ []

found-Distinct : Distinct (λ (d : DiscoveredDevice). d.serial_number) found
unfolding str_eq
found-Distinct = (
  λ y m h. elim m [
    | inl e ↦
        differ (str "b") (str "a") refl (sym (ap (λ (d : DiscoveredDevice). d.serial_number) e) ∙ h)
    | inr n ↦ absurd n
  ],
  (λ y m h. absurd m, tt),
)

gathered : (get_all_available_grpc_clients clients ([], blank)).0 ≡ some devices
unfolding get_all_available_grpc_clients gather client_of create_cached add_client get put str_eq
gathered = refl

get_all_available_grpc_clients-Kept_example :
    Kept devices (get_all_available_grpc_clients clients ([], blank)).1.0
    × ((k : Str)
        → ((d : DiscoveredDevice) → In d found → ¬ (d.serial_number ≡ k))
        → get k (get_all_available_grpc_clients clients ([], blank)).1.0 ≡ get k [])
get_all_available_grpc_clients-Kept_example =
    get_all_available_grpc_clients-Kept clients [] blank found devices refl found-Distinct gathered

devices-keys : Distinct (λ (e : Str × Str). e.0) devices
unfolding str_eq
devices-keys = (
  λ y m h. elim m [
    | inl e ↦ differ (str "b") (str "a") refl (sym (ap (λ (x : Str × Str). x.0) e) ∙ h)
    | inr n ↦ absurd n
  ],
  (λ y m h. absurd m, tt),
)
