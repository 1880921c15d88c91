-- ===== src/Api/Handlers.antt =====
-- The handlers of internal/api/proxy_client.go. The state is the map of clients with the world, and
-- the result what is sent. What the router parses is an argument: the path, the query, and the body,
-- which is `none` where it does not parse.
pub mod Status
pub mod Tombstone
use hsm_secrets_operator.Common.{
  ℕ, zero, suc, List, [], ◌∷◌, length, Bool, true, false, ◌==◌, ltb, Option, none, some,
  if◌then◌else◌, Str, str_eq, ℤ, Dict, put,
}
use hsm_secrets_operator.Common.State.{State, pure, ◌>>=◌, ◌>>◌}
use hsm_secrets_operator.Golib.{Golib}
use hsm_secrets_operator.Hsm.{HsmInfo, SecretData, SecretMetadata}
use hsm_secrets_operator.Api.{
  Clients, Code, Response, WriteRequest, ChangePinRequest, SecretResult, MetadataResult,
  ChecksumResult, missing_path, missing_key, no_agents, info_failed, secret_not_found,
  metadata_not_found, checksum_not_found, parse_error, write_failed, delete_failed,
  delete_key_failed, invalid_request, missing_old_pin, missing_new_pin, invalid_pin_change,
  pin_change_failed, failure, infos, listing, secret, written, deleted, key_deleted, metadata,
  checksum, status, pin_changed,
}
use hsm_secrets_operator.Api.Answers.{
  meta_sync_version, meta_sync_timestamp, next_version, find_consensus_checksum,
  find_most_recent_secret_result, find_most_recent_metadata_result,
}
use hsm_secrets_operator.Api.Cache.{lift, get_all_available_grpc_clients}
use hsm_secrets_operator.Api.Devices.{
  on_all, ask_all, count_successes, errors_of, is_no_errors, write_to_all_devices,
  tombstone_delete_from_all_devices, delete_key_from_all_devices, change_pin_on_all_devices,
  read_result, metadata_result, checksum_result, first_checksum, connections,
}

abbrev is_blank : Str → Bool
is_blank [] = true
is_blank (b ∷ bs) = false

-- secretsSet[path] = true
unfoldable add_path : Str → List Str → List Str
add_path s [] = s ∷ []
add_path s (t ∷ ts) = let rest = add_path s ts in if str_eq t s then t ∷ ts else t ∷ rest

-- one device's paths added to the set, and those of all devices
unfoldable add_device_paths : List Str → List Str → List Str
unfolding add_path
add_device_paths [] set = set
add_device_paths (s ∷ ss) set = add_device_paths ss (add_path s set)

unfoldable union_paths : List (List Str) → List Str → List Str
unfolding add_device_paths
union_paths [] set = set
union_paths (ss ∷ sss) set = union_paths sss (add_device_paths ss set)

abbrev labels_of : Option SecretMetadata → Dict Str
labels_of none = []
labels_of (some m) = elim m.labels [ none ↦ [] | some labels ↦ labels ]

-- the metadata that WriteSecret sends: that of the request with the labels of the sync
unfoldable pub stamp : Golib → Option SecretMetadata → ℤ → ℤ → SecretMetadata
stamp go request version now =
    let labels =
      put meta_sync_timestamp (go.print_time now)
        (put meta_sync_version (go.print_int version) (labels_of request)) in
    elim request [
      | none ↦ record {
        description = [];
        labels = some labels;
        format = [];
        data_type = [];
        created_at = [];
        source = [];
      }
      | some m ↦ record {
        description = m.description;
        labels = some labels;
        format = m.format;
        data_type = m.data_type;
        created_at = m.created_at;
        source = m.source;
      }
    ]

-- 200, or 206 where only some devices succeeded
unfoldable pub success_status : ℕ → ℕ → ℕ
success_status successful total = if ltb successful total then 206 else 200

unfoldable pub write_answer : Str → SecretData → ℕ → Response
write_answer path data' successful =
    if ltb 0 successful then written 201 path (length data') else failure 500 write_failed

unfoldable pub delete_answer : Str → ℕ → Dict (Option Str) → Response
unfolding count_successes success_status
delete_answer path total results =
    if ltb 0 (count_successes results)
    then deleted (success_status (count_successes results) total) path total results
    else failure 500 delete_failed

unfoldable pub delete_key_answer : Str → Str → ℕ → Dict (Option Str) → Response
unfolding count_successes success_status
delete_key_answer path key total results =
    if ltb 0 (count_successes results)
    then key_deleted (success_status (count_successes results) total) path key total results
    else failure 500 delete_key_failed

unfoldable pub pin_answer : ℕ → Dict (Option Str) → Response
unfolding count_successes errors_of
pin_answer total results =
    if is_no_errors (errors_of results)
    then pin_changed 200 (count_successes results) total []
    else if count_successes results == 0
    then failure 500 pin_change_failed
    else pin_changed 206 (count_successes results) total (errors_of results)

-- validatePathParam, before a handler goes on
unfoldable pub validate_path_param : {S : Type 0} → Str → State S Response → State S Response
validate_path_param path k s = if is_blank path then (failure 400 missing_path, s) else k s

module _ {W C : Type 0} (p : Clients W C) (go : Golib) where
  -- a handler after getAllAvailableGRPCClients, which sends the error itself
  unfoldable with_clients : (Dict C → State W Response) → State (Dict C × W) Response
  unfolding get_all_available_grpc_clients
  with_clients k s =
      let (clients, s') = get_all_available_grpc_clients p s in
      elim clients [ none ↦ (failure 503 no_agents, s') | some cs ↦ lift (k cs) s' ]

  -- GetInfo
  unfoldable get_info : State (Dict C × W) Response
  unfolding with_clients ask_all
  get_info = with_clients λ clients w.
      let (found, w') =
        ask_all
          (λ name c v.
            let (r, v') = p.get_info c v in (elim r [ none ↦ none | some i ↦ some (name, i) ], v'))
          clients w in
      (elim found [ [] ↦ failure 500 info_failed | i ∷ is ↦ infos 200 (i ∷ is) ], w')

  -- ListSecrets
  unfoldable list_secrets : Str → State (Dict C × W) Response
  unfolding with_clients ask_all union_paths
  list_secrets prefix = with_clients λ clients w.
      let (lists, w') = ask_all (λ name c. p.list_secrets c prefix) clients w in
      let paths = union_paths lists [] in (listing 200 paths (length paths) prefix, w')

  -- ReadSecret
  unfoldable pub read_secret : Str → State (Dict C × W) Response
  unfolding validate_path_param with_clients ask_all first_checksum find_most_recent_secret_result
  read_secret path = validate_path_param path (
      with_clients λ clients w.
        let (results, w') = ask_all (read_result p path) clients w in
        elim (find_most_recent_secret_result go results (length clients)) [
          | none ↦ (failure 404 secret_not_found, w')
          | some data' ↦
              let (sum, w'') = first_checksum p path clients w' in
              (secret 200 path data' sum (length results), w'')
        ])

  -- the version of the next write: nextVersion of the clients
  unfoldable pub next_version_of : Dict C → Str → State W ℤ
  unfolding ask_all next_version
  next_version_of clients path w =
      let (ms, w') = ask_all (λ name c. p.read_metadata c path) clients w in
      (next_version go ms, w')

  -- WriteSecret after the clients
  unfoldable pub write_clients : Str → WriteRequest → Dict C → State W Response
  unfolding next_version_of stamp write_to_all_devices count_successes write_answer
  write_clients path request clients w =
      let (version, w1) = next_version_of clients path w in
      let (now, w2) = p.now w1 in
      let (results, w3) =
        write_to_all_devices p clients path request.data' (stamp go request.metadata version now)
          w2 in
      (write_answer path request.data' (count_successes results), w3)

  -- WriteSecret
  unfoldable pub write_secret : Str → Option WriteRequest → State (Dict C × W) Response
  unfolding validate_path_param with_clients write_clients
  write_secret path request = validate_path_param path λ s. elim request [
    | none ↦ (failure 400 parse_error, s)
    | some r ↦ with_clients (write_clients path r) s
  ]

  -- DeleteSecret
  unfoldable pub delete_secret : Str → State (Dict C × W) Response
  unfolding validate_path_param with_clients tombstone_delete_from_all_devices delete_answer
  delete_secret path = validate_path_param path (
      with_clients λ clients w.
        let (results, w') = tombstone_delete_from_all_devices p go clients path w in
        (delete_answer path (length clients) results, w'))

  -- DeleteSecretKey
  unfoldable pub delete_secret_key : Str → Str → State (Dict C × W) Response
  unfolding validate_path_param with_clients delete_key_from_all_devices delete_key_answer
  delete_secret_key path key = validate_path_param path λ s.
      if is_blank key
      then (failure 400 missing_key, s)
      else with_clients
          (λ clients w.
            let (results, w') = delete_key_from_all_devices p clients path key w in
            (delete_key_answer path key (length clients) results, w'))
          s

  -- ReadMetadata
  unfoldable pub read_metadata : Str → State (Dict C × W) Response
  unfolding validate_path_param with_clients ask_all find_most_recent_metadata_result
  read_metadata path = validate_path_param path (
      with_clients λ clients w.
        let (results, w') = ask_all (metadata_result p path) clients w in
        (
          elim (find_most_recent_metadata_result go results) [
            | none ↦ failure 404 metadata_not_found
            | some m ↦ metadata 200 path m
          ],
          w',
        ))

  -- GetChecksum
  unfoldable pub get_checksum : Str → State (Dict C × W) Response
  unfolding validate_path_param with_clients ask_all find_consensus_checksum
  get_checksum path = validate_path_param path (
      with_clients λ clients w.
        let (results, w') = ask_all (checksum_result p path) clients w in
        (
          elim (find_consensus_checksum results (length clients)) [
            | none ↦ failure 404 checksum_not_found
            | some sum ↦ checksum 200 path sum
          ],
          w',
        ))

  -- IsConnected
  unfoldable is_connected : State (Dict C × W) Response
  unfolding with_clients connections
  is_connected = with_clients λ clients w.
      let (devices, w') = connections p clients w in (status 200 devices (length clients), w')

  -- ChangePIN
  unfoldable pub change_pin : Option ChangePinRequest → State (Dict C × W) Response
  unfolding with_clients change_pin_on_all_devices pin_answer
  change_pin none s = (failure 400 invalid_request, s)
  change_pin (some r) s =
      if is_blank r.old_pin
      then (failure 400 missing_old_pin, s)
      else if is_blank r.new_pin
      then (failure 400 missing_new_pin, s)
      else if str_eq r.old_pin r.new_pin
      then (failure 400 invalid_pin_change, s)
      else with_clients
          (λ clients w.
            let (results, w') = change_pin_on_all_devices p clients r.old_pin r.new_pin w in
            (pin_answer (length clients) results, w'))
          s
