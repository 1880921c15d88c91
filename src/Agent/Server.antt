-- ===== src/Agent/Server.antt =====
-- internal/agent/grpc_server.go: the handlers of the agent's gRPC server and of its probes. The HSM
-- client of the server may be nil.
pub mod Laws
use hsm_secrets_operator.Common.{
  ℕ, List, [], ◌∷◌, Bool, true, false, Option, none, some, if◌then◌else◌, Str, str_eq, Dict,
}
use hsm_secrets_operator.Common.State.{State}
use hsm_secrets_operator.Hsm.{SecretData, SecretMetadata, HsmInfo}
use hsm_secrets_operator.Hsm.Errors.{Error, Result, ok, err}
use hsm_secrets_operator.Security.Validation.{is_blank}
use hsm_secrets_operator.Agent.Rpc.{
  HsmClient, Code, invalid_argument, unavailable, not_initialized, internal, Rpc, refused, replied,
}

-- a call of the client, with its error as codes.Internal
abbrev pub served : {W A B : Type 0} → (A → B) → State W (Result A) → State W (Rpc B)
served answer call w =
    let (r, w') = call w in
    elim r [ err e ↦ (refused (internal e), w') | ok a ↦ (replied (answer a), w') ]

-- healthStatus of Health
pub data HealthStatus : Type 0 where
  healthy_status degraded_status : HealthStatus

-- How the probe of the token ends: GetInfo returned, or the deadline passed first.
pub data Probe : Type 0 where
  no_client timed_out present : Probe
  failing : Error → Probe

-- the tests of ChangePIN on the PINs
unfoldable pub pins_are_valid : Str → Str → Bool
pins_are_valid old_pin new_pin =
    if is_blank old_pin
    then false
    else if is_blank new_pin
    then false
    else if str_eq old_pin new_pin
    then false
    else true

module _ {W : Type 0} (server : Option (HsmClient W)) where
  -- the test for a connected client, and the rest of a handler
  unfoldable pub if_connected : {B : Type 0} → (HsmClient W → State W (Rpc B)) → State W (Rpc B)
  if_connected rest w = elim server [
    | none ↦ (refused unavailable, w)
    | some c ↦
        let (on, w') = c.is_connected w in
        elim on [ true ↦ rest c w' | false ↦ (refused unavailable, w') ]
  ]

  -- the test for a path that is not empty
  abbrev if_path : {B : Type 0} → Str → State W (Rpc B) → State W (Rpc B)
  if_path path rest w = elim (is_blank path) [
    | true ↦ (refused invalid_argument, w)
    | false ↦ rest w
  ]

  -- GetInfo
  unfoldable pub serve_get_info : State W (Rpc HsmInfo)
  unfolding if_connected
  serve_get_info = if_connected (λ c. served (λ info. info) c.get_info)

  -- ReadSecret
  unfoldable pub serve_read_secret : Str → State W (Rpc (Option SecretData))
  unfolding if_connected
  serve_read_secret path = if_path path (if_connected (λ c. served some (c.read_secret path)))

  -- WriteSecret; the message of the data may be missing
  unfoldable pub serve_write_secret :
      Str → Option SecretData → Option SecretMetadata → State W (Rpc (Unit {0}))
  unfolding if_connected
  serve_write_secret path none md = if_path path (λ w. (refused invalid_argument, w))
  serve_write_secret path (some data') md =
      if_path path (if_connected (λ c. served (λ u. u) (c.write_secret path data' md)))

  -- ReadMetadata
  unfoldable pub serve_read_metadata : Str → State W (Rpc (Option SecretMetadata))
  unfolding if_connected
  serve_read_metadata path =
      if_path path (if_connected (λ c. served (λ md. md) (c.read_metadata path)))

  -- DeleteSecret; an empty key stands for the whole secret
  unfoldable pub serve_delete_secret : Str → Str → State W (Rpc (Unit {0}))
  unfolding if_connected
  serve_delete_secret path key = if_path path (
      if_connected (λ c.
        served (λ u. u)
          (if is_blank key then c.delete_secret path else c.delete_secret_key path key)))

  -- ListSecrets
  unfoldable pub serve_list_secrets : Str → State W (Rpc (List Str))
  unfolding if_connected
  serve_list_secrets prefix = if_connected (λ c. served (λ paths. paths) (c.list_secrets prefix))

  -- GetChecksum
  unfoldable pub serve_get_checksum : Str → State W (Rpc Str)
  unfolding if_connected
  serve_get_checksum path =
      if_path path (if_connected (λ c. served (λ checksum. checksum) (c.get_checksum path)))

  -- IsConnected
  unfoldable pub serve_is_connected : State W (Rpc Bool)
  serve_is_connected w = elim server [
    | none ↦ (replied false, w)
    | some c ↦ let (on, w') = c.is_connected w in (replied on, w')
  ]

  -- the rest of ChangePIN on a connected client
  unfoldable pub change_valid_pin : HsmClient W → Str → Str → State W (Rpc (Unit {0}))
  unfolding pins_are_valid
  change_valid_pin c old_pin new_pin w = elim (pins_are_valid old_pin new_pin) [
    | true ↦ served (λ u. u) (c.change_pin old_pin new_pin) w
    | false ↦ (refused invalid_argument, w)
  ]

  -- ChangePIN; a missing client is an internal error
  unfoldable pub serve_change_pin : Str → Str → State W (Rpc (Unit {0}))
  unfolding change_valid_pin
  serve_change_pin old_pin new_pin w = elim server [
    | none ↦ (refused not_initialized, w)
    | some c ↦
        let (on, w') = c.is_connected w in
        elim on [ true ↦ change_valid_pin c old_pin new_pin w' | false ↦ (refused unavailable, w') ]
  ]

  -- Health
  unfoldable pub serve_health : State W (Rpc HealthStatus)
  serve_health w = elim server [
    | none ↦ (replied degraded_status, w)
    | some c ↦
        let (on, w') = c.is_connected w in
        (replied (if on then healthy_status else degraded_status), w')
  ]

  -- probeToken; `in_time` tells whether GetInfo returns before the deadline. It is called in either
  -- case.
  unfoldable probe_token : Bool → State W Probe
  probe_token in_time w = elim server [
    | none ↦ (no_client, w)
    | some c ↦
        let (r, w') = c.get_info w in
        (if in_time then elim r [ err e ↦ failing e | ok info ↦ present ] else timed_out, w')
  ]

  abbrev status_of : Probe → ℕ
  status_of present = 200
  status_of p = 503

  -- handleHealthz and handleReadyz: the status of the response, 200 or 503
  unfoldable pub handle_healthz : Bool → State W ℕ
  unfolding probe_token
  handle_healthz in_time w = let (p, w') = probe_token in_time w in (status_of p, w')

  unfoldable pub handle_readyz : Bool → State W ℕ
  unfolding probe_token
  handle_readyz in_time w = let (p, w') = probe_token in_time w in (status_of p, w')
