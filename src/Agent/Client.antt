-- ===== src/Agent/Client.antt =====
-- internal/agent/grpc_client.go: GRPCClient, the HSM client that calls an agent over gRPC. Timeouts
-- are errors of the transport.
pub mod Laws
use hsm_secrets_operator.Common.{
  ℕ, List, [], ◌∷◌, Bool, true, false, Option, none, some, if◌then◌else◌, Str, Dict,
}
use hsm_secrets_operator.Common.State.{State}
use hsm_secrets_operator.Hsm.{SecretData, SecretMetadata, HsmInfo}
use hsm_secrets_operator.Agent.Rpc.{Code, Rpc, refused, replied, AgentStub}

-- an answer of the agent after its conversion
abbrev pub answered : {W A B : Type 0} → (A → B) → State W (Rpc A) → State W (Rpc B)
answered convert call w =
    let (r, w') = call w in
    elim r [ refused code ↦ (refused code, w') | replied a ↦ (replied (convert a), w') ]

-- a copy of the entries, of which a missing message has none
unfoldable pub copied : Option SecretData → SecretData
copied none = []
copied (some data') = data'

module _ {W : Type 0} (stub : AgentStub W) where
  -- GetInfo
  unfoldable pub get_info : State W (Rpc HsmInfo)
  get_info = answered (λ info. info) stub.get_info

  -- Initialize
  unfoldable initialize : State W (Rpc (Unit {0}))
  unfolding get_info
  initialize = answered (λ info. tt) get_info

  -- ReadSecret
  unfoldable pub read_secret : Str → State W (Rpc SecretData)
  unfolding copied
  read_secret path = answered copied (stub.read_secret path)

  -- WriteSecret
  unfoldable pub write_secret : Str → SecretData → Option SecretMetadata → State W (Rpc (Unit {0}))
  write_secret path data' md = answered (λ u. tt) (stub.write_secret path (some data') md)

  -- ReadMetadata
  unfoldable pub read_metadata : Str → State W (Rpc (Option SecretMetadata))
  read_metadata path = answered (λ md. md) (stub.read_metadata path)

  -- DeleteSecret
  unfoldable pub delete_secret : Str → State W (Rpc (Unit {0}))
  delete_secret path = answered (λ u. tt) (stub.delete_secret path [])

  -- DeleteSecretKey
  unfoldable pub delete_secret_key : Str → Str → State W (Rpc (Unit {0}))
  delete_secret_key path key = answered (λ u. tt) (stub.delete_secret path key)

  -- ListSecrets
  unfoldable pub list_secrets : Str → State W (Rpc (List Str))
  list_secrets prefix = answered (λ paths. paths) (stub.list_secrets prefix)

  -- GetChecksum
  unfoldable pub get_checksum : Str → State W (Rpc Str)
  get_checksum path = answered (λ checksum. checksum) (stub.get_checksum path)

  -- IsConnected; every error counts as not connected
  unfoldable pub is_connected : State W Bool
  is_connected w =
      let (r, w') = stub.is_connected w in
      elim r [ refused code ↦ (false, w') | replied on ↦ (on, w') ]

  -- ChangePIN
  unfoldable pub change_pin : Str → Str → State W (Rpc (Unit {0}))
  change_pin old_pin new_pin = answered (λ u. tt) (stub.change_pin old_pin new_pin)
