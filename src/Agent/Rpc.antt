-- ===== src/Agent/Rpc.antt =====
-- The interface `Client` of internal/hsm/client.go, and the requests of the service HSMAgent of
-- api/proto/hsm/v1/hsm.proto with the codes of its errors.
use hsm_secrets_operator.Common.{List, Bool, Option, Str}
use hsm_secrets_operator.Common.State.{State}
use hsm_secrets_operator.Hsm.{SecretData, SecretMetadata, HsmInfo}
use hsm_secrets_operator.Hsm.Errors.{Error, Result}

-- hsm.Client, as far as it is served
pub record HsmClient (W : Type 0) : Type 0 where
  pub get_info : State W (Result HsmInfo)
  pub read_secret : Str → State W (Result SecretData)
  pub write_secret : Str → SecretData → Option SecretMetadata → State W (Result (Unit {0}))
  pub read_metadata : Str → State W (Result (Option SecretMetadata))
  pub delete_secret : Str → State W (Result (Unit {0}))
  pub delete_secret_key : Str → Str → State W (Result (Unit {0}))
  pub list_secrets : Str → State W (Result (List Str))
  pub get_checksum : Str → State W (Result Str)
  pub is_connected : State W Bool
  pub change_pin : Str → Str → State W (Result (Unit {0}))

-- codes.InvalidArgument, codes.Unavailable, codes.Internal with the client's error where there is
-- one, and an error of the transport
pub data Code : Type 0 where
  invalid_argument unavailable not_initialized transport_failed : Code
  internal : Error → Code

-- A response or an error with its code.
pub data Rpc (A : Type 0) : Type 0 where
  refused : Code → Rpc A
  replied : A → Rpc A

-- The methods of hsmv1.HSMAgentClient, on the fields of their requests and responses: the transport
-- to the server.
pub record AgentStub (W : Type 0) : Type 0 where
  pub get_info : State W (Rpc HsmInfo)
  pub read_secret : Str → State W (Rpc (Option SecretData))
  pub write_secret : Str → Option SecretData → Option SecretMetadata → State W (Rpc (Unit {0}))
  pub read_metadata : Str → State W (Rpc (Option SecretMetadata))
  pub delete_secret : Str → Str → State W (Rpc (Unit {0}))
  pub list_secrets : Str → State W (Rpc (List Str))
  pub get_checksum : Str → State W (Rpc Str)
  pub is_connected : State W (Rpc Bool)
  pub change_pin : Str → Str → State W (Rpc (Unit {0}))
