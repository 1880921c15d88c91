-- ===== src/Examples/Connections.antt =====
-- An agent that serves the in-memory client, a transport that delivers, and clients that answer or
-- are lost, with the results on them.
use hsm_secrets_operator.Common.{
  ◌↔◌, ℕ, ◌+◌, ◌≤◌, ◌≡◌, refl, [], ◌∷◌, if◌then◌else◌, Bool, true, false, Option, none, some, pos,
  str, str_eq,
}
use hsm_secrets_operator.Hsm.{SecretData}
use hsm_secrets_operator.Hsm.Errors.{Result, ok, err}
use hsm_secrets_operator.Hsm.Mock
use hsm_secrets_operator.Hsm.Mock.{MockClient, new_mock_client, has_prefix}
use hsm_secrets_operator.Hsm.Session.{is_empty}
use hsm_secrets_operator.Hsm.Hardware.{has_suffix, behind}
use hsm_secrets_operator.Hsm.Hardware.Written.{IsPlain}
use hsm_secrets_operator.Security.Validation.{intercept, validate_secret_path, validate_secret_data}
use hsm_secrets_operator.Security.Validation.Laws.{total_size, validate_secret_data-IsPlain}
use hsm_secrets_operator.Security.Auth.{
  Claims, Review, Authority, split_colon, generate_token, passes, bearer_prefix, is_exempt,
  check_header, check_token, auth_middleware,
}
use hsm_secrets_operator.Security.Auth.Laws.{auth_middleware-passes}
use hsm_secrets_operator.Security.Auth.Exempt.{Exempt, auth_middleware-Exempt}
use hsm_secrets_operator.Security.Auth.Issue.{generate_token-reviewed}
use hsm_secrets_operator.Agent.Rpc.{HsmClient, refused, invalid_argument, AgentStub}
use hsm_secrets_operator.Agent.Server.{
  serve_get_info, serve_read_secret, serve_write_secret, serve_read_metadata, serve_delete_secret,
  serve_list_secrets, serve_get_checksum, serve_is_connected, serve_change_pin, pins_are_valid,
}
use hsm_secrets_operator.Agent.Client
use hsm_secrets_operator.Agent.Client.{
  read_secret, write_secret, delete_secret, delete_secret_key, get_checksum, list_secrets,
  is_connected,
}
use hsm_secrets_operator.Agent.Client.Laws.{Delivers, seen, on_wire, wired, grpc_client-seen}
use hsm_secrets_operator.Agent.Pool.{
  Dialer, PooledClient, ConnectionPool, new_connection_pool, get_client,
}
use hsm_secrets_operator.Agent.Pool.Laws.{IsSound}
use hsm_secrets_operator.Agent.Pool.Reach.{Reach-IsSound, get_client-Reach}
use hsm_secrets_operator.Agent.Pool.Ends.{Ended, get_client-Ended}
use hsm_secrets_operator.Examples.{golib}

abbrev optional : {A : Type 0} → Result A → Result (Option A)
optional (err e) = err e
optional (ok a) = ok (some a)

abbrev hsm : HsmClient MockClient
hsm = record {
  get_info = λ m. (Mock.get_info m, m);
  read_secret = λ p m. (Mock.read_secret m p, m);
  write_secret = λ p data' md m. Mock.write_secret m p data' md;
  read_metadata = λ p m. (optional (Mock.read_metadata m p), m);
  delete_secret = λ p m. Mock.delete_secret m p;
  delete_secret_key = λ p key m. Mock.delete_secret_key m p key;
  list_secrets = λ p m. (Mock.list_secrets m p, m);
  get_checksum = λ p m. (Mock.get_checksum golib m p, m);
  is_connected = λ m. (m.connected, m);
  change_pin = λ old new m. (Mock.change_pin m old new, m);
}

abbrev stub : AgentStub MockClient
stub = record {
  get_info = serve_get_info (some hsm);
  read_secret = λ p. intercept p (serve_read_secret (some hsm) p);
  write_secret = λ p d md. intercept p (serve_write_secret (some hsm) p d (on_wire md));
  read_metadata =
      λ p w. let (r, w') = intercept p (serve_read_metadata (some hsm) p) w in (wired r, w');
  delete_secret = λ p key. intercept p (serve_delete_secret (some hsm) p key);
  list_secrets = serve_list_secrets (some hsm);
  get_checksum = λ p. intercept p (serve_get_checksum (some hsm) p);
  is_connected = serve_is_connected (some hsm);
  change_pin = serve_change_pin (some hsm);
}

stub-Delivers : Delivers stub (some hsm)
stub-Delivers = record {
  get_info = λ w. refl;
  read_secret = λ p w. refl;
  write_secret = λ p d md w. refl;
  read_metadata = λ p w. refl;
  delete_secret = λ p key w. refl;
  list_secrets = λ p w. refl;
  get_checksum = λ p w. refl;
  is_connected = λ w. refl;
  change_pin = λ old new w. refl;
}

abbrev state : MockClient
state = record new_mock_client { connected = true }

abbrev secret : SecretData
secret = (str "user", 2 ∷ []) ∷ []

valid : validate_secret_path (str "app") ≡ none
unfolding validate_secret_path has_prefix has_suffix str_eq
valid = refl

valid_data : validate_secret_data (some secret) ≡ none
unfolding validate_secret_data has_prefix has_suffix str_eq
valid_data = refl

grpc_client-seen_example :
    (read_secret stub (str "app") state ≡ (seen (Mock.read_secret state (str "app")), state))
    × (write_secret stub (str "app") secret none state ≡ (
      seen (Mock.write_secret state (str "app") secret none).0,
      (Mock.write_secret state (str "app") secret none).1,
    ))
    × (delete_secret stub (str "app") state
        ≡ (seen (Mock.delete_secret state (str "app")).0, (Mock.delete_secret state (str "app")).1))
    × (delete_secret_key stub (str "app") (str "user") state ≡ (
      seen (Mock.delete_secret_key state (str "app") (str "user")).0,
      (Mock.delete_secret_key state (str "app") (str "user")).1,
    ))
    × (get_checksum stub (str "app") state
        ≡ (seen (Mock.get_checksum golib state (str "app")), state))
    × (list_secrets stub (str "app") state ≡ (seen (Mock.list_secrets state (str "app")), state))
    × (is_connected stub state ≡ (true, state))
    × (Client.get_info stub state ≡ (seen (Mock.get_info state), state))
    × (Client.read_metadata stub (str "app") state
        ≡ (wired (seen (optional (Mock.read_metadata state (str "app")))), state))
    × (Client.change_pin stub (str "1") (str "2") state ≡ (
        if pins_are_valid (str "1") (str "2")
        then (seen (Mock.change_pin state (str "1") (str "2")), state)
        else (refused invalid_argument, state)))
grpc_client-seen_example =
    grpc_client-seen stub hsm stub-Delivers state refl (str "app") secret none (str "user")
      (str "1") (str "2") valid

validate_secret_data-IsPlain_example :
    IsPlain (str "app") secret
    × (is_empty (str "app") ≡ false)
    × (is_empty secret ≡ false)
    × (total_size secret ≤ 1048576)
validate_secret_data-IsPlain_example =
    validate_secret_data-IsPlain (str "app") secret valid valid_data (λ e m. absurd m, tt)

-- Clients are numbers; they answer as the flag says.
abbrev dialer : Bool → Dialer ℕ ℕ
dialer answers = record {
  new_grpc_client = λ endpoint w. (some 7, w);
  initialize = λ c w. (true, w);
  is_connected = λ c w. (answers, w);
  close = λ c w. (true, w + 1);
  now = λ w. (pos 0, w);
  sleep = λ n w. (tt, w);
}

Reach-IsSound_example :
    IsSound (get_client (dialer false) (str "agent") (new_connection_pool, 0)).1.0
Reach-IsSound_example =
    Reach-IsSound (dialer false) 0 _
      (get_client-Reach (dialer false) (str "agent") (new_connection_pool, 0))

abbrev pooled : PooledClient ℕ
pooled = record {
  client = 7;
  endpoint = str "agent";
  created_at = pos 0;
  last_used = pos 0;
  usage_count = 1;
  in_use = true;
  ref_count = pos 1;
  last_op_start = pos 0;
}

abbrev one_client : ConnectionPool ℕ
one_client = record new_connection_pool { clients = (str "agent", pooled) ∷ [] }

get_client-Ended_example :
    let (r, (p', w')) = get_client (dialer true) (str "agent") (one_client, 0) in
    Ended (dialer true) (str "agent") r p' w'
get_client-Ended_example = get_client-Ended (dialer true) (str "agent") one_client 0

-- Kubernetes and the JWT library: the token that is the number of its one byte is valid.
abbrev claims : Claims
claims = record {
  service_account = str "app";
  namespace = str "web";
  expires_at = pos 1800;
  issued_at = pos 0;
  not_before = pos 0;
  issuer = str "hsm-secrets-operator";
  subject = str "app.web";
}

abbrev review : Review
review = record { authenticated = true; username = str "system:serviceaccount:web:app" }

abbrev authority : Authority ℕ
authority = record {
  review_token = λ token w. (if str_eq token (str "k8s") then some review else none, w);
  has_service_account = λ ns name w. (true, w);
  now = λ w. (pos w, w);
  sign = λ c. some (str "t");
  parse = λ token w. (if str_eq token (str "t") then some claims else none, w);
}

auth_middleware-passes_example :
    (has_prefix (str "Bearer t") bearer_prefix ≡ true)
    × ((c : Claims) × ((authority.parse (behind bearer_prefix (str "Bearer t")) 0).0 ≡ some c)
        × (some claims ≡ some c))
unfolding auth_middleware is_exempt has_suffix has_prefix check_header check_token behind str_eq
auth_middleware-passes_example =
    auth_middleware-passes authority (str "/api/v1/hsm/secrets") (str "Bearer t") 0 (some claims)
      refl refl

auth_middleware-Exempt_example :
    ((auth_middleware authority (str "/api/v1/hsm/secrets/health") [] 0).0 ≡ passes none)
    ↔ Exempt (str "/api/v1/hsm/secrets/health")
auth_middleware-Exempt_example =
    auth_middleware-Exempt authority (str "/api/v1/hsm/secrets/health") [] 0

generate_token-reviewed_example :
    (r : Review) × (c : Claims) × ((authority.review_token (str "k8s") 0).0 ≡ some r)
    × (r.authenticated ≡ true)
    × (split_colon r.username
        ≡ str "system" ∷ str "serviceaccount" ∷ c.namespace ∷ c.service_account ∷ [])
    × (authority.sign c ≡ some (str "t"))
unfolding generate_token str_eq
generate_token-reviewed_example = generate_token-reviewed authority (str "k8s") 0 (str "t") refl
