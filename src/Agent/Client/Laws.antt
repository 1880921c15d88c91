-- ===== src/Agent/Client/Laws.antt =====
-- GRPCClient of internal/agent/grpc_client.go against the server of internal/agent/grpc_server.go:
-- through a transport that delivers, the client is the HSM client that the agent serves.
use hsm_secrets_operator.Common.{
  ◌≡◌, refl, ap, ◌∙◌, ◌⊎◌, inl, inr, [], ◌∷◌, true, Bool-cases, Option, none, some, if◌then◌else◌,
  Str, arith,
}
use hsm_secrets_operator.Common.State.{State}
use hsm_secrets_operator.Hsm.{SecretData, SecretMetadata}
use hsm_secrets_operator.Hsm.Errors.{Error, Result, ok, err}
use hsm_secrets_operator.Security.Validation.{validate_secret_path, intercept, is_blank}
use hsm_secrets_operator.Agent.Rpc.{
  HsmClient, internal, invalid_argument, Rpc, refused, replied, AgentStub,
}
use hsm_secrets_operator.Agent.Server.{
  served, if_connected, serve_get_info, serve_read_secret, serve_write_secret, serve_read_metadata,
  serve_delete_secret, serve_list_secrets, serve_get_checksum, serve_is_connected, serve_change_pin,
  pins_are_valid, change_valid_pin,
}
use hsm_secrets_operator.Agent.Client.{
  answered, copied, get_info, read_metadata, change_pin, read_secret, write_secret, delete_secret,
  delete_secret_key, list_secrets, get_checksum, is_connected,
}

-- Metadata after its way over the wire, where an empty map is a missing one.
abbrev pub on_wire : Option SecretMetadata → Option SecretMetadata
on_wire none = none
on_wire (some md) = some (record md {
  labels = elim md.labels [
    | none ↦ none
    | some labels ↦ elim labels [ [] ↦ none | ◌∷◌ e es ↦ some (e ∷ es) ]
  ];
})

abbrev pub wired : Rpc (Option SecretMetadata) → Rpc (Option SecretMetadata)
wired (refused code) = refused code
wired (replied md) = replied (on_wire md)

-- A transport that delivers: each call is the handler of the server behind the interceptor, and
-- messages arrive as protobuf encodes them.
pub record Delivers {W : Type 0} (stub : AgentStub W) (server : Option (HsmClient W)) : Type 0 where
  pub get_info : (w : W) → stub.get_info w ≡ serve_get_info server w
  pub read_secret :
      (p : Str) (w : W) → stub.read_secret p w ≡ intercept p (serve_read_secret server p) w
  pub write_secret :
      (p : Str) (d : Option SecretData) (md : Option SecretMetadata) (w : W)
      → stub.write_secret p d md w ≡ intercept p (serve_write_secret server p d (on_wire md)) w
  pub read_metadata :
      (p : Str) (w : W)
      → stub.read_metadata p w
        ≡ let (r, w') = intercept p (serve_read_metadata server p) w in (wired r, w')
  pub delete_secret :
      (p key : Str) (w : W)
      → stub.delete_secret p key w ≡ intercept p (serve_delete_secret server p key) w
  pub list_secrets : (p : Str) (w : W) → stub.list_secrets p w ≡ serve_list_secrets server p w
  pub get_checksum :
      (p : Str) (w : W) → stub.get_checksum p w ≡ intercept p (serve_get_checksum server p) w
  pub is_connected : (w : W) → stub.is_connected w ≡ serve_is_connected server w
  pub change_pin :
      (old new : Str) (w : W) → stub.change_pin old new w ≡ serve_change_pin server old new w

-- What the caller sees of a call of the HSM client.
abbrev pub seen : {A : Type 0} → Result A → Rpc A
seen (err e) = refused (internal e)
seen (ok a) = replied a

Result-cases : {A : Type 0} (r : Result A) → ((a : A) × (r ≡ ok a)) ⊎ ((e : Error) × (r ≡ err e))
Result-cases (ok a) = inl (a, refl)
Result-cases (err e) = inr (e, refl)

-- A call through the stub that is served by a call of the HSM client, and then converted back.
answered-served :
    {W A B : Type 0} (answer : A → B) (convert : B → A) (asked : State W (Rpc B))
    (call : State W (Result A)) (w : W)
    → ((a : A) → convert (answer a) ≡ a)
    → asked w ≡ served answer call w
    → answered convert asked w ≡ (seen (call w).0, (call w).1)
answered-served {W = W} {A = A} {B = B} answer convert asked call w back e =
    ap after e ∙ arrived (call w).0 (call w).1
  where
    after : Rpc B × W → Rpc A × W
    after x = elim x.0 [
      | refused code ↦ (refused code, x.1)
      | replied b ↦ (replied (convert b), x.1)
    ]

    arrived :
        (r : Result A) (w' : W)
        → after (elim r [ err e ↦ (refused (internal e), w') | ok a ↦ (replied (answer a), w') ])
          ≡ (seen r, w')
    arrived (err e) w' = refl
    arrived (ok a) w' = ap (λ b. (replied b, w')) (back a)

passes :
    {W A : Type 0} (p : Str) (handler : State W (Rpc A)) (w : W)
    → validate_secret_path p ≡ none
    → intercept p handler w ≡ handler w
unfolding intercept
passes p handler w h = rw (intercept, h) refl

copied-some : (data' : SecretData) → copied (some data') ≡ data'
unfolding copied
copied-some data' = refl

blank_fails : ¬ (validate_secret_path [] ≡ none)
unfolding validate_secret_path
blank_fails h = cc

module _ {W : Type 0} (c : HsmClient W) (w : W) (on : c.is_connected w ≡ (true, w)) where
  connected_rest :
      {B : Type 0} (rest : HsmClient W → State W (Rpc B)) → if_connected (some c) rest w ≡ rest c w
  unfolding if_connected
  connected_rest rest = rw (if_connected, on, on) refl

module _ {W : Type 0} (stub : AgentStub W) (c : HsmClient W) (delivers : Delivers stub (some c))
    (w : W) (on : c.is_connected w ≡ (true, w)) where
  -- What a call through the stub is, for each operation.
  asked_read :
      (p : Str)
      → validate_secret_path p ≡ none
      → stub.read_secret p w ≡ served some (c.read_secret p) w
  unfolding serve_read_secret
  asked_read [] valid = absurd (blank_fails valid)
  asked_read (b ∷ p) valid =
      delivers.read_secret (b ∷ p) w
      ∙ passes (b ∷ p) (serve_read_secret (some c) (b ∷ p)) w valid
      ∙ connected_rest c w on (λ c. served some (c.read_secret (b ∷ p)))

  asked_write :
      (p : Str) (data' : SecretData) (md : Option SecretMetadata)
      → validate_secret_path p ≡ none
      → stub.write_secret p (some data') md w
        ≡ served (λ u. u) (c.write_secret p data' (on_wire md)) w
  unfolding serve_write_secret
  asked_write [] data' md valid = absurd (blank_fails valid)
  asked_write (b ∷ p) data' md valid =
      delivers.write_secret (b ∷ p) (some data') md w
      ∙ passes (b ∷ p) (serve_write_secret (some c) (b ∷ p) (some data') (on_wire md)) w valid
      ∙ connected_rest c w on (λ c. served (λ u. u) (c.write_secret (b ∷ p) data' (on_wire md)))

  asked_delete :
      (p key : Str)
      → validate_secret_path p ≡ none
      → stub.delete_secret p key w
        ≡ served (λ u. u) (if is_blank key then c.delete_secret p else c.delete_secret_key p key) w
  unfolding serve_delete_secret
  asked_delete [] key valid = absurd (blank_fails valid)
  asked_delete (b ∷ p) key valid =
      delivers.delete_secret (b ∷ p) key w
      ∙ passes (b ∷ p) (serve_delete_secret (some c) (b ∷ p) key) w valid
      ∙ connected_rest c w on (λ c.
        served (λ u. u)
          (if is_blank key then c.delete_secret (b ∷ p) else c.delete_secret_key (b ∷ p) key))

  asked_checksum :
      (p : Str)
      → validate_secret_path p ≡ none
      → stub.get_checksum p w ≡ served (λ s. s) (c.get_checksum p) w
  unfolding serve_get_checksum
  asked_checksum [] valid = absurd (blank_fails valid)
  asked_checksum (b ∷ p) valid =
      delivers.get_checksum (b ∷ p) w
      ∙ passes (b ∷ p) (serve_get_checksum (some c) (b ∷ p)) w valid
      ∙ connected_rest c w on (λ c. served (λ s. s) (c.get_checksum (b ∷ p)))

  asked_connected : is_connected stub w ≡ (true, w)
  unfolding is_connected serve_is_connected
  asked_connected = ground (arith, delivers.is_connected w, on)

  asked_info : stub.get_info w ≡ served (λ info. info) c.get_info w
  unfolding serve_get_info
  asked_info = delivers.get_info w ∙ connected_rest c w on (λ c. served (λ info. info) c.get_info)

  asked_metadata :
      (p : Str)
      → validate_secret_path p ≡ none
      → stub.read_metadata p w
        ≡ let (r, w') = served (λ md. md) (c.read_metadata p) w in (wired r, w')
  unfolding serve_read_metadata
  asked_metadata [] valid = absurd (blank_fails valid)
  asked_metadata (b ∷ p) valid =
      delivers.read_metadata (b ∷ p) w
      ∙ ap (λ (x : Rpc (Option SecretMetadata) × W). (wired x.0, x.1))
          (passes (b ∷ p) (serve_read_metadata (some c) (b ∷ p)) w valid
            ∙ connected_rest c w on (λ c. served (λ md. md) (c.read_metadata (b ∷ p))))

  metadata-seen :
      (p : Str)
      → validate_secret_path p ≡ none
      → read_metadata stub p w ≡ (wired (seen (c.read_metadata p w).0), (c.read_metadata p w).1)
  unfolding read_metadata
  metadata-seen p valid =
      let e = asked_metadata p valid in
      elim (Result-cases (c.read_metadata p w).0) [
        | inl (md, h) ↦ ground (arith, e, h)
        | inr (x, h) ↦ ground (arith, e, h)
      ]

  pin-seen :
      (old new : Str)
      → change_pin stub old new w ≡ (
          if pins_are_valid old new
          then (seen (c.change_pin old new w).0, (c.change_pin old new w).1)
          else (refused invalid_argument, w))
  unfolding change_pin serve_change_pin change_valid_pin
  pin-seen old new =
      let e = delivers.change_pin old new w in
      elim (Bool-cases (pins_are_valid old new)) [
        | inl y ↦ elim (Result-cases (c.change_pin old new w).0) [
          | inl (u, h) ↦ ground (arith, e, on, y, h)
          | inr (x, h) ↦ ground (arith, e, on, y, h)
        ]
        | inr n ↦ ground (arith, e, on, n)
      ]

  -- Through a transport that delivers, to an agent whose HSM client is connected, each call of the
  -- gRPC client to the agent, on a valid path where it has one, has the result and the effect of the
  -- same call of the HSM client, its error as codes.Internal, except that a metadata map with no
  -- labels arrives as a missing one, that a deletion of an empty key deletes the whole secret, that
  -- PINs that are empty or the same are refused, and that IsConnected only tells that there is a
  -- connection.
  pub grpc_client-seen :
      (path : Str) (data' : SecretData) (md : Option SecretMetadata) (key old new : Str)
      → validate_secret_path path ≡ none
      → (read_secret stub path w ≡ (seen (c.read_secret path w).0, (c.read_secret path w).1))
        × (write_secret stub path data' md w ≡ (
          seen (c.write_secret path data' (on_wire md) w).0,
          (c.write_secret path data' (on_wire md) w).1,
        ))
        × (delete_secret stub path w
            ≡ (seen (c.delete_secret path w).0, (c.delete_secret path w).1))
        × (delete_secret_key stub path key w
            ≡ let (r, w') =
                (if is_blank key then c.delete_secret path else c.delete_secret_key path key) w in
              (seen r, w'))
        × (get_checksum stub path w ≡ (seen (c.get_checksum path w).0, (c.get_checksum path w).1))
        × (list_secrets stub path w ≡ (seen (c.list_secrets path w).0, (c.list_secrets path w).1))
        × (is_connected stub w ≡ (true, w))
        × (get_info stub w ≡ (seen (c.get_info w).0, (c.get_info w).1))
        × (read_metadata stub path w
            ≡ (wired (seen (c.read_metadata path w).0), (c.read_metadata path w).1))
        × (change_pin stub old new w ≡ (
            if pins_are_valid old new
            then (seen (c.change_pin old new w).0, (c.change_pin old new w).1)
            else (refused invalid_argument, w)))
  unfolding get_info read_secret write_secret delete_secret delete_secret_key get_checksum
      list_secrets serve_list_secrets
  grpc_client-seen path data' md key old new valid = (
    answered-served some copied (stub.read_secret path) (c.read_secret path) w copied-some
        (asked_read path valid),
    answered-served (λ u. u) (λ u. tt) (stub.write_secret path (some data') md)
        (c.write_secret path data' (on_wire md)) w (λ a. refl) (asked_write path data' md valid),
    answered-served (λ u. u) (λ u. tt) (stub.delete_secret path []) (c.delete_secret path) w
        (λ a. refl) (asked_delete path [] valid),
    answered-served (λ u. u) (λ u. tt) (stub.delete_secret path key)
        (if is_blank key then c.delete_secret path else c.delete_secret_key path key) w (λ a. refl)
        (asked_delete path key valid),
    answered-served (λ s. s) (λ s. s) (stub.get_checksum path) (c.get_checksum path) w (λ a. refl)
        (asked_checksum path valid),
    answered-served (λ s. s) (λ s. s) (stub.list_secrets path) (c.list_secrets path) w (λ a. refl)
        (delivers.list_secrets path w
          ∙ connected_rest c w on (λ c. served (λ s. s) (c.list_secrets path))),
    asked_connected,
    answered-served (λ i. i) (λ i. i) stub.get_info c.get_info w (λ a. refl) asked_info,
    metadata-seen path valid,
    pin-seen old new,
  )
