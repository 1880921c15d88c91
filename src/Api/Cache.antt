-- ===== src/Api/Cache.antt =====
-- The clients that ProxyClient of internal/api/proxy_client.go keeps, by serial number. The state is
-- the map `grpcClients` with the world; `none` is an answer of no agents, which the caller sends.
pub mod Laws
pub mod Cleanup
use hsm_secrets_operator.Common.{
  ℕ, List, [], ◌∷◌, length, Bool, true, false, Option, none, some, if◌then◌else◌, Str, Dict, get,
  put, delete,
}
use hsm_secrets_operator.Common.State.{State, pure, ◌>>=◌, ◌>>◌}
use hsm_secrets_operator.Mirror.{DiscoveredDevice}
use hsm_secrets_operator.Api.{Clients}

-- A call of the world, which leaves the map of clients as it is.
abbrev pub lift : {W C A : Type 0} → State W A → State (Dict C × W) A
lift m (cache, w) = let (a, w') = m w in (a, (cache, w'))

-- clients[serial] = client, where there is one
unfoldable pub add_client : {C : Type 0} → DiscoveredDevice → Option C → Dict C → Dict C
add_client d none clients = clients
add_client d (some c) clients = put d.serial_number c clients

abbrev pub some_clients : {C : Type 0} → Dict C → Option (Dict C)
some_clients [] = none
some_clients (e ∷ es) = some (e ∷ es)

module _ {W C : Type 0} (p : Clients W C) where
  -- the new client of a device, which is kept
  unfoldable pub create_cached : DiscoveredDevice → State (Dict C × W) (Option C)
  create_cached d (cache, w) =
      let (r, w') = p.create d w in
      elim r [ none ↦ (none, (cache, w')) | some c ↦ (some c, (put d.serial_number c cache, w')) ]

  -- a kept client that is not connected is closed and forgotten
  unfoldable pub replace : DiscoveredDevice → C → State (Dict C × W) (Option C)
  unfolding create_cached
  replace d old (cache, w) =
      let (_, w') = p.close old w in create_cached d (delete d.serial_number cache, w')

  -- the client of one device of the loop of getAllAvailableGRPCClients
  unfoldable pub client_of : DiscoveredDevice → State (Dict C × W) (Option C)
  unfolding create_cached replace
  client_of d (cache, w) = elim (get d.serial_number cache) [
    | none ↦ create_cached d (cache, w)
    | some old ↦
        let (r, w') = p.is_connected old w in
        elim r [ true ↦ (some old, (cache, w')) | false ↦ replace d old (cache, w') ]
  ]

  -- the loop of getAllAvailableGRPCClients
  unfoldable pub gather : List DiscoveredDevice → Dict C → State (Dict C × W) (Dict C)
  unfolding client_of add_client
  gather [] clients s = (clients, s)
  gather (d ∷ ds) clients s = let (c, s') = client_of d s in gather ds (add_client d c clients) s'

  -- getAllAvailableGRPCClients
  unfoldable pub get_all_available_grpc_clients : State (Dict C × W) (Option (Dict C))
  unfolding gather
  get_all_available_grpc_clients (cache, w) =
      let (r, w') = p.available w in
      elim r [
        | none ↦ (none, (cache, w'))
        | some ds ↦ let (clients, s) = gather ds [] (cache, w') in (some_clients clients, s)
      ]

  -- the last error of the clients that are closed
  unfoldable close_each : Dict C → Option Str → State W (Option Str)
  close_each [] last w = (last, w)
  close_each ((k, c) ∷ cs) last w =
      let (r, w') = p.close c w in
      elim r [ none ↦ close_each cs last w' | some e ↦ close_each cs (some e) w' ]

  -- Close
  unfoldable close : State (Dict C × W) (Option Str)
  unfolding close_each
  close (cache, w) = let (e, w') = close_each cache none w in (e, ([], w'))

  -- the loop of CleanupDisconnectedClients over the entries of the map
  unfoldable pub cleanup_each : Dict C → State (Dict C × W) (Unit {0})
  cleanup_each [] s = (tt, s)
  cleanup_each ((k, c) ∷ cs) (cache, w) =
      let (r, w') = p.is_connected c w in
      elim r [
        | true ↦ cleanup_each cs (cache, w')
        | false ↦ let (_, w'') = p.close c w' in cleanup_each cs (delete k cache, w'')
      ]

  -- CleanupDisconnectedClients
  unfoldable pub cleanup_disconnected_clients : State (Dict C × W) (Unit {0})
  unfolding cleanup_each
  cleanup_disconnected_clients (cache, w) = cleanup_each cache (cache, w)

-- GetClientCount
unfoldable get_client_count : {C : Type 0} → Dict C → ℕ
get_client_count cache = length cache
