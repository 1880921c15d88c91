-- ===== src/Mirror/Sweep.antt =====
-- Discovery of the secrets and MirrorAllSecrets of internal/mirror/manager.go.
pub mod Summary
use hsm_secrets_operator.Common.{
  ℕ, zero, suc, ◌+◌, List, [], ◌∷◌, Bool, true, false, not, Option, none, some, if◌then◌else◌, leb,
  Str, Dict, get, put, keys_of, sort_strings, length,
}
use hsm_secrets_operator.Common.State.{State, pure, for_each, ◌>>=◌, ◌>>◌}
use hsm_secrets_operator.Golib.{Golib}
use hsm_secrets_operator.Mirror.{
  DiscoveredDevice, Error, client_creation_failed, list_failed, no_devices, no_attempt,
  discovery_failed, Result, ok, err, MirrorResult, Agents, SecretInventory,
}
use hsm_secrets_operator.Mirror.Inventory.{build_secret_inventory}
use hsm_secrets_operator.Mirror.Plan.{create_mirror_plans}
use hsm_secrets_operator.Mirror.Execute.{empty_result, execute_mirror_plans}

abbrev add_paths : List Str → Dict Bool → Dict Bool
add_paths [] found = found
add_paths (path ∷ paths) found = add_paths paths (put path true found)

abbrev add_listing : Result (List Str) → Dict Bool → Dict Bool
add_listing (err e) found = found
add_listing (ok paths) found = add_paths paths found

-- deviceLookup
unfoldable pub device_lookup : List DiscoveredDevice → Dict DiscoveredDevice → Dict DiscoveredDevice
device_lookup [] m = m
device_lookup (d ∷ ds) m = device_lookup ds (put d.serial_number d m)

module _ {W : Type 0} (agents : Agents W) where
  -- the pause before the next attempt, as long as there is one
  abbrev back_off : ℕ → ℕ → State W (Unit {0})
  back_off zero attempt = pure tt
  back_off (suc left) attempt = agents.sleep attempt

  -- The loop of discoverDeviceSecretsWithRetry with `left` attempts to go. A client that was
  -- created is closed when the function returns, the last one first.
  unfoldable attempts : DiscoveredDevice → ℕ → ℕ → ℕ → Error → State W (Result (List Str))
  attempts d max zero attempt last w = (err (discovery_failed max last), w)
  attempts d max (suc left) attempt last w =
      let again =
        λ (e : Error) (v : W). attempts d max left (attempt + 1) e (back_off left attempt v).1 in
      let (created, w1) = agents.create_client d w in
      let (listed, w2) = agents.list_secrets d w1 in
      let failed = again list_failed w2 in
      let tried : Result (List Str) × W = elim listed [
        | none ↦ failed
        | some paths ↦ (ok paths, w2)
      ] in
      let closed : Result (List Str) × W = (tried.0, (agents.close_client d tried.1).1) in
      let refused = again client_creation_failed w1 in if created then closed else refused

  -- discoverDeviceSecretsWithRetry
  unfoldable discover_device_secrets_with_retry : DiscoveredDevice → ℕ → State W (Result (List Str))
  unfolding attempts
  discover_device_secrets_with_retry d max = attempts d max max 1 no_attempt

  abbrev discover_device : DiscoveredDevice → Dict Bool → State W (Dict Bool)
  discover_device d found = do
    listing ← discover_device_secrets_with_retry d 3
    pure (add_listing listing found)

  -- discoverAllSecrets: the set of paths, in ascending order
  unfoldable discover_all_secrets : List DiscoveredDevice → State W (List Str)
  unfolding discover_device_secrets_with_retry
  discover_all_secrets devices = do
    found ← for_each devices [] discover_device
    pure (sort_strings (keys_of found))

module _ {W : Type 0} (go : Golib) (agents : Agents W) where
  -- the plans for an inventory, if building it did not panic
  abbrev mirror_inventory :
      List DiscoveredDevice → Result SecretInventory → State W (Result MirrorResult)
  mirror_inventory devices (err e) = pure (err e)
  mirror_inventory devices (ok inventory) = do
    r ← execute_mirror_plans go agents (create_mirror_plans inventory) (device_lookup devices [])
    pure (ok r)

  abbrev mirror_paths : List DiscoveredDevice → List Str → State W (Result MirrorResult)
  mirror_paths devices [] = pure (ok (empty_result 0))
  mirror_paths devices (path ∷ paths) = do
    inventory ← build_secret_inventory go agents (path ∷ paths) devices
    mirror_inventory devices inventory

  abbrev mirror_devices : Option (List DiscoveredDevice) → State W (Result MirrorResult)
  mirror_devices none = pure (err no_devices)
  mirror_devices (some devices) =
      if leb (length devices) 1
      then pure (ok (empty_result 0))
      else do paths ← discover_all_secrets agents devices; mirror_paths devices paths

  -- MirrorAllSecrets
  unfoldable mirror_all_secrets : State W (Result MirrorResult)
  unfolding device_lookup discover_all_secrets
  mirror_all_secrets = do devices ← agents.available_devices; mirror_devices devices

  -- one device of WaitForAgentsReady: is there a client for it that is connected?
  unfoldable agent_ready : List DiscoveredDevice → State W Bool
  agent_ready [] w = (false, w)
  agent_ready (d ∷ ds) w =
      let (created, w1) = agents.create_client d w in
      let (up, w2) = agents.is_connected d w1 in
      let closed : Bool × W = (true, (agents.close_client d w2).1) in
      let next = agent_ready ds (if created then w2 else w1) in
      if created then (if up then closed else next) else next

  abbrev poll : Option (List DiscoveredDevice) → State W Bool
  poll none w = (false, w)
  poll (some devices) w = agent_ready devices w

  -- WaitForAgentsReady, with the number of ticks before the timeout; `false` is the timeout
  unfoldable wait_for_agents_ready : ℕ → State W Bool
  unfolding agent_ready
  wait_for_agents_ready zero w = (false, w)
  wait_for_agents_ready (suc ticks) w =
      let (devices, w1) = agents.available_devices w in
      let (ready, w2) = poll devices w1 in
      let later = wait_for_agents_ready ticks w2 in if ready then (true, w2) else later
