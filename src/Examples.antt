-- ===== src/Examples.antt =====
-- Concrete instances: a clock, a digest, numbers of one digit, a device, and clients of the proxy that
-- never fail.
pub mod Resolution
pub mod Tokens
pub mod Fleet
pub mod Mirroring
pub mod Proxy
pub mod Requests
pub mod Serving
pub mod Hardware
pub mod Connections
use hsm_secrets_operator.Common.{
  ℕ, ◌+◌, ◌-◌, ◌≡◌, refl, ◌⊎◌, inl, List, [], ◌∷◌, Bool, true, false, ◌&&◌, Option, none, some,
  if◌then◌else◌, Option-cases, ℤ, pos, negsuc, Str, str, str_eq, str_eq_refl, str_eq_iff, arith,
}
use hsm_secrets_operator.Golib.{Golib}
use hsm_secrets_operator.Hsm.{SecretData, SecretMetadata}
use hsm_secrets_operator.Mirror.{DiscoveredDevice}
use hsm_secrets_operator.Api.{Clients}
use hsm_secrets_operator.Api.Devices.Stores.{Stored}

pub differ : (a b : Str) → str_eq a b ≡ false → ¬ (a ≡ b)
differ a b n e = ground (arith, str_eq_iff a b)

abbrev digit : Str → Option ℤ
digit [] = none
digit (b ∷ bs) = some (pos (b - 48))

abbrev print_digit : ℤ → Str
print_digit (pos n) = (48 + n) ∷ []
print_digit (negsuc n) = str "-"

abbrev pub golib : Golib
golib = record {
  scan_int = digit;
  print_int = print_digit;
  parse_time = λ s. none;
  print_time = λ t. [];
  sha256_hex = λ bytes. bytes;
}

abbrev pub device : Str → DiscoveredDevice
device serial = record {
  device_path = str "/dev/hsm";
  serial_number = serial;
  node_name = str "node";
  available = true;
}

pub stores : {A : Type 0} (s q : Str) (a b : A) → (if str_eq s s && str_eq q q then a else b) ≡ a
stores s q a b = rw (str_eq_refl s, str_eq_refl q) refl

pub elsewhere :
    {A : Type 0} (s d q p : Str) (a b : A)
    → ¬ (s ≡ d) ⊎ ¬ (q ≡ p)
    → (if str_eq s d && str_eq q p then a else b) ≡ b
elsewhere s d q p a b h = ground (arith, str_eq_iff s d, str_eq_iff q p)

-- What each device holds, for the clients of the proxy, which are named by their device.
abbrev pub Held : Type 0
Held = Str → Str → Option (SecretData × SecretMetadata)

abbrev held_data : Option (SecretData × SecretMetadata) → Option SecretData
held_data none = none
held_data (some (d, m)) = some d

abbrev held_metadata : Option (SecretData × SecretMetadata) → Option (Option SecretMetadata)
held_metadata none = none
held_metadata (some (d, m)) = some (some m)

abbrev pub clients : Clients Held Str
clients = record {
  available = λ w. (some (device (str "a") ∷ device (str "b") ∷ []), w);
  create = λ d w. (some d.serial_number, w);
  is_connected = λ c w. (str_eq c (str "a"), w);
  close = λ c w. (none, w);
  get_info = λ c w. (none, w);
  read_secret = λ c p w. (held_data (w c p), w);
  read_metadata = λ c p w. (held_metadata (w c p), w);
  write_secret =
      λ c p d m w. (none, λ s q. if str_eq s c && str_eq q p then some (d, m) else w s q);
  delete_secret = λ c p w. (none, λ s q. if str_eq s c && str_eq q p then none else w s q);
  delete_secret_key = λ c p k w. (some (str "refused"), w);
  list_secrets = λ c p w. (none, w);
  get_checksum = λ c p w. (none, w);
  change_pin = λ c o n w. (some (str "refused"), w);
  now = λ w. (pos 0, w);
}

abbrev pub clients-Stored : Stored clients
clients-Stored = record {
  holds = λ w c q. w c q;
  write_stores = λ c p d m w h. stores c p _ _;
  write_frame = λ c other p q d m w h. elsewhere other c q p _ _ (inl h);
}
