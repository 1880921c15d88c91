-- ===== src/Examples/Serving.antt =====
-- The names of agents, and the PIN of a device, at concrete inputs.
use hsm_secrets_operator.Common.{
  ℕ, ◌+◌, ◌≡◌, refl, ◌↔◌, [], ◌∷◌, false, none, some, pos, Str, str, str_eq, get, arith,
}
use hsm_secrets_operator.Agent.Naming.{
  sanitize_rune, trim_right, trim_left, sanitize_name_segment, take, instance_name,
  agent_instance_name,
}
use hsm_secrets_operator.Agent.Naming.Laws.{
  SafeName, NameBytes-all, agent_instance_name-SafeName, agent_instance_name_collides,
}
use hsm_secrets_operator.Hsm.Pin.{
  SecretKeySelector, Kubernetes, KubernetesPinProvider, pin, panicked, is_fresh, get_pin, fetch,
  from_device, from_reference, from_data, keep, add_seconds,
}
use hsm_secrets_operator.Hsm.Pin.Laws.{Cached, get_pin-Cached, get_pin-panicked}

named : agent_instance_name (str "pico") (str "AB_12") ≡ some (str "hsm-agent-pico-ab-12")
unfolding agent_instance_name instance_name sanitize_name_segment sanitize_rune trim_right trim_left
named = refl

agent_instance_name-SafeName_example : SafeName (str "hsm-agent-pico-ab-12")
agent_instance_name-SafeName_example =
    agent_instance_name-SafeName (str "pico") (str "hsm-agent-pico-ab-12") (str "AB_12")
      (NameBytes-all (str "pico") refl) named

-- a device name of 52 bytes
abbrev long_name : Str
long_name = str "abcdefghijklmnopqrstuvwxyzabcdefghijklmnopqrstuvwxyz"

abbrev cut : Str
cut = str "hsm-agent-abcdefghijklmnopqrstuvwxyzabcdefghijklmnopqrstuvwxyz"

first_cut : agent_instance_name long_name (str "1") ≡ some cut
unfolding agent_instance_name instance_name sanitize_name_segment sanitize_rune trim_right trim_left
    take
first_cut = refl

second_cut : agent_instance_name long_name (str "2") ≡ some cut
unfolding agent_instance_name instance_name sanitize_name_segment sanitize_rune trim_right trim_left
    take
second_cut = refl

agent_instance_name_collides_example : cut ≡ cut
agent_instance_name_collides_example =
    agent_instance_name_collides long_name cut cut (str "1") (str "2") (omega arith) first_cut
      second_cut

abbrev reference : SecretKeySelector
reference = record { name = str "hsm-pin"; key = str "pin"; namespace = [] }

-- A clock that ticks when it is read, and a Secret with the PIN.
abbrev k8s : Kubernetes ℕ
k8s = record {
  get_device = λ namespace name w. (some (some (some reference)), w);
  get_secret = λ namespace name w. (some ((str "pin", str "1234") ∷ []), w);
  now = λ w. (pos w, w + 1);
}

-- A device without a PKCS#11 part.
abbrev bare : Kubernetes ℕ
bare = record k8s { get_device = λ namespace name w. (some none, w) }

abbrev provider : KubernetesPinProvider
provider = record {
  device_name = str "pico";
  namespace = str "hsm";
  cached_pin = [];
  cache_expiry = pos 0;
  cache_ttl = 600;
}

abbrev after : KubernetesPinProvider
after = record provider { cached_pin = str "1234"; cache_expiry = pos 602 }

get_pin-Cached_example :
    Cached k8s provider (get_pin k8s (provider, 1)).0 (get_pin k8s (provider, 1)).1.0
get_pin-Cached_example = get_pin-Cached k8s provider 1

fetched : get_pin k8s (provider, 1) ≡ (pin (str "1234"), (after, 3))
unfolding get_pin is_fresh fetch from_device from_reference from_data keep add_seconds get str_eq
fetched = refl

get_pin-panicked_example : ((get_pin bare (provider, 1)).0 ≡ panicked) ↔ (
    (is_fresh provider (pos 1) ≡ false)
    × ((bare.get_device (str "hsm") (str "pico") 2).0 ≡ some none))
get_pin-panicked_example = get_pin-panicked bare provider 1
