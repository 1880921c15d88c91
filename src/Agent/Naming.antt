-- ===== src/Agent/Naming.antt =====
-- internal/agent/naming.go: the name of the agent of a device. A serial number is the list of its
-- runes, and a name the list of its bytes; sanitizing leaves runes of one byte only.
pub mod Bytes
pub mod Laws
use hsm_secrets_operator.Common.{
  ℕ, zero, suc, ◌+◌, List, [], ◌∷◌, ◌++◌, length, map, Bool, true, false, ◌&&◌, ◌||◌, Option, none,
  some, if◌then◌else◌, ltb, leb, ◌==◌, Str, str,
}

-- maxAgentNameLength
abbrev pub max_agent_name_length : ℕ
max_agent_name_length = 63

-- AgentNamePrefix of internal/agent/manager.go
abbrev pub agent_name_prefix : Str
agent_name_prefix = str "hsm-agent"

abbrev pub dash : ℕ
dash = 45

abbrev pub is_lower : ℕ → Bool
is_lower r = leb 97 r && leb r 122

abbrev pub is_digit : ℕ → Bool
is_digit r = leb 48 r && leb r 57

abbrev is_upper : ℕ → Bool
is_upper r = leb 65 r && leb r 90

-- the function that strings.Map applies in sanitizeNameSegment
unfoldable pub sanitize_rune : ℕ → ℕ
sanitize_rune r =
    if is_lower r then r else if is_digit r then r else if is_upper r then r + 32 else dash

abbrev pub is_blank : Str → Bool
is_blank [] = true
is_blank (b ∷ bs) = false

-- strings.TrimRight(s, "-")
unfoldable pub trim_right : Str → Str
trim_right [] = []
trim_right (b ∷ bs) =
    let rest = trim_right bs in if b == dash && is_blank rest then [] else b ∷ rest

-- strings.TrimLeft(s, "-")
unfoldable pub trim_left : Str → Str
trim_left [] = []
trim_left (b ∷ bs) = let rest = trim_left bs in if b == dash then rest else b ∷ bs

-- sanitizeNameSegment
unfoldable pub sanitize_name_segment : List ℕ → Str
unfolding sanitize_rune trim_right trim_left
sanitize_name_segment value = trim_right (trim_left (map sanitize_rune value))

-- s[:n], of a string that is longer
unfoldable pub take : ℕ → Str → Str
take zero s = []
take (suc n) [] = []
take (suc n) (b ∷ bs) = b ∷ take n bs

-- AgentInstanceName once the serial number is sanitized; `none` is ("", false)
unfoldable pub instance_name : Str → Str → Option Str
unfolding trim_right take
instance_name device_name [] = none
instance_name device_name (b ∷ bs) =
    let name = agent_name_prefix ++ (str "-" ++ (device_name ++ (str "-" ++ (b ∷ bs)))) in
    some (
      if ltb max_agent_name_length (length name)
      then trim_right (take max_agent_name_length name)
      else name)

-- AgentInstanceName
unfoldable pub agent_instance_name : Str → List ℕ → Option Str
unfolding sanitize_name_segment instance_name
agent_instance_name device_name serial = instance_name device_name (sanitize_name_segment serial)
