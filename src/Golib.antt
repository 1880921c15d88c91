-- ===== src/Golib.antt =====
-- The functions of Go's standard library that the program calls and this development takes as
-- parameters: scanning and printing numbers and times, and the SHA-256 digest.
use hsm_secrets_operator.Common.{ℕ, Option, List, Str, ℤ}

pub record Golib : Type 0 where
  -- fmt.Sscanf(s, "%d", &v): the number, if one was read
  pub scan_int : Str → Option ℤ
  -- fmt.Sprintf("%d", v)
  pub print_int : ℤ → Str
  -- time.Parse(time.RFC3339, s), as seconds since 1970
  pub parse_time : Str → Option ℤ
  -- Format(time.RFC3339) of a time in seconds since 1970
  pub print_time : ℤ → Str
  -- the digest of sha256 in lower-case hexadecimal digits
  pub sha256_hex : List ℕ → Str
