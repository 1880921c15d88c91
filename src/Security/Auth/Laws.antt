-- ===== src/Security/Auth/Laws.antt =====
-- Which requests pass the middleware of internal/security/api_auth.go.
use hsm_secrets_operator.Common.{
  ◌≡◌, sym, ◌∙◌, inl, inr, true, false, Option, none, some, Bool-cases, Option-cases, Str, arith,
}
use hsm_secrets_operator.Hsm.Mock.{has_prefix}
use hsm_secrets_operator.Hsm.Hardware.{behind}
use hsm_secrets_operator.Security.Auth.{
  Claims, Authority, passes, unauthorized, invalid_token, missing_auth_header, invalid_auth_format,
  bearer_prefix, is_exempt, check_token, check_header, auth_middleware, is_blank,
}

module _ {W : Type 0} (authority : Authority W) where
  check_token-invalid :
      (token : Str) (w : W)
      → (authority.parse token w).0 ≡ none
      → (check_token authority token w).0 ≡ unauthorized invalid_token
  unfolding check_token
  check_token-invalid token w e = ground (arith, e)

  check_token-valid :
      (token : Str) (w : W) (c : Claims)
      → (authority.parse token w).0 ≡ some c
      → (check_token authority token w).0 ≡ passes (some c)
  unfolding check_token
  check_token-valid token w c e = ground (arith, e)

  check_token-passes :
      (token : Str) (w : W) (claims : Option Claims)
      → (check_token authority token w).0 ≡ passes claims
      → (c : Claims) × ((authority.parse token w).0 ≡ some c) × (claims ≡ some c)
  check_token-passes token w claims h = elim (Option-cases (authority.parse token w).0) [
    | inl e ↦ absurd (cc (h, check_token-invalid token w e))
    | inr (c, e) ↦ (c, e, cc (h, check_token-valid token w c e))
  ]

  check_header-blank :
      (header : Str) (w : W)
      → is_blank header ≡ true
      → (check_header authority header w).0 ≡ unauthorized missing_auth_header
  unfolding check_header
  check_header-blank header w e = ground (arith, e)

  check_header-bare :
      (header : Str) (w : W)
      → is_blank header ≡ false
      → has_prefix header bearer_prefix ≡ false
      → (check_header authority header w).0 ≡ unauthorized invalid_auth_format
  unfolding check_header
  check_header-bare header w e e' = ground (arith, e, e')

  check_header-bearer :
      (header : Str) (w : W)
      → is_blank header ≡ false
      → has_prefix header bearer_prefix ≡ true
      → (check_header authority header w).0
        ≡ (check_token authority (behind bearer_prefix header) w).0
  unfolding check_header
  check_header-bearer header w e e' = ground (arith, e, e')

  auth_middleware-asks :
      (path header : Str) (w : W)
      → is_exempt path ≡ false
      → (auth_middleware authority path header w).0 ≡ (check_header authority header w).0
  unfolding auth_middleware
  auth_middleware-asks path header w e = ground (arith, e)

  -- A request that passes on a path that is not exempt has a header that begins with "Bearer ", and
  -- what follows is a valid token, whose claims are handed on.
  pub auth_middleware-passes :
      (path header : Str) (w : W) (claims : Option Claims)
      → is_exempt path ≡ false
      → (auth_middleware authority path header w).0 ≡ passes claims
      → (has_prefix header bearer_prefix ≡ true)
        × ((c : Claims) × ((authority.parse (behind bearer_prefix header) w).0 ≡ some c)
            × (claims ≡ some c))
  auth_middleware-passes path header w claims asks h =
      let h' = sym (auth_middleware-asks path header w asks) ∙ h in
      elim (Bool-cases (is_blank header)) [
        | inl blank ↦ absurd (cc (h', check_header-blank header w blank))
        | inr given ↦ elim (Bool-cases (has_prefix header bearer_prefix)) [
          | inl bearer ↦ (
            bearer,
            check_token-passes (behind bearer_prefix header) w claims
                (sym (check_header-bearer header w given bearer) ∙ h'),
          )
          | inr bare ↦ absurd (cc (h', check_header-bare header w given bare))
        ]
      ]
