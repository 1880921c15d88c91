-- ===== src/Security/Auth.antt =====
-- internal/security/api_auth.go: the tokens of the HTTP API and the middleware that asks for them.
pub mod Exempt
pub mod Issue
pub mod Laws
use hsm_secrets_operator.Common.{
  ℕ, List, [], ◌∷◌, ◌++◌, Bool, true, false, not, ◌&&◌, ◌||◌, Option, none, some, if◌then◌else◌,
  ◌==◌, ℤ, Str, str, str_eq,
}
use hsm_secrets_operator.Common.State.{State}
use hsm_secrets_operator.Hsm.Mock.{has_prefix}
use hsm_secrets_operator.Hsm.Pin.{add_seconds}
use hsm_secrets_operator.Hsm.Hardware.{has_suffix, behind}

-- Claims, with the registered claims that are set; times are seconds since 1970
pub record Claims : Type 0 where
  pub service_account : Str
  pub namespace : Str
  pub expires_at : ℤ
  pub issued_at : ℤ
  pub not_before : ℤ
  pub issuer : Str
  pub subject : Str

-- ServiceAccountInfo, as far as it is read
record ServiceAccountInfo : Type 0 where
  pub service_account : Str
  pub namespace : Str

-- The status of a TokenReview.
pub record Review : Type 0 where
  pub authenticated : Bool
  pub username : Str

-- Kubernetes, the clock and the JWT library with the secret of the authenticator: the review of a
-- token, whether a service account of a namespace and a name is there, time.Now(), the signature of
-- claims, and jwt.ParseWithClaims for HMAC, which gives the claims of a valid token.
pub record Authority (W : Type 0) : Type 0 where
  pub review_token : Str → State W (Option Review)
  pub has_service_account : Str → Str → State W Bool
  pub now : State W ℤ
  pub sign : Claims → Option Str
  pub parse : Str → State W (Option Claims)

abbrev token_validity_period : ℕ
token_validity_period = 1800

abbrev pub bearer_prefix : Str
bearer_prefix = str "Bearer "

abbrev cons_head : ℕ → List Str → List Str
cons_head c [] = (c ∷ []) ∷ []
cons_head c (p ∷ ps) = (c ∷ p) ∷ ps

-- strings.Split(s, ":")
unfoldable pub split_colon : Str → List Str
split_colon [] = [] ∷ []
split_colon (c ∷ s) = let rest = split_colon s in if c == 58 then [] ∷ rest else cons_head c rest

-- the service account of a user name
unfoldable service_account_of : List Str → Option ServiceAccountInfo
service_account_of (a ∷ b ∷ c ∷ d ∷ []) =
    if not (str_eq a (str "system"))
    then none
    else if not (str_eq b (str "serviceaccount"))
    then none
    else some (record { service_account = d; namespace = c })
service_account_of parts = none

-- What the middleware does: it lets the request pass, with claims if a token was checked, or stops
-- it with 401 and a reason.
pub data Reason : Type 0 where
  missing_auth_header invalid_auth_format invalid_token : Reason

pub data Outcome : Type 0 where
  passes : Option Claims → Outcome
  unauthorized : Reason → Outcome

abbrev pub is_blank : Str → Bool
is_blank [] = true
is_blank (b ∷ bs) = false

-- the paths for which the middleware asks for no token
unfoldable pub is_exempt : Str → Bool
is_exempt path =
    has_suffix path (str "/health")
    || has_suffix path (str "/healthz")
    || has_suffix path (str "/auth/token")
    || str_eq path (str "/")
    || has_prefix path (str "/web/")

module _ {W : Type 0} (authority : Authority W) where
  -- validateServiceAccountToken
  unfoldable validate_service_account_token : Str → State W (Option ServiceAccountInfo)
  unfolding split_colon service_account_of
  validate_service_account_token token w =
      let (r, w') = authority.review_token token w in
      elim r [
        | none ↦ (none, w')
        | some review ↦ (
          if not review.authenticated
              then none
              else service_account_of (split_colon review.username),
          w',
        )
      ]

  -- the claims of a service account
  unfoldable claims_of : ServiceAccountInfo → State W Claims
  claims_of info w =
      let (t1, w1) = authority.now w in
      let (t2, w2) = authority.now w1 in
      let (t3, w3) = authority.now w2 in
      (
        record {
          service_account = info.service_account;
          namespace = info.namespace;
          expires_at = add_seconds t1 token_validity_period;
          issued_at = t2;
          not_before = t3;
          issuer = str "hsm-secrets-operator";
          subject = info.service_account ++ (str "." ++ info.namespace);
        },
        w3,
      )

  -- the end of GenerateToken, for a service account that is there
  unfoldable sign_claims : ServiceAccountInfo → State W (Option Str)
  unfolding claims_of
  sign_claims info w = let (claims, w') = claims_of info w in (authority.sign claims, w')

  -- GenerateToken, with validateHSMPermissions
  unfoldable pub generate_token : Str → State W (Option Str)
  unfolding validate_service_account_token sign_claims
  generate_token k8s_token w =
      let (info, w') = validate_service_account_token k8s_token w in
      elim info [
        | none ↦ (none, w')
        | some i ↦
            let (there, w'') = authority.has_service_account i.namespace i.service_account w' in
            elim there [ true ↦ sign_claims i w'' | false ↦ (none, w'') ]
      ]

  -- the check of a token in AuthMiddleware
  unfoldable pub check_token : Str → State W Outcome
  check_token token w =
      let (r, w') = authority.parse token w in
      elim r [ none ↦ (unauthorized invalid_token, w') | some claims ↦ (passes (some claims), w') ]

  -- the check of the header in AuthMiddleware
  unfoldable pub check_header : Str → State W Outcome
  unfolding check_token
  check_header header w =
      if is_blank header
      then (unauthorized missing_auth_header, w)
      else if not (has_prefix header bearer_prefix)
      then (unauthorized invalid_auth_format, w)
      else check_token (behind bearer_prefix header) w

  -- AuthMiddleware on the path and the Authorization header of a request
  unfoldable pub auth_middleware : Str → Str → State W Outcome
  unfolding is_exempt check_header
  auth_middleware path header w = if is_exempt path then (passes none, w) else check_header header w

  -- HandleTokenGeneration: the status, with the token if there is one; the body may not bind
  unfoldable handle_token_generation : Option Str → State W (ℕ × Option Str)
  unfolding generate_token
  handle_token_generation none w = ((400, none), w)
  handle_token_generation (some k8s_token) w =
      let (token, w') = generate_token k8s_token w in
      elim token [ none ↦ ((401, none), w') | some t ↦ ((200, some t), w') ]
