-- ===== src/Security/Auth/Issue.antt =====
-- Who gets a token from GenerateToken of internal/security/api_auth.go.
use hsm_secrets_operator.Common.{
  ◌≡◌, refl, sym, ◌∙◌, inl, inr, List, [], ◌∷◌, true, false, none, some, Bool-cases, Option-cases,
  Str, str, str_eq, str_eq_iff, arith,
}
use hsm_secrets_operator.Security.Auth.{
  Claims, ServiceAccountInfo, Review, Authority, split_colon, service_account_of,
  validate_service_account_token, claims_of, sign_claims, generate_token,
}

abbrev parts_of : ServiceAccountInfo → List Str
parts_of i = str "system" ∷ str "serviceaccount" ∷ i.namespace ∷ i.service_account ∷ []

account-other :
    (a b c d : Str)
    → str_eq a (str "system") ≡ false
    → service_account_of (a ∷ b ∷ c ∷ d ∷ []) ≡ none
unfolding service_account_of
account-other a b c d e = ground (arith, e)

account-kind :
    (a b c d : Str)
    → str_eq a (str "system") ≡ true
    → str_eq b (str "serviceaccount") ≡ false
    → service_account_of (a ∷ b ∷ c ∷ d ∷ []) ≡ none
unfolding service_account_of
account-kind a b c d e e' = ground (arith, e, e')

account-some :
    (a b c d : Str)
    → str_eq a (str "system") ≡ true
    → str_eq b (str "serviceaccount") ≡ true
    → service_account_of (a ∷ b ∷ c ∷ d ∷ []) ≡ some (record { service_account = d; namespace = c })
unfolding service_account_of
account-some a b c d e e' = ground (arith, e, e')

four_parts :
    (a b c d : Str) (i : ServiceAccountInfo)
    → service_account_of (a ∷ b ∷ c ∷ d ∷ []) ≡ some i
    → (a ∷ b ∷ c ∷ d ∷ []) ≡ parts_of i
four_parts a b c d i h = elim (Bool-cases (str_eq a (str "system"))) [
  | inr e ↦ absurd (cc (h, account-other a b c d e))
  | inl e ↦ elim (Bool-cases (str_eq b (str "serviceaccount"))) [
    | inr e' ↦ absurd (cc (h, account-kind a b c d e e'))
    | inl e' ↦
        let ea = (str_eq_iff a (str "system")).0 e in
        let eb = (str_eq_iff b (str "serviceaccount")).0 e' in
        let ei = sym (account-some a b c d e e') ∙ h in cc (ea, eb, ei)
  ]
]

-- an account comes from four parts
service_account_of-parts :
    (parts : List Str) (i : ServiceAccountInfo)
    → service_account_of parts ≡ some i
    → parts ≡ parts_of i
unfolding service_account_of
service_account_of-parts [] i h = absurd (cc h)
service_account_of-parts (a ∷ []) i h = absurd (cc h)
service_account_of-parts (a ∷ b ∷ []) i h = absurd (cc h)
service_account_of-parts (a ∷ b ∷ c ∷ []) i h = absurd (cc h)
service_account_of-parts (a ∷ b ∷ c ∷ d ∷ []) i h = four_parts a b c d i h
service_account_of-parts (a ∷ b ∷ c ∷ d ∷ e ∷ rest) i h = absurd (cc h)

module _ {W : Type 0} (authority : Authority W) where
  -- the claims that are signed are those of the account
  sign_claims-signed :
      (info : ServiceAccountInfo) (w : W) (t : Str)
      → (sign_claims authority info w).0 ≡ some t
      → (c : Claims) × (authority.sign c ≡ some t)
        × (c.service_account ≡ info.service_account)
        × (c.namespace ≡ info.namespace)
  unfolding sign_claims claims_of
  sign_claims-signed info w t h = ((claims_of authority info w).0, h, refl, refl)

  validate-none :
      (token : Str) (w : W)
      → (authority.review_token token w).0 ≡ none
      → (validate_service_account_token authority token w).0 ≡ none
  unfolding validate_service_account_token
  validate-none token w e = ground (arith, e)

  validate-refused :
      (token : Str) (w : W) (r : Review)
      → (authority.review_token token w).0 ≡ some r
      → r.authenticated ≡ false
      → (validate_service_account_token authority token w).0 ≡ none
  unfolding validate_service_account_token
  validate-refused token w r e e' = ground (arith, e, e')

  validate-reviewed :
      (token : Str) (w : W) (r : Review)
      → (authority.review_token token w).0 ≡ some r
      → r.authenticated ≡ true
      → (validate_service_account_token authority token w).0
        ≡ service_account_of (split_colon r.username)
  unfolding validate_service_account_token
  validate-reviewed token w r e e' = ground (arith, e, e')

  -- the account of a token that the review accepts
  validate-account :
      (token : Str) (w : W) (info : ServiceAccountInfo)
      → (validate_service_account_token authority token w).0 ≡ some info
      → (r : Review) × ((authority.review_token token w).0 ≡ some r)
        × (r.authenticated ≡ true)
        × (service_account_of (split_colon r.username) ≡ some info)
  validate-account token w info h = elim (Option-cases (authority.review_token token w).0) [
    | inl e ↦ absurd (cc (h, validate-none token w e))
    | inr (r, e) ↦ elim (Bool-cases r.authenticated) [
      | inl accepted ↦ (r, e, accepted, sym (validate-reviewed token w r e accepted) ∙ h)
      | inr refused ↦ absurd (cc (h, validate-refused token w r e refused))
    ]
  ]

  generate-none :
      (token : Str) (w : W)
      → (validate_service_account_token authority token w).0 ≡ none
      → (generate_token authority token w).0 ≡ none
  unfolding generate_token
  generate-none token w e = ground (arith, e)

  generate-missing :
      (token : Str) (w : W) (i : ServiceAccountInfo)
      → (validate_service_account_token authority token w).0 ≡ some i
      → (authority.has_service_account i.namespace i.service_account
          (validate_service_account_token authority token w).1).0
        ≡ false
      → (generate_token authority token w).0 ≡ none
  unfolding generate_token
  generate-missing token w i e e' = ground (arith, e, e')

  generate-signed :
      (token : Str) (w : W) (i : ServiceAccountInfo)
      → (validate_service_account_token authority token w).0 ≡ some i
      → (authority.has_service_account i.namespace i.service_account
          (validate_service_account_token authority token w).1).0
        ≡ true
      → (generate_token authority token w).0
        ≡ (sign_claims authority i
            (authority.has_service_account i.namespace i.service_account
              (validate_service_account_token authority token w).1).1).0
  unfolding generate_token
  generate-signed token w i e e' = ground (arith, e, e')

  -- the end of an issue, for the account of the token
  issue-signed :
      (token : Str) (w : W) (t : Str) (i : ServiceAccountInfo)
      → (generate_token authority token w).0 ≡ some t
      → (validate_service_account_token authority token w).0 ≡ some i
      → (c : Claims) × (authority.sign c ≡ some t)
        × (c.service_account ≡ i.service_account)
        × (c.namespace ≡ i.namespace)
  issue-signed token w t i h e =
      let w1 = (validate_service_account_token authority token w).1 in
      let there = authority.has_service_account i.namespace i.service_account w1 in
      elim (Bool-cases there.0) [
        | inl accepted ↦
            sign_claims-signed i there.1 t (sym (generate-signed token w i e accepted) ∙ h)
        | inr refused ↦ absurd (cc (h, generate-missing token w i e refused))
      ]

  -- A token is issued only where the review of the Kubernetes token says that it is authenticated
  -- and the parts of the user name between colons are "system", "serviceaccount", a namespace and
  -- a name. What is issued is the signature of claims for that namespace and that name.
  pub generate_token-reviewed :
      (token : Str) (w : W) (t : Str)
      → (generate_token authority token w).0 ≡ some t
      → (r : Review) × (c : Claims) × ((authority.review_token token w).0 ≡ some r)
        × (r.authenticated ≡ true)
        × (split_colon r.username
            ≡ str "system" ∷ str "serviceaccount" ∷ c.namespace ∷ c.service_account ∷ [])
        × (authority.sign c ≡ some t)
  generate_token-reviewed token w t h =
      elim (Option-cases (validate_service_account_token authority token w).0) [
        | inl e ↦ absurd (cc (h, generate-none token w e))
        | inr (i, e) ↦
            let (r, er, accepted, parts) = validate-account token w i e in
            let (c, signed, name, namespace) = issue-signed token w t i h e in
            let split = service_account_of-parts (split_colon r.username) i parts in
            (r, c, er, accepted, cc (split, name, namespace), signed)
      ]
