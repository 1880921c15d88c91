-- ===== src/Security/Auth/Exempt.antt =====
-- The paths that AuthMiddleware of internal/security/api_auth.go serves without a token.
use hsm_secrets_operator.Common.{
  ◌≡◌, refl, ap, ◌↔◌, ◌⊎◌, inl, inr, [], ◌∷◌, ◌++◌, Bool, true, false, ◌||◌, none, Bool-cases, Str,
  str, str_eq, str_eq_iff, arith,
}
use hsm_secrets_operator.Hsm.Mock.{has_prefix}
use hsm_secrets_operator.Hsm.Hardware.{has_suffix}
use hsm_secrets_operator.Hsm.Hardware.Labels.{has_suffix-append, has_prefix-append}
use hsm_secrets_operator.Security.Auth.{Authority, passes, is_exempt, auth_middleware}
use hsm_secrets_operator.Security.Auth.Laws.{auth_middleware-passes}

abbrev EndsIn : Str → Str → Type 0
EndsIn s p = (front : Str) × (s ≡ front ++ p)

abbrev BeginsWith : Str → Str → Type 0
BeginsWith s p = (rest : Str) × (s ≡ p ++ rest)

has_suffix-EndsIn : (s p : Str) → has_suffix s p ≡ true → EndsIn s p
unfolding has_suffix
has_suffix-EndsIn [] p h = ([], (str_eq_iff [] p).0 h)
has_suffix-EndsIn (c ∷ s) p h = elim (Bool-cases (str_eq (c ∷ s) p)) [
  | inl y ↦ ([], (str_eq_iff (c ∷ s) p).0 y)
  | inr n ↦ let (front, e) = has_suffix-EndsIn s p (rw n at h) in (c ∷ front, ap (λ t. c ∷ t) e)
]

has_prefix-BeginsWith : (s p : Str) → has_prefix s p ≡ true → BeginsWith s p
unfolding has_prefix
has_prefix-BeginsWith s [] h = (s, refl)
has_prefix-BeginsWith [] (b ∷ p) h = absurd (cc h)
has_prefix-BeginsWith (c ∷ s) (b ∷ p) h = elim (Bool-cases (str_eq (c ∷ []) (b ∷ []))) [
  | inl y ↦
      let (rest, e) = has_prefix-BeginsWith s p (rw y at h) in
      let same : (c ∷ []) ≡ (b ∷ []) = (str_eq_iff (c ∷ []) (b ∷ [])).0 y in (rest, cc (same, e))
  | inr n ↦ absurd (ground (arith, n))
]

-- The root, the paths below "/web/", and every path with one of the three endings.
abbrev pub Exempt : Str → Type 0
Exempt path =
    EndsIn path (str "/health")
    ⊎ EndsIn path (str "/healthz")
    ⊎ EndsIn path (str "/auth/token")
    ⊎ (path ≡ str "/")
    ⊎ BeginsWith path (str "/web/")

one_of :
    (a b c d e : Bool)
    → (a || b || c || d || e) ≡ true
    → (a ≡ true) ⊎ (b ≡ true) ⊎ (c ≡ true) ⊎ (d ≡ true) ⊎ (e ≡ true)
one_of true b c d e h = inl refl
one_of false true c d e h = inr (inl refl)
one_of false false true d e h = inr (inr (inl refl))
one_of false false false true e h = inr (inr (inr (inl refl)))
one_of false false false false e h = inr (inr (inr (inr h)))

Exempt-is_exempt : (path : Str) → is_exempt path ≡ true → Exempt path
unfolding is_exempt
Exempt-is_exempt path h =
    elim (one_of (has_suffix path (str "/health")) (has_suffix path (str "/healthz"))
      (has_suffix path (str "/auth/token")) (str_eq path (str "/")) (has_prefix path (str "/web/"))
      h) [
        | inl a ↦ inl (has_suffix-EndsIn path (str "/health") a)
        | inr (inl a) ↦ inr (inl (has_suffix-EndsIn path (str "/healthz") a))
        | inr (inr (inl a)) ↦ inr (inr (inl (has_suffix-EndsIn path (str "/auth/token") a)))
        | inr (inr (inr (inl a))) ↦ inr (inr (inr (inl ((str_eq_iff path (str "/")).0 a))))
        | inr (inr (inr (inr a))) ↦
            inr (inr (inr (inr (has_prefix-BeginsWith path (str "/web/") a))))
      ]

suffix_of : (path p : Str) → EndsIn path p → ¬ (p ≡ []) → has_suffix path p ≡ true
suffix_of path [] (front, e) filled = absurd (filled refl)
suffix_of path (b ∷ p) (front, e) filled = rw e (has_suffix-append front (b ∷ p) refl)

is_exempt-Exempt : (path : Str) → Exempt path → is_exempt path ≡ true
unfolding is_exempt
is_exempt-Exempt path (inl a) = ground (arith, suffix_of path (str "/health") a (λ e. cc e))
is_exempt-Exempt path (inr (inl a)) = ground (arith, suffix_of path (str "/healthz") a (λ e. cc e))
is_exempt-Exempt path (inr (inr (inl a))) =
    ground (arith, suffix_of path (str "/auth/token") a (λ e. cc e))
is_exempt-Exempt path (inr (inr (inr (inl e)))) =
    let here : str_eq path (str "/") ≡ true = (str_eq_iff path (str "/")).1 e in
    ground (arith, here)
is_exempt-Exempt path (inr (inr (inr (inr (rest, e))))) =
    let here : has_prefix path (str "/web/") ≡ true = rw e (has_prefix-append (str "/web/") rest) in
    ground (arith, here)

module _ {W : Type 0} (authority : Authority W) where
  auth_middleware-open :
      (path header : Str) (w : W)
      → is_exempt path ≡ true
      → (auth_middleware authority path header w).0 ≡ passes none
  unfolding auth_middleware
  auth_middleware-open path header w e = ground (arith, e)

  -- A request passes with no token checked exactly where its path is "/", begins with "/web/", or
  -- ends in "/health", "/healthz" or "/auth/token", whatever stands before that ending.
  pub auth_middleware-Exempt :
      (path header : Str) (w : W)
      → ((auth_middleware authority path header w).0 ≡ passes none) ↔ Exempt path
  auth_middleware-Exempt path header w = (
    λ h. elim (Bool-cases (is_exempt path)) [
      | inl y ↦ Exempt-is_exempt path y
      | inr n ↦
          let (bearer, (c, parsed, given)) =
            auth_middleware-passes authority path header w none n h in
          absurd (cc given)
    ],
    λ e. auth_middleware-open path header w (is_exempt-Exempt path e),
  )
