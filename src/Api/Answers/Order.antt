-- ===== src/Api/Answers/Order.antt =====
-- findMostRecentSecretResult of internal/api/proxy_client.go: the devices answer in parallel, and the
-- order of their answers does not matter.
use hsm_secrets_operator.Common.{
  ℕ, ◌≡◌, refl, sym, ap, subst, ◌∙◌, ◌⊎◌, inl, inr, List, [], ◌∷◌, map, false, not, ◌||◌, Option,
  none, some, Perm, Permᴰ, ∥∥₁_elim, map-permᴰ, In, Distinct, Distinct-permᴰ, In-permᴰ, Permᴰ-symm,
  if◌then◌else◌, Bool-cases, Str, str_eq, str_eq_iff, Dict, get, put, get-put_self, get-put_ne,
  arith,
}
use hsm_secrets_operator.Golib.{Golib}
use hsm_secrets_operator.Hsm.{SecretData}
use hsm_secrets_operator.Reconcile.{DeviceObservation, Decision, resolve, resolve_voters}
use hsm_secrets_operator.Reconcile.Lowest.{Named}
use hsm_secrets_operator.Reconcile.Order.{resolve-perm}
use hsm_secrets_operator.Api.{SecretResult}
use hsm_secrets_operator.Api.Answers.{
  secret_observation, secret_observations, data_by_device, or_no_data,
  find_most_recent_secret_result,
}

abbrev name_of : SecretResult → Str
name_of r = r.device_name

secret_observations-map :
    (go : Golib) (rs : List SecretResult)
    → secret_observations go rs ≡ map (secret_observation go) rs
unfolding secret_observations
secret_observations-map go [] = refl
secret_observations-map go (r ∷ rs) =
    ap (λ os. secret_observation go r ∷ os) (secret_observations-map go rs)

-- The entry of a device is that of its last answer, or the one before all answers.
data_by_device-skip :
    (k : Str) (rs : List SecretResult) (m : Dict SecretData)
    → ((r : SecretResult) → In r rs → ¬ (r.device_name ≡ k))
    → get k (data_by_device rs m) ≡ get k m
unfolding data_by_device
data_by_device-skip k [] m h = refl
data_by_device-skip k (r ∷ rs) m h =
    data_by_device-skip k rs (put r.device_name r.data' m) (λ x i. h x (inr i))
    ∙ get-put_ne r.device_name k r.data' m (h r (inl refl))

pub data_by_device-hit :
    (r : SecretResult) (rs : List SecretResult) (m : Dict SecretData)
    → Distinct name_of rs
    → In r rs
    → get r.device_name (data_by_device rs m) ≡ some r.data'
unfolding data_by_device
data_by_device-hit r [] m d i = absurd i
data_by_device-hit r (x ∷ rs) m d (inl e) =
    ap (λ (y : SecretResult). get y.device_name (data_by_device rs (put x.device_name x.data' m))) e
    ∙ data_by_device-skip x.device_name rs (put x.device_name x.data' m) (λ y i f. d.0 y i f)
    ∙ get-put_self x.device_name x.data' m
    ∙ ap (λ (y : SecretResult). some y.data') (sym e)
data_by_device-hit r (x ∷ rs) m d (inr i) =
    data_by_device-hit r rs (put x.device_name x.data' m) d.1 i

not_first :
    (x : SecretResult) (rs : List SecretResult) (k : Str)
    → str_eq x.device_name k ≡ false
    → ((r : SecretResult) → In r rs → ¬ (r.device_name ≡ k))
    → (r : SecretResult) → In r (x ∷ rs)
    → ¬ (r.device_name ≡ k)
not_first x rs k n h r (inl e) f =
    absurd (ground (arith, str_eq_iff x.device_name k, sym (ap name_of e) ∙ f))
not_first x rs k n h r (inr i) f = h r i f

-- A device answered, or it did not.
answered :
    (k : Str) (rs : List SecretResult)
    → ((r : SecretResult) × In r rs × (r.device_name ≡ k))
      ⊎ ((r : SecretResult) → In r rs → ¬ (r.device_name ≡ k))
answered k [] = inr (λ r i. absurd i)
answered k (x ∷ rs) = elim (answered k rs) [
  | inl (r, i, e) ↦ inl (r, inr i, e)
  | inr h ↦ elim (Bool-cases (str_eq x.device_name k)) [
    | inl y ↦ inl (x, inl refl, (str_eq_iff x.device_name k).0 y)
    | inr n ↦ inr (not_first x rs k n h)
  ]
]

data_by_device-permᴰ :
    (k : Str) (rs ss : List SecretResult)
    → Distinct name_of rs
    → Distinct name_of ss
    → Permᴰ rs ss
    → get k (data_by_device rs []) ≡ get k (data_by_device ss [])
data_by_device-permᴰ k rs ss d d' p = elim (answered k rs) [
  | inl (r, i, e) ↦
      subst (λ j. get j (data_by_device rs []) ≡ get j (data_by_device ss [])) e
        (data_by_device-hit r rs [] d i ∙ sym (data_by_device-hit r ss [] d' (In-permᴰ r p i)))
  | inr h ↦
      data_by_device-skip k rs [] h
      ∙ sym (data_by_device-skip k ss [] (λ r i. h r (In-permᴰ r (Permᴰ-symm p) i)))
]

pub In-observations :
    (go : Golib) (rs : List SecretResult) (o : DeviceObservation)
    → In o (secret_observations go rs)
    → (r : SecretResult) × In r rs × (o ≡ secret_observation go r)
unfolding secret_observations
In-observations go [] o i = absurd i
In-observations go (r ∷ rs) o (inl e) = (r, inl refl, e)
In-observations go (r ∷ rs) o (inr i) = let (x, j, e) = In-observations go rs o i in (x, inr j, e)

-- The observation of an answer names the device of the answer.
observed :
    (go : Golib) (o : DeviceObservation) (r : SecretResult)
    → o ≡ secret_observation go r
    → o.device_id ≡ r.device_name
unfolding secret_observation
observed go o r e = ap (λ (x : DeviceObservation). x.device_id) e

Named-observations :
    (go : Golib) (rs : List SecretResult)
    → ((r : SecretResult) → In r rs → ¬ (r.device_name ≡ []))
    → Named (secret_observations go rs)
Named-observations go rs named o i e =
    let (r, j, f) = In-observations go rs o i in named r j (sym (observed go o r f) ∙ e)

Distinct-observations :
    (go : Golib) (rs : List SecretResult)
    → Distinct name_of rs
    → Distinct (λ (o : DeviceObservation). o.device_id) (secret_observations go rs)
unfolding secret_observations
Distinct-observations go [] d = tt
Distinct-observations go (r ∷ rs) d = (
  λ o i e.
      let (x, j, f) = In-observations go rs o i in
      d.0 x j (sym (observed go o x f) ∙ e ∙ observed go (secret_observation go r) r refl),
  Distinct-observations go rs d.1,
)

-- The answer for a decision, which keeps the case of no answers apart no more.
abbrev pub secret_of : Decision → List SecretResult → Option SecretData
secret_of d rs =
    if not d.found || d.deleted
    then none
    else some (or_no_data (get d.winning_device_id (data_by_device rs [])))

pub find_most_recent_secret_result-eq :
    (go : Golib) (rs : List SecretResult) (n : ℕ)
    → find_most_recent_secret_result go rs n ≡ secret_of (resolve (secret_observations go rs) n) rs
unfolding find_most_recent_secret_result resolve resolve_voters secret_observations
find_most_recent_secret_result-eq go [] n = refl
find_most_recent_secret_result-eq go (r ∷ rs) n = refl

observations-permᴰ :
    (go : Golib) (rs ss : List SecretResult)
    → Permᴰ rs ss
    → Permᴰ (secret_observations go rs) (secret_observations go ss)
observations-permᴰ go rs ss p =
    rw (secret_observations-map go rs, secret_observations-map go ss)
      (map-permᴰ (secret_observation go) p)

secret_of-permᴰ :
    (x : Decision) (rs ss : List SecretResult)
    → Distinct name_of rs
    → Permᴰ rs ss
    → secret_of x rs ≡ secret_of x ss
secret_of-permᴰ x rs ss d p =
    ap (λ y. if not x.found || x.deleted then none else some (or_no_data y))
      (data_by_device-permᴰ x.winning_device_id rs ss d (Distinct-permᴰ name_of p d) p)

SecretData-set : IsSet (Option SecretData)
SecretData-set = hlevel

-- Where the answers are those of distinct devices with names, `find_most_recent_secret_result` does
-- not depend on the order in which they arrive.
pub find_most_recent_secret_result-perm :
    (go : Golib) (rs ss : List SecretResult) (n : ℕ)
    → Distinct (λ (r : SecretResult). r.device_name) rs
    → ((r : SecretResult) → In r rs → ¬ (r.device_name ≡ []))
    → Perm rs ss
    → find_most_recent_secret_result go rs n ≡ find_most_recent_secret_result go ss n
find_most_recent_secret_result-perm go rs ss n d named h = ∥∥₁_elim h (SecretData-set _ _) λ p.
    let e =
      resolve-perm (secret_observations go rs) (secret_observations go ss) n
        (Distinct-observations go rs d) (Named-observations go rs named)
        (∣ observations-permᴰ go rs ss p ∣₁) in
    find_most_recent_secret_result-eq go rs n
    ∙ ap (λ x. secret_of x rs) e
    ∙ secret_of-permᴰ (resolve (secret_observations go ss) n) rs ss d p
    ∙ sym (find_most_recent_secret_result-eq go ss n)
