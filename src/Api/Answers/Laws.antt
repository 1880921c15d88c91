-- ===== src/Api/Answers/Laws.antt =====
-- The helpers of the proxy against those of internal/hsm, the version of the next write, and the
-- choice among metadata.
use hsm_secrets_operator.Common.{
  ◌≡◌, refl, sym, inl, inr, List, [], ◌∷◌, true, false, Option, none, some, Bool-cases, In, subst,
  if◌then◌else◌, ℤ, pos, negsuc, ltb_ℤ, ◌<ℤ◌, ◌≤ℤ◌, arith,
}
use hsm_secrets_operator.Golib.{Golib}
use hsm_secrets_operator.Hsm.{
  SecretMetadata, label, metadata_version, metadata_timestamp, metadata_deleted,
}
use hsm_secrets_operator.Api.{MetadataResult}
use hsm_secrets_operator.Api.Answers.{
  parse_version_from_metadata, parse_timestamp_from_metadata, is_secret_deleted, increment,
  max_version, next_version, most_recent_from, find_most_recent_metadata_result,
}

-- The proxy's readings of version, timestamp and tombstone agree with those of internal/hsm on
-- every metadata record.
pub parse_metadata_agrees :
    (go : Golib) (m : Option SecretMetadata)
    → (parse_version_from_metadata go m ≡ metadata_version go m)
      × (parse_timestamp_from_metadata go m ≡ metadata_timestamp go m)
      × (is_secret_deleted m ≡ metadata_deleted m)
unfolding parse_version_from_metadata metadata_version parse_timestamp_from_metadata
    metadata_timestamp is_secret_deleted metadata_deleted label
parse_metadata_agrees go none = (refl, refl, refl)
parse_metadata_agrees go (some m) = (ground arith, ground arith, ground arith)

max_version-grows :
    (go : Golib) (b : ℤ) (ms : List (Option SecretMetadata)) → b ≤ℤ max_version go b ms
unfolding max_version
max_version-grows go b [] = omega arith
max_version-grows go b (m ∷ ms) = ground (
  arith,
  max_version-grows go
      (if ltb_ℤ b (parse_version_from_metadata go m) then parse_version_from_metadata go m else b)
      ms,
)

le-max_version :
    (go : Golib) (b : ℤ) (ms : List (Option SecretMetadata)) (m : Option SecretMetadata)
    → In m ms
    → parse_version_from_metadata go m ≤ℤ max_version go b ms
unfolding max_version
le-max_version go b [] m i = absurd i
le-max_version go b (x ∷ ms) m (inl e) = rw e (
    ground (
      arith,
      max_version-grows go
          (if ltb_ℤ b (parse_version_from_metadata go x)
            then parse_version_from_metadata go x
            else b)
          ms,
    ))
le-max_version go b (x ∷ ms) m (inr i) =
    le-max_version go
      (if ltb_ℤ b (parse_version_from_metadata go x) then parse_version_from_metadata go x else b)
      ms m i

max_version-below :
    (go : Golib) (b top : ℤ) (ms : List (Option SecretMetadata))
    → b <ℤ top
    → ((m : Option SecretMetadata) → In m ms → parse_version_from_metadata go m <ℤ top)
    → max_version go b ms <ℤ top
unfolding max_version
max_version-below go b top [] h k = h
max_version-below go b top (x ∷ ms) h k =
    max_version-below go
      (if ltb_ℤ b (parse_version_from_metadata go x) then parse_version_from_metadata go x else b)
      top ms (ground (arith, k x (inl refl))) (λ m i. k m (inr i))

increment-above : (v : ℤ) → pos 0 ≤ℤ v → v <ℤ pos 9223372036854775807 → v <ℤ increment v
unfolding increment
increment-above (pos n) h k = ground arith
increment-above (negsuc n) h k = absurd (omega arith)

-- Where every version in the metadata that were read is below the largest int64, the version of the
-- next write is above 0 and above each of them.
pub next_version_above :
    (go : Golib) (ms : List (Option SecretMetadata))
    → ((m : Option SecretMetadata)
        → In m ms
        → parse_version_from_metadata go m <ℤ pos 9223372036854775807)
    → (pos 0 <ℤ next_version go ms)
      × ((m : Option SecretMetadata)
          → In m ms
          → parse_version_from_metadata go m <ℤ next_version go ms)
unfolding next_version
next_version_above go ms small =
    let best = max_version go (pos 0) ms in
    let up =
      increment-above best (max_version-grows go (pos 0) ms)
        (max_version-below go (pos 0) (pos 9223372036854775807) ms (omega arith) small) in
    (
      omega (arith, max_version-grows go (pos 0) ms, up),
      λ m i. omega (arith, le-max_version go (pos 0) ms m i, up),
    )

abbrev time : Golib → MetadataResult → ℤ
time go r = parse_timestamp_from_metadata go r.metadata

module _ (go : Golib) (b r : MetadataResult) (rs : List MetadataResult) where
  most_recent_from-takes :
      ltb_ℤ (time go b) (time go r) ≡ true
      → most_recent_from go b (r ∷ rs) ≡ most_recent_from go r rs
  unfolding most_recent_from
  most_recent_from-takes h = rw h

  most_recent_from-keeps :
      ltb_ℤ (time go b) (time go r) ≡ false
      → most_recent_from go b (r ∷ rs) ≡ most_recent_from go b rs
  unfolding most_recent_from
  most_recent_from-keeps h = rw h

most_recent_from-In :
    (go : Golib) (b : MetadataResult) (rs : List MetadataResult)
    → In (most_recent_from go b rs) (b ∷ rs)
most_recent_from-In go b [] = inl (unfold most_recent_from in refl)
most_recent_from-In go b (r ∷ rs) = elim (Bool-cases (ltb_ℤ (time go b) (time go r))) [
  | inl y ↦
      subst (λ x. In x (b ∷ r ∷ rs)) (sym (most_recent_from-takes go b r rs y))
        (inr (most_recent_from-In go r rs))
  | inr n ↦
      subst (λ x. In x (b ∷ r ∷ rs)) (sym (most_recent_from-keeps go b r rs n))
        (elim (most_recent_from-In go b rs) [ inl e ↦ inl e | inr m ↦ inr (inr m) ])
]

-- No result of the list is later than the one that is found.
abbrev Latest : Golib → MetadataResult → List MetadataResult → Type 0
Latest go best rs = (r : MetadataResult) → In r rs → time go r ≤ℤ time go best

Latest-cons :
    (go : Golib) (best r : MetadataResult) (rs : List MetadataResult)
    → time go r ≤ℤ time go best
    → Latest go best rs
    → Latest go best (r ∷ rs)
Latest-cons go best r rs h k x (inl e) = subst (λ y. time go y ≤ℤ time go best) (sym e) h
Latest-cons go best r rs h k x (inr i) = k x i

most_recent_from-Latest :
    (go : Golib) (b : MetadataResult) (rs : List MetadataResult)
    → Latest go (most_recent_from go b rs) (b ∷ rs)
most_recent_from-Latest go b [] =
    unfold most_recent_from in Latest-cons go b b [] (omega arith) (λ x i. absurd i)
most_recent_from-Latest go b (r ∷ rs) = elim (Bool-cases (ltb_ℤ (time go b) (time go r))) [
  | inl y ↦
      let rest = most_recent_from-Latest go r rs in
      subst (λ m. Latest go m (b ∷ r ∷ rs)) (sym (most_recent_from-takes go b r rs y))
        (Latest-cons go (most_recent_from go r rs) b (r ∷ rs) (ground (arith, rest r (inl refl)))
          rest)
  | inr n ↦
      let rest = most_recent_from-Latest go b rs in
      subst (λ m. Latest go m (b ∷ r ∷ rs)) (sym (most_recent_from-keeps go b r rs n))
        (Latest-cons go (most_recent_from go b rs) b (r ∷ rs) (rest b (inl refl)) (
          Latest-cons go (most_recent_from go b rs) r rs (ground (arith, rest b (inl refl)))
            (λ x i. rest x (inr i))))
]

-- Of a nonempty list, `find_most_recent_metadata_result` gives the metadata of one of the results,
-- and the timestamp of no other result is later.
find_most_recent_metadata_result-Latest :
    (go : Golib) (r : MetadataResult) (rs : List MetadataResult)
    → (best : MetadataResult) × (find_most_recent_metadata_result go (r ∷ rs) ≡ some best.metadata)
      × In best (r ∷ rs)
      × Latest go best (r ∷ rs)
unfolding find_most_recent_metadata_result
find_most_recent_metadata_result-Latest go r rs =
    (most_recent_from go r rs, refl, most_recent_from-In go r rs, most_recent_from-Latest go r rs)
