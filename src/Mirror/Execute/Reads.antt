-- ===== src/Mirror/Execute/Reads.antt =====
-- readSecretWithMetadata: it changes no copy, and returns what the copy holds.
use hsm_secrets_operator.Common.{
  ◌≡◌, refl, sym, ap, subst, ◌∙◌, ◌⊎◌, inl, inr, Option, some, Bool-cases, Option-cases, Str, arith,
}
use hsm_secrets_operator.Hsm.{SecretData, SecretMetadata}
use hsm_secrets_operator.Mirror.{DiscoveredDevice, Error, Agents, Result, ok, err}
use hsm_secrets_operator.Mirror.Execute.{read_secret_with_metadata}
use hsm_secrets_operator.Mirror.Execute.Device.{Filled, Faithful}

module _ {W : Type 0} (agents : Agents W) (f : Faithful agents) (d : DiscoveredDevice) (path : Str)
    (w : W) where
  abbrev read : Result (Option SecretData × Option SecretMetadata) × W
  read = read_secret_with_metadata agents d path w

  -- Reading changes no copy.
  pub read_secret_with_metadata-quiet : (s q : Str) → f.copy read.1 s q ≡ f.copy w s q
  unfolding read_secret_with_metadata
  read_secret_with_metadata-quiet s q =
      let w1 = (agents.create_client d w).1 in
      let w2 = (agents.is_connected d w1).1 in
      let w3 = (agents.read_secret d path w2).1 in
      ground (
        arith,
        f.create_quiet d w s q,
        f.connected_quiet d w1 s q,
        f.read_quiet d path w2 s q,
        f.read_metadata_quiet d path w3 s q,
      )

  -- What is read is the data of the copy.
  pub read_secret_with_metadata-reads :
      (data' : Option SecretData) (md : Option SecretMetadata)
      → read.0 ≡ ok (data', md)
      → Filled data'
        × ((held : Option SecretMetadata) × (f.copy w d.serial_number path ≡ some (data', held)))
  unfolding read_secret_with_metadata
  read_secret_with_metadata-reads data' md h = elim (Bool-cases (agents.create_client d w).0) [
    | inr n ↦ absurd (ground arith)
    | inl y ↦
        let w1 = (agents.create_client d w).1 in
        elim (Bool-cases (agents.is_connected d w1).0) [
          | inr n ↦ absurd (ground arith)
          | inl u ↦
              let w2 = (agents.is_connected d w1).1 in
              elim (Option-cases (agents.read_secret d path w2).0) [
                | inl n ↦ absurd (ground arith)
                | inr (old, e) ↦
                    let (filled, (held, c)) = f.read_data d path w2 old e in
                    let same : old ≡ data' = ground arith in
                    (
                      subst Filled same filled,
                      (
                        held,
                        sym (f.create_quiet d w d.serial_number path)
                            ∙ sym (f.connected_quiet d w1 d.serial_number path)
                            ∙ c
                            ∙ ap (λ x. some (x, held)) same,
                      ),
                    )
              ]
        ]
  ]

pub Result-cases :
    {A : Type 0} (r : Result A) → ((e : Error) × (r ≡ err e)) ⊎ ((a : A) × (r ≡ ok a))
Result-cases (err e) = inl (e, refl)
Result-cases (ok a) = inr (a, refl)
