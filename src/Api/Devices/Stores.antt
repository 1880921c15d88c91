-- ===== src/Api/Devices/Stores.antt =====
-- What the devices hold after a call on all of them, and what the counts of the results mean.
use hsm_secrets_operator.Common.{
  ◌+◌, ◌<◌, ◌≡◌, refl, sym, ap, ◌∙◌, inl, inr, [], ◌∷◌, length, Option, none, some, In, Distinct,
  Option-cases, Str, Dict, arith,
}
use hsm_secrets_operator.Common.State.{State}
use hsm_secrets_operator.Hsm.{SecretData, SecretMetadata}
use hsm_secrets_operator.Api.{Clients}
use hsm_secrets_operator.Api.Devices.{on_all, count_successes, errors_of, write_to_all_devices}

-- The successes and the errors are all the results, one for each device.
pub count_successes-errors_of :
    {W C : Type 0} (f : C → State W (Option Str)) (clients : Dict C) (w : W)
    → count_successes (on_all f clients w).0 + length (errors_of (on_all f clients w).0)
      ≡ length clients
unfolding on_all count_successes errors_of
count_successes-errors_of f [] w = refl
count_successes-errors_of f ((k, c) ∷ cs) w = elim (Option-cases (f c w).0) [
  | inl n ↦ rw n (omega (arith, count_successes-errors_of f cs (f c w).1))
  | inr (e, y) ↦ rw y (omega (arith, count_successes-errors_of f cs (f c w).1))
]

pub some_success : (rs : Dict (Option Str)) → 0 < count_successes rs → (k : Str) × In (k, none) rs
unfolding count_successes
some_success [] h = absurd (omega arith)
some_success ((k, none) ∷ rs) h = (k, inl refl)
some_success ((k, some e) ∷ rs) h = let (j, i) = some_success rs h in (j, inr i)

-- What the proxy relies on of the devices: each holds its own secrets, which a write to another
-- device does not change.
pub record Stored {W C : Type 0} (p : Clients W C) : Type 0 where
  -- what a device holds at a path
  pub holds : W → C → Str → Option (SecretData × SecretMetadata)
  -- a write without an error stores the data and the metadata
  pub write_stores :
      (c : C) (path : Str) (d : SecretData) (m : SecretMetadata) (w : W)
      → (p.write_secret c path d m w).0 ≡ none
      → holds (p.write_secret c path d m w).1 c path ≡ some (d, m)
  -- a write, whether it succeeds or not, leaves the other devices as they were
  pub write_frame :
      (c other : C) (path q : Str) (d : SecretData) (m : SecretMetadata) (w : W)
      → ¬ (other ≡ c)
      → holds (p.write_secret c path d m w).1 other q ≡ holds w other q

module _ {W C : Type 0} (p : Clients W C) (s : Stored p) (path : Str) (d : SecretData)
    (m : SecretMetadata) where
  writes-frame :
      (clients : Dict C) (w : W) (other : C) (q : Str)
      → ((e : Str × C) → In e clients → ¬ (e.1 ≡ other))
      → s.holds (on_all (λ c. p.write_secret c path d m) clients w).1 other q ≡ s.holds w other q
  unfolding on_all
  writes-frame [] w other q h = refl
  writes-frame ((k, c) ∷ cs) w other q h =
      writes-frame cs (p.write_secret c path d m w).1 other q (λ e i. h e (inr i))
      ∙ s.write_frame c other path q d m w (λ e. h (k, c) (inl refl) (sym e))

  writes-store :
      (clients : Dict C) (w : W) (k : Str)
      → Distinct (λ (e : Str × C). e.1) clients
      → In (k, none) (on_all (λ c. p.write_secret c path d m) clients w).0
      → (c : C) × In (k, c) clients
        × (s.holds (on_all (λ c. p.write_secret c path d m) clients w).1 c path ≡ some (d, m))
  unfolding on_all
  writes-store [] w k distinct i = absurd i
  writes-store ((j, c) ∷ cs) w k distinct (inl e) = (
    c,
    inl (ap (λ x. (x, c)) (ap (λ (x : Str × Option Str). x.0) e)),
    writes-frame cs (p.write_secret c path d m w).1 c path distinct.0
        ∙ s.write_stores c path d m w (sym (ap (λ (x : Str × Option Str). x.1) e)),
  )
  writes-store ((j, c) ∷ cs) w k distinct (inr i) =
      let (x, i', h) = writes-store cs (p.write_secret c path d m w).1 k distinct.1 i in
      (x, inr i', h)

  -- Where the clients follow the laws of `Stored` and are those of different devices, each device
  -- whose result has no error holds exactly the data and the metadata that were sent.
  pub write_to_all_devices-stores :
      (clients : Dict C) (w : W) (k : Str)
      → Distinct (λ (e : Str × C). e.1) clients
      → In (k, none) (write_to_all_devices p clients path d m w).0
      → (c : C) × In (k, c) clients
        × (s.holds (write_to_all_devices p clients path d m w).1 c path ≡ some (d, m))
  unfolding write_to_all_devices
  write_to_all_devices-stores clients w k distinct i = writes-store clients w k distinct i
