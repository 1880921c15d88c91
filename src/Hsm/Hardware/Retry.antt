-- ===== src/Hsm/Hardware/Retry.antt =====
-- WithRetry of internal/hsm/pkcs11_client.go: how often it calls the operation, and what it returns.
use hsm_secrets_operator.Common.{
  ℕ, zero, suc, ◌≤◌, ◌≡◌, refl, ◌⊎◌, inl, inr, Bool, true, false, Option, none, some, ℤ, pos,
  negsuc, arith,
}
use hsm_secrets_operator.Common.State.{State}
use hsm_secrets_operator.Hsm.{Config}
use hsm_secrets_operator.Hsm.Errors.{Error, Result, ok, err, attempts_failed, no_attempt}
use hsm_secrets_operator.Hsm.Calls.{Call}
use hsm_secrets_operator.Hsm.Hardware.{attempt, gave_up, rounds, with_retry}

-- The operation fails so often in a row and leads from one state to another.
pub data Fails {W : Type 0} (operation : Call W (Unit {0})) : ℕ → W → W → Type 0 where
  here : {w : W} → Fails operation 0 w w
  again :
      {n : ℕ} {e : Error} {w w' w'' : W}
      → operation w ≡ (err e, w')
      → Fails operation n w' w''
      → Fails operation (suc n) w w''

sign : (z : ℤ) → ((n : ℕ) × (z ≡ pos n)) ⊎ ((n : ℕ) × (z ≡ negsuc n))
sign (pos n) = inl (n, refl)
sign (negsuc n) = inr (n, refl)

module _ {W : Type 0} (operation : Call W (Unit {0})) (wait : State W Bool) where
  -- How a loop with `left` rounds ends: an operation that succeeds ends it, after some failures; or
  -- every round fails.
  abbrev pub Ends : ℤ → ℕ → W → Result (Unit {0}) × W → Type 0
  Ends retries left w x =
      ((n : ℕ) × (w' : W) × (suc n ≤ left)
        × Fails operation n w w'
        × (operation w' ≡ (ok tt, x.1))
        × (x.0 ≡ ok tt))
      ⊎ (Fails operation left w x.1 × ((e : Error) × (x.0 ≡ err (attempts_failed retries e))))

  round-ok :
      (retries : ℤ) (left : ℕ) (first : Bool) (last : Option Error) (w w' : W)
      → ((w : W) → wait w ≡ (false, w))
      → operation w ≡ (ok tt, w')
      → attempt operation wait retries (suc left) first last w ≡ (ok tt, w')
  unfolding attempt
  round-ok retries left true last w w' calm h = ground (arith, h)
  round-ok retries left false last w w' calm h = ground (arith, calm w, h)

  round-err :
      (retries : ℤ) (left : ℕ) (first : Bool) (last : Option Error) (e : Error) (w w' : W)
      → ((w : W) → wait w ≡ (false, w))
      → operation w ≡ (err e, w')
      → attempt operation wait retries (suc left) first last w
        ≡ attempt operation wait retries left false (some e) w'
  unfolding attempt
  round-err retries left true last e w w' calm h = ground (arith, h)
  round-err retries left false last e w w' calm h = ground (arith, calm w, h)

  -- A failed round before the rest of the loop.
  extend :
      (retries : ℤ) (left : ℕ) (e : Error) (w w' : W) (x : Result (Unit {0}) × W)
      → operation w ≡ (err e, w')
      → Ends retries left w' x
      → Ends retries (suc left) w x
  extend retries left e w w' x h (inl (n, v, le, f, o, r)) =
      inl (suc n, v, omega arith, again h f, o, r)
  extend retries left e w w' x h (inr (f, r)) = inr (again h f, r)

  Call-cases :
      (x : Result (Unit {0}) × W)
      → ((w' : W) × (x ≡ (ok tt, w'))) ⊎ ((e : Error) × (w' : W) × (x ≡ (err e, w')))
  Call-cases (ok u, w') = inl (w', refl)
  Call-cases (err e, w') = inr (e, w', refl)

  attempt_over :
      (retries : ℤ) (e : Error) (w : W)
      → attempt operation wait retries 0 false (some e) w ≡ (err (attempts_failed retries e), w)
  unfolding attempt gave_up
  attempt_over retries e w = refl

  -- A round before a loop that ends so.
  round-Ends :
      (retries : ℤ) (left : ℕ) (first : Bool) (last : Option Error) (w : W)
      → ((w : W) → wait w ≡ (false, w))
      → ((e : Error) (w' : W)
          → Ends retries left w' (attempt operation wait retries left false (some e) w'))
      → Ends retries (suc left) w (attempt operation wait retries (suc left) first last w)
  round-Ends retries left first last w calm rest = elim (Call-cases (operation w)) [
    | inl (w', h) ↦
        rw (round-ok retries left first last w w' calm h) (inl (0, w, omega arith, here, h, refl))
    | inr (e, w', h) ↦
        rw (round-err retries left first last e w w' calm h)
          (extend retries left e w w' _ h (rest e w'))
  ]

  attempt-Ends :
      (retries : ℤ) (left : ℕ) (e : Error) (w : W)
      → ((w : W) → wait w ≡ (false, w))
      → Ends retries left w (attempt operation wait retries left false (some e) w)
  attempt-Ends retries zero e w calm = rw (attempt_over retries e w) (inr (here, (e, refl)))
  attempt-Ends retries (suc left) e w calm =
      round-Ends retries left false (some e) w calm (λ f v. attempt-Ends retries left f v calm)

  -- Where no wait is cut short, and the configured number of retries is not negative, WithRetry calls
  -- the operation at most once more than that number: it succeeds with the first call that succeeds,
  -- and where all those calls fail it reports the number of retries and an error. Where the number is
  -- negative, it fails without a call.
  pub with_retry-Ends :
      (config : Config) (w : W)
      → ((w : W) → wait w ≡ (false, w))
      → ((n : ℕ) × (config.retry_attempts ≡ pos n)
          × Ends (pos n) (suc n) w (with_retry operation wait config w))
        ⊎ ((n : ℕ) × (config.retry_attempts ≡ negsuc n)
            × (with_retry operation wait config w ≡ (err (no_attempt (negsuc n)), w)))
  unfolding with_retry rounds attempt gave_up
  with_retry-Ends config w calm = elim (sign config.retry_attempts) [
    | inl (n, e) ↦ inl (
      n,
      e,
      rw e (round-Ends (pos n) n true none w calm (λ f v. attempt-Ends (pos n) n f v calm)),
    )
    | inr (n, e) ↦ inr (n, e, rw e refl)
  ]
