-- ===== src/Hsm/Calls.antt =====
-- A method that may fail and that leaves a new state: it returns a result beside the state.
use hsm_secrets_operator.Hsm.Errors.{Error, Result, ok, err}

abbrev pub Call : Type 0 → Type 0 → Type 0
Call W A = W → Result A × W

abbrev pub done : {W A : Type 0} → A → Call W A
done a w = (ok a, w)

abbrev pub fail : {W A : Type 0} → Error → Call W A
fail e w = (err e, w)

-- a result that needs no call
abbrev pub known : {W A : Type 0} → Result A → Call W A
known r w = (r, w)

-- if err != nil { return err }, before the rest of the method
infixl 5 ◌>>=◌ ◌>>◌
abbrev pub ◌>>=◌ : {W A B : Type 0} → Call W A → (A → Call W B) → Call W B
◌>>=◌ call rest w = let (r, w') = call w in elim r [ err e ↦ (err e, w') | ok a ↦ rest a w' ]

abbrev pub ◌>>◌ : {W A B : Type 0} → Call W A → Call W B → Call W B
call >> rest = call >>= λ _. rest
