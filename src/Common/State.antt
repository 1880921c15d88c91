-- ===== src/Common/State.antt =====
-- Calls that may change the state of the world: a step takes the world and returns it changed.
use mathlib.Core.List.{List, [], ◌∷◌}

abbrev pub State : Type 0 → Type 0 → Type 0
State W A = W → A × W

abbrev pub pure : {W A : Type 0} → A → State W A
pure a w = (a, w)

infixl 5 ◌>>=◌ ◌>>◌
abbrev pub ◌>>=◌ : {W A B : Type 0} → State W A → (A → State W B) → State W B
◌>>=◌ m f w = let (a, w') = m w in f a w'

abbrev pub ◌>>◌ : {W A B : Type 0} → State W A → State W B → State W B
m >> k = m >>= λ _. k

-- for _, x := range xs
abbrev pub for_each : {W A S : Type 0} → List A → S → (A → S → State W S) → State W S
for_each [] s body w = (s, w)
for_each (x ∷ xs) s body w = let (s', w') = body x s w in for_each xs s' body w'
