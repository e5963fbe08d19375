-- ===== src/Prelude/Actions.antt =====
-- Operations that fail and change a state: after an error the changes made before it stay.
use layertwine.Prelude.Results.{Result, ok, err}

abbrev pub Action {ℓ κ} : Type ℓ → Type κ → Type (ℓ ⊔ κ)
Action S T = S → Result T × S

infixl 5 ◌>>>=◌ ◌>>>◌
abbrev pub ◌>>>=◌ {ℓ κ ι} :
    {S : Type ℓ} {T : Type κ} {U : Type ι} → Result T × S → (T → S → Result U × S) → Result U × S
(ok t, s) >>>= next = next t s
(err e, s) >>>= next = (err e, s)

abbrev pub ◌>>>◌ {ℓ κ} :
    {S : Type ℓ} {U : Type κ} → Result (Unit {0}) × S → (S → Result U × S) → Result U × S
first >>> next = first >>>= λ _ s. next s
