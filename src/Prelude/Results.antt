-- ===== src/Prelude/Results.antt =====
-- `Result` and the variants of `LayertwineError` (error.rs). A message is dropped: only the variant
-- of an error is kept. `panic` stands for a Rust panic (an index or a slice out of range).
use mathlib.Core.Path.{◌≡◌, refl}

pub data Error : Type 0 where
  storage engine state_machine checkpoint restore transaction integrity : Error
  git_sync gc cli general serialization not_found : Error
  panic : Error

pub data Result {ℓ} (T : Type ℓ) : Type ℓ where
  ok : T → Result T
  err : Error → Result T

infixl 5 ◌>>=◌ ◌>>◌
-- `?`: an error is passed on.
abbrev pub ◌>>=◌ {ℓ κ} : {T : Type ℓ} {U : Type κ} → Result T → (T → Result U) → Result U
err failure >>= next = err failure
ok t >>= next = next t

abbrev pub ◌>>◌ {ℓ} : {U : Type ℓ} → Result (Unit {0}) → Result U → Result U
first >> second = first >>= λ _. second

pub >>=-eq-ok {ℓ κ} :
    {T : Type ℓ} {U : Type κ} (first : Result T) (next : T → Result U) {u : U}
    → (first >>= next) ≡ ok u
    → (t : T) × (first ≡ ok t) × (next t ≡ ok u)
>>=-eq-ok (err failure) next h = cc
>>=-eq-ok (ok t) next h = (t, refl, h)
