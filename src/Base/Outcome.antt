-- ===== src/Base/Outcome.antt =====
-- Results of code that may raise, and computations that also change a state. What was written
-- before a raise stays written, so that the state comes back beside an error too.
use mathlib.Core.Path.{◌≡◌, refl}
use mathlib.Core.Logic.{◌⊎◌, inl, inr}

pub data Result {ℓ κ} (F : Type ℓ) (V : Type κ) : Type (ℓ ⊔ κ) where
  err : F → Result F V
  ok : V → Result F V

infixl 5 ◌>>=◌
abbrev pub ◌>>=◌ {ℓ κ ι} :
    {F : Type ℓ} {V : Type κ} {W : Type ι} → Result F V → (V → Result F W) → Result F W
err raised >>= next = err raised
ok value >>= next = next value

pub Result-cases {ℓ κ} :
    {F : Type ℓ} {V : Type κ} (r : Result F V)
    → ((value : V) × (r ≡ ok value)) ⊎ ((raised : F) × (r ≡ err raised))
Result-cases (err raised) = inr (raised, refl)
Result-cases (ok value) = inl (value, refl)

-- A chain that succeeded had a first part that succeeded.
pub >>=-eq-ok {ℓ κ ι} :
    {F : Type ℓ} {V : Type κ} {W : Type ι} (r : Result F V) (next : V → Result F W) {out : W}
    → (r >>= next) ≡ ok out
    → (value : V) × (r ≡ ok value) × (next value ≡ ok out)
>>=-eq-ok (err raised) next h = cc
>>=-eq-ok (ok value) next h = (value, refl, h)
