-- ===== src/Prelude/Results.antt =====
-- How a kernel routine ends: with a value; in `panic(message)`; in an access outside an array or
-- through a null pointer, which C leaves undefined; or, for a loop on fuel, with the fuel used up.
use Prim.Native.String.{String}

pub data Outcome {ℓ} (A : Type ℓ) : Type ℓ where
  ok : A → Outcome A
  panic : String → Outcome A
  fault : Outcome A
  out_of_fuel : Outcome A

infixl 5 ◌>>=◌
abbrev pub ◌>>=◌ {ℓ κ} : {A : Type ℓ} {B : Type κ} → Outcome A → (A → Outcome B) → Outcome B
ok a >>= f = f a
panic m >>= f = panic m
fault >>= f = fault
out_of_fuel >>= f = out_of_fuel
