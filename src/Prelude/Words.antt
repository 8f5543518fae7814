-- ===== src/Prelude/Words.antt =====
-- `uint` of types.h: numbers below 2 ^ 32, whose sums and differences wrap. An array of words is
-- a function from its index; `update` is the assignment to one element.
use Prim.Native.Nat.{ℕ, ◌+◌, ◌-◌, ◌*◌, ◌/◌, ◌%◌, ◌^◌}
use mathlib.Core.Path.{◌≡◌}
use mathlib.Core.Logic.{◌≢◌}
use native.Mathlib.Omega.{arith}
use c_cpp_projects.Prelude.Tests.{◌==◌, if◌then◌else◌}

abbrev pub u32_mod : ℕ
u32_mod = 2 ^ 32

abbrev pub add32 : ℕ → ℕ → ℕ
add32 a b = (a + b) % u32_mod

abbrev pub sub32 : ℕ → ℕ → ℕ
sub32 a b = (a + u32_mod - b) % u32_mod

abbrev pub update {ℓ} : {A : Type ℓ} → (ℕ → A) → ℕ → A → ℕ → A
update f i v j = if j == i then v else f j

pub update_self {ℓ} : {A : Type ℓ} (f : ℕ → A) (i : ℕ) (v : A) → update f i v i ≡ v
update_self f i v = ground arith

pub update_ne {ℓ} : {A : Type ℓ} (f : ℕ → A) (i j : ℕ) (v : A) → j ≢ i → update f i v j ≡ f j
update_ne f i j v h = ground arith

-- One bit of a word: `bit x k` is `(x >> k) & 1`, `bit_on x k` is `x | 1 << k` and `bit_off x k` is
-- `x & ~(1 << k)`, in the form that the arithmetic tactics read.
abbrev pub bit : ℕ → ℕ → ℕ
bit x k = x / 2 ^ k % 2

abbrev pub bit_on : ℕ → ℕ → ℕ
bit_on x k = x + 2 ^ k * (1 - bit x k)

abbrev pub bit_off : ℕ → ℕ → ℕ
bit_off x k = x - 2 ^ k * bit x k
