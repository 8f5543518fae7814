-- ===== src/Prelude/Bits.antt =====
-- Setting and clearing one bit of a word: what becomes of that bit and of the others.
use Prim.Native.Nat.{ℕ, zero, suc, ◌+◌, ◌-◌, ◌*◌, ◌/◌, ◌%◌, ◌^◌, ◌≤◌}
use mathlib.Core.Path.{◌≡◌, refl, sym, ap, ◌∙◌}
use mathlib.Core.Logic.{◌≢◌}
use native.Mathlib.Omega.{arith}
use native.Mathlib.Nat.{div-div-eq-div-mul}
use c_cpp_projects.Prelude.Words.{bit, bit_on, bit_off}

bit_half : (x k : ℕ) → bit x (suc k) ≡ bit (x / 2) k
bit_half x k =
    let double : 2 ^ suc k ≡ 2 * 2 ^ k = omega arith in
    ap (λ p. x / p % 2) double ∙ ap (λ q. q % 2) (sym (div-div-eq-div-mul x 2 (2 ^ k)))

bit_on_half : (x k : ℕ) → bit_on x (suc k) ≡ x % 2 + 2 * bit_on (x / 2) k
bit_on_half x k =
    let double : 2 ^ suc k ≡ 2 * 2 ^ k = omega arith in
    let half : 2 ^ suc k * (1 - bit x (suc k)) ≡ 2 * (2 ^ k * (1 - bit (x / 2) k)) =
      ap (λ b. 2 ^ suc k * (1 - b)) (bit_half x k)
      ∙ (ap (λ p. p * (1 - bit (x / 2) k)) double ∙ grind arith) in
    omega (arith, half)

pub bit_le : (x k : ℕ) → 2 ^ k * bit x k ≤ x
bit_le x zero = omega arith
bit_le x (suc k) =
    let double : 2 ^ suc k ≡ 2 * 2 ^ k = omega arith in
    let half : 2 ^ suc k * bit x (suc k) ≡ 2 * (2 ^ k * bit (x / 2) k) =
      ap (λ b. 2 ^ suc k * b) (bit_half x k) ∙ (ap (λ p. p * bit (x / 2) k) double ∙ grind arith) in
    let ih : 2 ^ k * bit (x / 2) k ≤ x / 2 = bit_le (x / 2) k in omega (arith, half, ih)

bit_off_half : (x k : ℕ) → bit_off x (suc k) ≡ x % 2 + 2 * bit_off (x / 2) k
bit_off_half x k =
    let double : 2 ^ suc k ≡ 2 * 2 ^ k = omega arith in
    let half : 2 ^ suc k * bit x (suc k) ≡ 2 * (2 ^ k * bit (x / 2) k) =
      ap (λ b. 2 ^ suc k * b) (bit_half x k) ∙ (ap (λ p. p * bit (x / 2) k) double ∙ grind arith) in
    let low : 2 ^ k * bit (x / 2) k ≤ x / 2 = bit_le (x / 2) k in omega (arith, half, low)

pub bit-bit_on_self : (x k : ℕ) → bit (bit_on x k) k ≡ 1
bit-bit_on_self x zero = omega arith
bit-bit_on_self x (suc k) =
    let half : bit_on x (suc k) / 2 ≡ bit_on (x / 2) k = omega (arith, bit_on_half x k) in
    bit_half (bit_on x (suc k)) k ∙ (ap (λ y. bit y k) half ∙ bit-bit_on_self (x / 2) k)

pub bit-bit_on_ne : (x k j : ℕ) → j ≢ k → bit (bit_on x k) j ≡ bit x j
bit-bit_on_ne x zero zero n = absurd (n refl)
bit-bit_on_ne x zero (suc j) n =
    let half : bit_on x 0 / 2 ≡ x / 2 = omega arith in
    bit_half (bit_on x 0) j ∙ (ap (λ y. bit y j) half ∙ sym (bit_half x j))
bit-bit_on_ne x (suc k) zero n = omega (arith, bit_on_half x k)
bit-bit_on_ne x (suc k) (suc j) n =
    let half : bit_on x (suc k) / 2 ≡ bit_on (x / 2) k = omega (arith, bit_on_half x k) in
    bit_half (bit_on x (suc k)) j
    ∙ (ap (λ y. bit y j) half
        ∙ (bit-bit_on_ne (x / 2) k j (λ e. n (ap suc e)) ∙ sym (bit_half x j)))

pub bit-bit_off_self : (x k : ℕ) → bit (bit_off x k) k ≡ 0
bit-bit_off_self x zero = omega arith
bit-bit_off_self x (suc k) =
    let half : bit_off x (suc k) / 2 ≡ bit_off (x / 2) k = omega (arith, bit_off_half x k) in
    bit_half (bit_off x (suc k)) k ∙ (ap (λ y. bit y k) half ∙ bit-bit_off_self (x / 2) k)

pub bit-bit_off_ne : (x k j : ℕ) → j ≢ k → bit (bit_off x k) j ≡ bit x j
bit-bit_off_ne x zero zero n = absurd (n refl)
bit-bit_off_ne x zero (suc j) n =
    let half : bit_off x 0 / 2 ≡ x / 2 = omega arith in
    bit_half (bit_off x 0) j ∙ (ap (λ y. bit y j) half ∙ sym (bit_half x j))
bit-bit_off_ne x (suc k) zero n = omega (arith, bit_off_half x k)
bit-bit_off_ne x (suc k) (suc j) n =
    let half : bit_off x (suc k) / 2 ≡ bit_off (x / 2) k = omega (arith, bit_off_half x k) in
    bit_half (bit_off x (suc k)) j
    ∙ (ap (λ y. bit y j) half
        ∙ (bit-bit_off_ne (x / 2) k j (λ e. n (ap suc e)) ∙ sym (bit_half x j)))
