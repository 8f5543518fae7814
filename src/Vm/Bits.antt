-- ===== src/Vm/Bits.antt =====
-- The bits of a page table entry: what `|` makes of an aligned address and flags.
use c_cpp_projects.Prelude.{
  ℕ, zero, suc, ◌+◌, ◌*◌, ◌/◌, ◌%◌, ◌^◌, ◌<◌, ◌≤◌, ◌≡◌, arith, u32_mod, bit_on, ap, ◌∙◌,
}
use c_cpp_projects.Vm.{or_bits, or32, pte_of, pte_addr, pte_flags}

pub or_bits_zero : (n x : ℕ) → x < 2 ^ n → or_bits n x 0 ≡ x
unfolding or_bits
or_bits_zero zero x h = omega arith
or_bits_zero (suc n) x h =
    let ih : or_bits n (x / 2) 0 ≡ x / 2 = or_bits_zero n (x / 2) (omega arith) in omega (arith, ih)

pub or_bits_one : (n x : ℕ) → x < 2 ^ suc n → or_bits (suc n) x 1 ≡ bit_on x 0
unfolding or_bits
or_bits_one n x h =
    let ih : or_bits n (x / 2) 0 ≡ x / 2 = or_bits_zero n (x / 2) (omega arith) in omega (arith, ih)

-- The flags below bit `k` join a multiple of `2 ^ k`.
or_bits_multiple :
    (n k q x r : ℕ) → x ≡ q * 2 ^ k → x < 2 ^ n → k ≤ n → r < 2 ^ k → or_bits n x r ≡ x + r
unfolding or_bits
or_bits_multiple n zero q x r e hx hk hr =
    let none : r ≡ 0 = omega arith in rw (none) (or_bits_zero n x hx ∙ omega arith)
or_bits_multiple zero (suc k) q x r e hx hk hr = omega arith
or_bits_multiple (suc n) (suc k) q x r e hx hk hr =
    let double : 2 ^ suc k ≡ 2 ^ k + 2 ^ k = omega arith in
    let half : q * 2 ^ suc k ≡ 2 * (q * 2 ^ k) = ap (λ y. q * y) double ∙ grind arith in
    let twice : x ≡ 2 * (q * 2 ^ k) = e ∙ half in
    let even : x % 2 ≡ 0 = omega arith in
    let ih : or_bits n (x / 2) (r / 2) ≡ x / 2 + r / 2 =
      or_bits_multiple n k q (x / 2) (r / 2) (omega arith) (omega arith) (omega arith)
        (omega arith) in
    let product : (x % 2) * (r % 2) ≡ 0 = ap (λ y. y * (r % 2)) even ∙ omega arith in
    omega (arith, ih, even, product)

pub or32-aligned : (x r : ℕ) → x % 4096 ≡ 0 → x < u32_mod → r < 4096 → or32 x r ≡ x + r
or32-aligned x r a h hr = or_bits_multiple 32 12 (x / 4096) x r (omega arith) h (omega arith) hr

-- A new entry holds the address and the flags, with PTE_P.
pub pte_of_lem :
    (pa perm : ℕ) → pa % 4096 ≡ 0 → pa < u32_mod → perm < 4096 → pte_of pa perm ≡ pa + bit_on perm 0
pte_of_lem pa perm a h hp =
    let joined : or32 pa perm ≡ pa + perm = or32-aligned pa perm a h hp in
    let one : or32 (pa + perm) 1 ≡ bit_on (pa + perm) 0 =
      or_bits_one 31 (pa + perm) (omega arith) in
    ap (λ x. or32 x 1) joined ∙ (one ∙ omega arith)

pub pte_of_addr :
    (pa perm : ℕ) → pa % 4096 ≡ 0 → pa < u32_mod → perm < 4096 → pte_addr (pte_of pa perm) ≡ pa
pte_of_addr pa perm a h hp = omega (arith, pte_of_lem pa perm a h hp)

pub pte_of_flags :
    (pa perm : ℕ)
    → pa % 4096 ≡ 0
    → pa < u32_mod
    → perm < 4096
    → pte_flags (pte_of pa perm) ≡ bit_on perm 0
pte_of_flags pa perm a h hp = omega (arith, pte_of_lem pa perm a h hp)

pub or_bits_two : (n x : ℕ) → x < 2 ^ suc (suc n) → or_bits (suc (suc n)) x 2 ≡ bit_on x 1
unfolding or_bits
or_bits_two n x h =
    let low : or_bits (suc n) (x / 2) 1 ≡ bit_on (x / 2) 0 = or_bits_one n (x / 2) (omega arith) in
    omega (arith, low)

pub or_bits_four :
    (n x : ℕ) → x < 2 ^ suc (suc (suc n)) → or_bits (suc (suc (suc n))) x 4 ≡ bit_on x 2
unfolding or_bits
or_bits_four n x h =
    let low : or_bits (suc (suc n)) (x / 2) 2 ≡ bit_on (x / 2) 1 =
      or_bits_two n (x / 2) (omega arith) in
    omega (arith, low)

-- The directory's entry for a new table leads back to the table, with PTE_P, PTE_W and PTE_U.
pub pde_of_lem : (pa : ℕ) → pa % 4096 ≡ 0 → pa < u32_mod → or32 (or32 (or32 pa 1) 2) 4 ≡ pa + 7
pde_of_lem pa a h =
    let one : or32 pa 1 ≡ pa + 1 = or32-aligned pa 1 a h (omega arith) in
    let two : or32 (pa + 1) 2 ≡ pa + 3 = or_bits_two 30 (pa + 1) (omega arith) ∙ omega arith in
    let four : or32 (pa + 3) 4 ≡ pa + 7 = or_bits_four 29 (pa + 3) (omega arith) ∙ omega arith in
    ap (λ x. or32 (or32 x 2) 4) one ∙ (ap (λ x. or32 x 4) two ∙ four)
