-- ===== src/Syscalls/Bounds.antt =====
-- What the kernel may use of a pointer that a system call was given.
use c_cpp_projects.Prelude.{
  ℕ, zero, suc, ◌%◌, ◌+◌, ◌-◌, ◌^◌, ◌≤◌, ◌<◌, ◌≡◌, ◌≢◌, sym, ap, ◌∙◌, false, Bool-cases, inl, inr,
  ◌||◌, Option, none, some, some-injective, arith, ℕ_discrete, ==_iff, ==_of_ne, ltb, leb,
  if◌then◌else◌, add32, pos,
}
use c_cpp_projects.Syscalls.{User, scan_string, fetchstr, argint, argptr, check_block}

checked :
    (i j s : ℕ) (z : ℕ)
    → z ≤ 2 ^ 31
    → s < 2 ^ 31
    → (if leb z i || ltb z (add32 i s) then none else some i) ≡ some j
    → j + s ≤ z
checked i j s z small short e = elim (Bool-cases (leb z i || ltb z (add32 i s))) [
  | inl h ↦ (let clash = rw h at e in cc)
  | inr h ↦ (let same = some-injective i j (rw h at e) in fits i j s z small short h same)
]
  where
    fits :
        (i j s z : ℕ)
        → z ≤ 2 ^ 31
        → s < 2 ^ 31
        → leb z i || ltb z ((i + s) % 2 ^ 32) ≡ false
        → i ≡ j
        → j + s ≤ z
    fits i j s z small short h e = ground arith

block-fits :
    (o : Option ℕ) (s p : ℕ) (u : User)
    → u.sz ≤ 2 ^ 31
    → s < 2 ^ 31
    → check_block (pos s) u o ≡ some p
    → p + s ≤ u.sz
block-fits none s p u small short e = cc
block-fits (some i) s p u small short e = checked i p s u.sz small short e

-- A pointer that `argptr` accepts for a block of `s` bytes has the whole block in the process's memory:
-- the sum in the test does not wrap around, since the memory ends below 2 ^ 31 and the size is an
-- `int`.
pub argptr_lem :
    (n s p : ℕ) (u : User) → u.sz ≤ 2 ^ 31 → s < 2 ^ 31 → argptr n (pos s) u ≡ some p → p + s ≤ u.sz
unfolding argptr
argptr_lem n s p u small short e = block-fits (argint n u) s p u small short e

-- A string at `addr` of length `k`, all of it and its zero in the memory.
pub record InMemory (addr k : ℕ) (u : User) : Type 0 where
  pub inside : addr + k < u.sz
  pub zero_there : u.byte (addr + k) ≡ 0
  pub before : (i : ℕ) → i < k → u.byte (addr + i) ≢ 0

scan_string_lem :
    (left addr n k : ℕ) (u : User)
    → addr + (n + left) ≤ u.sz
    → ((i : ℕ) → i < n → u.byte (addr + i) ≢ 0)
    → scan_string left addr n u ≡ some k
    → InMemory addr k u
unfolding scan_string
scan_string_lem zero addr n k u le h e = cc
scan_string_lem (suc left) addr n k u le h e = elim (ℕ_discrete (u.byte (addr + n)) 0) [
  | yes z ↦
      let same = some-injective n k (rw ((==_iff (u.byte (addr + n)) 0).1 z) at e) in
      record {
        inside = omega arith;
        zero_there = ap (λ j. u.byte (addr + j)) (sym same) ∙ z;
        before = λ i lt. h i (omega arith);
      }
  | no ne ↦
      scan_string_lem left addr (suc n) k u (omega arith)
        (λ i lt. elim (ℕ_discrete i n) [
          | yes s ↦ λ w. ne (ap (λ j. u.byte (addr + j)) (sym s) ∙ w)
          | no d ↦ h i (omega arith)
        ])
        (rw (==_of_ne (u.byte (addr + n)) 0 ne) at e)
]

-- A string that `fetchstr` accepts lies in the process's memory with its zero, and its length is what
-- `fetchstr` returns.
pub fetchstr_lem : (addr k : ℕ) (u : User) → fetchstr addr u ≡ some k → InMemory addr k u
unfolding fetchstr
fetchstr_lem addr k u e = elim (Bool-cases (leb u.sz addr)) [
  | inl h ↦ (let clash = rw h at e in cc)
  | inr h ↦
      scan_string_lem (u.sz - addr) addr 0 k u (room u.sz addr h) (λ i lt. absurd (omega arith))
        (rw h at e)
]
  where
    room : (z a : ℕ) → leb z a ≡ false → a + (0 + (z - a)) ≤ z
    room z a h = ground arith
