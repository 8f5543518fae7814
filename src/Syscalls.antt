-- ===== src/Syscalls.antt =====
-- The arguments of system calls: c/os-master/syscall.c. `none` is the result -1.
pub mod Bounds
mod Tests
use c_cpp_projects.Prelude.{
  ℕ, zero, suc, ◌+◌, ◌-◌, ◌*◌, Bool, ◌||◌, Option, none, some, ◌==◌, ltb, leb, if◌then◌else◌, add32,
  ℤ, pos, negsuc,
}

-- What the functions use of the process: `sz`, the stack pointer in the trap frame, and its memory, as
-- the byte and the word at each address.
pub record User : Type 0 where
  pub sz : ℕ
  pub esp : ℕ
  pub byte : ℕ → ℕ
  pub word : ℕ → ℕ

pub fetchint : ℕ → User → Option ℕ
fetchint addr u = if leb u.sz addr || ltb u.sz (add32 addr 4) then none else some (u.word addr)

-- The loop of `fetchstr` at place `n` of the string, with `left` bytes up to the end of the memory.
pub scan_string : ℕ → ℕ → ℕ → User → Option ℕ
scan_string zero addr n u = none
scan_string (suc left) addr n u =
    let rest = scan_string left addr (suc n) u in if u.byte (addr + n) == 0 then some n else rest

-- The length of the string; the pointer set is `addr`.
pub fetchstr : ℕ → User → Option ℕ
fetchstr addr u = if leb u.sz addr then none else scan_string (u.sz - addr) addr 0 u

pub argint : ℕ → User → Option ℕ
argint n u = fetchint (add32 (add32 u.esp 4) (4 * n)) u

-- What `argptr` does with the argument.
abbrev pub check_block : ℤ → User → Option ℕ → Option ℕ
check_block size u none = none
check_block (negsuc s) u (some i) = none
check_block (pos s) u (some i) = if leb u.sz i || ltb u.sz (add32 i s) then none else some i

-- The pointer that `argptr` sets.
pub argptr : ℕ → ℤ → User → Option ℕ
argptr n size u = check_block size u (argint n u)

abbrev pub check_string : User → Option ℕ → Option (ℕ × ℕ)
check_string u none = none
check_string u (some addr) = elim (fetchstr addr u) [ none ↦ none | some k ↦ some (addr, k) ]

-- The pointer that `argstr` sets, and the length it returns.
pub argstr : ℕ → User → Option (ℕ × ℕ)
argstr n u = check_string u (argint n u)
