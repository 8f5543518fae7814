-- ===== src/Strings.antt =====
-- The routines on memory and strings: c/os-master/string.c. Memory gives the byte at each address, and
-- the ranges are taken not to wrap around the address space.
pub mod Move
pub mod Copy
pub mod Compare
mod Tests
use c_cpp_projects.Prelude.{
  ℕ, zero, suc, ◌+◌, ◌-◌, ◌%◌, ◌&&◌, not, ◌==◌, ltb, leb, if◌then◌else◌, Outcome, ok, out_of_fuel,
  update, ℤ, pos, negsuc,
}

abbrev pub Memory : Type 0
Memory = ℕ → ℕ

-- Both branches of `memset` store the low byte of `c` in `n` places.
pub memset : ℕ → ℕ → ℕ → Memory → Memory
memset dst c zero m = m
memset dst c (suc n) m = memset (suc dst) c n (update m dst (c % 256))

-- The difference of two bytes.
abbrev pub difference : ℕ → ℕ → ℤ
difference a b = if leb b a then pos (a - b) else negsuc (b - a - 1)

pub memcmp : ℕ → ℕ → ℕ → Memory → ℤ
memcmp s1 s2 zero m = pos 0
memcmp s1 s2 (suc n) m =
    let rest = memcmp (suc s1) (suc s2) n m in
    if not (m s1 == m s2) then difference (m s1) (m s2) else rest

-- The loop of `memmove` from the end, and the one from the start.
pub move_back : ℕ → ℕ → ℕ → Memory → Memory
move_back dst src zero m = m
move_back dst src (suc n) m = move_back dst src n (update m (dst + n) (m (src + n)))

pub move_forward : ℕ → ℕ → ℕ → Memory → Memory
move_forward dst src zero m = m
move_forward dst src (suc n) m = move_forward (suc dst) (suc src) n (update m dst (m src))

pub memmove : ℕ → ℕ → ℕ → Memory → Memory
memmove dst src n m =
    if ltb src dst && ltb dst (src + n) then move_back dst src n m else move_forward dst src n m

pub memcpy : ℕ → ℕ → ℕ → Memory → Memory
memcpy dst src n m = memmove dst src n m

pub strncmp : ℕ → ℕ → ℕ → Memory → ℤ
strncmp p q zero m = pos 0
strncmp p q (suc n) m =
    let rest = strncmp (suc p) (suc q) n m in
    if not (m p == 0) && (m p == m q) then rest else difference (m p) (m q)

-- The second loop of `strncpy`, which fills up with zeros.
pub fill_zero : ℕ → ℕ → Memory → Memory
fill_zero s zero m = m
fill_zero s (suc n) m = fill_zero (suc s) n (update m s 0)

pub strncpy : ℕ → ℕ → ℕ → Memory → Memory
strncpy s t zero m = m
strncpy s t (suc n) m =
    let stored = update m s (m t) in
    let rest = strncpy (suc s) (suc t) n stored in
    if m t == 0 then fill_zero (suc s) n stored else rest

-- The loop of `safestrcpy` and the zero behind it, with room for `n` bytes and a zero.
pub copy_from : ℕ → ℕ → ℕ → Memory → Memory
copy_from s t zero m = update m s 0
copy_from s t (suc n) m =
    let stored = update m s (m t) in
    let rest = copy_from (suc s) (suc t) n stored in
    if m t == 0 then update stored (suc s) 0 else rest

pub safestrcpy : ℕ → ℕ → ℕ → Memory → Memory
safestrcpy s t zero m = m
safestrcpy s t (suc n) m = copy_from s t n m

-- The loop of `strlen` at place `n`, on fuel.
pub strlen_from : ℕ → ℕ → ℕ → Memory → Outcome ℕ
strlen_from zero s n m = out_of_fuel
strlen_from (suc fuel) s n m =
    let rest = strlen_from fuel s (suc n) m in if m (s + n) == 0 then ok n else rest

-- The search goes over the address space at most once.
pub strlen : ℕ → Memory → Outcome ℕ
strlen s m = strlen_from 4294967296 s 0 m
