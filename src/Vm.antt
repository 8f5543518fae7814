-- ===== src/Vm.antt =====
-- Page tables: c/os-master/vm.c with the macros of mmu.h, for a process whose pages are not swapped:
-- its pid is at most DEF_PROCS, or the kernel is built without a replacement policy. Memory is held
-- in two views, the words of the pages that hold page tables and the bytes of those that hold user
-- data; an address is a kernel virtual address. The flush of the TLB by `lcr3` has no place here.
pub mod Bits
pub mod Shape
pub mod Walk
pub mod Frame
pub mod Added
pub mod Table
pub mod Grow
pub mod Map
pub mod Mappages
pub mod Counts
pub mod Uvm
pub mod Kernel
pub mod Cow
pub mod Reading
pub mod Fault
mod Tests
use c_cpp_projects.Prelude.{
  ℕ, zero, suc, ◌+◌, ◌-◌, ◌*◌, ◌/◌, ◌%◌, Bool, true, false, ◌||◌, not, ◌==◌, ltb, leb,
  if◌then◌else◌, Outcome, ok, panic, fault, out_of_fuel, ◌>>=◌, add32, sub32, update, bit, bit_on,
  bit_off, List, [], ◌∷◌,
}
use c_cpp_projects.Kalloc.{
  Kmem, kalloc, kfree, kernbase, phystop, pgsize, v2p, p2v, pground_up, pground_down,
}
use c_cpp_projects.Strings.{memmove}

pub record Vm : Type 0 where
  pub kmem : Kmem
  pub word : ℕ → ℕ
  pub byte : ℕ → ℕ

-- `x | y` on the low `n` bits.
pub or_bits : ℕ → ℕ → ℕ → ℕ
or_bits zero x y = 0
or_bits (suc n) x y = (x % 2 + y % 2 - (x % 2) * (y % 2)) + 2 * or_bits n (x / 2) (y / 2)

abbrev pub or32 : ℕ → ℕ → ℕ
or32 = or_bits 32

-- `PDX`, `PTX`, `PTE_ADDR` and `PTE_FLAGS`
abbrev pub pdx : ℕ → ℕ
pdx va = va / 0x40_0000 % 1024

abbrev pub ptx : ℕ → ℕ
ptx va = va / 4096 % 1024

abbrev pub pte_addr : ℕ → ℕ
pte_addr e = e / 4096 * 4096

abbrev pub pte_flags : ℕ → ℕ
pte_flags e = e % 4096

-- The flags that the code reads: PTE_P, PTE_W, PTE_U, PTE_PG and PTE_C.
abbrev pub pte_p : ℕ → Bool
pte_p e = bit e 0 == 1

abbrev pub pte_w : ℕ → Bool
pte_w e = bit e 1 == 1

abbrev pub pte_u : ℕ → Bool
pte_u e = bit e 2 == 1

abbrev pub pte_pg : ℕ → Bool
pte_pg e = bit e 9 == 1

abbrev pub pte_c : ℕ → Bool
pte_c e = bit e 10 == 1

-- What `memset(page, 0, PGSIZE)` and `memmove(page, from, PGSIZE)` leave.
abbrev pub wipe : ℕ → (ℕ → ℕ) → ℕ → ℕ
wipe page f a = if a / 4096 == page / 4096 then 0 else f a

abbrev pub copy_page : ℕ → ℕ → (ℕ → ℕ) → ℕ → ℕ
copy_page page from f a = if a / 4096 == page / 4096 then f (from + a % 4096) else f a

abbrev pub memset_page : ℕ → Vm → Vm
memset_page page s = record s { word = wipe page s.word; byte = wipe page s.byte }

-- A new page table for the entry of the directory at `pde`; `0` where no page is free.
pub add_table : ℕ → ℕ → ℕ × Kmem → Vm → ℕ × Vm
add_table pde va (pgtab, k) s = if pgtab == 0 then (0, record s { kmem = k }) else (
  pgtab + 4 * ptx va,
  record s {
    kmem = k;
    word = update (wipe pgtab s.word) pde (or32 (or32 (or32 (v2p pgtab) 1) 2) 4);
    byte = wipe pgtab s.byte;
  },
)

-- The address of the entry, or `0`.
pub walkpgdir : ℕ → ℕ → Bool → Vm → ℕ × Vm
unfolding add_table
walkpgdir pgdir va alloc s =
    let pde : ℕ = pgdir + 4 * pdx va in
    if pte_p (s.word pde)
    then (p2v (pte_addr (s.word pde)) + 4 * ptx va, s)
    else if not alloc
    then (0, s)
    else add_table pde va (kalloc s.kmem) s

-- `*pte = pa | perm | PTE_P`
abbrev pub pte_of : ℕ → ℕ → ℕ
pte_of pa perm = or32 (or32 pa perm) 1

-- One round of `mappages` after the walk, on its result; false for the return of -1.
pub set_pte : ℕ → ℕ → ℕ × Vm → Outcome (Bool × Vm)
set_pte pa perm (pte, s) =
    if pte == 0
    then ok (false, s)
    else if pte_p (s.word pte)
    then panic "remap"
    else ok (true, record s { word = update s.word pte (pte_of pa perm) })

pub mappages_loop : ℕ → ℕ → ℕ → ℕ → ℕ → ℕ → Vm → Outcome (Bool × Vm)
unfolding set_pte
mappages_loop zero pgdir a last pa perm s = out_of_fuel
mappages_loop (suc fuel) pgdir a last pa perm s =
    set_pte pa perm (walkpgdir pgdir a true s) >>= λ r.
    let rest = mappages_loop fuel pgdir (add32 a pgsize) last (add32 pa pgsize) perm r.1 in
    if not r.0 || (a == last) then ok r else rest

-- A round moves `a` by a page, also past the end of the address space, so the rounds are the pages
-- from `a` to `last`.
pub mappages : ℕ → ℕ → ℕ → ℕ → ℕ → Vm → Outcome (Bool × Vm)
unfolding mappages_loop
mappages pgdir va size pa perm s =
    let a : ℕ = pground_down va in
    let last : ℕ = pground_down (sub32 (add32 va size) 1) in
    mappages_loop (sub32 last a / pgsize + 1) pgdir a last pa perm s

pub clearpteu : ℕ → ℕ → Vm → Outcome Vm
clearpteu pgdir uva s =
    let pte : ℕ = (walkpgdir pgdir uva false s).0 in
    if pte == 0
    then panic "clearpteu"
    else ok (record s { word = update s.word pte (bit_off (s.word pte) 2) })

-- The walk's result is read without a test: a null pointer faults.
pub uva2ka : ℕ → ℕ → Vm → Outcome ℕ
uva2ka pgdir uva s =
    let pte : ℕ = (walkpgdir pgdir uva false s).0 in
    if pte == 0
    then fault
    else if not (pte_p (s.word pte))
    then ok 0
    else if not (pte_u (s.word pte))
    then ok 0
    else ok (p2v (pte_addr (s.word pte)))
