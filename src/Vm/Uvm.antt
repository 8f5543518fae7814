-- ===== src/Vm/Uvm.antt =====
-- The user part of a page table: `deallocuvm`, `allocuvm`, `inituvm`, `loaduvm`, `copyout` and
-- `freevm` of vm.c, for a process whose pages are not swapped.
pub mod Bytes
pub mod Copyout
use c_cpp_projects.Prelude.{
  ℕ, zero, suc, ◌+◌, ◌-◌, ◌*◌, ◌/◌, ◌%◌, Bool, true, false, not, ◌==◌, ltb, leb, if◌then◌else◌,
  Outcome, ok, panic, fault, out_of_fuel, ◌>>=◌, add32, sub32, update, u32_mod, min,
}
use c_cpp_projects.Vm.{Vm, walkpgdir, pte_p, pte_addr, pdx, memset_page, mappages, uva2ka, or32}
use c_cpp_projects.Kalloc.{
  Kmem, kalloc, kfree, kernbase, pgsize, v2p, p2v, pground_up, pground_down,
}
use c_cpp_projects.Strings.{memmove}

-- `kfree`, and then `*pte = 0`
abbrev pub drop_page : ℕ → ℕ → Vm → Outcome Vm
drop_page kend pte s =
    let pa : ℕ = pte_addr (s.word pte) in
    if pa == 0
    then panic "kfree"
    else kfree kend (p2v pa) s.kmem >>= λ k. ok (record s { kmem = k; word = update s.word pte 0 })

-- One round of `deallocuvm`: the address of the next round, and the state.
pub dealloc_step : ℕ → ℕ → ℕ → Vm → Outcome (ℕ × Vm)
dealloc_step kend pgdir a s =
    let pte : ℕ = (walkpgdir pgdir a false s).0 in
    if pte == 0
    then ok (add32 (sub32 ((pdx a + 1) * 0x40_0000 % u32_mod) pgsize) pgsize, s)
    else if pte_p (s.word pte)
    then (drop_page kend pte s >>= λ t. ok (add32 a pgsize, t))
    else ok (add32 a pgsize, s)

pub dealloc_loop : ℕ → ℕ → ℕ → ℕ → ℕ → Vm → Outcome Vm
unfolding dealloc_step
dealloc_loop zero kend pgdir oldsz a s = out_of_fuel
dealloc_loop (suc fuel) kend pgdir oldsz a s =
    if ltb a oldsz
    then (dealloc_step kend pgdir a s >>= λ r. dealloc_loop fuel kend pgdir oldsz r.0 r.1)
    else ok s

-- A round moves `a` by a page at least, so there are at most `oldsz / pgsize + 1` before the last
-- test.
unfoldable pub deallocuvm : ℕ → ℕ → ℕ → ℕ → Vm → Outcome (ℕ × Vm)
unfolding dealloc_loop
deallocuvm kend pgdir oldsz newsz s =
    if leb oldsz newsz
    then ok (oldsz, s)
    else dealloc_loop (oldsz / pgsize + 2) kend pgdir oldsz (pground_up newsz) s >>= λ t.
        ok (newsz, t)

-- One round of `allocuvm`, on what `kalloc` gave; false where the function returns 0.
pub alloc_page : ℕ → ℕ → ℕ → ℕ → ℕ → ℕ × Kmem → Vm → Outcome (Bool × Vm)
alloc_page kend pgdir oldsz newsz a (mem, k) s =
    let t : Vm = record s { kmem = k } in
    if mem == 0
    then (deallocuvm kend pgdir newsz oldsz t >>= λ r. ok (false, r.1))
    else mappages pgdir a pgsize (v2p mem) (or32 2 4) (memset_page mem t) >>= λ m.
        if m.0
        then ok (true, m.1)
        else deallocuvm kend pgdir newsz oldsz m.1 >>= λ r.
            kfree kend mem r.1.kmem >>= λ u. ok (false, record r.1 { kmem = u })

pub alloc_loop : ℕ → ℕ → ℕ → ℕ → ℕ → ℕ → Vm → Outcome (ℕ × Vm)
unfolding alloc_page
alloc_loop zero kend pgdir oldsz newsz a s = out_of_fuel
alloc_loop (suc fuel) kend pgdir oldsz newsz a s =
    if ltb a newsz
    then (alloc_page kend pgdir oldsz newsz a (kalloc s.kmem) s >>= λ r.
        let rest = alloc_loop fuel kend pgdir oldsz newsz (add32 a pgsize) r.1 in
        if r.0 then rest else ok (0, r.1))
    else ok (newsz, s)

unfoldable pub allocuvm : ℕ → ℕ → ℕ → ℕ → Vm → Outcome (ℕ × Vm)
unfolding alloc_loop
allocuvm kend pgdir oldsz newsz s =
    if leb kernbase newsz
    then ok (0, s)
    else if ltb newsz oldsz
    then ok (oldsz, s)
    else alloc_loop (newsz / pgsize + 2) kend pgdir oldsz newsz (pground_up oldsz) s

-- The results of `kalloc` and `mappages` are used without a test.
unfoldable pub inituvm : ℕ → ℕ → ℕ → Vm → Outcome Vm
inituvm pgdir init sz s =
    if leb pgsize sz
    then panic "inituvm: more than a page"
    else let (mem, k) = kalloc s.kmem in
      mappages pgdir 0 pgsize (v2p mem) (or32 2 4) (memset_page mem (record s { kmem = k }))
      >>= λ r. ok (record r.1 { byte = memmove mem init sz r.1.byte })

-- `readi` of fs.c: the file's inode is part of it; it takes the place, the offset and the number of
-- bytes, and gives the number that it read.
pub load_loop : (ℕ → ℕ → ℕ → Vm → ℕ × Vm) → ℕ → ℕ → ℕ → ℕ → ℕ → ℕ → Vm → Outcome (Bool × Vm)
load_loop readi zero pgdir addr offset sz i s = out_of_fuel
load_loop readi (suc fuel) pgdir addr offset sz i s =
    let pte : ℕ = (walkpgdir pgdir (add32 addr i) false s).0 in
    let n : ℕ = if ltb (sub32 sz i) pgsize then sub32 sz i else pgsize in
    let r : ℕ × Vm = readi (p2v (pte_addr (s.word pte))) (add32 offset i) n s in
    let rest = load_loop readi fuel pgdir addr offset sz (add32 i pgsize) r.1 in
    if leb sz i
    then ok (true, s)
    else if pte == 0
    then panic "loaduvm: address should exist"
    else if r.0 == n
    then rest
    else ok (false, r.1)

unfoldable pub loaduvm : (ℕ → ℕ → ℕ → Vm → ℕ × Vm) → ℕ → ℕ → ℕ → ℕ → Vm → Outcome (Bool × Vm)
unfolding load_loop
loaduvm readi pgdir addr offset sz s =
    if not (addr % pgsize == 0)
    then panic "loaduvm: addr must be page aligned"
    else load_loop readi (sz / pgsize + 2) pgdir addr offset sz 0 s

-- One round of `copyout`, at the kernel's address `pa0` of the page.
abbrev pub copyout_size : ℕ → ℕ → ℕ
copyout_size va len = if ltb len (pgsize - va % pgsize) then len else pgsize - va % pgsize

pub copyout_loop : ℕ → ℕ → ℕ → ℕ → ℕ → Vm → Outcome (Bool × Vm)
copyout_loop zero pgdir va buf len s = out_of_fuel
copyout_loop (suc fuel) pgdir va buf len s =
    if len == 0
    then ok (true, s)
    else uva2ka pgdir (pground_down va) s >>= λ pa0.
        let n : ℕ = copyout_size va len in
        let rest =
          copyout_loop fuel pgdir (add32 (pground_down va) pgsize) (add32 buf n) (len - n)
            (record s { byte = memmove (pa0 + va % pgsize) buf n s.byte }) in
        if pa0 == 0 then ok (false, s) else rest

-- A round copies a byte at least.
unfoldable pub copyout : ℕ → ℕ → ℕ → ℕ → Vm → Outcome (Bool × Vm)
unfolding copyout_loop
copyout pgdir va p len s = copyout_loop (len + 1) pgdir va p len s

-- The last loop of `freevm`, from the entry `i` of the directory on.
pub free_tables : ℕ → ℕ → ℕ → ℕ → Vm → Outcome Vm
free_tables zero kend pgdir i s = ok s
free_tables (suc n) kend pgdir i s =
    if pte_p (s.word (pgdir + 4 * i))
    then (kfree kend (p2v (pte_addr (s.word (pgdir + 4 * i)))) s.kmem >>= λ k.
        free_tables n kend pgdir (i + 1) (record s { kmem = k }))
    else free_tables n kend pgdir (i + 1) s

unfoldable pub freevm : ℕ → ℕ → Vm → Outcome Vm
unfolding free_tables
freevm kend pgdir s =
    if pgdir == 0
    then panic "freevm: no pgdir"
    else deallocuvm kend pgdir kernbase 0 s >>= λ r. free_tables 1024 kend pgdir 0 r.1 >>= λ t.
        kfree kend pgdir t.kmem >>= λ k. ok (record t { kmem = k })
