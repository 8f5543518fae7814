-- ===== src/Vm/Cow.antt =====
-- `copyuvm` of vm.c: the child gets the parent's frames, read-only on both sides.
pub mod Share
pub mod Step
pub mod Loop
use c_cpp_projects.Prelude.{
  ℕ, zero, suc, ◌+◌, ◌/◌, Bool, true, false, not, ◌==◌, leb, if◌then◌else◌, Outcome, ok, panic,
  fault, out_of_fuel, ◌>>=◌, add32, update, bit_on, bit_off,
}
use c_cpp_projects.Vm.{Vm, walkpgdir, pte_p, pte_w, pte_pg, pte_addr, pte_flags, mappages}
use c_cpp_projects.Vm.Uvm.{freevm}
use c_cpp_projects.Vm.Kernel.{setupkvm}
use c_cpp_projects.Kalloc.{Kmem, inc_ref_count, pgsize}

-- `*pte |= PTE_C` and `*pte &= ~PTE_W`, for a page that is writeable.
abbrev pub shared_pte : ℕ → ℕ
shared_pte e = if pte_w e then bit_off (bit_on e 10) 1 else e

-- One round for a page that is present, whose entry is at `pte`; false for the jump to `bad`.
pub share_page : ℕ → ℕ → ℕ → ℕ → Vm → Outcome (Bool × Vm)
share_page kend d pte i s =
    let e : ℕ = shared_pte (s.word pte) in
    mappages d i pgsize (pte_addr (s.word pte)) (pte_flags e)
      (record s { word = update s.word pte e })
    >>= λ r.
        if r.0
        then (inc_ref_count kend (pte_addr (s.word pte)) r.1.kmem >>= λ k.
            ok (true, record r.1 { kmem = k }))
        else ok r

pub copy_step : ℕ → ℕ → ℕ → ℕ → Vm → Outcome (Bool × Vm)
unfolding share_page
copy_step kend pgdir d i s =
    let pte : ℕ = (walkpgdir pgdir i false s).0 in
    if pte == 0
    then panic "copyuvm: pte should exist"
    else if pte_p (s.word pte)
    then share_page kend d pte i s
    else if pte_pg (s.word pte)
    then ok (true, s)
    else panic "copyuvm: page not present"

pub copy_loop : ℕ → ℕ → ℕ → ℕ → ℕ → ℕ → Vm → Outcome (Bool × Vm)
unfolding copy_step
copy_loop zero kend pgdir d sz i s = out_of_fuel
copy_loop (suc fuel) kend pgdir d sz i s =
    if leb sz i
    then ok (true, s)
    else copy_step kend pgdir d i s >>= λ r.
        let rest = copy_loop fuel kend pgdir d sz (add32 i pgsize) r.1 in if r.0 then rest else ok r

-- The child's directory, or `0` where memory is short. A round moves `i` by a page.
unfoldable pub copyuvm : ℕ → ℕ → ℕ → ℕ → Vm → Outcome (ℕ × Vm)
unfolding copy_loop
copyuvm kend kdata pgdir sz s = setupkvm kend kdata s >>= λ d.
    if d.0 == 0
    then ok d
    else copy_loop (sz / pgsize + 2) kend pgdir d.0 sz 0 d.1 >>= λ r.
        if r.0 then ok (d.0, r.1) else freevm kend d.0 r.1 >>= λ u. ok (0, u)
