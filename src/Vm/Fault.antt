-- ===== src/Vm/Fault.antt =====
-- `handle_page_fault` of vm.c: the copy of a shared page at the first write to it.
pub mod Moved
pub mod Private
pub mod Last
use c_cpp_projects.Prelude.{
  ℕ, ◌+◌, Bool, true, false, ◌&&◌, not, ◌==◌, ltb, leb, if◌then◌else◌, Outcome, ok, panic, fault,
  ◌>>=◌, add32, update, bit_on,
}
use c_cpp_projects.Vm.{Vm, walkpgdir, pte_p, pte_w, pte_u, pte_c, pte_addr, copy_page, or32}
use c_cpp_projects.Kalloc.{
  Kmem, kalloc, get_ref_count, dec_ref_count, inc_ref_count, kernbase, v2p, p2v,
}

-- The fields of the process that the handler reads or changes, with the memory.
pub record Faulting : Type 0 where
  pub vm : Vm
  pub pgdir : ℕ
  pub killed : Bool
  pub number_of_page_faults : ℕ

-- A page that is referred to more than once, on what `kalloc` gave for its copy. The count of the
-- copy is raised through `P2V(mem)`, as the source has it. The result is true for 1, false for -1.
pub copy_shared : ℕ → ℕ → ℕ × Kmem → Faulting → Outcome (Bool × Faulting)
copy_shared kend pte (mem, k) f =
    let pa : ℕ = pte_addr (f.vm.word pte) in
    if mem == 0
    then ok (false, record f { vm = record f.vm { kmem = k }; killed = true })
    else dec_ref_count kend pa k >>= inc_ref_count kend (p2v mem) >>= λ u. ok (
      true,
      record f {
        vm = record f.vm {
          kmem = u;
          word = update f.vm.word pte (or32 (or32 (or32 (v2p mem) 1) 4) 2);
          byte = copy_page mem (p2v pa) f.vm.byte;
        };
      },
    )

-- The last entry: the page is not shared any more, and may be written to.
abbrev pub make_writeable : ℕ → Faulting → Faulting
make_writeable pte f = record f {
  vm = record f.vm { word = update f.vm.word pte (bit_on (f.vm.word pte) 1) };
}

-- On the entry at `pte` of a user page that is present and not writeable.
pub write_fault : ℕ → ℕ → Faulting → Outcome (Bool × Faulting)
unfolding copy_shared
write_fault kend pte f = get_ref_count kend (pte_addr (f.vm.word pte)) f.vm.kmem >>= λ n.
    if ltb 1 n
    then copy_shared kend pte (kalloc f.vm.kmem) f
    else if (n == 1) && pte_c (f.vm.word pte)
    then ok (true, make_writeable pte f)
    else panic "wrong ref count"

-- The message for an illegal address reads the entry, so that a null pointer faults.
pub handle_page_fault : ℕ → ℕ → Faulting → Outcome (Bool × Faulting)
unfolding write_fault
handle_page_fault kend va f =
    let g : Faulting = record f { number_of_page_faults = add32 f.number_of_page_faults 1 } in
    let pte : ℕ = (walkpgdir f.pgdir va false f.vm).0 in
    if leb kernbase va
    then ok (false, record g { killed = true })
    else if pte == 0
    then fault
    else if not (pte_p (f.vm.word pte) && pte_u (f.vm.word pte))
    then ok (false, record g { killed = true })
    else if pte_w (f.vm.word pte)
    then panic "The page is already writeable\n"
    else write_fault kend pte g
