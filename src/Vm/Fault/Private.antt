-- ===== src/Vm/Fault/Private.antt =====
-- The write to a page that is shared: the process gets a copy of its own.
use c_cpp_projects.Prelude.{
  ℕ, ◌+◌, ◌-◌, ◌*◌, ◌/◌, ◌%◌, ◌<◌, ◌≤◌, ◌≡◌, ◌≢◌, refl, sym, ap, subst, ◌∙◌, true, false, List, ◌∷◌,
  arith, u32_mod, update, add32, ok, NotIn, ==_self, ==_of_ne, lt→ltb, lt→leb_false,
}
use c_cpp_projects.Vm.{Vm, pdx, ptx, pte_p, pte_w, pte_u, pte_addr, or32, copy_page}
use c_cpp_projects.Vm.Bits.{or32-aligned, or_bits_two, or_bits_four}
use c_cpp_projects.Vm.Shape.{table, HasTable, entry, IsValid, entry_of_words}
use c_cpp_projects.Vm.Reading.{entry-HasTable, HasTable-of_entry, walkpgdir-found, place-ne}
use c_cpp_projects.Vm.Grow.{kalloc-first}
use c_cpp_projects.Vm.Walk.{store, IsValid-taken, store-SameRoots, entry-store_self, entry-store_ne}
use c_cpp_projects.Vm.Fault.{Faulting, handle_page_fault, write_fault, copy_shared}
use c_cpp_projects.Vm.Counts.{get_ref_count-ok}
use c_cpp_projects.Kalloc.{Kmem, refs, frame, v2p, p2v, kernbase}
use c_cpp_projects.Kalloc.Chain.{IsPage}
use c_cpp_projects.Vm.Fault.Moved.{moved, moves, refs_old, refs_new, refs_other}
use c_cpp_projects.Vm.Frame.{NotIn-ne}

-- An entry that a write fault is about: a user page that is present and not writeable, whose frame
-- is a page of the kernel that is not free.
pub record ReadOnly (kend : ℕ) (free : List ℕ) (e : ℕ) : Type 0 where
  pub word : e < u32_mod
  pub present : pte_p e ≡ true
  pub user : pte_u e ≡ true
  pub read_only : pte_w e ≡ false
  pub frame : IsPage kend (p2v (pte_addr e))
  pub taken : NotIn (p2v (pte_addr e)) free

-- The new entry: the frame with PTE_P, PTE_U and PTE_W.
entry_of_copy : (pa : ℕ) → pa % 4096 ≡ 0 → pa < u32_mod → or32 (or32 (or32 pa 1) 4) 2 ≡ pa + 7
entry_of_copy pa a h =
    let one : or32 pa 1 ≡ pa + 1 = or32-aligned pa 1 a h (omega arith) in
    let four : or32 (pa + 1) 4 ≡ pa + 5 = or_bits_four 29 (pa + 1) (omega arith) ∙ omega arith in
    let two : or32 (pa + 5) 2 ≡ pa + 7 = or_bits_two 30 (pa + 5) (omega arith) ∙ omega arith in
    ap (λ x. or32 (or32 x 4) 2) one ∙ (ap (λ x. or32 x 2) four ∙ two)

-- The handler comes to `write_fault` for such an entry.
pub handle_page_fault-ReadOnly :
    (kend : ℕ) (D : ℕ → Type 0) (free : List ℕ) (f : Faulting) (va : ℕ)
    → IsValid kend D free f.vm
    → D f.pgdir
    → va < kernbase
    → ReadOnly kend free (entry f.vm f.pgdir va)
    → handle_page_fault kend va f
      ≡ write_fault kend
          (table f.vm f.pgdir (pdx va) + 4 * ptx va)
          (record f { number_of_page_faults = add32 f.number_of_page_faults 1 })
unfolding handle_page_fault
handle_page_fault-ReadOnly kend D free f va w x user r =
    let some : entry f.vm f.pgdir va ≢ 0 = λ z. ground (arith, r.present, z) in
    let h : HasTable f.vm f.pgdir (pdx va) = HasTable-of_entry f.vm f.pgdir va some in
    let at = entry-HasTable f.vm f.pgdir va h in
    rw
      (
        walkpgdir-found f.vm f.pgdir va h,
        lt→leb_false kernbase va user,
        ==_of_ne (table f.vm f.pgdir (pdx va) + 4 * ptx va) 0
            (place-ne kend D free f.vm f.pgdir va w x h),
        ap pte_p (sym at) ∙ r.present,
        ap pte_u (sym at) ∙ r.user,
        ap pte_w (sym at) ∙ r.read_only,
      )
      refl

-- The handler succeeds, and the process has the page `p` as its own copy at `va`.
abbrev pub GetsCopy : ℕ → (ℕ → Type 0) → ℕ → List ℕ → Faulting → ℕ → Type 0
GetsCopy kend D p rest f va =
    (g : Faulting) × (handle_page_fault kend va f ≡ ok (true, g))
    × IsValid kend D rest g.vm
    × (entry g.vm f.pgdir va ≡ v2p p + 7)
    × ((d vb : ℕ)
        → D d
        → vb < u32_mod
        → ¬ ((d ≡ f.pgdir) × (vb / 4096 ≡ va / 4096))
        → entry g.vm d vb ≡ entry f.vm d vb)
    × ((j : ℕ)
        → j < 4096
        → g.vm.byte (p + j) ≡ f.vm.byte (p2v (pte_addr (entry f.vm f.pgdir va)) + j))
    × ((a : ℕ) → a / 4096 ≢ p / 4096 → g.vm.byte a ≡ f.vm.byte a)
    × (refs g.vm.kmem (p2v (pte_addr (entry f.vm f.pgdir va)))
        ≡ refs f.vm.kmem (p2v (pte_addr (entry f.vm f.pgdir va))) - 1)
    × (refs g.vm.kmem p ≡ 2)
    × ((v : ℕ)
        → IsPage kend v
        → v ≢ p
        → v ≢ p2v (pte_addr (entry f.vm f.pgdir va))
        → refs g.vm.kmem v ≡ refs f.vm.kmem v)
    × (g.killed ≡ f.killed)

-- A write to a read-only user page whose frame is referred to more than once, while a page is free:
-- the handler succeeds. The first free page becomes the process's own copy, byte for byte, mapped at
-- that address with PTE_P, PTE_U and PTE_W; no other entry of any directory changes, and no byte
-- outside the new page. The frame that was shared loses one reference, all other counts stay, but
-- the new page ends with two references, although only one entry leads to it. The page tables stay
-- valid, and the process is not killed.
pub handle_page_fault-copies :
    (kend : ℕ) (D : ℕ → Type 0) (p : ℕ) (rest : List ℕ) (f : Faulting) (va : ℕ)
    → IsValid kend D (p ∷ rest) f.vm
    → kernbase ≤ kend
    → D f.pgdir
    → va < kernbase
    → ReadOnly kend (p ∷ rest) (entry f.vm f.pgdir va)
    → 1 < refs f.vm.kmem (p2v (pte_addr (entry f.vm f.pgdir va)))
    → refs f.vm.kmem (p2v (pte_addr (entry f.vm f.pgdir va))) < u32_mod
    → GetsCopy kend D p rest f va
unfolding write_fault copy_shared
handle_page_fault-copies kend D p rest f va w base x user r shared bound =
    let e : ℕ = entry f.vm f.pgdir va in
    let pa : ℕ = pte_addr e in
    let some : e ≢ 0 = λ z. ground (arith, r.present, z) in
    let h : HasTable f.vm f.pgdir (pdx va) = HasTable-of_entry f.vm f.pgdir va some in
    let at = sym (entry-HasTable f.vm f.pgdir va h) in
    let (u, run, chain, given) = kalloc-first p rest f.vm.kmem w.chain in
    let other : p2v pa ≢ p = NotIn-ne (p2v pa) p rest r.taken in
    let small : pa < u32_mod = omega (arith, r.word) in
    let page = w.free_pages.0 in
    let here : frame (v2p (p2v pa)) ≡ frame pa = omega (arith, small) in
    let many : 1 < f.vm.kmem.page_refs_num (frame pa) =
      subst (λ i. 1 < f.vm.kmem.page_refs_num i) here shared in
    let kmem : Kmem =
      moved kend p pa f.vm.kmem u base page r.frame small (omega arith) other given in
    let g : Faulting = record f {
      vm = record f.vm {
        kmem = kmem;
        word =
            update f.vm.word (table f.vm f.pgdir (pdx va) + 4 * ptx va)
              (or32 (or32 (or32 (v2p p) 1) 4) 2);
        byte = copy_page p (p2v pa) f.vm.byte;
      };
      number_of_page_faults = add32 f.number_of_page_faults 1;
    } in
    let v : ℕ = or32 (or32 (or32 (v2p p) 1) 4) 2 in
    let stored : Vm = store f.vm f.pgdir va v in
    (
      g,
      handle_page_fault-ReadOnly kend D (p ∷ rest) f va w x user r
          ∙ rw
              (
                at,
                get_ref_count-ok kend pa f.vm.kmem base small r.frame,
                lt→ltb 1 (f.vm.kmem.page_refs_num (frame pa)) many,
                run,
                ==_of_ne p 0 (omega (arith, page.word, page.below_top)),
                moves kend p pa f.vm.kmem u base page r.frame small (omega arith) other given,
              )
              refl,
      IsValid-taken kend D p rest f.vm g.vm w chain
          (store-SameRoots kend D (p ∷ rest) f.vm w f.pgdir va v x h),
      entry_of_words stored kmem (copy_page p (p2v pa) f.vm.byte) f.pgdir va
          ∙ (entry-store_self kend D (p ∷ rest) f.vm w f.pgdir va v x h
              ∙ entry_of_copy (v2p p) (omega (arith, page.aligned)) (omega arith)),
      λ d vb y hb n.
          entry_of_words stored kmem (copy_page p (p2v pa) f.vm.byte) d vb
          ∙ entry-store_ne kend D (p ∷ rest) f.vm w f.pgdir va v d vb x y (omega arith) hb h n,
      λ j hj.
          let inside : (p + j) / 4096 ≡ p / 4096 = omega (arith, page.aligned) in
          let place : (p + j) % 4096 ≡ j = omega (arith, page.aligned) in
          rw (inside, ==_self (p / 4096), place) refl,
      λ a n. ground (arith, n),
      refs_old kend p pa f.vm.kmem u base page r.frame small (omega arith) other given bound
          (omega arith),
      refs_new kend p pa f.vm.kmem u base page r.frame small (omega arith) other given,
      refs_other kend p pa f.vm.kmem u base page r.frame small (omega arith) other given,
      refl,
    )
