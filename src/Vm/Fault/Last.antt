-- ===== src/Vm/Fault/Last.antt =====
-- The write to a page that is not shared any more, and the accesses that the handler refuses.
use c_cpp_projects.Prelude.{
  ℕ, ◌+◌, ◌*◌, ◌/◌, ◌<◌, ◌≤◌, ◌≡◌, ◌≢◌, refl, sym, subst, ◌∙◌, true, false, List, arith, u32_mod,
  add32, ok, ==_of_ne, lt→leb_false, le→leb, bit_on, ◌&&◌, Bool-cases, inl, inr, fault, panic,
}
use c_cpp_projects.Vm.{pdx, ptx, pte_p, pte_w, pte_u, pte_c, pte_addr}
use c_cpp_projects.Vm.Shape.{pde_at, table, HasTable, entry, IsValid}
use c_cpp_projects.Vm.Reading.{
  entry-HasTable, HasTable-of_entry, walkpgdir-found, walkpgdir-lost, place-ne,
}
use c_cpp_projects.Vm.Walk.{store, store-IsValid, entry-store_self, entry-store_ne}
use c_cpp_projects.Vm.Fault.{Faulting, handle_page_fault, write_fault}
use c_cpp_projects.Vm.Counts.{get_ref_count-ok}
use c_cpp_projects.Kalloc.{refs, frame, v2p, p2v, kernbase}
use c_cpp_projects.Vm.Fault.Private.{ReadOnly, handle_page_fault-ReadOnly}

-- The handler succeeds, and the process may write to its page at `va`.
abbrev pub GetsWrite : ℕ → (ℕ → Type 0) → List ℕ → Faulting → ℕ → Type 0
GetsWrite kend D free f va =
    (g : Faulting) × (handle_page_fault kend va f ≡ ok (true, g))
    × IsValid kend D free g.vm
    × (entry g.vm f.pgdir va ≡ bit_on (entry f.vm f.pgdir va) 1)
    × ((d vb : ℕ)
        → D d
        → vb < u32_mod
        → ¬ ((d ≡ f.pgdir) × (vb / 4096 ≡ va / 4096))
        → entry g.vm d vb ≡ entry f.vm d vb)
    × (g.vm.kmem ≡ f.vm.kmem)
    × (g.vm.byte ≡ f.vm.byte)
    × (g.killed ≡ f.killed)

-- A write to a read-only user page with PTE_C whose frame has one reference left: the handler
-- succeeds and sets PTE_W in the entry. No other entry changes, nor do the allocator and the bytes of
-- the pages; nothing is copied. The page tables stay valid, and the process is not killed.
pub handle_page_fault-last :
    (kend : ℕ) (D : ℕ → Type 0) (free : List ℕ) (f : Faulting) (va : ℕ)
    → IsValid kend D free f.vm
    → kernbase ≤ kend
    → D f.pgdir
    → va < kernbase
    → ReadOnly kend free (entry f.vm f.pgdir va)
    → pte_c (entry f.vm f.pgdir va) ≡ true
    → refs f.vm.kmem (p2v (pte_addr (entry f.vm f.pgdir va))) ≡ 1
    → GetsWrite kend D free f va
unfolding write_fault
handle_page_fault-last kend D free f va w base x user r cow single =
    let e : ℕ = entry f.vm f.pgdir va in
    let some : e ≢ 0 = λ z. ground (arith, r.present, z) in
    let h : HasTable f.vm f.pgdir (pdx va) = HasTable-of_entry f.vm f.pgdir va some in
    let at = sym (entry-HasTable f.vm f.pgdir va h) in
    let small : pte_addr e < u32_mod = omega (arith, r.word) in
    let here : frame (v2p (p2v (pte_addr e))) ≡ frame (pte_addr e) = omega (arith, small) in
    let one : f.vm.kmem.page_refs_num (frame (pte_addr e)) ≡ 1 =
      subst (λ i. f.vm.kmem.page_refs_num i ≡ 1) here single in
    let v : ℕ = bit_on e 1 in
    (
      record f {
        vm = store f.vm f.pgdir va v;
        number_of_page_faults = add32 f.number_of_page_faults 1;
      },
      handle_page_fault-ReadOnly kend D free f va w x user r
          ∙ rw (at, get_ref_count-ok kend (pte_addr e) f.vm.kmem base small r.frame, one, cow) refl,
      store-IsValid kend D free f.vm w f.pgdir va v x h,
      entry-store_self kend D free f.vm w f.pgdir va v x h,
      λ d vb y hb n. entry-store_ne kend D free f.vm w f.pgdir va v d vb x y (omega arith) hb h n,
      refl,
      refl,
      refl,
    )

-- The process afterwards where it is killed.
abbrev pub killed_by_fault : Faulting → Faulting
killed_by_fault f = record f {
  number_of_page_faults = add32 f.number_of_page_faults 1;
  killed = true;
}

-- What the handler does about an access that it has no page for.
abbrev pub Refuses : ℕ → Faulting → ℕ → Type 0
Refuses kend f va =
    (kernbase ≤ va → handle_page_fault kend va f ≡ ok (false, killed_by_fault f))
    × (va < kernbase
        → HasTable f.vm f.pgdir (pdx va)
        → (pte_p (entry f.vm f.pgdir va) && pte_u (entry f.vm f.pgdir va)) ≡ false
        → handle_page_fault kend va f ≡ ok (false, killed_by_fault f))
    × (va < kernbase → ¬ HasTable f.vm f.pgdir (pdx va) → handle_page_fault kend va f ≡ fault)
    × (va < kernbase
        → (pte_p (entry f.vm f.pgdir va) && pte_u (entry f.vm f.pgdir va)) ≡ true
        → pte_w (entry f.vm f.pgdir va) ≡ true
        → handle_page_fault kend va f ≡ panic "The page is already writeable\n")

-- An access that the handler refuses: at an address of the kernel, or to a page that has an entry but
-- is not both present and the user's, it returns -1 and kills the process, with the memory as it
-- was. Where the directory has no table for the address, the message that it prints reads the entry
-- through a null pointer. A write to a page that is writeable already is a panic.
pub handle_page_fault-Refuses :
    (kend : ℕ) (D : ℕ → Type 0) (free : List ℕ) (f : Faulting) (va : ℕ)
    → IsValid kend D free f.vm
    → D f.pgdir
    → Refuses kend f va
unfolding handle_page_fault
handle_page_fault-Refuses kend D free f va w x = (
  λ high. rw (le→leb kernbase va high) refl,
  λ low h q.
      rw
        (
          lt→leb_false kernbase va low,
          walkpgdir-found f.vm f.pgdir va h,
          ==_of_ne (table f.vm f.pgdir (pdx va) + 4 * ptx va) 0
              (place-ne kend D free f.vm f.pgdir va w x h),
          sym (entry-HasTable f.vm f.pgdir va h),
          q,
        )
        refl,
  λ low n. elim (Bool-cases (pte_p (pde_at f.vm f.pgdir (pdx va)))) [
    | inl h ↦ absurd (n h)
    | inr h ↦ rw (lt→leb_false kernbase va low, walkpgdir-lost f.vm f.pgdir va h) refl
  ],
  λ low q v.
      let some : entry f.vm f.pgdir va ≢ 0 = λ z. ground (arith, v, z) in
      let h : HasTable f.vm f.pgdir (pdx va) = HasTable-of_entry f.vm f.pgdir va some in
      rw
        (
          lt→leb_false kernbase va low,
          walkpgdir-found f.vm f.pgdir va h,
          ==_of_ne (table f.vm f.pgdir (pdx va) + 4 * ptx va) 0
              (place-ne kend D free f.vm f.pgdir va w x h),
          sym (entry-HasTable f.vm f.pgdir va h),
          q,
          v,
        )
        refl,
)
