-- ===== src/Vm/Tests.antt =====
-- Page tables at a concrete machine: a parent with one table and one page, a child without any, and
-- two free pages.
use c_cpp_projects.Prelude.{
  ℕ, ◌+◌, ◌%◌, ◌<◌, ◌≤◌, ◌≡◌, ◌≢◌, ◌⊎◌, inl, inr, refl, sym, ◌∙◌, arith, true, false, List, [], ◌∷◌,
  ok, panic, fault, update, bit_off, NotIn,
}
use c_cpp_projects.Kalloc.{kalloc, refs, v2p, p2v, frame}
use c_cpp_projects.Kalloc.Chain.{IsPage}
use c_cpp_projects.Vm.{Vm, pdx, ptx, pte_addr, walkpgdir, mappages, uva2ka, clearpteu}
use c_cpp_projects.Vm.Uvm.{deallocuvm, allocuvm, inituvm, loaduvm, copyout, freevm}
use c_cpp_projects.Vm.Uvm.Bytes.{Reachable, Apart, Written}
use c_cpp_projects.Vm.Uvm.Copyout.{copyout_lem}
use c_cpp_projects.Vm.Kernel.{setupkvm}
use c_cpp_projects.Vm.Mappages.{MapResult, mappages_lem}
use c_cpp_projects.Vm.Cow.{copy_loop, copyuvm}
use c_cpp_projects.Vm.Cow.Share.{CanShare}
use c_cpp_projects.Vm.Cow.Step.{Copied}
use c_cpp_projects.Vm.Cow.Loop.{copy_loop_lem}
use c_cpp_projects.Vm.Fault.{Faulting}
use c_cpp_projects.Vm.Fault.Private.{ReadOnly, GetsCopy, handle_page_fault-copies}
use c_cpp_projects.Vm.Fault.Last.{handle_page_fault-last, GetsWrite}
use c_cpp_projects.Vm.Shape.{HasTable, IsValid, entry}

abbrev kernel_end : ℕ
kernel_end = 0x8010_0000

abbrev parent : ℕ
parent = 0x8020_0000

abbrev child : ℕ
child = 0x8020_1000

abbrev parent_table : ℕ
parent_table = 0x8020_2000

abbrev user_page : ℕ
user_page = 0x8020_3000

abbrev spare : ℕ
spare = 0x8020_4000

abbrev last_spare : ℕ
last_spare = 0x8020_5000

abbrev free_pages : List ℕ
free_pages = spare ∷ last_spare ∷ []

-- `count` is the number of references to the user's page, and `flags` the flags of its entry.
abbrev machine : ℕ → ℕ → Vm
machine count flags = record {
  kmem = record {
    use_lock = true;
    freelist = spare;
    next = update (λ _. 0) spare last_spare;
    amount_of_free_pages = 2;
    page_refs_num = update (λ _. 0) (frame (v2p user_page)) count;
  };
  word =
      update (update (λ _. 0) parent (v2p parent_table + 7)) parent_table (v2p user_page + flags);
  byte = λ a. a % 256;
}

abbrev InUse : ℕ → Type 0
InUse d = (d ≡ parent) ⊎ (d ≡ child)

only_table :
    (count flags d i : ℕ)
    → InUse d
    → i < 1024
    → HasTable (machine count flags) d i
    → (d ≡ parent) × (i ≡ 0)
only_table count flags d i (inl x) hi h = ground (arith, x, h)
only_table count flags d i (inr x) hi h = ground (arith, x, h)

-- The pages of the machine lie between the end of the kernel and the top of memory.
page-IsPage : (v : ℕ) → v % 4096 ≡ 0 → parent ≤ v → v ≤ last_spare → IsPage kernel_end v
page-IsPage v a lo up = record {
  word = omega arith;
  aligned = a;
  above_end = omega arith;
  below_top = omega arith;
}

abbrev pages_free : IsPage kernel_end spare × IsPage kernel_end last_spare
pages_free = (
  page-IsPage spare (omega arith) (omega arith) (omega arith),
  page-IsPage last_spare (omega arith) (omega arith) (omega arith),
)

root-IsPage : (d : ℕ) → InUse d → IsPage kernel_end d × NotIn d free_pages
root-IsPage d (inl x) =
    (page-IsPage d (omega arith) (omega arith) (omega arith), (omega arith, (omega arith, tt)))
root-IsPage d (inr x) =
    (page-IsPage d (omega arith) (omega arith) (omega arith), (omega arith, (omega arith, tt)))

root_ne : (e : ℕ) → InUse e → parent_table ≢ e
root_ne e (inl x) = omega arith
root_ne e (inr x) = omega arith

machine-IsValid : (count flags : ℕ) → IsValid kernel_end InUse free_pages (machine count flags)
machine-IsValid count flags = record {
  chain = (refl, omega arith, (omega arith, tt), (refl, omega arith, tt, refl));
  free_pages = (pages_free.0, (pages_free.1, tt));
  roots = root-IsPage;
  tables = λ d i x hi h.
      let (a, b) = only_table count flags d i x hi h in
      rw (a, b)
        (
          page-IsPage parent_table (omega arith) (omega arith) (omega arith),
          (omega arith, (omega arith, tt)),
        );
  not_roots =
      λ d e i x y hi h. let (a, b) = only_table count flags d i x hi h in rw (a, b) (root_ne e y);
  distinct = λ d e i j x y hi hj h k q.
      let (a, b) = only_table count flags d i x hi h in
      let (a', b') = only_table count flags e j y hj k in (a ∙ sym a', b ∙ sym b');
}

machine-parent :
    (count flags vb : ℕ) → vb < 4096 → entry (machine count flags) parent vb ≡ v2p user_page + flags
unfolding entry
machine-parent count flags vb h =
    let i : pdx vb ≡ 0 = omega arith in let j : ptx vb ≡ 0 = omega arith in rw (i, j) refl

machine-child : (count flags vb : ℕ) → vb < 4096 → entry (machine count flags) child vb ≡ 0
unfolding entry
machine-child count flags vb h = let i : pdx vb ≡ 0 = omega arith in rw (i) refl

-- PTE_P, PTE_W and PTE_U
abbrev plain : Vm
plain = machine 1 7

plain-CanShare : (vb : ℕ) → vb < 4096 → CanShare kernel_end free_pages (entry plain parent vb)
plain-CanShare vb h = rw (machine-parent 1 7 vb h) (record {
  word = omega arith;
  known = inl refl;
  frame = λ p. (
    page-IsPage user_page (omega arith) (omega arith) (omega arith),
    (omega arith, (omega arith, tt)),
  );
})

mappages_lem_example :
    MapResult kernel_end InUse free_pages plain child 0 0
      (v2p user_page)
      6
      (mappages child 0 4096 (v2p user_page) 6 plain)
mappages_lem_example =
    mappages_lem kernel_end InUse 0 free_pages plain child 0 4096 (v2p user_page) 6
      (machine-IsValid 1 7) (inr refl) (omega arith) (omega arith) (omega arith) (omega arith)

copy_loop_lem_example :
    Copied kernel_end InUse free_pages plain parent child 0 1
      (copy_loop 3 kernel_end parent child 4096 0 plain)
copy_loop_lem_example =
    copy_loop_lem kernel_end InUse free_pages plain parent child 3 4096 1 0 (machine-IsValid 1 7)
      (omega arith) (inl refl) (inr refl) (omega arith) refl (omega arith) (omega arith)
      (omega arith) (λ vb lo up. plain-CanShare vb up)
      (λ vb lo up. rw (machine-child 1 7 vb up) refl)

-- The page after `copyuvm`: PTE_P, PTE_U and PTE_C.
abbrev shared : ℕ → Vm
shared count = machine count 0x405

abbrev faulting : ℕ → Faulting
faulting count = record {
  vm = shared count;
  pgdir = parent;
  killed = false;
  number_of_page_faults = 0;
}

shared-ReadOnly : (count : ℕ) → ReadOnly kernel_end free_pages (entry (shared count) parent 8)
shared-ReadOnly count = rw (machine-parent count 0x405 8 (omega arith)) (record {
  word = omega arith;
  present = refl;
  user = refl;
  read_only = refl;
  frame = page-IsPage user_page (omega arith) (omega arith) (omega arith);
  taken = (omega arith, (omega arith, tt));
})

shared-refs :
    (count : ℕ) → refs (shared count).kmem (p2v (pte_addr (entry (shared count) parent 8))) ≡ count
shared-refs count = rw (machine-parent count 0x405 8 (omega arith)) refl

handle_page_fault-copies_example : GetsCopy kernel_end InUse spare (last_spare ∷ []) (faulting 3) 8
handle_page_fault-copies_example =
    handle_page_fault-copies kernel_end InUse spare (last_spare ∷ []) (faulting 3) 8
      (machine-IsValid 3 0x405) (omega arith) (inl refl) (omega arith) (shared-ReadOnly 3)
      (omega (arith, shared-refs 3)) (omega (arith, shared-refs 3))

handle_page_fault-last_example : GetsWrite kernel_end InUse free_pages (faulting 1) 8
handle_page_fault-last_example =
    handle_page_fault-last kernel_end InUse free_pages (faulting 1) 8 (machine-IsValid 1 0x405)
      (omega arith) (inl refl) (omega arith) (shared-ReadOnly 1)
      (rw (machine-parent 1 0x405 8 (omega arith)) refl) (shared-refs 1)

-- Four bytes go to the user's page, from address 8 on.
plain-Apart : Apart plain parent 8 last_spare 4
plain-Apart = record {
  frames = λ a b la ua lb ub e. omega arith;
  source = λ a k la ua hk. rw (machine-parent 1 7 a (omega arith)) (λ e. absurd (omega (arith, e)));
}

plain-Reachable : (a : ℕ) → a < 12 → Reachable kernel_end (entry plain parent a)
plain-Reachable a h = rw (machine-parent 1 7 a (omega arith)) (record {
  present = refl;
  user = refl;
  frame = page-IsPage user_page (omega arith) (omega arith) (omega arith);
})

copyout_lem_example :
    (t : Vm) × (copyout parent 8 last_spare 4 plain ≡ ok (true, t))
    × Written plain t parent 8 last_spare 4
    × (t.word ≡ plain.word)
    × (t.kmem ≡ plain.kmem)
copyout_lem_example =
    copyout_lem kernel_end InUse free_pages plain parent 8 last_spare 4 (machine-IsValid 1 7)
      (inl refl) (omega arith) (omega arith) (λ a la ua. plain-Reachable a ua) plain-Apart

-- Runs of the functions that no theorem is about.
uva2ka_run : uva2ka parent 8 plain ≡ ok user_page
unfolding uva2ka walkpgdir
uva2ka_run = refl

clearpteu_run :
    clearpteu parent 0 plain
    ≡ ok (record plain {
      word = update plain.word parent_table (bit_off (plain.word parent_table) 2);
    })
unfolding clearpteu walkpgdir
clearpteu_run = refl

deallocuvm_run : deallocuvm kernel_end parent 4096 4096 plain ≡ ok (4096, plain)
unfolding deallocuvm
deallocuvm_run = refl

allocuvm_run : allocuvm kernel_end parent 4096 0x8000_0000 plain ≡ ok (0, plain)
unfolding allocuvm
allocuvm_run = refl

inituvm_run : inituvm parent 0 4096 plain ≡ panic "inituvm: more than a page"
unfolding inituvm
inituvm_run = refl

loaduvm_run :
    loaduvm (λ _ _ n s. (n, s)) parent 8 0 4096 plain ≡ panic "loaduvm: addr must be page aligned"
unfolding loaduvm
loaduvm_run = refl

copyout_run : copyout parent 0x40_0000 user_page 1 plain ≡ fault
unfolding copyout walkpgdir uva2ka
copyout_run = refl

freevm_run : freevm kernel_end 0 plain ≡ panic "freevm: no pgdir"
unfolding freevm
freevm_run = refl

-- No page is free.
abbrev full : Vm
full = record plain { kmem = record plain.kmem { freelist = 0 } }

setupkvm_run : setupkvm kernel_end 0x8010_8000 full ≡ ok (0, full)
unfolding setupkvm kalloc
setupkvm_run = refl

copyuvm_run : copyuvm kernel_end 0x8010_8000 parent 4096 full ≡ ok (0, full)
unfolding copyuvm setupkvm kalloc
copyuvm_run = refl
