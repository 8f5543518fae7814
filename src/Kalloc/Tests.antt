-- ===== src/Kalloc/Tests.antt =====
-- The allocator at a concrete machine: the theorems at inputs that meet their conditions.
use c_cpp_projects.Prelude.{◌+◌, ◌-◌, drop, ℕ, ◌≡◌, ◌≢◌, refl, [], ◌∷◌, arith, ok, true, update}
use c_cpp_projects.Kalloc.{
  Kmem, kfree, kalloc, refs, frame, v2p, boot, number_of_free_pages, freerange,
}
use c_cpp_projects.Kalloc.Chain.{IsValid}
use c_cpp_projects.Kalloc.Free.{kfree_lem, freed}
use c_cpp_projects.Kalloc.Alloc.{kfree-kalloc_leaks}
use c_cpp_projects.Kalloc.Range.{pushed}
use c_cpp_projects.Kalloc.Start.{boot_lem}

abbrev kernel_end : ℕ
kernel_end = 0x8010_0000

abbrev page : ℕ
page = 0x8010_1000

abbrev other_page : ℕ
other_page = 0x8010_2000

abbrev no_pages : Kmem
no_pages = record {
  use_lock = true;
  freelist = 0;
  next = λ _. 0;
  amount_of_free_pages = 0;
  page_refs_num = λ _. 0;
}

-- One page is free.
abbrev one_page : Kmem
one_page = record no_pages { freelist = page; amount_of_free_pages = 1 }

-- Three processes share the other page.
abbrev shared : Kmem
shared = record one_page { page_refs_num = update (λ _. 0) (frame (v2p other_page)) 3 }

one_page-IsValid : IsValid kernel_end one_page (page ∷ [])
one_page-IsValid = record {
  chain = omega arith;
  counted = refl;
  unreferenced = (refl, tt);
  pages = (omega arith, tt);
}

shared-IsValid : IsValid kernel_end shared (page ∷ [])
shared-IsValid = record {
  chain = omega arith;
  counted = refl;
  unreferenced = (refl, tt);
  pages = (omega arith, tt);
}

-- `freerange` over three pages that start off a boundary.
freerange_three :
    (t : Kmem) × (freerange kernel_end 0x8010_0001 0x8010_3fff no_pages ≡ ok t)
    × (t.amount_of_free_pages ≡ 2)
    × (t.freelist ≡ 0x8010_2000)
unfolding freerange kfree
freerange_three = (_, refl, refl, refl)

kfree_lem_example :
    (t : Kmem) × (kfree kernel_end other_page shared ≡ ok t)
    × IsValid kernel_end t (freed shared other_page (page ∷ []))
    × (refs t other_page ≡ 2)
    × ((i : ℕ) → i ≢ frame (v2p other_page) → t.page_refs_num i ≡ shared.page_refs_num i)
kfree_lem_example =
    kfree_lem kernel_end other_page shared (page ∷ []) shared-IsValid (omega arith) (omega arith)
      (omega arith)

kfree-kalloc_leaks_example :
    (t : Kmem) × (u : Kmem) × (kfree kernel_end page (kalloc one_page).1 ≡ ok t)
    × IsValid kernel_end t []
    × (refs t page ≡ 0)
    × (kfree kernel_end page t ≡ ok u)
    × IsValid kernel_end u (page ∷ [])
kfree-kalloc_leaks_example = kfree-kalloc_leaks kernel_end page one_page [] one_page-IsValid

boot_lem_example :
    (t : Kmem) × (boot kernel_end (λ _. 1) 66 7 no_pages ≡ ok t)
    × IsValid kernel_end t
        (pushed 0x8040_0000 0xdc00 (drop 7 (drop 66 (pushed 0x8010_0000 0x300 []))))
    × (number_of_free_pages t ≡ 0xdc00 + (0x300 - 73))
boot_lem_example =
    boot_lem kernel_end 66 7 (λ _. 1) no_pages (omega arith) (omega arith) refl (λ _. refl)
      (omega arith)
