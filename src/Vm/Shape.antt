-- ===== src/Vm/Shape.antt =====
-- The page tables in memory: which page a directory's entry leads to, what a walk would find, and the
-- invariant that the tables of all directories are pages of their own.
use c_cpp_projects.Prelude.{
  ℕ, ◌+◌, ◌*◌, ◌/◌, ◌<◌, ◌≡◌, ◌≢◌, refl, true, if◌then◌else◌, List, arith, u32_mod, All, NotIn,
}
use c_cpp_projects.Vm.{Vm, pdx, ptx, pte_p, pte_addr}
use c_cpp_projects.Kalloc.{Kmem, p2v}
use c_cpp_projects.Kalloc.Chain.{IsPage, FreeList}

-- The `i`-th entry of a directory, and the table that it leads to.
abbrev pub pde_at : Vm → ℕ → ℕ → ℕ
pde_at s d i = s.word (d + 4 * i)

abbrev pub table : Vm → ℕ → ℕ → ℕ
table s d i = p2v (pte_addr (pde_at s d i))

abbrev pub HasTable : Vm → ℕ → ℕ → Type 0
HasTable s d i = pte_p (pde_at s d i) ≡ true

-- The entry for a virtual address as the hardware's walk finds it: 0, an entry that is not present,
-- where the directory has no table.
unfoldable pub entry : Vm → ℕ → ℕ → ℕ
entry s d va = if pte_p (pde_at s d (pdx va)) then s.word (table s d (pdx va) + 4 * ptx va) else 0

-- `D` holds of the directories in use. They, their tables and the free pages are pages of the
-- kernel, all different.
pub record IsValid (kend : ℕ) (D : ℕ → Type 0) (free : List ℕ) (s : Vm) : Type 0 where
  pub chain : FreeList s.kmem.next s.kmem.freelist free
  pub free_pages : All (IsPage kend) free
  pub roots : (d : ℕ) → D d → IsPage kend d × NotIn d free
  pub tables :
      (d i : ℕ)
      → D d
      → i < 1024
      → HasTable s d i
      → IsPage kend (table s d i) × NotIn (table s d i) free
  pub not_roots : (d e i : ℕ) → D d → D e → i < 1024 → HasTable s d i → table s d i ≢ e
  pub distinct :
      (d e i j : ℕ)
      → D d
      → D e
      → i < 1024
      → j < 1024
      → HasTable s d i
      → HasTable s e j
      → table s d i ≡ table s e j
      → (d ≡ e) × (i ≡ j)

-- Virtual addresses of one page have the same indexes, and no others do.
pub page_of_indexes :
    (va vb : ℕ)
    → va < u32_mod
    → vb < u32_mod
    → pdx va ≡ pdx vb
    → ptx va ≡ ptx vb
    → va / 4096 ≡ vb / 4096
page_of_indexes va vb h k e f = omega arith

-- Two words in different pages are different words.
pub address_injective :
    (kend p q i j : ℕ)
    → IsPage kend p
    → IsPage kend q
    → i < 1024
    → j < 1024
    → p + 4 * i ≡ q + 4 * j
    → (p ≡ q) × (i ≡ j)
address_injective kend p q i j hp hq hi hj e =
    (omega (arith, hp.aligned, hq.aligned), omega (arith, hp.aligned, hq.aligned))

-- Entries are words; the allocator and the bytes of user pages have no part in them.
pub entry_of_words :
    (s : Vm) (k : Kmem) (b : ℕ → ℕ) (d va : ℕ)
    → entry (record s { kmem = k; byte = b }) d va ≡ entry s d va
unfolding entry
entry_of_words s k b d va = refl
