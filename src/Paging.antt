-- ===== src/Paging.antt =====
-- The paging state of a process and its queues: `struct page` and the last fields of `struct proc`
-- in c/os-master/proc.h, and the functions from `updateQueue` on in c/os-master/proc.c.
pub mod Access
pub mod Shift
pub mod Queue
pub mod Scfifo
pub mod Nfua
pub mod Lapa
pub mod Aging
pub mod Offsets
pub mod Release
mod Tests
use c_cpp_projects.Prelude.{
  ℕ, zero, suc, ◌+◌, ◌-◌, ◌*◌, ◌/◌, ◌^◌, Bool, true, false, ◌&&◌, not, List, [], ◌∷◌, ◌++◌, length,
  get_elem?, get_or, set, Option, none, some, ◌==◌, ltb, if◌then◌else◌, Outcome, ok, panic, fault,
  out_of_fuel, ◌>>=◌, String, add32, update, bit, bit_on, bit_off, ℤ, pos, negsuc, minus_one, eq_ℤ,
  ltb_ℤ, signed32,
}

-- MAX_PSYC_PAGES and MAX_TOTAL_PAGES of param.h
abbrev pub max_psyc_pages : ℕ
max_psyc_pages = 16

abbrev pub max_total_pages : ℕ
max_total_pages = 32

-- `struct page`; `is_in_ram` and `is_allocated` hold 0 or 1.
pub record Page : Type 0 where
  pub v_address : ℕ
  pub file_offset : ℤ
  pub is_in_ram : ℕ
  pub is_allocated : ℕ
  pub age : ℕ

-- `pages` has 32 entries, the two queues 16 each. `pte` is what `walkpgdir` finds for a page of the
-- address space, by the page's number: the entry, or nothing where it returns null.
pub record Proc : Type 0 where
  pub pages : List Page
  pub file_offset : ℕ
  pub ram_queue : List ℤ
  pub offset_queue : List ℤ
  pub pte : ℕ → Option ℕ

-- `curproc->pages[i]`: an index outside the array is a fault.
pub page_at : List Page → ℤ → Outcome Page
page_at pages (negsuc n) = fault
page_at pages (pos n) = elim (get_elem? pages n) [ none ↦ fault | some e ↦ ok e ]

-- `*pte` for the page at a virtual address, by `global_walkpgdir` without allocation.
pub load_pte : (ℕ → Option ℕ) → ℕ → Outcome ℕ
load_pte pte va = elim (pte (va / 4096)) [ none ↦ fault | some e ↦ ok e ]

abbrev pub store_pte : (ℕ → Option ℕ) → ℕ → ℕ → ℕ → Option ℕ
store_pte pte va e = update pte (va / 4096) (some e)

-- `*pte & PTE_A` and `PTE_A_OFF(*pte)`
abbrev pub accessed : ℕ → Bool
accessed e = bit e 5 == 1

abbrev pub pte_a_off : ℕ → ℕ
pte_a_off e = bit_off e 5

-- The array from `i` on moves one place down, in `n` rounds, and -1 fills the place `last`.
pub shift : ℕ → ℕ → ℕ → List ℤ → List ℤ
shift last zero i q = set q last minus_one
shift last (suc n) i q = shift last n (suc i) (set q i (get_or q (suc i) minus_one))

pub update_queue : ℕ → List ℤ → List ℤ
unfolding shift
update_queue index q = shift 15 (15 - index) index q

-- The search of `insert` and `insertOffsetQueue` for a place, over the array from `i` on. The test
-- for the end of the array stands in the body, behind the read: past the last element the read
-- faults.
pub put_from : String → ℕ → ℤ → List ℤ → Outcome (List ℤ)
put_from message i index [] = fault
put_from message i index (x ∷ q) =
    let rest = put_from message (i + 1) index q >>= λ r. ok (x ∷ r) in
    if eq_ℤ x minus_one then ok (index ∷ q) else if i == max_psyc_pages then panic message else rest

pub insert : ℤ → List ℤ → Outcome (List ℤ)
unfolding put_from
insert index q = put_from "insert" 0 index q

-- `removeAQ`
pub remove_aq : List ℤ → ℤ × List ℤ
remove_aq q = (get_or q 0 minus_one, update_queue 0 q)
