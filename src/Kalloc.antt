-- ===== src/Kalloc.antt =====
-- The physical page allocator, c/os-master/kalloc.c, with its reference counts.
-- An address is a number below 2 ^ 32. `kmem.lock` is held over each body, so that a call is one
-- step; `kend` is the address that the linker gives the symbol `end`.
pub mod Chain
pub mod Free
pub mod Alloc
pub mod Range
pub mod Start
pub mod Refs
mod Tests
use c_cpp_projects.Prelude.{
  ℕ, zero, suc, ◌+◌, ◌-◌, ◌*◌, ◌/◌, ◌%◌, Bool, true, false, ◌||◌, not, ◌==◌, ltb, leb,
  if◌then◌else◌, Outcome, ok, panic, out_of_fuel, ◌>>=◌, add32, sub32, update,
}

abbrev pub kernbase : ℕ
kernbase = 0x8000_0000

abbrev pub phystop : ℕ
phystop = 0xe00_0000

abbrev pub pgsize : ℕ
pgsize = 4096

-- `V2P` and `P2V`
abbrev pub v2p : ℕ → ℕ
v2p a = sub32 a kernbase

abbrev pub p2v : ℕ → ℕ
p2v a = add32 a kernbase

-- `pa >> PGSHIFT`
abbrev pub frame : ℕ → ℕ
frame pa = pa / 4096

-- `PGROUNDUP` and `PGROUNDDOWN` of a `uint`
abbrev pub pground_up : ℕ → ℕ
pground_up a = add32 a 4095 / 4096 * 4096

abbrev pub pground_down : ℕ → ℕ
pground_down a = a / 4096 * 4096

-- `next r` is the first word of the page at `r`, where `struct run` keeps its link.
pub record Kmem : Type 0 where
  pub use_lock : Bool
  pub freelist : ℕ
  pub next : ℕ → ℕ
  pub amount_of_free_pages : ℕ
  pub page_refs_num : ℕ → ℕ

-- The guard of `kfree`, true where it panics.
abbrev pub bad_page : ℕ → ℕ → Bool
bad_page kend v = not (v % pgsize == 0) || ltb v kend || leb phystop (v2p v)

abbrev pub refs : Kmem → ℕ → ℕ
refs s v = s.page_refs_num (frame (v2p v))

pub kfree : ℕ → ℕ → Kmem → Outcome Kmem
kfree kend v s =
    if bad_page kend v
    then panic "kfree"
    else if refs s v == 0
    then ok (record s {
      amount_of_free_pages = add32 s.amount_of_free_pages 1;
      next = update s.next v s.freelist;
      freelist = v;
    })
    else ok
        (record s { page_refs_num = update s.page_refs_num (frame (v2p v)) (sub32 (refs s v) 1) })

-- The page is `0` where the list is empty.
unfoldable pub kalloc : Kmem → ℕ × Kmem
kalloc s = if s.freelist == 0 then (0, s) else (
  s.freelist,
  record s {
    freelist = s.next s.freelist;
    amount_of_free_pages = sub32 s.amount_of_free_pages 1;
    page_refs_num = update s.page_refs_num (frame (v2p s.freelist)) 1;
  },
)

-- The loop of `freerange` from `p`, on fuel.
pub freerange_loop : ℕ → ℕ → ℕ → ℕ → Kmem → Outcome Kmem
freerange_loop kend zero p vend s = out_of_fuel
freerange_loop kend (suc fuel) p vend s =
    if leb (p + pgsize) vend
    then (kfree kend p s >>= λ t.
        freerange_loop kend fuel (p + pgsize) vend
          (record t { page_refs_num = update t.page_refs_num (frame (v2p p)) 0 }))
    else ok s

-- A round moves `p` by a page, so `vend / pgsize + 1` rounds are enough.
pub freerange : ℕ → ℕ → ℕ → Kmem → Outcome Kmem
unfolding freerange_loop
freerange kend vstart vend s = freerange_loop kend (vend / pgsize + 1) (pground_up vstart) vend s

pub kinit1 : ℕ → ℕ → ℕ → Kmem → Outcome Kmem
kinit1 kend vstart vend s =
    freerange kend vstart vend (record s { use_lock = false; amount_of_free_pages = 0 })

pub kinit2 : ℕ → ℕ → ℕ → Kmem → Outcome Kmem
kinit2 kend vstart vend s = freerange kend vstart vend s >>= λ t. ok (record t { use_lock = true })

-- `n` pages taken, and what the kernel then has in the first word of each.
pub take_pages : (ℕ → ℕ) → ℕ → Kmem → Kmem
take_pages word zero s = s
take_pages word (suc n) s =
    let (p, t) = kalloc s in take_pages word n (record t { next = update t.next p (word p) })

-- The first calls of `main`: `kinit1` up to 4 MB, and `kvmalloc`, which takes `n` pages.
pub boot_first : ℕ → (ℕ → ℕ) → ℕ → Kmem → Outcome Kmem
unfolding kinit1
boot_first kend word n s = kinit1 kend kend (p2v 0x40_0000) s >>= λ t. ok (take_pages word n t)

-- `startothers`, which takes `m` pages, and `kinit2` for the rest of the memory. The calls of `main` in
-- between leave the allocator alone.
pub boot : ℕ → (ℕ → ℕ) → ℕ → ℕ → Kmem → Outcome Kmem
unfolding kinit2 boot_first
boot kend word n m s = boot_first kend word n s >>= λ t.
    kinit2 kend (p2v 0x40_0000) (p2v phystop) (take_pages word m t)

-- The guard of the three functions on a physical address.
abbrev pub bad_frame : ℕ → ℕ → Bool
bad_frame kend pa = ltb pa (v2p kend) || leb phystop pa

unfoldable pub dec_ref_count : ℕ → ℕ → Kmem → Outcome Kmem
dec_ref_count kend pa s =
    if bad_frame kend pa
    then panic "dec_ref_count"
    else ok (record s {
      page_refs_num = update s.page_refs_num (frame pa) (sub32 (s.page_refs_num (frame pa)) 1);
    })

unfoldable pub inc_ref_count : ℕ → ℕ → Kmem → Outcome Kmem
inc_ref_count kend pa s =
    if bad_frame kend pa
    then panic "inc_ref_count"
    else ok (record s {
      page_refs_num = update s.page_refs_num (frame pa) (add32 (s.page_refs_num (frame pa)) 1);
    })

unfoldable pub get_ref_count : ℕ → ℕ → Kmem → Outcome ℕ
get_ref_count kend pa s =
    if bad_frame kend pa then panic "get_ref_count" else ok (s.page_refs_num (frame pa))

pub number_of_free_pages : Kmem → ℕ
number_of_free_pages s = s.amount_of_free_pages
