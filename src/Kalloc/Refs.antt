-- ===== src/Kalloc/Refs.antt =====
-- The reference counts of kalloc.c, which copy-on-write moves by hand.
use c_cpp_projects.Prelude.{
  ℕ, ◌+◌, ◌-◌, ◌≤◌, ◌<◌, ◌≡◌, ◌≢◌, refl, arith, ok, u32_mod, update_self, update, add32, sub32,
}
use c_cpp_projects.Kalloc.{
  Kmem, frame, v2p, phystop, inc_ref_count, dec_ref_count, get_ref_count, kfree, refs,
}
use c_cpp_projects.Kalloc.Chain.{IsPage}
use c_cpp_projects.Kalloc.Free.{bad_page-of-IsPage}

-- The frames that the three functions take.
pub record IsFrame (kend pa : ℕ) : Type 0 where
  pub above : v2p kend ≤ pa
  pub below : pa < phystop

-- On a frame of physical memory whose count is below the last machine word, `inc_ref_count` makes
-- `get_ref_count` answer one more and leaves every other count alone, and `dec_ref_count` then
-- brings all counts back.
pub dec-inc :
    (kend pa n : ℕ) (s : Kmem)
    → IsFrame kend pa
    → get_ref_count kend pa s ≡ ok n
    → n + 1 < u32_mod
    → (t : Kmem) × (u : Kmem) × (inc_ref_count kend pa s ≡ ok t)
      × (get_ref_count kend pa t ≡ ok (n + 1))
      × ((i : ℕ) → i ≢ frame pa → t.page_refs_num i ≡ s.page_refs_num i)
      × (dec_ref_count kend pa t ≡ ok u)
      × ((i : ℕ) → u.page_refs_num i ≡ s.page_refs_num i)
unfolding inc_ref_count dec_ref_count get_ref_count
dec-inc kend pa n s p g h = (
  up,
  record up {
    page_refs_num = update up.page_refs_num (frame pa) (sub32 (up.page_refs_num (frame pa)) 1);
  },
  ground arith,
  ground arith,
  ground arith,
  ground arith,
  λ i. ground arith,
)
  where
    up : Kmem
    up = record s {
      page_refs_num = update s.page_refs_num (frame pa) (add32 (s.page_refs_num (frame pa)) 1);
    }

-- `dec_ref_count` has no guard against a count of 0: the count wraps to the largest word, so that a
-- following `kfree` of the page lowers it and does not free the page.
pub dec_ref_count-wraps :
    (kend v : ℕ) (s : Kmem)
    → IsPage kend v
    → IsFrame kend (v2p v)
    → refs s v ≡ 0
    → (t : Kmem) × (u : Kmem) × (dec_ref_count kend (v2p v) s ≡ ok t)
      × (refs t v ≡ u32_mod - 1)
      × (kfree kend v t ≡ ok u)
      × (u.freelist ≡ s.freelist)
      × (refs u v ≡ u32_mod - 2)
unfolding dec_ref_count kfree
dec_ref_count-wraps kend v s p f e = (
  down,
  record down { page_refs_num = update down.page_refs_num (frame (v2p v)) (u32_mod - 2) },
  ground arith,
  ground arith,
  rw (bad_page-of-IsPage kend v p, update_self s.page_refs_num (frame (v2p v)) (u32_mod - 1)) refl,
  refl,
  ground arith,
)
  where
    down : Kmem
    down = record s { page_refs_num = update s.page_refs_num (frame (v2p v)) (u32_mod - 1) }
