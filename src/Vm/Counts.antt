-- ===== src/Vm/Counts.antt =====
-- The three functions on reference counts, on the frame of a page.
use c_cpp_projects.Prelude.{ℕ, ◌<◌, ◌≤◌, ◌≡◌, refl, false, arith, u32_mod, update, add32, sub32, ok}
use c_cpp_projects.Kalloc.{
  Kmem, inc_ref_count, dec_ref_count, get_ref_count, bad_frame, frame, v2p, p2v, kernbase,
}
use c_cpp_projects.Kalloc.Chain.{IsPage}

bad_frame_of_page :
    (kend pa : ℕ)
    → kernbase ≤ kend
    → pa < u32_mod
    → IsPage kend (p2v pa)
    → bad_frame kend pa ≡ false
bad_frame_of_page kend pa base h p =
    let low : v2p kend ≤ pa = omega (arith, p.above_end, p.below_top, p.word) in
    let top : pa < 0xe00_0000 = omega (arith, p.below_top) in ground (arith, low, top)

-- The counts with that of the frame of `pa` set to `n`.
abbrev pub set_count : Kmem → ℕ → ℕ → Kmem
set_count k pa n = record k { page_refs_num = update k.page_refs_num (frame pa) n }

module _ (kend pa : ℕ) (k : Kmem) (base : kernbase ≤ kend) (h : pa < u32_mod)
    (p : IsPage kend (p2v pa)) where
  pub inc_ref_count-ok :
      inc_ref_count kend pa k ≡ ok (set_count k pa (add32 (k.page_refs_num (frame pa)) 1))
  unfolding inc_ref_count
  inc_ref_count-ok = rw (bad_frame_of_page kend pa base h p) refl

  pub dec_ref_count-ok :
      dec_ref_count kend pa k ≡ ok (set_count k pa (sub32 (k.page_refs_num (frame pa)) 1))
  unfolding dec_ref_count
  dec_ref_count-ok = rw (bad_frame_of_page kend pa base h p) refl

  pub get_ref_count-ok : get_ref_count kend pa k ≡ ok (k.page_refs_num (frame pa))
  unfolding get_ref_count
  get_ref_count-ok = rw (bad_frame_of_page kend pa base h p) refl
