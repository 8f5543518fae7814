-- ===== src/Vm/Fault/Moved.antt =====
-- The reference counts after the copy of a page that is shared.
use c_cpp_projects.Prelude.{
  ℕ, ◌-◌, ◌%◌, ◌<◌, ◌≤◌, ◌≡◌, ◌≢◌, refl, sym, ap, ◌∙◌, arith, u32_mod, update, update_self,
  update_ne, add32, sub32, ok, ◌>>=◌,
}
use c_cpp_projects.Vm.Grow.{refs-first}
use c_cpp_projects.Vm.Counts.{set_count, inc_ref_count-ok, dec_ref_count-ok}
use c_cpp_projects.Kalloc.{Kmem, refs, frame, v2p, p2v, kernbase, dec_ref_count, inc_ref_count}
use c_cpp_projects.Kalloc.Chain.{IsPage}

-- The counts after the copy of the page at the frame `pa` to the page `p`.
module _ (kend p pa : ℕ) (k u : Kmem) (base : kernbase ≤ kend) (hp : IsPage kend p)
    (hf : IsPage kend (p2v pa)) (h : pa < u32_mod) (al : pa % 4096 ≡ 0) (other : p2v pa ≢ p)
    (given : u.page_refs_num ≡ update k.page_refs_num (frame (v2p p)) 1) where
  abbrev pub dropped : Kmem
  dropped = set_count u pa (sub32 (u.page_refs_num (frame pa)) 1)

  abbrev pub moved : Kmem
  moved = set_count dropped (p2v p) (add32 (dropped.page_refs_num (frame (p2v p))) 1)

  apart : frame (p2v p) ≢ frame pa
  apart e = other (omega (arith, hp.aligned, hp.word, hp.below_top, hf.below_top, h, al, e))

  same_place : frame (v2p p) ≡ frame (p2v p)
  same_place = omega (arith, hp.word, hp.below_top)

  pub moves : (dec_ref_count kend pa u >>= inc_ref_count kend (p2v p)) ≡ ok moved
  moves =
      let back : p2v (p2v p) ≡ p = omega (arith, hp.word) in
      rw
        (
          dec_ref_count-ok kend pa u base h hf,
          inc_ref_count-ok kend (p2v p) dropped base (omega arith) (rw (back) hp),
        )
        refl

  pub refs_old :
      refs k (p2v pa) < u32_mod → 0 < refs k (p2v pa) → refs moved (p2v pa) ≡ refs k (p2v pa) - 1
  refs_old bound some =
      let here : frame (v2p (p2v pa)) ≡ frame pa = omega (arith, h) in
      let old : u.page_refs_num (frame pa) ≡ refs k (p2v pa) =
        ap u.page_refs_num (sym here) ∙ refs-first kend p (p2v pa) k u hp hf other given in
      ap moved.page_refs_num here
      ∙ (update_ne dropped.page_refs_num (frame (p2v p)) (frame pa)
            (add32 (dropped.page_refs_num (frame (p2v p))) 1) (λ e. apart (sym e))
          ∙ (update_self u.page_refs_num (frame pa) (sub32 (u.page_refs_num (frame pa)) 1)
              ∙ omega (arith, old)))

  pub refs_new : refs moved p ≡ 2
  refs_new =
      let one : dropped.page_refs_num (frame (p2v p)) ≡ 1 =
        update_ne u.page_refs_num (frame pa) (frame (p2v p)) (sub32 (u.page_refs_num (frame pa)) 1)
          apart
        ∙ (ap (λ (g : ℕ → ℕ). g (frame (p2v p))) given
            ∙ (ap (update k.page_refs_num (frame (v2p p)) 1) (sym same_place)
                ∙ update_self k.page_refs_num (frame (v2p p)) 1)) in
      ap moved.page_refs_num same_place
      ∙ (update_self dropped.page_refs_num (frame (p2v p))
            (add32 (dropped.page_refs_num (frame (p2v p))) 1)
          ∙ omega (arith, one))

  pub refs_other : (v : ℕ) → IsPage kend v → v ≢ p → v ≢ p2v pa → refs moved v ≡ refs k v
  refs_other v hv n m =
      update_ne dropped.page_refs_num (frame (p2v p)) (frame (v2p v))
        (add32 (dropped.page_refs_num (frame (p2v p))) 1)
        (λ e.
          n (
            omega (arith, hv.word, hv.aligned, hv.below_top, hp.word, hp.aligned, hp.below_top, e)))
      ∙ (update_ne u.page_refs_num (frame pa) (frame (v2p v)) (sub32 (u.page_refs_num (frame pa)) 1)
            (λ e. m (omega (arith, hv.word, hv.aligned, hv.below_top, h, al, e)))
          ∙ refs-first kend p v k u hp hv n given)
