-- ===== src/Kalloc/Free.antt =====
-- `kfree` of kalloc.c against the list of free pages.
use c_cpp_projects.Prelude.{
  ℕ, ◌-◌, ◌<◌, ◌≡◌, ◌≢◌, refl, Bool, List, ◌∷◌, arith, u32_mod, update, update_self, ap, NotIn,
  ◌==◌, if◌then◌else◌, ok, add32, sub32, ℕ_discrete, update_ne, panic, ◌↔◌, ◌∙◌, Bool-cases, inl,
  inr,
}
use c_cpp_projects.Kalloc.{Kmem, kfree, bad_page, refs, v2p, frame}
use c_cpp_projects.Kalloc.Chain.{
  IsPage, IsValid, FreeList-update, NotIn-of_refs, unreferenced-update,
}

pub bad_page-of-IsPage : (kend v : ℕ) → IsPage kend v → bad_page kend v ≡ Bool.false
bad_page-of-IsPage kend v p = ground arith

bad_page-of-not-IsPage : (kend v : ℕ) → v < u32_mod → ¬ IsPage kend v → bad_page kend v ≡ Bool.true
bad_page-of-not-IsPage kend v word out = elim (Bool-cases (bad_page kend v)) [
  | inl e ↦ e
  | inr e ↦ absurd (
      out (record {
        word = word;
        aligned = ground arith;
        above_end = ground arith;
        below_top = ground arith;
      }))
]

-- The free pages after `kfree v`: the page joins the list only if nothing refers to it.
pub freed : Kmem → ℕ → List ℕ → List ℕ
freed s v free = if refs s v == 0 then v ∷ free else free

-- No reference count has changed.
abbrev pub SameRefs : Kmem → Kmem → Type 0
SameRefs s t = (i : ℕ) → t.page_refs_num i ≡ s.page_refs_num i

pub kfree-released :
    (kend v : ℕ) (s : Kmem) (free : List ℕ)
    → IsValid kend s free
    → IsPage kend v
    → NotIn v free
    → refs s v ≡ 0
    → (t : Kmem) × (kfree kend v s ≡ ok t) × IsValid kend t (v ∷ free) × SameRefs s t
unfolding kfree
kfree-released kend v s free w p out zero_refs = (
  record s {
    amount_of_free_pages = add32 s.amount_of_free_pages 1;
    next = update s.next v s.freelist;
    freelist = v;
  },
  rw (bad_page-of-IsPage kend v p, zero_refs) refl,
  record {
    chain = (
      refl,
      omega arith,
      out,
      rw (update_self s.next v s.freelist)
          (FreeList-update s.next v s.freelist s.freelist free out w.chain),
    );
    counted = omega (arith, w.counted);
    unreferenced = (zero_refs, w.unreferenced);
    pages = (p, w.pages);
  },
  λ i. refl,
)

pub kfree-dropped :
    (kend v : ℕ) (s : Kmem) (free : List ℕ)
    → IsValid kend s free
    → IsPage kend v
    → refs s v ≢ 0
    → refs s v < u32_mod
    → (t : Kmem) × (kfree kend v s ≡ ok t)
      × IsValid kend t free
      × (t.page_refs_num ≡ update s.page_refs_num (frame (v2p v)) (refs s v - 1))
unfolding kfree
kfree-dropped kend v s free w p held word = (
  record s { page_refs_num = update s.page_refs_num (frame (v2p v)) (sub32 (refs s v) 1) },
  rw (bad_page-of-IsPage kend v p) (ground arith),
  record {
    chain = w.chain;
    counted = w.counted;
    unreferenced =
        unreferenced-update kend v (sub32 (refs s v) 1) s.page_refs_num free p w.pages
          (NotIn-of_refs v s.page_refs_num free held w.unreferenced) w.unreferenced;
    pages = w.pages;
  },
  ap (update s.page_refs_num (frame (v2p v))) (omega arith),
)

freed-zero : (s : Kmem) (v : ℕ) (free : List ℕ) → refs s v ≡ 0 → freed s v free ≡ v ∷ free
unfolding freed
freed-zero s v free e = ground arith

freed-pos : (s : Kmem) (v : ℕ) (free : List ℕ) → refs s v ≢ 0 → freed s v free ≡ free
unfolding freed
freed-pos s v free e = ground arith

-- For a page that is not free already and whose count is a machine word, `kfree` does not panic. It
-- puts the page on the free list, and counts it, just when its reference count is 0; otherwise it
-- lowers the count by one, and the free list stays. No other count changes, and the allocator stays
-- valid.
pub kfree_lem :
    (kend v : ℕ) (s : Kmem) (free : List ℕ)
    → IsValid kend s free
    → IsPage kend v
    → NotIn v free
    → refs s v < u32_mod
    → (t : Kmem) × (kfree kend v s ≡ ok t)
      × IsValid kend t (freed s v free)
      × (refs t v ≡ refs s v - 1)
      × ((i : ℕ) → i ≢ frame (v2p v) → t.page_refs_num i ≡ s.page_refs_num i)
kfree_lem kend v s free w p out word = elim (ℕ_discrete (refs s v) 0) [
  | yes e ↦
      let (t, run, u, same) = kfree-released kend v s free w p out e in
      (t, run, rw (freed-zero s v free e) u, omega (arith, same (frame (v2p v)), e), λ i _. same i)
  | no held ↦
      let (t, run, u, changed) = kfree-dropped kend v s free w p held word in
      (
        t,
        run,
        rw (freed-pos s v free held) u,
        ap (λ (g : ℕ → ℕ). g (frame (v2p v))) changed
            ∙ (update_self s.page_refs_num (frame (v2p v)) (refs s v - 1)),
        λ i ne.
            ap (λ (g : ℕ → ℕ). g i) changed
            ∙ (update_ne s.page_refs_num (frame (v2p v)) i (refs s v - 1) ne),
      )
]

-- `kfree` panics on exactly the addresses that are no page: not aligned, below the end of the
-- kernel, or past the top of physical memory.
pub kfree-panic :
    (kend v : ℕ) (s : Kmem) → v < u32_mod → (kfree kend v s ≡ panic "kfree") ↔ (¬ IsPage kend v)
unfolding kfree
kfree-panic kend v s word = (
  λ e p. ground (arith, bad_page-of-IsPage kend v p),
  λ out. rw (bad_page-of-not-IsPage kend v word out) refl,
)
