-- ===== src/Kalloc/Alloc.antt =====
-- `kalloc` of kalloc.c, and what `kfree` makes of the page that it hands out.
use c_cpp_projects.Prelude.{
  ℕ, ◌-◌, ◌≡◌, refl, List, [], ◌∷◌, arith, ok, update_self, ap, ◌∙◌, update, NotIn, sub32,
}
use c_cpp_projects.Kalloc.{Kmem, kalloc, kfree, refs, v2p, frame}
use c_cpp_projects.Kalloc.Chain.{IsPage, IsValid, unreferenced-update}
use c_cpp_projects.Kalloc.Free.{kfree-dropped, kfree-released}

-- What `kalloc` gives: nothing from an empty list, and otherwise the first page, with one
-- reference.
abbrev pub Allocated : ℕ → Kmem → List ℕ → ℕ × Kmem → Type 0
Allocated kend s [] r = r ≡ (0, s)
Allocated kend s (v ∷ rest) (p, t) =
    (p ≡ v)
    × IsPage kend v
    × NotIn v rest
    × IsValid kend t rest
    × (t.page_refs_num ≡ update s.page_refs_num (frame (v2p v)) 1)

kalloc-cons :
    (kend v : ℕ) (s : Kmem) (rest : List ℕ)
    → IsValid kend s (v ∷ rest)
    → kalloc s ≡ (
      v,
      record s {
        freelist = s.next v;
        amount_of_free_pages = sub32 s.amount_of_free_pages 1;
        page_refs_num = update s.page_refs_num (frame (v2p v)) 1;
      },
    )
unfolding kalloc
kalloc-cons kend v s rest w = ground (arith, w.chain.0, w.chain.1)

-- On a valid allocator `kalloc` returns null and changes nothing if no page is free. Otherwise it
-- takes the first page from the free list and gives it one reference, changes no other count, and
-- leaves the allocator valid with the rest of the list.
pub kalloc_lem :
    (kend : ℕ) (s : Kmem) (free : List ℕ) → IsValid kend s free → Allocated kend s free (kalloc s)
unfolding kalloc
kalloc_lem kend s [] w = rw (w.chain) refl
kalloc_lem kend s (v ∷ rest) w = rw (kalloc-cons kend v s rest w) (
  refl,
  w.pages.0,
  w.chain.2,
  record {
    chain = w.chain.3;
    counted = omega (arith, w.counted);
    unreferenced =
        unreferenced-update kend v 1 s.page_refs_num rest w.pages.0 w.pages.1 w.chain.2
          w.unreferenced.1;
    pages = w.pages.1;
  },
  refl,
)

-- A page that `kalloc` has handed out and that is then given to `kfree` once does not come back to
-- the free list: its count falls from 1 to 0, and the list and the number of free pages stay as
-- `kalloc` left them. Only a second `kfree` of the same page frees it.
pub kfree-kalloc_leaks :
    (kend v : ℕ) (s : Kmem) (rest : List ℕ)
    → IsValid kend s (v ∷ rest)
    → (t : Kmem) × (u : Kmem) × (kfree kend v (kalloc s).1 ≡ ok t)
      × IsValid kend t rest
      × (refs t v ≡ 0)
      × (kfree kend v t ≡ ok u)
      × IsValid kend u (v ∷ rest)
kfree-kalloc_leaks kend v s rest w =
    let (_, p, out, a, counts) = kalloc_lem kend s (v ∷ rest) w in
    let one : refs (kalloc s).1 v ≡ 1 =
      ap (λ (g : ℕ → ℕ). g (frame (v2p v))) counts
      ∙ update_self s.page_refs_num (frame (v2p v)) 1 in
    let (t, run, b, changed) =
      kfree-dropped kend v (kalloc s).1 rest a p (omega arith) (omega arith) in
    let gone : refs t v ≡ 0 =
      ap (λ (g : ℕ → ℕ). g (frame (v2p v))) changed
      ∙ (update_self (kalloc s).1.page_refs_num (frame (v2p v)) (refs (kalloc s).1 v - 1)
          ∙ omega arith) in
    let (u, run', c, _) = kfree-released kend v t rest b p out gone in (t, u, run, b, gone, run', c)
