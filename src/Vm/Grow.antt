-- ===== src/Vm/Grow.antt =====
-- `walkpgdir` where it may allocate a table: no entry changes, and the invariant holds.
use c_cpp_projects.Prelude.{
  ℕ, ◌+◌, ◌*◌, ◌≡◌, ◌≢◌, refl, sym, ap, ◌∙◌, true, false, List, [], ◌∷◌, arith, update, ==_of_ne,
  update_ne, Bool-cases, inl, inr, sub32,
}
use c_cpp_projects.Vm.{Vm, pdx, ptx, pte_p, walkpgdir, add_table}
use c_cpp_projects.Vm.Shape.{pde_at, table, HasTable, IsValid}
use c_cpp_projects.Kalloc.{Kmem, kalloc, v2p, refs, frame}
use c_cpp_projects.Kalloc.Chain.{IsPage, FreeList, frame_injective}
use c_cpp_projects.Vm.Frame.{Grows-self, Walked, NotIn-ne}
use c_cpp_projects.Vm.Added.{added-IsValid}
use c_cpp_projects.Vm.Table.{
  with_table, HasTable-with_table, table-with_table, same-with_table, entries-with_table,
  bytes-with_table,
}

-- What `kalloc` gives on a chain of free pages.
pub kalloc-first :
    (p : ℕ) (rest : List ℕ) (k : Kmem)
    → FreeList k.next k.freelist (p ∷ rest)
    → (u : Kmem) × (kalloc k ≡ (p, u))
      × FreeList u.next u.freelist rest
      × (u.page_refs_num ≡ update k.page_refs_num (frame (v2p p)) 1)
unfolding kalloc
kalloc-first p rest k c = (
  record k {
    freelist = k.next k.freelist;
    amount_of_free_pages = sub32 k.amount_of_free_pages 1;
    page_refs_num = update k.page_refs_num (frame (v2p k.freelist)) 1;
  },
  ground (arith, c.0, c.1),
  rw (c.0) c.3,
  rw (c.0) refl,
)

pub kalloc-none : (k : Kmem) → k.freelist ≡ 0 → kalloc k ≡ (0, k)
unfolding kalloc
kalloc-none k e = rw (e) refl

-- A page that is not `p` keeps its count when `p` gets one.
pub refs-first :
    (kend p v : ℕ) (k u : Kmem)
    → IsPage kend p
    → IsPage kend v
    → v ≢ p
    → u.page_refs_num ≡ update k.page_refs_num (frame (v2p p)) 1
    → refs u v ≡ refs k v
refs-first kend p v k u hp hv n e =
    ap (λ (f : ℕ → ℕ). f (frame (v2p v))) e
    ∙ update_ne k.page_refs_num (frame (v2p p)) (frame (v2p v)) 1
        (λ h. n (frame_injective kend v p hv hp h))

walkpgdir-there :
    (s : Vm) (d va : ℕ)
    → HasTable s d (pdx va)
    → walkpgdir d va true s ≡ (table s d (pdx va) + 4 * ptx va, s)
unfolding walkpgdir
walkpgdir-there s d va h = rw (h) refl

pub walkpgdir-missing :
    (s : Vm) (d va : ℕ)
    → pte_p (pde_at s d (pdx va)) ≡ false
    → walkpgdir d va true s ≡ add_table (d + 4 * pdx va) va (kalloc s.kmem) s
unfolding walkpgdir
walkpgdir-missing s d va h = rw (h) refl

add_table_lem :
    (kend : ℕ) (D : ℕ → Type 0) (free : List ℕ) (s : Vm) (d va : ℕ)
    → IsValid kend D free s
    → D d
    → pte_p (pde_at s d (pdx va)) ≡ false
    → Walked kend D free s d va (add_table (d + 4 * pdx va) va (kalloc s.kmem) s)
unfolding add_table
add_table_lem kend D [] s d va w x none = rw (kalloc-none s.kmem w.chain) (inl (refl, refl, refl))
add_table_lem kend D (p ∷ rest) s d va w x none =
    let (u, run, c, counts) = kalloc-first p rest s.kmem w.chain in
    let some_page : p ≢ 0 = λ e. omega (arith, w.free_pages.0.word, w.free_pages.0.below_top, e) in
    rw (run, ==_of_ne p 0 some_page)
      (inr (
        rest,
        added-IsValid kend p D rest s (with_table kend p D rest s w d va x u) w d (pdx va) x
            (omega arith) c (HasTable-with_table kend p D rest s w d va x u)
            (table-with_table kend p D rest s w d va x u)
            (same-with_table kend p D rest s w d va x u),
        HasTable-with_table kend p D rest s w d va x u,
        ap (λ y. y + 4 * ptx va) (sym (table-with_table kend p D rest s w d va x u)),
        omega (arith, some_page),
        entries-with_table kend p D rest s w d va x u none,
        record {
          fewer = λ v h. h.1;
          bytes = λ v i h hi n.
              bytes-with_table kend p D rest s w d va x u v i h hi (NotIn-ne v p rest n);
          counts =
              λ v h n. refs-first kend p v s.kmem u w.free_pages.0 h (NotIn-ne v p rest n) counts;
        },
      ))

pub walkpgdir_alloc :
    (kend : ℕ) (D : ℕ → Type 0) (free : List ℕ) (s : Vm) (d va : ℕ)
    → IsValid kend D free s
    → D d
    → Walked kend D free s d va (walkpgdir d va true s)
walkpgdir_alloc kend D free s d va w x = elim (Bool-cases (pte_p (pde_at s d (pdx va)))) [
  | inl h ↦ rw (walkpgdir-there s d va h) (
      let page = (w.tables d (pdx va) x (omega arith) h).0 in
      inr (
        free,
        w,
        h,
        refl,
        omega (arith, page.word, page.below_top),
        λ e vb y. refl,
        Grows-self kend free s,
      ))
  | inr h ↦ rw (walkpgdir-missing s d va h) (add_table_lem kend D free s d va w x h)
]
