-- ===== src/Vm/Added.antt =====
-- A directory that gains a table keeps the invariant.
use c_cpp_projects.Prelude.{ℕ, ◌<◌, ◌≡◌, ◌≢◌, sym, ◌∙◌, List, ◌∷◌, NotIn, inl, inr}
use c_cpp_projects.Vm.{Vm}
use c_cpp_projects.Vm.Shape.{pde_at, table, HasTable, IsValid}
use c_cpp_projects.Kalloc.Chain.{IsPage, FreeList}
use c_cpp_projects.Vm.Frame.{slot-cases}

-- A directory that gains the table `p`, so far the first free page.
module _ (kend p : ℕ) (D : ℕ → Type 0) (rest : List ℕ) (s t : Vm) (w : IsValid kend D (p ∷ rest) s)
    (d j : ℕ) (x : D d) (hj : j < 1024) (c : FreeList t.kmem.next t.kmem.freelist rest)
    (gained : HasTable t d j) (there : table t d j ≡ p)
    (same : (e i : ℕ) → D e → i < 1024 → ¬ ((e ≡ d) × (i ≡ j)) → pde_at t e i ≡ pde_at s e i) where
  added-tables :
      (e i : ℕ)
      → D e
      → i < 1024
      → HasTable t e i
      → IsPage kend (table t e i) × NotIn (table t e i) rest
  added-tables e i y hi q = elim (slot-cases e i d j) [
    | inl h ↦ rw (h.0, h.1, there) (w.free_pages.0, w.chain.2)
    | inr h ↦
        let (page, out) = w.tables e i y hi (rw (same e i y hi h) at q) in
        rw (same e i y hi h) (page, out.1)
  ]

  added-not_roots : (e f i : ℕ) → D e → D f → i < 1024 → HasTable t e i → table t e i ≢ f
  added-not_roots e f i y z hi q = elim (slot-cases e i d j) [
    | inl h ↦ rw (h.0, h.1, there) (λ k. (w.roots f z).1.0 k)
    | inr h ↦ rw (same e i y hi h) (w.not_roots e f i y z hi (rw (same e i y hi h) at q))
  ]

  -- The new table is none of the others.
  added-fresh :
      (e i : ℕ) → D e → i < 1024 → HasTable t e i → ¬ ((e ≡ d) × (i ≡ j)) → table t e i ≢ p
  added-fresh e i y hi q h =
      rw (same e i y hi h) (λ k. (w.tables e i y hi (rw (same e i y hi h) at q)).1.0 (sym k))

  added-distinct :
      (e f i k : ℕ)
      → D e
      → D f
      → i < 1024
      → k < 1024
      → HasTable t e i
      → HasTable t f k
      → table t e i ≡ table t f k
      → (e ≡ f) × (i ≡ k)
  added-distinct e f i k y z hi hk q r h = elim (slot-cases e i d j) [
    | inl a ↦ elim (slot-cases f k d j) [
      | inl b ↦ (a.0 ∙ sym b.0, a.1 ∙ sym b.1)
      | inr b ↦ absurd (added-fresh f k z hk r b (sym h ∙ (rw (a.0, a.1) there)))
    ]
    | inr a ↦ elim (slot-cases f k d j) [
      | inl b ↦ absurd (added-fresh e i y hi q a (h ∙ (rw (b.0, b.1) there)))
      | inr b ↦
          w.distinct e f i k y z hi hk (rw (same e i y hi a) at q) (rw (same f k z hk b) at r)
            (rw (same e i y hi a, same f k z hk b) at h)
    ]
  ]

  pub added-IsValid : IsValid kend D rest t
  added-IsValid = record {
    chain = c;
    free_pages = w.free_pages.1;
    roots = λ e y. ((w.roots e y).0, (w.roots e y).1.1);
    tables = added-tables;
    not_roots = added-not_roots;
    distinct = added-distinct;
  }
