-- ===== src/Vm/Table.antt =====
-- The page that `walkpgdir` makes a table: its place in the directory, and all words outside it.
use c_cpp_projects.Prelude.{
  ℕ, ◌+◌, ◌*◌, ◌/◌, ◌%◌, ◌<◌, ◌≡◌, ◌≢◌, refl, sym, ap, ◌∙◌, false, List, ◌∷◌, arith, update,
  update_self, update_ne, Bool-cases, inl, inr,
}
use c_cpp_projects.Vm.{Vm, pdx, ptx, pte_p, pte_addr, or32, wipe}
use c_cpp_projects.Vm.Bits.{pde_of_lem}
use c_cpp_projects.Vm.Shape.{pde_at, table, HasTable, entry, IsValid, address_injective}
use c_cpp_projects.Kalloc.{Kmem, p2v, v2p}
use c_cpp_projects.Kalloc.Chain.{IsPage}
use c_cpp_projects.Vm.Frame.{SameEntries, slot-cases}

-- The state in which `walkpgdir` has made the free page `p` a table.
module _ (kend p : ℕ) (D : ℕ → Type 0) (rest : List ℕ) (s : Vm) (w : IsValid kend D (p ∷ rest) s)
    (d va : ℕ) (x : D d) (k : Kmem) where
  abbrev pub with_table : Vm
  with_table = record s {
    kmem = k;
    word = update (wipe p s.word) (d + 4 * pdx va) (or32 (or32 (or32 (v2p p) 1) 2) 4);
    byte = wipe p s.byte;
  }

  pde-with_table : pde_at with_table d (pdx va) ≡ v2p p + 7
  pde-with_table =
      update_self (wipe p s.word) (d + 4 * pdx va) (or32 (or32 (or32 (v2p p) 1) 2) 4)
      ∙ pde_of_lem (v2p p) (omega (arith, w.free_pages.0.aligned)) (omega arith)

  pub table-with_table : table with_table d (pdx va) ≡ p
  table-with_table =
      ap (λ e. p2v (pte_addr e)) pde-with_table
      ∙ omega (arith, w.free_pages.0.aligned, w.free_pages.0.word)

  pub HasTable-with_table : HasTable with_table d (pdx va)
  HasTable-with_table =
      let even : (v2p p + 7) % 2 ≡ 1 = omega (arith, w.free_pages.0.aligned) in
      ap pte_p pde-with_table ∙ ground (arith, even)

  -- A word outside the new page and other than the directory's entry stays.
  word-with_table :
      (q i : ℕ)
      → IsPage kend q
      → i < 1024
      → q ≢ p
      → ¬ (q + 4 * i ≡ d + 4 * pdx va)
      → with_table.word (q + 4 * i) ≡ s.word (q + 4 * i)
  word-with_table q i h hi n m =
      let other : (q + 4 * i) / 4096 ≢ p / 4096 =
        λ e. n (omega (arith, h.aligned, w.free_pages.0.aligned, e)) in
      update_ne (wipe p s.word) (d + 4 * pdx va) (q + 4 * i) (or32 (or32 (or32 (v2p p) 1) 2) 4) m
      ∙ ground (arith, other)

  pub same-with_table :
      (e i : ℕ) → D e → i < 1024 → ¬ ((e ≡ d) × (i ≡ pdx va)) → pde_at with_table e i ≡ pde_at s e i
  same-with_table e i y hi n =
      word-with_table e i (w.roots e y).0 hi (λ h. (w.roots e y).1.0 (sym h))
        (λ h. n (
          address_injective kend e d i (pdx va) (w.roots e y).0 (w.roots d x).0 hi (omega arith) h))

  new-with_table : (i : ℕ) → i < 1024 → with_table.word (p + 4 * i) ≡ 0
  new-with_table i hi =
      let other : p + 4 * i ≢ d + 4 * pdx va = λ h.
        (w.roots d x).1.0
          (address_injective kend p d i (pdx va) w.free_pages.0 (w.roots d x).0 hi (omega arith)
            h).0 in
      let inside : (p + 4 * i) / 4096 ≡ p / 4096 = omega (arith, w.free_pages.0.aligned) in
      update_ne (wipe p s.word) (d + 4 * pdx va) (p + 4 * i) (or32 (or32 (or32 (v2p p) 1) 2) 4)
        other
      ∙ ground (arith, inside)

  pub entries-with_table : pte_p (pde_at s d (pdx va)) ≡ false → SameEntries D s with_table
  unfolding entry
  entries-with_table none e vb y = elim (slot-cases e (pdx vb) d (pdx va)) [
    | inl h ↦
        rw (h.0, h.1, none, HasTable-with_table, table-with_table)
          (new-with_table (ptx vb) (omega arith))
    | inr h ↦
        rw (same-with_table e (pdx vb) y (omega arith) h)
          (elim (Bool-cases (pte_p (pde_at s e (pdx vb)))) [
            | inl q ↦ rw (q) (
                let (page, out) = w.tables e (pdx vb) y (omega arith) q in
                word-with_table (table s e (pdx vb)) (ptx vb) page (omega arith)
                  (λ h. out.0 (sym h))
                  (λ h.
                    w.not_roots e d (pdx vb) y x (omega arith) q
                      (address_injective kend (table s e (pdx vb)) d (ptx vb) (pdx va) page
                        (w.roots d x).0 (omega arith) (omega arith) h).0))
            | inr q ↦ rw (q) refl
          ])
  ]

  pub bytes-with_table :
      (v i : ℕ) → IsPage kend v → i < 4096 → v ≢ p → with_table.byte (v + i) ≡ s.byte (v + i)
  bytes-with_table v i h hi n =
      let other : (v + i) / 4096 ≢ p / 4096 =
        λ e. n (omega (arith, h.aligned, w.free_pages.0.aligned, e)) in
      ground (arith, other)
