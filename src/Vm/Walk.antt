-- ===== src/Vm/Walk.antt =====
-- Stores through the result of `walkpgdir`: the entries of other pages stay, and the invariant holds.
use c_cpp_projects.Prelude.{
  ℕ, ◌+◌, ◌*◌, ◌/◌, ◌<◌, ◌≡◌, refl, sym, List, ◌∷◌, arith, u32_mod, update, update_self, update_ne,
  Bool-cases, inl, inr,
}
use c_cpp_projects.Vm.{Vm, pdx, ptx, pte_p}
use c_cpp_projects.Vm.Shape.{
  pde_at, table, HasTable, entry, IsValid, page_of_indexes, address_injective,
}
use c_cpp_projects.Kalloc.Chain.{FreeList}

-- The directories hold what they held.
abbrev pub SameRoots : (ℕ → Type 0) → Vm → Vm → Type 0
SameRoots D s t = (e i : ℕ) → D e → i < 1024 → pde_at t e i ≡ pde_at s e i

pub IsValid-same :
    (kend : ℕ) (D : ℕ → Type 0) (free : List ℕ) (s t : Vm)
    → IsValid kend D free s
    → FreeList t.kmem.next t.kmem.freelist free
    → SameRoots D s t
    → IsValid kend D free t
IsValid-same kend D free s t w c same = record {
  chain = c;
  free_pages = w.free_pages;
  roots = w.roots;
  tables = λ d i x hi p. rw (same d i x hi) (w.tables d i x hi (rw (same d i x hi) at p));
  not_roots =
      λ d e i x y hi p. rw (same d i x hi) (w.not_roots d e i x y hi (rw (same d i x hi) at p));
  distinct = λ d e i j x y hi hj p q h.
      w.distinct d e i j x y hi hj (rw (same d i x hi) at p) (rw (same e j y hj) at q)
        (rw (same d i x hi, same e j y hj) at h);
}

-- The first free page has been taken, for something else than a table.
pub IsValid-taken :
    (kend : ℕ) (D : ℕ → Type 0) (p : ℕ) (rest : List ℕ) (s t : Vm)
    → IsValid kend D (p ∷ rest) s
    → FreeList t.kmem.next t.kmem.freelist rest
    → SameRoots D s t
    → IsValid kend D rest t
IsValid-taken kend D p rest s t w c same = record {
  chain = c;
  free_pages = w.free_pages.1;
  roots = λ d x. ((w.roots d x).0, (w.roots d x).1.1);
  tables = λ d i x hi q.
      let (page, out) = w.tables d i x hi (rw (same d i x hi) at q) in
      rw (same d i x hi) (page, out.1);
  not_roots =
      λ d e i x y hi q. rw (same d i x hi) (w.not_roots d e i x y hi (rw (same d i x hi) at q));
  distinct = λ d e i j x y hi hj q r h.
      w.distinct d e i j x y hi hj (rw (same d i x hi) at q) (rw (same e j y hj) at r)
        (rw (same d i x hi, same e j y hj) at h);
}

-- The state after `*pte = v` for the entry of `va`, whose table is there.
abbrev pub store : Vm → ℕ → ℕ → ℕ → Vm
store s d va v = record s { word = update s.word (table s d (pdx va) + 4 * ptx va) v }

module _ (kend : ℕ) (D : ℕ → Type 0) (free : List ℕ) (s : Vm) (w : IsValid kend D free s) where
  pub store-SameRoots : (d va v : ℕ) → D d → HasTable s d (pdx va) → SameRoots D s (store s d va v)
  store-SameRoots d va v x p e i y hi =
      update_ne s.word (table s d (pdx va) + 4 * ptx va) (e + 4 * i) v (λ h.
        w.not_roots d e (pdx va) x y (omega arith) p (
          sym
            (address_injective kend e (table s d (pdx va)) i (ptx va) (w.roots e y).0
              (w.tables d (pdx va) x (omega arith) p).0 hi (omega arith) h).0))

  pub store-IsValid :
      (d va v : ℕ) → D d → HasTable s d (pdx va) → IsValid kend D free (store s d va v)
  store-IsValid d va v x p =
      IsValid-same kend D free s (store s d va v) w w.chain (store-SameRoots d va v x p)

  pub entry-store_self :
      (d va v : ℕ) → D d → HasTable s d (pdx va) → entry (store s d va v) d va ≡ v
  unfolding entry
  entry-store_self d va v x p =
      rw (store-SameRoots d va v x p d (pdx va) x (omega arith), p)
        (update_self s.word (table s d (pdx va) + 4 * ptx va) v)

  pub entry-store_ne :
      (d va v e vb : ℕ)
      → D d
      → D e
      → va < u32_mod
      → vb < u32_mod
      → HasTable s d (pdx va)
      → ¬ ((e ≡ d) × (vb / 4096 ≡ va / 4096))
      → entry (store s d va v) e vb ≡ entry s e vb
  unfolding entry
  entry-store_ne d va v e vb x y hva hvb p out =
      rw (store-SameRoots d va v x p e (pdx vb) y (omega arith))
        (elim (Bool-cases (pte_p (pde_at s e (pdx vb)))) [
          | inl q ↦ rw (q) (
              update_ne s.word (table s d (pdx va) + 4 * ptx va) (table s e (pdx vb) + 4 * ptx vb) v
                (λ h.
                  let (same_page, same_index) =
                    address_injective kend (table s e (pdx vb)) (table s d (pdx va)) (ptx vb)
                      (ptx va) (w.tables e (pdx vb) y (omega arith) q).0
                      (w.tables d (pdx va) x (omega arith) p).0 (omega arith) (omega arith) h in
                  let (same_root, same_slot) =
                    w.distinct e d (pdx vb) (pdx va) y x (omega arith) (omega arith) q p
                      same_page in
                  out (same_root, page_of_indexes vb va hvb hva same_slot same_index)))
          | inr q ↦ rw (q) refl
        ])
