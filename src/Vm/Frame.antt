-- ===== src/Vm/Frame.antt =====
-- What stays when a table page is taken: the entries of all directories, and the pages not free.
use c_cpp_projects.Prelude.{
  ℕ, ◌+◌, ◌*◌, ◌<◌, ◌≡◌, ◌≢◌, ◌⊎◌, refl, sym, ◌∙◌, List, [], ◌∷◌, NotIn, ℕ_discrete, inl, inr,
}
use c_cpp_projects.Vm.{Vm, pdx, ptx}
use c_cpp_projects.Vm.Shape.{table, HasTable, entry, IsValid}
use c_cpp_projects.Kalloc.{refs}
use c_cpp_projects.Kalloc.Chain.{IsPage}

-- The free pages become those of `rest`; what is in the other pages, and the counts of those, stay.
pub record Grows (kend : ℕ) (free rest : List ℕ) (s t : Vm) : Type 0 where
  pub fewer : (v : ℕ) → NotIn v free → NotIn v rest
  pub bytes : (v i : ℕ) → IsPage kend v → i < 4096 → NotIn v free → t.byte (v + i) ≡ s.byte (v + i)
  pub counts : (v : ℕ) → IsPage kend v → NotIn v free → refs t.kmem v ≡ refs s.kmem v

pub Grows-self : (kend : ℕ) (free : List ℕ) (s : Vm) → Grows kend free free s s
Grows-self kend free s = record {
  fewer = λ v h. h;
  bytes = λ v i p hi h. refl;
  counts = λ v p h. refl;
}

pub Grows-trans :
    (kend : ℕ) (free more rest : List ℕ) (s t u : Vm)
    → Grows kend free more s t
    → Grows kend more rest t u
    → Grows kend free rest s u
Grows-trans kend free more rest s t u g h = record {
  fewer = λ v n. h.fewer v (g.fewer v n);
  bytes = λ v i p hi n. h.bytes v i p hi (g.fewer v n) ∙ g.bytes v i p hi n;
  counts = λ v p n. h.counts v p (g.fewer v n) ∙ g.counts v p n;
}

-- No entry has changed.
abbrev pub SameEntries : (ℕ → Type 0) → Vm → Vm → Type 0
SameEntries D s t = (e vb : ℕ) → D e → entry t e vb ≡ entry s e vb

-- What a walk that may allocate ends in: no page was free for a table that is missing, or the table
-- is there and nothing but free pages has changed.
abbrev pub Walked : ℕ → (ℕ → Type 0) → List ℕ → Vm → ℕ → ℕ → ℕ × Vm → Type 0
Walked kend D free s d va (pte, t) =
    ((pte ≡ 0) × (t ≡ s) × (free ≡ []))
    ⊎ ((rest : List ℕ) × IsValid kend D rest t
        × HasTable t d (pdx va)
        × (pte ≡ table t d (pdx va) + 4 * ptx va)
        × (pte ≢ 0)
        × SameEntries D s t
        × Grows kend free rest s t)

pub slot-cases : (e i d j : ℕ) → ((e ≡ d) × (i ≡ j)) ⊎ ¬ ((e ≡ d) × (i ≡ j))
slot-cases e i d j = elim (ℕ_discrete e d) [
  | yes p ↦ elim (ℕ_discrete i j) [ yes q ↦ inl (p, q) | no q ↦ inr (λ h. q h.1) ]
  | no p ↦ inr (λ h. p h.0)
]

pub NotIn-ne : (v p : ℕ) (rest : List ℕ) → NotIn v (p ∷ rest) → v ≢ p
NotIn-ne v p rest n e = n.0 (sym e)
