-- ===== src/Vm/Reading.antt =====
-- `walkpgdir` where it allocates nothing: it finds the entries that are not 0.
use c_cpp_projects.Prelude.{ℕ, ◌+◌, ◌*◌, ◌≡◌, ◌≢◌, refl, false, arith, Bool-cases, inl, inr, List}
use c_cpp_projects.Vm.{Vm, pdx, ptx, pte_p, walkpgdir}
use c_cpp_projects.Vm.Shape.{pde_at, table, HasTable, entry, IsValid}

pub entry-HasTable :
    (s : Vm) (d va : ℕ)
    → HasTable s d (pdx va)
    → entry s d va ≡ s.word (table s d (pdx va) + 4 * ptx va)
unfolding entry
entry-HasTable s d va h = rw (h) refl

pub entry_none : (s : Vm) (d va : ℕ) → pte_p (pde_at s d (pdx va)) ≡ false → entry s d va ≡ 0
unfolding entry
entry_none s d va h = rw (h) refl

pub HasTable-of_entry : (s : Vm) (d va : ℕ) → entry s d va ≢ 0 → HasTable s d (pdx va)
HasTable-of_entry s d va n = elim (Bool-cases (pte_p (pde_at s d (pdx va)))) [
  | inl h ↦ h
  | inr h ↦ absurd (n (entry_none s d va h))
]

pub walkpgdir-found :
    (s : Vm) (d va : ℕ)
    → HasTable s d (pdx va)
    → walkpgdir d va false s ≡ (table s d (pdx va) + 4 * ptx va, s)
unfolding walkpgdir
walkpgdir-found s d va h = rw (h) refl

pub walkpgdir-lost :
    (s : Vm) (d va : ℕ) → pte_p (pde_at s d (pdx va)) ≡ false → walkpgdir d va false s ≡ (0, s)
unfolding walkpgdir
walkpgdir-lost s d va h = rw (h) refl

pub place-ne :
    (kend : ℕ) (D : ℕ → Type 0) (free : List ℕ) (s : Vm) (d va : ℕ)
    → IsValid kend D free s
    → D d
    → HasTable s d (pdx va)
    → table s d (pdx va) + 4 * ptx va ≢ 0
place-ne kend D free s d va w x h =
    let page = (w.tables d (pdx va) x (omega arith) h).0 in omega (arith, page.word, page.below_top)
