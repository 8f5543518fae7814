-- ===== src/Vm/Mappages.antt =====
-- `mappages`: the pages of its range get their entries in order, and no other entry changes.
use c_cpp_projects.Prelude.{
  ℕ, zero, suc, ◌+◌, ◌-◌, ◌*◌, ◌/◌, ◌%◌, ◌<◌, ◌≤◌, ◌≡◌, sym, ap, ◌∙◌, Bool, true, false,
  if◌then◌else◌, List, [], arith, u32_mod, dec_lt, ==_of_ne, ==_self, add32, sub32, Outcome, ok,
  panic, fault, out_of_fuel, ◌||◌, not, ◌==◌, ◌>>=◌,
}
use c_cpp_projects.Vm.{Vm, pte_p, walkpgdir, set_pte, mappages_loop, mappages}
use c_cpp_projects.Vm.Shape.{entry, IsValid}
use c_cpp_projects.Vm.Frame.{Grows, Grows-self, Grows-trans}
use c_cpp_projects.Vm.Grow.{walkpgdir_alloc}
use c_cpp_projects.Kalloc.{pgsize, pground_down}
use c_cpp_projects.Vm.Map.{Mapped, Mapped-none, Mapped-suc, Stepped, entry_of_page, set_pte_lem}

-- How `mappages` ends on the `n + 1` pages from `a` on: with all of them mapped, none of which was
-- present; out of memory, with the first ones mapped; or in the panic, where one was present.
abbrev pub MapResult :
    ℕ → (ℕ → Type 0) → List ℕ → Vm → ℕ → ℕ → ℕ → ℕ → ℕ → Outcome (Bool × Vm) → Type 0
MapResult kend D free s d a n pa perm (ok (true, t)) =
    (rest : List ℕ) × IsValid kend D rest t
    × Grows kend free rest s t
    × ((vb : ℕ) → a ≤ vb → vb < a + suc n * 4096 → pte_p (entry s d vb) ≡ false)
    × Mapped D s t d a (suc n) pa perm
MapResult kend D free s d a n pa perm (ok (false, t)) =
    (m : ℕ) × IsValid kend D [] t × Grows kend free [] s t × (m ≤ n) × Mapped D s t d a m pa perm
MapResult kend D free s d a n pa perm (panic m) =
    (m ≡ "remap") × ((vb : ℕ) × (a ≤ vb) × (vb < a + suc n * 4096) × (pte_p (entry s d vb) ≡ true))
MapResult kend D free s d a n pa perm fault = ⊥
MapResult kend D free s d a n pa perm out_of_fuel = ⊥

-- The rest of the pages, after the first one.
MapResult-suc :
    (kend : ℕ) (D : ℕ → Type 0) (free more : List ℕ) (s t : Vm) (d a n pa perm : ℕ)
    (r : Outcome (Bool × Vm))
    → D d
    → a % 4096 ≡ 0
    → a + suc (suc n) * 4096 ≤ u32_mod
    → Grows kend free more s t
    → pte_p (entry s d a) ≡ false
    → Mapped D s t d a 1 pa perm
    → MapResult kend D more t d (a + 4096) n (pa + 4096) perm r
    → MapResult kend D free s d a (suc n) pa perm r
MapResult-suc kend D free more s t d a n pa perm (ok (true, u)) x al room g absent f
      (rest, w, h, n_present, q) =
    (
      rest,
      w,
      Grows-trans kend free more rest s t u g h,
      λ vb lo hi. elim (dec_lt vb (a + 4096)) [
        | yes c ↦ ap pte_p (entry_of_page s d vb a (omega arith)) ∙ absent
        | no c ↦
            ap pte_p (sym (f.outside d vb x (omega arith) (λ o. omega (arith, o.2, c))))
            ∙ n_present vb (omega arith) (omega arith)
      ],
      Mapped-suc D s t u d a (suc n) pa perm x room f q,
    )
MapResult-suc kend D free more s t d a n pa perm (ok (false, u)) x al room g absent f
      (m, w, h, le, q) =
    (
      suc m,
      w,
      Grows-trans kend free more [] s t u g h,
      omega arith,
      Mapped-suc D s t u d a m pa perm x (omega arith) f q,
    )
MapResult-suc kend D free more s t d a n pa perm (panic m) x al room g absent f
      (e, (vb, lo, hi, q)) =
    (
      e,
      (
        vb,
        omega arith,
        omega arith,
        ap pte_p (sym (f.outside d vb x (omega arith) (λ o. omega (arith, o.2)))) ∙ q,
      ),
    )
MapResult-suc kend D free more s t d a n pa perm fault x al room g absent f h = h
MapResult-suc kend D free more s t d a n pa perm out_of_fuel x al room g absent f h = h

-- The rounds that follow the step `r`.
abbrev after : ℕ → ℕ → ℕ → ℕ → ℕ → ℕ → Bool × Vm → Outcome (Bool × Vm)
after fuel d a last pa perm r =
    let rest = mappages_loop fuel d (add32 a pgsize) last (add32 pa pgsize) perm r.1 in
    if not r.0 || (a == last) then ok r else rest

after-last :
    (kend : ℕ) (D : ℕ → Type 0) (free : List ℕ) (s : Vm) (d a last pa perm : ℕ)
    (r : Outcome (Bool × Vm))
    → IsValid kend D free s
    → a % 4096 ≡ 0
    → last ≡ a
    → Stepped kend D free s d a pa perm r
    → MapResult kend D free s d a 0 pa perm (r >>= after 0 d a last pa perm)
after-last kend D free s d a last pa perm (ok (true, t)) w al e (rest, v, g, absent, f) =
    rw (e, ==_self a)
      (rest, v, g, λ vb lo hi. ap pte_p (entry_of_page s d vb a (omega arith)) ∙ absent, f)
after-last kend D free s d a last pa perm (ok (false, t)) w al e (same, none) =
    rw (same) (
      0,
      rw (none) at w,
      rw (none) (Grows-self kend [] s),
      omega arith,
      Mapped-none D s d a pa perm,
    )
after-last kend D free s d a last pa perm (panic m) w al e (h, p) =
    (h, (a, omega arith, omega arith, p))
after-last kend D free s d a last pa perm fault w al e h = h
after-last kend D free s d a last pa perm out_of_fuel w al e h = h

after-suc :
    (kend : ℕ) (D : ℕ → Type 0) (free : List ℕ) (s : Vm) (d a n last pa perm : ℕ)
    (r : Outcome (Bool × Vm))
    → IsValid kend D free s
    → D d
    → a % 4096 ≡ 0
    → last ≡ a + suc n * 4096
    → a + suc (suc n) * 4096 ≤ u32_mod
    → pa + suc (suc n) * 4096 ≤ u32_mod
    → ((more : List ℕ) (t : Vm)
        → IsValid kend D more t
        → MapResult kend D more t d
            (a + 4096)
            n
            (pa + 4096)
            perm
            (mappages_loop (suc n) d (a + 4096) last (pa + 4096) perm t))
    → Stepped kend D free s d a pa perm r
    → MapResult kend D free s d a (suc n) pa perm (r >>= after (suc n) d a last pa perm)
after-suc kend D free s d a n last pa perm (ok (true, t)) w x al e room frames ih
      (rest, v, g, absent, f) =
    let next : add32 a pgsize ≡ a + 4096 = omega arith in
    let next_frame : add32 pa pgsize ≡ pa + 4096 = omega arith in
    rw (==_of_ne a last (omega arith), next, next_frame)
      (MapResult-suc kend D free rest s t d a n pa perm
        (mappages_loop (suc n) d (a + 4096) last (pa + 4096) perm t) x al room g absent f
        (ih rest t v))
after-suc kend D free s d a n last pa perm (ok (false, t)) w x al e room frames ih (same, none) =
    rw (same) (
      0,
      rw (none) at w,
      rw (none) (Grows-self kend [] s),
      omega arith,
      Mapped-none D s d a pa perm,
    )
after-suc kend D free s d a n last pa perm (panic m) w x al e room frames ih (h, p) =
    (h, (a, omega arith, omega arith, p))
after-suc kend D free s d a n last pa perm fault w x al e room frames ih h = h
after-suc kend D free s d a n last pa perm out_of_fuel w x al e room frames ih h = h

pub mappages_loop_lem :
    (kend : ℕ) (D : ℕ → Type 0) (n : ℕ) (free : List ℕ) (s : Vm) (d a last pa perm : ℕ)
    → IsValid kend D free s
    → D d
    → a % 4096 ≡ 0
    → last ≡ a + n * 4096
    → a + suc n * 4096 ≤ u32_mod
    → pa + suc n * 4096 ≤ u32_mod
    → MapResult kend D free s d a n pa perm (mappages_loop (suc n) d a last pa perm s)
unfolding mappages_loop
mappages_loop_lem kend D zero free s d a last pa perm w x al e room frames =
    after-last kend D free s d a last pa perm (set_pte pa perm (walkpgdir d a true s)) w al
      (omega arith)
      (set_pte_lem kend D free s d a pa perm (walkpgdir d a true s) x al (omega arith)
        (walkpgdir_alloc kend D free s d a w x))
mappages_loop_lem kend D (suc n) free s d a last pa perm w x al e room frames =
    after-suc kend D free s d a n last pa perm (set_pte pa perm (walkpgdir d a true s)) w x al e
      room frames
      (λ more t v.
        mappages_loop_lem kend D n more t d (a + 4096) last (pa + 4096) perm v x (omega arith)
          (omega arith) (omega arith) (omega arith))
      (set_pte_lem kend D free s d a pa perm (walkpgdir d a true s) x al (omega arith)
        (walkpgdir_alloc kend D free s d a w x))

-- On valid page tables, with a range and frames that do not wrap around: if `mappages` succeeds, no
-- page of the range was present, each page now has the entry for its frame with the flags given, in
-- the range's order, and the entries of all other pages, in all directories, are as before. If it
-- fails, there is no free page left, and the same holds of a first part of the range. It panics
-- with "remap" only if a page of the range was present, and the fuel is enough. The page tables stay
-- valid, and pages that were not free keep their bytes and their counts.
pub mappages_lem :
    (kend : ℕ) (D : ℕ → Type 0) (n : ℕ) (free : List ℕ) (s : Vm) (d va size pa perm : ℕ)
    → IsValid kend D free s
    → D d
    → 0 < size
    → va + size ≤ u32_mod
    → n ≡ (va + size - 1) / 4096 - va / 4096
    → pa + suc n * 4096 ≤ u32_mod
    → MapResult kend D free s d (pground_down va) n pa perm (mappages d va size pa perm s)
unfolding mappages
mappages_lem kend D n free s d va size pa perm w x some room pages frames =
    let last : pground_down (sub32 (add32 va size) 1) ≡ pground_down va + n * 4096 = omega arith in
    let rounds : sub32 (pground_down (sub32 (add32 va size) 1)) (pground_down va) / pgsize + 1
        ≡ suc n =
      omega arith in
    rw (rounds) (
      mappages_loop_lem kend D n free s d (pground_down va) (pground_down (sub32 (add32 va size) 1))
        pa perm w x (omega arith) last (omega arith) frames)
