-- ===== src/Vm/Map.antt =====
-- One page of `mappages`: it gets its entry, and no other entry changes.
use c_cpp_projects.Prelude.{
  ℕ, suc, ◌+◌, ◌-◌, ◌*◌, ◌/◌, ◌%◌, ◌<◌, ◌≤◌, ◌≡◌, refl, sym, ap, ◌∙◌, Bool, true, false, List, [],
  arith, u32_mod, dec_lt, ==_of_ne, Bool-cases, inl, inr, Outcome, ok, panic, fault, out_of_fuel,
}
use c_cpp_projects.Vm.{Vm, pdx, ptx, pte_p, set_pte, pte_of}
use c_cpp_projects.Vm.Shape.{table, HasTable, entry, IsValid}
use c_cpp_projects.Vm.Walk.{store, store-IsValid, entry-store_self, entry-store_ne}
use c_cpp_projects.Vm.Frame.{Grows, Walked}
use c_cpp_projects.Vm.Reading.{entry-HasTable}

-- From `s` to `t` the directory `d` has gained the `m` pages from `a` on, for the frames from `pa` on.
pub record Mapped (D : ℕ → Type 0) (s t : Vm) (d a m pa perm : ℕ) : Type 0 where
  pub inside :
      (vb : ℕ)
      → a ≤ vb
      → vb < a + m * 4096
      → entry t d vb ≡ pte_of (pa + (vb - a) / 4096 * 4096) perm
  pub outside :
      (e vb : ℕ)
      → D e
      → vb < u32_mod
      → ¬ ((e ≡ d) × (a ≤ vb) × (vb < a + m * 4096))
      → entry t e vb ≡ entry s e vb

pub entry_of_page : (s : Vm) (d va vb : ℕ) → va / 4096 ≡ vb / 4096 → entry s d va ≡ entry s d vb
unfolding entry
entry_of_page s d va vb h =
    let i : pdx va ≡ pdx vb = omega arith in let j : ptx va ≡ ptx vb = omega arith in rw (i, j) refl

pub Mapped-none : (D : ℕ → Type 0) (s : Vm) (d a pa perm : ℕ) → Mapped D s s d a 0 pa perm
Mapped-none D s d a pa perm = record {
  inside = λ vb h k. absurd (omega arith);
  outside = λ e vb y h n. refl;
}

-- A page and the pages after it.
pub Mapped-suc :
    (D : ℕ → Type 0) (s t u : Vm) (d a m pa perm : ℕ)
    → D d
    → a + suc m * 4096 ≤ u32_mod
    → Mapped D s t d a 1 pa perm
    → Mapped D t u d (a + 4096) m (pa + 4096) perm
    → Mapped D s u d a (suc m) pa perm
Mapped-suc D s t u d a m pa perm x room f g = record {
  inside = λ vb h k. elim (dec_lt vb (a + 4096)) [
    | yes q ↦
        g.outside d vb x (omega arith) (λ o. omega (arith, o.1, q)) ∙ f.inside vb h (omega arith)
    | no q ↦ g.inside vb (omega arith) (omega arith) ∙ ap (λ y. pte_of y perm) (omega arith)
  ];
  outside = λ e vb y h n.
      g.outside e vb y h (λ o. n (o.0, omega (arith, o.1), omega (arith, o.2)))
      ∙ f.outside e vb y h (λ o. n (o.0, o.1, omega (arith, o.2)));
}

-- What one round of `mappages` ends in.
abbrev pub Stepped : ℕ → (ℕ → Type 0) → List ℕ → Vm → ℕ → ℕ → ℕ → ℕ → Outcome (Bool × Vm) → Type 0
Stepped kend D free s d a pa perm (ok (true, t)) =
    (rest : List ℕ) × IsValid kend D rest t
    × Grows kend free rest s t
    × (pte_p (entry s d a) ≡ false)
    × Mapped D s t d a 1 pa perm
Stepped kend D free s d a pa perm (ok (false, t)) = (t ≡ s) × (free ≡ [])
Stepped kend D free s d a pa perm (panic m) = (m ≡ "remap") × (pte_p (entry s d a) ≡ true)
Stepped kend D free s d a pa perm fault = ⊥
Stepped kend D free s d a pa perm out_of_fuel = ⊥

module _ (kend : ℕ) (D : ℕ → Type 0) (rest : List ℕ) (t : Vm) (w : IsValid kend D rest t) (d a : ℕ)
    (x : D d) (aligned : a % 4096 ≡ 0) (ha : a < u32_mod) (h : HasTable t d (pdx a)) where
  Mapped-store : (pa perm : ℕ) → Mapped D t (store t d a (pte_of pa perm)) d a 1 pa perm
  Mapped-store pa perm = record {
    inside = λ vb p q.
        entry_of_page (store t d a (pte_of pa perm)) d vb a (omega arith)
        ∙ (entry-store_self kend D rest t w d a (pte_of pa perm) x h
            ∙ ap (λ y. pte_of y perm) (omega arith));
    outside = λ e vb y hb n.
        entry-store_ne kend D rest t w d a (pte_of pa perm) e vb x y ha hb h
          (λ o. n (o.0, omega (arith, o.1), omega (arith, o.1)));
  }

pub set_pte_lem :
    (kend : ℕ) (D : ℕ → Type 0) (free : List ℕ) (s : Vm) (d a pa perm : ℕ) (r : ℕ × Vm)
    → D d
    → a % 4096 ≡ 0
    → a < u32_mod
    → Walked kend D free s d a r
    → Stepped kend D free s d a pa perm (set_pte pa perm r)
unfolding set_pte
set_pte_lem kend D free s d a pa perm (pte, t) x al ha (inl (null, same, none)) =
    rw (null) (same, none)
set_pte_lem kend D free s d a pa perm (pte, t) x al ha (inr (rest, w, h, at, some, same, g)) =
    rw (==_of_ne pte 0 some, at)
      (let found : entry s d a ≡ t.word (table t d (pdx a) + 4 * ptx a) =
          sym (same d a x) ∙ entry-HasTable t d a h in
        elim (Bool-cases (pte_p (t.word (table t d (pdx a) + 4 * ptx a)))) [
          | inl p ↦ rw (p) (refl, ap pte_p found ∙ p)
          | inr p ↦ rw (p) (
            rest,
            store-IsValid kend D rest t w d a (pte_of pa perm) x h,
            record { fewer = g.fewer; bytes = g.bytes; counts = g.counts },
            ap pte_p found ∙ p,
            record {
              inside = (Mapped-store kend D rest t w d a x al ha h pa perm).inside;
              outside = λ e vb y hb n.
                  (Mapped-store kend D rest t w d a x al ha h pa perm).outside e vb y hb n
                  ∙ same e vb y;
            },
          )
        ])
