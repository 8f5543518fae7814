-- ===== src/Vm/Cow/Loop.antt =====
-- The loop of `copyuvm`: all pages of the parent go into the child, or memory runs out.
use c_cpp_projects.Prelude.{
  ℕ, zero, suc, ◌+◌, ◌-◌, ◌*◌, ◌/◌, ◌%◌, ◌<◌, ◌≤◌, ◌≡◌, ◌≢◌, refl, sym, ap, ap₂, subst, ◌∙◌, Bool,
  true, false, if◌then◌else◌, List, arith, u32_mod, dec_lt, le→leb, lt→leb_false, add32, Outcome,
  ok, panic, fault, out_of_fuel, ◌>>=◌, NotIn,
}
use c_cpp_projects.Vm.{Vm, pte_p, pte_addr}
use c_cpp_projects.Vm.Shape.{entry, IsValid}
use c_cpp_projects.Vm.Cow.{copy_step}
use c_cpp_projects.Kalloc.{refs, p2v, pgsize, kernbase}
use c_cpp_projects.Kalloc.Chain.{IsPage}
use c_cpp_projects.Vm.Cow.Share.{CanShare, Shared, shares, parent_pte, child_pte, refers}
use c_cpp_projects.Vm.Cow.{copy_loop}
use c_cpp_projects.Vm.Cow.Step.{Copied, copy_step_lem}

shares-same :
    (s t : Vm) (pgdir v i n : ℕ)
    → ((vb : ℕ) → i ≤ vb → vb < i + n * 4096 → entry t pgdir vb ≡ entry s pgdir vb)
    → shares t pgdir v i n ≡ shares s pgdir v i n
unfolding shares
shares-same s t pgdir v i zero same = refl
shares-same s t pgdir v i (suc n) same =
    ap₂ (λ e k. refers v e + k) (same i (omega arith) (omega arith))
      (shares-same s t pgdir v (i + 4096) n (λ vb lo up. same vb (omega arith) (omega arith)))

module _ (kend : ℕ) (D : ℕ → Type 0) (free more rest : List ℕ) (s t u : Vm) (pgdir d i n : ℕ)
    (x : D pgdir) (y : D d) (room : i + suc n * 4096 ≤ u32_mod)
    (f : Shared kend D free more s t pgdir d i 1)
    (g : Shared kend D more rest t u pgdir d (i + 4096) n) where
  -- The first page changes no entry of the others.
  later : (e vb : ℕ) → D e → i + 4096 ≤ vb → vb < u32_mod → entry t e vb ≡ entry s e vb
  later e vb z lo up = f.others e vb z up (λ o. omega (arith, o.2, lo))

  -- The others change no entry of the first.
  first : (e vb : ℕ) → D e → vb < i + 4096 → entry u e vb ≡ entry t e vb
  first e vb z up = g.others e vb z (omega arith) (λ o. omega (arith, o.1, up))

  Shared-suc_counts :
      (v : ℕ)
      → IsPage kend v
      → NotIn v free
      → refs u.kmem v % u32_mod ≡ (refs s.kmem v + shares s pgdir v i (suc n)) % u32_mod
  unfolding shares
  Shared-suc_counts v hv out =
      let one : refs t.kmem v % u32_mod
          ≡ (refs s.kmem v + (refers v (entry s pgdir i) + 0)) % u32_mod =
        f.counts v hv out in
      let others : refs u.kmem v % u32_mod
          ≡ (refs t.kmem v + shares t pgdir v (i + 4096) n) % u32_mod =
        g.counts v hv (f.fewer v out) in
      let same : shares t pgdir v (i + 4096) n ≡ shares s pgdir v (i + 4096) n =
        shares-same s t pgdir v (i + 4096) n (λ vb lo up. later pgdir vb x lo (omega arith)) in
      omega (arith, one, others, same)

  Shared-suc : Shared kend D free rest s u pgdir d i (suc n)
  Shared-suc = record {
    parent = λ vb lo up. elim (dec_lt vb (i + 4096)) [
      | yes c ↦ first pgdir vb x c ∙ f.parent vb lo (omega arith)
      | no c ↦
          g.parent vb (omega arith) (omega arith)
          ∙ ap parent_pte (later pgdir vb x (omega arith) (omega arith))
    ];
    child = λ vb lo up. elim (dec_lt vb (i + 4096)) [
      | yes c ↦ first d vb y c ∙ f.child vb lo (omega arith)
      | no c ↦
          g.child vb (omega arith) (omega arith)
          ∙ ap₂ child_pte (later pgdir vb x (omega arith) (omega arith))
              (later d vb y (omega arith) (omega arith))
    ];
    others = λ e vb z hb o.
        g.others e vb z hb (λ k. o (k.0, omega (arith, k.1), omega (arith, k.2)))
        ∙ f.others e vb z hb (λ k. o (k.0, k.1, omega (arith, k.2)));
    counts = Shared-suc_counts;
    fewer = λ v o. g.fewer v (f.fewer v o);
    bytes = λ v j hv hj o. g.bytes v j hv hj (f.fewer v o) ∙ f.bytes v j hv hj o;
  }

Shared-none :
    (kend : ℕ) (D : ℕ → Type 0) (free : List ℕ) (s : Vm) (pgdir d i : ℕ)
    → Shared kend D free free s s pgdir d i 0
unfolding shares
Shared-none kend D free s pgdir d i = record {
  parent = λ vb lo up. absurd (omega arith);
  child = λ vb lo up. absurd (omega arith);
  others = λ e vb z hb n. refl;
  counts = λ v hv n. omega arith;
  fewer = λ v n. n;
  bytes = λ v j hv hj n. refl;
}

Copied-join :
    (kend : ℕ) (D : ℕ → Type 0) (free more : List ℕ) (s t : Vm) (pgdir d i n : ℕ)
    (r : Outcome (Bool × Vm))
    → D pgdir
    → D d
    → i + suc n * 4096 ≤ u32_mod
    → Shared kend D free more s t pgdir d i 1
    → Copied kend D more t pgdir d (i + 4096) n r
    → Copied kend D free s pgdir d i (suc n) r
Copied-join kend D free more s t pgdir d i n (ok (true, u)) x y room f (rest, v, g) =
    (rest, v, Shared-suc kend D free more rest s t u pgdir d i n x y room f g)
Copied-join kend D free more s t pgdir d i n (ok (false, u)) x y room f h = h
Copied-join kend D free more s t pgdir d i n (panic m) x y room f h = h
Copied-join kend D free more s t pgdir d i n fault x y room f h = h
Copied-join kend D free more s t pgdir d i n out_of_fuel x y room f h = h

-- The pages that are left after the round that ended in `r`.
Copied-after :
    (kend : ℕ) (D : ℕ → Type 0) (free : List ℕ) (s : Vm) (pgdir d i n : ℕ) (r : Outcome (Bool × Vm))
    (next : Vm → Outcome (Bool × Vm))
    → D pgdir
    → D d
    → i + suc n * 4096 ≤ u32_mod
    → Copied kend D free s pgdir d i 1 r
    → ((more : List ℕ) (t : Vm)
        → IsValid kend D more t
        → Shared kend D free more s t pgdir d i 1
        → Copied kend D more t pgdir d (i + 4096) n (next t))
    → Copied kend D free s pgdir d i (suc n) (r >>= λ r. if r.0 then next r.1 else ok r)
Copied-after kend D free s pgdir d i n (ok (true, t)) next x y room (more, w, f) ih =
    Copied-join kend D free more s t pgdir d i n (next t) x y room f (ih more t w f)
Copied-after kend D free s pgdir d i n (ok (false, t)) next x y room h ih = h
Copied-after kend D free s pgdir d i n (panic m) next x y room h ih = h
Copied-after kend D free s pgdir d i n fault next x y room h ih = h
Copied-after kend D free s pgdir d i n out_of_fuel next x y room h ih = h

CanShare-fewer :
    (kend : ℕ) (free more : List ℕ) (e : ℕ)
    → ((v : ℕ) → NotIn v free → NotIn v more)
    → CanShare kend free e
    → CanShare kend more e
CanShare-fewer kend free more e h c = record {
  word = c.word;
  known = c.known;
  frame = λ p. ((c.frame p).0, h (p2v (pte_addr e)) (c.frame p).1);
}

-- On valid page tables of two directories, with the parent's pages from `i` up to `sz` present or in
-- the swap file, their frames pages of the kernel that are not free, and nothing mapped there in
-- the child: the loop of `copyuvm` never panics and its fuel is enough. It ends with all pages
-- shared, or out of memory, with no free page left. A page that was present then has the same entry
-- in parent and child, with the parent's frame and not writeable; every frame has gained as many
-- references as there are pages that share it; no entry elsewhere, in any directory, and no byte of
-- a page that was not free has changed.
pub copy_loop_lem :
    (kend : ℕ) (D : ℕ → Type 0) (free : List ℕ) (s : Vm) (pgdir d fuel sz n i : ℕ)
    → IsValid kend D free s
    → kernbase ≤ kend
    → D pgdir
    → D d
    → pgdir ≢ d
    → i % 4096 ≡ 0
    → i + n * 4096 ≤ kernbase
    → n ≡ (sz + 4095 - i) / 4096
    → n < fuel
    → ((vb : ℕ) → i ≤ vb → vb < i + n * 4096 → CanShare kend free (entry s pgdir vb))
    → ((vb : ℕ) → i ≤ vb → vb < i + n * 4096 → pte_p (entry s d vb) ≡ false)
    → Copied kend D free s pgdir d i n (copy_loop fuel kend pgdir d sz i s)
unfolding copy_loop
copy_loop_lem kend D free s pgdir d zero sz n i w base x y apart al up pages f can empty =
    absurd (omega arith)
copy_loop_lem kend D free s pgdir d (suc fuel) sz zero i w base x y apart al up pages f can empty =
    rw (le→leb sz i (omega arith)) (free, w, Shared-none kend D free s pgdir d i)
copy_loop_lem kend D free s pgdir d (suc fuel) sz (suc n) i w base x y apart al up pages f can
      empty =
    let next_page : add32 i pgsize ≡ i + 4096 = omega arith in
    rw (lt→leb_false sz i (omega arith), next_page)
      (Copied-after kend D free s pgdir d i n (copy_step kend pgdir d i s)
        (copy_loop fuel kend pgdir d sz (i + 4096)) x y (omega arith)
        (copy_step_lem kend D free s pgdir d i w base x y apart al (omega arith)
          (can i (omega arith) (omega arith)) (empty i (omega arith) (omega arith)))
        (λ more t v g.
          copy_loop_lem kend D more t pgdir d fuel sz n (i + 4096) v base x y apart (omega arith)
            (omega arith) (omega arith) (omega arith)
            (λ vb lo hi.
              subst (CanShare kend more)
                (sym (g.others pgdir vb x (omega arith) (λ o. omega (arith, o.2, lo))))
                (CanShare-fewer kend free more (entry s pgdir vb) g.fewer
                  (can vb (omega arith) (omega arith))))
            (λ vb lo hi.
              ap pte_p (g.others d vb y (omega arith) (λ o. omega (arith, o.2, lo)))
              ∙ empty vb (omega arith) (omega arith))))
