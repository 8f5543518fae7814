-- ===== src/Vm/Cow/Step.antt =====
-- A round of `copyuvm`: one page of the parent goes into the child, and its frame gains a reference.
use c_cpp_projects.Prelude.{
  ℕ, ◌+◌, ◌*◌, ◌/◌, ◌%◌, ◌<◌, ◌≤◌, ◌≡◌, ◌≢◌, ◌⊎◌, refl, sym, ap, ◌∙◌, Bool, true, false,
  if◌then◌else◌, List, [], arith, u32_mod, update_self, update_ne, ℕ_discrete, Bool-cases, ==_self,
  ==_of_ne, inl, inr, add32, Outcome, ok, panic, fault, out_of_fuel, ◌>>=◌, ◌==◌,
}
use c_cpp_projects.Vm.{Vm, pdx, ptx, pte_p, pte_pg, pte_addr, pte_flags, pte_of, mappages}
use c_cpp_projects.Vm.Shape.{table, HasTable, entry, IsValid}
use c_cpp_projects.Vm.Cow.{shared_pte, share_page, copy_step}
use c_cpp_projects.Kalloc.{
  Kmem, inc_ref_count, refs, frame, v2p, p2v, pgsize, kernbase, pground_down,
}
use c_cpp_projects.Kalloc.Chain.{IsPage}
use c_cpp_projects.Vm.Cow.Share.{CanShare, Shared, shares, parent_pte, child_pte, shared-pte_of}
use c_cpp_projects.Vm.Walk.{store, store-IsValid, IsValid-same, entry-store_self, entry-store_ne}
use c_cpp_projects.Vm.Frame.{Grows}
use c_cpp_projects.Vm.Counts.{set_count, inc_ref_count-ok}
use c_cpp_projects.Vm.Reading.{entry-HasTable, HasTable-of_entry, walkpgdir-found, place-ne}
use c_cpp_projects.Vm.Map.{Mapped, entry_of_page}
use c_cpp_projects.Vm.Mappages.{MapResult, mappages_lem}

-- A round ends with the page shared, or out of memory.
abbrev pub Copied : ℕ → (ℕ → Type 0) → List ℕ → Vm → ℕ → ℕ → ℕ → ℕ → Outcome (Bool × Vm) → Type 0
Copied kend D free s pgdir d i n (ok (true, t)) =
    (rest : List ℕ) × IsValid kend D rest t × Shared kend D free rest s t pgdir d i n
Copied kend D free s pgdir d i n (ok (false, t)) = IsValid kend D [] t
Copied kend D free s pgdir d i n (panic m) = ⊥
Copied kend D free s pgdir d i n fault = ⊥
Copied kend D free s pgdir d i n out_of_fuel = ⊥

-- One count more for the frame `pa`.
abbrev counted : Kmem → ℕ → Kmem
counted k pa = set_count k pa (add32 (k.page_refs_num (frame pa)) 1)

counted_lem :
    (kend v pa n : ℕ) (k : Kmem)
    → IsPage kend v
    → IsPage kend (p2v pa)
    → pa < u32_mod
    → pa % 4096 ≡ 0
    → refs k v ≡ n
    → refs (counted k pa) v % u32_mod ≡ (n + (if p2v pa == v then 1 else 0)) % u32_mod
counted_lem kend v pa n k hv hp h al e = elim (ℕ_discrete (frame (v2p v)) (frame pa)) [
  | yes q ↦
      let same : p2v pa ≡ v = omega (arith, hv.word, hv.below_top, hv.aligned, q) in
      let new : refs (counted k pa) v ≡ add32 (k.page_refs_num (frame pa)) 1 =
        rw (q) (update_self k.page_refs_num (frame pa) (add32 (k.page_refs_num (frame pa)) 1)) in
      let old : k.page_refs_num (frame pa) ≡ n = ap k.page_refs_num (sym q) ∙ e in
      let found : (p2v pa == v) ≡ true = rw (same) (==_self v) in
      rw (found) (omega (arith, new, old))
  | no q ↦
      let other : p2v pa ≢ v = λ x. q (omega (arith, x, h)) in
      let kept : refs (counted k pa) v ≡ refs k v =
        update_ne k.page_refs_num (frame pa) (frame (v2p v)) (add32 (k.page_refs_num (frame pa)) 1)
          q in
      rw (==_of_ne (p2v pa) v other) (omega (arith, kept, e))
]

entry_counted : (t : Vm) (k : Kmem) (e vb : ℕ) → entry (record t { kmem = k }) e vb ≡ entry t e vb
unfolding entry
entry_counted t k e vb = refl

-- The page at `i`, which is present in the parent and not in the child.
module _ (kend : ℕ) (D : ℕ → Type 0) (free : List ℕ) (s : Vm) (w : IsValid kend D free s)
    (base : kernbase ≤ kend) (pgdir d i : ℕ) (x : D pgdir) (y : D d) (apart : pgdir ≢ d)
    (al : i % 4096 ≡ 0) (hi : i < u32_mod) (can : CanShare kend free (entry s pgdir i))
    (present : pte_p (entry s pgdir i) ≡ true) (h : HasTable s pgdir (pdx i)) where
  abbrev e_i : ℕ
  e_i = entry s pgdir i

  abbrev s1 : Vm
  s1 = store s pgdir i (shared_pte e_i)

  parent-same : (vb : ℕ) → vb / 4096 ≡ i / 4096 → shared_pte e_i ≡ parent_pte (entry s pgdir vb)
  parent-same vb q = rw (entry_of_page s pgdir vb i q, present) refl

  child-same : (vb c : ℕ) → vb / 4096 ≡ i / 4096 → shared_pte e_i ≡ child_pte (entry s pgdir vb) c
  child-same vb c q = rw (entry_of_page s pgdir vb i q, present) refl

  -- The parent's entry changed, and `d` mapped: together the page is shared.
  Shared-Mapped :
      (rest : List ℕ) (t : Vm)
      → Grows kend free rest s1 t
      → Mapped D s1 t d i 1 (pte_addr e_i) (pte_flags (shared_pte e_i))
      → Shared kend D free rest s (record t { kmem = counted t.kmem (pte_addr e_i) }) pgdir d i 1
  unfolding shares
  Shared-Mapped rest t g m = record {
    parent = λ vb lo up.
        entry_counted t (counted t.kmem (pte_addr e_i)) pgdir vb
        ∙ (m.outside pgdir vb x (omega arith) (λ o. apart o.0)
            ∙ (entry_of_page s1 pgdir vb i (omega arith)
                ∙ (entry-store_self kend D free s w pgdir i (shared_pte e_i) x h
                    ∙ parent-same vb (omega arith))));
    child = λ vb lo up.
        entry_counted t (counted t.kmem (pte_addr e_i)) d vb
        ∙ (m.inside vb lo up
            ∙ (ap (λ z. pte_of z (pte_flags (shared_pte e_i))) (omega arith)
                ∙ (shared-pte_of e_i can.word present
                    ∙ child-same vb (entry s d vb) (omega arith))));
    others = λ e vb z hb n.
        entry_counted t (counted t.kmem (pte_addr e_i)) e vb
        ∙ (m.outside e vb z hb (λ o. n (inr o.0, o.1, o.2))
            ∙ entry-store_ne kend D free s w pgdir i (shared_pte e_i) e vb x z hi hb h
                (λ o. n (inl o.0, omega (arith, o.1), omega (arith, o.1))));
    counts = λ v hv n. rw (present) (
        counted_lem kend v (pte_addr e_i) (refs s.kmem v) t.kmem hv (can.frame present).0
          (omega (arith, can.word)) (omega arith) (g.counts v hv n)
        ∙ omega arith);
    fewer = g.fewer;
    bytes = g.bytes;
  }

  -- What follows `mappages` in the round.
  share_mapped :
      (r : Outcome (Bool × Vm))
      → pte_p (entry s d i) ≡ false
      → MapResult kend D free s1 d i 0 (pte_addr e_i) (pte_flags (shared_pte e_i)) r
      → Copied kend D free s pgdir d i 1 (
          r >>= λ r.
          if r.0
          then (inc_ref_count kend (pte_addr e_i) r.1.kmem >>= λ k.
              ok (true, record r.1 { kmem = k }))
          else ok r)
  share_mapped (ok (true, t)) empty (rest, v, g, absent, m) =
      rw
        (inc_ref_count-ok kend (pte_addr e_i) t.kmem base (omega (arith, can.word))
          (can.frame present).0)
        (
          rest,
          IsValid-same kend D rest t (record t { kmem = counted t.kmem (pte_addr e_i) }) v v.chain
              (λ e j z hj. refl),
          Shared-Mapped rest t g m,
        )
  share_mapped (ok (false, t)) empty (m, v, g, le, f) = v
  share_mapped (panic m) empty (e, (vb, lo, up, q)) =
      let same : entry s1 d vb ≡ entry s d i =
        entry_of_page s1 d vb i (omega arith)
        ∙ entry-store_ne kend D free s w pgdir i (shared_pte e_i) d i x y hi hi h
            (λ o. apart (sym o.0)) in
      let clash : true ≡ false = sym q ∙ (ap pte_p same ∙ empty) in cc
  share_mapped fault empty h = h
  share_mapped out_of_fuel empty h = h

  pub share_page_lem :
      pte_p (entry s d i) ≡ false
      → Copied kend D free s pgdir d i 1 (share_page kend d (table s pgdir (pdx i) + 4 * ptx i) i s)
  unfolding share_page
  share_page_lem empty =
      let page : pground_down i ≡ i = omega arith in
      let m =
        mappages_lem kend D 0 free s1 d i pgsize (pte_addr e_i) (pte_flags (shared_pte e_i))
          (store-IsValid kend D free s w pgdir i (shared_pte e_i) x h) y (omega arith) (omega arith)
          (omega arith) (omega (arith, can.word)) in
      rw (sym (entry-HasTable s pgdir i h)) (
        share_mapped (mappages d i pgsize (pte_addr e_i) (pte_flags (shared_pte e_i)) s1) empty
          (rw (page) at m))

known-ne : (e : ℕ) → (pte_p e ≡ true) ⊎ (pte_pg e ≡ true) → e ≢ 0
known-ne e (inl p) z = ground (arith, p, z)
known-ne e (inr p) z = ground (arith, p, z)

known_absent : (e : ℕ) → (pte_p e ≡ true) ⊎ (pte_pg e ≡ true) → pte_p e ≡ false → pte_pg e ≡ true
known_absent e (inl p) q = let clash : true ≡ false = sym p ∙ q in cc
known_absent e (inr p) q = p

-- A page that is not present stays as it is, on both sides.
Shared-absent :
    (kend : ℕ) (D : ℕ → Type 0) (free : List ℕ) (s : Vm) (pgdir d i : ℕ)
    → i % 4096 ≡ 0
    → pte_p (entry s pgdir i) ≡ false
    → Shared kend D free free s s pgdir d i 1
unfolding shares
Shared-absent kend D free s pgdir d i al q = record {
  parent = λ vb lo up.
      let same : entry s pgdir vb ≡ entry s pgdir i = entry_of_page s pgdir vb i (omega arith) in
      let absent : pte_p (entry s pgdir vb) ≡ false = ap pte_p same ∙ q in rw (absent) refl;
  child = λ vb lo up.
      let same : entry s pgdir vb ≡ entry s pgdir i = entry_of_page s pgdir vb i (omega arith) in
      let absent : pte_p (entry s pgdir vb) ≡ false = ap pte_p same ∙ q in rw (absent) refl;
  others = λ e vb z hb n. refl;
  counts = λ v hv n. rw (q) (omega arith);
  fewer = λ v n. n;
  bytes = λ v j hv hj n. refl;
}

-- A round on a page that is present in the parent or in its swap file, and not in the child.
pub copy_step_lem :
    (kend : ℕ) (D : ℕ → Type 0) (free : List ℕ) (s : Vm) (pgdir d i : ℕ)
    → IsValid kend D free s
    → kernbase ≤ kend
    → D pgdir
    → D d
    → pgdir ≢ d
    → i % 4096 ≡ 0
    → i < u32_mod
    → CanShare kend free (entry s pgdir i)
    → pte_p (entry s d i) ≡ false
    → Copied kend D free s pgdir d i 1 (copy_step kend pgdir d i s)
unfolding copy_step
copy_step_lem kend D free s pgdir d i w base x y apart al hi can empty =
    let some : entry s pgdir i ≢ 0 = known-ne (entry s pgdir i) can.known in
    let h : HasTable s pgdir (pdx i) = HasTable-of_entry s pgdir i some in
    rw
      (
        walkpgdir-found s pgdir i h,
        ==_of_ne (table s pgdir (pdx i) + 4 * ptx i) 0 (place-ne kend D free s pgdir i w x h),
      )
      (let at : s.word (table s pgdir (pdx i) + 4 * ptx i) ≡ entry s pgdir i =
          sym (entry-HasTable s pgdir i h) in
        elim (Bool-cases (pte_p (entry s pgdir i))) [
          | inl p ↦
              rw (ap pte_p at ∙ p)
                (share_page_lem kend D free s w base pgdir d i x y apart al hi can p h empty)
          | inr p ↦
              rw (ap pte_p at ∙ p, ap pte_pg at ∙ known_absent (entry s pgdir i) can.known p)
                (free, w, Shared-absent kend D free s pgdir d i al p)
        ])
