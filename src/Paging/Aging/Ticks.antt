-- ===== src/Paging/Aging/Ticks.antt =====
-- What `agingPages` makes of the ages of the pages.
use c_cpp_projects.Prelude.{
  ℕ, ◌+◌, ◌*◌, ◌/◌, ◌^◌, ◌<◌, ◌≡◌, ◌≢◌, refl, ap, ap₂, subst, map, Bool-cases, inl, inr, ◌∙◌, sym,
  List, [], ◌∷◌, Option, none, some, arith, ◌==◌, ==_of_ne, ==_iff, if◌then◌else◌, ok, bit, bit_on,
  update, update_ne, ℕ_discrete, All, NotIn, Distinct,
}
use c_cpp_projects.Paging.{Page, Proc, accessed}
use c_cpp_projects.Paging.Access.{load_pte-ok}
use c_cpp_projects.Paging.Aging.{aged, after_look, aging_from, aging_pages}
use c_cpp_projects.Paging.Aging.Marks.{Unmarked, Unmarked-look}

-- An allocated page has an entry in the page table, and an age that is a machine word.
pub record CanAge (pte : ℕ → Option ℕ) (g : Page) : Type 0 where
  pub mapped : g.is_allocated ≡ 1 → (e : ℕ) × (pte (g.v_address / 4096) ≡ some e)
  pub word : g.age < 2 ^ 32

-- The pages of the address space that the allocated entries describe.
abbrev pub addresses : List Page → List ℕ
addresses [] = []
addresses (g ∷ gs) = if g.is_allocated == 1 then g.v_address / 4096 ∷ addresses gs else addresses gs

-- What one tick makes of an entry.
pub ticked : (ℕ → Option ℕ) → Page → Page
ticked pte g =
    if g.is_allocated == 1
    then elim (pte (g.v_address / 4096)) [
      | none ↦ g
      | some e ↦ record g { age = g.age / 2 + 2 ^ 31 * bit e 5 }
    ]
    else g

addresses-allocated :
    (g : Page) (gs : List Page)
    → g.is_allocated ≡ 1
    → addresses (g ∷ gs) ≡ g.v_address / 4096 ∷ addresses gs
addresses-allocated g gs e = rw e refl

addresses-free :
    (g : Page) (gs : List Page) → g.is_allocated ≢ 1 → addresses (g ∷ gs) ≡ addresses gs
addresses-free g gs ne = rw (==_of_ne g.is_allocated 1 ne) refl

allocated_out :
    (g : Page) (v : ℕ) (gs : List Page)
    → g.is_allocated ≡ 1
    → NotIn v (addresses (g ∷ gs))
    → (g.v_address / 4096 ≢ v) × NotIn v (addresses gs)
allocated_out g v gs e out = subst (NotIn v) (addresses-allocated g gs e) out

free_out :
    (g : Page) (v : ℕ) (gs : List Page)
    → g.is_allocated ≢ 1
    → NotIn v (addresses (g ∷ gs))
    → NotIn v (addresses gs)
free_out g v gs ne out = subst (NotIn v) (addresses-free g gs ne) out

ticked_free : (pte : ℕ → Option ℕ) (g : Page) → g.is_allocated ≢ 1 → ticked pte g ≡ g
unfolding ticked
ticked_free pte g ne = rw (==_of_ne g.is_allocated 1 ne) refl

CanAge-update :
    (pte : ℕ → Option ℕ) (v : ℕ) (o : Option ℕ) (gs : List Page)
    → NotIn v (addresses gs)
    → All (CanAge pte) gs
    → All (CanAge (update pte v o)) gs
CanAge-update pte v o [] out h = tt
CanAge-update pte v o (g ∷ gs) out (c, h) = elim (ℕ_discrete g.is_allocated 1) [
  | yes e ↦
      let (ne, out') = allocated_out g v gs e out in
      (
        record {
          mapped = λ a.
              let (f, entry) = c.mapped a in (f, update_ne pte v (g.v_address / 4096) o ne ∙ entry);
          word = c.word;
        },
        CanAge-update pte v o gs out' h,
      )
  | no ne ↦ (
    record { mapped = λ a. absurd (ne a); word = c.word },
    CanAge-update pte v o gs (free_out g v gs ne out) h,
  )
]

ticked-update :
    (pte : ℕ → Option ℕ) (v : ℕ) (o : Option ℕ) (gs : List Page)
    → NotIn v (addresses gs)
    → map (ticked (update pte v o)) gs ≡ map (ticked pte) gs
unfolding ticked
ticked-update pte v o [] out = refl
ticked-update pte v o (g ∷ gs) out = elim (ℕ_discrete g.is_allocated 1) [
  | yes e ↦
      let (ne, out') = allocated_out g v gs e out in
      ap₂ ◌∷◌
        (ap
          (λ (r : Option ℕ).
            if g.is_allocated == 1
            then elim r [ none ↦ g | some f ↦ record g { age = g.age / 2 + 2 ^ 31 * bit f 5 } ]
            else g)
          (update_ne pte v (g.v_address / 4096) o ne))
        (ticked-update pte v o gs out')
  | no ne ↦
      ap₂ ◌∷◌ (ticked_free (update pte v o) g ne ∙ sym (ticked_free pte g ne))
        (ticked-update pte v o gs (free_out g v gs ne out))
]

-- The effect of one look on the entries behind.
look-spares :
    (pte : ℕ → Option ℕ) (g : Page) (e : ℕ) (gs : List Page)
    → NotIn (g.v_address / 4096) (addresses gs)
    → All (CanAge pte) gs
    → All (CanAge (after_look pte g e)) gs
      × (map (ticked (after_look pte g e)) gs ≡ map (ticked pte) gs)
look-spares pte g e gs out h = elim (Bool-cases (accessed e)) [
  | inl a ↦ rw a (CanAge-update pte _ _ gs out h, ticked-update pte _ _ gs out)
  | inr a ↦ rw a (h, refl)
]

aged-ticked :
    (pte : ℕ → Option ℕ) (g : Page) (e : ℕ)
    → g.age < 2 ^ 32
    → g.is_allocated ≡ 1
    → pte (g.v_address / 4096) ≡ some e
    → aged g e ≡ ticked pte g
unfolding ticked
aged-ticked pte g e word a entry =
    ap (λ n. record g { age = n }) shifted ∙ sym (rw ((==_iff g.is_allocated 1).1 a, entry) refl)
  where
    shifted :
        (if accessed e then bit_on (g.age / 2) 31 else g.age / 2) ≡ g.age / 2 + 2 ^ 31 * bit e 5
    shifted = ground arith

aging_from_lem :
    (gs : List Page) (pte : ℕ → Option ℕ)
    → All (CanAge pte) gs
    → Distinct (addresses gs)
    → (pte' : ℕ → Option ℕ) × (aging_from gs pte ≡ ok (map (ticked pte) gs, pte'))
      × Unmarked pte pte' (addresses gs)
unfolding aging_from
aging_from_lem [] pte h d = (pte, refl, record { cleared = tt; others = λ v out. refl })
aging_from_lem (g ∷ gs) pte (c, h) d = elim (ℕ_discrete g.is_allocated 1) [
  | yes a ↦
      let (e, entry) = c.mapped a in
      let d' = subst Distinct (addresses-allocated g gs a) d in
      let (c', same) = look-spares pte g e gs d'.0 h in
      let (pte', run, unmarked) = aging_from_lem gs (after_look pte g e) c' d'.1 in
      (
        pte',
        rw ((==_iff g.is_allocated 1).1 a, load_pte-ok pte g.v_address e entry, run)
            (ap₂ (λ x xs. ok (x ∷ xs, pte')) (aged-ticked pte g e c.word a entry) same),
        subst (Unmarked pte pte') (sym (addresses-allocated g gs a))
            (Unmarked-look pte pte' g e (addresses gs) entry d'.0 unmarked),
      )
  | no ne ↦
      let (pte', run, unmarked) =
        aging_from_lem gs pte h (subst Distinct (addresses-free g gs ne) d) in
      (
        pte',
        rw (==_of_ne g.is_allocated 1 ne, run, ticked_free pte g ne) refl,
        subst (Unmarked pte pte') (sym (addresses-free g gs ne)) unmarked,
      )
]

-- With every allocated entry mapped, at addresses that differ, `agingPages` does not fail: at once for
-- all entries, it halves the age of each allocated page and adds 2 ^ 31 to it just if the page's
-- accessed bit is set, and clears that bit in the page table. Entries that are not allocated, the
-- rest of the page table, the queues and the offset of the swap file stay.
pub aging_pages_lem :
    (p : Proc)
    → All (CanAge p.pte) p.pages
    → Distinct (addresses p.pages)
    → (q : Proc) × (aging_pages p ≡ ok q)
      × (q.pages ≡ map (ticked p.pte) p.pages)
      × Unmarked p.pte q.pte (addresses p.pages)
      × (q.ram_queue ≡ p.ram_queue)
      × (q.offset_queue ≡ p.offset_queue)
      × (q.file_offset ≡ p.file_offset)
unfolding aging_pages
aging_pages_lem p h d =
    let (pte, run, unmarked) = aging_from_lem p.pages p.pte h d in
    (
      record p { pages = map (ticked p.pte) p.pages; pte = pte },
      rw run refl,
      refl,
      unmarked,
      refl,
      refl,
      refl,
    )
