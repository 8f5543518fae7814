-- ===== src/Paging/Aging/Marks.antt =====
-- What `agingPages` makes of the accessed bits in the page table.
use c_cpp_projects.Prelude.{
  ℕ, ◌*◌, ◌/◌, ◌^◌, ◌≡◌, ◌≢◌, refl, ap, Bool-cases, inl, inr, ◌∙◌, sym, List, [], ◌∷◌, Option, none,
  some, arith, bit, update_self, ◌-◌, false, update_ne, All, NotIn,
}
use c_cpp_projects.Paging.{Page, accessed, pte_a_off}
use c_cpp_projects.Paging.Aging.{after_look}

-- The word of the entry without its accessed bit.
abbrev pub unaccessed : ℕ → ℕ
unaccessed e = e - 2 ^ 5 * bit e 5

abbrev pub cleared_bit : Option ℕ → Option ℕ
cleared_bit none = none
cleared_bit (some e) = some (unaccessed e)

-- In `pte'` the accessed bit is cleared in the entries of the pages, and the other entries are those
-- of `pte`.
pub record Unmarked (pte pte' : ℕ → Option ℕ) (vs : List ℕ) : Type 0 where
  pub cleared : All (λ v. pte' v ≡ cleared_bit (pte v)) vs
  pub others : (v : ℕ) → NotIn v vs → pte' v ≡ pte v

look_lem :
    (pte : ℕ → Option ℕ) (g : Page) (e : ℕ)
    → pte (g.v_address / 4096) ≡ some e
    → (after_look pte g e (g.v_address / 4096) ≡ some (unaccessed e))
      × ((w : ℕ) → w ≢ g.v_address / 4096 → after_look pte g e w ≡ pte w)
look_lem pte g e entry = elim (Bool-cases (accessed e)) [
  | inl a ↦ rw a (
    update_self pte (g.v_address / 4096) (some (pte_a_off e)),
    λ w n. update_ne pte (g.v_address / 4096) w (some (pte_a_off e)) n,
  )
  | inr a ↦ rw a (entry ∙ ap some (clear e a), λ w n. refl)
]
  where
    clear : (e : ℕ) → accessed e ≡ false → e ≡ unaccessed e
    clear e a = ground (arith, a)

cleared_before :
    (pte mid pte' : ℕ → Option ℕ) (v : ℕ) (vs : List ℕ)
    → ((w : ℕ) → w ≢ v → mid w ≡ pte w)
    → NotIn v vs
    → All (λ w. pte' w ≡ cleared_bit (mid w)) vs
    → All (λ w. pte' w ≡ cleared_bit (pte w)) vs
cleared_before pte mid pte' v [] same out h = tt
cleared_before pte mid pte' v (w ∷ vs) same out h =
    (h.0 ∙ ap cleared_bit (same w out.0), cleared_before pte mid pte' v vs same out.1 h.1)

-- A page, and then the others.
pub Unmarked-look :
    (pte pte' : ℕ → Option ℕ) (g : Page) (e : ℕ) (vs : List ℕ)
    → pte (g.v_address / 4096) ≡ some e
    → NotIn (g.v_address / 4096) vs
    → Unmarked (after_look pte g e) pte' vs
    → Unmarked pte pte' (g.v_address / 4096 ∷ vs)
Unmarked-look pte pte' g e vs entry out h =
    let (here, elsewhere) = look_lem pte g e entry in
    record {
      cleared = (
        h.others (g.v_address / 4096) out ∙ (here ∙ sym (ap cleared_bit entry)),
        cleared_before pte (after_look pte g e) pte' (g.v_address / 4096) vs elsewhere out
            h.cleared,
      );
      others = λ w far. h.others w far.1 ∙ elsewhere w (λ q. far.0 (sym q));
    }
