-- ===== src/Kalloc/Range.antt =====
-- The loop of `freerange` of kalloc.c.
use c_cpp_projects.Prelude.{
  ℕ, zero, suc, ◌+◌, ◌-◌, ◌*◌, ◌/◌, ◌%◌, ◌≤◌, ◌<◌, ◌≡◌, refl, List, [], ◌∷◌, length, arith, ok,
  update, All, NotIn, All-mono, lt→leb_false, le→leb,
}
use c_cpp_projects.Kalloc.{Kmem, kfree, v2p, frame, kernbase, pground_up, freerange_loop, freerange}
use c_cpp_projects.Kalloc.Chain.{IsPage, IsValid}
use c_cpp_projects.Kalloc.Free.{kfree-released}

-- `free` with the `n` pages from `p` on pushed, one after the other.
abbrev pub pushed : ℕ → ℕ → List ℕ → List ℕ
pushed p zero free = free
pushed p (suc n) free = pushed (p + 4096) n (p ∷ free)

pub length-pushed : (n p : ℕ) (free : List ℕ) → length (pushed p n free) ≡ n + length free
length-pushed zero p free = omega arith
length-pushed (suc n) p free = omega (arith, length-pushed n (p + 4096) (p ∷ free))

NotIn-of_below : (p : ℕ) (xs : List ℕ) → All (λ x. x < p) xs → NotIn p xs
NotIn-of_below p [] h = tt
NotIn-of_below p (x ∷ xs) h = (omega arith, NotIn-of_below p xs h.1)

unreferenced-clear :
    (i : ℕ) (f : ℕ → ℕ) (xs : List ℕ)
    → All (λ x. f (frame (v2p x)) ≡ 0) xs
    → All (λ x. update f i 0 (frame (v2p x)) ≡ 0) xs
unreferenced-clear i f [] h = tt
unreferenced-clear i f (x ∷ xs) h = (ground arith, unreferenced-clear i f xs h.1)

-- What the loop starts from: `p` is a page boundary in the memory that the kernel manages, the free
-- pages lie below it, and no page from it on is referred to.
pub record Ready (kend p vend : ℕ) (s : Kmem) (free : List ℕ) : Type 0 where
  pub valid : IsValid kend s free
  pub aligned : p % 4096 ≡ 0
  pub above : kend ≤ p
  pub kernel : kernbase ≤ p
  pub top : vend ≤ 0x8e00_0000
  pub below : All (λ x. x < p) free
  pub unused : (i : ℕ) → frame (v2p p) ≤ i → s.page_refs_num i ≡ 0

module _ {kend p vend : ℕ} {s : Kmem} {free : List ℕ} where
  Ready-IsPage : Ready kend p vend s free → p + 4096 ≤ vend → IsPage kend p
  Ready-IsPage r h = record {
    word = omega arith;
    aligned = omega arith;
    above_end = r.above;
    below_top = omega arith;
  }

  -- One round of the loop.
  Ready-step :
      Ready kend p vend s free
      → p + 4096 ≤ vend
      → (t : Kmem) × (kfree kend p s ≡ ok t)
        × Ready kend
            (p + 4096)
            vend
            (record t { page_refs_num = update t.page_refs_num (frame (v2p p)) 0 })
            (p ∷ free)
  Ready-step r h =
      let (t, run, u, same) =
        kfree-released kend p s free r.valid (Ready-IsPage r h) (NotIn-of_below p free r.below)
          (r.unused (frame (v2p p)) (omega arith)) in
      (
        t,
        run,
        record {
          valid = record {
            chain = u.chain;
            counted = u.counted;
            unreferenced =
                unreferenced-clear (frame (v2p p)) t.page_refs_num (p ∷ free) u.unreferenced;
            pages = u.pages;
          };
          aligned = omega (arith, r.aligned);
          above = omega (arith, r.above);
          kernel = omega (arith, r.kernel);
          top = r.top;
          below = (omega arith, All-mono free (λ x lt. omega arith) r.below);
          unused = λ i le. ground (arith, same i, r.unused i);
        },
      )

freerange_loop_lem :
    (kend fuel n p q vend : ℕ) (s : Kmem) (free : List ℕ)
    → Ready kend p vend s free
    → p + n * 4096 ≡ q
    → q ≤ vend
    → vend < q + 4096
    → n < fuel
    → (t : Kmem) × (freerange_loop kend fuel p vend s ≡ ok t)
      × Ready kend q vend t (pushed p n free)
unfolding freerange_loop
freerange_loop_lem kend zero n p q vend s free r e lo hi f = absurd (omega arith)
freerange_loop_lem kend (suc fuel) zero p q vend s free r e lo hi f =
    let e' : p ≡ q = omega arith in
    (s, rw (lt→leb_false (p + 4096) vend (omega arith)), rw (← e') r)
freerange_loop_lem kend (suc fuel) (suc n) p q vend s free r e lo hi f =
    let (t, run, next) = Ready-step r (omega arith) in
    let (u, rest, done) =
      freerange_loop_lem kend fuel n (p + 4096) q vend _ (p ∷ free) next (omega arith) lo hi
        (omega arith) in
    (u, rw (le→leb (p + 4096) vend (omega arith), run) rest, done)

-- The first address that `freerange` does not reach.
abbrev pub last : ℕ → ℕ → ℕ
last p vend = p + (vend - p) / 4096 * 4096

pub freerange_lem :
    (kend vstart vend : ℕ) (s : Kmem) (free : List ℕ)
    → let p = pground_up vstart in
      Ready kend p vend s free
      → p ≤ vend
      → (t : Kmem) × (freerange kend vstart vend s ≡ ok t)
        × Ready kend (last p vend) vend t (pushed p ((vend - p) / 4096) free)
unfolding freerange
freerange_lem kend vstart vend s free r h =
    freerange_loop_lem kend _ ((vend - p) / 4096) p _ vend s free r refl (omega arith) (omega arith)
      (omega arith)
  where
    p : ℕ
    p = pground_up vstart

-- The next call starts where this one stopped.
pub Ready-widen :
    {kend p q vend : ℕ} {s : Kmem} {free : List ℕ}
    → p ≡ q
    → Ready kend p vend s free
    → Ready kend q 0x8e00_0000 s free
Ready-widen e r = record {
  valid = r.valid;
  aligned = omega (arith, r.aligned);
  above = omega (arith, r.above);
  kernel = omega (arith, r.kernel);
  top = omega arith;
  below = rw (← e) r.below;
  unused = rw (← e) r.unused;
}
