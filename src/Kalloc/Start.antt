-- ===== src/Kalloc/Start.antt =====
-- The start of the allocator: `kinit1` and `kinit2`, and the pages that main.c takes in between.
use c_cpp_projects.Prelude.{
  u32_mod, ◌≢◌, ap, ◌∙◌, drop, length-drop, update_ne, ℕ, zero, suc, ◌+◌, ◌-◌, ◌/◌, ◌%◌, ◌≤◌, ◌<◌,
  ◌≡◌, refl, List, [], ◌∷◌, length, arith, ok, update, true, false,
}
use c_cpp_projects.Kalloc.{
  Kmem, v2p, frame, kernbase, pground_up, number_of_free_pages, boot, boot_first, take_pages,
  kalloc,
}
use c_cpp_projects.Kalloc.Chain.{IsPage, IsValid, FreeList-update}
use c_cpp_projects.Kalloc.Alloc.{kalloc_lem}
use c_cpp_projects.Kalloc.Range.{pushed, length-pushed, Ready, last, freerange_lem, Ready-widen}

abbrev cleared : Kmem → Kmem
cleared s = record s { use_lock = false; amount_of_free_pages = 0 }

-- A page below `q` has a lower frame.
higher :
    (kend v q i : ℕ)
    → kernbase ≤ kend
    → q ≤ 0x8e00_0000
    → IsPage kend v
    → q % 4096 ≡ 0
    → v < q
    → frame (v2p q) ≤ i
    → i ≢ frame (v2p v)
higher kend v q i lo hi page e lt le same =
    omega (arith, page.aligned, page.above_end, lo, hi, e, lt, le, same)

free_count :
    (a total rest first all low k m : ℕ)
    → a ≡ total % u32_mod
    → total ≡ 0xdc00 + rest
    → rest ≡ first - m
    → first ≡ all - k
    → all ≡ low
    → k + m ≤ low
    → low ≤ 0x400
    → a ≡ 0xdc00 + (low - (k + m))
free_count a total rest first all low k m h1 h2 h3 h4 h5 h6 h7 = omega arith

-- A page is taken, and its first word is overwritten.
Ready-taken :
    (kend q vend v w : ℕ) (s : Kmem) (free : List ℕ)
    → kernbase ≤ kend
    → q ≤ 0x8e00_0000
    → Ready kend q vend s (v ∷ free)
    → let t = (kalloc s).1 in
      ((kalloc s).0 ≡ v) × Ready kend q vend (record t { next = update t.next v w }) free
Ready-taken kend q vend v w s free lo hi r =
    let (p, page, out, valid, counts) = kalloc_lem kend s (v ∷ free) r.valid in
    (
      p,
      record {
        valid = record {
          chain = FreeList-update (kalloc s).1.next v w (kalloc s).1.freelist free out valid.chain;
          counted = valid.counted;
          unreferenced = valid.unreferenced;
          pages = valid.pages;
        };
        aligned = r.aligned;
        above = r.above;
        kernel = r.kernel;
        top = r.top;
        below = r.below.1;
        unused = λ i le.
            ap (λ (f : ℕ → ℕ). f i) counts
            ∙ (update_ne s.page_refs_num (frame (v2p v)) i 1
                  (higher kend v q i lo hi page r.aligned r.below.0 le)
                ∙ r.unused i le);
      },
    )

take_pages_lem :
    (n kend q vend : ℕ) (word : ℕ → ℕ) (s : Kmem) (free : List ℕ)
    → kernbase ≤ kend
    → q ≤ 0x8e00_0000
    → n ≤ length free
    → Ready kend q vend s free
    → Ready kend q vend (take_pages word n s) (drop n free)
unfolding take_pages
take_pages_lem zero kend q vend word s free lo hi some r = r
take_pages_lem (suc n) kend q vend word s [] lo hi some r = absurd (omega arith)
take_pages_lem (suc n) kend q vend word s (v ∷ free) lo hi some r =
    let (p, next) = Ready-taken kend q vend v (word v) s free lo hi r in
    rw (p) (take_pages_lem n kend q vend word _ free lo hi (omega arith) next)

-- The machine at boot, with `end` in the first 4 MB of the kernel: no page is listed, and the counts
-- are zero as C initialises them. `kvmalloc` takes `k` pages and `startothers` takes `m`, no more than
-- there are up to 4 MB, and whatever they write in them. Then `kinit1` and `kinit2` succeed, and leave
-- a valid allocator: the free pages are those from the end of the kernel to 4 MB but for the `k + m`
-- highest, which were taken, and all those from 4 MB to the top of physical memory, each once, with
-- their number.
pub boot_lem :
    (kend k m : ℕ) (word : ℕ → ℕ) (s : Kmem)
    → kernbase ≤ kend
    → kend ≤ 0x8040_0000
    → s.freelist ≡ 0
    → ((i : ℕ) → s.page_refs_num i ≡ 0)
    → let p = pground_up kend in
      let low = (0x8040_0000 - p) / 4096 in
      k + m ≤ low
      → (t : Kmem) × (boot kend word k m s ≡ ok t)
        × IsValid kend t (pushed 0x8040_0000 0xdc00 (drop m (drop k (pushed p low []))))
        × (number_of_free_pages t ≡ 0xdc00 + (low - (k + m)))
unfolding boot boot_first number_of_free_pages
boot_lem kend k m word s lo hi none zeros enough =
    let (t, run, r) = freerange_lem kend kend 0x8040_0000 (cleared s) [] start (omega arith) in
    let first : Ready kend (last p 0x8040_0000) 0x8040_0000 (take_pages word k t) (drop k listed) =
      take_pages_lem k kend _ _ word t listed lo (omega arith) (omega (arith, count)) r in
    let second : Ready kend (last p 0x8040_0000) 0x8040_0000
        (take_pages word m (take_pages word k t)) (drop m (drop k listed)) =
      take_pages_lem m kend _ _ word _ (drop k listed) lo (omega arith)
        (omega (arith, count, length-drop k listed)) first in
    let (u, run', r') =
      freerange_lem kend 0x8040_0000 0x8e00_0000 (take_pages word m (take_pages word k t))
        (drop m (drop k listed)) (Ready-widen (omega arith) second) (omega arith) in
    (
      record u { use_lock = true },
      rw (run, run') refl,
      record {
        chain = r'.valid.chain;
        counted = r'.valid.counted;
        unreferenced = r'.valid.unreferenced;
        pages = r'.valid.pages;
      },
      free_count u.amount_of_free_pages _ _ _ _ n1 k m r'.valid.counted
          (length-pushed 0xdc00 0x8040_0000 (drop m (drop k listed)))
          (length-drop m (drop k listed)) (length-drop k listed) count enough (omega arith),
    )
  where
    p : ℕ
    p = pground_up kend

    n1 : ℕ
    n1 = (0x8040_0000 - p) / 4096

    listed : List ℕ
    listed = pushed p n1 []

    count : length listed ≡ n1
    count = omega (arith, length-pushed n1 p [])

    start : Ready kend (pground_up kend) 0x8040_0000 (cleared s) []
    start = record {
      valid = record { chain = none; counted = refl; unreferenced = tt; pages = tt };
      aligned = omega arith;
      above = omega arith;
      kernel = omega arith;
      top = omega arith;
      below = tt;
      unused = λ i _. zeros i;
    }
