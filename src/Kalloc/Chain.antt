-- ===== src/Kalloc/Chain.antt =====
-- The free list as a chain of pages through memory, and the invariant of the allocator.
use c_cpp_projects.Prelude.{
  ℕ, ◌≤◌, ◌<◌, ◌%◌, ◌≡◌, ◌≢◌, List, [], ◌∷◌, arith, length, u32_mod, update, All, NotIn,
}
use c_cpp_projects.Kalloc.{Kmem, refs, pgsize, phystop, v2p, frame}

-- From `p` the links lead through the distinct pages of the list to null.
abbrev pub FreeList : (ℕ → ℕ) → ℕ → List ℕ → Type 0
FreeList next p [] = p ≡ 0
FreeList next p (x ∷ xs) = (p ≡ x) × (x ≢ 0) × NotIn x xs × FreeList next (next x) xs

-- What the guard of `kfree` lets through.
pub record IsPage (kend v : ℕ) : Type 0 where
  pub word : v < u32_mod
  pub aligned : v % pgsize ≡ 0
  pub above_end : kend ≤ v
  pub below_top : v2p v < phystop

-- The allocator holds just the free pages listed, counts them, and nobody refers to them.
pub record IsValid (kend : ℕ) (s : Kmem) (free : List ℕ) : Type 0 where
  pub chain : FreeList s.next s.freelist free
  pub counted : s.amount_of_free_pages ≡ length free % u32_mod
  pub unreferenced : All (λ x. refs s x ≡ 0) free
  pub pages : All (IsPage kend) free

pub FreeList-update :
    (next : ℕ → ℕ) (v q p : ℕ) (xs : List ℕ)
    → NotIn v xs
    → FreeList next p xs
    → FreeList (update next v q) p xs
FreeList-update next v q p [] out c = c
FreeList-update next v q p (x ∷ xs) out c =
    ground (arith, FreeList-update next v q (next x) xs out.1 c.3)

-- Two pages with one frame number are one page.
pub frame_injective :
    (kend v x : ℕ) → IsPage kend v → IsPage kend x → frame (v2p v) ≡ frame (v2p x) → v ≡ x
frame_injective kend v x p q e = omega arith

-- An update of a count spares the pages that are not the one counted.
pub unreferenced-update :
    (kend v n : ℕ) (f : ℕ → ℕ) (xs : List ℕ)
    → IsPage kend v
    → All (IsPage kend) xs
    → NotIn v xs
    → All (λ x. f (frame (v2p x)) ≡ 0) xs
    → All (λ x. update f (frame (v2p v)) n (frame (v2p x)) ≡ 0) xs
unreferenced-update kend v n f [] p ps out h = tt
unreferenced-update kend v n f (x ∷ xs) p ps out h = (
  ground (arith, frame_injective kend v x p ps.0),
  unreferenced-update kend v n f xs p ps.1 out.1 h.1,
)

-- A page with references is none of the free ones.
pub NotIn-of_refs :
    (v : ℕ) (f : ℕ → ℕ) (xs : List ℕ)
    → f (frame (v2p v)) ≢ 0
    → All (λ x. f (frame (v2p x)) ≡ 0) xs
    → NotIn v xs
NotIn-of_refs v f [] h all = tt
NotIn-of_refs v f (x ∷ xs) h all = (λ e. h (rw (← e) all.0), NotIn-of_refs v f xs h all.1)
